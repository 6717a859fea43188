-- ===== src/Server/Auth.antt =====
-- authenticateUser of NexFile/server/authen.c and UserAuthen of NexFile/server/sendMessage.c. The
-- shadow file is an argument: `getspnam` gives the hash of a user, or `none`.
pub mod Closed
pub mod Login
pub mod Path
pub mod Calls
pub mod Kept
pub mod Reply
pub mod Result
pub mod Steps
use nex_file.Base.{
  ℕ, ◌+◌, ◌-◌, ℤ, pos, negsuc, pos_part, eq_ℤ, minus_one, Bool, true, false, not, ◌||◌, Bytes,
  codes, text_eq, c_str, List, [], ◌∷◌, ◌++◌, length, take, replicate, ltb, leb, ◌==◌,
  if◌then◌else◌, Option, none, some,
}
use nex_file.Base.Io.{Io, Run, pure, fail_undefined, ◌>>=◌, ◌>>◌}
use nex_file.Protocol.{Train}
use nex_file.Protocol.Wire.{train_bytes}
use nex_file.Net.{Conn, send, Sent, took, send_eintr, send_broken}
use nex_file.Server.State.{Server, on_conn, get_path, set_path}
use nex_file.Server.Train.{train_zero, read_train, copy_out}

-- `getspnam`
abbrev pub Shadow : Type 0
Shadow = Bytes → Option Bytes

-- The `AUTH_RESULT_` constants
abbrev pub result_ok : ℤ
result_ok = pos 0

abbrev pub result_fail : ℤ
result_fail = minus_one

abbrev pub result_user_query_fail : ℤ
result_user_query_fail = pos 1

abbrev pub result_io_error : ℤ
result_io_error = negsuc 1

-- `MAX_PATH_LEN`
abbrev pub max_path_len : ℕ
max_path_len = 1024

compare_hash : Bytes → Option Bytes → ℤ
compare_hash crypt_password none = result_user_query_fail
compare_hash crypt_password (some hash) =
    if not (text_eq crypt_password hash) then result_fail else result_ok

-- authenticateUser; `none` is a null pointer.
unfoldable pub authenticate_user : Shadow → (username crypt_password : Option Bytes) → ℤ
unfolding compare_hash
authenticate_user shadow (some username) (some crypt_password) =
    compare_hash crypt_password (shadow username)
authenticate_user shadow _ _ = result_user_query_fail

-- A train received and copied to a cleared buffer of `room` bytes, with a NUL behind it: the
-- string in the buffer.
unfoldable pub receive_text : (room : ℕ) → Io Conn Bytes
receive_text room = do
  t ← read_train train_zero
  buf ← copy_out t (replicate room 0)
  if leb room (pos_part t.len) then fail_undefined else pure (c_str buf)

-- `send` of the train, once; true if it returns more than 0.
unfoldable pub send_reply : Bytes → Io Conn Bool
send_reply text = do
  r ← send (train_bytes text)
  pure (elim r [ took done rest ↦ ltb 0 (length done) | send_eintr ↦ false | send_broken ↦ false ])

unfoldable pub last_or_nul : Bytes → ℕ
last_or_nul [] = 0
last_or_nul (c ∷ []) = c
last_or_nul (c ∷ d ∷ cs) = last_or_nul (d ∷ cs)

-- The path with a slash at its end.
slashed : Bytes → Bytes
slashed p = if length p == 0 || not (last_or_nul p == b'/') then p ++ b'/' ∷ [] else p

-- `strncat(clientPath, username, MAX_PATH_LEN - pathLen - 1)` behind the slash.
unfoldable pub enter_home : (path username : Bytes) → Bytes
unfolding slashed last_or_nul
enter_home path username = let p = slashed path in p ++ take (max_path_len - length p - 1) username

-- The reply to a match: `clientPath` is extended and the success is sent.
pub welcome : {F : Type 0} → (username path : Bytes) → (auth_ret : ℤ) → Io (Server F) ℤ
welcome username path auth_ret =
    if leb max_path_len (length path + 1 + length username) then pure result_io_error else do
      set_path (enter_home path username)
      sent ← on_conn (send_reply (codes "AUTH_RESULT_OK"))
      pure (if sent then auth_ret else result_io_error)

-- The reply to a mismatch or an unknown user.
pub refuse : {F : Type 0} → (auth_ret : ℤ) → Io (Server F) ℤ
refuse auth_ret = do
  sent ← on_conn (send_reply (codes "AUTH_FAIL"))
  pure (if sent then auth_ret else result_io_error)

-- UserAuthen behind the comparison.
unfoldable pub answer : {F : Type 0} → (username : Bytes) → (auth_ret : ℤ) → Io (Server F) ℤ
unfolding welcome refuse
answer username auth_ret =
    if eq_ℤ auth_ret result_ok
    then (do path ← get_path; welcome username path auth_ret)
    else if eq_ℤ auth_ret result_user_query_fail || eq_ℤ auth_ret result_fail
    then refuse auth_ret
    else pure result_user_query_fail

-- UserAuthen
unfoldable pub user_authen : {F : Type 0} → Shadow → Io (Server F) ℤ
user_authen shadow = do
  username ← on_conn (receive_text 64)
  crypt_password ← on_conn (receive_text 128)
  answer username (authenticate_user shadow (some username) (some crypt_password))
