-- ===== src/Client/Login.antt =====
-- sendPassword of NexFile/client/clientsendMessage.c and the login of NexFile/client/encryption.c.
-- `crypt` is an argument: it gives the hash of a password, or `none` when it fails.
pub mod Connects
pub mod Prompt
pub mod Received
pub mod Sent
use nex_file.Base.{
  ℤ, pos, pos_part, minus_one, is_neg, Bool, true, false, not, ◌||◌, Bytes, codes, text_eq, c_str,
  List, [], ◌∷◌, ◌++◌, length, take, replicate, overwrite, ltb, leb, if◌then◌else◌, Option, none,
  some,
}
use nex_file.Base.Io.{Io, Run, ok, blocked, undefined, exited, pure, fail_undefined, ◌>>=◌, ◌>>◌}
use nex_file.Protocol.{Train, data_size}
use nex_file.Protocol.Wire.{train_bytes, int_bytes, int_from}
use nex_file.Net.{Conn}
use nex_file.Server.Transfer.{sendn}
use nex_file.Client.Train.{read_train}

-- `crypt` with the salt of encryptPassword
abbrev pub Crypt : Type 0
Crypt = Bytes → Option Bytes

-- A train filled with the text and sent; true if sendn fails. A text of more than 1024 bytes is
-- copied past the end of `data_`.
send_train : Bytes → Io Conn Bool
send_train text =
    if ltb data_size (length text)
    then fail_undefined
    else do ret ← sendn (train_bytes text); pure (is_neg ret)

send_texts : (username password : Bytes) → Io Conn ℤ
send_texts username password = do
  failed ← send_train username
  if failed
      then pure minus_one
      else do failed ← send_train password; pure (if failed then minus_one else pos 0)

-- sendPassword; `none` is a null pointer.
unfoldable pub send_password : (username password : Option Bytes) → Io Conn ℤ
unfolding send_texts send_train
send_password (some username) (some password) = send_texts username password
send_password _ _ = pure minus_one

-- handlePassword
unfoldable pub handle_password : Crypt → (username password : Option Bytes) → Io Conn ℤ
unfolding send_password
handle_password crypt (some username) (some password) =
    send_password (some username) (crypt password)
handle_password crypt _ _ = pure minus_one

-- The connection, and `g_clientState.is_connected`.
pub record Login : Type 0 where
  pub conn : Conn
  pub is_connected : Bool

abbrev pub with_login : {A : Type 0} → Login → Run Conn A → Run Login A
with_login s (ok a c) = ok a (record s { conn = c })
with_login s blocked = blocked
with_login s undefined = undefined
with_login s exited = exited

abbrev pub on_conn : {A : Type 0} → Io Conn A → Io Login A
on_conn m s = with_login s (m s.conn)

-- `auth_response` after the copy of `train.data_` into its 64 bytes, and the NUL behind it.
copy_response : Train → Io Conn Bytes
copy_response t =
    if is_neg t.len || leb 64 (pos_part t.len)
    then fail_undefined
    else pure (c_str (overwrite (take (pos_part t.len) t.payload ++ 0 ∷ []) (replicate 64 0)))

-- The reply of the server. The structure is not cleared: `t` is what its memory holds.
unfoldable pub receive_response : Train → Io Conn Bytes
unfolding copy_response
receive_response t = do t' ← read_train t; copy_response t'

-- What handle_authentication makes of the reply.
judge : (response : Bytes) → Io Login ℤ
judge response s =
    if text_eq response (codes "AUTH_RESULT_OK")
    then ok (pos 0) (record s { is_connected = true })
    else ok minus_one s

-- handle_authentication
unfoldable pub handle_authentication :
    Crypt → Train → (username password : Option Bytes) → Io Login ℤ
unfolding judge
handle_authentication crypt t (some username) (some password) = do
  ret ← on_conn (handle_password crypt (some username) (some password))
  if is_neg ret then pure minus_one else do response ← on_conn (receive_response t); judge response
handle_authentication crypt t _ _ = pure minus_one
