-- ===== src/Server/Auth/Steps.antt =====
-- How UserAuthen of NexFile/server/sendMessage.c extends `clientPath`, statement by statement, on
-- the buffer of 1024 bytes. Another worker's statements may come between any two of these.
pub mod Alone
pub mod Race
use nex_file.Base.{
  ℕ, ◌+◌, ◌-◌, Bool, true, false, not, ◌||◌, Bytes, c_str, [], ◌∷◌, ◌++◌, length, take, drop,
  overwrite, leb, ◌==◌, if◌then◌else◌, Option, none, some,
}
use nex_file.Base.Io.{Io, ok, fail_undefined, pure, ◌>>=◌, ◌>>◌}
use nex_file.Server.Auth.{max_path_len, last_or_nul}

-- A write of some bytes at an index; past the end of the buffer it is undefined.
unfoldable pub put_at : (i : ℕ) → Bytes → Io Bytes (Unit {0})
put_at i bs buf =
    if leb (i + length bs) (length buf)
    then ok tt (take i buf ++ overwrite bs (drop i buf))
    else fail_undefined buf

-- `strlen(clientPath)`; without a NUL it reads past the end.
unfoldable pub str_len : Io Bytes ℕ
str_len buf =
    if leb (length buf) (length (c_str buf))
    then fail_undefined buf
    else ok (length (c_str buf)) buf

-- `pathLen`, if the test of the room passes.
unfoldable pub path_room : (username : Bytes) → Io Bytes (Option ℕ)
path_room username = do
  path_len ← str_len
  pure (if leb max_path_len (path_len + 1 + length username) then none else some path_len)

-- The slash: `pathLen` behind it.
unfoldable pub put_slash : (path_len : ℕ) → Io Bytes ℕ
put_slash path_len buf =
    if path_len == 0 || not (last_or_nul (take path_len buf) == b'/')
    then (put_at path_len (b'/' ∷ 0 ∷ []) >> pure (path_len + 1)) buf
    else ok path_len buf

-- `strncat(clientPath, username, MAX_PATH_LEN - pathLen - 1)`
unfoldable pub put_name : (username : Bytes) → (path_len : ℕ) → Io Bytes (Unit {0})
put_name username path_len = do
  end ← str_len
  put_at end (take (max_path_len - path_len - 1) username ++ 0 ∷ [])

-- The three statements of one worker, with none of another between them: whether there was room.
unfoldable pub extend_alone : (username : Bytes) → Io Bytes Bool
extend_alone username = do
  room ← path_room username
  elim room [
    | none ↦ pure false
    | some path_len ↦ do behind ← put_slash path_len; put_name username behind; pure true
  ]
