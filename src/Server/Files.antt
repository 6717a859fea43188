-- ===== src/Server/Files.antt =====
-- GetFile and PutFile of NexFile/server/cmdHandle.c, and the calls of the operating system that the
-- command handlers make. What the handlers print is left out.
pub mod Quiet
pub mod Taken
use nex_file.Base.{
  ℕ, ◌+◌, ◌*◌, ◌-◌, ◌^◌, ℤ, pos, negsuc, minus_one, Bool, true, false, Bytes, c_str, List, [], ◌∷◌,
  ◌++◌, length, drop, ltb, leb, if◌then◌else◌, Option, none, some,
}
use nex_file.Base.Io.{Io, Run, ok, exit, pure, fail_undefined, ◌>>=◌, ◌>>◌}
use nex_file.Protocol.{PacketCmd, Train, data_size}
use nex_file.Protocol.Wire.{train_bytes, u32_of}
use nex_file.Net.{Conn, send, Sent, took, send_eintr, send_broken}
use nex_file.Server.State.{Server, on_conn}
use nex_file.Server.Transfer.{recvn}
use nex_file.Server.Train.{read_train, copy_out, train_zero}

-- The calls on files, on a state `F` that the operating system keeps; a Boolean says whether the
-- call succeeds. `size_of` is `open` and `fstat`: the 8 bytes of `st_size`. `create` is `open` to
-- write an empty file. `resize` is `ftruncate` and `mmap`. `fill` writes the front of the mapping.
pub record Os (F : Type 0) : Type 0 where
  pub mkdir : Bytes → F → Bool × F
  pub unlink : Bytes → F → Bool × F
  pub opendir : Bytes → F → Bool
  pub getcwd : F → Bool
  pub size_of : Bytes → F → Option Bytes
  pub create : Bytes → F → Bool × F
  pub resize : Bytes → ℤ → F → Bool × F
  pub fill : Bytes → Bytes → F → F

-- An `off_t` in memory
abbrev pub off_from : Bytes → ℤ
off_from bs =
    let u = u32_of bs + u32_of (drop 4 bs) * 2 ^ 32 in
    if ltb u (2 ^ 63) then pos u else negsuc (2 ^ 64 - 1 - u)

-- A string in the bytes of a buffer; without a NUL it is read past their end.
abbrev pub string_in : {S : Type 0} → Bytes → Io S Bytes
string_in buf = if leb (length buf) (length (c_str buf)) then fail_undefined else pure (c_str buf)

-- One `send` of a train: whether it returns 0 or more.
unfoldable pub send_once : Bytes → Io Conn Bool
send_once text = do
  r ← send (train_bytes text)
  pure (elim r [ took done rest ↦ true | send_eintr ↦ false | send_broken ↦ false ])

-- A train, read over `t` and copied to the front of a buffer that holds `buf`.
unfoldable pub receive_into : Train → (buf : Bytes) → Io Conn (Train × Bytes)
receive_into t buf = do t' ← read_train t; buf' ← copy_out t' buf; pure (t', buf')

module _ {F : Type 0} where
  -- A call that changes the file system.
  abbrev pub syscall : (F → Bool × F) → Io (Server F) Bool
  syscall f s = ok (f s.files).0 (record s { files = (f s.files).1 })

  -- A call that reads it.
  abbrev pub query : {A : Type 0} → (F → A) → Io (Server F) A
  query f s = ok (f s.files) s

  send_size : Option Bytes → Io (Server F) ℤ
  send_size none = exit
  send_size (some size) = do
    sent ← on_conn (send_once size)
    pure (if sent then pos 0 else minus_one)

  send_file : Os F → (path : Bytes) → Io (Server F) ℤ
  send_file os path = do
    sent ← on_conn (send_once path)
    if sent then (do size ← query (os.size_of path); send_size size) else pure minus_one

  -- GetFile: the name is sent, then the size of the file. A file that does not open ends the
  -- server (ERROR_CHECK).
  unfoldable pub get_file : Os F → PacketCmd → Io (Server F) ℤ
  unfolding send_size send_file
  get_file os cmd = do path ← string_in cmd.payload; send_file os path

  -- The bytes of the file, into the mapping.
  receive_file : Os F → (name : Bytes) → (size : ℤ) → Io (Server F) ℤ
  receive_file os name size = do
    (_, content) ← on_conn (recvn size)
    syscall (λ fs. (true, os.fill name content fs))
    pure (pos 0)

  store_file : Os F → (name : Bytes) → (size : ℤ) → Io (Server F) ℤ
  store_file os name size = do
    created ← syscall (os.create name)
    mapped ← if created then syscall (os.resize name size) else exit
    if mapped then receive_file os name size else exit

  -- PutFile. `name_buf` and `size_buf` are what the memory of `filename` (256 bytes) and `filesize`
  -- (8 bytes) holds at the start.
  unfoldable pub put_file : Os F → (name_buf size_buf : Bytes) → Io (Server F) ℤ
  unfolding receive_file store_file
  put_file os name_buf size_buf = do
    (t, whole) ← on_conn (receive_into train_zero name_buf)
    name ← string_in whole
    (_, size) ← on_conn (receive_into t size_buf)
    store_file os name (off_from size)
