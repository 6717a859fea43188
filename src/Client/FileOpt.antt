-- ===== src/Client/FileOpt.antt =====
-- cmdParse, sendCmd and the command handlers of NexFile/client/fileOpt.c. What they print is left
-- out.
pub mod Fetched
pub mod Packet
pub mod Prompt
pub mod Quiet
pub mod Waiting
use nex_file.Base.{
  ℕ, ℤ, pos, minus_one, Bool, true, false, not, Bytes, List, [], ◌∷◌, ◌++◌, replicate, ◌==◌,
  if◌then◌else◌, Option, none, some,
}
use nex_file.Base.Io.{Io, Run, ok, blocked, undefined, exited, exit, pure, ◌>>=◌, ◌>>◌}
use nex_file.Protocol.{
  PacketCmd, Train, to_code, CommandCode, req_cd, req_ls, req_pwd, req_rm, req_put, req_get,
  req_mkdir,
}
use nex_file.Protocol.Packet.{packet_bytes}
use nex_file.Net.{Conn, send, took, send_eintr, send_broken}
use nex_file.Server.Train.{copy_out}
use nex_file.Server.Files.{off_from, string_in, send_once}
use nex_file.Client.Transfer.{recvn}
use nex_file.Client.Train.{read_train}
use nex_file.Client.Signal.{recv_signal}

-- The calls on the client's own files, on a state `F` that its operating system keeps; a Boolean says
-- whether the call succeeds. `size_at` is `open` and `fstat` of the file whose name stands at an
-- address: the 8 bytes of `st_size`. `create` is `open` to write an empty file, `resize` is
-- `ftruncate` and `mmap`, and `fill` writes the front of the mapping.
pub record LocalOs (F : Type 0) : Type 0 where
  pub size_at : (address : ℕ) → F → Option Bytes
  pub create : Bytes → F → Bool × F
  pub resize : Bytes → ℤ → F → Bool × F
  pub fill : Bytes → Bytes → F → F

-- What the client works on: its connection, `g_clientState.is_connected`, and its files.
pub record Client (F : Type 0) : Type 0 where
  pub conn : Conn
  pub is_connected : Bool
  pub files : F

abbrev pub with_conn : {F A : Type 0} → Client F → Run Conn A → Run (Client F) A
with_conn s (ok a c) = ok a (record s { conn = c })
with_conn s blocked = blocked
with_conn s undefined = undefined
with_conn s exited = exited

abbrev pub on_conn : {F A : Type 0} → Io Conn A → Io (Client F) A
on_conn m s = with_conn s (m s.conn)

abbrev syscall : {F : Type 0} → (F → Bool × F) → Io (Client F) Bool
syscall f s = ok (f s.files).0 (record s { files = (f s.files).1 })

abbrev query : {F A : Type 0} → (F → A) → Io (Client F) A
query f s = ok (f s.files) s

-- What the uninitialised variables of a call hold: `train` and `filesize`; and whether `calloc` in
-- recvSignal succeeds.
pub record Scratch : Type 0 where
  pub train : Train
  pub size_buf : Bytes
  pub alloc : Bool

-- sendCmd, on a packet that is no null pointer: one `send`, of which only an error is noticed.
unfoldable pub send_cmd : PacketCmd → Io Conn ℤ
send_cmd cmd = do
  r ← send (packet_bytes cmd)
  pure (elim r [ took done rest ↦ pos 0 | send_eintr ↦ minus_one | send_broken ↦ minus_one ])

module _ {F : Type 0} (os : LocalOs F) (m : Scratch) where
  -- recvSignal, whose result the handlers ignore.
  await : Io (Client F) ℤ
  await = do on_conn (recv_signal m.alloc); pure (pos 0)

  -- changeDir and listDir
  change_dir : Io (Client F) ℤ
  unfolding await
  change_dir = await

  list_dir : Io (Client F) ℤ
  unfolding await
  list_dir = await

  -- printWorkingDir
  print_working_dir : PacketCmd → Io (Client F) ℤ
  unfolding await
  print_working_dir cmd = if cmd.arg_flag == 1 then pure minus_one else await

  -- removeFile and makeDir
  remove_file : PacketCmd → Io (Client F) ℤ
  unfolding await
  remove_file cmd = if not (cmd.arg_flag == 1) then pure minus_one else await

  make_dir : PacketCmd → Io (Client F) ℤ
  unfolding await
  make_dir cmd = if not (cmd.arg_flag == 1) then pure minus_one else await

  -- The size of the file, and the reply. A file that does not open ends the client (ERROR_CHECK).
  put_size : Option Bytes → Io (Client F) ℤ
  unfolding await
  put_size none = exit
  put_size (some size) = do sent ← on_conn (send_once size); if sent then await else pure minus_one

  put_named : PacketCmd → Io (Client F) ℤ
  put_named cmd = do
    name ← string_in cmd.payload
    sent ← on_conn (send_once name)
    if sent then (do size ← query (os.size_at cmd.cmd_code); put_size size) else pure minus_one

  -- putFile. Its `open` is given the number `cmdCode_` for the address of the name.
  unfoldable pub put_file : PacketCmd → Io (Client F) ℤ
  unfolding put_size put_named
  put_file cmd = if not (cmd.arg_flag == 1) then pure minus_one else put_named cmd

  -- The bytes of the file, into the mapping, and then the reply.
  get_content : (name : Bytes) → (size : ℤ) → Io (Client F) ℤ
  unfolding await
  get_content name size = do
    (_, content) ← on_conn (recvn size)
    syscall (λ fs. (true, os.fill name content fs))
    await

  store_content : (name : Bytes) → (size : ℤ) → Io (Client F) ℤ
  unfolding get_content
  store_content name size = do
    created ← syscall (os.create name)
    mapped ← if created then syscall (os.resize name size) else exit
    if mapped then get_content name size else exit

  get_train : (t : Train) → (buf : Bytes) → Io (Client F) (Train × Bytes)
  get_train t buf = do
    t' ← on_conn (read_train t)
    buf' ← on_conn (copy_out t' buf)
    pure (t', buf')

  receive_file : Io (Client F) ℤ
  receive_file = do
    (t, whole) ← get_train m.train (replicate 1024 0)
    (_, size) ← get_train t m.size_buf
    name ← string_in whole
    store_content name (off_from size)

  -- getFile
  unfoldable pub get_file : PacketCmd → Io (Client F) ℤ
  unfolding receive_file get_train store_content
  get_file cmd = if not (cmd.arg_flag == 1) then pure minus_one else receive_file

  -- The handler's result is ignored.
  abbrev handled : Io (Client F) ℤ → Io (Client F) ℤ
  handled n = n >> pure (pos 0)

  dispatch : (code : ℕ) → PacketCmd → Io (Client F) ℤ
  unfolding change_dir list_dir print_working_dir remove_file make_dir
  dispatch code cmd =
      if code == to_code req_cd
      then handled change_dir
      else if code == to_code req_ls
      then handled list_dir
      else if code == to_code req_mkdir
      then handled (make_dir cmd)
      else if code == to_code req_rm
      then handled (remove_file cmd)
      else if code == to_code req_put
      then handled (put_file cmd)
      else if code == to_code req_get
      then handled (get_file cmd)
      else if code == to_code req_pwd
      then handled (print_working_dir cmd)
      else pure minus_one

  -- cmdParse; the result of sendCmd is ignored.
  unfoldable pub cmd_parse : PacketCmd → Io (Client F) ℤ
  unfolding dispatch
  cmd_parse cmd = do on_conn (send_cmd cmd); dispatch cmd.cmd_code cmd
