-- ===== src/Server/Command.antt =====
-- cmdParse of NexFile/server/cmdHandle.c and its handlers. What they print is left out, and so is
-- the list of names that listDir only prints.
pub mod Replies
pub mod Silent
pub mod Unanswered
use nex_file.Base.{
  ℕ, ℤ, pos, minus_one, Bool, true, false, Bytes, codes, List, [], ◌∷◌, ◌++◌, length, leb, ◌==◌,
  if◌then◌else◌, Option, some,
}
use nex_file.Base.Io.{Io, pure, ◌>>=◌, ◌>>◌}
use nex_file.Protocol.{
  PacketCmd, to_code, CommandCode, req_cd, req_ls, req_pwd, req_rm, req_put, req_get, req_mkdir,
  cmd_success, cmd_failure,
}
use nex_file.Server.State.{Server, on_conn, get_path}
use nex_file.Server.Signal.{send_signal}
use nex_file.Server.Files.{Os, syscall, query, string_in, get_file, put_file}
use nex_file.Server.Auth.{max_path_len}

-- The message and the status of makeDir's reply
abbrev pub success_message : Bytes
success_message = codes "Directory created successfully"

abbrev pub failure_message : Bytes
failure_message = codes "Failed to create directory"

report : {F : Type 0} → Bool → Io (Server F) ℤ
report true = do on_conn (send_signal (some success_message) cmd_success); pure (pos 0)
report false = do on_conn (send_signal (some failure_message) cmd_failure); pure minus_one

module _ {F : Type 0} (os : Os F) where
  -- changeDir
  change_dir : Io (Server F) ℤ
  change_dir = pure (pos 0)

  -- listDir
  list_dir : PacketCmd → Io (Server F) ℤ
  list_dir cmd = do
    name ← string_in cmd.payload
    opened ← query (os.opendir name)
    pure (if opened then pos 0 else minus_one)

  -- printWorkingDir
  print_working_dir : Io (Server F) ℤ
  print_working_dir = do found ← query os.getcwd; pure (if found then pos 0 else minus_one)

  -- removeFile
  remove_file : PacketCmd → Io (Server F) ℤ
  remove_file cmd = do
    name ← string_in cmd.payload
    done ← syscall (os.unlink name)
    pure (if done then pos 0 else minus_one)

  -- `clientPath/data_`, which `snprintf` writes in full if it has fewer than 1024 bytes.
  make_path : Bytes → Io (Server F) ℤ
  make_path path =
      if leb max_path_len (length path)
      then pure minus_one
      else do made ← syscall (os.mkdir path); report made

  -- makeDir
  unfoldable pub make_dir : PacketCmd → Io (Server F) ℤ
  unfolding make_path report
  make_dir cmd = do
    client_path ← get_path
    name ← string_in cmd.payload
    make_path (client_path ++ (b'/' ∷ name))

  -- The handler's result is ignored.
  abbrev handled : Io (Server F) ℤ → Io (Server F) ℤ
  handled m = m >> pure (pos 0)

  -- cmdParse; `name_buf` and `size_buf` are the memory of PutFile.
  unfoldable pub cmd_parse : (name_buf size_buf : Bytes) → PacketCmd → Io (Server F) ℤ
  unfolding change_dir list_dir print_working_dir remove_file
  cmd_parse name_buf size_buf cmd =
      if cmd.cmd_code == to_code req_cd
      then handled change_dir
      else if cmd.cmd_code == to_code req_ls
      then handled (list_dir cmd)
      else if cmd.cmd_code == to_code req_mkdir
      then handled (make_dir cmd)
      else if cmd.cmd_code == to_code req_rm
      then handled (remove_file cmd)
      else if cmd.cmd_code == to_code req_put
      then handled (put_file os name_buf size_buf)
      else if cmd.cmd_code == to_code req_get
      then handled (get_file os cmd)
      else if cmd.cmd_code == to_code req_pwd
      then handled print_working_dir
      else pure minus_one
