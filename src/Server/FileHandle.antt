-- ===== src/Server/FileHandle.antt =====
-- recvFile and sendFile of NexFile/server/fileHandle.c, which no other file of the program calls.
pub mod Stored
use nex_file.Base.{
  ℕ, ℤ, pos, minus_one, Bool, true, false, Bytes, c_str, List, [], ◌∷◌, ◌++◌, length, replicate,
  ltb, if◌then◌else◌, Option, none, some,
}
use nex_file.Base.Io.{Io, Run, ok, exit, pure, fail_undefined, ◌>>=◌, ◌>>◌}
use nex_file.Protocol.{Train, data_size}
use nex_file.Net.{Conn, Sent, send}
use nex_file.Server.State.{Server, on_conn}
use nex_file.Server.Transfer.{recvn}
use nex_file.Server.Files.{off_from, string_in, send_once, receive_into, syscall, query}

-- The calls on files. `touch` is `open` with `O_CREAT`, which keeps what an existing file holds;
-- `resize` is `ftruncate` and `mmap`, and `fill` writes the front of the mapping. `content_of` is
-- `open`, `fstat` and what `sendfile` finds: the 8 bytes of `st_size`, and the bytes of the file.
pub record Disk (F : Type 0) : Type 0 where
  pub touch : Bytes → F → Bool × F
  pub resize : Bytes → ℤ → F → Bool × F
  pub fill : Bytes → Bytes → F → F
  pub content_of : Bytes → F → Option (Bytes × Bytes)

module _ {F : Type 0} (disk : Disk F) where
  fill_file : (name : Bytes) → (filesize : ℤ) → Io (Server F) ℤ
  fill_file name filesize = do
    (_, content) ← on_conn (recvn filesize)
    syscall (λ fs. (true, disk.fill name content fs))
    pure (pos 0)

  make_file : (name : Bytes) → (filesize : ℤ) → Io (Server F) ℤ
  unfolding fill_file
  make_file name filesize = do
    opened ← syscall (disk.touch name)
    mapped ← if opened then syscall (disk.resize name filesize) else exit
    if mapped then fill_file name filesize else exit

  -- recvFile; `t` and `size_buf` are what the memory of `train` and of `filesize` holds.
  unfoldable pub recv_file : (t : Train) → (size_buf : Bytes) → Io (Server F) ℤ
  unfolding make_file
  recv_file t size_buf = do
    (t', whole) ← on_conn (receive_into t (replicate 128 0))
    (_, size) ← on_conn (receive_into t' size_buf)
    name ← string_in whole
    make_file name (off_from size)

  -- The size and the content. The results of the calls are ignored; `sendfile` is one more call of
  -- the schedule.
  send_content : Option (Bytes × Bytes) → Io (Server F) ℤ
  send_content none = exit
  send_content (some (size, content)) = do
    on_conn (send_once size)
    on_conn (send content)
    pure (pos 0)

  -- sendFile. A name of more than 1024 bytes is copied past the end of `data_`.
  unfoldable pub send_file : (file_name : Bytes) → Io (Server F) ℤ
  unfolding send_content
  send_file file_name = if ltb data_size (length file_name) then fail_undefined else do
    on_conn (send_once file_name)
    found ← query (disk.content_of file_name)
    send_content found
