-- ===== src/Server/Files/Quiet.antt =====
-- The transfer of a file from the client sends nothing.
use nex_file.Base.{refl, ap, ℤ, Bool, Bytes, c_str, length, leb, if◌then◌else◌}
use nex_file.Base.Io.{Io, Run, ok, blocked, undefined, exited, pure, fail_undefined, exit}
use nex_file.Base.Keeps.{Kept, Keeps, Keeps-bind, Keeps-if}
use nex_file.Protocol.{Train}
use nex_file.Net.{Conn}
use nex_file.Server.State.{Server, with_conn, on_conn}
use nex_file.Server.Transfer.{recvn}
use nex_file.Server.Train.{read_train, copy_out}
use nex_file.Server.Files.{Os, syscall, string_in, receive_into, receive_file, store_file, put_file}
use nex_file.Server.Train.Quiet.{sent, recvn-sent, read_train-sent, copy_out-sent}

pub Keeps-string_in : {S B : Type 0} (f : S → B) (buf : Bytes) → Keeps f (string_in buf)
Keeps-string_in f buf =
    Keeps-if f (leb (length buf) (length (c_str buf))) fail_undefined (pure (c_str buf)) (λ s. tt)
      (λ s. refl)

receive_into-sent : (t : Train) (buf : Bytes) → Keeps sent (receive_into t buf)
unfolding receive_into
receive_into-sent t buf =
    Keeps-bind sent (read_train t) _ (read_train-sent t)
      λ t'. Keeps-bind sent (copy_out t' buf) _ (copy_out-sent t' buf) λ b. λ s. refl

-- What the peer sees of a server thread, and the global path.
abbrev pub seen : {F : Type 0} → Server F → Bytes × Bytes
seen s = (s.conn.outgoing, s.client_path)

module _ {F : Type 0} (os : Os F) where
  with_conn-seen :
      {A : Type 0} (s : Server F) (x : Run Conn A)
      → Kept sent s.conn x
      → Kept seen s (with_conn s x)
  with_conn-seen s (ok a c) h = ap (λ o. (o, s.client_path)) h
  with_conn-seen s blocked h = tt
  with_conn-seen s undefined h = tt
  with_conn-seen s exited h = tt

  pub on_conn-seen : {A : Type 0} (m : Io Conn A) → Keeps sent m → Keeps seen (on_conn {F = F} m)
  on_conn-seen m h s = with_conn-seen s (m s.conn) (h s.conn)

  pub syscall-seen : (f : F → Bool × F) → Keeps seen (syscall f)
  syscall-seen f s = refl

  receive_file-seen : (name : Bytes) (size : ℤ) → Keeps seen (receive_file os name size)
  unfolding receive_file
  receive_file-seen name size =
      Keeps-bind seen (on_conn (recvn size)) _ (on_conn-seen _ (recvn-sent size))
        λ (_, content). λ s. refl

  store_file-seen : (name : Bytes) (size : ℤ) → Keeps seen (store_file os name size)
  unfolding store_file
  store_file-seen name size =
      Keeps-bind seen (syscall (os.create name)) _ (syscall-seen (os.create name)) λ created.
        Keeps-bind seen (if created then syscall (os.resize name size) else exit) _
          (Keeps-if seen created _ _ (syscall-seen (os.resize name size)) (λ s. tt))
          λ mapped. Keeps-if seen mapped _ exit (receive_file-seen name size) (λ s. tt)

  pub put_file-seen : (name_buf size_buf : Bytes) → Keeps seen (put_file os name_buf size_buf)
  unfolding put_file
  put_file-seen name_buf size_buf =
      Keeps-bind seen (on_conn (receive_into _ name_buf)) _
        (on_conn-seen _ (receive_into-sent _ name_buf))
        λ (t, whole). Keeps-bind seen (string_in whole) _ (Keeps-string_in seen whole) λ name.
          Keeps-bind seen (on_conn (receive_into t size_buf)) _
            (on_conn-seen _ (receive_into-sent t size_buf)) λ (_, size). store_file-seen name _
