-- ===== src/Client/FileOpt/Fetched.antt =====
-- The client's getFile, when the server sends a name and a size and then closes.
use nex_file.Base.{
  ℕ, ◌+◌, ◌<◌, ◌≤◌, ◌≡◌, refl, sym, ◌∙◌, ap, pos, true, Bytes, IsStr, List, [], ◌++◌, append-nil,
  length, length-replicate, overwrite, replicate, drop_all, eq→==, arith,
}
use nex_file.Base.Io.{ok}
use nex_file.Protocol.{PacketCmd, Train, data_size}
use nex_file.Protocol.Wire.{train_bytes, int_from, u32_of, int_of}
use nex_file.Net.{RecvAct}
use nex_file.Net.Schedule.{OnlyGive, deliveries}
use nex_file.Server.Train.Reading.{carrying, copy_out-carrying}
use nex_file.Server.Files.{off_from}
use nex_file.Server.Auth.Login.{string_in-cleared}
use nex_file.Client.Transfer.Closed.{recvn-Closed}
use nex_file.Client.Train.Reading.{read_train-Got}
use nex_file.Client.Signal.{recv_signal, signal_of, signal_size}
use nex_file.Client.FileOpt.{
  LocalOs, Client, Scratch, await, get_content, store_content, get_train, receive_file, get_file,
}

module _ {F : Type 0} (os : LocalOs F) (m : Scratch) where
  record Taken (k : ℕ) (t : Train) (buf text rest : Bytes) (s : Client F) : Type 0 where
    acts : List RecvAct
    returns :
        get_train os m t buf s
        ≡ ok
            (carrying text t, overwrite text buf)
            (record s { conn = record s.conn { incoming = rest; recvs = acts } })
    calm : OnlyGive acts
    enough : k ≤ deliveries acts

  train-Taken :
      (k : ℕ) (t : Train) (buf text rest : Bytes) (s : Client F)
      → length text ≤ length buf
      → length text ≤ data_size
      → s.conn.incoming ≡ train_bytes text ++ rest
      → OnlyGive s.conn.recvs
      → k + length text + 4 ≤ deliveries s.conn.recvs
      → Taken k t buf text rest s
  unfolding get_train
  train-Taken k t buf text rest s fits short e calm enough =
      let r = read_train-Got k t text rest s.conn short e calm enough in
      record {
        acts = r.acts;
        returns = rw r.returns (rw (copy_out-carrying t buf text _ fits short) refl);
        calm = r.calm;
        enough = r.enough;
      }

  -- The content and the reply, of which nothing comes
  nothing_stored :
      (name : Bytes) (n : ℕ) (s : Client F)
      → 0 < n
      → s.conn.incoming ≡ []
      → OnlyGive s.conn.recvs
      → 2 ≤ deliveries s.conn.recvs
      → (recvs : List RecvAct) × (get_content os m name (pos n) s
          ≡ ok (pos 0) (record s {
            files = os.fill name [] s.files;
            conn = record s.conn { incoming = []; recvs = recvs };
          }))
  unfolding get_content await recv_signal signal_of int_from u32_of int_of
  nothing_stored name n s p e calm enough =
      let content = recvn-Closed 1 n s.conn p e calm enough in
      let c₁ = record s.conn { incoming = []; recvs = content.acts } in
      let reply = recvn-Closed 0 signal_size c₁ (omega arith) refl content.calm content.enough in
      (reply.acts, rw content.returns (rw reply.returns refl))

  -- getFile, when no more than a name of fewer than 1024 bytes and the size of a file that is not empty
  -- come from the server, and every call of recv delivers: if the calls on the local files succeed, it
  -- makes a file of that name and size, stores nothing in it, and returns 0.
  pub get_file-stores_nothing :
      (cmd : PacketCmd) (name size : Bytes) (n : ℕ) (s : Client F) (fs₁ fs₂ : F)
      → cmd.arg_flag ≡ 1
      → IsStr name
      → length name < 1024
      → length size ≡ 8
      → length m.size_buf ≡ 8
      → off_from size ≡ pos n
      → 0 < n
      → s.conn.incoming ≡ train_bytes name ++ train_bytes size
      → OnlyGive s.conn.recvs
      → 2 + 8 + 4 + length name + 4 ≤ deliveries s.conn.recvs
      → os.create name s.files ≡ (true, fs₁)
      → os.resize name (pos n) fs₁ ≡ (true, fs₂)
      → (recvs : List RecvAct) × (get_file os m cmd s
          ≡ ok (pos 0) (record s {
            files = os.fill name [] fs₂;
            conn = record s.conn { incoming = []; recvs = recvs };
          }))
  unfolding get_file receive_file store_content
  get_file-stores_nothing cmd name size n s fs₁ fs₂ flag str short eight room off some_size came
        calm enough created resized =
      let zeros = length-replicate {A = ℕ} 1024 0 in
      let r₁ =
        train-Taken (2 + 8 + 4) m.train (replicate 1024 0) name (train_bytes size) s
          (omega (arith, zeros)) (omega arith) came calm (omega arith) in
      let s₁ : Client F = record s {
        conn = record s.conn { incoming = train_bytes size; recvs = r₁.acts };
      } in
      let r₂ =
        train-Taken 2 (carrying name m.train) m.size_buf size [] s₁ (omega arith) (omega arith)
          (sym (append-nil (train_bytes size))) r₁.calm (omega (arith, r₁.enough)) in
      let s₂ : Client F = record s { conn = record s.conn { incoming = []; recvs = r₂.acts } } in
      let s₃ : Client F = record s₂ { files = fs₂ } in
      let full : overwrite size m.size_buf ≡ size =
        ap (λ tail. size ++ tail) (drop_all (length size) m.size_buf (omega arith))
        ∙ append-nil size in
      let file_size : off_from (overwrite size m.size_buf) ≡ pos n = ap off_from full ∙ off in
      let (recvs, done) = nothing_stored name n s₃ some_size refl r₂.calm r₂.enough in
      (
        recvs,
        rw (eq→== cmd.arg_flag 1 flag) (
            rw r₁.returns (
              rw r₂.returns (
                rw (string_in-cleared 1024 name s₂ short str)
                  (rw file_size (rw created (rw resized done)))))),
      )
