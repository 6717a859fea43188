-- ===== src/Server/FileHandle/Stored.antt =====
-- What sendFile sends, recvFile stores.
use nex_file.Base.{
  ℕ, suc, ◌+◌, ◌<◌, ◌≤◌, ◌^◌, ◌≡◌, refl, sym, ◌∙◌, ap, ℤ, pos, true, Bytes, IsStr, List, [], ◌∷◌,
  ◌++◌, append-nil, append_assoc, length, length-replicate, take, take_all, drop, drop_all,
  replicate, overwrite, le→ltb, some, arith,
}
use nex_file.Base.Io.{ok}
use nex_file.Protocol.{Train, data_size}
use nex_file.Protocol.Wire.{train_bytes}
use nex_file.Net.{Conn, RecvAct, SendAct, accept, send, took}
use nex_file.Net.Schedule.{Delivers}
use nex_file.Server.State.{Server}
use nex_file.Server.Transfer.Receive.{recvn-Complete}
use nex_file.Server.Train.Reading.{carrying, read_train-Got, copy_out-carrying}
use nex_file.Server.Files.Taken.{sending, once_whole}
use nex_file.Server.Auth.Login.{string_in-cleared}
use nex_file.Server.Files.{off_from, receive_into}
use nex_file.Server.FileHandle.{Disk, fill_file, make_file, recv_file, send_content, send_file}

content_whole :
    (content : Bytes) (k : ℕ) (acts : List SendAct) (c : Conn)
    → c.sends ≡ accept k ∷ acts
    → length content ≤ suc k
    → send content c ≡ ok (took content []) (sending c content acts)
unfolding send
content_whole content k acts c e room =
    rw e (rw (take_all (suc k) content room, drop_all (suc k) content room))

-- A train that is read over `t` and copied to a buffer with room for it
record Got (k : ℕ) (t : Train) (buf text rest : Bytes) (c : Conn) : Type 0 where
  acts : List RecvAct
  returns :
      receive_into t buf c
      ≡ ok (carrying text t, overwrite text buf) (record c { incoming = rest; recvs = acts })
  delivers : Delivers k acts

received :
    (k : ℕ) (t : Train) (buf text rest : Bytes) (c : Conn)
    → length text ≤ length buf
    → length text ≤ data_size
    → c.incoming ≡ train_bytes text ++ rest
    → Delivers (k + length text + 4) c.recvs
    → Got k t buf text rest c
unfolding receive_into
received k t buf text rest c fits short e d =
    let r = read_train-Got k t text rest c short e d in
    record {
      acts = r.acts;
      returns = rw r.returns (rw (copy_out-carrying t buf text _ fits short) refl);
      delivers = r.delivers;
    }

module _ {F : Type 0} (disk : Disk F) where
  sent :
      (name size content : Bytes) (i j k : ℕ) (acts : List SendAct) (c : Server F)
      → length name < 128
      → length size ≡ 8
      → disk.content_of name c.files ≡ some (size, content)
      → c.conn.sends ≡ accept i ∷ accept j ∷ accept k ∷ acts
      → 4 + length name ≤ suc i
      → 12 ≤ suc j
      → length content ≤ suc k
      → send_file disk name c
        ≡ ok (pos 0) (record c {
          conn = record c.conn {
            outgoing = ((c.conn.outgoing ++ train_bytes name) ++ train_bytes size) ++ content;
            sends = acts;
          };
        })
  unfolding send_file send_content
  sent name size content i j k acts c short eight found e ri rj rk =
      let c₁ = sending c.conn (train_bytes name) (accept j ∷ accept k ∷ acts) in
      let c₂ = sending c₁ (train_bytes size) (accept k ∷ acts) in
      rw (le→ltb data_size (length name) (omega arith)) (
        rw (once_whole name i (accept j ∷ accept k ∷ acts) c.conn e ri) (
          rw found (
            rw (once_whole size j (accept k ∷ acts) c₁ refl (omega arith))
              (rw (content_whole content k acts c₂ refl rk)))))

  filled :
      (name content : Bytes) (s : Server F)
      → length content < 2 ^ 31
      → s.conn.incoming ≡ content
      → Delivers (length content) s.conn.recvs
      → (recvs : List RecvAct) × (fill_file disk name (pos (length content)) s
          ≡ ok (pos 0) (record s {
            files = disk.fill name content s.files;
            conn = record s.conn { incoming = []; recvs = recvs };
          }))
  unfolding fill_file
  filled name content s small e d =
      let n = length content in
      let r =
        recvn-Complete 0 n s.conn small (omega (arith, ap length e))
          (record { clean = d.clean; enough = omega (arith, d.enough) }) in
      let front : take n s.conn.incoming ≡ content =
        ap (take n) e ∙ take_all n content (omega arith) in
      let back : drop n s.conn.incoming ≡ [] = ap (drop n) e ∙ drop_all n content (omega arith) in
      (r.acts, rw r.returns (rw (front, back) refl))

  made :
      (name content : Bytes) (s : Server F) (fs₁ fs₂ : F)
      → length content < 2 ^ 31
      → s.conn.incoming ≡ content
      → Delivers (length content) s.conn.recvs
      → disk.touch name s.files ≡ (true, fs₁)
      → disk.resize name (pos (length content)) fs₁ ≡ (true, fs₂)
      → (recvs : List RecvAct) × (make_file disk name (pos (length content)) s
          ≡ ok (pos 0) (record s {
            files = disk.fill name content fs₂;
            conn = record s.conn { incoming = []; recvs = recvs };
          }))
  unfolding make_file
  made name content s fs₁ fs₂ small e d touched resized =
      let (recvs, done) = filled name content (record s { files = fs₂ }) small e d in
      (recvs, rw touched (rw resized done))

-- A file carried over. A peer calls sendFile on a fresh connection for a name of fewer than 128 bytes
-- and a file of fewer than 2 ^ 31 bytes, each of its calls takes all that it is given, and what the
-- connection then carries is what reaches recvFile, under a schedule of recv with no error but EINTR
-- and a delivery for each byte: if the calls on the files succeed, recvFile fills a file of that name and
-- size with exactly the content, and returns 0.
pub recv_file-Stores :
    {F G : Type 0} (here : Disk G) (there : Disk F) (t : Train) (size_buf name size content : Bytes)
    (i j k : ℕ) (acts : List SendAct) (c c' : Server G) (r : ℤ) (s : Server F) (fs₁ fs₂ : F)
    → IsStr name
    → length name < 128
    → length size ≡ 8
    → length size_buf ≡ 8
    → off_from size ≡ pos (length content)
    → length content < 2 ^ 31
    → here.content_of name c.files ≡ some (size, content)
    → c.conn.outgoing ≡ []
    → c.conn.sends ≡ accept i ∷ accept j ∷ accept k ∷ acts
    → 4 + length name ≤ suc i
    → 12 ≤ suc j
    → length content ≤ suc k
    → send_file here name c ≡ ok r c'
    → s.conn.incoming ≡ c'.conn.outgoing
    → Delivers (length content + 8 + 4 + length name + 4) s.conn.recvs
    → there.touch name s.files ≡ (true, fs₁)
    → there.resize name (pos (length content)) fs₁ ≡ (true, fs₂)
    → (recvs : List RecvAct) × (recv_file there t size_buf s
        ≡ ok (pos 0) (record s {
          files = there.fill name content fs₂;
          conn = record s.conn { incoming = []; recvs = recvs };
        }))
unfolding recv_file
recv_file-Stores here there t size_buf name size content i j k acts c c' r s fs₁ fs₂ str short eight
      room_8 off small found fresh e ri rj rk went arrived d touched resized =
    let out = sent here name size content i j k acts c short eight found e ri rj rk in
    let state : c' ≡ record c {
      conn = record c.conn {
        outgoing = ((c.conn.outgoing ++ train_bytes name) ++ train_bytes size) ++ content;
        sends = acts;
      };
    } =
      cc (sym went ∙ out) in
    let came : s.conn.incoming ≡ train_bytes name ++ (train_bytes size ++ content) =
      arrived
      ∙ (ap (λ (x : Server _). x.conn.outgoing) state
          ∙ (rw fresh (append_assoc (train_bytes name) (train_bytes size) content))) in
    let zeros = length-replicate {A = ℕ} 128 0 in
    let r₁ =
      received (length content + 8 + 4) t (replicate 128 0) name (train_bytes size ++ content)
        s.conn (omega (arith, zeros)) (omega arith) came d in
    let c₁ = record s.conn { incoming = train_bytes size ++ content; recvs = r₁.acts } in
    let r₂ =
      received (length content) (carrying name t) size_buf size content c₁ (omega arith)
        (omega arith) refl
        (record { clean = r₁.delivers.clean; enough = omega (arith, r₁.delivers.enough) }) in
    let s₂ : Server _ = record s { conn = record s.conn { incoming = content; recvs = r₂.acts } } in
    let (recvs, done) = made there name content s₂ fs₁ fs₂ small refl r₂.delivers touched resized in
    let full : overwrite size size_buf ≡ size =
      ap (λ tail. size ++ tail) (drop_all (length size) size_buf (omega arith)) ∙ append-nil size in
    let file_size : off_from (overwrite size size_buf) ≡ pos (length content) =
      ap off_from full ∙ off in
    (
      recvs,
      rw r₁.returns
          (rw r₂.returns (rw (string_in-cleared 128 name s₂ short str) (rw file_size done))),
    )
