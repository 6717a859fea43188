-- ===== src/Client/Train/Reading.antt =====
-- A train that was sent as a length and a text is received as that length and text.
use nex_file.Base.{
  ℕ, ◌+◌, ◌≤◌, ◌≡◌, refl, sym, ◌∙◌, ap, subst, pos, Bytes, List, ◌++◌, length, length-append, take,
  drop, take-length-append, drop-length-append, split_at, append_assoc, overwrite, le→ltb, arith,
}
use nex_file.Base.Io.{Run, ok, and_then}
use nex_file.Protocol.{Train, data_size}
use nex_file.Protocol.Wire.{train_bytes, int_bytes, int_from, int_from-int_bytes, length-int_bytes}
use nex_file.Net.{Conn, RecvAct}
use nex_file.Net.Schedule.{OnlyGive, deliveries}
use nex_file.Server.Train.Reading.{carrying}
use nex_file.Client.Transfer.Receive.{recvn-Read}
use nex_file.Client.Train.{read_train, read_body}

-- `c` after `w` has been read up to `rest`.
pub record Got (k : ℕ) (t : Train) (rest : Bytes) (c : Conn) (x : Run Conn Train) : Type 0 where
  pub acts : List RecvAct
  pub returns : x ≡ ok t (record c { incoming = rest; recvs = acts })
  pub calm : OnlyGive acts
  pub enough : k ≤ deliveries acts

module _ (t : Train) (text rest : Bytes) (c : Conn) where
  body_read :
      (k : ℕ) (size : Bytes) (c₁ : Conn)
      → length text ≤ data_size
      → size ≡ int_bytes (pos (length text))
      → c₁.incoming ≡ text ++ rest
      → c₁.outgoing ≡ c.outgoing
      → c₁.sends ≡ c.sends
      → OnlyGive c₁.recvs
      → k + length text ≤ deliveries c₁.recvs
      → Got k (carrying text t) rest c (read_body t size c₁)
  unfolding read_body
  body_read k size c₁ short e w o n calm enough =
      let m = length text in
      let tail = drop (length (int_bytes (pos m))) (int_bytes t.len) in
      let whole = ap length w ∙ length-append text rest in
      let same_len : int_from (overwrite size (int_bytes t.len)) ≡ pos m =
        ap (λ b. int_from (overwrite b (int_bytes t.len))) e
        ∙ int_from-int_bytes (pos m) tail (omega arith) in
      let r = recvn-Read k m c₁ (omega arith) (omega arith) calm enough in
      let front : take m c₁.incoming ≡ text = ap (take m) w ∙ take-length-append text rest in
      let back : drop m c₁.incoming ≡ rest = ap (drop m) w ∙ drop-length-append text rest in
      record {
        acts = r.acts;
        returns =
            rw same_len (rw r.returns (rw front (rw (le→ltb data_size m short) (cc (back, o, n)))));
        calm = r.calm;
        enough = r.enough;
      }

-- The client's read_train of a text that fits `data_`, when every call of recv delivers
pub read_train-Got :
    (k : ℕ) (t : Train) (text rest : Bytes) (c : Conn)
    → length text ≤ data_size
    → c.incoming ≡ train_bytes text ++ rest
    → OnlyGive c.recvs
    → k + length text + 4 ≤ deliveries c.recvs
    → Got k (carrying text t) rest c (read_train t c)
unfolding read_train
read_train-Got k t text rest c short e calm enough =
    let size_bytes = int_bytes (pos (length text)) in
    let split = e ∙ append_assoc size_bytes text rest in
    let size = length-int_bytes (pos (length text)) in
    let whole = ap length split ∙ length-append size_bytes (text ++ rest) in
    let r = recvn-Read (k + length text) 4 c (omega arith) (omega arith) calm enough in
    let parts = split_at 4 size_bytes (text ++ rest) c.incoming split size in
    let c₁ = record c { incoming = drop 4 c.incoming; recvs = r.acts } in
    subst (λ x. Got k (carrying text t) rest c (and_then x (λ (_, bs). read_body t bs)))
      (sym r.returns)
      (body_read t text rest c k (take 4 c.incoming) c₁ short (sym parts.0) (sym parts.1) refl refl
        r.calm r.enough)
