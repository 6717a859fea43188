-- ===== src/Client/Train/Prompt.antt =====
-- A train that two calls of `recv` deliver.
use nex_file.Base.{
  ℕ, suc, ◌<◌, ◌≤◌, ◌≡◌, refl, ◌∙◌, pos, Bytes, List, ◌∷◌, ◌++◌, append_assoc, drop, length, le→ltb,
  arith,
}
use nex_file.Base.Io.{ok}
use nex_file.Protocol.{Train, data_size}
use nex_file.Protocol.Wire.{train_bytes, int_bytes, int_from-int_bytes, length-int_bytes}
use nex_file.Net.{Conn, RecvAct, give}
use nex_file.Server.Train.Reading.{carrying}
use nex_file.Client.Transfer.Prompt.{recvn-prompt}
use nex_file.Client.Train.{read_train, read_body}

module _ (t : Train) (text rest : Bytes) where
  body_prompt :
      (c : Conn) (k : ℕ) (acts : List RecvAct)
      → 0 < length text
      → length text ≤ data_size
      → length text ≤ suc k
      → c.incoming ≡ text ++ rest
      → c.recvs ≡ give k ∷ acts
      → read_body t (int_bytes (pos (length text))) c
        ≡ ok (carrying text t) (record c { incoming = rest; recvs = acts })
  unfolding read_body
  body_prompt c k acts some_text short room e d =
      let size = int_bytes (pos (length text)) in
      let same_len =
        int_from-int_bytes (pos (length text)) (drop (length size) (int_bytes t.len))
          (omega arith) in
      rw same_len (
        rw (recvn-prompt (length text) k acts text rest c refl some_text room e d)
          (rw (le→ltb data_size (length text) short) refl))

  -- The client's read_train of a text that is not empty and fits `data_`.
  pub read_train-prompt :
      (c : Conn) (j k : ℕ) (acts : List RecvAct)
      → 0 < length text
      → length text ≤ data_size
      → 4 ≤ suc j
      → length text ≤ suc k
      → c.incoming ≡ train_bytes text ++ rest
      → c.recvs ≡ give j ∷ give k ∷ acts
      → read_train t c ≡ ok (carrying text t) (record c { incoming = rest; recvs = acts })
  unfolding read_train
  read_train-prompt c j k acts some_text short four room e d =
      let size = int_bytes (pos (length text)) in
      let n = length-int_bytes (pos (length text)) in
      let c₁ = record c { incoming = text ++ rest; recvs = give k ∷ acts } in
      let first =
        recvn-prompt 4 j (give k ∷ acts) size (text ++ rest) c n (omega arith) four
          (e ∙ append_assoc size text rest) d in
      rw first (body_prompt c₁ k acts some_text short room refl refl)
