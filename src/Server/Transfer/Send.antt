-- ===== src/Server/Transfer/Send.antt =====
-- What sendn returns and what it has sent, for every schedule of `send`.
use nex_file.Base.{
  ℕ, suc, ◌+◌, ◌<◌, ◌≤◌, ◌^◌, ◌≡◌, ◌≢◌, refl, sym, ◌∙◌, ap, subst, subst₂, ℤ, pos, minus_one, inl,
  inr, ◌⊎◌, Bytes, List, [], ◌∷◌, ◌++◌, append_assoc, append-nil, length, length-append,
  length-drop, take, drop, take-append-drop, arith,
}
use nex_file.Base.Io.{Run, ok, blocked, undefined, exited}
use nex_file.Protocol.Wire.{int_of_small}
use nex_file.Net.{SendAct, accept, send_interrupted, send_failing, Conn}
use nex_file.Net.Schedule.{acceptances, NoSendError, Accepts}
use nex_file.Server.Transfer.{to_int, sendn, sendn_loop}

-- What a call of sendn may do: `done` is what it has sent of the bytes `bs`. The result is `value` if
-- that is all of them, and -1 if some are left. Nothing is received.
pub record Sends (value : ℤ) (bs : Bytes) (c c' : Conn) (r : ℤ) : Type 0 where
  pub done : Bytes
  pub rest : Bytes
  pub splits : bs ≡ done ++ rest
  pub sent : c'.outgoing ≡ c.outgoing ++ done
  pub kept : (c'.incoming ≡ c.incoming) × (c'.recvs ≡ c.recvs)
  pub ending : (r ≡ value) × (rest ≡ []) ⊎ (r ≡ minus_one) × (rest ≢ [])

abbrev pub Transmits : ℤ → Bytes → Conn → Run Conn ℤ → Type 0
Transmits value bs c (ok r c') = Sends value bs c c' r
Transmits value bs c blocked = Unit
Transmits value bs c undefined = ⊥
Transmits value bs c exited = ⊥

Transmits-step :
    (value : ℤ) (done rest : Bytes) (c : Conn) (x : Run Conn ℤ)
    → Transmits value rest (record c { outgoing = c.outgoing ++ done }) x
    → Transmits value (done ++ rest) c x
Transmits-step value done rest c (ok r c') s = record {
  done = done ++ s.done;
  rest = s.rest;
  splits = ap (◌++◌ done) s.splits ∙ sym (append_assoc done s.done s.rest);
  sent = s.sent ∙ append_assoc c.outgoing done s.done;
  kept = s.kept;
  ending = s.ending;
}
Transmits-step value done rest c blocked s = tt
Transmits-step value done rest c undefined s = s
Transmits-step value done rest c exited s = s

-- Nothing is left to send.
finished :
    (acts : List SendAct) (sent : ℕ) (c : Conn)
    → Sends (to_int (sent + 0)) [] c (record c { sends = acts }) (to_int sent)
finished acts sent c = record {
  done = [];
  rest = [];
  splits = refl;
  sent = sym (append-nil c.outgoing);
  kept = (refl, refl);
  ending = inl (ap to_int (omega arith), refl);
}

sent_count :
    (k sent : ℕ) (left : Bytes)
    → (sent + length (take k left)) + length (drop k left) ≡ sent + length left
sent_count k sent left =
    omega (arith, length-append (take k left) (drop k left), ap length (take-append-drop k left))

sendn_loop-Transmits :
    (acts : List SendAct) (sent : ℕ) (left : Bytes) (c : Conn)
    → Transmits (to_int (sent + length left)) left c (sendn_loop acts sent left c)
unfolding sendn_loop
sendn_loop-Transmits [] sent [] c = finished [] sent c
sendn_loop-Transmits (a ∷ acts) sent [] c = finished (a ∷ acts) sent c
sendn_loop-Transmits [] sent (b ∷ bs) c = tt
sendn_loop-Transmits (send_interrupted ∷ acts) sent (b ∷ bs) c =
    sendn_loop-Transmits acts sent (b ∷ bs) c
sendn_loop-Transmits (send_failing ∷ acts) sent (b ∷ bs) c = record {
  done = [];
  rest = b ∷ bs;
  splits = refl;
  sent = sym (append-nil c.outgoing);
  kept = (refl, refl);
  ending = inr (refl, λ e. cc e);
}
sendn_loop-Transmits (accept k ∷ acts) sent (b ∷ bs) c =
    let done = take (suc k) (b ∷ bs) in
    let rest = drop (suc k) (b ∷ bs) in
    let later : Run Conn ℤ =
      sendn_loop acts (sent + length done) rest (record c { outgoing = c.outgoing ++ done }) in
    subst₂ (λ whole left. Transmits (to_int whole) left c later) (sent_count (suc k) sent (b ∷ bs))
      (take-append-drop (suc k) (b ∷ bs))
      (Transmits-step (to_int (sent + length done + length rest)) done rest c later (
        sendn_loop-Transmits acts (sent + length done) rest
          (record c { outgoing = c.outgoing ++ done })))

sendn-sends : (bs : Bytes) (c : Conn) → Transmits (to_int (length bs)) bs c (sendn bs c)
unfolding sendn
sendn-sends bs c =
    subst (λ n. Transmits (to_int n) bs c (sendn bs c)) (omega arith)
      (sendn_loop-Transmits c.sends 0 bs c)

-- For fewer than 2 ^ 31 bytes and every schedule of `send`: if sendn returns, what it has sent is a
-- prefix of its bytes, in order, behind what was sent before; it returns their number exactly if
-- all are sent, and -1 exactly if some are left; and nothing was received.
pub sendn-Transmits :
    (bs : Bytes) (c : Conn) → length bs < 2 ^ 31 → Transmits (pos (length bs)) bs c (sendn bs c)
sendn-Transmits bs c small =
    subst (λ r. Transmits r bs c (sendn bs c)) (int_of_small (length bs) small) (sendn-sends bs c)

-- The loop ends, and leaves a schedule that still accepts `k` bytes.
abbrev Finishes : (k whole : ℕ) → Run Conn ℤ → Type 0
Finishes k whole (ok r c') = (r ≡ to_int whole) × Accepts k c'.sends
Finishes k whole _ = ⊥

sendn_loop-Finishes :
    (acts : List SendAct) (k sent : ℕ) (left : Bytes) (c : Conn)
    → NoSendError acts
    → k + length left ≤ acceptances acts
    → Finishes k (sent + length left) (sendn_loop acts sent left c)
unfolding sendn_loop
sendn_loop-Finishes [] k sent [] c clean enough =
    (ap to_int (omega arith), record { clean = tt; enough = omega arith })
sendn_loop-Finishes (a ∷ acts) k sent [] c clean enough =
    (ap to_int (omega arith), record { clean = clean; enough = omega arith })
sendn_loop-Finishes [] k sent (b ∷ bs) c clean enough = absurd (omega arith)
sendn_loop-Finishes (send_failing ∷ acts) k sent (b ∷ bs) c clean enough = absurd clean
sendn_loop-Finishes (send_interrupted ∷ acts) k sent (b ∷ bs) c clean enough =
    sendn_loop-Finishes acts k sent (b ∷ bs) c clean enough
sendn_loop-Finishes (accept j ∷ acts) k sent (b ∷ bs) c clean enough =
    let done = take (suc j) (b ∷ bs) in
    let rest = drop (suc j) (b ∷ bs) in
    let left = length-drop (suc j) (b ∷ bs) in
    let c' = record c { outgoing = c.outgoing ++ done } in
    subst (λ n. Finishes k n (sendn_loop acts (sent + length done) rest c'))
      (sent_count (suc j) sent (b ∷ bs))
      (sendn_loop-Finishes acts k (sent + length done) rest c' clean (omega arith))

sendn-Finishes :
    (k : ℕ) (bs : Bytes) (c : Conn)
    → Accepts (k + length bs) c.sends
    → Finishes k (length bs) (sendn bs c)
unfolding sendn
sendn-Finishes k bs c a =
    subst (λ n. Finishes k n (sendn bs c)) (omega arith)
      (sendn_loop-Finishes c.sends k 0 bs c a.clean a.enough)

-- What sendn must do with the bytes `bs`.
pub record Complete (k : ℕ) (bs : Bytes) (c : Conn) (x : Run Conn ℤ) : Type 0 where
  pub acts : List SendAct
  pub returns : x ≡ ok (pos (length bs)) (record c { outgoing = c.outgoing ++ bs; sends = acts })
  pub accepts : Accepts k acts

all_sent : (bs done rest : Bytes) → bs ≡ done ++ rest → rest ≡ [] → done ≡ bs
all_sent bs done rest e n = sym (append-nil done) ∙ ap (◌++◌ done) (sym n) ∙ sym e

Complete-of :
    (k : ℕ) (bs : Bytes) (c : Conn) (x : Run Conn ℤ)
    → length bs < 2 ^ 31
    → Transmits (pos (length bs)) bs c x
    → Finishes k (length bs) x
    → Complete k bs c x
Complete-of k bs c (ok r c') small s f =
    let n = int_of_small (length bs) small in
    let nothing_left : s.rest ≡ [] = elim s.ending [ inl e ↦ e.1 | inr e ↦ cc (f.0, n, e.0) ] in
    let whole = all_sent bs s.done s.rest s.splits nothing_left in
    record {
      acts = c'.sends;
      returns = cc (f.0, n, whole, s.sent, s.kept.0, s.kept.1);
      accepts = f.1;
    }
Complete-of k bs c blocked small s f = absurd f
Complete-of k bs c undefined small s f = absurd f
Complete-of k bs c exited small s f = absurd f

-- For fewer than 2 ^ 31 bytes, and a schedule of send with no error but EINTR and an acceptance
-- for each byte: sendn sends all bytes behind what was sent before, however the kernel cuts them,
-- and returns their number.
pub sendn-Complete :
    (k : ℕ) (bs : Bytes) (c : Conn)
    → length bs < 2 ^ 31
    → Accepts (k + length bs) c.sends
    → Complete k bs c (sendn bs c)
sendn-Complete k bs c small a =
    Complete-of k bs c (sendn bs c) small (sendn-Transmits bs c small) (sendn-Finishes k bs c a)
