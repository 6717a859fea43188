-- ===== src/Client/Transfer/Receive.antt =====
-- The client's recvn beside the server's: the same bytes when no call fails, other results, and
-- undefined behaviour when the first call fails.
use nex_file.Base.{
  ℕ, suc, ◌+◌, ◌-◌, ◌<◌, ◌≤◌, ◌^◌, ◌≡◌, refl, ◌∙◌, ap, ℤ, pos, pos_part, Bool-cases, inl, inr,
  Bytes, List, [], ◌∷◌, ◌++◌, append-nil, length, length-take, length-append, take-length, take,
  drop, drop_all, min, ltb, le→ltb, if◌then◌else◌, arith,
}
use nex_file.Base.Io.{Run, ok, blocked, undefined, exited}
use nex_file.Net.{RecvAct, give, interrupted, failing, Conn, Input, on_input}
use nex_file.Net.Schedule.{OnlyGive, deliveries, NoError}
use nex_file.Client.Transfer.{write_at, recvn, recvn_loop}
use nex_file.Server.Transfer
use nex_file.Server.Transfer.{recvn_loop as server_loop}
use nex_file.Server.Transfer.Receive.{recvn-Complete, Complete}

-- The client's result for the same bytes.
abbrev pub relabel : {S : Type 0} → (total : ℕ) → Run S (ℤ × Bytes) → Run S (ℤ × Bytes)
relabel total (ok (r, out) s) = ok (if ltb (length out) total then pos 1 else pos 0, out) s
relabel total blocked = blocked
relabel total undefined = undefined
relabel total exited = exited

write_at_end : (buf bs : Bytes) → write_at (length buf) bs buf ≡ buf ++ bs
write_at_end buf bs =
    rw (take-length buf, drop_all (length buf + length bs) buf (omega arith), append-nil)

same_loop :
    (acts : List RecvAct) (total : ℕ) (buf w : Bytes)
    → OnlyGive acts
    → recvn_loop acts total (length buf) buf w ≡ relabel total (server_loop acts total buf w)
unfolding recvn_loop server_loop
same_loop [] total buf w h = ground arith
same_loop (interrupted ∷ acts) total buf w h = absurd h
same_loop (failing ∷ acts) total buf w h = absurd h
same_loop (give k ∷ acts) total buf [] h = ground arith
same_loop (give k ∷ acts) total buf (b ∷ bs) h =
    let n = min (suc k) (total - length buf) in
    let out = buf ++ take n (b ∷ bs) in
    elim (Bool-cases (ltb (length buf) total)) [
      | inl more ↦ rw more (
          rw (write_at_end buf (take n (b ∷ bs)), ← length-append buf (take n (b ∷ bs)))
            (same_loop acts total out (drop n (b ∷ bs)) h))
      | inr done ↦ rw (done, relabel, done)
    ]

relabel-on_input :
    (total : ℕ) (c : Conn) (x : Run Input (ℤ × Bytes))
    → on_input c (relabel total x) ≡ relabel total (on_input c x)
relabel-on_input total c (ok (r, out) (w, acts)) = refl
relabel-on_input total c blocked = refl
relabel-on_input total c undefined = refl
relabel-on_input total c exited = refl

-- While no call of `recv` fails, the client's recvn reads what the server's recvn would read, and
-- returns 0 where that is the whole of `total`, and 1 where the stream ended before.
pub recvn-relabel :
    (total : ℤ) (c : Conn)
    → OnlyGive c.recvs
    → recvn total c ≡ relabel (pos_part total) (Transfer.recvn total c)
unfolding recvn Transfer.recvn
recvn-relabel total c h =
    ap (on_input c) (same_loop c.recvs (pos_part total) [] c.incoming h)
    ∙ relabel-on_input (pos_part total) c (server_loop c.recvs (pos_part total) [] c.incoming)

-- Whatever the loop leaves of an error-free schedule is error-free.
abbrev Leaves : Run Input (ℤ × Bytes) → Type 0
Leaves (ok x (w, acts)) = OnlyGive acts
Leaves _ = Unit

loop-Leaves :
    (acts : List RecvAct) (total : ℕ) (buf w : Bytes)
    → OnlyGive acts
    → Leaves (server_loop acts total buf w)
unfolding server_loop
loop-Leaves [] total buf w h = ground arith
loop-Leaves (interrupted ∷ acts) total buf w h = absurd h
loop-Leaves (failing ∷ acts) total buf w h = absurd h
loop-Leaves (give k ∷ acts) total buf [] h = ground arith
loop-Leaves (give k ∷ acts) total buf (b ∷ bs) h =
    let n = min (suc k) (total - length buf) in
    let rest = loop-Leaves acts total (buf ++ take n (b ∷ bs)) (drop n (b ∷ bs)) h in
    elim (Bool-cases (ltb (length buf) total)) [ inl more ↦ rw more rest | inr done ↦ rw done h ]

-- With no failing call, a short result is the end of the stream.
abbrev pub Calm : {S : Type 0} → (total : ℕ) → Run S (ℤ × Bytes) → Type 0
Calm total (ok (r, out) s) = length out < total → r ≡ pos 0
Calm total _ = Unit

loop_Calm :
    (acts : List RecvAct) (total : ℕ) (buf w : Bytes)
    → OnlyGive acts
    → Calm total (server_loop acts total buf w)
unfolding server_loop
loop_Calm [] total buf w h = elim (Bool-cases (ltb (length buf) total)) [
  | inl more ↦ rw more tt
  | inr done ↦ rw done (λ lt. ground arith)
]
loop_Calm (interrupted ∷ acts) total buf w h = absurd h
loop_Calm (failing ∷ acts) total buf w h = absurd h
loop_Calm (give k ∷ acts) total buf [] h = elim (Bool-cases (ltb (length buf) total)) [
  | inl more ↦ rw more (λ lt. refl)
  | inr done ↦ rw done (λ lt. ground arith)
]
loop_Calm (give k ∷ acts) total buf (b ∷ bs) h =
    let n = min (suc k) (total - length buf) in
    let rest = loop_Calm acts total (buf ++ take n (b ∷ bs)) (drop n (b ∷ bs)) h in
    elim (Bool-cases (ltb (length buf) total)) [
      | inl more ↦ rw more rest
      | inr done ↦ rw done (λ lt. ground arith)
    ]

Calm-on_input :
    (total : ℕ) (c : Conn) (x : Run Input (ℤ × Bytes)) → Calm total x → Calm total (on_input c x)
Calm-on_input total c (ok (r, out) (w, acts)) h = h
Calm-on_input total c blocked h = tt
Calm-on_input total c _ h = tt

pub recvn-Calm : (n : ℕ) (c : Conn) → OnlyGive c.recvs → Calm n (Transfer.recvn (pos n) c)
unfolding Transfer.recvn
recvn-Calm n c h =
    Calm-on_input n c (server_loop c.recvs n [] c.incoming) (loop_Calm c.recvs n [] c.incoming h)

NoError-of_OnlyGive : (acts : List RecvAct) → OnlyGive acts → NoError acts
NoError-of_OnlyGive [] h = tt
NoError-of_OnlyGive (give k ∷ acts) h = NoError-of_OnlyGive acts h
NoError-of_OnlyGive (interrupted ∷ acts) h = absurd h
NoError-of_OnlyGive (failing ∷ acts) h = absurd h

abbrev LeavesConn : Run Conn (ℤ × Bytes) → Type 0
LeavesConn (ok x c) = OnlyGive c.recvs
LeavesConn _ = Unit

LeavesConn-on_input : (c : Conn) (x : Run Input (ℤ × Bytes)) → Leaves x → LeavesConn (on_input c x)
LeavesConn-on_input c (ok x (w, acts)) h = h
LeavesConn-on_input c blocked h = tt
LeavesConn-on_input c _ h = tt

recvn-Leaves : (n : ℕ) (c : Conn) → OnlyGive c.recvs → LeavesConn (Transfer.recvn (pos n) c)
unfolding Transfer.recvn
recvn-Leaves n c h =
    LeavesConn-on_input c (server_loop c.recvs n [] c.incoming)
      (loop-Leaves c.recvs n [] c.incoming h)

-- The client's recvn has read the next `n` bytes of `c`, and `k` deliveries are left.
pub record Read (k n : ℕ) (c : Conn) (x : Run Conn (ℤ × Bytes)) : Type 0 where
  pub acts : List RecvAct
  pub returns :
      x ≡ ok (pos 0, take n c.incoming) (record c { incoming = drop n c.incoming; recvs = acts })
  pub calm : OnlyGive acts
  pub enough : k ≤ deliveries acts

-- Of bytes that are all there, the client's recvn reads exactly `n` and returns 0.
pub recvn-Read :
    (k n : ℕ) (c : Conn)
    → n < 2 ^ 31
    → n ≤ length c.incoming
    → OnlyGive c.recvs
    → k + n ≤ deliveries c.recvs
    → Read k n c (recvn (pos n) c)
recvn-Read k n c small there calm enough = record {
  acts = r.acts;
  returns =
      rw (recvn-relabel (pos n) c calm, r.returns, relabel)
        (rw (le→ltb (length (take n c.incoming)) n (omega (arith, length-take n c.incoming))));
  calm = rw r.returns at (recvn-Leaves n c calm);
  enough = r.delivers.enough;
}
  where
    r : Complete k n c (Transfer.recvn (pos n) c)
    r =
        recvn-Complete k n c small there
          (record { clean = NoError-of_OnlyGive c.recvs calm; enough = enough })
