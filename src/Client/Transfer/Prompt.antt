-- ===== src/Client/Transfer/Prompt.antt =====
-- The client's recvn when one call of `recv` delivers all that is asked for.
use nex_file.Base.{
  ℕ, suc, ◌+◌, ◌-◌, ◌<◌, ◌≤◌, ◌≡◌, refl, sym, ◌∙◌, ap, pos, Bytes, List, [], ◌∷◌, ◌++◌, append-nil,
  length, take, drop, take-length-append, drop-length-append, drop_all, min, lt→ltb, le→ltb, arith,
}
use nex_file.Base.Io.{ok}
use nex_file.Net.{RecvAct, give, Conn, on_input, recv_step, got}
use nex_file.Client.Transfer.{write_at, recvn, recvn_loop}

-- Nothing more is asked for.
loop_done :
    (acts : List RecvAct) (n m : ℕ) (buf w : Bytes)
    → n ≤ m
    → recvn_loop acts n m buf w ≡ ok (pos 0, buf) (w, acts)
unfolding recvn_loop
loop_done [] n m buf w h = rw (le→ltb m n h) refl
loop_done (a ∷ acts) n m buf w h = rw (le→ltb m n h) refl

recv_step-prompt :
    (k : ℕ) (bs rest : Bytes)
    → 0 < length bs
    → length bs ≤ suc k
    → recv_step (give k) (length bs - 0) (bs ++ rest) ≡ got bs rest
recv_step-prompt k [] rest p room = absurd (omega arith)
recv_step-prompt k (b ∷ bs) rest p room =
    let m : min (suc k) (length (b ∷ bs) - 0) ≡ length (b ∷ bs) = ground arith in
    ap (λ n. got (take n (b ∷ bs ++ rest)) (drop n (b ∷ bs ++ rest))) m
    ∙ rw (take-length-append (b ∷ bs) rest, drop-length-append (b ∷ bs) rest) refl

written : (bs : Bytes) → write_at 0 bs [] ≡ bs
written bs = ap (λ rest. bs ++ rest) (drop_all (0 + length bs) [] (omega arith)) ∙ append-nil bs

loop_prompt :
    (k : ℕ) (acts : List RecvAct) (bs rest : Bytes)
    → 0 < length bs
    → length bs ≤ suc k
    → recvn_loop (give k ∷ acts) (length bs) 0 [] (bs ++ rest) ≡ ok (pos 0, bs) (rest, acts)
unfolding recvn_loop
loop_prompt k acts bs rest p room =
    rw (lt→ltb 0 (length bs) p, recv_step-prompt k bs rest p room)
      (ap (λ buf. recvn_loop acts (length bs) (0 + length bs) buf rest) (written bs)
        ∙ loop_done acts (length bs) (0 + length bs) bs rest (omega arith))

-- If the next call of recv delivers all of the bytes asked for, recvn returns 0 with them.
pub recvn-prompt :
    (n k : ℕ) (acts : List RecvAct) (bs rest : Bytes) (c : Conn)
    → length bs ≡ n
    → 0 < n
    → n ≤ suc k
    → c.incoming ≡ bs ++ rest
    → c.recvs ≡ give k ∷ acts
    → recvn (pos n) c ≡ ok (pos 0, bs) (record c { incoming = rest; recvs = acts })
unfolding recvn
recvn-prompt n k acts bs rest c size p room e d =
    ap (λ total. on_input c (recvn_loop c.recvs total 0 [] c.incoming)) (sym size)
    ∙ rw (e, d)
        (ap (on_input c) (loop_prompt k acts bs rest (omega (arith, size)) (omega (arith, size))))
