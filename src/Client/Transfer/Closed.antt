-- ===== src/Client/Transfer/Closed.antt =====
-- The client's recvn at the end of the stream.
use nex_file.Base.{
  ℕ, suc, ◌<◌, ◌≤◌, ◌≡◌, refl, sym, ◌∙◌, ap, subst, ℤ, pos, Bytes, List, [], ◌∷◌, lt→ltb, arith,
}
use nex_file.Base.Io.{Run, ok, blocked}
use nex_file.Net.{RecvAct, give, interrupted, failing, Conn, on_input}
use nex_file.Net.Schedule.{OnlyGive, deliveries}
use nex_file.Client.Transfer.{recvn, recvn_loop}

pub record Closed (k : ℕ) (c : Conn) (x : Run Conn (ℤ × Bytes)) : Type 0 where
  pub acts : List RecvAct
  pub returns : x ≡ ok (pos 1, []) (record c { incoming = []; recvs = acts })
  pub calm : OnlyGive acts
  pub enough : k ≤ deliveries acts

loop-Closed :
    (k n : ℕ) (acts : List RecvAct) (c : Conn)
    → 0 < n
    → OnlyGive acts
    → suc k ≤ deliveries acts
    → Closed k c (on_input c (recvn_loop acts n 0 [] []))
unfolding recvn_loop
loop-Closed k n [] c p calm enough = absurd (omega arith)
loop-Closed k n (interrupted ∷ acts) c p calm enough = absurd calm
loop-Closed k n (failing ∷ acts) c p calm enough = absurd calm
loop-Closed k n (give j ∷ acts) c p calm enough = record {
  acts = acts;
  returns = rw (lt→ltb 0 n p);
  calm = calm;
  enough = omega (arith, enough);
}

-- When nothing is on its way and the next call delivers, the client's recvn returns 1, the end of the
-- stream, and has written nothing.
pub recvn-Closed :
    (k n : ℕ) (c : Conn)
    → 0 < n
    → c.incoming ≡ []
    → OnlyGive c.recvs
    → suc k ≤ deliveries c.recvs
    → Closed k c (recvn (pos n) c)
unfolding recvn
recvn-Closed k n c p e calm enough =
    subst (λ w. Closed k c (on_input c (recvn_loop c.recvs n 0 [] w))) (sym e)
      (loop-Closed k n c.recvs c p calm enough)

-- When no call of recv ever returns, recvn does not.
pub recvn-blocked : (n : ℕ) (c : Conn) → 0 < n → c.recvs ≡ [] → recvn (pos n) c ≡ blocked
unfolding recvn recvn_loop
recvn-blocked n c p e =
    ap (λ acts. on_input c (recvn_loop acts n 0 [] c.incoming)) e ∙ rw (lt→ltb 0 n p) refl
