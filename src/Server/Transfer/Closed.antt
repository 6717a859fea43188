-- ===== src/Server/Transfer/Closed.antt =====
-- The server's recvn at the end of the stream, and when it is asked for nothing.
use nex_file.Base.{ℕ, ◌+◌, ◌<◌, ◌≤◌, ◌≡◌, refl, ap, pos, Bytes, List, [], ◌∷◌, lt→ltb, arith}
use nex_file.Base.Io.{ok}
use nex_file.Protocol.Wire.{int_of}
use nex_file.Net.{RecvAct, give, interrupted, failing, Conn, on_input}
use nex_file.Net.Schedule.{NoError, deliveries, Delivers}
use nex_file.Server.Transfer.{recvn, recvn_loop}

loop_closed :
    (k : ℕ) (acts : List RecvAct) (total : ℕ)
    → 0 < total
    → NoError acts
    → k + 1 ≤ deliveries acts
    → (acts' : List RecvAct) × Delivers k acts'
      × (recvn_loop acts total [] [] ≡ ok (pos 0, []) ([], acts'))
unfolding recvn_loop
loop_closed k [] total p clean enough = absurd (omega arith)
loop_closed k (give j ∷ acts) total p clean enough =
    (acts, record { clean = clean; enough = omega arith }, rw (lt→ltb 0 total p))
loop_closed k (interrupted ∷ acts) total p clean enough =
    let (acts', left, e) = loop_closed k acts total p clean enough in
    (acts', left, rw (lt→ltb 0 total p) e)
loop_closed k (failing ∷ acts) total p clean enough = absurd clean

-- When nothing is on its way, recvn returns 0 and has written nothing, under a schedule with no error
-- but EINTR and at least one call that can deliver.
pub recvn_closed :
    (k total : ℕ) (c : Conn)
    → 0 < total
    → c.incoming ≡ []
    → Delivers (k + 1) c.recvs
    → (acts : List RecvAct) × Delivers k acts
      × (recvn (pos total) c ≡ ok (pos 0, []) (record c { incoming = []; recvs = acts }))
unfolding recvn
recvn_closed k total c p e d =
    let (acts, left, closed) = loop_closed k c.recvs total p d.clean d.enough in
    (acts, left, rw e (ap (on_input c) closed))

loop_nothing : (acts : List RecvAct) (w : Bytes) → recvn_loop acts 0 [] w ≡ ok (pos 0, []) (w, acts)
unfolding recvn_loop int_of
loop_nothing [] w = refl
loop_nothing (a ∷ acts) w = refl

-- Asked for nothing, recvn makes no call of `recv`.
pub recvn_nothing : (c : Conn) → recvn (pos 0) c ≡ ok (pos 0, []) c
unfolding recvn
recvn_nothing c = ap (on_input c) (loop_nothing c.recvs c.incoming)
