-- ===== src/Client/Signal/Prompt.antt =====
-- recvSignal when one call of `recv` delivers the header.
use nex_file.Base.{ℕ, suc, ◌≤◌, ◌≡◌, refl, minus_one, Bool, Bytes, List, ◌∷◌, ◌++◌, length, arith}
use nex_file.Base.Io.{ok}
use nex_file.Net.{Conn, RecvAct, give}
use nex_file.Client.Transfer.Prompt.{recvn-prompt}
use nex_file.Client.Signal.{recv_signal, recv_header, signal_size}

-- A header that one call of recv delivers is read, and refused, whatever it says.
pub recv_signal-prompt :
    (alloc : Bool) (k : ℕ) (recvs : List RecvAct) (front rest : Bytes) (c : Conn)
    → length front ≡ signal_size
    → signal_size ≤ suc k
    → c.incoming ≡ front ++ rest
    → c.recvs ≡ give k ∷ recvs
    → recv_signal alloc c ≡ ok minus_one (record c { incoming = rest; recvs = recvs })
unfolding recv_signal recv_header
recv_signal-prompt alloc k recvs front rest c size room e d =
    rw (recvn-prompt signal_size k recvs front rest c size (omega arith) room e d) refl
