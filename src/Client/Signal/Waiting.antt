-- ===== src/Client/Signal/Waiting.antt =====
-- recvSignal when nothing more arrives.
use nex_file.Base.{◌≡◌, refl, Bool, [], arith}
use nex_file.Base.Io.{blocked}
use nex_file.Net.{Conn}
use nex_file.Client.Transfer.Closed.{recvn-blocked}
use nex_file.Client.Signal.{recv_signal, signal_size}

-- When no call of recv ever returns, recvSignal does not.
pub recv_signal-blocked : (alloc : Bool) (c : Conn) → c.recvs ≡ [] → recv_signal alloc c ≡ blocked
unfolding recv_signal
recv_signal-blocked alloc c e = rw (recvn-blocked signal_size c (omega arith) e) refl
