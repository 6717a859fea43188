-- ===== src/Client/Signal/Refused.antt =====
-- recvSignal reads the result of recvn as the server's recvn would give it: 0 means success to
-- recvn and the end of the stream to recvSignal.
use nex_file.Base.{
  ◌<◌, ◌≤◌, ◌≡◌, refl, ◌∙◌, ap, ℤ, pos, minus_one, Bool, inl, inr, Bytes, ◌++◌, append-nil, length,
  drop, arith,
}
use nex_file.Base.Io.{Run, ok, blocked, undefined, exited, and_then}
use nex_file.Net.{Conn}
use nex_file.Net.Schedule.{OnlyGive, deliveries}
use nex_file.Server.Transfer
use nex_file.Server.Transfer.Receive.{Reads, recvn-Reads}
use nex_file.Client.Transfer.Receive.{recvn-Read, recvn-relabel, relabel, Calm, recvn-Calm}
use nex_file.Client.Signal.{recv_signal, recv_header, signal_size}

-- While every call of recv delivers, a reply whose header arrives in full is refused, whatever it
-- says: recvSignal returns -1, leaves the message unread and sends nothing.
pub recv_signal_refuses :
    (alloc : Bool) (c : Conn)
    → signal_size ≤ length c.incoming
    → OnlyGive c.recvs
    → signal_size ≤ deliveries c.recvs
    → (c' : Conn) × (recv_signal alloc c ≡ ok minus_one c')
      × (c'.incoming ≡ drop signal_size c.incoming)
      × (c'.outgoing ≡ c.outgoing)
unfolding recv_signal
recv_signal_refuses alloc c there calm enough =
    let r = recvn-Read 0 signal_size c (omega arith) there calm (omega arith) in
    (
      record c { incoming = drop signal_size c.incoming; recvs = r.acts },
      ap (λ x. and_then x (λ (ret, bs). recv_header alloc ret bs)) r.returns,
      refl,
      refl,
    )

refuses_full :
    (alloc : Bool) (c c' : Conn) (x : Run Conn (ℤ × Bytes))
    → Reads signal_size c x
    → Calm signal_size x
    → and_then (relabel signal_size x) (λ (ret, bs). recv_header alloc ret bs) ≡ ok (pos 0) c'
    → length c.incoming < signal_size
unfolding recv_header
refuses_full alloc c c' (ok (r, out) c₁) s calm e = elim s.3 [
  | inl full ↦ cc (rw full.1 at e)
  | inr (inl short) ↦
      let whole = ap length (s.0 ∙ ap (◌++◌ out) short.2 ∙ append-nil out) in omega (arith, short.1)
  | inr (inr failed) ↦ cc (calm failed.1)
]
refuses_full alloc c c' blocked s calm e = cc
refuses_full alloc c c' undefined s calm e = cc
refuses_full alloc c c' exited s calm e = cc

-- While every call of recv delivers or finds the end, recvSignal reports success only if the
-- stream ends inside the header of the reply.
pub recv_signal_succeeds :
    (alloc : Bool) (c c' : Conn)
    → OnlyGive c.recvs
    → recv_signal alloc c ≡ ok (pos 0) c'
    → length c.incoming < signal_size
unfolding recv_signal
recv_signal_succeeds alloc c c' calm e =
    refuses_full alloc c c' (Transfer.recvn (pos signal_size) c) (recvn-Reads (pos signal_size) c)
      (recvn-Calm signal_size c calm) (rw (recvn-relabel (pos signal_size) c calm) at e)
