-- ===== src/Client/Signal/Quiet.antt =====
-- recvSignal sends nothing.
use nex_file.Base.{
  refl, ℤ, pos, pos_part, minus_one, is_neg, is_nonpos, eq_ℤ, Bool, not, ◌||◌, Bytes, ltb,
}
use nex_file.Base.Io.{pure}
use nex_file.Base.Keeps.{Keeps, Keeps-bind, Keeps-if}
use nex_file.Server.Train.Quiet.{sent}
use nex_file.Client.Transfer.{recvn}
use nex_file.Client.Train.Quiet.{recvn-sent}
use nex_file.Client.Signal.{recv_signal, recv_message, recv_header, signal_of, signal_size}

recv_message-sent : (alloc : Bool) (len : ℤ) → Keeps sent (recv_message alloc len)
unfolding recv_message
recv_message-sent alloc len =
    Keeps-if sent (is_nonpos len) (pure (pos 0)) _ (λ c. refl)
      (Keeps-if sent (not alloc) (pure minus_one) _ (λ c. refl)
        (Keeps-bind sent (recvn len) _ (recvn-sent len) λ (ret, msg). λ c. refl))

recv_header-sent : (alloc : Bool) (ret : ℤ) (bs : Bytes) → Keeps sent (recv_header alloc ret bs)
unfolding recv_header
recv_header-sent alloc ret bs =
    let len = (signal_of bs).len in
    Keeps-if sent (is_neg ret) (pure minus_one) _ (λ c. refl)
      (Keeps-if sent (eq_ℤ ret (pos 0)) (pure minus_one) _ (λ c. refl)
        (Keeps-if sent (is_neg len || ltb 1024 (pos_part len)) (pure minus_one) _ (λ c. refl)
          (recv_message-sent alloc len)))

-- Whatever the header says, recvSignal sends nothing.
pub recv_signal-sent : (alloc : Bool) → Keeps sent (recv_signal alloc)
unfolding recv_signal
recv_signal-sent alloc =
    Keeps-bind sent (recvn (pos signal_size)) _ (recvn-sent (pos signal_size))
      λ (ret, bs). recv_header-sent alloc ret bs
