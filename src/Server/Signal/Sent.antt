-- ===== src/Server/Signal/Sent.antt =====
-- What sendSignal puts on the wire, and what the client's structure makes of it.
use nex_file.Base.{
  ℕ, ◌+◌, ◌<◌, ◌^◌, ◌≡◌, refl, sym, ap, subst, ℤ, pos, minus_one, Bytes, List, [], ◌∷◌, ne→==,
  is_neg, ◌++◌, append_assoc, append-nil, length, le→ltb, if◌then◌else◌, some, arith,
}
use nex_file.Base.Io.{Run, ok, pure, and_then}
use nex_file.Protocol.{CmdSignal, CmdStatus, cmd_success}
use nex_file.Protocol.Wire.{IsInt, int_bytes, int_from-int_bytes}
use nex_file.Net.{Conn, SendAct}
use nex_file.Net.Schedule.{Accepts}
use nex_file.Server.Transfer.Send.{sendn-Complete}
use nex_file.Server.Signal.{signal_bytes, header, int_max, send_signal, send_message}
use nex_file.Client.Signal.{signal_of}

-- The fields are `int`s.
pub record IsSignal (s : CmdSignal) : Type 0 where
  pub send_ack : IsInt s.send_ack
  pub recv_ack : IsInt s.recv_ack
  pub cmd_status : IsInt s.cmd_status
  pub len : IsInt s.len

pub length-signal_bytes : (s : CmdSignal) → length (signal_bytes s) ≡ 16
unfolding signal_bytes int_bytes
length-signal_bytes s = refl

signal_path :
    (s t : CmdSignal)
    → s.send_ack ≡ t.send_ack
    → s.recv_ack ≡ t.recv_ack
    → s.cmd_status ≡ t.cmd_status
    → s.len ≡ t.len
    → s ≡ t
signal_path s t a b c d =
    λ i. record { send_ack = a i; recv_ack = b i; cmd_status = c i; len = d i }

-- The client's structure, filled with the header that the server writes, holds the same fields.
pub signal_of-signal_bytes : (s : CmdSignal) → IsSignal s → signal_of (signal_bytes s) ≡ s
unfolding signal_of signal_bytes int_bytes
signal_of-signal_bytes s h =
    signal_path (signal_of (signal_bytes s)) s (int_from-int_bytes s.send_ack _ h.send_ack)
      (int_from-int_bytes s.recv_ack _ h.recv_ack) (int_from-int_bytes s.cmd_status _ h.cmd_status)
      (int_from-int_bytes s.len _ h.len)

header-IsSignal : (status : CmdStatus) (n : ℕ) → n < 2 ^ 31 → IsSignal (header status n)
header-IsSignal cmd_success n h = omega arith
header-IsSignal _ n h = omega arith

-- The client reads from the header of a reply the status and the length of the message that the
-- server wrote, for a message of fewer than 2 ^ 31 bytes.
pub signal_of-header :
    (status : CmdStatus) (n : ℕ)
    → n < 2 ^ 31
    → signal_of (signal_bytes (header status n)) ≡ header status n
signal_of-header status n h = signal_of-signal_bytes (header status n) (header-IsSignal status n h)

-- sendSignal has put the header and the message behind what was sent before.
pub record Replied (status : CmdStatus) (msg : Bytes) (k : ℕ) (c : Conn) (x : Run Conn ℤ)
    : Type 0 where
  pub acts : List SendAct
  pub returns :
      x
      ≡ ok (pos 0) (record c {
        outgoing = c.outgoing ++ (signal_bytes (header status (length msg)) ++ msg);
        sends = acts;
      })
  pub accepts : Accepts k acts

message_sent :
    (status : CmdStatus) (msg : Bytes) (k : ℕ) (c c₁ : Conn)
    → length msg < 2 ^ 31
    → (acts : List SendAct)
    → c₁ ≡ record c {
      outgoing = c.outgoing ++ signal_bytes (header status (length msg));
      sends = acts;
    }
    → Accepts (k + length msg) acts
    → Replied status msg k c (send_message msg c₁)
unfolding send_message
message_sent status [] k c c₁ small acts e a = record {
  acts = acts;
  returns = ap (ok (pos 0)) (rw (e, append-nil));
  accepts = record { clean = a.clean; enough = omega (arith, a.enough) };
}
message_sent status (m ∷ msg) k c c₁ small acts e a =
    let r = sendn-Complete k (m ∷ msg) c₁ small (rw e a) in
    record {
      acts = r.acts;
      returns = rw (ne→== (length (m ∷ msg)) 0 (omega arith), r.returns, e) (rw append_assoc);
      accepts = r.accepts;
    }

-- For a message of fewer than 2 ^ 31 bytes, and a schedule of send with no error but EINTR and an
-- acceptance for each byte: sendSignal sends the header for the message and then the message, and
-- returns 0.
pub send_signal-Replied :
    (status : CmdStatus) (msg : Bytes) (k : ℕ) (c : Conn)
    → length msg < 2 ^ 31
    → Accepts (k + (16 + length msg)) c.sends
    → Replied status msg k c (send_signal (some msg) status c)
unfolding send_signal
send_signal-Replied status msg k c small a =
    let front = signal_bytes (header status (length msg)) in
    let size = length-signal_bytes (header status (length msg)) in
    let r =
      sendn-Complete (k + length msg) front c (omega arith)
        (record { clean = a.clean; enough = omega (arith, a.enough) }) in
    let c₁ = record c { outgoing = c.outgoing ++ front; sends = r.acts } in
    rw (le→ltb int_max (length msg) (omega arith)) (
      subst
        (λ x.
          Replied status msg k c
            (and_then x (λ ret. if is_neg ret then pure minus_one else send_message msg)))
        (sym r.returns) (message_sent status msg k c c₁ small r.acts refl r.accepts))
