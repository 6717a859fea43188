-- ===== src/Net.antt =====
-- A connected socket as the code sees it: what the peer sends, and how `recv` and `send` will
-- behave. `recv` and `send` are the operating system's: each call follows the next entry of a
-- schedule, which a theorem leaves open.
pub mod Schedule
use nex_file.Base.{
  ℕ, zero, suc, ◌+◌, ◌-◌, min, ℤ, pos, Bytes, List, [], ◌∷◌, ◌++◌, length, take, drop,
  if◌then◌else◌,
}
use nex_file.Base.Io.{Io, Run, ok, blocked, undefined, exited}

-- One call of `recv`: it delivers at most `suc k` bytes of what is there, or fails with EINTR, or
-- fails with another error.
pub data RecvAct : Type 0 where
  give : (k : ℕ) → RecvAct
  interrupted : RecvAct
  failing : RecvAct

-- One call of `send`: it takes at most `suc k` bytes, or fails.
pub data SendAct : Type 0 where
  accept : (k : ℕ) → SendAct
  send_interrupted : SendAct
  send_failing : SendAct

-- `incoming`: all that the peer still sends before it closes. `outgoing`: all that was sent to it.
-- When a schedule has no more entries, the next call blocks for ever.
pub record Conn : Type 0 where
  pub incoming : Bytes
  pub recvs : List RecvAct
  pub outgoing : Bytes
  pub sends : List SendAct

-- The part of a connection that `recv` changes: the bytes on their way, and the schedule.
abbrev pub Input : Type 0
Input = Bytes × List RecvAct

abbrev pub on_input : {A : Type 0} → Conn → Run Input A → Run Conn A
on_input c (ok a (w, acts)) = ok a (record c { incoming = w; recvs = acts })
on_input c blocked = blocked
on_input c undefined = undefined
on_input c exited = exited

-- What a call of `recv` returns: bytes, 0, -1 with EINTR, -1 with another `errno`.
pub data Received : Type 0 where
  got : (bs rest : Bytes) → Received
  closed : Received
  eintr : Received
  broken : Received

-- `recv(fd, p, room, 0)` with `room` > 0, from the bytes on their way.
abbrev pub recv_step : RecvAct → (room : ℕ) → Bytes → Received
recv_step (give k) room [] = closed
recv_step (give k) room (c ∷ cs) =
    got (take (min (suc k) room) (c ∷ cs)) (drop (min (suc k) room) (c ∷ cs))
recv_step interrupted room incoming = eintr
recv_step failing room incoming = broken

-- What a call of `send` returns: a count, with what it took and what is left; or -1.
pub data Sent : Type 0 where
  took : (bs rest : Bytes) → Sent
  send_eintr : Sent
  send_broken : Sent

abbrev pub send_step : SendAct → Bytes → Sent
send_step (accept k) bs = took (take (suc k) bs) (drop (suc k) bs)
send_step send_interrupted bs = send_eintr
send_step send_failing bs = send_broken

-- `recv(fd, buf, room, 0)` outside a loop.
unfoldable pub recv : (room : ℕ) → Io Conn Received
recv room c = elim c.recvs [
  | [] ↦ blocked
  | a ∷ acts ↦ elim (recv_step a room c.incoming) [
    | got bs rest ↦ ok (got bs rest) (record c { incoming = rest; recvs = acts })
    | closed ↦ ok closed (record c { recvs = acts })
    | eintr ↦ ok eintr (record c { recvs = acts })
    | broken ↦ ok broken (record c { recvs = acts })
  ]
]

-- `send(fd, bs, length bs, MSG_NOSIGNAL)` outside a loop: it may take less than all.
unfoldable pub send : Bytes → Io Conn Sent
send bs c = elim c.sends [
  | [] ↦ blocked
  | a ∷ acts ↦ elim (send_step a bs) [
    | took done rest ↦
        ok (took done rest) (record c { outgoing = c.outgoing ++ done; sends = acts })
    | send_eintr ↦ ok send_eintr (record c { sends = acts })
    | send_broken ↦ ok send_broken (record c { sends = acts })
  ]
]
