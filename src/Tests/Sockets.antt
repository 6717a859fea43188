-- ===== src/Tests/Sockets.antt =====
-- recvn and sendn on short schedules.
use nex_file.Base.{pos, codes, [], ◌∷◌, arith}
use nex_file.Net.{give, interrupted, failing, accept, send_interrupted, Conn}
use nex_file.Server.Transfer.{recvn, sendn}
use nex_file.Server.Transfer.Receive.{Complete, recvn-Complete}
use nex_file.Server.Transfer.Send.{Transmits, sendn-Transmits, sendn-Complete}
use nex_file.Server.Transfer.Send

-- Six bytes arrive in pieces of two and more, with an interruption.
abbrev conn : Conn
conn = record {
  incoming = codes "hello!";
  recvs = give 1 ∷ interrupted ∷ give 9 ∷ give 9 ∷ give 9 ∷ failing ∷ [];
  outgoing = [];
  sends = accept 2 ∷ send_interrupted ∷ accept 9 ∷ [];
}

abbrev calm : Conn
calm = record conn { recvs = give 1 ∷ interrupted ∷ give 9 ∷ give 0 ∷ give 0 ∷ [] }

recvn-Complete_example : Complete 0 4 calm (recvn (pos 4) calm)
recvn-Complete_example =
    recvn-Complete 0 4 calm (omega arith) (omega arith)
      (record { clean = tt; enough = omega arith })

sendn-Transmits_example : Transmits (pos 2) (codes "ok") conn (sendn (codes "ok") conn)
sendn-Transmits_example = sendn-Transmits (codes "ok") conn (omega arith)

sendn-Complete_example : Send.Complete 0 (codes "ok") conn (sendn (codes "ok") conn)
sendn-Complete_example =
    sendn-Complete 0 (codes "ok") conn (omega arith) (record { clean = tt; enough = omega arith })
