-- ===== src/Client/FileOpt/Packet.antt =====
-- What sendCmd sends.
use nex_file.Base.{ℕ, suc, ◌≤◌, ◌≡◌, refl, ◌∙◌, ap, pos, List, ◌∷◌, ◌++◌, take, take_all, arith}
use nex_file.Base.Io.{ok}
use nex_file.Protocol.{PacketCmd}
use nex_file.Protocol.Packet.{packet_bytes, packet_size, IsWire, length-packet_bytes}
use nex_file.Net.{Conn, SendAct, accept, send}
use nex_file.Client.FileOpt.{send_cmd}

-- Whatever part of the packet the one call of `send` takes, sendCmd returns 0, and the rest is lost.
pub send_cmd-part :
    (cmd : PacketCmd) (k : ℕ) (acts : List SendAct) (c : Conn)
    → c.sends ≡ accept k ∷ acts
    → send_cmd cmd c
      ≡ ok
          (pos 0)
          (record c { outgoing = c.outgoing ++ take (suc k) (packet_bytes cmd); sends = acts })
unfolding send_cmd send
send_cmd-part cmd k acts c e = rw e refl

-- If the call takes all of it, the packet is sent.
pub send_cmd-whole :
    (cmd : PacketCmd) (k : ℕ) (acts : List SendAct) (c : Conn)
    → IsWire cmd
    → packet_size ≤ suc k
    → c.sends ≡ accept k ∷ acts
    → send_cmd cmd c
      ≡ ok (pos 0) (record c { outgoing = c.outgoing ++ packet_bytes cmd; sends = acts })
send_cmd-whole cmd k acts c wire room e =
    send_cmd-part cmd k acts c e
    ∙ ap (λ bs. ok (pos 0) (record c { outgoing = c.outgoing ++ bs; sends = acts }))
        (take_all (suc k) (packet_bytes cmd) (omega (arith, length-packet_bytes cmd wire)))
