-- ===== src/Client/FileOpt/Prompt.antt =====
-- makeDir of the client when its packet is taken whole and the header of the reply is delivered.
use nex_file.Base.{ℕ, suc, ◌≤◌, ◌≡◌, refl, ◌∙◌, ap, pos, Bytes, List, ◌∷◌, ◌++◌, length, eq→==}
use nex_file.Base.Io.{ok}
use nex_file.Protocol.{PacketCmd, to_code, req_mkdir}
use nex_file.Protocol.Packet.{packet_bytes, packet_size, IsWire}
use nex_file.Net.{RecvAct, SendAct, give, accept}
use nex_file.Client.Signal.{signal_size}
use nex_file.Client.Signal.Prompt.{recv_signal-prompt}
use nex_file.Client.FileOpt.Packet.{send_cmd-whole}
use nex_file.Client.FileOpt.{Client, LocalOs, Scratch, await, make_dir, dispatch, cmd_parse}

module _ {F : Type 0} (os : LocalOs F) (m : Scratch) where
  make_dir_dispatched :
      (k : ℕ) (recvs : List RecvAct) (cmd : PacketCmd) (front rest : Bytes) (s : Client F)
      → cmd.arg_flag ≡ 1
      → length front ≡ signal_size
      → signal_size ≤ suc k
      → s.conn.incoming ≡ front ++ rest
      → s.conn.recvs ≡ give k ∷ recvs
      → dispatch os m (to_code req_mkdir) cmd s
        ≡ ok (pos 0) (record s { conn = record s.conn { incoming = rest; recvs = recvs } })
  unfolding dispatch make_dir await
  make_dir_dispatched k recvs cmd front rest s flag size room e d =
      rw
        (
          eq→== cmd.arg_flag 1 flag,
          recv_signal-prompt m.alloc k recvs front rest s.conn size room e d,
        )
        refl

  -- cmdParse on a packet for mkdir, with the reply's header on its way: it sends the packet, takes the
  -- header, and leaves the message of the reply.
  pub cmd_parse-make_dir :
      (j k : ℕ) (sends : List SendAct) (recvs : List RecvAct) (cmd : PacketCmd) (front rest : Bytes)
      (s : Client F)
      → IsWire cmd
      → cmd.cmd_code ≡ to_code req_mkdir
      → cmd.arg_flag ≡ 1
      → packet_size ≤ suc j
      → length front ≡ signal_size
      → signal_size ≤ suc k
      → s.conn.sends ≡ accept j ∷ sends
      → s.conn.incoming ≡ front ++ rest
      → s.conn.recvs ≡ give k ∷ recvs
      → cmd_parse os m cmd s
        ≡ ok (pos 0) (record s {
          conn = record {
            incoming = rest;
            recvs = recvs;
            outgoing = s.conn.outgoing ++ packet_bytes cmd;
            sends = sends;
          };
        })
  unfolding cmd_parse
  cmd_parse-make_dir j k sends recvs cmd front rest s wire code flag takes size room es e d =
      let s₁ : Client F = record s {
        conn = record s.conn { outgoing = s.conn.outgoing ++ packet_bytes cmd; sends = sends };
      } in
      rw (send_cmd-whole cmd j sends s.conn wire takes es) (
        ap (λ n. dispatch os m n cmd s₁) code
        ∙ make_dir_dispatched k recvs cmd front rest s₁ flag size room e d)
