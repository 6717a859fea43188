-- ===== src/Client/FileOpt/Waiting.antt =====
-- The commands that the server does not answer, when nothing more arrives.
use nex_file.Base.{ℕ, ◌≡◌, refl, ◌∙◌, ap, List, [], ◌∷◌, ◌++◌, take, suc, eq→==}
use nex_file.Base.Io.{blocked}
use nex_file.Protocol.{
  PacketCmd, to_code, CommandCode, req_invalid, req_cd, req_ls, req_pwd, req_rm, req_put, req_get,
  req_mkdir,
}
use nex_file.Protocol.Packet.{packet_bytes}
use nex_file.Net.{SendAct, accept}
use nex_file.Server.Command.Unanswered.{IsSilent}
use nex_file.Client.Signal.Waiting.{recv_signal-blocked}
use nex_file.Client.FileOpt.Packet.{send_cmd-part}
use nex_file.Client.FileOpt.{
  Client, LocalOs, Scratch, await, change_dir, list_dir, remove_file, dispatch, cmd_parse,
}

module _ {F : Type 0} (os : LocalOs F) (m : Scratch) where
  await-blocked : (s : Client F) → s.conn.recvs ≡ [] → await os m s ≡ blocked
  unfolding await
  await-blocked s e = rw (recv_signal-blocked m.alloc s.conn e) refl

  dispatch-blocked :
      (c : CommandCode) (cmd : PacketCmd) (s : Client F)
      → IsSilent c
      → cmd.arg_flag ≡ 1
      → s.conn.recvs ≡ []
      → dispatch os m (to_code c) cmd s ≡ blocked
  unfolding dispatch change_dir list_dir remove_file
  dispatch-blocked req_cd cmd s h flag e = rw (await-blocked s e) refl
  dispatch-blocked req_ls cmd s h flag e = rw (await-blocked s e) refl
  dispatch-blocked req_rm cmd s h flag e =
      rw (eq→== cmd.arg_flag 1 flag) (rw (await-blocked s e) refl)
  dispatch-blocked req_invalid cmd s h flag e = absurd h
  dispatch-blocked req_pwd cmd s h flag e = absurd h
  dispatch-blocked req_put cmd s h flag e = absurd h
  dispatch-blocked req_get cmd s h flag e = absurd h
  dispatch-blocked req_mkdir cmd s h flag e = absurd h

  -- cmdParse sends the packet of such a command and then waits for ever.
  pub cmd_parse-blocked :
      (c : CommandCode) (cmd : PacketCmd) (k : ℕ) (acts : List SendAct) (s : Client F)
      → IsSilent c
      → cmd.cmd_code ≡ to_code c
      → cmd.arg_flag ≡ 1
      → s.conn.sends ≡ accept k ∷ acts
      → s.conn.recvs ≡ []
      → cmd_parse os m cmd s ≡ blocked
  unfolding cmd_parse
  cmd_parse-blocked c cmd k acts s h code flag es er =
      let s₁ : Client F = record s {
        conn = record s.conn {
          outgoing = s.conn.outgoing ++ take (suc k) (packet_bytes cmd);
          sends = acts;
        };
      } in
      rw (send_cmd-part cmd k acts s.conn es)
        (ap (λ n. dispatch os m n cmd s₁) code ∙ dispatch-blocked c cmd s₁ h flag er)
