-- ===== src/Client/FileOpt/Quiet.antt =====
-- Every handler of the client but putFile sends no more than the packet.
use nex_file.Base.{
  ℕ, suc, ◌≤◌, ◌++◌, ◌≡◌, ◌≢◌, refl, sym, subst, ℤ, pos, minus_one, Bool, true, not, Bytes, List,
  ◌∷◌, ◌==◌, if◌then◌else◌, replicate,
}
use nex_file.Base.Io.{Io, Run, ok, blocked, undefined, exited, exit, pure}
use nex_file.Base.Keeps.{Kept, Kept-ok, Keeps, Keeps-bind, Keeps-if}
use nex_file.Protocol.{
  PacketCmd, Train, CommandCode, to_code, req_invalid, req_cd, req_ls, req_pwd, req_rm, req_put,
  req_get, req_mkdir,
}
use nex_file.Protocol.Packet.{packet_bytes, packet_size, IsWire}
use nex_file.Net.{Conn, SendAct, accept}
use nex_file.Server.Files.{string_in, off_from}
use nex_file.Server.Files.Quiet.{Keeps-string_in}
use nex_file.Server.Train.{copy_out}
use nex_file.Server.Train.Quiet.{sent, copy_out-sent}
use nex_file.Client.Transfer.{recvn}
use nex_file.Client.Train.{read_train}
use nex_file.Client.Train.Quiet.{recvn-sent, read_train-sent}
use nex_file.Client.Signal.{recv_signal}
use nex_file.Client.Signal.Quiet.{recv_signal-sent}
use nex_file.Client.FileOpt.Packet.{send_cmd-whole}
use nex_file.Client.FileOpt.{
  LocalOs, Client, Scratch, with_conn, on_conn, syscall, await, change_dir, list_dir,
  print_working_dir, remove_file, make_dir, get_content, store_content, get_train, receive_file,
  get_file, handled, dispatch, cmd_parse,
}

-- What the client has sent.
abbrev pub outgoing : {F : Type 0} → Client F → Bytes
outgoing s = s.conn.outgoing

module _ {F : Type 0} where
  with_conn-outgoing :
      {A : Type 0} (s : Client F) (x : Run Conn A)
      → Kept sent s.conn x
      → Kept outgoing s (with_conn s x)
  with_conn-outgoing s (ok a c) h = h
  with_conn-outgoing s blocked h = tt
  with_conn-outgoing s undefined h = tt
  with_conn-outgoing s exited h = tt

  on_conn-outgoing :
      {A : Type 0} (m : Io Conn A) → Keeps sent m → Keeps outgoing (on_conn {F = F} m)
  on_conn-outgoing m h s = with_conn-outgoing s (m s.conn) (h s.conn)

module _ {F : Type 0} (os : LocalOs F) (m : Scratch) where
  await-outgoing : Keeps outgoing (await os m)
  unfolding await
  await-outgoing =
      Keeps-bind outgoing (on_conn (recv_signal m.alloc)) _
        (on_conn-outgoing (recv_signal m.alloc) (recv_signal-sent m.alloc)) λ r. λ s. refl

  refusing :
      (b : Bool) (k : Io (Client F) ℤ)
      → Keeps outgoing k
      → Keeps outgoing (if b then pure minus_one else k)
  refusing b k h = Keeps-if outgoing b (pure minus_one) k (λ s. refl) h

  handled-outgoing : (n : Io (Client F) ℤ) → Keeps outgoing n → Keeps outgoing (handled os m n)
  handled-outgoing n h = Keeps-bind outgoing n (λ _. pure (pos 0)) h λ r. λ s. refl

  store_content-outgoing : (name : Bytes) (size : ℤ) → Keeps outgoing (store_content os m name size)
  unfolding store_content get_content
  store_content-outgoing name size =
      Keeps-bind outgoing (syscall (os.create name)) _ (λ s. refl)
        λ created.
          Keeps-bind outgoing (if created then syscall (os.resize name size) else exit) _
            (Keeps-if outgoing created _ _ (λ s. refl) (λ s. tt))
            λ mapped.
              Keeps-if outgoing mapped _ exit
                (Keeps-bind outgoing (on_conn (recvn size)) _
                  (on_conn-outgoing (recvn size) (recvn-sent size))
                  λ (_, content).
                    Keeps-bind outgoing (syscall (λ fs. (true, os.fill name content fs))) _
                      (λ s. refl) λ done. await-outgoing)
                (λ s. tt)

  get_train-outgoing : (t : Train) (buf : Bytes) → Keeps outgoing (get_train os m t buf)
  unfolding get_train
  get_train-outgoing t buf =
      Keeps-bind outgoing (on_conn (read_train t)) _
        (on_conn-outgoing (read_train t) (read_train-sent t))
        λ t'.
          Keeps-bind outgoing (on_conn (copy_out t' buf)) _
            (on_conn-outgoing (copy_out t' buf) (copy_out-sent t' buf)) λ b. λ s. refl

  receive_file-outgoing : Keeps outgoing (receive_file os m)
  unfolding receive_file
  receive_file-outgoing =
      Keeps-bind outgoing (get_train os m m.train (replicate 1024 0)) _ (get_train-outgoing _ _)
        λ (t, whole).
          Keeps-bind outgoing (get_train os m t m.size_buf) _ (get_train-outgoing _ _) λ (_, size).
            Keeps-bind outgoing (string_in whole) _ (Keeps-string_in outgoing whole)
              λ name. store_content-outgoing name (off_from size)

  dispatch-outgoing :
      (c : CommandCode) (cmd : PacketCmd)
      → c ≢ req_put
      → Keeps outgoing (dispatch os m (to_code c) cmd)
  unfolding dispatch change_dir list_dir print_working_dir remove_file make_dir get_file
  dispatch-outgoing req_invalid cmd n = λ s. refl
  dispatch-outgoing req_cd cmd n = handled-outgoing _ await-outgoing
  dispatch-outgoing req_ls cmd n = handled-outgoing _ await-outgoing
  dispatch-outgoing req_pwd cmd n =
      handled-outgoing _ (refusing (cmd.arg_flag == 1) _ await-outgoing)
  dispatch-outgoing req_rm cmd n =
      handled-outgoing _ (refusing (not (cmd.arg_flag == 1)) _ await-outgoing)
  dispatch-outgoing req_put cmd n = absurd (n refl)
  dispatch-outgoing req_get cmd n =
      handled-outgoing _ (refusing (not (cmd.arg_flag == 1)) _ receive_file-outgoing)
  dispatch-outgoing req_mkdir cmd n =
      handled-outgoing _ (refusing (not (cmd.arg_flag == 1)) _ await-outgoing)

  -- If the one call of send takes the whole packet, and cmdParse returns, then the packet is all that
  -- was sent, for every command but put.
  pub cmd_parse-outgoing :
      (c : CommandCode) (cmd : PacketCmd) (k : ℕ) (acts : List SendAct) (r : ℤ) (s s' : Client F)
      → c ≢ req_put
      → cmd.cmd_code ≡ to_code c
      → IsWire cmd
      → packet_size ≤ suc k
      → s.conn.sends ≡ accept k ∷ acts
      → cmd_parse os m cmd s ≡ ok r s'
      → outgoing s' ≡ outgoing s ++ packet_bytes cmd
  unfolding cmd_parse
  cmd_parse-outgoing c cmd k acts r s s' n code wire room e returned =
      let s₁ : Client F = record s {
        conn = record s.conn { outgoing = s.conn.outgoing ++ packet_bytes cmd; sends = acts };
      } in
      let quiet =
        subst (λ n. Keeps outgoing (dispatch os m n cmd)) (sym code) (dispatch-outgoing c cmd n) in
      Kept-ok outgoing s₁ s' (dispatch os m cmd.cmd_code cmd s₁) r (quiet s₁)
        (rw (send_cmd-whole cmd k acts s.conn wire room e) at returned)
