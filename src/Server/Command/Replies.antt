-- ===== src/Server/Command/Replies.antt =====
-- The outcomes of makeDir.
use nex_file.Base.{
  ℤ, ne→==, eq→==, refl, ℕ, ◌+◌, ◌<◌, ◌≤◌, ◌≡◌, pos, minus_one, Bool, true, false, Bytes, List, ◌∷◌,
  ◌++◌, length, le→leb, lt→leb, if◌then◌else◌, arith, c_str,
}
use nex_file.Base.Io.{ok}
use nex_file.Protocol.{PacketCmd, to_code, req_mkdir, CmdStatus, cmd_success, cmd_failure}
use nex_file.Net.{SendAct}
use nex_file.Net.Schedule.{Accepts}
use nex_file.Server.State.{Server}
use nex_file.Server.Signal.{signal_bytes, header}
use nex_file.Server.Signal.Sent.{send_signal-Replied}
use nex_file.Server.Files.{Os}
use nex_file.Server.Auth.{max_path_len}
use nex_file.Server.Command.{
  cmd_parse, make_dir, make_path, report, success_message, failure_message,
}

-- What makeDir says of `mkdir`: the status, the message and its own result.
abbrev pub status_of : Bool → CmdStatus
status_of made = if made then cmd_success else cmd_failure

abbrev pub message_of : Bool → Bytes
message_of made = if made then success_message else failure_message

-- The reply: the header for the message, and the message.
abbrev pub reply_of : Bool → Bytes
reply_of made = signal_bytes (header (status_of made) (length (message_of made))) ++ message_of made

reported :
    {F : Type 0} (made : Bool) (s : Server F) (k : ℕ)
    → Accepts (k + (16 + length (message_of made))) s.conn.sends
    → (acts : List SendAct) × (report made s
        ≡ ok (if made then pos 0 else minus_one) (record s {
          conn = record s.conn { outgoing = s.conn.outgoing ++ reply_of made; sends = acts };
        }))
      × Accepts k acts
unfolding report
reported true s k a =
    let r = send_signal-Replied cmd_success success_message k s.conn (omega arith) a in
    (r.acts, rw r.returns, r.accepts)
reported false s k a =
    let r = send_signal-Replied cmd_failure failure_message k s.conn (omega arith) a in
    (r.acts, rw r.returns, r.accepts)

module _ {F : Type 0} (os : Os F) (cmd : PacketCmd) (s : Server F) where
  abbrev pub path_named : Bytes
  path_named = s.client_path ++ (b'/' ∷ c_str cmd.payload)

  -- For a packet whose data_ holds a NUL: a path of 1024 bytes or more is refused. makeDir
  -- returns -1, and neither makes a directory nor replies.
  pub make_dir_too_long :
      length (c_str cmd.payload) < length cmd.payload
      → max_path_len ≤ length path_named
      → make_dir os cmd s ≡ ok minus_one s
  unfolding make_dir
  make_dir_too_long ended long = rw (
    lt→leb (length cmd.payload) (length (c_str cmd.payload)) ended,
    le→leb max_path_len (length path_named) long,
  )

  -- For a packet whose data_ holds a NUL, a path of fewer than 1024 bytes, and a schedule of send
  -- with no error but EINTR and an acceptance for each byte of the reply: makeDir makes exactly
  -- the directory clientPath/data_, and its result and its one reply tell whether that succeeded.
  pub make_dir-Replied :
      (k : ℕ) (made : Bool) (fs : F)
      → length (c_str cmd.payload) < length cmd.payload
      → length path_named < max_path_len
      → os.mkdir path_named s.files ≡ (made, fs)
      → Accepts (k + (16 + length (message_of made))) s.conn.sends
      → (acts : List SendAct) × (make_dir os cmd s
          ≡ ok (if made then pos 0 else minus_one) (record s {
            files = fs;
            conn = record s.conn { outgoing = s.conn.outgoing ++ reply_of made; sends = acts };
          }))
        × Accepts k acts
  unfolding make_dir make_path
  make_dir-Replied k made fs ended fits call a =
      let s₁ : Server F = record s { files = fs } in
      let (acts, e, left) = reported made s₁ k a in
      (
        acts,
        rw
            (
              lt→leb (length cmd.payload) (length (c_str cmd.payload)) ended,
              lt→leb max_path_len (length path_named) fits,
              call,
            )
            e,
        left,
      )

  -- cmdParse on a packet for mkdir
  pub cmd_parse-mkdir :
      (name_buf size_buf : Bytes) (r : ℤ) (t : Server F)
      → cmd.cmd_code ≡ to_code req_mkdir
      → make_dir os cmd s ≡ ok r t
      → cmd_parse os name_buf size_buf cmd s ≡ ok (pos 0) t
  unfolding cmd_parse
  cmd_parse-mkdir name_buf size_buf r t code e =
      rw
        (
          ne→== cmd.cmd_code 1 (omega arith),
          ne→== cmd.cmd_code 2 (omega arith),
          eq→== cmd.cmd_code 7 code,
        )
        (rw e refl)
