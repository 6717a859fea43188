-- ===== src/Client/Main/Typed.antt =====
-- What a line on standard input sends.
use nex_file.Base.{
  ℕ, suc, ◌<◌, ◌≤◌, ◌≡◌, ◌≢◌, ◌^◌, refl, sym, subst, ◌∙◌, ap, ℤ, pos, Bytes, codes, c_str, IsStr,
  List, [], ◌∷◌, ◌++◌, length, length-append, take, take_all, some, arith,
}
use nex_file.Base.Io.{ok, blocked, and_then-eq-ok}
use nex_file.Protocol.{
  PacketCmd, data_size, to_code, CommandCode, req_invalid, req_cd, req_ls, req_pwd, req_rm, req_put,
  req_get, req_mkdir,
}
use nex_file.Protocol.Wire.{IsInt}
use nex_file.Protocol.Names.{name_of}
use nex_file.Protocol.Packet.{packet_bytes, packet_size, IsWire}
use nex_file.Net.{SendAct, accept}
use nex_file.Client.CmdOpt.{check}
use nex_file.Client.CmdOpt.Packet.{IsPacket, IsWord, Carries, check-IsPacket, check_typed}
use nex_file.Client.FileOpt.{Client, LocalOs, Scratch, cmd_parse}
use nex_file.Client.FileOpt.Quiet.{outgoing, cmd_parse-outgoing}
use nex_file.Client.Main.{
  Event, stdin, Waited, ready, event_loop, handle_ready, text, read_size, drop_newline,
  handle_stdin_event, checked,
}

drop_newline-append : (l : Bytes) → drop_newline (l ++ b'\n' ∷ []) ≡ l
unfolding drop_newline
drop_newline-append [] = refl
drop_newline-append (c ∷ []) = refl
drop_newline-append (c ∷ d ∷ l) = ap (◌∷◌ c) (drop_newline-append (d ∷ l))

c_str_all : (l : Bytes) → IsStr l → c_str l ≡ l
unfolding c_str
c_str_all [] h = refl
c_str_all (c ∷ l) h = ground (arith, c_str_all l h.1)

pub IsStr-back : (t a : Bytes) → IsStr (t ++ a) → IsStr a
IsStr-back [] a h = h
IsStr-back (c ∷ t) a h = IsStr-back t a h.1

to_code_lt : (c : CommandCode) → to_code c < 2 ^ 32
to_code_lt req_invalid = omega arith
to_code_lt req_cd = omega arith
to_code_lt req_ls = omega arith
to_code_lt req_pwd = omega arith
to_code_lt req_rm = omega arith
to_code_lt req_put = omega arith
to_code_lt req_get = omega arith
to_code_lt req_mkdir = omega arith

pub Carries-IsWire :
    (c : CommandCode) (a : Bytes) (p : PacketCmd)
    → Carries c a p
    → IsPacket p
    → length a < data_size
    → IsWire p
Carries-IsWire c a p h whole short =
    let code = to_code_lt c in
    record {
      cmd_code = omega (arith, h.code);
      arg_flag = omega (arith, h.flag);
      len = subst IsInt (sym h.size) (omega arith);
      payload = whole;
    }

behind : (l : Bytes) → l ≢ [] → l ++ b'\n' ∷ [] ≢ []
behind [] n e = n refl
behind (c ∷ l) n e = cc e

-- A word of a line that one read takes fits data_.
pub word_short : (t a : Bytes) → length (t ++ b' ' ∷ a) < read_size → length a < data_size
word_short t a fits = omega (arith, length-append t (b' ' ∷ a))

pub middle : (t a : Bytes) → t ++ b' ' ∷ a ≢ []
middle [] a e = cc e
middle (c ∷ t) a e = cc e

-- A line that asks for a directory.
pub mkdir_line : (a : Bytes) → IsStr a → IsStr (codes "mkdir" ++ b' ' ∷ a)
mkdir_line a h = (λ e. cc, (λ e. cc, (λ e. cc, (λ e. cc, (λ e. cc, (λ e. cc, h))))))

module _ {F : Type 0} (os : LocalOs F) where
  on_line :
      (p : PacketCmd) (m : Scratch) (l : Bytes)
      → l ≢ []
      → handle_stdin_event os p m (text l)
        ≡ checked os m (check (c_str (drop_newline (take read_size l))) p)
  unfolding handle_stdin_event
  on_line p m [] n = absurd (n refl)
  on_line p m (c ∷ cs) n = refl

  line_checked :
      (p : PacketCmd) (m : Scratch) (l : Bytes)
      → l ≢ []
      → length l < read_size
      → IsStr l
      → handle_stdin_event os p m (text (l ++ b'\n' ∷ [])) ≡ checked os m (check l p)
  line_checked p m l n fits str =
      on_line p m (l ++ b'\n' ∷ []) (behind l n)
      ∙ ap (λ x. checked os m (check (c_str (drop_newline x)) p))
          (take_all read_size (l ++ b'\n' ∷ []) (omega (arith, length-append l (b'\n' ∷ []))))
      ∙ ap (λ x. checked os m (check x p)) (ap c_str (drop_newline-append l) ∙ c_str_all l str)

  -- A line that passes cmdCheck is handled by cmdParse.
  pub handle_stdin_event-parses :
      (p : PacketCmd) (m : Scratch) (l : Bytes) (b : ℤ) (s s' : Client F)
      → l ≢ []
      → length l < read_size
      → IsStr l
      → (check l p).1 ≡ pos 0
      → cmd_parse os m (check l p).0 s ≡ ok b s'
      → handle_stdin_event os p m (text (l ++ b'\n' ∷ [])) s ≡ ok (pos 0) s'
  unfolding checked
  handle_stdin_event-parses p m l b s s' n fits str passed parsed =
      ap (λ f. f s) (line_checked p m l n fits str) ∙ rw (passed, parsed) refl

  -- If cmdParse waits for ever, so does the loop, whatever else is ready.
  pub event_loop-blocked :
      (p : PacketCmd) (m : Scratch) (l : Bytes) (events : List Event) (waits : List Waited)
      (s : Client F)
      → l ≢ []
      → length l < read_size
      → IsStr l
      → (check l p).1 ≡ pos 0
      → cmd_parse os m (check l p).0 s ≡ blocked
      → event_loop os (ready (stdin p m (text (l ++ b'\n' ∷ [])) ∷ events) ∷ waits) s ≡ blocked
  unfolding checked event_loop handle_ready
  event_loop-blocked p m l events waits s n fits str passed hangs =
      let line : handle_stdin_event os p m (text (l ++ b'\n' ∷ [])) s ≡ blocked =
        ap (λ f. f s) (line_checked p m l n fits str) ∙ rw (passed, hangs) refl in
      rw line refl

  checked_parsed :
      (m : Scratch) (x : PacketCmd × ℤ) (r : ℤ) (s s' : Client F)
      → x.1 ≡ pos 0
      → checked os m x s ≡ ok r s'
      → (b : ℤ) × (cmd_parse os m x.0 s ≡ ok b s')
  unfolding checked
  checked_parsed m (cmd, ret) r s s' e h =
      let (b, s₁, e₁, e₂) = and_then-eq-ok (cmd_parse os m cmd s) _ (rw e at h) in
      let q : s₁ ≡ s' = cc e₂ in (b, rw q at e₁)

  -- A known command other than pwd and put, typed with one argument in a line that one
  -- read takes: if the one call
  -- of send takes the whole packet, and handle_stdin_event returns, then what it has sent is a packet
  -- with the command's code and the argument.
  pub handle_stdin_event-sends :
      (c : CommandCode) (t a : Bytes) (p : PacketCmd) (m : Scratch) (k : ℕ) (acts : List SendAct)
      (r : ℤ) (s s' : Client F)
      → c ≢ req_invalid
      → c ≢ req_pwd
      → c ≢ req_put
      → name_of c ≡ some t
      → IsWord a
      → IsStr (t ++ b' ' ∷ a)
      → length (t ++ b' ' ∷ a) < read_size
      → IsPacket p
      → packet_size ≤ suc k
      → s.conn.sends ≡ accept k ∷ acts
      → handle_stdin_event os p m (text ((t ++ b' ' ∷ a) ++ b'\n' ∷ [])) s ≡ ok r s'
      → (q : PacketCmd) × Carries c a q × IsWire q × (outgoing s' ≡ outgoing s ++ packet_bytes q)
  handle_stdin_event-sends c t a p m k acts r s s' known takes n name word str fits whole room e h =
      let line = t ++ b' ' ∷ a in
      let short = word_short t a fits in
      let (passed, carries) =
        check_typed c t a p known takes name word (IsStr-back t (b' ' ∷ a) str).1 short in
      let wire = Carries-IsWire c a _ carries (check-IsPacket line p whole) short in
      let (b, parsed) =
        checked_parsed m (check line p) r s s' passed
          (rw (line_checked p m line (middle t a) fits str) at h) in
      (
        (check line p).0,
        carries,
        wire,
        cmd_parse-outgoing os m c _ k acts b s s' n carries.code wire room e parsed,
      )
