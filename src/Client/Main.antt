-- ===== src/Client/Main.antt =====
-- NexFile/client/client.c: the login and the loop over standard input and the socket. What it prints
-- is left out.
pub mod Connected
pub mod Prompt
pub mod Typed
pub mod Whole
use nex_file.Base.{
  ℕ, ℤ, pos, minus_one, is_neg, eq_ℤ, Bool, true, false, not, ◌&&◌, ◌||◌, Bytes, c_str, List, [],
  ◌∷◌, ◌==◌, ◌-◌, take, if◌then◌else◌, Option, some,
}
use nex_file.Base.Io.{Io, Run, ok, blocked, undefined, exited, exit, pure, ◌>>=◌, ◌>>◌}
use nex_file.Protocol.{PacketCmd, Train}
use nex_file.Net.{Conn, recv, Received, got, closed, eintr, broken}
use nex_file.Client.CmdOpt.{check}
use nex_file.Client.Login.{Crypt, Login, handle_authentication}
use nex_file.Client.FileOpt.{Client, LocalOs, Scratch, on_conn, cmd_parse}

-- What a call that reads standard input finds: some bytes, the end, or an error. A call takes no more
-- than fits its buffer; what stays behind is found by a later call, in a text of its own.
pub data Input : Type 0 where
  text : Bytes → Input
  ended : Input
  failing : Input

-- What `fgets(s, size, stdin)` stores of a line that lies ready.
unfoldable pub fgets : (size : ℕ) → Bytes → Bytes
fgets size line = take (size - 1) line

-- `sizeof(buf) - 1` of handle_stdin_event: what one `read` takes at most.
abbrev pub read_size : ℕ
read_size = 1023

-- `s[strcspn(s, "\n")] = '\0'`
unfoldable pub before_newline : Bytes → Bytes
before_newline [] = []
before_newline (c ∷ cs) = if c == b'\n' then [] else c ∷ before_newline cs

-- `if (buf[read_ret - 1] == '\n') buf[read_ret - 1] = '\0'`
unfoldable pub drop_newline : Bytes → Bytes
drop_newline [] = []
drop_newline (c ∷ []) = if c == b'\n' then [] else c ∷ []
drop_newline (c ∷ d ∷ cs) = c ∷ drop_newline (d ∷ cs)

-- handle_socket_event
unfoldable pub handle_socket_event : Io Conn ℤ
handle_socket_event = do
  r ← recv 1024
  pure
      (elim r [ got bs rest ↦ pos 0 | closed ↦ minus_one | eintr ↦ minus_one | broken ↦ minus_one ])

abbrev pub with_login : {F A : Type 0} → Client F → Run Login A → Run (Client F) A
with_login s (ok a l) = ok a (record s { conn = l.conn; is_connected = l.is_connected })
with_login s blocked = blocked
with_login s undefined = undefined
with_login s exited = exited

abbrev pub on_login : {F A : Type 0} → Io Login A → Io (Client F) A
on_login m s = with_login s (m (record { conn = s.conn; is_connected = s.is_connected }))

abbrev connected : {F : Type 0} → Io (Client F) Bool
connected s = ok s.is_connected s

-- handle_authen_event on what the calls of `fgets` will find, and on what the memory of `train` holds.
unfoldable pub handle_authen_event :
    {F : Type 0} → Crypt → Train → List Input → Io (Client F) (ℤ × List Input)
handle_authen_event crypt t [] = do
  done ← connected
  if done then pure (pos 0, []) else λ s. blocked
handle_authen_event crypt t (text username ∷ []) = do
  done ← connected
  if done then pure (pos 0, text username ∷ []) else λ s. blocked
handle_authen_event crypt t (text username ∷ text password ∷ inputs) =
    let again = handle_authen_event crypt t inputs in
    do
      done ← connected
      if done then pure (pos 0, text username ∷ text password ∷ inputs) else do
        ret ← on_login (
            handle_authentication crypt t (some (before_newline (fgets 64 username)))
              (some (before_newline (fgets 128 password))))
        if not (eq_ℤ ret (pos 0)) then again else pure (pos 0, inputs)
handle_authen_event crypt t (text username ∷ other ∷ inputs) = do
  done ← connected
  if done then pure (pos 0, text username ∷ other ∷ inputs) else pure (minus_one, inputs)
handle_authen_event crypt t (other ∷ inputs) = do
  done ← connected
  if done then pure (pos 0, other ∷ inputs) else pure (minus_one, inputs)

-- What lies ready for one turn of the loop, with the memory of the calls that handle it.
pub data Event : Type 0 where
  socket : Event
  stdin : (p : PacketCmd) → Scratch → Input → Event
  unknown : Event

-- What a call of epoll_wait gives.
pub data Waited : Type 0 where
  wait_failing : Waited
  ready : List Event → Waited

module _ {F : Type 0} (os : LocalOs F) where
  -- handle_stdin_event behind cmdCheck
  checked : Scratch → PacketCmd × ℤ → Io (Client F) ℤ
  checked m (cmd, ret) =
      if not (eq_ℤ ret (pos 0)) then pure (pos 1) else (cmd_parse os m cmd >> pure (pos 0))

  -- handle_stdin_event; `p` is what the memory of the packet holds.
  unfoldable pub handle_stdin_event : (p : PacketCmd) → Scratch → Input → Io (Client F) ℤ
  unfolding checked
  handle_stdin_event p m failing = pure minus_one
  handle_stdin_event p m ended = pure minus_one
  handle_stdin_event p m (text []) = pure minus_one
  handle_stdin_event p m (text (c ∷ cs)) =
      checked m (check (c_str (drop_newline (take read_size (c ∷ cs)))) p)

  -- The loop over the ready descriptors: true for `should_exit`.
  unfoldable pub handle_ready : List Event → Io (Client F) Bool
  handle_ready [] = pure false
  handle_ready (socket ∷ events) =
      let later = handle_ready events in
      do ret ← on_conn handle_socket_event; if not (eq_ℤ ret (pos 0)) then pure true else later
  handle_ready (stdin p m input ∷ events) =
      let later = handle_ready events in
      do ret ← handle_stdin_event p m input; if eq_ℤ ret minus_one then pure true else later
  handle_ready (unknown ∷ events) = handle_ready events

  -- The loop around epoll_wait; it ends in front of the two calls of `close`.
  unfoldable pub event_loop : List Waited → Io (Client F) (Unit {0})
  event_loop [] = λ s. blocked
  event_loop (wait_failing ∷ waits) = pure tt
  event_loop (ready events ∷ waits) =
      let later = event_loop waits in
      do should_exit ← handle_ready events; if should_exit then pure tt else later

  -- main; `made`, `joined` and `polled` say whether `socket`, `connect` and `epoll_create` succeed.
  unfoldable pub main :
      Crypt → Train → (made joined polled : Bool) → List Input → List Waited → Io (Client F) ℤ
  main crypt t made joined polled inputs waits = if not made || not joined then exit else do
    (ret, _) ← handle_authen_event crypt t inputs
    if not (eq_ℤ ret (pos 0))
        then pure (pos 1)
        else if not polled
        then exit
        else (event_loop waits >> pure (pos 0))
