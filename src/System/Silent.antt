-- ===== src/System/Silent.antt =====
-- The commands that the client waits for and the server does not answer.
use nex_file.Base.{
  ℕ, ◌<◌, ◌≡◌, ◌≢◌, sym, ◌∙◌, ap, subst, false, Bytes, IsStr, List, [], ◌∷◌, ◌++◌, append-nil,
  length, some, arith,
}
use nex_file.Base.Io.{ok, blocked}
use nex_file.Protocol.{
  PacketCmd, CommandCode, req_invalid, req_cd, req_ls, req_pwd, req_rm, req_put, req_get, req_mkdir,
}
use nex_file.Protocol.Names.{name_of}
use nex_file.Protocol.Packet.{packet_bytes, packet_size}
use nex_file.Net.{RecvAct, SendAct, accept}
use nex_file.Net.Schedule.{Delivers}
use nex_file.Client.CmdOpt.{check}
use nex_file.Client.CmdOpt.Packet.{IsPacket, IsWord, check-IsPacket, check_typed}
use nex_file.Client.FileOpt.{Client, LocalOs, Scratch}
use nex_file.Client.FileOpt.Waiting.{cmd_parse-blocked}
use nex_file.Client.Main.{Event, stdin, Waited, ready, text, read_size, event_loop}
use nex_file.Client.Main.Typed.{Carries-IsWire, IsStr-back, word_short, middle, event_loop-blocked}
use nex_file.Server.State.{Server}
use nex_file.Server.Files.{Os}
use nex_file.Server.Auth.{Shadow}
use nex_file.Server.Command.Unanswered.{IsSilent, files_after}
use nex_file.Server.Session.{Memory, serve_ready}
use nex_file.Server.Session.Served.{serve_ready-silent}

silent_apart : (c : CommandCode) → IsSilent c → (c ≢ req_invalid) × (c ≢ req_pwd)
silent_apart req_cd h = (λ e. cc, λ e. cc)
silent_apart req_ls h = (λ e. cc, λ e. cc)
silent_apart req_rm h = (λ e. cc, λ e. cc)
silent_apart req_invalid h = absurd h
silent_apart req_pwd h = absurd h
silent_apart req_put h = absurd h
silent_apart req_get h = absurd h
silent_apart req_mkdir h = absurd h

-- A user types cd, ls or rm and a word, in a line of at most 1022 bytes before its end, which one
-- read takes. The worker that gets the packet of this line, under a schedule of recv with no error
-- but EINTR and enough calls, handles it: rm removes the file, and nothing is sent. The client,
-- which has got all that the server has sent before, so that no call of its recv returns any more,
-- hangs: its loop never ends, whatever else is ready then or later.
pub silent_command_hangs :
    {F G : Type 0} (local : LocalOs G) (os : Os F) (shadow : Shadow) (c : CommandCode)
    (t word : Bytes) (p : PacketCmd) (m : Scratch) (k : ℕ) (acts : List SendAct)
    (events : List Event) (waits : List Waited) (client : Client G) (mem : Memory) (s : Server F)
    → IsSilent c
    → name_of c ≡ some t
    → IsWord word
    → IsStr (t ++ b' ' ∷ word)
    → length (t ++ b' ' ∷ word) < read_size
    → IsPacket p
    → client.conn.sends ≡ accept k ∷ acts
    → client.conn.recvs ≡ []
    → s.conn.incoming ≡ packet_bytes (check (t ++ b' ' ∷ word) p).0
    → Delivers packet_size s.conn.recvs
    → (event_loop local
          (ready (stdin p m (text ((t ++ b' ' ∷ word) ++ b'\n' ∷ [])) ∷ events) ∷ waits)
          client
        ≡ blocked)
      × ((recvs : List RecvAct) × (serve_ready os shadow mem s
            ≡ ok false (record s {
              files = files_after os c word s.files;
              conn = record s.conn { incoming = []; recvs = recvs };
            })))
silent_command_hangs local os shadow c t word p m k acts events waits client mem s silent name
      is_word str fits whole one quiet came d =
    let short = word_short t word fits in
    let line = t ++ b' ' ∷ word in
    let (known, takes) = silent_apart c silent in
    let (passed, carries) =
      check_typed c t word p known takes name is_word (IsStr-back t (b' ' ∷ word) str).1 short in
    let wire = Carries-IsWire c word (check line p).0 carries (check-IsPacket line p whole) short in
    let (recvs, served) =
      serve_ready-silent os shadow mem c (check line p).0 [] 0 s silent wire carries.code
        (omega (arith, ap length carries.text, wire.payload, short))
        (came ∙ sym (append-nil (packet_bytes (check line p).0)))
        (record { clean = d.clean; enough = omega (arith, d.enough) }) in
    (
      event_loop-blocked local p m line events waits client (middle t word) fits str passed (
          cmd_parse-blocked local m c (check line p).0 k acts client silent carries.code
            carries.flag one quiet),
      (
        recvs,
        subst
            (λ w.
              serve_ready os shadow mem s
              ≡ ok false (record s {
                files = files_after os c w s.files;
                conn = record s.conn { incoming = []; recvs = recvs };
              }))
            carries.text served,
      ),
    )
