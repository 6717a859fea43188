-- ===== src/System/Mkdir.antt =====
-- A directory that a user asks for: from the line on the client's standard input to the server's
-- reply.
use nex_file.Base.{
  ℕ, suc, ◌+◌, ◌<◌, ◌≤◌, ◌≡◌, refl, sym, subst, ◌∙◌, ap, ℤ, Bool, false, Bytes, codes, IsStr, List,
  [], ◌∷◌, ◌++◌, append-nil, length, arith,
}
use nex_file.Base.Io.{ok}
use nex_file.Protocol.{PacketCmd, req_mkdir}
use nex_file.Protocol.Packet.{packet_size}
use nex_file.Net.{RecvAct, SendAct, accept}
use nex_file.Net.Schedule.{Delivers, Accepts}
use nex_file.Client.CmdOpt.Packet.{IsPacket, IsWord}
use nex_file.Client.FileOpt.{Client, LocalOs, Scratch}
use nex_file.Client.Main.{text, read_size, handle_stdin_event}
use nex_file.Client.Main.Typed.{mkdir_line, handle_stdin_event-sends}
use nex_file.Server.State.{Server}
use nex_file.Server.Files.{Os}
use nex_file.Server.Auth.{Shadow, max_path_len}
use nex_file.Server.Command.Replies.{message_of, reply_of}
use nex_file.Server.Session.{Memory, serve_ready}
use nex_file.Server.Session.Served.{serve_ready-mkdir}

-- A user types mkdir and a word of fewer than 1017 bytes, so that one read takes the line. If the
-- client's one call of send takes the packet, the line's handling returns, and what a fresh
-- connection of the client then carries is what reaches a worker: the worker makes exactly the
-- directory clientPath/word, if the path has fewer than 1024 bytes, and it sends the one reply that
-- tells whether that succeeded. The schedules of the worker have no error but EINTR and enough
-- calls.
pub typed_mkdir :
    {F G : Type 0} (local : LocalOs G) (os : Os F) (shadow : Shadow) (word : Bytes) (p : PacketCmd)
    (m : Scratch) (k : ℕ) (acts : List SendAct) (r : ℤ) (c c' : Client G) (mem : Memory) (i j : ℕ)
    (made : Bool) (fs : F) (s : Server F)
    → IsWord word
    → IsStr word
    → length (codes "mkdir" ++ b' ' ∷ word) < read_size
    → IsPacket p
    → packet_size ≤ suc k
    → c.conn.sends ≡ accept k ∷ acts
    → c.conn.outgoing ≡ []
    → handle_stdin_event local p m (text ((codes "mkdir" ++ b' ' ∷ word) ++ b'\n' ∷ [])) c ≡ ok r c'
    → s.conn.incoming ≡ c'.conn.outgoing
    → length (s.client_path ++ b'/' ∷ word) < max_path_len
    → os.mkdir (s.client_path ++ b'/' ∷ word) s.files ≡ (made, fs)
    → Delivers (i + packet_size) s.conn.recvs
    → Accepts (j + (16 + length (message_of made))) s.conn.sends
    → (recvs : List RecvAct) × (sends : List SendAct) × (serve_ready os shadow mem s
        ≡ ok false (record s {
          files = fs;
          conn = record {
            incoming = [];
            recvs = recvs;
            outgoing = s.conn.outgoing ++ reply_of made;
            sends = sends;
          };
        }))
typed_mkdir local os shadow word p m k acts r c c' mem i j made fs s is_word str short whole room
      one fresh handled arrived fits call d a =
    let (q, carries, wire, sent) =
      handle_stdin_event-sends local req_mkdir (codes "mkdir") word p m k acts r c c' (λ e. cc)
        (λ e. cc) (λ e. cc) refl is_word (mkdir_line word str) short whole room one handled in
    let path = ap (λ w. s.client_path ++ b'/' ∷ w) (sym carries.text) in
    let (recvs, sends, delivers, accepts, served) =
      serve_ready-mkdir os shadow mem q [] i j made fs s wire carries.code
        (omega (arith, ap length carries.text, wire.payload, short))
        (subst (λ w. length w < max_path_len) path fits)
        (subst (λ w. os.mkdir w s.files ≡ (made, fs)) path call)
        (arrived ∙ (sent ∙ (rw (fresh, append-nil) refl))) d a in
    (recvs, sends, served)
