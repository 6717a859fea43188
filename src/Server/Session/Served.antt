-- ===== src/Server/Session/Served.antt =====
-- A packet that arrives is the packet that is handled.
use nex_file.Base.{
  ℕ, ◌+◌, ◌<◌, ◌≡◌, refl, ap, ℤ, pos, Bool, false, Bool-cases, inl, inr, ◌==◌, lt→leb, Bytes, List,
  ◌++◌, length, length-append, drop, split_at, arith, c_str,
}
use nex_file.Base.Io.{Run, ok}
use nex_file.Protocol.{PacketCmd, to_code, CommandCode, req_mkdir}
use nex_file.Protocol.Packet.{
  packet_bytes, packet_size, IsWire, length-packet_bytes, packet_of-append,
}
use nex_file.Net.{Conn, RecvAct, SendAct}
use nex_file.Net.Schedule.{Delivers, Accepts}
use nex_file.Server.Transfer.Receive.{recvn-Complete}
use nex_file.Server.State.{Server}
use nex_file.Server.Files.{Os}
use nex_file.Server.Auth.{Shadow, max_path_len}
use nex_file.Server.Command.Replies.{
  make_dir-Replied, cmd_parse-mkdir, path_named, message_of, reply_of,
}
use nex_file.Server.Command.Unanswered.{IsSilent, files_after, cmd_parse-silent}
use nex_file.Server.Session.{Memory, print_packet, recv_cmd, serve_ready}

pub record Receives (k : ℕ) (p : PacketCmd) (rest : Bytes) (c : Conn) (x : Run Conn (ℤ × PacketCmd))
    : Type 0 where
  pub acts : List RecvAct
  pub returns : x ≡ ok (pos packet_size, p) (record c { incoming = rest; recvs = acts })
  pub delivers : Delivers k acts

-- A whole packet on its way is received as it was sent, whatever the structure held before, under
-- every schedule of recv with no error but EINTR and a delivery for each byte.
pub recv_cmd-Receives :
    (k : ℕ) (cmd : Bytes) (p : PacketCmd) (rest : Bytes) (c : Conn)
    → IsWire p
    → c.incoming ≡ packet_bytes p ++ rest
    → Delivers (k + packet_size) c.recvs
    → Receives k p rest c (recv_cmd cmd c)
unfolding recv_cmd
recv_cmd-Receives k cmd p rest c wire e d =
    let size = length-packet_bytes p wire in
    let whole = length-append (packet_bytes p) rest in
    let r =
      recvn-Complete k packet_size c (omega arith) (omega (arith, ap length e, size, whole)) d in
    let (front, back) = split_at packet_size (packet_bytes p) rest c.incoming e size in
    record {
      acts = r.acts;
      returns =
          rw (r.returns, ← front, ← back)
            (ap (λ q. ok (pos packet_size, q) (record c { incoming = rest; recvs = r.acts }))
              (packet_of-append p (drop (length (packet_bytes p)) cmd) wire));
      delivers = r.delivers;
    }

print_packet-ok :
    {F : Type 0} (p : PacketCmd) (s : Server F)
    → length (c_str p.payload) < length p.payload
    → print_packet p s ≡ ok tt s
unfolding print_packet
print_packet-ok p s ended = elim (Bool-cases (p.arg_flag == 1)) [
  | inl argument ↦ rw (argument, lt→leb (length p.payload) (length (c_str p.payload)) ended) refl
  | inr bare ↦ rw bare refl
]

module _ {F : Type 0} (os : Os F) (shadow : Shadow) where
  -- A worker that gets a packet for mkdir handles it.
  pub serve_ready-mkdir :
      (m : Memory) (p : PacketCmd) (rest : Bytes) (k j : ℕ) (made : Bool) (fs : F) (s : Server F)
      → IsWire p
      → p.cmd_code ≡ to_code req_mkdir
      → length (c_str p.payload) < length p.payload
      → length (path_named os p s) < max_path_len
      → os.mkdir (path_named os p s) s.files ≡ (made, fs)
      → s.conn.incoming ≡ packet_bytes p ++ rest
      → Delivers (k + packet_size) s.conn.recvs
      → Accepts (j + (16 + length (message_of made))) s.conn.sends
      → (recvs : List RecvAct) × (sends : List SendAct) × Delivers k recvs
        × Accepts j sends
        × (serve_ready os shadow m s
            ≡ ok false (record s {
              files = fs;
              conn = record {
                incoming = rest;
                recvs = recvs;
                outgoing = s.conn.outgoing ++ reply_of made;
                sends = sends;
              };
            }))
  unfolding serve_ready
  serve_ready-mkdir m p rest k j made fs s wire code ended fits call e d a =
      let r = recv_cmd-Receives k m.cmd p rest s.conn wire e d in
      let s₁ : Server F = record s { conn = record s.conn { incoming = rest; recvs = r.acts } } in
      let (sends, done, more) = make_dir-Replied os p s₁ j made fs ended fits call a in
      let handled = cmd_parse-mkdir os p s₁ m.name_buf m.size_buf _ _ code done in
      (r.acts, sends, r.delivers, more, rw (r.returns, print_packet-ok p s₁ ended, handled) refl)

  -- A worker that gets a packet for cd, ls or rm handles it, and sends nothing.
  pub serve_ready-silent :
      (m : Memory) (c : CommandCode) (p : PacketCmd) (rest : Bytes) (k : ℕ) (s : Server F)
      → IsSilent c
      → IsWire p
      → p.cmd_code ≡ to_code c
      → length (c_str p.payload) < length p.payload
      → s.conn.incoming ≡ packet_bytes p ++ rest
      → Delivers (k + packet_size) s.conn.recvs
      → (recvs : List RecvAct) × (serve_ready os shadow m s
          ≡ ok false (record s {
            files = files_after os c (c_str p.payload) s.files;
            conn = record s.conn { incoming = rest; recvs = recvs };
          }))
  unfolding serve_ready
  serve_ready-silent m c p rest k s silent wire code ended e d =
      let r = recv_cmd-Receives k m.cmd p rest s.conn wire e d in
      let s₁ : Server F = record s { conn = record s.conn { incoming = rest; recvs = r.acts } } in
      let handled = cmd_parse-silent os c p m.name_buf m.size_buf s₁ silent code ended in
      (r.acts, rw (r.returns, print_packet-ok p s₁ ended, handled) refl)
