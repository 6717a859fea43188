-- ===== src/Server/Session/Stream.antt =====
-- A worker takes the packets of a stream apart, however recv cuts it.
use nex_file.Base.{
  ℕ, ◌+◌, ◌*◌, ◌<◌, ◌≤◌, ◌≡◌, refl, sym, ◌∙◌, ap, ap₂, Bool, true, false, Bytes, c_str, All, List,
  [], ◌∷◌, ◌++◌, append-nil, append_assoc, length, eq→==, arith,
}
use nex_file.Protocol.{PacketCmd, to_code, req_mkdir}
use nex_file.Protocol.Packet.{packet_bytes, packet_size, IsWire}
use nex_file.Net.{RecvAct, SendAct}
use nex_file.Net.Schedule.{Delivers, Accepts}
use nex_file.Server.State.{Server}
use nex_file.Server.Files.{Os}
use nex_file.Server.Auth.{Shadow, max_path_len}
use nex_file.Server.Command.Replies.{message_of, reply_of}
use nex_file.Server.Session.{Memory, Waited, ready, serve_set, serve_loop}
use nex_file.Server.Session.Served.{serve_ready-mkdir}

-- A packet for mkdir with a string in `data_` that fits behind the path.
pub record IsMkdir (path : Bytes) (p : PacketCmd) : Type 0 where
  pub wire : IsWire p
  pub code : p.cmd_code ≡ to_code req_mkdir
  pub ended : length (c_str p.payload) < length p.payload
  pub fits : length (path ++ (b'/' ∷ c_str p.payload)) < max_path_len

-- One turn: the memory of the calls, and the packet that arrives.
abbrev pub Turn : Type 0
Turn = Memory × PacketCmd

abbrev pub on_wire : List Turn → Bytes
on_wire [] = []
on_wire ((m, p) ∷ turns) = packet_bytes p ++ on_wire turns

-- The results of epoll_wait: the one descriptor that is registered, once for each turn, and then
-- those of `later`.
abbrev pub waits_for : (fd : ℕ) → List Turn → (later : List Waited) → List Waited
waits_for fd [] later = later
waits_for fd ((m, p) ∷ turns) later = ready ((fd, m) ∷ []) ∷ waits_for fd turns later

-- What is asked for: a call of mkdir for each packet, and a reply for each call, in order.
abbrev pub make_all : {F : Type 0} → Os F → (path : Bytes) → List Turn → F → F × Bytes
make_all os path [] fs = (fs, [])
make_all os path ((m, p) ∷ turns) fs =
    let made = os.mkdir (path ++ (b'/' ∷ c_str p.payload)) fs in
    let later = make_all os path turns made.1 in (later.0, reply_of made.0 ++ later.1)

pub message_short : (made : Bool) → length (message_of made) ≤ 30
message_short true = omega arith
message_short false = omega arith

module _ {F : Type 0} (os : Os F) (shadow : Shadow) (fd : ℕ) where
  -- `s` after the turns.
  abbrev pub after_turns :
      Server F → List Turn → (rest : Bytes) → List RecvAct → List SendAct → Server F
  after_turns s turns rest recvs sends = record s {
    files = (make_all os s.client_path turns s.files).0;
    conn = record {
      incoming = rest;
      recvs = recvs;
      outgoing = s.conn.outgoing ++ (make_all os s.client_path turns s.files).1;
      sends = sends;
    };
  }

  -- Packets for mkdir that lie one behind the other in the stream are handled one by one, in order and
  -- each exactly once, however recv cuts the stream: the worker makes the directories and sends the
  -- replies that are asked for, one packet for each result of epoll_wait. Each packet has a string in data_ that fits behind the path, and the
  -- schedules have no error but EINTR, a delivery for each byte of the packets, and 46 acceptances for
  -- each reply.
  pub serve_loop-mkdirs :
      (k j : ℕ) (turns : List Turn) (later : List Waited) (rest : Bytes) (s : Server F)
      → All (λ (turn : Turn). IsMkdir s.client_path turn.1) turns
      → s.conn.incoming ≡ on_wire turns ++ rest
      → Delivers (k + packet_size * length turns) s.conn.recvs
      → Accepts (j + 46 * length turns) s.conn.sends
      → (recvs : List RecvAct) × (sends : List SendAct) × Delivers k recvs
        × (serve_loop os shadow fd (waits_for fd turns later) s
            ≡ serve_loop os shadow fd later (after_turns s turns rest recvs sends))
  unfolding serve_loop serve_set
  serve_loop-mkdirs k j [] later rest s h e d a = (
    s.conn.recvs,
    s.conn.sends,
    record { clean = d.clean; enough = omega (arith, d.enough) },
    ap₂
        (λ w o.
          serve_loop os shadow fd later
            (record s { conn = record s.conn { incoming = w; outgoing = o } }))
        e (sym (append-nil s.conn.outgoing)),
  )
  serve_loop-mkdirs k j ((m, p) ∷ turns) later rest s h e d a =
      let n = length turns in
      let made = os.mkdir (s.client_path ++ (b'/' ∷ c_str p.payload)) s.files in
      let short = message_short made.0 in
      let (recvs, sends, delivers, accepts, first) =
        serve_ready-mkdir os shadow m p (on_wire turns ++ rest) (k + packet_size * n) (j + 46 * n)
          made.0 made.1 s h.0.wire h.0.code h.0.ended h.0.fits refl
          (e ∙ append_assoc (packet_bytes p) (on_wire turns) rest)
          (record { clean = d.clean; enough = omega (arith, d.enough) })
          (record { clean = a.clean; enough = omega (arith, a.enough, short) }) in
      let s₁ : Server F = record s {
        files = made.1;
        conn = record {
          incoming = on_wire turns ++ rest;
          recvs = recvs;
          outgoing = s.conn.outgoing ++ reply_of made.0;
          sends = sends;
        };
      } in
      let (recvs', sends', left, onward) =
        serve_loop-mkdirs k j turns later rest s₁ h.1 refl delivers accepts in
      let all = make_all os s.client_path turns made.1 in
      (
        recvs',
        sends',
        left,
        rw (eq→== fd fd refl) (
            rw first (
              onward
              ∙ ap
                  (λ o. serve_loop os shadow fd later (record s {
                    files = all.0;
                    conn = record { incoming = rest; recvs = recvs'; outgoing = o; sends = sends' };
                  }))
                  (append_assoc s.conn.outgoing (reply_of made.0) all.1))),
      )
