-- ===== src/Client/Main/Prompt.antt =====
-- The loop over standard input and the socket, when directories are asked for and each reply arrives
-- before the next line.
use nex_file.Base.{
  ℕ, suc, ◌-◌, ◌<◌, ◌≤◌, ◌≡◌, refl, sym, ap, ◌∙◌, pos, false, Bytes, codes, IsStr, All, List, [],
  ◌∷◌, ◌++◌, append_assoc, append-nil, length, min, drop-length-append, arith,
}
use nex_file.Base.Io.{ok}
use nex_file.Protocol.{PacketCmd, req_mkdir}
use nex_file.Protocol.Packet.{packet_bytes, packet_size, IsWire}
use nex_file.Net.{Conn, RecvAct, SendAct, give, accept, recv}
use nex_file.Client.CmdOpt.{check}
use nex_file.Client.CmdOpt.Packet.{IsPacket, IsWord, Carries, check-IsPacket, check_typed}
use nex_file.Client.Signal.{signal_size}
use nex_file.Client.FileOpt.{Client, LocalOs, Scratch}
use nex_file.Client.FileOpt.Prompt.{cmd_parse-make_dir}
use nex_file.Client.Main.{
  Event, Waited, ready, socket, stdin, text, ended, read_size, handle_socket_event,
  handle_stdin_event, handle_ready, event_loop,
}
use nex_file.Client.Main.Typed.{Carries-IsWire, word_short, handle_stdin_event-parses, mkdir_line}

-- A line that asks for a directory, what the packet and the memory of its turn hold, the calls of send
-- and recv that take the packet and deliver the header, and the header and the message of the reply.
pub record Exchange : Type 0 where
  pub word : Bytes
  pub packet : PacketCmd
  pub scratch : Scratch
  pub takes : ℕ
  pub gives : ℕ
  pub reply_header : Bytes
  pub message : Bytes

abbrev pub typed : Bytes → Bytes
typed word = codes "mkdir" ++ b' ' ∷ word

-- The packet that cmdCheck makes of the line, over what the packet held.
abbrev pub asking : Bytes → PacketCmd → PacketCmd
asking word packet = (check (typed word) packet).0

abbrev pub asked : Exchange → PacketCmd
asked x = asking x.word x.packet

-- A word in a line that one read takes passes cmdCheck, and the packet that it makes can be sent.
pub typed_word :
    (word : Bytes) (packet : PacketCmd)
    → IsWord word
    → IsStr word
    → length (typed word) < read_size
    → IsPacket packet
    → ((check (typed word) packet).1 ≡ pos 0)
      × Carries req_mkdir word (asking word packet)
      × IsWire (asking word packet)
typed_word word packet is_word is_str fits whole =
    let short = word_short (codes "mkdir") word fits in
    let (passed, carries) =
      check_typed req_mkdir (codes "mkdir") word packet (λ e. cc) (λ e. cc) refl is_word is_str
        short in
    (
      passed,
      carries,
      Carries-IsWire req_mkdir word (asking word packet) carries
          (check-IsPacket (typed word) packet whole) short,
    )

pub record IsExchange (x : Exchange) : Type 0 where
  pub is_word : IsWord x.word
  pub is_str : IsStr x.word
  pub short : length (typed x.word) < read_size
  pub whole : IsPacket x.packet
  pub room : packet_size ≤ suc x.takes
  pub size : length x.reply_header ≡ signal_size
  pub delivers : signal_size ≤ suc x.gives
  pub some_message : 0 < length x.message
  pub fits : length x.message ≤ 1024

abbrev pub packets : List Exchange → Bytes
packets [] = []
packets (x ∷ xs) = packet_bytes (asked x) ++ packets xs

abbrev pub replies : List Exchange → Bytes
replies [] = []
replies (x ∷ xs) = x.reply_header ++ (x.message ++ replies xs)

-- The calls of send and recv: each reply is delivered whole, its message to handle_socket_event.
abbrev pub taking : List Exchange → List SendAct
taking [] = []
taking (x ∷ xs) = accept x.takes ∷ taking xs

abbrev pub giving : List Exchange → List RecvAct
giving [] = []
giving (x ∷ xs) = give x.gives ∷ give (length x.message - 1) ∷ giving xs

abbrev line_event : Exchange → Event
line_event x = stdin x.packet x.scratch (text (typed x.word ++ b'\n' ∷ []))

-- The results of epoll_wait: each line, then its reply, and at last the end of the input.
abbrev pub waiting : PacketCmd → Scratch → List Exchange → List Waited
waiting p m [] = ready (stdin p m ended ∷ []) ∷ []
waiting p m (x ∷ xs) = ready (line_event x ∷ []) ∷ ready (socket ∷ []) ∷ waiting p m xs

-- handle_socket_event, when the call of recv delivers what is there up to `rest`.
socket_prompt :
    (k : ℕ) (recvs : List RecvAct) (bs rest : Bytes) (c : Conn)
    → length bs ≡ suc k
    → length bs ≤ 1024
    → c.incoming ≡ bs ++ rest
    → c.recvs ≡ give k ∷ recvs
    → handle_socket_event c ≡ ok (pos 0) (record c { incoming = rest; recvs = recvs })
unfolding handle_socket_event recv
socket_prompt k recvs [] rest c size room e d = absurd (omega (arith, size))
socket_prompt k recvs (b ∷ bs) rest c size room e d =
    let m : min (suc k) 1024 ≡ length (b ∷ bs) = ground arith in
    rw (e, d)
      (rw m (
        ap (λ w. ok (pos 0) (record c { incoming = w; recvs = recvs }))
          (drop-length-append bs rest)))

module _ {F : Type 0} (os : LocalOs F) where
  -- A line that asks for a directory, with the reply's header on its way.
  line_prompt :
      (x : Exchange) (sends : List SendAct) (recvs : List RecvAct) (rest : Bytes) (s : Client F)
      → IsExchange x
      → s.conn.sends ≡ accept x.takes ∷ sends
      → s.conn.recvs ≡ give x.gives ∷ recvs
      → s.conn.incoming ≡ x.reply_header ++ rest
      → handle_stdin_event os x.packet x.scratch (text (typed x.word ++ b'\n' ∷ [])) s
        ≡ ok (pos 0) (record s {
          conn = record {
            incoming = rest;
            recvs = recvs;
            outgoing = s.conn.outgoing ++ packet_bytes (asked x);
            sends = sends;
          };
        })
  line_prompt x sends recvs rest s h es er e =
      let (passed, carries, wire) = typed_word x.word x.packet h.is_word h.is_str h.short h.whole in
      let parsed =
        cmd_parse-make_dir os x.scratch x.takes x.gives sends recvs (asked x) x.reply_header rest s
          wire carries.code carries.flag h.room h.size h.delivers es e er in
      handle_stdin_event-parses os x.packet x.scratch (typed x.word) (pos 0) s _ (λ e. cc) h.short
        (mkdir_line x.word h.is_str) passed parsed

  line_ready :
      (x : Exchange) (s s' : Client F)
      → handle_stdin_event os x.packet x.scratch (text (typed x.word ++ b'\n' ∷ [])) s
        ≡ ok (pos 0) s'
      → handle_ready os (line_event x ∷ []) s ≡ ok false s'
  unfolding handle_ready
  line_ready x s s' e = rw e refl

  socket_ready :
      (s : Client F) (c : Conn)
      → handle_socket_event s.conn ≡ ok (pos 0) c
      → handle_ready os (socket ∷ []) s ≡ ok false (record s { conn = c })
  unfolding handle_ready
  socket_ready s c e = rw e refl

  -- One exchange: the line is handled, and its reply is read off the socket.
  exchanged :
      (x : Exchange) (later : List Waited) (sends : List SendAct) (recvs : List RecvAct)
      (rest : Bytes) (s : Client F)
      → IsExchange x
      → s.conn.sends ≡ accept x.takes ∷ sends
      → s.conn.recvs ≡ give x.gives ∷ give (length x.message - 1) ∷ recvs
      → s.conn.incoming ≡ x.reply_header ++ (x.message ++ rest)
      → event_loop os (ready (line_event x ∷ []) ∷ ready (socket ∷ []) ∷ later) s
        ≡ event_loop os later (record s {
          conn = record {
            incoming = rest;
            recvs = recvs;
            outgoing = s.conn.outgoing ++ packet_bytes (asked x);
            sends = sends;
          };
        })
  unfolding event_loop
  exchanged x later sends recvs rest s h es er e =
      let recvs₁ = give (length x.message - 1) ∷ recvs in
      let c₁ : Conn = record {
        incoming = x.message ++ rest;
        recvs = recvs₁;
        outgoing = s.conn.outgoing ++ packet_bytes (asked x);
        sends = sends;
      } in
      let s₁ : Client F = record s { conn = c₁ } in
      let first = line_ready x s s₁ (line_prompt x sends recvs₁ (x.message ++ rest) s h es er e) in
      let second =
        socket_ready s₁ (record c₁ { incoming = rest; recvs = recvs })
          (socket_prompt (length x.message - 1) recvs x.message rest c₁
            (omega (arith, h.some_message)) h.fits refl refl) in
      rw first (rw second refl)

  -- While each line asks for a directory and its reply arrives whole before the next, the loop sends
  -- the packets of the lines in order, reads every reply, and ends at the end of the input.
  pub event_loop-exchanges :
      (p : PacketCmd) (m : Scratch) (xs : List Exchange) (s : Client F)
      → All IsExchange xs
      → s.conn.sends ≡ taking xs
      → s.conn.recvs ≡ giving xs
      → s.conn.incoming ≡ replies xs
      → event_loop os (waiting p m xs) s
        ≡ ok tt (record s {
          conn = record {
            incoming = [];
            recvs = [];
            outgoing = s.conn.outgoing ++ packets xs;
            sends = [];
          };
        })
  unfolding event_loop handle_ready handle_stdin_event
  event_loop-exchanges p m [] s h es er e =
      let whole = sym (append-nil s.conn.outgoing) in
      λ i. ok tt (record s {
        conn = record { incoming = e i; recvs = er i; outgoing = whole i; sends = es i };
      })
  event_loop-exchanges p m (x ∷ xs) s h es er e =
      let s₁ : Client F = record s {
        conn = record {
          incoming = replies xs;
          recvs = giving xs;
          outgoing = s.conn.outgoing ++ packet_bytes (asked x);
          sends = taking xs;
        };
      } in
      exchanged x (waiting p m xs) (taking xs) (giving xs) (replies xs) s h.0 es er e
      ∙ event_loop-exchanges p m xs s₁ h.1 refl refl refl
      ∙ ap
          (λ o.
            ok tt
              (record s { conn = record { incoming = []; recvs = []; outgoing = o; sends = [] } }))
          (append_assoc s.conn.outgoing (packet_bytes (asked x)) (packets xs))
