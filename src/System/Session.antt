-- ===== src/System/Session.antt =====
-- A whole session of a user: the run of the client, and the run of the worker that serves it.
use nex_file.Base.{
  ℕ, suc, ◌+◌, ◌*◌, ◌<◌, ◌≤◌, ◌≡◌, refl, sym, ◌∙◌, ap, subst, pos, Bool, true, false, Bytes, IsStr,
  All, codes, List, [], ◌∷◌, ◌++◌, append_assoc, length, some, arith,
}
use nex_file.Base.Io.{ok}
use nex_file.Protocol.{PacketCmd, Train}
use nex_file.Protocol.Packet.{packet_bytes, packet_size}
use nex_file.Protocol.Wire.{train_bytes}
use nex_file.Net.{SendAct, give, accept}
use nex_file.Net.Schedule.{Delivers, Accepts}
use nex_file.Client.CmdOpt.Packet.{IsPacket, IsWord}
use nex_file.Client.Signal.{signal_size}
use nex_file.Client.Login.{Crypt}
use nex_file.Client.FileOpt.{Client, LocalOs, Scratch}
use nex_file.Client.Main.{read_size, main}
use nex_file.Client.Main.Prompt.{
  Exchange, IsExchange, asking, packets, replies, taking, giving, waiting, typed, typed_word,
}
use nex_file.Client.Main.Typed.{word_short}
use nex_file.Client.Main.Whole.{IsLine, credentials, welcome_text, main-session}
use nex_file.Server.State.{Server}
use nex_file.Server.Files.{Os}
use nex_file.Server.Auth.{Shadow, max_path_len, enter_home}
use nex_file.Server.Signal.{signal_bytes, header}
use nex_file.Server.Signal.Sent.{length-signal_bytes}
use nex_file.Server.Command.Replies.{status_of, message_of}
use nex_file.Server.Session.{Memory, ready, handle_client}
use nex_file.Server.Session.Stream.{Turn, IsMkdir, on_wire, waits_for, make_all}
use nex_file.Server.Session.Whole.{handle_client-session}

-- A line that asks for a directory, what the memory of its turn holds at both ends, and how the calls
-- of send and recv at the client will behave.
pub record Request : Type 0 where
  pub word : Bytes
  pub packet : PacketCmd
  pub scratch : Scratch
  pub takes : ℕ
  pub gives : ℕ
  pub memory : Memory

pub record IsRequest (home : Bytes) (r : Request) : Type 0 where
  pub is_word : IsWord r.word
  pub is_str : IsStr r.word
  pub short : length (typed r.word) < read_size
  pub whole : IsPacket r.packet
  pub room : packet_size ≤ suc r.takes
  pub delivers : signal_size ≤ suc r.gives
  pub fits : length (home ++ b'/' ∷ r.word) < max_path_len

-- The exchange of a request, with the reply that tells whether the directory was made.
abbrev exchange : Request → (made : Bool) → Exchange
exchange r made = record {
  word = r.word;
  packet = r.packet;
  scratch = r.scratch;
  takes = r.takes;
  gives = r.gives;
  reply_header = signal_bytes (header (status_of made) (length (message_of made)));
  message = message_of made;
}

message_bounds : (made : Bool) → (0 < length (message_of made)) × (length (message_of made) ≤ 1024)
message_bounds true = omega arith
message_bounds false = omega arith

module _ {F : Type 0} (os : Os F) (home : Bytes) where
  -- What the requests ask for: one call of mkdir for each, in order.
  abbrev pub directories : List Request → F → F
  directories [] fs = fs
  directories (r ∷ rs) fs = directories rs (os.mkdir (home ++ b'/' ∷ r.word) fs).1

  abbrev pub exchanges : List Request → F → List Exchange
  exchanges [] fs = []
  exchanges (r ∷ rs) fs =
      let made = os.mkdir (home ++ b'/' ∷ r.word) fs in exchange r made.0 ∷ exchanges rs made.1

  abbrev pub turns : List Request → List Turn
  turns [] = []
  turns (r ∷ rs) = (r.memory, asking r.word r.packet) ∷ turns rs

  length-turns : (rs : List Request) → length (turns rs) ≡ length rs
  length-turns [] = refl
  length-turns (r ∷ rs) = ap suc (length-turns rs)

  packets_wire : (rs : List Request) (fs : F) → packets (exchanges rs fs) ≡ on_wire (turns rs)
  packets_wire [] fs = refl
  packets_wire (r ∷ rs) fs = ap (◌++◌ (packet_bytes (asking r.word r.packet))) (packets_wire rs _)

  exchange-IsExchange :
      (r : Request) (made : Bool) → IsRequest home r → IsExchange (exchange r made)
  exchange-IsExchange r made h =
      let bounds = message_bounds made in
      record {
        is_word = h.is_word;
        is_str = h.is_str;
        short = h.short;
        whole = h.whole;
        room = h.room;
        size = length-signal_bytes (header (status_of made) (length (message_of made)));
        delivers = h.delivers;
        some_message = bounds.0;
        fits = bounds.1;
      }

  exchanges-All :
      (rs : List Request) (fs : F) → All (IsRequest home) rs → All IsExchange (exchanges rs fs)
  exchanges-All [] fs h = tt
  exchanges-All (r ∷ rs) fs h = (exchange-IsExchange r _ h.0, exchanges-All rs _ h.1)

  request-IsMkdir : (r : Request) → IsRequest home r → IsMkdir home (asking r.word r.packet)
  request-IsMkdir r h =
      let (passed, carries, wire) = typed_word r.word r.packet h.is_word h.is_str h.short h.whole in
      record {
        wire = wire;
        code = carries.code;
        ended = omega (
          arith,
          ap length carries.text,
          wire.payload,
          word_short (codes "mkdir") r.word h.short,
        );
        fits = subst (λ w. length (home ++ b'/' ∷ w) < max_path_len) (sym carries.text) h.fits;
      }

  turns-All :
      (rs : List Request)
      → All (IsRequest home) rs
      → All (λ (turn : Turn). IsMkdir home turn.1) (turns rs)
  turns-All [] h = tt
  turns-All (r ∷ rs) h = (request-IsMkdir r h.0, turns-All rs h.1)

  make_all-directories :
      (rs : List Request) (fs : F)
      → All (IsRequest home) rs
      → make_all os home (turns rs) fs ≡ (directories rs fs, replies (exchanges rs fs))
  make_all-directories [] fs h = refl
  make_all-directories (r ∷ rs) fs h =
      let made = os.mkdir (home ++ b'/' ∷ r.word) fs in
      let front = signal_bytes (header (status_of made.0) (length (message_of made.0))) in
      let (passed, carries, wire) =
        typed_word r.word r.packet h.0.is_word h.0.is_str h.0.short h.0.whole in
      rw (carries.text, make_all-directories rs made.1 h.1)
        (ap (λ bytes. (directories rs made.1, bytes))
          (append_assoc front (message_of made.0) (replies (exchanges rs made.1))))

-- A whole session. The user types, each line when the one before is done, a name and its password,
-- then lines that each ask for a directory, and ends the input. The name has at most 62 bytes and
-- the password at most 126, so that one fgets reads each with the end of its line, and the hash has
-- at most 127; the name and the hash have no NUL, the name and the password no end of line; one
-- read takes each line, and the directory of each word fits the path. The shadow file has this name
-- with this hash. The client's calls of send take a train or packet each, those of recv deliver
-- what is asked for, and each reply before the next line; the worker's one send of the login's
-- reply takes it whole, each result of its epoll_wait reports the client's descriptor once until
-- the end is read, and its other calls have no error but EINTR, and there are enough of them. If
-- what reaches either end of a fresh connection are the bytes named below, then both ends return,
-- each has sent exactly those bytes that reach the other and has read all that it got, the worker
-- has the path of this user, and it has made exactly the directories asked for, in order.
pub user_session :
    {F G : Type 0} (local : LocalOs G) (os : Os F) (crypt : Crypt) (shadow : Shadow) (t : Train)
    (u p h : Bytes) (rs : List Request) (q : PacketCmd) (m : Scratch) (last : Memory)
    (k j a b i fd f : ℕ) (acts : List SendAct) (c : Client G) (s : Server F)
    → crypt p ≡ some h
    → shadow u ≡ some h
    → length u + 1 < 64
    → length p + 1 < 128
    → length h < 128
    → IsStr u
    → IsStr h
    → IsLine u
    → IsLine p
    → length s.client_path + 1 + length u < max_path_len
    → All (IsRequest (enter_home s.client_path u)) rs
    → length u + 4 ≤ suc k
    → length h + 4 ≤ suc j
    → 4 ≤ suc a
    → 14 ≤ suc b
    → c.is_connected ≡ false
    → c.conn.outgoing ≡ []
    → c.conn.sends
      ≡ accept k ∷ accept j ∷ taking (exchanges os (enter_home s.client_path u) rs s.files)
    → c.conn.recvs ≡ give a ∷ give b ∷ giving (exchanges os (enter_home s.client_path u) rs s.files)
    → c.conn.incoming
      ≡ train_bytes welcome_text ++ replies (exchanges os (enter_home s.client_path u) rs s.files)
    → s.conn.outgoing ≡ []
    → s.conn.incoming
      ≡ train_bytes u
        ++ (train_bytes h ++ packets (exchanges os (enter_home s.client_path u) rs s.files))
    → Delivers (1 + packet_size * length rs + length h + 4 + length u + 4) s.conn.recvs
    → s.conn.sends ≡ accept i ∷ acts
    → 18 ≤ suc i
    → Accepts (46 * length rs) acts
    → (c' : Client G) × (s' : Server F) × (main local crypt t true true true
          (credentials u p)
          (waiting q m (exchanges os (enter_home s.client_path u) rs s.files))
          c
        ≡ ok (pos 0) c')
      × (handle_client os shadow
            (suc f)
            fd
            true
            true
            (waits_for fd (turns os (enter_home s.client_path u) rs) (ready ((fd, last) ∷ []) ∷ []))
            s
          ≡ ok tt s')
      × (c'.conn.outgoing ≡ s.conn.incoming)
      × (s'.conn.outgoing ≡ c.conn.incoming)
      × (c'.conn.incoming ≡ [])
      × (s'.conn.incoming ≡ [])
      × (s'.client_path ≡ enter_home s.client_path u)
      × (s'.files ≡ directories os (enter_home s.client_path u) rs s.files)
user_session local os crypt shadow t u p h rs q m last k j a b i fd f acts c s hash known su sp sh
      iu ih lu lp fits asked ru rh four room off fresh_c ec er ei fresh_s came d one takes accepts =
    let home = enter_home s.client_path u in
    let xs = exchanges os home rs s.files in
    let n = length-turns os home rs in
    let wire = packets_wire os home rs s.files in
    let made = make_all-directories os home rs s.files asked in
    let client =
      main-session local crypt t u p h k j a b q m xs c hash lu lp su sp (omega arith) ru rh four
        room off (exchanges-All os home rs s.files asked) ec er ei in
    let (recvs, sends, served) =
      handle_client-session os shadow f fd i u h last (turns os home rs) acts s known (omega arith)
        sh iu ih fits (turns-All os home rs asked) (rw (← wire) came) (rw n d) one takes
        (rw n accepts) in
    (
      _,
      _,
      client,
      served,
      ap (λ o. (o ++ (train_bytes u ++ train_bytes h)) ++ packets xs) fresh_c
          ∙ append_assoc (train_bytes u) (train_bytes h) (packets xs)
          ∙ sym came,
      ap (λ o. (o ++ train_bytes welcome_text) ++ (make_all os home (turns os home rs) s.files).1)
            fresh_s
          ∙ ap (λ (all : _ × Bytes). train_bytes welcome_text ++ all.1) made
          ∙ sym ei,
      refl,
      refl,
      refl,
      ap (λ (all : _ × Bytes). all.0) made,
    )
