-- ===== src/Tests/Workers.antt =====
-- Two workers at once: ann asks for a directory while bob logs in.
use nex_file.Base.{
  ◌≡◌, refl, true, false, Bytes, codes, c_str, text_eq, List, [], ◌∷◌, ◌++◌, ◌==◌, replicate, none,
  some, if◌then◌else◌, arith,
}
use nex_file.Base.Io.{ok}
use nex_file.Protocol.Packet.{packet_bytes}
use nex_file.Protocol.Wire.{train_bytes, int_bytes}
use nex_file.Net.{Conn, RecvAct, give, accept}
use nex_file.Server.State.{Server}
use nex_file.Server.Auth.{Shadow, result_ok, enter_home, user_authen}
use nex_file.Server.Session.{wait_failing, serve_ready, handle_client}
use nex_file.Server.Session.Full.{handle_client-full}
use nex_file.Server.Session.Stream.{IsMkdir}
use nex_file.Server.Workers.{World, on_worker}
use nex_file.Server.Workers.Race.{mkdir_races_login}
use nex_file.Tests.Session.{os, memory, mkdir_packet, docs-IsMkdir}

abbrev shadow : Shadow
shadow name = if text_eq name (codes "bob") then some (codes "$y$2") else none

-- ann's connection has descriptor 7 and a packet for docs; bob's has 8 and his login.
abbrev ann : Conn
ann = record {
  incoming = packet_bytes (mkdir_packet (codes "docs"));
  recvs = replicate 1036 (give 1500);
  outgoing = [];
  sends = replicate 46 (accept 9);
}

abbrev bob : Conn
bob = record {
  incoming = train_bytes (codes "bob") ++ train_bytes (codes "$y$2");
  recvs = replicate 15 (give 9);
  outgoing = [];
  sends = accept 99 ∷ [];
}

abbrev world : World Bytes
world = record {
  client_path = codes "/srv/ann";
  files = [];
  conns = λ fd. if fd == 7 then ann else bob;
}

inner-IsMkdir : IsMkdir (enter_home (codes "/srv/ann") (codes "bob")) (mkdir_packet (codes "docs"))
unfolding enter_home c_str
inner-IsMkdir = record {
  wire = docs-IsMkdir.wire;
  code = refl;
  ended = omega arith;
  fits = omega arith;
}

-- The directory is /srv/ann/docs or /srv/ann/bob/docs.
mkdir_races_login_example :
    ((w₁ w₂ : World Bytes) × (on_worker 7 (serve_ready os shadow memory) world ≡ ok false w₁)
      × (on_worker 8 (user_authen shadow) w₁ ≡ ok result_ok w₂)
      × (w₂.files ≡ codes "/srv/ann/docs")
      × (w₂.client_path ≡ codes "/srv/ann/bob"))
    × ((w₁ w₂ : World Bytes) × (on_worker 8 (user_authen shadow) world ≡ ok result_ok w₁)
        × (on_worker 7 (serve_ready os shadow memory) w₁ ≡ ok false w₂)
        × (w₂.files ≡ codes "/srv/ann/bob/docs")
        × (w₂.client_path ≡ codes "/srv/ann/bob"))
unfolding enter_home c_str text_eq
mkdir_races_login_example =
    mkdir_races_login os shadow 7 8 99 memory (mkdir_packet (codes "docs")) (codes "bob")
      (codes "$y$2") [] world (omega arith) docs-IsMkdir inner-IsMkdir refl
      (record { clean = tt; enough = omega arith }) (record { clean = tt; enough = omega arith })
      refl (omega arith) (omega arith) (omega arith) (omega arith) (omega arith) refl
      (record { clean = tt; enough = omega arith }) refl (omega arith)

-- A path with no room for bob
abbrev full : Server Bytes
full = record { conn = bob; client_path = replicate 1020 b'a'; files = [] }

handle_client-full_example :
    (recvs : List RecvAct) × (handle_client os shadow 1 8 true true (wait_failing ∷ []) full
      ≡ ok tt (record full { conn = record bob { incoming = []; recvs = recvs } }))
unfolding text_eq int_bytes
handle_client-full_example =
    handle_client-full os shadow 0 8 true true (wait_failing ∷ []) (codes "bob") (codes "$y$2") []
      full refl (omega arith) (omega arith) (omega arith) (omega arith) (omega arith) refl
      (record { clean = tt; enough = omega arith })
