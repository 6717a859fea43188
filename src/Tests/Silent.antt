-- ===== src/Tests/Silent.antt =====
-- ann removes a file and never hears of it.
use nex_file.Base.{◌≡◌, refl, false, Bytes, codes, List, [], ◌∷◌, ◌++◌, replicate, arith}
use nex_file.Base.Io.{ok, blocked}
use nex_file.Protocol.{req_rm}
use nex_file.Protocol.Packet.{packet_bytes}
use nex_file.Net.{RecvAct, give, accept}
use nex_file.Client.CmdOpt.{check}
use nex_file.Client.FileOpt.{Client}
use nex_file.Client.Main.{stdin, ready, text, event_loop}
use nex_file.Server.State.{Server}
use nex_file.Server.Session.{serve_ready}
use nex_file.System.Silent.{silent_command_hangs}
use nex_file.Tests.Session.{shadow, os, local, memory}
use nex_file.Tests.Together.{blank, scratch, docs-IsWord}

abbrev typed : Bytes
typed = codes "rm" ++ b' ' ∷ codes "docs"

abbrev user : Client (Unit {0})
user = record {
  conn = record { incoming = []; recvs = []; outgoing = []; sends = accept 2000 ∷ [] };
  is_connected = false;
  files = tt;
}

abbrev worker : Server Bytes
worker = record {
  conn = record {
    incoming = packet_bytes (check typed blank).0;
    recvs = replicate 1036 (give 99);
    outgoing = [];
    sends = [];
  };
  client_path = codes "/srv/ann";
  files = codes "docs";
}

silent_command_hangs_example :
    (event_loop local (ready (stdin blank scratch (text (typed ++ b'\n' ∷ [])) ∷ []) ∷ []) user
      ≡ blocked)
    × ((recvs : List RecvAct) × (serve_ready os shadow memory worker
          ≡ ok false
              (record worker { conn = record worker.conn { incoming = []; recvs = recvs } })))
silent_command_hangs_example =
    silent_command_hangs local os shadow req_rm (codes "rm") (codes "docs") blank scratch 2000 [] []
      [] user memory worker tt refl docs-IsWord (omega arith) (omega arith) refl refl refl refl
      (record { clean = tt; enough = omega arith })
