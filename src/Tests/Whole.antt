-- ===== src/Tests/Whole.antt =====
-- A whole session: ann logs in, asks twice for the directory docs, and leaves.
use nex_file.Base.{
  ◌≡◌, refl, pos, true, false, Bytes, codes, text_eq, List, [], ◌∷◌, ◌++◌, replicate, arith,
}
use nex_file.Base.Io.{ok}
use nex_file.Protocol.Wire.{train_bytes}
use nex_file.Net.{give, accept}
use nex_file.Client.FileOpt.{Client}
use nex_file.Client.Main.{main}
use nex_file.Client.Main.Prompt.{packets, replies, taking, giving, waiting}
use nex_file.Client.Main.Whole.{credentials, welcome_text}
use nex_file.Server.State.{Server}
use nex_file.Server.Auth.{enter_home}
use nex_file.Server.Session.{ready, handle_client}
use nex_file.Server.Session.Stream.{waits_for}
use nex_file.System.Session.{Request, IsRequest, directories, exchanges, turns, user_session}
use nex_file.Tests.Session.{shadow, crypt, os, local, train, memory}
use nex_file.Tests.Together.{blank, scratch, docs-IsWord}

abbrev home : Bytes
home = enter_home (codes "/srv") (codes "ann")

abbrev request : Request
request = record {
  word = codes "docs";
  packet = blank;
  scratch = scratch;
  takes = 2000;
  gives = 99;
  memory = memory;
}

abbrev requests : List Request
requests = request ∷ request ∷ []

request-IsRequest : IsRequest home request
unfolding enter_home
request-IsRequest = record {
  is_word = docs-IsWord;
  is_str = omega arith;
  short = omega arith;
  whole = refl;
  room = omega arith;
  delivers = omega arith;
  fits = omega arith;
}

abbrev user : Client (Unit {0})
user = record {
  conn = record {
    incoming = train_bytes welcome_text ++ replies (exchanges os home requests []);
    recvs = give 3 ∷ give 20 ∷ giving (exchanges os home requests []);
    outgoing = [];
    sends = accept 99 ∷ accept 99 ∷ taking (exchanges os home requests []);
  };
  is_connected = false;
  files = tt;
}

abbrev worker : Server Bytes
worker = record {
  conn = record {
    incoming =
        train_bytes (codes "ann")
        ++ (train_bytes (codes "$y$1") ++ packets (exchanges os home requests []));
    recvs = replicate 2088 (give 100);
    outgoing = [];
    sends = accept 99 ∷ replicate 92 (accept 9);
  };
  client_path = codes "/srv";
  files = [];
}

user_session_example :
    (c' : Client (Unit {0})) × (s' : Server Bytes) × (main local crypt train true true true
        (credentials (codes "ann") (codes "pw"))
        (waiting blank scratch (exchanges os home requests []))
        user
      ≡ ok (pos 0) c')
    × (handle_client os shadow 1 7 true true
          (waits_for 7 (turns os home requests) (ready ((7, memory) ∷ []) ∷ []))
          worker
        ≡ ok tt s')
    × (c'.conn.outgoing ≡ worker.conn.incoming)
    × (s'.conn.outgoing ≡ user.conn.incoming)
    × (c'.conn.incoming ≡ [])
    × (s'.conn.incoming ≡ [])
    × (s'.client_path ≡ home)
    × (s'.files ≡ directories os home requests [])
unfolding text_eq
user_session_example =
    user_session local os crypt shadow train (codes "ann") (codes "pw") (codes "$y$1") requests
      blank scratch memory 99 99 3 20 99 7 0 (replicate 92 (accept 9)) user worker refl refl
      (omega arith) (omega arith) (omega arith) (omega arith) (omega arith)
      (refl, (refl, (refl, tt))) (refl, (refl, tt)) (omega arith)
      (request-IsRequest, (request-IsRequest, tt)) (omega arith) (omega arith) (omega arith)
      (omega arith) refl refl refl refl refl refl refl (record { clean = tt; enough = omega arith })
      refl (omega arith) (record { clean = tt; enough = omega arith })
