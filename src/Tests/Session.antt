-- ===== src/Tests/Session.antt =====
-- A session of the server: a login, two directories, and the end of the connection.
use nex_file.Base.{
  minus_one, ◌≡◌, ◌⊎◌, refl, length, pos, true, false, Bytes, codes, c_str, text_eq, List, [], ◌∷◌,
  ◌++◌, replicate, none, some, arith, if◌then◌else◌,
}
use nex_file.Base.Io.{ok}
use nex_file.Protocol.{PacketCmd, Train}
use nex_file.Protocol.Wire.{train_bytes, int_bytes, int_from, u32_bytes, u32_of, int_of, pattern_of}
use nex_file.Net.{RecvAct, give, interrupted, accept, send, SendAct}
use nex_file.Client.Login.{Crypt}
use nex_file.Client.FileOpt.{LocalOs}
use nex_file.Server.State.{Server}
use nex_file.Server.Transfer.{recvn, recvn_loop}
use nex_file.Server.Train.{read_train, copy_out}
use nex_file.Server.Auth.{
  Shadow, result_ok, authenticate_user, receive_text, send_reply, enter_home, answer, user_authen,
}
use nex_file.Server.Files.{Os}
use nex_file.Server.Session.{
  Memory, ready, wait_interrupted, recv_cmd, serve_ready, serve_set, serve_loop,
  handle_authen_event, handle_client,
}
use nex_file.Server.Session.Stream.{Turn, on_wire, IsMkdir}
use nex_file.Server.Session.Whole.{handle_client-session}
use nex_file.Server.Command.Replies.{reply_of}
use nex_file.Server.Session.Closed.{fails_after, refusals, handle_authen_event-spins}
use nex_file.Server.Session.Login.{LoggedIn, handle_client-guards}

abbrev pub shadow : Shadow
shadow name = if text_eq name (codes "ann") then some (codes "$y$1") else none

abbrev pub crypt : Crypt
crypt password = some (codes "$y$1")

-- A file system that keeps the directory that was made last.
abbrev pub os : Os Bytes
os = record {
  mkdir = λ path made. (true, path);
  unlink = λ path made. (false, made);
  opendir = λ path made. false;
  getcwd = λ made. true;
  size_of = λ path made. none;
  create = λ path made. (false, made);
  resize = λ path size made. (false, made);
  fill = λ path content made. made;
}

abbrev pub local : LocalOs (Unit {0})
local = record {
  size_at = λ address fs. none;
  create = λ path fs. (false, fs);
  resize = λ path size fs. (false, fs);
  fill = λ path content fs. fs;
}

abbrev pub train : Train
train = record { len = pos 7; payload = replicate 1024 9 }

-- The user's name and hash on their way, and nothing behind them.
abbrev pub server : Server Bytes
server = record {
  conn = record {
    incoming = train_bytes (codes "ann") ++ train_bytes (codes "$y$1");
    recvs = give 1 ∷ interrupted ∷ replicate 20 (give 9);
    outgoing = [];
    sends = accept 99 ∷ [];
  };
  client_path = codes "/srv";
  files = [];
}

abbrev pub welcomed : List RecvAct → Server Bytes
welcomed recvs = record {
  conn = record {
    incoming = [];
    recvs = recvs;
    outgoing = train_bytes (codes "AUTH_RESULT_OK");
    sends = [];
  };
  client_path = codes "/srv/ann";
  files = [];
}

pub login_run : user_authen shadow server ≡ ok result_ok (welcomed (replicate 16 (give 9)))
unfolding user_authen receive_text read_train copy_out recvn recvn_loop answer send_reply
    authenticate_user enter_home send int_bytes int_from u32_bytes u32_of int_of pattern_of text_eq
    c_str
login_run = refl

-- Nothing comes any more, two refusals are taken, and the third is not.
abbrev gone : Server Bytes
gone = record server {
  conn = record {
    incoming = [];
    recvs = interrupted ∷ replicate 6 (give 9);
    outgoing = [];
    sends = fails_after 2 99 [];
  };
}

handle_authen_event-spins_example :
    (recvs : List RecvAct) × (handle_authen_event os shadow 3 gone
      ≡ ok minus_one (record gone {
        conn = record { incoming = []; recvs = recvs; outgoing = refusals 2; sends = [] };
      }))
unfolding text_eq
handle_authen_event-spins_example =
    handle_authen_event-spins os shadow 2 3 99 [] gone refl refl
      (record { clean = tt; enough = omega arith }) refl (omega arith) (omega arith)

abbrev pub memory : Memory
memory = record { cmd = replicate 1036 9; name_buf = []; size_buf = [] }

-- The client logs in and leaves.
served_run :
    handle_client os shadow 30 7 true true (wait_interrupted ∷ ready ((7, memory) ∷ []) ∷ []) server
    ≡ ok tt (welcomed (replicate 15 (give 9)))
unfolding handle_client handle_authen_event serve_loop serve_set serve_ready recv_cmd user_authen
    receive_text read_train copy_out recvn recvn_loop answer send_reply authenticate_user enter_home
    send int_bytes int_from u32_bytes u32_of int_of pattern_of text_eq c_str
served_run = refl

handle_client-guards_example :
    ((welcomed (replicate 15 (give 9))).files ≡ server.files)
    ⊎ ((s₁ : Server Bytes) × (handle_authen_event os shadow 30 server ≡ ok (pos 0) s₁)
        × LoggedIn shadow server s₁)
handle_client-guards_example =
    handle_client-guards os shadow 30 7 true true (wait_interrupted ∷ ready ((7, memory) ∷ []) ∷ [])
      server (welcomed (replicate 15 (give 9))) served_run

-- Two packets for mkdir in one stream
abbrev pub mkdir_packet : Bytes → PacketCmd
mkdir_packet name = record {
  cmd_code = 7;
  arg_flag = 1;
  len = pos (length name);
  payload = name ++ replicate 1020 0;
}

abbrev turns : List Turn
turns = (memory, mkdir_packet (codes "docs")) ∷ (memory, mkdir_packet (codes "pics")) ∷ []

-- The login, the two packets, and the end
abbrev whole : Server Bytes
whole = record {
  conn = record {
    incoming = train_bytes (codes "ann") ++ (train_bytes (codes "$y$1") ++ on_wire turns);
    recvs = interrupted ∷ replicate 2089 (give 1500);
    outgoing = [];
    sends = accept 99 ∷ replicate 92 (accept 9);
  };
  client_path = codes "/srv";
  files = [];
}

pub docs-IsMkdir : IsMkdir (codes "/srv/ann") (mkdir_packet (codes "docs"))
unfolding c_str
docs-IsMkdir = record {
  wire = record {
    cmd_code = omega arith;
    arg_flag = omega arith;
    len = omega arith;
    payload = refl;
  };
  code = refl;
  ended = omega arith;
  fits = omega arith;
}

pics-IsMkdir : IsMkdir (codes "/srv/ann") (mkdir_packet (codes "pics"))
unfolding c_str
pics-IsMkdir = record {
  wire = record {
    cmd_code = omega arith;
    arg_flag = omega arith;
    len = omega arith;
    payload = refl;
  };
  code = refl;
  ended = omega arith;
  fits = omega arith;
}

-- Both directories are made: the state keeps the last one.
handle_client-session_example :
    (recvs : List RecvAct) × (sends : List SendAct) × (handle_client os shadow 1 7 true true
        (ready ((7, memory) ∷ []) ∷ ready ((7, memory) ∷ []) ∷ ready ((7, memory) ∷ []) ∷ [])
        whole
      ≡ ok tt (record {
        client_path = codes "/srv/ann";
        files = codes "/srv/ann/pics";
        conn = record {
          incoming = [];
          recvs = recvs;
          outgoing =
              train_bytes (codes "AUTH_RESULT_OK") ++ (reply_of true ++ (reply_of true ++ []));
          sends = sends;
        };
      }))
unfolding enter_home c_str text_eq
handle_client-session_example =
    handle_client-session os shadow 0 7 99 (codes "ann") (codes "$y$1") memory turns
      (replicate 92 (accept 9)) whole refl (omega arith) (omega arith) (omega arith) (omega arith)
      (omega arith) (docs-IsMkdir, (pics-IsMkdir, tt)) refl
      (record { clean = tt; enough = omega arith }) refl (omega arith)
      (record { clean = tt; enough = omega arith })
