-- ===== src/Tests/Setup.antt =====
-- The server's configuration, a file that is carried over, and one that is not.
use nex_file.Base.{
  ◌≡◌, refl, pos, true, false, Bytes, codes, c_str, text_eq, List, [], ◌∷◌, ◌++◌, replicate, Option,
  none, some, All, arith, if◌then◌else◌,
}
use nex_file.Base.Io.{ok}
use nex_file.Protocol.{PacketCmd}
use nex_file.Protocol.Wire.{train_bytes, int_bytes, u32_bytes, u32_of, pattern_of}
use nex_file.Net.{RecvAct, give, interrupted, accept, send}
use nex_file.Server.State.{Server}
use nex_file.Server.Files.{Os, send_once, get_file}
use nex_file.Server.Config.{
  Scan, InetPton, Opened, opened, ServerConfig, Globals, config_lines, is_line_end, line_ends,
  scan_lines, parse_config, get_config,
}
use nex_file.Server.Config.Parsed.{IsParsed, parse_config-IsParsed}
use nex_file.Server.Config.Null.{get_configs, get_configs-null}
use nex_file.Client.FileOpt.{LocalOs, Client, Scratch, get_file as fetch}
use nex_file.System.Get.{get_stores_nothing}
use nex_file.Server.FileHandle.{Disk, recv_file, send_file}
use nex_file.Server.FileHandle.Stored.{recv_file-Stores}

-- A scan that knows the three lines of one file.
abbrev scan : Scan
scan = record {
  ip = λ line. if text_eq line (codes "ip: 127.0.0.1") then some (codes "127.0.0.1") else none;
  port = λ line. if text_eq line (codes "port: 1234") then some (pos 1234) else none;
  thread_num = λ line. if text_eq line (codes "threadNum: 4") then some (pos 4) else none;
}

abbrev inet_pton : InetPton
inet_pton ip = if text_eq ip (codes "127.0.0.1") then some 16777343 else none

abbrev file : Opened
file = opened (codes "ip: 127.0.0.1\nport: 1234\r\nthreadNum: 4\n")

abbrev empty : ServerConfig
empty = record { ipv4 = 0; port = pos 0; thread_num = pos 0; config_path = none }

abbrev filled : ServerConfig
filled = record {
  ipv4 = 16777343;
  port = pos 1234;
  thread_num = pos 4;
  config_path = some (codes "server.conf");
}

parse_run : parse_config scan inet_pton file true (codes "server.conf") empty ≡ ok (pos 0) filled
unfolding parse_config config_lines is_line_end line_ends scan_lines c_str text_eq
parse_run = refl

parse_config-IsParsed_example : (pos 0 ≡ pos 0) × IsParsed inet_pton (codes "server.conf") filled
parse_config-IsParsed_example =
    parse_config-IsParsed inet_pton true (codes "server.conf") scan file (pos 0) empty filled
      parse_run

abbrev unset : Globals
unset = record { global_config = empty; initialized = false }

calls_run :
    get_configs scan inet_pton ((file, true) ∷ (file, true) ∷ []) unset
    ≡ ok (none ∷ none ∷ []) (record unset { global_config = filled })
unfolding get_config parse_config config_lines is_line_end line_ends scan_lines c_str text_eq
calls_run = refl

get_configs-null_example : All (λ (o : Option ServerConfig). o ≡ none) (none ∷ none ∷ [])
get_configs-null_example =
    get_configs-null scan inet_pton ((file, true) ∷ (file, true) ∷ []) unset
      (record unset { global_config = filled }) (none ∷ none ∷ []) refl calls_run

-- A disk that holds one file.
abbrev disk : Disk (Option (Bytes × Bytes))
disk = record {
  touch = λ name fs. (true, some (name, []));
  resize = λ name size fs. (true, fs);
  fill = λ name content fs. some (name, content);
  content_of = λ name fs. some (5 ∷ 0 ∷ 0 ∷ 0 ∷ 0 ∷ 0 ∷ 0 ∷ 0 ∷ [], codes "hello");
}

abbrev sender : Server (Option (Bytes × Bytes))
sender = record {
  conn = record {
    incoming = [];
    recvs = [];
    outgoing = [];
    sends = accept 99 ∷ accept 99 ∷ accept 99 ∷ [];
  };
  client_path = [];
  files = none;
}

abbrev sent : Server (Option (Bytes × Bytes))
sent = record sender {
  conn = record {
    incoming = [];
    recvs = [];
    outgoing =
        (train_bytes (codes "a.txt") ++ train_bytes (5 ∷ 0 ∷ 0 ∷ 0 ∷ 0 ∷ 0 ∷ 0 ∷ 0 ∷ []))
        ++ codes "hello";
    sends = [];
  };
}

abbrev receiver : Server (Option (Bytes × Bytes))
receiver = record sender {
  conn = record {
    incoming = sent.conn.outgoing;
    recvs = interrupted ∷ replicate 30 (give 3);
    outgoing = [];
    sends = [];
  };
}

send_run : send_file disk (codes "a.txt") sender ≡ ok (pos 0) sent
unfolding send_file send_once send int_bytes u32_bytes pattern_of
send_run = refl

recv_file-Stores_example :
    (recvs : List RecvAct) × (recv_file disk
        (record { len = pos 7; payload = [] })
        (replicate 8 9)
        receiver
      ≡ ok (pos 0) (record receiver {
        files = some (codes "a.txt", codes "hello");
        conn = record receiver.conn { incoming = []; recvs = recvs };
      }))
unfolding u32_of
recv_file-Stores_example =
    recv_file-Stores disk disk (record { len = pos 7; payload = [] }) (replicate 8 9)
      (codes "a.txt") (5 ∷ 0 ∷ 0 ∷ 0 ∷ 0 ∷ 0 ∷ 0 ∷ 0 ∷ []) (codes "hello") 99 99 99 [] sender sent
      (pos 0) receiver (some (codes "a.txt", [])) (some (codes "a.txt", [])) (omega arith)
      (omega arith) refl refl refl (omega arith) refl refl refl (omega arith) (omega arith)
      (omega arith) send_run refl (record { clean = tt; enough = omega arith }) refl refl

-- The same file asked for by get
abbrev os : Os (Unit {0})
os = record {
  mkdir = λ path fs. (false, fs);
  unlink = λ path fs. (false, fs);
  opendir = λ path fs. false;
  getcwd = λ fs. true;
  size_of = λ path fs. some (5 ∷ 0 ∷ 0 ∷ 0 ∷ 0 ∷ 0 ∷ 0 ∷ 0 ∷ []);
  create = λ path fs. (false, fs);
  resize = λ path size fs. (false, fs);
  fill = λ path content fs. fs;
}

abbrev local : LocalOs (Option (Bytes × Bytes))
local = record {
  size_at = λ address fs. none;
  create = λ name fs. (true, some (name, []));
  resize = λ name size fs. (true, fs);
  fill = λ name content fs. some (name, content);
}

abbrev get_cmd : PacketCmd
get_cmd = record {
  cmd_code = 6;
  arg_flag = 1;
  len = pos 5;
  payload = codes "a.txt" ++ replicate 1019 0;
}

abbrev giver : Server (Unit {0})
giver = record {
  conn = record { incoming = []; recvs = []; outgoing = []; sends = accept 99 ∷ accept 99 ∷ [] };
  client_path = [];
  files = tt;
}

abbrev given : Server (Unit {0})
given = record giver {
  conn = record {
    incoming = [];
    recvs = [];
    outgoing = train_bytes (codes "a.txt") ++ train_bytes (5 ∷ 0 ∷ 0 ∷ 0 ∷ 0 ∷ 0 ∷ 0 ∷ 0 ∷ []);
    sends = [];
  };
}

give_run : get_file os get_cmd giver ≡ ok (pos 0) given
unfolding get_file send_once send int_bytes u32_bytes pattern_of c_str
give_run = refl

abbrev taker : Client (Option (Bytes × Bytes))
taker = record {
  conn = record {
    incoming = given.conn.outgoing;
    recvs = replicate 30 (give 3);
    outgoing = [];
    sends = [];
  };
  is_connected = true;
  files = none;
}

abbrev memory : Scratch
memory = record {
  train = record { len = pos 7; payload = [] };
  size_buf = replicate 8 9;
  alloc = true;
}

get_stores_nothing_example :
    (recvs : List RecvAct) × (fetch local memory get_cmd taker
      ≡ ok (pos 0) (record taker {
        files = some (codes "a.txt", []);
        conn = record taker.conn { incoming = []; recvs = recvs };
      }))
unfolding u32_of c_str
get_stores_nothing_example =
    get_stores_nothing os local get_cmd memory (5 ∷ 0 ∷ 0 ∷ 0 ∷ 0 ∷ 0 ∷ 0 ∷ 0 ∷ []) 5 99 99 [] giver
      given (pos 0) taker (some (codes "a.txt", [])) (some (codes "a.txt", [])) (omega arith)
      (omega arith) refl refl refl refl (omega arith) refl refl refl (omega arith) (omega arith)
      give_run refl tt (omega arith) refl refl
