-- ===== src/Tests/Together.antt =====
-- Client and server together: a login and a directory.
use nex_file.Base.{
  ◌≡◌, ◌↔◌, refl, pos, true, false, Bytes, codes, c_str, text_eq, List, [], ◌∷◌, ◌++◌, replicate,
  some, arith,
}
use nex_file.Base.Io.{ok}
use nex_file.Protocol.{PacketCmd, str_to_cmdcode, cmd_success}
use nex_file.Protocol.Packet.{packet_bytes}
use nex_file.Protocol.Wire.{train_bytes, int_bytes, int_from, u32_bytes, u32_of, int_of, pattern_of}
use nex_file.Net.{RecvAct, SendAct, give, accept, send}
use nex_file.Client.CmdOpt.{check, cut, is_blank, token_end, strtok, cmd_veri}
use nex_file.Client.CmdOpt.Packet.{IsWord}
use nex_file.Client.Login.{
  Login, handle_authentication, handle_password, send_password, receive_response,
}
use nex_file.Client.Train.{read_train as client_read_train}
use nex_file.Client.Transfer.{recvn as client_recvn}
use nex_file.Client.Signal.{recv_signal, signal_of}
use nex_file.Client.FileOpt.{Client, Scratch, send_cmd}
use nex_file.Client.FileOpt.{cmd_parse}
use nex_file.Client.Main.{text, fgets, before_newline, drop_newline, handle_stdin_event}
use nex_file.Client.Main.{handle_authen_event as log_in}
use nex_file.Server.State.{Server}
use nex_file.Server.Transfer.{sendn}
use nex_file.Server.Auth.{result_ok}
use nex_file.Server.Signal.{signal_bytes, header}
use nex_file.Server.Session.{serve_ready}
use nex_file.System.Login.{login_answered}
use nex_file.System.Mkdir.{typed_mkdir}
use nex_file.Tests.Session.{shadow, crypt, os, local, train, server, welcomed, login_run, memory}

abbrev start : Login
start = record {
  conn = record {
    incoming = train_bytes (codes "AUTH_RESULT_OK");
    recvs = replicate 30 (give 5);
    outgoing = [];
    sends = replicate 20 (accept 9);
  };
  is_connected = false;
}

abbrev joined : Login
joined = record {
  conn = record {
    incoming = [];
    recvs = replicate 26 (give 5);
    outgoing = train_bytes (codes "ann") ++ train_bytes (codes "$y$1");
    sends = replicate 18 (accept 9);
  };
  is_connected = true;
}

join_run :
    handle_authentication crypt train (some (codes "ann")) (some (codes "pw")) start
    ≡ ok (pos 0) joined
unfolding handle_authentication handle_password send_password sendn receive_response
    client_read_train client_recvn int_bytes int_from u32_bytes u32_of int_of pattern_of text_eq
    c_str
join_run = refl

login_answered_example : (pos 0 ≡ pos 0) ↔ (shadow (codes "ann") ≡ some (codes "$y$1"))
login_answered_example =
    login_answered crypt shadow train (codes "ann") (codes "pw") (codes "$y$1") 99 [] start joined
      server (welcomed (replicate 16 (give 9))) (pos 0) result_ok refl (omega arith) (omega arith)
      (omega arith) (omega arith) (omega arith) refl refl
      (record { clean = tt; enough = omega arith }) tt (omega arith)
      (record { clean = tt; enough = omega arith }) refl (omega arith) join_run refl login_run refl

abbrev client : Client (Unit {0})
client = record { conn = start.conn; is_connected = false; files = tt }

abbrev logged_in : Client (Unit {0})
logged_in = record { conn = joined.conn; is_connected = true; files = tt }

event_run :
    log_in crypt train (text (codes "ann\n") ∷ text (codes "pw\n") ∷ []) client
    ≡ ok (pos 0, []) logged_in
unfolding log_in before_newline fgets handle_authentication handle_password send_password sendn
    receive_response client_read_train client_recvn int_bytes int_from u32_bytes u32_of int_of
    pattern_of text_eq c_str
event_run = refl

-- The client behind the login; the connection closes after the packet.
abbrev typing : Client (Unit {0})
typing = record client {
  conn = record {
    incoming = [];
    recvs = replicate 30 (give 5);
    outgoing = [];
    sends = accept 2000 ∷ [];
  };
}

abbrev pub blank : PacketCmd
blank = record { cmd_code = 0; arg_flag = 0; len = pos 0; payload = replicate 1024 0 }

abbrev packet : PacketCmd
packet = record {
  cmd_code = 7;
  arg_flag = 1;
  len = pos 4;
  payload = codes "docs" ++ replicate 1020 0;
}

abbrev pub scratch : Scratch
scratch = record { train = train; size_buf = []; alloc = true }

abbrev typed : Client (Unit {0})
typed = record typing {
  conn = record {
    incoming = [];
    recvs = replicate 29 (give 5);
    outgoing = packet_bytes packet;
    sends = [];
  };
}

typed_run :
    handle_stdin_event local blank scratch (text (codes "mkdir docs\n")) typing ≡ ok (pos 0) typed
unfolding handle_stdin_event drop_newline check cut cmd_veri is_blank token_end strtok
    str_to_cmdcode cmd_parse send_cmd send recv_signal signal_of client_recvn packet_bytes int_bytes
    int_from u32_bytes u32_of int_of pattern_of text_eq c_str
typed_run = refl

abbrev worker : Server Bytes
worker = record {
  conn = record {
    incoming = packet_bytes packet;
    recvs = replicate 1036 (give 100);
    outgoing = [];
    sends = replicate 60 (accept 9);
  };
  client_path = codes "/srv/ann";
  files = [];
}

pub docs-IsWord : IsWord (codes "docs")
unfolding is_blank
docs-IsWord = (λ e. cc, (refl, (refl, (refl, (refl, tt)))))

typed_mkdir_example :
    (recvs : List RecvAct) × (sends : List SendAct) × (serve_ready os shadow memory worker
      ≡ ok false (record worker {
        files = codes "/srv/ann/docs";
        conn = record {
          incoming = [];
          recvs = recvs;
          outgoing = signal_bytes (header cmd_success 30) ++ codes "Directory created successfully";
          sends = sends;
        };
      }))
typed_mkdir_example =
    typed_mkdir local os shadow (codes "docs") blank scratch 2000 [] (pos 0) typing typed memory 0 0
      true (codes "/srv/ann/docs") worker docs-IsWord (omega arith) (omega arith) refl (omega arith)
      refl refl typed_run refl (omega arith) refl (record { clean = tt; enough = omega arith })
      (record { clean = tt; enough = omega arith })
