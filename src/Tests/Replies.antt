-- ===== src/Tests/Replies.antt =====
-- Replies to commands, and how the client reads them.
use nex_file.Base.{
  ℕ, ◌≡◌, ◌<◌, refl, pos, codes, [], ◌∷◌, ◌++◌, replicate, length, none, Bool, true, false,
}
use nex_file.Base.Io.{ok}
use nex_file.Base.Keeps.{Keeps}
use nex_file.Protocol.{PacketCmd, to_code, req_rm, cmd_success}
use nex_file.Protocol.Wire.{int_from, u32_of, int_of}
use nex_file.Net.{Conn, give, accept, send_interrupted}
use nex_file.Server.State.{Server}
use nex_file.Server.Transfer
use nex_file.Server.Signal.{signal_bytes, header}
use nex_file.Server.Files.{Os}
use nex_file.Server.Files.Quiet.{seen}
use nex_file.Server.Command.{cmd_parse}
use nex_file.Server.Command.Silent.{cmd_parse-seen}
use nex_file.Client.Transfer.{recvn}
use nex_file.Client.Transfer.Receive.{relabel, recvn-relabel}
use nex_file.Client.Signal.{recv_signal, signal_of, signal_size}
use nex_file.Client.Signal.Refused.{recv_signal_succeeds}

-- A file system in which every call fails but getcwd.
abbrev os : Os Bool
os = record {
  mkdir = λ path made. (made, made);
  unlink = λ path made. (false, made);
  opendir = λ path made. false;
  getcwd = λ made. true;
  size_of = λ path made. none;
  create = λ path made. (false, made);
  resize = λ path size made. (false, made);
  fill = λ path content made. made;
}

abbrev cmd : (code : ℕ) → PacketCmd
cmd code = record {
  cmd_code = code;
  arg_flag = 1;
  len = pos 4;
  payload = codes "docs" ++ replicate 1020 0;
}

abbrev server : Server Bool
server = record {
  conn = record {
    incoming = [];
    recvs = [];
    outgoing = [];
    sends = send_interrupted ∷ replicate 60 (accept 9);
  };
  client_path = codes "/srv/ann";
  files = false;
}

cmd_parse-seen_example : Keeps seen (cmd_parse os [] [] (cmd (to_code req_rm)))
cmd_parse-seen_example = cmd_parse-seen os [] [] (cmd (to_code req_rm)) (λ e. cc) (λ e. cc)

-- A whole reply arrives.
abbrev replied : Conn
replied = record {
  incoming = signal_bytes (header cmd_success 2) ++ codes "ok";
  recvs = replicate 20 (give 9);
  outgoing = [];
  sends = [];
}

recvn-relabel_example : recvn (pos 16) replied ≡ relabel 16 (Transfer.recvn (pos 16) replied)
recvn-relabel_example = recvn-relabel (pos 16) replied tt

-- The reply ends inside the header.
abbrev cut_short : Conn
cut_short = record replied { incoming = codes "abc"; recvs = give 9 ∷ give 9 ∷ [] }

cut_run : recv_signal true cut_short ≡ ok (pos 0) (record cut_short { incoming = []; recvs = [] })
unfolding recv_signal recvn signal_of int_from u32_of int_of
cut_run = refl

recv_signal_succeeds_example : length cut_short.incoming < signal_size
recv_signal_succeeds_example =
    recv_signal_succeeds true cut_short (record cut_short { incoming = []; recvs = [] }) tt cut_run
