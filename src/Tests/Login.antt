-- ===== src/Tests/Login.antt =====
-- A login: the user ann, whose hash is `$y$1`.
use nex_file.Base.{
  ◌≡◌, refl, pos, Bytes, codes, text_eq, c_str, [], ◌∷◌, ◌++◌, replicate, if◌then◌else◌, none, some,
  arith, IsStr,
}
use nex_file.Base.Io.{ok, undefined}
use nex_file.Protocol.Wire.{train_bytes, int_bytes, int_from, u32_bytes, u32_of, int_of, pattern_of}
use nex_file.Net.{Conn, give, interrupted, accept, send}
use nex_file.Server.State.{Server}
use nex_file.Server.Transfer.{recvn, recvn_loop, sendn}
use nex_file.Server.Train.{read_train, copy_out}
use nex_file.Server.Auth.{
  Shadow, result_ok, authenticate_user, receive_text, send_reply, enter_home, answer, user_authen,
}
use nex_file.Server.Auth.Result.{Accepts, user_authen_overflow, user_authen_ok}
use nex_file.Client.Login.{Crypt, handle_password, send_password}

abbrev ann : Bytes
ann = codes "ann"

abbrev hash : Bytes
hash = codes "$y$1"

abbrev shadow : Shadow
shadow name = if text_eq name (codes "ann") then some (codes "$y$1") else none

abbrev crypt : Crypt
crypt password = some (codes "$y$1")

abbrev server : Server (Unit {0})
server = record {
  conn = record {
    incoming = train_bytes (codes "ann") ++ train_bytes (codes "$y$1");
    recvs = give 1 ∷ interrupted ∷ replicate 20 (give 9);
    outgoing = [];
    sends = accept 99 ∷ [];
  };
  client_path = codes "/srv";
  files = tt;
}

abbrev client : Conn
client = record { incoming = []; recvs = []; outgoing = []; sends = replicate 20 (accept 2) }

ann-IsStr : IsStr ann
ann-IsStr = omega arith

hash-IsStr : IsStr hash
hash-IsStr = omega arith

abbrev welcomed : Server (Unit {0})
welcomed = record {
  conn = record {
    incoming = [];
    recvs = replicate 16 (give 9);
    outgoing = train_bytes (codes "AUTH_RESULT_OK");
    sends = [];
  };
  client_path = codes "/srv/ann";
  files = tt;
}

login_run : user_authen shadow server ≡ ok result_ok welcomed
unfolding user_authen receive_text read_train copy_out recvn recvn_loop answer send_reply
    authenticate_user enter_home send int_bytes int_from u32_bytes u32_of int_of pattern_of text_eq
    c_str
login_run = refl

user_authen_ok_example : Accepts shadow server welcomed
user_authen_ok_example = user_authen_ok shadow server welcomed login_run

-- A name of 70 bytes
abbrev long : Server (Unit {0})
long = record server {
  conn = record server.conn {
    incoming = train_bytes (replicate 70 b'a') ++ [];
    recvs = replicate 80 (give 99);
  };
}

user_authen_overflow_example : user_authen shadow long ≡ undefined
user_authen_overflow_example =
    user_authen_overflow shadow long (replicate 70 b'a') [] (omega arith) (omega arith) refl
      (record { clean = tt; enough = omega arith })

abbrev sent : Conn
sent = record client {
  outgoing = train_bytes (codes "ann") ++ train_bytes (codes "$y$1");
  sends = replicate 14 (accept 2);
}

client_run : handle_password crypt (some ann) (some (codes "pw")) client ≡ ok (pos 0) sent
unfolding handle_password send_password sendn int_bytes u32_bytes pattern_of int_of
client_run = refl
