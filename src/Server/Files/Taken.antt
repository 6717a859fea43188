-- ===== src/Server/Files/Taken.antt =====
-- Trains that one call of `send` each takes whole: GetFile.
use nex_file.Base.{
  ℕ, suc, ◌+◌, ◌<◌, ◌≤◌, ◌≡◌, refl, ap, pos, true, c_str, lt→leb, some, Bytes, List, ◌∷◌, ◌++◌,
  length, take_all, arith,
}
use nex_file.Base.Io.{ok}
use nex_file.Protocol.{PacketCmd}
use nex_file.Protocol.Wire.{train_bytes, length-train_bytes}
use nex_file.Net.{Conn, SendAct, accept, send}
use nex_file.Server.State.{Server}
use nex_file.Server.Files.{Os, send_once, send_size, send_file, get_file}

abbrev pub sending : Conn → (bs : Bytes) → List SendAct → Conn
sending c bs acts = record c { outgoing = c.outgoing ++ bs; sends = acts }

-- One `send` that takes a whole train
pub once_whole :
    (text : Bytes) (k : ℕ) (acts : List SendAct) (c : Conn)
    → c.sends ≡ accept k ∷ acts
    → 4 + length text ≤ suc k
    → send_once text c ≡ ok true (sending c (train_bytes text) acts)
unfolding send_once send
once_whole text k acts c e room = rw e (
    ap (λ bs. ok true (sending c bs acts))
      (take_all (suc k) (train_bytes text) (omega (arith, length-train_bytes text))))

-- GetFile sends the name and the size of a file that opens, and no more, if the packet's data_ holds a
-- NUL and each call of send takes the whole train.
pub get_file-sends :
    {F : Type 0} (os : Os F) (cmd : PacketCmd) (size : Bytes) (i j : ℕ) (acts : List SendAct)
    (s : Server F)
    → length (c_str cmd.payload) < length cmd.payload
    → length size ≡ 8
    → os.size_of (c_str cmd.payload) s.files ≡ some size
    → s.conn.sends ≡ accept i ∷ accept j ∷ acts
    → 4 + length (c_str cmd.payload) ≤ suc i
    → 12 ≤ suc j
    → get_file os cmd s
      ≡ ok (pos 0) (record s {
        conn = record s.conn {
          outgoing = (s.conn.outgoing ++ train_bytes (c_str cmd.payload)) ++ train_bytes size;
          sends = acts;
        };
      })
unfolding get_file send_file send_size
get_file-sends os cmd size i j acts s ended eight found e ri rj =
    let name = c_str cmd.payload in
    let c₁ = sending s.conn (train_bytes name) (accept j ∷ acts) in
    rw (lt→leb (length cmd.payload) (length name) ended) (
      rw (once_whole name i (accept j ∷ acts) s.conn e ri)
        (rw found (rw (once_whole size j acts c₁ refl (omega arith)) refl)))
