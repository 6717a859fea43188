-- ===== src/System/Get.antt =====
-- A file that a user asks for: GetFile at the server and getFile at the client.
use nex_file.Base.{
  ℕ, suc, ◌+◌, ◌<◌, ◌≤◌, ◌≡◌, sym, ◌∙◌, ap, ℤ, pos, true, Bytes, c_str, c_str-IsStr, List, [], ◌∷◌,
  ◌++◌, length, some, arith,
}
use nex_file.Base.Io.{ok}
use nex_file.Protocol.{PacketCmd}
use nex_file.Protocol.Wire.{train_bytes}
use nex_file.Net.{RecvAct, SendAct, accept}
use nex_file.Net.Schedule.{OnlyGive, deliveries}
use nex_file.Server.State.{Server}
use nex_file.Server.Files.{Os, off_from}
use nex_file.Server.Files.Taken.{get_file-sends}
use nex_file.Server.Files
use nex_file.Client.FileOpt.{LocalOs, Client, Scratch}
use nex_file.Client.FileOpt.Fetched.{get_file-stores_nothing}
use nex_file.Client.FileOpt

-- No file arrives. Both ends handle a packet for get whose data_ holds a NUL, for a file at the server that
-- is not empty. If what a fresh connection of the server carries after GetFile is all that comes to the
-- client, each call of the server's send takes the whole train, every call of the client's recv delivers,
-- and the calls on the local files succeed: the client's getFile returns 0 and has made a file of that name
-- and size, in which it has stored nothing.
pub get_stores_nothing :
    {F G : Type 0} (os : Os F) (local : LocalOs G) (cmd : PacketCmd) (m : Scratch) (size : Bytes)
    (n i j : ℕ) (acts : List SendAct) (s s' : Server F) (r : ℤ) (c : Client G) (fs₁ fs₂ : G)
    → length (c_str cmd.payload) < length cmd.payload
    → length cmd.payload ≤ 1024
    → cmd.arg_flag ≡ 1
    → length size ≡ 8
    → length m.size_buf ≡ 8
    → off_from size ≡ pos n
    → 0 < n
    → os.size_of (c_str cmd.payload) s.files ≡ some size
    → s.conn.outgoing ≡ []
    → s.conn.sends ≡ accept i ∷ accept j ∷ acts
    → 4 + length (c_str cmd.payload) ≤ suc i
    → 12 ≤ suc j
    → Files.get_file os cmd s ≡ ok r s'
    → c.conn.incoming ≡ s'.conn.outgoing
    → OnlyGive c.conn.recvs
    → 2 + 8 + 4 + length (c_str cmd.payload) + 4 ≤ deliveries c.conn.recvs
    → local.create (c_str cmd.payload) c.files ≡ (true, fs₁)
    → local.resize (c_str cmd.payload) (pos n) fs₁ ≡ (true, fs₂)
    → (recvs : List RecvAct) × (FileOpt.get_file local m cmd c
        ≡ ok (pos 0) (record c {
          files = local.fill (c_str cmd.payload) [] fs₂;
          conn = record c.conn { incoming = []; recvs = recvs };
        }))
get_stores_nothing os local cmd m size n i j acts s s' r c fs₁ fs₂ ended short flag eight room off
      some_size found fresh e ri rj went came calm enough created resized =
    let name = c_str cmd.payload in
    let out = get_file-sends os cmd size i j acts s ended eight found e ri rj in
    let state : s' ≡ record s {
      conn = record s.conn {
        outgoing = (s.conn.outgoing ++ train_bytes name) ++ train_bytes size;
        sends = acts;
      };
    } =
      cc (sym went ∙ out) in
    let arrived : c.conn.incoming ≡ train_bytes name ++ train_bytes size =
      came
      ∙ (ap (λ (x : Server _). x.conn.outgoing) state
          ∙ ap (λ o. (o ++ train_bytes name) ++ train_bytes size) fresh) in
    get_file-stores_nothing local m cmd name size n c fs₁ fs₂ flag (c_str-IsStr cmd.payload)
      (omega arith) eight room off some_size arrived calm enough created resized
