-- ===== src/Client/Login/Sent.antt =====
-- The login on the wire: what the client sends, and how the server reads it.
use nex_file.Base.{
  ℕ, ◌+◌, ◌<◌, ◌≤◌, false, ◌≡◌, sym, ◌∙◌, ap, ℤ, pos, Bytes, List, [], ◌++◌, append_assoc,
  append-nil, length, le→ltb, some, arith, IsStr,
}
use nex_file.Base.Io.{Run, ok}
use nex_file.Protocol.{data_size}
use nex_file.Protocol.Wire.{train_bytes, length-train_bytes}
use nex_file.Net.{Conn, SendAct, RecvAct}
use nex_file.Net.Schedule.{Accepts, Delivers}
use nex_file.Server.Transfer.Send.{sendn-Complete}
use nex_file.Server.State.{Server}
use nex_file.Server.Auth.{Shadow, authenticate_user, user_authen, answer}
use nex_file.Server.Auth.Result.{user_authen_login}
use nex_file.Client.Login.{Crypt, send_train, send_texts, handle_password}

-- A call that has sent `bs` and returned `a`, and leaves room for `k` bytes.
pub record Sends {A : Type 0} (k : ℕ) (bs : Bytes) (a : A) (c : Conn) (x : Run Conn A)
    : Type 0 where
  pub acts : List SendAct
  pub returns : x ≡ ok a (record c { outgoing = c.outgoing ++ bs; sends = acts })
  pub accepts : Accepts k acts

train_sent :
    (k : ℕ) (text : Bytes) (c : Conn)
    → length text ≤ data_size
    → Accepts (k + length text + 4) c.sends
    → Sends k (train_bytes text) false c (send_train text c)
unfolding send_train
train_sent k text c short a =
    let size = length-train_bytes text in
    let r =
      sendn-Complete k (train_bytes text) c (omega (arith, size))
        (record { clean = a.clean; enough = omega (arith, a.enough, size) }) in
    record {
      acts = r.acts;
      returns = rw (le→ltb data_size (length text) short, r.returns);
      accepts = r.accepts;
    }

-- For a name and a hash of at most 1024 bytes, and a schedule of send with no error but EINTR and
-- an acceptance for each byte: handlePassword sends the name and the hash of the password as two
-- trains, and returns 0.
pub handle_password-Sends :
    (crypt : Crypt) (k : ℕ) (u p h : Bytes) (c : Conn)
    → crypt p ≡ some h
    → length u ≤ data_size
    → length h ≤ data_size
    → Accepts (k + length h + 4 + length u + 4) c.sends
    → Sends k (train_bytes u ++ train_bytes h) (pos 0) c (handle_password crypt (some u) (some p) c)
unfolding handle_password send_texts
handle_password-Sends crypt k u p h c hash su sh a =
    let r = train_sent (k + length h + 4) u c su a in
    let c₁ = record c { outgoing = c.outgoing ++ train_bytes u; sends = r.acts } in
    let r₁ = train_sent k h c₁ sh r.accepts in
    record {
      acts = r₁.acts;
      returns =
          rw (hash, r.returns)
            (rw r₁.returns (
              ap (λ o. ok (pos 0) (record c { outgoing = o; sends = r₁.acts }))
                (append_assoc c.outgoing (train_bytes u) (train_bytes h))));
      accepts = r₁.accepts;
    }

-- A login agrees at both ends. For a name of at most 63 bytes and a hash of at most 127, neither
-- with a NUL, and schedules with no error but EINTR and enough calls: if all that a fresh
-- connection of the client carries after handlePassword is what reaches the server, UserAuthen
-- answers for this name and the comparison of this hash with the shadow file.
pub login_agrees :
    {F : Type 0} (crypt : Crypt) (shadow : Shadow) (u p h : Bytes) (c c' : Conn) (s : Server F)
    (r : ℤ)
    → crypt p ≡ some h
    → length u < 64
    → length h < 128
    → IsStr u
    → IsStr h
    → c.outgoing ≡ []
    → Accepts (length h + 4 + length u + 4) c.sends
    → handle_password crypt (some u) (some p) c ≡ ok r c'
    → s.conn.incoming ≡ c'.outgoing
    → Delivers (length h + 4 + length u + 4) s.conn.recvs
    → (acts : List RecvAct) × (user_authen shadow s
        ≡ answer u
            (authenticate_user shadow (some u) (some h))
            (record s { conn = record s.conn { incoming = []; recvs = acts } }))
login_agrees crypt shadow u p h c c' s r hash su sh iu ih fresh a e arrived d =
    let sends =
      handle_password-Sends crypt 0 u p h c hash (omega arith) (omega arith)
        (record { clean = a.clean; enough = omega (arith, a.enough) }) in
    let state : c' ≡ record c {
      outgoing = c.outgoing ++ (train_bytes u ++ train_bytes h);
      sends = sends.acts;
    } =
      cc (sym e ∙ sends.returns) in
    let out : c'.outgoing ≡ train_bytes u ++ (train_bytes h ++ []) = rw append-nil (
      ap (λ (x : Conn). x.outgoing) state
      ∙ ap (λ o. o ++ (train_bytes u ++ train_bytes h)) fresh) in
    let (acts, same, rest) =
      user_authen_login shadow s 0 u h [] su sh iu ih (arrived ∙ out)
        (record { clean = d.clean; enough = omega (arith, d.enough) }) in
    (acts, same)
