-- ===== src/Client/Login/Received.antt =====
-- The reply to a login, as the client reads it.
use nex_file.Base.{
  ◌+◌, ◌<◌, ◌≤◌, ◌≡◌, refl, sym, ◌∙◌, ap, ℤ, pos, pos_part, minus_one, is_neg, Bool-cases, inl, inr,
  some, ◌||◌, Bytes, codes, text_eq, c_str-append, IsStr, List, ◌++◌, append_assoc, length,
  take-length-append, leb, lt→leb, if◌then◌else◌, arith,
}
use nex_file.Base.Io.{Io, Run, blocked, undefined, exited, ◌>>=◌, ok}
use nex_file.Protocol.{Train, data_size}
use nex_file.Protocol.Wire.{train_bytes}
use nex_file.Net.{Conn, RecvAct, SendAct}
use nex_file.Net.Schedule.{OnlyGive, deliveries, Accepts}
use nex_file.Base.Keeps.{Kept, Kept-ok, Keeps, Keeps-bind, Keeps-if}
use nex_file.Server.Train.Quiet.{sent}
use nex_file.Client.Train.{read_train}
use nex_file.Client.Train.Quiet.{read_train-sent}
use nex_file.Server.Train.Reading.{carrying}
use nex_file.Client.Train.Reading.{read_train-Got}
use nex_file.Client.Login.{
  Crypt, Login, with_login, on_conn, receive_response, copy_response, judge, handle_password,
  handle_authentication,
}
use nex_file.Client.Login.Sent.{handle_password-Sends}

copied :
    (t : Train) (text : Bytes) (c : Conn)
    → length text < 64
    → IsStr text
    → copy_response (carrying text t) c ≡ ok text c
unfolding copy_response
copied t text c short str =
    rw (lt→leb 64 (length text) short, take-length-append, append_assoc)
      (ap (λ s. ok s c) (c_str-append text _ str))

-- A reply of fewer than 64 bytes, none of them NUL, is read as the text that it carries, whatever the
-- train held before, while every call of recv delivers.
pub receive_response-text :
    (t : Train) (text rest : Bytes) (c : Conn)
    → length text < 64
    → IsStr text
    → c.incoming ≡ train_bytes text ++ rest
    → OnlyGive c.recvs
    → length text + 4 ≤ deliveries c.recvs
    → (acts : List RecvAct) × (receive_response t c
        ≡ ok text (record c { incoming = rest; recvs = acts }))
unfolding receive_response
receive_response-text t text rest c short str e calm enough =
    let r = read_train-Got 0 t text rest c (omega arith) e calm (omega arith) in
    (r.acts, rw r.returns (copied t text _ short str))

-- What a login has sent.
abbrev outgoing : Login → Bytes
outgoing l = l.conn.outgoing

with_login-outgoing :
    {A : Type 0} (l : Login) (x : Run Conn A)
    → Kept sent l.conn x
    → Kept outgoing l (with_login l x)
with_login-outgoing l (ok a c) k = k
with_login-outgoing l blocked k = tt
with_login-outgoing l undefined k = tt
with_login-outgoing l exited k = tt

response-sent : (t : Train) → Keeps sent (receive_response t)
unfolding receive_response copy_response
response-sent t =
    Keeps-bind sent (read_train t) _ (read_train-sent t)
      λ t'. Keeps-if sent (is_neg t'.len || leb 64 (pos_part t'.len)) _ _ (λ c. tt) (λ c. refl)

-- The result and the state that a text makes of a login.
abbrev pub judged : (text : Bytes) → ℤ
judged text = if text_eq text (codes "AUTH_RESULT_OK") then pos 0 else minus_one

judge-judged :
    (text : Bytes) (l : Login)
    → judge text l
      ≡ ok
          (judged text)
          (record l { is_connected = text_eq text (codes "AUTH_RESULT_OK") || l.is_connected })
unfolding judge
judge-judged text l = elim (Bool-cases (text_eq text (codes "AUTH_RESULT_OK"))) [
  | inl same ↦ rw same refl
  | inr other ↦ rw other refl
]

-- handle_authentication, when handlePassword has sent and a train with a short text is read.
pub handle_authentication-answer :
    (crypt : Crypt) (t : Train) (u p text : Bytes) (l : Login) (c₁ c₂ : Conn)
    → handle_password crypt (some u) (some p) l.conn ≡ ok (pos 0) c₁
    → read_train t c₁ ≡ ok (carrying text t) c₂
    → length text < 64
    → IsStr text
    → handle_authentication crypt t (some u) (some p) l
      ≡ ok (judged text) (record {
        conn = c₂;
        is_connected = text_eq text (codes "AUTH_RESULT_OK") || l.is_connected;
      })
unfolding handle_authentication receive_response
handle_authentication-answer crypt t u p text l c₁ c₂ sent_both read short str =
    rw (sent_both, read, copied t text c₂ short str) (judge-judged text _)

module _ (crypt : Crypt) (t : Train) (u p h : Bytes) (l : Login) where
  -- handle_authentication behind handlePassword, and what is then sent.
  heard : Io Login ℤ
  heard = do response ← on_conn (receive_response t); judge response

  after_password :
      crypt p ≡ some h
      → length u ≤ data_size
      → length h ≤ data_size
      → Accepts (length h + 4 + length u + 4) l.conn.sends
      → (sends : List SendAct) × (handle_authentication crypt t (some u) (some p) l
          ≡ heard (record l {
            conn = record l.conn {
              outgoing = l.conn.outgoing ++ (train_bytes u ++ train_bytes h);
              sends = sends;
            };
          }))
  unfolding handle_authentication heard
  after_password hash su sh a =
      let r =
        handle_password-Sends crypt 0 u p h l.conn hash su sh
          (record { clean = a.clean; enough = omega (arith, a.enough) }) in
      (r.acts, rw r.returns refl)

  -- handle_authentication, when its two trains are sent and a reply of fewer than 64 bytes, none of
  -- them NUL, is on its way: it returns 0 and sets `is_connected` for AUTH_RESULT_OK alone, and else
  -- returns -1.
  pub handle_authentication-answered :
      (text rest : Bytes)
      → crypt p ≡ some h
      → length u ≤ data_size
      → length h ≤ data_size
      → Accepts (length h + 4 + length u + 4) l.conn.sends
      → length text < 64
      → IsStr text
      → l.conn.incoming ≡ train_bytes text ++ rest
      → OnlyGive l.conn.recvs
      → length text + 4 ≤ deliveries l.conn.recvs
      → (recvs : List RecvAct) × (sends : List SendAct) × (handle_authentication crypt t
            (some u)
            (some p)
            l
          ≡ ok (judged text) (record {
            conn = record {
              incoming = rest;
              recvs = recvs;
              outgoing = l.conn.outgoing ++ (train_bytes u ++ train_bytes h);
              sends = sends;
            };
            is_connected = text_eq text (codes "AUTH_RESULT_OK") || l.is_connected;
          }))
  unfolding heard
  handle_authentication-answered text rest hash su sh a short str e calm enough =
      let (sends, same) = after_password hash su sh a in
      let c₁ = record l.conn {
        outgoing = l.conn.outgoing ++ (train_bytes u ++ train_bytes h);
        sends = sends;
      } in
      let (recvs, read) = receive_response-text t text rest c₁ short str e calm enough in
      (recvs, sends, same ∙ rw read (judge-judged text _))

  heard-outgoing : Keeps outgoing heard
  unfolding heard judge
  heard-outgoing =
      Keeps-bind outgoing (on_conn (receive_response t)) _
        (λ l'. with_login-outgoing l' (receive_response t l'.conn) (response-sent t l'.conn))
        λ response. λ l'. elim (Bool-cases (text_eq response (codes "AUTH_RESULT_OK"))) [
          | inl same ↦ rw same refl
          | inr other ↦ rw other refl
        ]

  -- If handle_authentication returns, whatever the reply was, it has sent the two trains and no more.
  pub handle_authentication-outgoing :
      (r : ℤ) (l' : Login)
      → crypt p ≡ some h
      → length u ≤ data_size
      → length h ≤ data_size
      → Accepts (length h + 4 + length u + 4) l.conn.sends
      → handle_authentication crypt t (some u) (some p) l ≡ ok r l'
      → l'.conn.outgoing ≡ l.conn.outgoing ++ (train_bytes u ++ train_bytes h)
  handle_authentication-outgoing r l' hash su sh a e =
      let (sends, same) = after_password hash su sh a in
      let l₁ : Login = record l {
        conn = record l.conn {
          outgoing = l.conn.outgoing ++ (train_bytes u ++ train_bytes h);
          sends = sends;
        };
      } in
      Kept-ok outgoing l₁ l' (heard l₁) r (heard-outgoing l₁) (sym same ∙ e)
