-- ===== src/Server/Auth/Reply.antt =====
-- The reply of UserAuthen.
use nex_file.Base.{
  ℕ, suc, ◌+◌, ◌<◌, ◌≤◌, ◌≡◌, ◌↔◌, refl, ◌∙◌, ap, subst, ℤ, eq_ℤ, true, Bool-cases, inl, inr, Bytes,
  codes, text_eq, text_eq_iff, IsStr, List, ◌∷◌, ◌++◌, length, take_all, ltb, lt→leb, lt→ltb,
  if◌then◌else◌, Option-cases, some, arith,
}
use nex_file.Base.Io.{ok}
use nex_file.Protocol.Wire.{train_bytes, length-train_bytes}
use nex_file.Net.{Conn, RecvAct, SendAct, accept, send}
use nex_file.Net.Schedule.{Delivers}
use nex_file.Server.State.{Server}
use nex_file.Server.Auth.Result.{known, user_authen_login}
use nex_file.Server.Auth.{
  Shadow, result_ok, result_fail, result_user_query_fail, authenticate_user, compare_hash, answer,
  user_authen, enter_home, max_path_len, send_reply, welcome, refuse,
}

-- authenticateUser returns AUTH_RESULT_OK exactly if the shadow file has the name with this hash.
pub authenticate_user_iff :
    (shadow : Shadow) (u h : Bytes)
    → (authenticate_user shadow (some u) (some h) ≡ result_ok) ↔ (shadow u ≡ some h)
unfolding authenticate_user compare_hash
authenticate_user_iff shadow u h = (known shadow u h, λ e. rw (e, (text_eq_iff h h).1 refl) refl)

-- The reply to a result of authenticateUser, and the path behind it.
abbrev pub reply_text : (auth : ℤ) → Bytes
reply_text auth = if eq_ℤ auth result_ok then codes "AUTH_RESULT_OK" else codes "AUTH_FAIL"

abbrev pub path_after : (auth : ℤ) → (path username : Bytes) → Bytes
path_after auth path username = if eq_ℤ auth result_ok then enter_home path username else path

-- One `send` that takes a whole reply.
pub send_reply-whole :
    (text : Bytes) (k : ℕ) (acts : List SendAct) (c : Conn)
    → c.sends ≡ accept k ∷ acts
    → 4 + length text ≤ suc k
    → send_reply text c
      ≡ ok true (record c { outgoing = c.outgoing ++ train_bytes text; sends = acts })
unfolding send_reply send
send_reply-whole text k acts c e room =
    let size = length-train_bytes text in
    let after : Bytes → Conn = λ bs. record c { outgoing = c.outgoing ++ bs; sends = acts } in
    rw e (
      ap (λ bs. ok (ltb 0 (length bs)) (after bs))
        (take_all (suc k) (train_bytes text) (omega (arith, size)))
      ∙ ap (λ b. ok b (after (train_bytes text)))
          (lt→ltb 0 (length (train_bytes text)) (omega (arith, size))))

-- `s` after a reply to the result `auth`.
abbrev pub after_reply :
    {F : Type 0} → Server F → (username : Bytes) → (auth : ℤ) → List SendAct → Server F
after_reply s username auth acts = record s {
  client_path = path_after auth s.client_path username;
  conn = record s.conn {
    outgoing = s.conn.outgoing ++ train_bytes (reply_text auth);
    sends = acts;
  };
}

-- A result of authenticateUser is one of three.
pub result_cases :
    (shadow : Shadow) (u h : Bytes) (P : ℤ → Type 0)
    → P result_ok
    → P result_fail
    → P result_user_query_fail
    → P (authenticate_user shadow (some u) (some h))
unfolding authenticate_user compare_hash
result_cases shadow u h P a b c = elim (Option-cases (shadow u)) [
  | inl unknown ↦ rw unknown c
  | inr (hash, known) ↦ elim (Bool-cases (text_eq h hash)) [
    | inl same ↦ rw (known, same) a
    | inr other ↦ rw (known, other) b
  ]
]

module _ {F : Type 0} (s : Server F) (u : Bytes) (k : ℕ) (acts : List SendAct) where
  -- For a path that the name fits, and a call of send that takes the whole reply, UserAuthen returns
  -- the result of authenticateUser, and its reply tells whether it is AUTH_RESULT_OK.
  pub answer-reply :
      (shadow : Shadow) (h : Bytes)
      → length s.client_path + 1 + length u < max_path_len
      → s.conn.sends ≡ accept k ∷ acts
      → 18 ≤ suc k
      → answer u (authenticate_user shadow (some u) (some h)) s
        ≡ ok
            (authenticate_user shadow (some u) (some h))
            (after_reply s u (authenticate_user shadow (some u) (some h)) acts)
  unfolding answer welcome refuse
  answer-reply shadow h fits e room =
      let s₁ : Server F = record s { client_path = enter_home s.client_path u } in
      result_cases shadow u h (λ auth. answer u auth s ≡ ok auth (after_reply s u auth acts))
        (rw (
          lt→leb max_path_len (length s.client_path + 1 + length u) fits,
          send_reply-whole (codes "AUTH_RESULT_OK") k acts s.conn e (omega arith),
        ))
        (rw (send_reply-whole (codes "AUTH_FAIL") k acts s.conn e (omega arith)))
        (rw (send_reply-whole (codes "AUTH_FAIL") k acts s.conn e (omega arith)))

-- The round of a user of the shadow file that gives the right hash, for a name of at most 63 bytes that
-- has room behind the path and a hash of at most 127, neither with a NUL: the name is put behind the path, and
-- the success is sent.
pub user_authen-welcomes :
    {F : Type 0} (shadow : Shadow) (k i : ℕ) (u h rest : Bytes) (acts : List SendAct) (s : Server F)
    → shadow u ≡ some h
    → length u < 64
    → length h < 128
    → IsStr u
    → IsStr h
    → length s.client_path + 1 + length u < max_path_len
    → s.conn.incoming ≡ train_bytes u ++ (train_bytes h ++ rest)
    → Delivers (k + length h + 4 + length u + 4) s.conn.recvs
    → s.conn.sends ≡ accept i ∷ acts
    → 18 ≤ suc i
    → (recvs : List RecvAct) × Delivers k recvs
      × (user_authen shadow s
          ≡ ok result_ok (
              after_reply
                (record s { conn = record s.conn { incoming = rest; recvs = recvs } })
                u
                result_ok
                acts))
user_authen-welcomes shadow k i u h rest acts s known su sh iu ih fits came d one room =
    let (recvs, judging, left) = user_authen_login shadow s k u h rest su sh iu ih came d in
    let s₁ : Server _ = record s { conn = record s.conn { incoming = rest; recvs = recvs } } in
    let right = (authenticate_user_iff shadow u h).1 known in
    let replied =
      subst (λ auth. answer u auth s₁ ≡ ok auth (after_reply s₁ u auth acts)) right
        (answer-reply s₁ u i acts shadow h fits one room) in
    (recvs, left, judging ∙ (ap (λ auth. answer u auth s₁) right ∙ replied))
