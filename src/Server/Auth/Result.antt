-- ===== src/Server/Auth/Result.antt =====
-- What UserAuthen returns, and what it does to the global path.
use nex_file.Base.{
  ℕ, ◌+◌, ◌<◌, ◌≤◌, ◌≡◌, refl, sym, ◌∙◌, ap, ℤ, pos, negsuc, eq_ℤ, pos_part, true, Bool-cases, inl,
  inr, Bytes, codes, text_eq, text_eq_iff, IsStr, List, ◌++◌, length, leb, if◌then◌else◌, Option,
  none, some, arith, ◌||◌,
}
use nex_file.Base.Io.{Run, ok, blocked, undefined, exited, and_then, and_then-eq-ok, pure}
use nex_file.Protocol.{data_size}
use nex_file.Protocol.Wire.{train_bytes}
use nex_file.Net.{Conn, RecvAct}
use nex_file.Net.Schedule.{Delivers}
use nex_file.Server.State.{Server, with_conn, on_conn}
use nex_file.Server.Auth.{
  Shadow, result_ok, result_fail, result_user_query_fail, result_io_error, authenticate_user,
  receive_text, answer, user_authen, enter_home, max_path_len, send_reply, compare_hash, welcome,
  refuse,
}
use nex_file.Server.Auth.Login.{receive_text-Got, receive_text_overflow}

module _ {F : Type 0} (shadow : Shadow) (s : Server F) where
  -- A name of at most 63 bytes and a hash of at most 127, neither with a NUL, that arrive as two
  -- trains reach the comparison and the answer as they were sent, under every schedule of recv
  -- with no error but EINTR and a delivery for each byte.
  pub user_authen_login :
      (k : ℕ) (u h rest : Bytes)
      → length u < 64
      → length h < 128
      → IsStr u
      → IsStr h
      → s.conn.incoming ≡ train_bytes u ++ (train_bytes h ++ rest)
      → Delivers (k + length h + 4 + length u + 4) s.conn.recvs
      → (acts : List RecvAct) × (user_authen shadow s
          ≡ answer u
              (authenticate_user shadow (some u) (some h))
              (record s { conn = record s.conn { incoming = rest; recvs = acts } }))
        × Delivers k acts
  unfolding user_authen
  user_authen_login k u h rest su sh iu ih e d =
      let (acts, name, d₁) =
        receive_text-Got (k + length h + 4) 64 u (train_bytes h ++ rest) s.conn su (omega arith) iu
          e d in
      let c₁ = record s.conn { incoming = train_bytes h ++ rest; recvs = acts } in
      let (acts', hash, d₂) = receive_text-Got k 128 h rest c₁ sh (omega arith) ih refl d₁ in
      (acts', rw name (rw hash), d₂)

  -- A name of 64 to 1024 bytes that arrives as a train is written past the end of username, under
  -- every schedule of recv with no error but EINTR and a delivery for each byte.
  pub user_authen_overflow :
      (u rest : Bytes)
      → 64 ≤ length u
      → length u ≤ data_size
      → s.conn.incoming ≡ train_bytes u ++ rest
      → Delivers (length u + 4) s.conn.recvs
      → user_authen shadow s ≡ undefined
  unfolding user_authen
  user_authen_overflow u rest long short e d =
      rw (receive_text_overflow 64 u rest s.conn long short e d)

pub with_conn-path :
    {F A : Type 0} (s t : Server F) (x : Run Conn A) (a : A)
    → with_conn s x ≡ ok a t
    → t.client_path ≡ s.client_path
with_conn-path s t (ok b c) a e =
    let q : record s { conn = c } ≡ t = cc in ap (λ (r : Server _). r.client_path) (sym q)
with_conn-path s t blocked a e = cc
with_conn-path s t undefined a e = cc
with_conn-path s t exited a e = cc

pub eq_ℤ-zero : (z : ℤ) → eq_ℤ z result_ok ≡ true → z ≡ result_ok
eq_ℤ-zero (pos n) h = ground arith
eq_ℤ-zero (negsuc n) h = cc

-- A reply that was sent returns the result of the comparison; else an I/O error.
replied :
    {F : Type 0} (s t : Server F) (text : Bytes) (auth : ℤ)
    → and_then
        (with_conn s (send_reply text s.conn))
        (λ sent. pure (if sent then auth else result_io_error))
      ≡ ok result_ok t
    → (auth ≡ result_ok) × (t.client_path ≡ s.client_path)
replied s t text auth e =
    let (sent, s₁, e₁, e₂) = and_then-eq-ok (with_conn s (send_reply text s.conn)) _ e in
    let q : s₁ ≡ t = cc e₂ in
    (
      ground (arith, e₂),
      ap (λ (r : Server _). r.client_path) (sym q) ∙ with_conn-path s s₁ _ sent e₁,
    )

welcome_ok :
    {F : Type 0} (s t : Server F) (u : Bytes) (auth : ℤ)
    → welcome u s.client_path auth s ≡ ok result_ok t
    → (auth ≡ result_ok)
      × (length s.client_path + 1 + length u < max_path_len)
      × (t.client_path ≡ enter_home s.client_path u)
unfolding welcome
welcome_ok s t u auth e =
    elim (Bool-cases (leb max_path_len (length s.client_path + 1 + length u))) [
      | inl long ↦ cc (rw long at e)
      | inr fits ↦
          let (auth_ok, path) =
            replied (record s { client_path = enter_home s.client_path u }) t _ auth
              (rw fits at e) in
          (auth_ok, ground (arith, fits), path)
    ]

refuse_ok :
    {F : Type 0} (s t : Server F) (auth : ℤ) → refuse auth s ≡ ok result_ok t → auth ≡ result_ok
unfolding refuse
refuse_ok s t auth e = (replied s t (codes "AUTH_FAIL") auth e).0

answer_ok :
    {F : Type 0} (s t : Server F) (u : Bytes) (auth : ℤ)
    → answer u auth s ≡ ok result_ok t
    → (auth ≡ result_ok)
      × (length s.client_path + 1 + length u < max_path_len)
      × (t.client_path ≡ enter_home s.client_path u)
unfolding answer
answer_ok s t u auth e = elim (Bool-cases (eq_ℤ auth result_ok)) [
  | inl same ↦ welcome_ok s t u auth (rw same at e)
  | inr other ↦ elim (Bool-cases (eq_ℤ auth result_user_query_fail || eq_ℤ auth result_fail)) [
    | inl known ↦ absurd (
        let e' : refuse auth s ≡ ok result_ok t = rw (other, known) at e in
        cc (rw (refuse_ok s t auth e') at other))
    | inr unknown ↦ absurd (cc (rw (other, unknown) at e))
  ]
]

compare_ok : (h : Bytes) (found : Option Bytes) → compare_hash h found ≡ result_ok → found ≡ some h
unfolding compare_hash
compare_ok h none e = absurd (omega (arith, ap pos_part e))
compare_ok h (some k) e = elim (Bool-cases (text_eq h k)) [
  | inl same ↦ ap some (sym ((text_eq_iff h k).0 same))
  | inr other ↦ cc (rw other at e)
]

-- A name and a hash that authenticateUser accepts are a pair of the shadow file.
pub known :
    (shadow : Shadow) (u h : Bytes)
    → authenticate_user shadow (some u) (some h) ≡ result_ok
    → shadow u ≡ some h
unfolding authenticate_user
known shadow u h e = compare_ok h (shadow u) e

-- What UserAuthen has received and found when it accepts: the name and the hash are those that two
-- receptions have put into `username` and `password`.
pub record Accepts {F : Type 0} (shadow : Shadow) (s t : Server F) : Type 0 where
  pub user : Bytes
  pub hash : Bytes
  pub named : Server F
  pub given : Server F
  pub got_user : on_conn (receive_text 64) s ≡ ok user named
  pub got_hash : on_conn (receive_text 128) named ≡ ok hash given
  pub known : shadow user ≡ some hash
  pub fits : length s.client_path + 1 + length user < max_path_len
  pub path : t.client_path ≡ enter_home s.client_path user

-- If UserAuthen returns AUTH_RESULT_OK, the text that it received first and the text that it
-- received next are a name and its hash in the shadow file, the name fits behind the path of that
-- time, and the path is extended by this name.
pub user_authen_ok :
    {F : Type 0} (shadow : Shadow) (s t : Server F)
    → user_authen shadow s ≡ ok result_ok t
    → Accepts shadow s t
unfolding user_authen
user_authen_ok shadow s t e =
    let (u, s₁, e₁, r₁) = and_then-eq-ok (with_conn s (receive_text 64 s.conn)) _ e in
    let (h, s₂, e₂, r₂) = and_then-eq-ok (with_conn s₁ (receive_text 128 s₁.conn)) _ r₁ in
    let (auth, room, path) = answer_ok s₂ t u (authenticate_user shadow (some u) (some h)) r₂ in
    let kept = with_conn-path s₁ s₂ _ h e₂ ∙ with_conn-path s s₁ _ u e₁ in
    record {
      user = u;
      hash = h;
      named = s₁;
      given = s₂;
      got_user = e₁;
      got_hash = e₂;
      known = known shadow u h auth;
      fits = omega (arith, room, ap length kept);
      path = path ∙ ap (λ p. enter_home p u) kept;
    }
