-- ===== src/Server/Auth/Kept.antt =====
-- What UserAuthen leaves alone: the files always, and the path when the login may be tried again.
use nex_file.Base.{
  ◌+◌, ◌≡◌, ◌≢◌, refl, ◌∙◌, ℤ, eq_ℤ, Bool-cases, inl, inr, ◌⊎◌, Bytes, codes, length, leb,
  if◌then◌else◌, some, ◌||◌,
}
use nex_file.Base.Io.{Io, Run, ok, blocked, undefined, exited, and_then-eq-ok, pure, ◌>>=◌}
use nex_file.Base.Keeps.{Kept, Kept-ok, Keeps, Keeps-bind, Keeps-if}
use nex_file.Net.{Conn}
use nex_file.Server.State.{Server, with_conn, on_conn, get_path, set_path}
use nex_file.Server.Auth.{
  Shadow, result_ok, result_fail, result_user_query_fail, result_io_error, authenticate_user,
  receive_text, send_reply, answer, user_authen, enter_home, max_path_len, welcome, refuse,
}
use nex_file.Server.Auth.Result.{with_conn-path, eq_ℤ-zero}

-- A call of a server thread that keeps a part `f` of the state: what works on the connection alone.
module _ {F B : Type 0} (f : Server F → B)
    (same : (s : Server F) (c : Conn) → f (record s { conn = c }) ≡ f s) where
  with_conn-Kept : {A : Type 0} (s : Server F) (x : Run Conn A) → Kept f s (with_conn s x)
  with_conn-Kept s (ok a c) = same s c
  with_conn-Kept s blocked = tt
  with_conn-Kept s undefined = tt
  with_conn-Kept s exited = tt

  pub on_conn-Keeps : {A : Type 0} (m : Io Conn A) → Keeps f (on_conn m)
  on_conn-Keeps m s = with_conn-Kept s (m s.conn)

abbrev pub files : {F : Type 0} → Server F → F
files s = s.files

welcome-Keeps :
    {F : Type 0} (u path : Bytes) (auth : ℤ) → Keeps (files {F = F}) (welcome u path auth)
unfolding welcome
welcome-Keeps {F} u path auth =
    Keeps-if files (leb max_path_len (length path + 1 + length u)) (pure result_io_error)
      (set_path (enter_home path u) >>= reply) (λ s. refl)
      (Keeps-bind files (set_path (enter_home path u)) reply (λ s. refl)
        λ _.
          Keeps-bind files (on_conn (send_reply _)) _
            (on_conn-Keeps files (λ s c. refl) (send_reply _)) λ sent. λ s. refl)
  where
    reply : Unit {0} → Io (Server F) ℤ
    reply _ = do
      sent ← on_conn (send_reply (codes "AUTH_RESULT_OK"))
      pure (if sent then auth else result_io_error)

pub refuse-Keeps :
    {F B : Type 0} (f : Server F → B)
    → ((s : Server F) (c : Conn) → f (record s { conn = c }) ≡ f s)
    → (auth : ℤ) → Keeps f (refuse auth)
unfolding refuse
refuse-Keeps f same auth =
    Keeps-bind f (on_conn (send_reply _)) _ (on_conn-Keeps f same _) λ sent. λ s. refl

answer-Keeps : {F : Type 0} (u : Bytes) (auth : ℤ) → Keeps (files {F = F}) (answer u auth)
unfolding answer
answer-Keeps u auth =
    Keeps-if files (eq_ℤ auth result_ok) _ _
      (Keeps-bind files get_path _ (λ s. refl) λ path. welcome-Keeps u path auth)
      (Keeps-if files (eq_ℤ auth result_user_query_fail || eq_ℤ auth result_fail) _ _
        (refuse-Keeps files (λ s c. refl) auth) (λ s. refl))

-- UserAuthen never touches the files.
pub user_authen-files : {F : Type 0} (shadow : Shadow) → Keeps (files {F = F}) (user_authen shadow)
unfolding user_authen
user_authen-files shadow =
    Keeps-bind files (on_conn (receive_text 64)) _ (on_conn-Keeps files (λ s c. refl) _) λ u.
      Keeps-bind files (on_conn (receive_text 128)) _ (on_conn-Keeps files (λ s c. refl) _)
        λ h. answer-Keeps u (authenticate_user shadow (some u) (some h))

abbrev pub path : {F : Type 0} → Server F → Bytes
path s = s.client_path

-- A success that cannot be sent is an I/O error.
welcome-results :
    {F : Type 0} (u p : Bytes) (s t : Server F) (r : ℤ)
    → welcome u p result_ok s ≡ ok r t
    → (r ≡ result_ok) ⊎ (r ≡ result_io_error)
unfolding welcome
welcome-results u p s t r e = elim (Bool-cases (leb max_path_len (length p + 1 + length u))) [
  | inl long ↦ inr (cc (rw long at e))
  | inr fits ↦
      let s₁ = record s { client_path = enter_home p u } in
      let (sent, s₂, e₁, e₂) =
        and_then-eq-ok (with_conn s₁ (send_reply (codes "AUTH_RESULT_OK") s₁.conn)) _
          (rw fits at e) in
      elim (Bool-cases sent) [
        | inl good ↦ inl (cc (rw good at e₂))
        | inr bad ↦ inr (cc (rw bad at e₂))
      ]
]

answer-retry :
    {F : Type 0} (u : Bytes) (auth : ℤ) (s t : Server F) (r : ℤ)
    → answer u auth s ≡ ok r t
    → r ≢ result_ok
    → r ≢ result_io_error
    → t.client_path ≡ s.client_path
unfolding answer
answer-retry u auth s t r e n m = elim (Bool-cases (eq_ℤ auth result_ok)) [
  | inl same ↦
      let z = eq_ℤ-zero auth same in
      absurd (elim (welcome-results u s.client_path s t r (rw (same, z) at e)) [
        | inl good ↦ n good
        | inr bad ↦ m bad
      ])
  | inr other ↦ elim (Bool-cases (eq_ℤ auth result_user_query_fail || eq_ℤ auth result_fail)) [
    | inl known ↦
        Kept-ok path s t (refuse auth s) r (refuse-Keeps path (λ s c. refl) auth s)
          (rw (other, known) at e)
    | inr unknown ↦ let q : s ≡ t = cc (rw (other, unknown) at e) in rw (← q) refl
  ]
]

-- After a login that may be tried again, the path is as before.
pub user_authen-retry :
    {F : Type 0} (shadow : Shadow) (s t : Server F) (r : ℤ)
    → user_authen shadow s ≡ ok r t
    → r ≢ result_ok
    → r ≢ result_io_error
    → t.client_path ≡ s.client_path
unfolding user_authen
user_authen-retry shadow s t r e n m =
    let (u, s₁, e₁, r₁) = and_then-eq-ok (with_conn s (receive_text 64 s.conn)) _ e in
    let (h, s₂, e₂, r₂) = and_then-eq-ok (with_conn s₁ (receive_text 128 s₁.conn)) _ r₁ in
    answer-retry u (authenticate_user shadow (some u) (some h)) s₂ t r r₂ n m
    ∙ with_conn-path s₁ s₂ _ h e₂
    ∙ with_conn-path s s₁ _ u e₁
