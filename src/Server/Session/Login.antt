-- ===== src/Server/Session/Login.antt =====
-- Who gets past handle_authen_event.
use nex_file.Base.{
  ℕ, zero, suc, ◌≡◌, ◌≢◌, refl, ◌∙◌, ap, ℤ, pos, minus_one, eq_ℤ, Bool, true, false, Bool-cases,
  inl, inr, ◌⊎◌, List,
}
use nex_file.Base.Io.{Io, ok, and_then-eq-ok, pure}
use nex_file.Base.Keeps.{Kept-ok, Keeps, Keeps-bind, Keeps-if}
use nex_file.Server.State.{Server}
use nex_file.Server.Files.{Os}
use nex_file.Server.Auth.{
  Shadow, result_ok, result_fail, result_user_query_fail, result_io_error, user_authen, enter_home,
}
use nex_file.Server.Auth.Result.{Accepts, user_authen_ok, eq_ℤ-zero}
use nex_file.Server.Auth.Kept.{user_authen-files, user_authen-retry, files}
use nex_file.Server.Session.{handle_authen_event, verdict, handle_client, Waited}

-- The rounds of handle_authen_event that let the client try again: UserAuthen returned neither
-- AUTH_RESULT_OK nor AUTH_RESULT_IO_ERROR.
pub data Retries {F : Type 0} (shadow : Shadow) : Server F → Server F → Type 0 where
  none_yet : {s : Server F} → Retries shadow s s
  refused :
      {r : ℤ}
      → {s s₁ t : Server F} → user_authen shadow s ≡ ok r s₁
      → r ≢ result_ok
      → r ≢ result_io_error
      → Retries shadow s₁ t
      → Retries shadow s t

-- The last round, which began at `start`, has received a name and its hash in the shadow file; the
-- path is the one before all rounds, extended by this name alone, and no file has changed.
pub record LoggedIn {F : Type 0} (shadow : Shadow) (s t : Server F) : Type 0 where
  pub start : Server F
  pub before : Retries shadow s start
  pub last : Accepts shadow start t
  pub path : t.client_path ≡ enter_home s.client_path last.user
  pub files : t.files ≡ s.files

apart : (r z b : ℤ) → eq_ℤ r b ≡ true → eq_ℤ z b ≡ false → r ≢ z
apart r z b h k q = cc (rw q at h, k)

module _ {F : Type 0} (os : Os F) (shadow : Shadow) where
  logged_in : (s t : Server F) → user_authen shadow s ≡ ok result_ok t → LoggedIn shadow s t
  logged_in s t e =
      let accepted = user_authen_ok shadow s t e in
      record {
        start = s;
        before = none_yet;
        last = accepted;
        path = accepted.path;
        files = Kept-ok files s t (user_authen shadow s) result_ok (user_authen-files shadow s) e;
      }

  after_retry :
      (s s₁ t : Server F) (r : ℤ)
      → user_authen shadow s ≡ ok r s₁
      → r ≢ result_ok
      → r ≢ result_io_error
      → LoggedIn shadow s₁ t
      → LoggedIn shadow s t
  after_retry s s₁ t r e n m l = record {
    start = l.start;
    before = refused e n m l.before;
    last = l.last;
    path = l.path ∙ ap (λ p. enter_home p l.last.user) (user_authen-retry shadow s s₁ r e n m);
    files = l.files ∙ Kept-ok files s s₁ (user_authen shadow s) r (user_authen-files shadow s) e;
  }

  verdict-files :
      (r : ℤ) (again : Io (Server F) ℤ)
      → Keeps files again
      → Keeps files (verdict os shadow r again)
  unfolding verdict
  verdict-files r again h =
      Keeps-if files (eq_ℤ r result_ok) (pure (pos 0)) _ (λ s. refl)
        (Keeps-if files (eq_ℤ r result_fail) again _ h
          (Keeps-if files (eq_ℤ r result_user_query_fail) again (pure minus_one) h (λ s. refl)))

  login-files : (fuel : ℕ) → Keeps files (handle_authen_event os shadow fuel)
  unfolding handle_authen_event
  login-files zero = λ s. tt
  login-files (suc fuel) =
      Keeps-bind files (user_authen shadow)
        (λ r. verdict os shadow r (handle_authen_event os shadow fuel)) (user_authen-files shadow)
        λ r. verdict-files r (handle_authen_event os shadow fuel) (login-files fuel)

  -- However many rounds it takes, handle_authen_event returns 0 only after a round that has received a
  -- name and its hash in the shadow file; the rounds before were refused, the path is the one at the
  -- start, extended by this name alone, and no file has changed.
  pub handle_authen_event-LoggedIn :
      (fuel : ℕ) (s t : Server F)
      → handle_authen_event os shadow fuel s ≡ ok (pos 0) t
      → LoggedIn shadow s t
  unfolding handle_authen_event verdict
  handle_authen_event-LoggedIn zero s t e = cc e
  handle_authen_event-LoggedIn (suc fuel) s t e =
      let (r, s₁, e₁, e₂) = and_then-eq-ok (user_authen shadow s) _ e in
      let again = handle_authen_event-LoggedIn fuel s₁ t in
      elim (Bool-cases (eq_ℤ r result_ok)) [
        | inl good ↦
            let q : s₁ ≡ t = cc (rw good at e₂) in
            let z = eq_ℤ-zero r good in logged_in s t (rw (z, q) at e₁)
        | inr other ↦ elim (Bool-cases (eq_ℤ r result_fail)) [
          | inl wrong ↦
              after_retry s s₁ t r e₁ (apart r result_ok result_fail wrong refl)
                (apart r result_io_error result_fail wrong refl) (again (rw (other, wrong) at e₂))
          | inr not_wrong ↦ elim (Bool-cases (eq_ℤ r result_user_query_fail)) [
            | inl unknown ↦
                after_retry s s₁ t r e₁ (apart r result_ok result_user_query_fail unknown refl)
                  (apart r result_io_error result_user_query_fail unknown refl)
                  (again (rw (other, not_wrong, unknown) at e₂))
            | inr broken ↦ absurd (cc (rw (other, not_wrong, broken) at e₂))
          ]
        ]
      ]

  -- The login protects the files. If handleClient returns, whatever the client sent and however the
  -- calls went, then either no file has changed; or its handle_authen_event returned 0, the last
  -- round of it received a name and its hash in the shadow file, every round before was refused,
  -- and up to this moment no file had changed and the path was the one at the start, extended by
  -- this name alone.
  pub handle_client-guards :
      (fuel fd : ℕ) (made added : Bool) (waits : List Waited) (s t : Server F)
      → handle_client os shadow fuel fd made added waits s ≡ ok tt t
      → (t.files ≡ s.files)
        ⊎ ((s₁ : Server F) × (handle_authen_event os shadow fuel s ≡ ok (pos 0) s₁)
            × LoggedIn shadow s s₁)
  unfolding handle_client
  handle_client-guards fuel fd made added waits s t e =
      let (ret, s₁, e₁, e₂) = and_then-eq-ok (handle_authen_event os shadow fuel s) _ e in
      elim (Bool-cases (eq_ℤ ret (pos 0))) [
        | inl passed ↦
            let z = eq_ℤ-zero ret passed in
            let accepted = rw z at e₁ in
            inr (s₁, accepted, handle_authen_event-LoggedIn fuel s s₁ accepted)
        | inr out ↦
            let q : s₁ ≡ t = cc (rw out at e₂) in
            inl (
              rw q at (
                Kept-ok files s s₁ (handle_authen_event os shadow fuel s) ret (login-files fuel s)
                  e₁))
      ]
