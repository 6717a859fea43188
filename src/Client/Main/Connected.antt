-- ===== src/Client/Main/Connected.antt =====
-- The client leaves handle_authen_event with 0 only when it is logged in.
use nex_file.Base.{
  ◌≡◌, refl, ◌∙◌, ap, ℤ, pos, eq_ℤ, Bool, true, false, not, Bool-cases, inl, inr, Bytes, List, [],
  ◌∷◌, if◌then◌else◌, some,
}
use nex_file.Base.Io.{Io, Run, ok, blocked, undefined, exited, and_then, and_then-eq-ok, pure}
use nex_file.Protocol.{Train}
use nex_file.Server.Auth.Result.{eq_ℤ-zero}
use nex_file.Client.Login.{Crypt, Login, handle_authentication}
use nex_file.Client.Login.Connects.{handle_authentication-connects}
use nex_file.Client.FileOpt.{Client}
use nex_file.Client.Main.{
  Input, text, ended, failing, fgets, before_newline, with_login, on_login, handle_authen_event,
}

-- The client is logged in, and its files are as before.
pub record LoggedIn {F : Type 0} (s t : Client F) : Type 0 where
  pub connected : t.is_connected ≡ true
  pub files : t.files ≡ s.files

module _ {F : Type 0} where
  by_login :
      (s t : Client F) (x : Run Login ℤ)
      → ((l : Login) → x ≡ ok (pos 0) l → l.is_connected ≡ true)
      → with_login s x ≡ ok (pos 0) t
      → LoggedIn s t
  by_login s t (ok r l) h e =
      let q : r ≡ pos 0 = cc e in
      let state : record s { conn = l.conn; is_connected = l.is_connected } ≡ t = cc e in
      rw (← state) (record { connected = h l (ap (λ r. ok r l) q); files = refl })
  by_login s t blocked h e = cc e
  by_login s t undefined h e = cc e
  by_login s t exited h e = cc e

  login-files :
      (s t : Client F) (x : Run Login ℤ) (r : ℤ) → with_login s x ≡ ok r t → t.files ≡ s.files
  login-files s t (ok a l) r e =
      let state : record s { conn = l.conn; is_connected = l.is_connected } ≡ t = cc e in
      rw (← state) refl
  login-files s t blocked r e = cc e
  login-files s t undefined r e = cc e
  login-files s t exited r e = cc e

  at_once :
      (b : Bool) (s t : Client F) (k : Io (Client F) (ℤ × List Input)) (here inputs : List Input)
      → s.is_connected ≡ b
      → (k s ≡ ok (pos 0, inputs) t → LoggedIn s t)
      → (if b then pure (pos 0, here) else k) s ≡ ok (pos 0, inputs) t
      → LoggedIn s t
  at_once true s t k here inputs on h e =
      let state : s ≡ t = cc e in rw (← state) (record { connected = on; files = refl })
  at_once false s t k here inputs off h e = h e

  after_round :
      (crypt : Crypt) (t : Train) (u p : Bytes) (inputs rest : List Input) (s s' : Client F)
      → ((s₁ s₂ : Client F)
          → handle_authen_event crypt t inputs s₁ ≡ ok (pos 0, rest) s₂
          → LoggedIn s₁ s₂)
      → and_then
          (on_login
            (handle_authentication crypt t
              (some (before_newline (fgets 64 u)))
              (some (before_newline (fgets 128 p))))
            s)
          (λ ret.
            if not (eq_ℤ ret (pos 0))
            then handle_authen_event crypt t inputs
            else pure (pos 0, inputs))
        ≡ ok (pos 0, rest) s'
      → LoggedIn s s'
  after_round crypt t u p inputs rest s s' again e =
      let login =
        handle_authentication crypt t (some (before_newline (fgets 64 u)))
          (some (before_newline (fgets 128 p))) in
      let l : Login = record { conn = s.conn; is_connected = s.is_connected } in
      let (ret, s₁, e₁, e₂) = and_then-eq-ok (with_login s (login l)) _ e in
      elim (Bool-cases (eq_ℤ ret (pos 0))) [
        | inl passed ↦
            let q : s₁ ≡ s' = cc (rw passed at e₂) in
            let z = eq_ℤ-zero ret passed in
            by_login s s' (login l)
              (λ l'.
                handle_authentication-connects crypt t (before_newline (fgets 64 u))
                  (before_newline (fgets 128 p)) l l')
              (rw (z, q) at e₁)
        | inr refused ↦
            let r = again s₁ s' (rw refused at e₂) in
            record { connected = r.connected; files = r.files ∙ login-files s s₁ (login l) ret e₁ }
      ]

  -- However many names and passwords are typed, handle_authen_event returns 0 only with `is_connected`
  -- set, and it leaves the client's files as they were.
  pub handle_authen_event-connects :
      (crypt : Crypt) (t : Train) (inputs rest : List Input) (s s' : Client F)
      → handle_authen_event crypt t inputs s ≡ ok (pos 0, rest) s'
      → LoggedIn s s'
  unfolding handle_authen_event
  handle_authen_event-connects crypt t [] rest s s' e =
      at_once s.is_connected s s' _ _ rest refl (λ h. cc h) e
  handle_authen_event-connects crypt t (text u ∷ []) rest s s' e =
      at_once s.is_connected s s' _ _ rest refl (λ h. cc h) e
  handle_authen_event-connects crypt t (text u ∷ text p ∷ inputs) rest s s' e =
      at_once s.is_connected s s' _ _ rest refl
        (λ h.
          after_round crypt t u p inputs rest s s'
            (handle_authen_event-connects crypt t inputs rest) h)
        e
  handle_authen_event-connects crypt t (text u ∷ ended ∷ inputs) rest s s' e =
      at_once s.is_connected s s' _ _ rest refl (λ h. cc h) e
  handle_authen_event-connects crypt t (text u ∷ failing ∷ inputs) rest s s' e =
      at_once s.is_connected s s' _ _ rest refl (λ h. cc h) e
  handle_authen_event-connects crypt t (ended ∷ inputs) rest s s' e =
      at_once s.is_connected s s' _ _ rest refl (λ h. cc h) e
  handle_authen_event-connects crypt t (failing ∷ inputs) rest s s' e =
      at_once s.is_connected s s' _ _ rest refl (λ h. cc h) e
