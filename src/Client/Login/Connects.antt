-- ===== src/Client/Login/Connects.antt =====
-- When handle_authentication returns 0.
use nex_file.Base.{
  ◌≡◌, sym, ap, pos, is_neg, true, Bool-cases, inl, inr, Bytes, codes, text_eq, some,
}
use nex_file.Base.Io.{ok, and_then-eq-ok}
use nex_file.Protocol.{Train}
use nex_file.Client.Login.{
  Crypt, Login, judge, handle_authentication, receive_response, on_conn, handle_password,
}

judge-connects :
    (response : Bytes) (s s' : Login) → judge response s ≡ ok (pos 0) s' → s'.is_connected ≡ true
unfolding judge
judge-connects response s s' e = elim (Bool-cases (text_eq response (codes "AUTH_RESULT_OK"))) [
  | inl same ↦
      let q : record s { is_connected = true } ≡ s' = cc (rw same at e) in
      ap (λ (x : Login). x.is_connected) (sym q)
  | inr other ↦ cc (rw other at e)
]

-- A handle_authentication that returns 0 has set `is_connected`.
pub handle_authentication-connects :
    (crypt : Crypt) (t : Train) (u p : Bytes) (s s' : Login)
    → handle_authentication crypt t (some u) (some p) s ≡ ok (pos 0) s'
    → s'.is_connected ≡ true
unfolding handle_authentication
handle_authentication-connects crypt t u p s s' e =
    let (ret, s₁, e₁, e₂) =
      and_then-eq-ok (on_conn (handle_password crypt (some u) (some p)) s) _ e in
    elim (Bool-cases (is_neg ret)) [
      | inl failed ↦ cc (rw failed at e₂)
      | inr sent ↦
          let (response, s₂, e₃, e₄) =
            and_then-eq-ok (on_conn (receive_response t) s₁) _ (rw sent at e₂) in
          judge-connects response s₂ s' e₄
    ]
