-- ===== src/System/Login.antt =====
-- A login from the client's handle_authentication to the server's UserAuthen and back.
use nex_file.Base.{
  ℕ, suc, ◌+◌, ◌<◌, ◌≤◌, ◌≡◌, ◌↔◌, refl, sym, ◌∙◌, ap, ℤ, pos, Bytes, codes, text_eq, IsStr, c_str,
  c_str-IsStr, List, [], ◌∷◌, ◌++◌, append-nil, length, some, arith,
}
use nex_file.Base.Io.{ok}
use nex_file.Protocol.{Train}
use nex_file.Protocol.Wire.{train_bytes}
use nex_file.Net.{SendAct, accept}
use nex_file.Net.Schedule.{Delivers, Accepts, OnlyGive, deliveries}
use nex_file.Client.Login.{Crypt, Login, handle_authentication}
use nex_file.Client.Login.Received.{
  judged, handle_authentication-answered, handle_authentication-outgoing,
}
use nex_file.Server.State.{Server}
use nex_file.Server.Auth.{Shadow, result_ok, authenticate_user, user_authen, max_path_len}
use nex_file.Server.Auth.Reply.{
  reply_text, after_reply, result_cases, answer-reply, authenticate_user_iff,
}
use nex_file.Server.Auth.Result.{user_authen_login}

judged_ok :
    (shadow : Shadow) (u h : Bytes)
    → judged (reply_text (authenticate_user shadow (some u) (some h))) ≡ pos 0
    → authenticate_user shadow (some u) (some h) ≡ result_ok
unfolding text_eq
judged_ok shadow u h =
    result_cases shadow u h (λ auth. judged (reply_text auth) ≡ pos 0 → auth ≡ result_ok)
      (λ e. refl) (λ e. cc e) (λ e. cc e)

reply_fits :
    (shadow : Shadow) (u h : Bytes)
    → (length (reply_text (authenticate_user shadow (some u) (some h))) ≤ 14)
      × IsStr (reply_text (authenticate_user shadow (some u) (some h)))
unfolding c_str
reply_fits shadow u h =
    result_cases shadow u h (λ auth. (length (reply_text auth) ≤ 14) × IsStr (reply_text auth))
      (omega arith, c_str-IsStr (codes "AUTH_RESULT_OK"))
      (omega arith, c_str-IsStr (codes "AUTH_FAIL")) (omega arith, c_str-IsStr (codes "AUTH_FAIL"))

judged_iff :
    (shadow : Shadow) (u h : Bytes)
    → (judged (reply_text (authenticate_user shadow (some u) (some h))) ≡ pos 0)
      ↔ (shadow u ≡ some h)
unfolding text_eq
judged_iff shadow u h =
    let same = authenticate_user_iff shadow u h in
    (λ e. same.0 (judged_ok shadow u h e), λ k. ap (λ auth. judged (reply_text auth)) (same.1 k))

-- A login answered. Let each end get what the other has sent on a fresh connection. For a name of at
-- most 63 bytes that fits the server's path and a hash of at most 127, neither with a NUL, and for
-- schedules in which every call of the client's recv delivers, the server's one send of the reply
-- takes it whole, the other calls have no error but EINTR, and there are enough of them: if both ends
-- return, handle_authentication returns 0 exactly if the shadow file has this name with this hash.
pub login_answered :
    {F : Type 0} (crypt : Crypt) (shadow : Shadow) (t : Train) (u p h : Bytes) (k : ℕ)
    (acts : List SendAct) (l l' : Login) (s s' : Server F) (r q : ℤ)
    → crypt p ≡ some h
    → length u < 64
    → length h < 128
    → IsStr u
    → IsStr h
    → length s.client_path + 1 + length u < max_path_len
    → l.conn.outgoing ≡ []
    → s.conn.outgoing ≡ []
    → Accepts (length h + 4 + length u + 4) l.conn.sends
    → OnlyGive l.conn.recvs
    → 18 ≤ deliveries l.conn.recvs
    → Delivers (length h + 4 + length u + 4) s.conn.recvs
    → s.conn.sends ≡ accept k ∷ acts
    → 18 ≤ suc k
    → handle_authentication crypt t (some u) (some p) l ≡ ok r l'
    → s.conn.incoming ≡ l'.conn.outgoing
    → user_authen shadow s ≡ ok q s'
    → l.conn.incoming ≡ s'.conn.outgoing
    → (r ≡ pos 0) ↔ (shadow u ≡ some h)
login_answered crypt shadow t u p h k acts l l' s s' r q hash su sh iu ih fits fresh_l fresh_s a
      calm enough d one room client there server back =
    let auth = authenticate_user shadow (some u) (some h) in
    let went =
      handle_authentication-outgoing crypt t u p h l r l' hash (omega arith) (omega arith) a
        client in
    let came : s.conn.incoming ≡ train_bytes u ++ (train_bytes h ++ []) =
      there ∙ (went ∙ rw (fresh_l, append-nil) refl) in
    let (recvs, judging, rest) =
      user_authen_login shadow s 0 u h [] su sh iu ih came
        (record { clean = d.clean; enough = omega (arith, d.enough) }) in
    let s₁ : Server _ = record s { conn = record s.conn { incoming = []; recvs = recvs } } in
    let replied = judging ∙ answer-reply s₁ u k acts shadow h fits one room in
    let state : s' ≡ after_reply s₁ u auth acts = cc (sym server ∙ replied) in
    let reply : l.conn.incoming ≡ train_bytes (reply_text auth) ++ [] =
      back ∙ (ap (λ (x : Server _). x.conn.outgoing) state ∙ rw (fresh_s, append-nil) refl) in
    let (short, str) = reply_fits shadow u h in
    let (rs, ss, heard) =
      handle_authentication-answered crypt t u p h l (reply_text auth) [] hash (omega arith)
        (omega arith) a (omega (arith, short)) str reply calm (omega (arith, short)) in
    let result : r ≡ judged (reply_text auth) = cc (sym client ∙ heard) in
    let iff = judged_iff shadow u h in (λ e. iff.0 (sym result ∙ e), λ e. result ∙ iff.1 e)
