-- ===== src/Server/Session/Full.antt =====
-- A right login when the global path has no room left.
use nex_file.Base.{
  ℕ, suc, ◌+◌, ◌<◌, ◌≤◌, ◌≡◌, refl, ◌∙◌, ap, Bool, Bytes, IsStr, List, ◌++◌, length, some, arith,
}
use nex_file.Base.Io.{ok}
use nex_file.Protocol.Wire.{train_bytes}
use nex_file.Net.{RecvAct}
use nex_file.Net.Schedule.{Delivers}
use nex_file.Server.State.{Server}
use nex_file.Server.Files.{Os}
use nex_file.Server.Auth.{Shadow, result_io_error, max_path_len, answer, user_authen}
use nex_file.Server.Auth.Path.{answer-full}
use nex_file.Server.Auth.Reply.{authenticate_user_iff}
use nex_file.Server.Auth.Result.{user_authen_login}
use nex_file.Server.Session.{Waited, verdict, handle_authen_event, handle_client}

-- A user of the shadow file gives the right hash, with a name of at most 63 bytes and a hash of at
-- most 127, neither with a NUL, under a schedule of recv with no error but EINTR and enough calls.
-- If the global path and the name do not fit 1024 bytes together, handleClient returns after this
-- round: nothing is sent, and neither the path nor a file is changed.
pub handle_client-full :
    {F : Type 0} (os : Os F) (shadow : Shadow) (f fd : ℕ) (made added : Bool) (waits : List Waited)
    (u h rest : Bytes) (s : Server F)
    → shadow u ≡ some h
    → length u < 64
    → length h < 128
    → IsStr u
    → IsStr h
    → max_path_len ≤ length s.client_path + 1 + length u
    → s.conn.incoming ≡ train_bytes u ++ (train_bytes h ++ rest)
    → Delivers (length h + 4 + length u + 4) s.conn.recvs
    → (recvs : List RecvAct) × (handle_client os shadow (suc f) fd made added waits s
        ≡ ok tt (record s { conn = record s.conn { incoming = rest; recvs = recvs } }))
unfolding handle_client handle_authen_event verdict
handle_client-full os shadow f fd made added waits u h rest s known su sh iu ih full came d =
    let (recvs, judging, left) =
      user_authen_login shadow s 0 u h rest su sh iu ih came
        (record { clean = d.clean; enough = omega (arith, d.enough) }) in
    let s₁ : Server _ = record s { conn = record s.conn { incoming = rest; recvs = recvs } } in
    let right = (authenticate_user_iff shadow u h).1 known in
    let round : user_authen shadow s ≡ ok result_io_error s₁ =
      judging ∙ (ap (λ auth. answer u auth s₁) right ∙ answer-full u s₁ full) in
    (recvs, rw round refl)
