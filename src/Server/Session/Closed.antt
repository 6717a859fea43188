-- ===== src/Server/Session/Closed.antt =====
-- The login loop when the client has gone.
use nex_file.Base.{
  ℕ, zero, suc, ◌+◌, ◌*◌, ◌<◌, ◌≤◌, ◌≡◌, refl, sym, ◌∙◌, ap, minus_one, Bytes, codes, List, [], ◌∷◌,
  ◌++◌, append_assoc, append-nil, none, arith,
}
use nex_file.Base.Io.{ok}
use nex_file.Protocol.Wire.{train_bytes}
use nex_file.Net.{RecvAct, SendAct, accept, send_failing}
use nex_file.Net.Schedule.{Delivers}
use nex_file.Server.State.{Server}
use nex_file.Server.Files.{Os}
use nex_file.Server.Auth.{Shadow}
use nex_file.Server.Auth.Closed.{user_authen_answers, user_authen_gives_up}
use nex_file.Server.Session.{handle_authen_event, verdict}

-- `n` refusals, one behind the other.
abbrev pub refusals : (n : ℕ) → Bytes
refusals zero = []
refusals (suc n) = train_bytes (codes "AUTH_FAIL") ++ refusals n

-- `n` calls of send are taken, and the next one fails.
abbrev pub fails_after : (n i : ℕ) → List SendAct → List SendAct
fails_after zero i acts = send_failing ∷ acts
fails_after (suc n) i acts = accept i ∷ fails_after n i acts

module _ {F : Type 0} (os : Os F) (shadow : Shadow) where
  -- handle_authen_event does not see the end of the client's stream. If the shadow file has no
  -- empty name, nothing more comes, and the schedule of recv has no error but EINTR and enough
  -- calls, then the loop answers AUTH_FAIL in each round for as long as send takes it, however
  -- often, and returns -1 after the first call of send that fails; neither the path nor a file has
  -- changed. A round for each call of send is enough fuel.
  pub handle_authen_event-spins :
      (n fuel i : ℕ) (acts : List SendAct) (s : Server F)
      → shadow [] ≡ none
      → s.conn.incoming ≡ []
      → Delivers (2 * n + 2) s.conn.recvs
      → s.conn.sends ≡ fails_after n i acts
      → 13 ≤ suc i
      → n < fuel
      → (recvs : List RecvAct) × (handle_authen_event os shadow fuel s
          ≡ ok minus_one (record s {
            conn = record {
              incoming = [];
              recvs = recvs;
              outgoing = s.conn.outgoing ++ refusals n;
              sends = acts;
            };
          }))
  unfolding handle_authen_event verdict
  handle_authen_event-spins n zero i acts s no_empty e d one room lt = absurd (omega arith)
  handle_authen_event-spins zero (suc fuel) i acts s no_empty e d one room lt =
      let (recvs, left, last) = user_authen_gives_up shadow 0 acts s no_empty e d one in
      (
        recvs,
        rw last (
            ap
              (λ o. ok minus_one (record s {
                conn = record { incoming = []; recvs = recvs; outgoing = o; sends = acts };
              }))
              (sym (append-nil s.conn.outgoing))),
      )
  handle_authen_event-spins (suc n) (suc fuel) i acts s no_empty e d one room lt =
      let (recvs, left, round) =
        user_authen_answers shadow (2 * n + 2) (fails_after n i acts) s i no_empty e
          (record { clean = d.clean; enough = omega (arith, d.enough) }) one room in
      let s₁ : Server F = record s {
        conn = record {
          incoming = [];
          recvs = recvs;
          outgoing = s.conn.outgoing ++ train_bytes (codes "AUTH_FAIL");
          sends = fails_after n i acts;
        };
      } in
      let (recvs', later) =
        handle_authen_event-spins n fuel i acts s₁ no_empty refl left refl room (omega arith) in
      (
        recvs',
        rw round (
            later
            ∙ ap
                (λ o. ok minus_one (record s {
                  conn = record { incoming = []; recvs = recvs'; outgoing = o; sends = acts };
                }))
                (append_assoc s.conn.outgoing (train_bytes (codes "AUTH_FAIL")) (refusals n))),
      )
