-- ===== src/Server/Session/Ends.antt =====
-- The loop of handle_authen_event ends: each round makes a call of `recv`, or blocks.
use nex_file.Base.{ℕ, zero, suc, ◌<◌, ◌≡◌, refl, ℤ, arith}
use nex_file.Base.Io.{Io, Run, ok, blocked, undefined, exited, and_then}
use nex_file.Base.Lowers.{Below}
use nex_file.Server.State.{Server}
use nex_file.Server.Transfer.Calls.{calls}
use nex_file.Server.Auth.Calls.{server_calls, user_authen-Drops}
use nex_file.Server.Auth.{Shadow, user_authen}
use nex_file.Server.Files.{Os}
use nex_file.Server.Session.{handle_authen_event, verdict}

module _ {F : Type 0} (os : Os F) (shadow : Shadow) where
  verdict-same :
      (r : ℤ) (k l : Io (Server F) ℤ) (s : Server F)
      → k s ≡ l s
      → verdict os shadow r k s ≡ verdict os shadow r l s
  unfolding verdict
  verdict-same r k l s e = ground (arith, e)

  same_after :
      (k l : Io (Server F) ℤ) (n : ℕ) (x : Run (Server F) ℤ)
      → Below server_calls n x
      → ((t : Server F) → server_calls t < n → k t ≡ l t)
      → and_then x (λ r. verdict os shadow r k) ≡ and_then x (λ r. verdict os shadow r l)
  same_after k l n (ok r t) b same = verdict-same r k l t (same t b)
  same_after k l n blocked b same = refl
  same_after k l n undefined b same = refl
  same_after k l n exited b same = refl

  -- The fuel of the login loop is no limit: with more rounds than the schedule has calls of `recv`,
  -- the number of rounds makes no difference.
  pub handle_authen_event-fuel :
      (n m : ℕ) (s : Server F)
      → calls s.conn < n
      → calls s.conn < m
      → handle_authen_event os shadow n s ≡ handle_authen_event os shadow m s
  unfolding handle_authen_event
  handle_authen_event-fuel zero m s p q = absurd (omega arith)
  handle_authen_event-fuel (suc n) zero s p q = absurd (omega arith)
  handle_authen_event-fuel (suc n) (suc m) s p q =
      same_after (handle_authen_event os shadow n) (handle_authen_event os shadow m) (calls s.conn)
        (user_authen shadow s) (user_authen-Drops shadow s)
        λ t lt. handle_authen_event-fuel n m t (omega arith) (omega arith)
