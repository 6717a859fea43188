-- ===== src/Net/Schedule.antt =====
-- Schedules under which a transfer ends: no error, and as many deliveries as there are bytes.
use nex_file.Base.{ℕ, suc, ◌≤◌, List, [], ◌∷◌}
use nex_file.Net.{RecvAct, give, failing, SendAct, accept, send_failing}

abbrev pub deliveries : List RecvAct → ℕ
deliveries [] = 0
deliveries (give k ∷ acts) = suc (deliveries acts)
deliveries (_ ∷ acts) = deliveries acts

-- No call fails but by EINTR.
abbrev pub NoError : List RecvAct → Type 0
NoError [] = Unit
NoError (failing ∷ acts) = ⊥
NoError (_ ∷ acts) = NoError acts

-- Every call delivers.
abbrev pub OnlyGive : List RecvAct → Type 0
OnlyGive [] = Unit
OnlyGive (give k ∷ acts) = OnlyGive acts
OnlyGive (_ ∷ acts) = ⊥

pub record Delivers (n : ℕ) (acts : List RecvAct) : Type 0 where
  pub clean : NoError acts
  pub enough : n ≤ deliveries acts

abbrev pub acceptances : List SendAct → ℕ
acceptances [] = 0
acceptances (accept k ∷ acts) = suc (acceptances acts)
acceptances (_ ∷ acts) = acceptances acts

abbrev pub NoSendError : List SendAct → Type 0
NoSendError [] = Unit
NoSendError (send_failing ∷ acts) = ⊥
NoSendError (_ ∷ acts) = NoSendError acts

pub record Accepts (n : ℕ) (acts : List SendAct) : Type 0 where
  pub clean : NoSendError acts
  pub enough : n ≤ acceptances acts
