-- ===== src/Base/Keeps.antt =====
-- Calls that leave a part of the state as it is.
use mathlib.Core.Path.{◌≡◌, ◌∙◌, ap}
use mathlib.Core.Bool.{Bool, true, false}
use nex_file.Base.Tests.{if◌then◌else◌}
use nex_file.Base.Io.{Io, Run, ok, blocked, undefined, exited, and_then, ◌>>=◌}

-- What a call keeps of the state: if it returns, `f` of the state is as before.
abbrev pub Kept : {S A B : Type 0} → (S → B) → S → Run S A → Type 0
Kept f s (ok a t) = f t ≡ f s
Kept f s blocked = Unit
Kept f s undefined = Unit
Kept f s exited = Unit

abbrev pub Keeps : {S A B : Type 0} → (S → B) → Io S A → Type 0
Keeps f m = (s : _) → Kept f s (m s)

module _ {S B : Type 0} (f : S → B) where
  Kept-trans : {A : Type 0} (s t : S) (x : Run S A) → f t ≡ f s → Kept f t x → Kept f s x
  Kept-trans s t (ok a u) e h = h ∙ e
  Kept-trans s t blocked e h = tt
  Kept-trans s t undefined e h = tt
  Kept-trans s t exited e h = tt

  Kept-and_then :
      {A C : Type 0} (s : S) (x : Run S A) (k : A → Io S C)
      → Kept f s x
      → ((a : A) → Keeps f (k a))
      → Kept f s (and_then x k)
  Kept-and_then s (ok a t) k h g = Kept-trans s t (k a t) h (g a t)
  Kept-and_then s blocked k h g = tt
  Kept-and_then s undefined k h g = tt
  Kept-and_then s exited k h g = tt

  pub Keeps-bind :
      {A C : Type 0} (m : Io S A) (k : A → Io S C)
      → Keeps f m
      → ((a : A) → Keeps f (k a))
      → Keeps f (m >>= k)
  Keeps-bind m k h g s = Kept-and_then s (m s) k (h s) g

  pub Keeps-if :
      {A : Type 0} (b : Bool) (m k : Io S A) → Keeps f m → Keeps f k → Keeps f (if b then m else k)
  Keeps-if true m k h g = h
  Keeps-if false m k h g = g

-- A call that returned has kept it.
pub Kept-ok :
    {S A B : Type 0} (f : S → B) (s t : S) (x : Run S A) (a : A)
    → Kept f s x
    → x ≡ ok a t
    → f t ≡ f s
Kept-ok f s t (ok b u) a h e = let q : u ≡ t = cc e in rw (← q) h
Kept-ok f s t blocked a h e = cc e
Kept-ok f s t undefined a h e = cc e
Kept-ok f s t exited a h e = cc e

-- What follows from what is kept.
pub Kept-map :
    {S A B C : Type 0} (f : S → B) (g : B → C) (s : S) (x : Run S A)
    → Kept f s x
    → Kept (λ t. g (f t)) s x
Kept-map f g s (ok a t) h = ap g h
Kept-map f g s blocked h = tt
Kept-map f g s undefined h = tt
Kept-map f g s exited h = tt
