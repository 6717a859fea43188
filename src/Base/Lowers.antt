-- ===== src/Base/Lowers.antt =====
-- Calls that do not raise a measure of the state, and calls that lower it.
use Prim.Native.Nat.{ℕ, ◌≤◌, ◌<◌}
use native.Mathlib.Omega.{arith}
use mathlib.Core.Bool.{Bool, true, false}
use nex_file.Base.Tests.{if◌then◌else◌}
use nex_file.Base.Io.{Io, Run, ok, blocked, undefined, exited, and_then, ◌>>=◌}

-- If the call returns, the measure is at most `n`.
abbrev pub Within : {S A : Type 0} → (S → ℕ) → ℕ → Run S A → Type 0
Within f n (ok a t) = f t ≤ n
Within f n blocked = Unit
Within f n undefined = Unit
Within f n exited = Unit

abbrev pub Lowers : {S A : Type 0} → (S → ℕ) → Io S A → Type 0
Lowers f m = (s : _) → Within f (f s) (m s)

-- If the call returns, the measure is less than `n`.
abbrev pub Below : {S A : Type 0} → (S → ℕ) → ℕ → Run S A → Type 0
Below f n (ok a t) = f t < n
Below f n blocked = Unit
Below f n undefined = Unit
Below f n exited = Unit

abbrev pub Drops : {S A : Type 0} → (S → ℕ) → Io S A → Type 0
Drops f m = (s : _) → Below f (f s) (m s)

module _ {S : Type 0} (f : S → ℕ) where
  Within-le : {A : Type 0} (m n : ℕ) (x : Run S A) → m ≤ n → Within f m x → Within f n x
  Within-le m n (ok a t) le h = omega arith
  Within-le m n blocked le h = tt
  Within-le m n undefined le h = tt
  Within-le m n exited le h = tt

  Below-lt : {A : Type 0} (m n : ℕ) (x : Run S A) → m < n → Within f m x → Below f n x
  Below-lt m n (ok a t) lt h = omega arith
  Below-lt m n blocked lt h = tt
  Below-lt m n undefined lt h = tt
  Below-lt m n exited lt h = tt

  Within-and_then :
      {A B : Type 0} (n : ℕ) (x : Run S A) (k : A → Io S B)
      → Within f n x
      → ((a : A) → Lowers f (k a))
      → Within f n (and_then x k)
  Within-and_then n (ok a t) k h g = Within-le (f t) n (k a t) h (g a t)
  Within-and_then n blocked k h g = tt
  Within-and_then n undefined k h g = tt
  Within-and_then n exited k h g = tt

  Below-and_then :
      {A B : Type 0} (n : ℕ) (x : Run S A) (k : A → Io S B)
      → Below f n x
      → ((a : A) → Lowers f (k a))
      → Below f n (and_then x k)
  Below-and_then n (ok a t) k h g = Below-lt (f t) n (k a t) h (g a t)
  Below-and_then n blocked k h g = tt
  Below-and_then n undefined k h g = tt
  Below-and_then n exited k h g = tt

  pub Lowers-bind :
      {A B : Type 0} (m : Io S A) (k : A → Io S B)
      → Lowers f m
      → ((a : A) → Lowers f (k a))
      → Lowers f (m >>= k)
  Lowers-bind m k h g s = Within-and_then (f s) (m s) k (h s) g

  pub Drops-bind :
      {A B : Type 0} (m : Io S A) (k : A → Io S B)
      → Drops f m
      → ((a : A) → Lowers f (k a))
      → Drops f (m >>= k)
  Drops-bind m k h g s = Below-and_then (f s) (m s) k (h s) g

  pub Lowers-if :
      {A : Type 0} (b : Bool) (m k : Io S A)
      → Lowers f m
      → Lowers f k
      → Lowers f (if b then m else k)
  Lowers-if true m k h g = h
  Lowers-if false m k h g = g

  Within-of_Below : {A : Type 0} (n : ℕ) (x : Run S A) → Below f n x → Within f n x
  Within-of_Below n (ok a t) h = omega arith
  Within-of_Below n blocked h = tt
  Within-of_Below n undefined h = tt
  Within-of_Below n exited h = tt

  pub Lowers-of_Drops : {A : Type 0} (m : Io S A) → Drops f m → Lowers f m
  Lowers-of_Drops m h s = Within-of_Below (f s) (m s) (h s)
