-- ===== src/Base/Io.antt =====
-- Code with effects: a state `S`, and how a call can end. `blocked`: it waits for a peer that
-- does nothing more. `undefined`: it has written or read outside an object. `exited`: it has
-- called `exit(1)` through ERROR_CHECK.

use mathlib.Core.Path.{◌≡◌, refl}

pub data Run (S A : Type 0) : Type 0 where
  ok : A → S → Run S A
  blocked : Run S A
  undefined : Run S A
  exited : Run S A

abbrev pub Io : Type 0 → Type 0 → Type 0
Io S A = S → Run S A

module _ {S A : Type 0} where
  abbrev pub pure : A → Io S A
  pure a s = ok a s

  abbrev pub fail_undefined : Io S A
  fail_undefined s = undefined

  abbrev pub exit : Io S A
  exit s = exited

abbrev pub and_then : {S A B : Type 0} → Run S A → (A → Io S B) → Run S B
and_then (ok a s) f = f a s
and_then blocked f = blocked
and_then undefined f = undefined
and_then exited f = exited

infixl 5 ◌>>=◌ ◌>>◌
abbrev pub ◌>>=◌ : {S A B : Type 0} → Io S A → (A → Io S B) → Io S B
m >>= f = λ s. and_then (m s) f

abbrev pub ◌>>◌ : {S A B : Type 0} → Io S A → Io S B → Io S B
m >> k = m >>= λ _. k

-- Inversion of a chain that returns.
pub and_then-eq-ok :
    {S A B : Type 0} (x : Run S A) (f : A → Io S B) {b : B} {s' : S}
    → and_then x f ≡ ok b s'
    → (a : A) × (s : S) × (x ≡ ok a s) × (f a s ≡ ok b s')
and_then-eq-ok (ok a s) f e = (a, s, refl, e)
and_then-eq-ok blocked f e = cc
and_then-eq-ok undefined f e = cc
and_then-eq-ok exited f e = cc
