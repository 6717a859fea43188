-- ===== src/Client/Config/Trim.antt =====
-- trimWhitespace removes the white space at both ends, and nothing else.
use nex_file.Base.{
  ℕ, zero, suc, ◌-◌, ◌<◌, ◌≤◌, ◌≡◌, refl, sym, ◌∙◌, ap, true, false, Bool-cases, inl, inr, Bytes,
  byte_at, All, [], ◌∷◌, ◌++◌, length, take, drop, take-append-drop, length-take, ltb, ltb→lt,
  arith,
}
use nex_file.Client.Config.{is_space, skip_spaces, kept_len, trim}

abbrev pub IsSpaces : Bytes → Type 0
IsSpaces = All (λ c. is_space c ≡ true)

-- `t` is `s` without the white space at its ends: what is cut off is white space, and neither the
-- first nor the last byte of `t` is. (Behind an empty `t` stands its NUL.)
pub record Trims (s t : Bytes) : Type 0 where
  pub before : Bytes
  pub after : Bytes
  pub splits : s ≡ before ++ (t ++ after)
  pub blank : IsSpaces before × IsSpaces after
  pub tight : (is_space (byte_at t 0) ≡ false) × (is_space (byte_at t (length t - 1)) ≡ false)

skipped :
    (s : Bytes)
    → (before : Bytes) × (s ≡ before ++ skip_spaces s)
      × IsSpaces before
      × (is_space (byte_at (skip_spaces s) 0) ≡ false)
unfolding skip_spaces byte_at is_space
skipped [] = ([], refl, tt, refl)
skipped (c ∷ cs) = elim (Bool-cases (is_space c)) [
  | inl blank ↦
      let (before, e, all, first) = skipped cs in
      (c ∷ before, rw blank (ap (◌∷◌ c) e), (blank, all), rw blank first)
  | inr solid ↦ ([], rw solid refl, tt, rw (solid, byte_at) solid)
]

kept_le : (s : Bytes) (n : ℕ) → kept_len s n ≤ n
unfolding kept_len
kept_le s zero = omega arith
kept_le s (suc n) = elim (Bool-cases (is_space (byte_at s n))) [
  | inl blank ↦ rw blank (omega (arith, kept_le s n))
  | inr solid ↦ rw solid (omega arith)
]

kept_tight :
    (s : Bytes) (n : ℕ)
    → is_space (byte_at s 0) ≡ false
    → is_space (byte_at s (kept_len s n - 1)) ≡ false
unfolding kept_len
kept_tight s zero h = h
kept_tight s (suc n) h = elim (Bool-cases (is_space (byte_at s n))) [
  | inl blank ↦ rw blank (kept_tight s n h)
  | inr solid ↦ let e : suc n - 1 ≡ n = omega arith in rw solid (rw e solid)
]

cut_blank : (s : Bytes) (n i : ℕ) → kept_len s n ≤ i → i < n → is_space (byte_at s i) ≡ true
unfolding kept_len
cut_blank s zero i h lt = absurd (omega arith)
cut_blank s (suc n) i h lt = elim (Bool-cases (is_space (byte_at s n))) [
  | inl blank ↦ elim (Bool-cases (ltb i n)) [
    | inl less ↦ cut_blank s n i (rw blank at h) (ltb→lt i n less)
    | inr last ↦ let e : i ≡ n = ground (arith, lt) in rw e blank
  ]
  | inr solid ↦ absurd (omega (arith, rw solid at h))
]

drop_blank :
    (s : Bytes) (k : ℕ)
    → ((i : ℕ) → k ≤ i → i < length s → is_space (byte_at s i) ≡ true)
    → IsSpaces (drop k s)
unfolding byte_at
drop_blank [] zero h = tt
drop_blank [] (suc k) h = tt
drop_blank (c ∷ s) zero h = (
  h 0 (omega arith) (omega arith),
  drop_blank s zero (λ i le lt. h (suc i) (omega arith) (omega arith)),
)
drop_blank (c ∷ s) (suc k) h = drop_blank s k (λ i le lt. h (suc i) (omega arith) (omega arith))

byte_at-take : (s : Bytes) (k i : ℕ) → i < k → byte_at (take k s) i ≡ byte_at s i
unfolding byte_at
byte_at-take s zero i h = absurd (omega arith)
byte_at-take [] (suc k) i h = refl
byte_at-take (c ∷ s) (suc k) zero h = refl
byte_at-take (c ∷ s) (suc k) (suc i) h = byte_at-take s k i (omega arith)

tight_first :
    (s : Bytes) (k : ℕ) → is_space (byte_at s 0) ≡ false → is_space (byte_at (take k s) 0) ≡ false
unfolding byte_at is_space
tight_first s zero h = refl
tight_first [] (suc k) h = refl
tight_first (c ∷ s) (suc k) h = h

tight_last :
    (s : Bytes) (k : ℕ)
    → k ≤ length s
    → is_space (byte_at s (k - 1)) ≡ false
    → is_space (byte_at (take k s) (length (take k s) - 1)) ≡ false
tight_last s zero le h = unfold byte_at is_space in refl
tight_last s (suc k) le h =
    let e : length (take (suc k) s) ≡ suc k = omega (arith, length-take (suc k) s) in
    rw e (rw (byte_at-take s (suc k) (suc k - 1) (omega arith)) h)

-- What trimWhitespace leaves is the string without the white space at its ends.
pub trim-Trims : (s : Bytes) → Trims s (trim s)
unfolding trim
trim-Trims s =
    let (before, e, all, first) = skipped s in
    let rest = skip_spaces s in
    let n = length rest in
    let k = kept_len rest n in
    record {
      before = before;
      after = drop k rest;
      splits = e ∙ ap (◌++◌ before) (sym (take-append-drop k rest));
      blank = (all, drop_blank rest k (cut_blank rest n));
      tight =
          (tight_first rest k first, tight_last rest k (kept_le rest n) (kept_tight rest n first));
    }
