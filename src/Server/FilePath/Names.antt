-- ===== src/Server/FilePath/Names.antt =====
-- Directory names, and what the string loops of filePath.c do with one.
use nex_file.Base.{
  byte_at, ℕ, zero, suc, ◌+◌, ◌-◌, ◌<◌, ◌≤◌, ◌≡◌, ◌≢◌, refl, sym, ◌∙◌, ap, false, Bool-cases, inl,
  inr, Bytes, [], ◌∷◌, ◌++◌, length, length-append, length-replicate, replicate, append-nil, ◌==◌,
  ==→eq, eq→==, ne→==, none, some, All, arith,
}
use nex_file.Server.FilePath.{slash, skip_slashes, trim_len, last_slash, is_empty}

abbrev pub IsPlain : Bytes → Type 0
IsPlain n = All (λ c. (c ≢ slash) × (c ≢ 0)) n

-- A name of one directory: not empty, with no slash and no NUL.
pub record IsName (n : Bytes) : Type 0 where
  pub ne_nil : n ≢ []
  pub plain : IsPlain n

pub skip_slashes-replicate :
    (j : ℕ) (rest : Bytes) → skip_slashes (replicate j slash ++ rest) ≡ skip_slashes rest
unfolding skip_slashes
skip_slashes-replicate zero rest = refl
skip_slashes-replicate (suc j) rest = skip_slashes-replicate j rest

pub skip_slashes-IsName : (n rest : Bytes) → IsName n → skip_slashes (n ++ rest) ≡ n ++ rest
unfolding skip_slashes
skip_slashes-IsName [] rest h = absurd (h.ne_nil refl)
skip_slashes-IsName (c ∷ n) rest h = ground (arith, h.plain)

byte_at-append : (s t : Bytes) (j : ℕ) → byte_at (s ++ t) (length s + j) ≡ byte_at t j
unfolding byte_at
byte_at-append [] t j = ap (byte_at t) (omega arith)
byte_at-append (c ∷ s) t j =
    let e : length (c ∷ s) + j ≡ suc (length s + j) = omega arith in rw e (byte_at-append s t j)

byte_at-replicate : (k j : ℕ) → j < k → byte_at (replicate k slash) j ≡ slash
unfolding byte_at
byte_at-replicate zero j h = absurd (omega arith)
byte_at-replicate (suc k) zero h = refl
byte_at-replicate (suc k) (suc j) h = byte_at-replicate k j (omega arith)

byte_at-plain : (n rest : Bytes) (i : ℕ) → IsPlain n → i < length n → byte_at (n ++ rest) i ≢ slash
unfolding byte_at
byte_at-plain [] rest i h lt = absurd (omega arith)
byte_at-plain (c ∷ n) rest zero h lt = h.0.0
byte_at-plain (c ∷ n) rest (suc i) h lt = byte_at-plain n rest i h.1 (omega arith)

trim_len_stop :
    (s : Bytes) (m t : ℕ)
    → m ≤ t
    → 0 < m
    → ((i : ℕ) → m ≤ i → i < t → byte_at s i ≡ slash)
    → byte_at s (m - 1) ≢ slash
    → trim_len s t ≡ m
unfolding trim_len
trim_len_stop s m zero le p same stop = absurd (omega arith)
trim_len_stop s m (suc t) le p same stop = elim (Bool-cases (m == suc t)) [
  | inl e ↦
      let here : m ≡ suc t = ==→eq m (suc t) e in
      let back : m - 1 ≡ t = omega arith in
      rw (ne→== (byte_at s t) slash (rw back at stop)) (sym here)
  | inr e ↦
      let le' : m ≤ t = ground arith in
      rw (eq→== (byte_at s t) slash (same t le' (omega arith)))
        (trim_len_stop s m t le' p (λ i low high. same i low (omega arith)) stop)
]

pub length_pos : (n : Bytes) → IsName n → 0 < length n
length_pos [] h = absurd (h.ne_nil refl)
length_pos (c ∷ n) h = omega arith

pub byte_at-append_left : (s t : Bytes) (i : ℕ) → i < length s → byte_at (s ++ t) i ≡ byte_at s i
unfolding byte_at
byte_at-append_left [] t i h = absurd (omega arith)
byte_at-append_left (c ∷ s) t zero h = refl
byte_at-append_left (c ∷ s) t (suc i) h = byte_at-append_left s t i (omega arith)

pub first_byte : (n : Bytes) → IsName n → byte_at n 0 ≢ 0
unfolding byte_at
first_byte [] h = absurd (h.ne_nil refl)
first_byte (c ∷ n) h = h.plain.0.1

pub is_empty-append : (n rest : Bytes) → IsName n → is_empty (n ++ rest) ≡ false
unfolding is_empty
is_empty-append [] rest h = absurd (h.ne_nil refl)
is_empty-append (c ∷ n) rest h = refl

-- The loop that drops trailing slashes stops at the end of the name.
pub trim_len-IsName :
    (n : Bytes) (k : ℕ)
    → IsName n
    → trim_len (n ++ replicate k slash) (length (n ++ replicate k slash)) ≡ length n
trim_len-IsName n k h =
    let total = length-append n (replicate k slash) in
    let tail = length-replicate {0} k slash in
    let some_byte = length_pos n h in
    trim_len_stop (n ++ replicate k slash) (length n) (length (n ++ replicate k slash))
      (omega arith) some_byte
      (λ i low high.
        let e : i ≡ length n + (i - length n) = omega arith in
        rw e (
          byte_at-append n (replicate k slash) (i - length n)
          ∙ byte_at-replicate k (i - length n) (omega arith)))
      (byte_at-plain n (replicate k slash) (length n - 1) h.plain (omega arith))

last_byte : (b : Bytes) → IsName b → byte_at b (length b - 1) ≢ slash
last_byte b h =
    let p = length_pos b h in
    rw append-nil at (byte_at-plain b [] (length b - 1) h.plain (omega arith))

-- A path whose last byte belongs to a name is not trimmed.
pub trim_len-nested :
    (a b : Bytes)
    → IsName b
    → trim_len (a ++ slash ∷ b) (length (a ++ slash ∷ b)) ≡ length (a ++ slash ∷ b)
trim_len-nested a b h =
    let total = length-append a (slash ∷ b) in
    let p = length_pos b h in
    let e : length (a ++ slash ∷ b) - 1 ≡ length a + length b = omega arith in
    let e' : length b ≡ suc (length b - 1) = omega arith in
    trim_len_stop (a ++ slash ∷ b) (length (a ++ slash ∷ b)) (length (a ++ slash ∷ b)) (omega arith)
      (omega arith) (λ i low high. absurd (omega arith))
      (rw (e, byte_at-append a (slash ∷ b) (length b), e') (unfold byte_at in last_byte b h))

last_slash-plain : (n : Bytes) → IsPlain n → last_slash n ≡ none
unfolding last_slash
last_slash-plain [] h = refl
last_slash-plain (c ∷ n) h = rw (last_slash-plain n h.1, ne→== c slash h.0.0)

-- `strrchr` finds the slash in front of the last name.
pub last_slash-append : (p n : Bytes) → IsPlain n → last_slash (p ++ slash ∷ n) ≡ some (length p)
unfolding last_slash
last_slash-append [] n h = rw (last_slash-plain n h)
last_slash-append (c ∷ p) n h = rw (last_slash-append p n h)
