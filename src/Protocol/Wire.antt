-- ===== src/Protocol/Wire.antt =====
-- How the fields of the packets lie in memory: `int` and `uint32_t` are four bytes, the lowest
-- first, and a negative `int` is in two's complement.
use nex_file.Base.{
  ℕ, ◌+◌, ◌-◌, ◌*◌, ◌/◌, ◌%◌, ◌^◌, ◌<◌, ◌≡◌, refl, ap, ◌∙◌, ℤ, pos, negsuc, Bytes, [], ◌∷◌, ◌++◌,
  length, length-append, ltb, if◌then◌else◌, arith,
}

unfoldable pub u32_bytes : ℕ → Bytes
u32_bytes n = n % 256 ∷ n / 256 % 256 ∷ n / 65536 % 256 ∷ n / 16777216 % 256 ∷ []

unfoldable pub u32_of : Bytes → ℕ
u32_of (a ∷ b ∷ c ∷ d ∷ rest) = a + b * 256 + c * 65536 + d * 16777216
u32_of _ = 0

-- The bit pattern of an `int`, and the `int` that a bit pattern is.
unfoldable pub pattern_of : ℤ → ℕ
pattern_of (pos n) = n % 2 ^ 32
pattern_of (negsuc n) = 2 ^ 32 - 1 - n % 2 ^ 32

unfoldable pub int_of : ℕ → ℤ
int_of u = if ltb u (2 ^ 31) then pos u else negsuc (2 ^ 32 - 1 - u)

unfoldable pub int_bytes : ℤ → Bytes
unfolding u32_bytes
int_bytes z = u32_bytes (pattern_of z)

unfoldable pub int_from : Bytes → ℤ
int_from bs = int_of (u32_of bs)

-- The range of an `int`.
abbrev pub IsInt : ℤ → Type 0
IsInt (pos n) = n < 2 ^ 31
IsInt (negsuc n) = n < 2 ^ 31

pub u32_of-u32_bytes : (n : ℕ) (rest : Bytes) → n < 2 ^ 32 → u32_of (u32_bytes n ++ rest) ≡ n
unfolding u32_of u32_bytes
u32_of-u32_bytes n rest h = omega arith

pub length-int_bytes : (z : ℤ) → length (int_bytes z) ≡ 4
unfolding int_bytes
length-int_bytes z = refl

pattern_of_lt : (z : ℤ) → pattern_of z < 2 ^ 32
unfolding pattern_of
pattern_of_lt (pos n) = omega arith
pattern_of_lt (negsuc n) = omega arith

int_of-pattern_of : (z : ℤ) → IsInt z → int_of (pattern_of z) ≡ z
unfolding int_of pattern_of
int_of-pattern_of (pos n) h = ground arith
int_of-pattern_of (negsuc n) h = ground arith

pub int_from-int_bytes : (z : ℤ) (rest : Bytes) → IsInt z → int_from (int_bytes z ++ rest) ≡ z
unfolding int_from int_bytes
int_from-int_bytes z rest h =
    ap int_of (u32_of-u32_bytes (pattern_of z) rest (pattern_of_lt z)) ∙ int_of-pattern_of z h

pub int_of_small : (n : ℕ) → n < 2 ^ 31 → int_of (n % 2 ^ 32) ≡ pos n
unfolding int_of
int_of_small n h = ground arith

-- What is sent of a `train_t` that carries a text: its length, and as many bytes.
abbrev pub train_bytes : Bytes → Bytes
train_bytes text = int_bytes (pos (length text)) ++ text

pub length-train_bytes : (text : Bytes) → length (train_bytes text) ≡ 4 + length text
length-train_bytes text =
    length-append (int_bytes (pos (length text))) text
    ∙ ap (λ n. n + length text) (length-int_bytes (pos (length text)))
