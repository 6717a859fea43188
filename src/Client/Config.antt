-- ===== src/Client/Config.antt =====
-- trimWhitespace and extractXmlTagValue of NexFile/client/config.c, on pointers that are not null.
pub mod Trim
pub mod Tag
pub mod Read
use nex_file.Base.{
  ℕ, zero, suc, ◌+◌, ◌-◌, min, Bool, true, false, ◌&&◌, ◌||◌, Bytes, byte_at, List, [], ◌∷◌, ◌++◌,
  length, take, drop, leb, ◌==◌, if◌then◌else◌, Option, none, some,
}

-- `isspace` of the C locale: space, and the bytes from `\t` to `\r`
unfoldable pub is_space : ℕ → Bool
is_space c = c == 32 || leb 9 c && leb c 13

-- `while (*start && isspace(*start)) ++start`
unfoldable pub skip_spaces : Bytes → Bytes
skip_spaces [] = []
skip_spaces (c ∷ cs) = let rest = skip_spaces cs in if is_space c then rest else c ∷ cs

-- `while (len > 0 && isspace(s[len - 1])) --len`
unfoldable pub kept_len : Bytes → ℕ → ℕ
kept_len s zero = zero
kept_len s (suc n) = let less = kept_len s n in if is_space (byte_at s n) then less else suc n

-- trimWhitespace: the string that it leaves in the buffer
unfoldable pub trim : Bytes → Bytes
trim s = let rest = skip_spaces s in take (kept_len rest (length rest)) rest

unfoldable pub starts_with : (needle hay : Bytes) → Bool
starts_with [] hay = true
starts_with (n ∷ needle) [] = false
starts_with (n ∷ needle) (c ∷ hay) = n == c && starts_with needle hay

-- `strstr`, as the index of the first match
unfoldable pub strstr : (hay needle : Bytes) → Option ℕ
strstr [] needle = if starts_with needle [] then some 0 else none
strstr (c ∷ hay) needle =
    let later = strstr hay needle in
    if starts_with needle (c ∷ hay)
    then some 0
    else elim later [ none ↦ none | some i ↦ some (suc i) ]

abbrev pub open_tag : Bytes → Bytes
open_tag tag = b'<' ∷ (tag ++ b'>' ∷ [])

abbrev pub close_tag : Bytes → Bytes
close_tag tag = b'<' ∷ b'/' ∷ (tag ++ b'>' ∷ [])

-- The value in front of the closing tag at index `end`, in a buffer of `out_size` bytes.
value_before : Bytes → (out_size : ℕ) → Option ℕ → Option Bytes
value_before start out_size none = none
value_before start out_size (some end) =
    if end == 0
    then none
    else some (trim (take (if leb out_size end then out_size - 1 else end) start))

value_behind : (line tag : Bytes) → (out_size : ℕ) → Option ℕ → Option Bytes
value_behind line tag out_size none = none
value_behind line tag out_size (some i) =
    let start = drop (i + length (open_tag tag)) line in
    value_before start out_size (strstr start (close_tag tag))

-- extractXmlTagValue: the string in `out` when it returns 1, `none` when it returns 0. Each tag is
-- written to a buffer of 64 bytes.
unfoldable pub extract_xml_tag_value : (line tag : Bytes) → (out_size : ℕ) → Option Bytes
unfolding value_before value_behind
extract_xml_tag_value line tag out_size =
    if out_size == 0
    then none
    else if leb 64 (length (open_tag tag)) || leb 64 (length (close_tag tag))
    then none
    else value_behind line tag out_size (strstr line (open_tag tag))
