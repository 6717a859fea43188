-- ===== src/Client/Config/Tag.antt =====
-- A tagged value in a line of the configuration is found and trimmed.
use nex_file.Base.{
  ℕ, suc, ◌+◌, ◌<◌, ◌≤◌, ◌≡◌, ◌≢◌, refl, sym, ap, true, false, Bytes, All, [], ◌∷◌, ◌++◌,
  append_assoc, length, length-append, drop, take-length-append, drop-length-append, lt→leb, ne→==,
  eq→==, if◌then◌else◌, some, arith,
}
use nex_file.Client.Config.{trim, starts_with, strstr, open_tag, close_tag, extract_xml_tag_value}

-- A text with no `<`
abbrev pub IsPlain : Bytes → Type 0
IsPlain = All (λ c. c ≢ b'<')

starts_with-append : (n rest : Bytes) → starts_with n (n ++ rest) ≡ true
unfolding starts_with
starts_with-append [] rest = refl
starts_with-append (c ∷ n) rest = rw (eq→== c c refl) (starts_with-append n rest)

other_first : (c : ℕ) (n w : Bytes) → c ≢ b'<' → starts_with (b'<' ∷ n) (c ∷ w) ≡ false
unfolding starts_with
other_first c n w ne = rw (ne→== b'<' c (λ e. ne (sym e))) refl

-- Behind a text without `<`, the first match of a tag is the tag itself.
strstr-append :
    (plain n rest : Bytes)
    → IsPlain plain
    → strstr (plain ++ (b'<' ∷ (n ++ rest))) (b'<' ∷ n) ≡ some (length plain)
unfolding strstr
strstr-append [] n rest h = rw (starts_with-append (b'<' ∷ n) rest) refl
strstr-append (c ∷ plain) n rest h = rw (strstr-append plain n rest h.1) (
    ap (λ b. if b then some 0 else some (suc (length plain)))
      (other_first c n (plain ++ (b'<' ∷ (n ++ rest))) h.0))

drop-behind : (a b rest : Bytes) → drop (length a + length b) (a ++ (b ++ rest)) ≡ rest
drop-behind a b rest =
    rw (← length-append a b, ← append_assoc a b rest) (drop-length-append (a ++ b) rest)

-- A value between its tags, the first tags of the line, is what extractXmlTagValue finds, without
-- the white space at its ends: for a name of at most 60 bytes, and a value that is not empty and
-- fits the buffer, with no `<` in the value or in front of the tag.
pub extract-tagged :
    (before tag value after : Bytes) (out_size : ℕ)
    → length tag ≤ 60
    → IsPlain before
    → IsPlain value
    → 0 < length value
    → length value < out_size
    → extract_xml_tag_value
        (before ++ (open_tag tag ++ (value ++ (close_tag tag ++ after))))
        tag
        out_size
      ≡ some (trim value)
unfolding extract_xml_tag_value
extract-tagged before tag value after out_size short pb pv filled fits =
    let name = tag ++ b'>' ∷ [] in
    let close = b'/' ∷ name in
    let start = value ++ (close_tag tag ++ after) in
    let opened = strstr-append before name start pb in
    let closed = strstr-append value close after pv in
    let size = length-append tag (b'>' ∷ []) in
    rw
      (
        ne→== out_size 0 (omega arith),
        lt→leb 64 (length (open_tag tag)) (omega (arith, size)),
        lt→leb 64 (length (close_tag tag)) (omega (arith, size)),
        opened,
        drop-behind before (open_tag tag) start,
        closed,
        ne→== (length value) 0 (omega arith),
        lt→leb out_size (length value) fits,
        take-length-append value (close_tag tag ++ after),
      )
      refl
