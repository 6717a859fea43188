-- ===== src/Server/FilePath/Stack.antt =====
-- filePath.c against a stack of directory names, the innermost first.
use nex_file.Base.{
  byte_at, ℕ, suc, ◌<◌, ◌≡◌, ◌≢◌, refl, pos, true, false, Bytes, List, [], ◌∷◌, ◌++◌, length,
  length-append, take, take-length-append, replicate, append_assoc, ◌==◌, ne→==, if◌then◌else◌,
  some, All, arith,
}
use nex_file.Server.FilePath.{FilePath, slash, is_root, push, pop}
use nex_file.Server.FilePath.Names.{
  IsName, length_pos, byte_at-append_left, first_byte, is_empty-append, skip_slashes-replicate,
  skip_slashes-IsName, trim_len-IsName, last_slash-append,
}

-- The path without the root's own slash.
abbrev pub stem : List Bytes → Bytes
stem [] = []
stem (n ∷ ns) = stem ns ++ slash ∷ n

abbrev pub path_of : List Bytes → Bytes
path_of [] = slash ∷ []
path_of (n ∷ ns) = stem (n ∷ ns)

-- The state that stands for a stack.
abbrev pub file_path : List Bytes → FilePath
file_path ns = record { path = some (path_of ns); top = suc (length ns) }

is_root_cons : (n : Bytes) (ns : List Bytes) → IsName n → is_root (path_of (n ∷ ns)) ≡ false
unfolding is_root
is_root_cons n ns h =
    let whole = length-append (stem ns) (slash ∷ n) in
    let p = length_pos n h in rw (ne→== (length (path_of (n ∷ ns))) 1 (omega arith))

join :
    (ns : List Bytes) (n : Bytes)
    → All IsName ns
    → path_of ns ++ (if is_root (path_of ns) then [] else slash ∷ []) ++ n ≡ path_of (n ∷ ns)
join [] n h = unfold is_root byte_at in refl
join (m ∷ ns) n h = rw (is_root_cons m ns h.0) (append_assoc (path_of (m ∷ ns)) (slash ∷ []) n)

pos_ne : (n : ℕ) → 0 < n → n ≢ 0
pos_ne n h = omega arith

-- `dirName` with any slashes around the name.
abbrev pub padded : ℕ → Bytes → ℕ → Bytes
padded j n k = replicate j slash ++ (n ++ replicate k slash)

pub push_name :
    (ns : List Bytes) (n : Bytes) (j k : ℕ)
    → All IsName ns
    → IsName n
    → push true (file_path ns) (some (padded j n k)) ≡ (file_path (n ∷ ns), pos 0)
unfolding push
push_name ns n j k hs h =
    rw
      (
        skip_slashes-replicate j (n ++ replicate k slash),
        skip_slashes-IsName n (replicate k slash) h,
        trim_len-IsName n k h,
        take-length-append n (replicate k slash),
        join ns n hs,
        is_empty-append n (replicate k slash) h,
        ne→== (length n) 0 (pos_ne (length n) (length_pos n h)),
      )
      (ground arith)

-- The byte behind the first slash belongs to a name.
second_byte :
    (ns : List Bytes) (n : Bytes) → All IsName ns → IsName n → byte_at (path_of (n ∷ ns)) 1 ≢ 0
second_byte [] n hs h = unfold byte_at in first_byte n h
second_byte (m ∷ ns) n hs h =
    let whole = length-append (stem ns) (slash ∷ m) in
    let p = length_pos m hs.0 in
    rw (byte_at-append_left (stem (m ∷ ns)) (slash ∷ n) 1 (omega arith))
      (second_byte ns m hs.1 hs.0)

shorten :
    (ns : List Bytes) (n : Bytes)
    → (if length (stem ns) == 0
        then take 1 (path_of (n ∷ ns))
        else take (length (stem ns)) (path_of (n ∷ ns)))
      ≡ path_of ns
shorten [] n = refl
shorten (m ∷ ns) n =
    let whole = length-append (stem ns) (slash ∷ m) in
    rw (ne→== (length (stem (m ∷ ns))) 0 (omega arith))
      (take-length-append (stem (m ∷ ns)) (slash ∷ n))

pub pop_top :
    (ns : List Bytes) (n : Bytes) (t : ℕ)
    → All IsName ns
    → IsName n
    → pop (record { path = some (path_of (n ∷ ns)); top = suc (suc t) })
      ≡ (record { path = some (path_of ns); top = suc t }, pos 0)
unfolding pop
pop_top ns n t hs h =
    rw
      (
        last_slash-append (stem ns) n h.plain,
        ne→== (byte_at (path_of (n ∷ ns)) 1) 0 (second_byte ns n hs h),
        shorten ns n,
      )
      (ground arith)

pub pop_name :
    (ns : List Bytes) (n : Bytes)
    → All IsName ns
    → IsName n
    → pop (file_path (n ∷ ns)) ≡ (file_path ns, pos 0)
pop_name ns n = pop_top ns n (length ns)
