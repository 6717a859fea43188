-- ===== src/Server/FilePath.antt =====
-- NexFile/server/filePath.c: the path of the current directory as a string, with a depth `top_`.
-- Each `malloc` is a Boolean argument, true when it succeeds. `none` is a null pointer.
pub mod Names
pub mod Refine
pub mod Stack
use nex_file.Base.{
  ℕ, zero, suc, ◌+◌, ◌-◌, ℤ, pos, minus_one, Bool, true, false, not, ◌&&◌, ◌||◌, Bytes, byte_at, [],
  ◌∷◌, ◌++◌, length, take, leb, ◌==◌, if◌then◌else◌, Option, none, some,
}

-- `FilePath_t`. The depth starts at 1 and is lowered only above 1.
pub record FilePath : Type 0 where
  pub path : Option Bytes
  pub top : ℕ

abbrev pub slash : ℕ
slash = b'/'

-- initFilePath
unfoldable pub init_file_path : (first second : Bool) → Option FilePath
init_file_path first second =
    if first
    then (if second then some (record { path = some (slash ∷ []); top = 1 }) else none)
    else none

-- `while (*dirName == '/') ++dirName`
unfoldable pub skip_slashes : Bytes → Bytes
skip_slashes [] = []
skip_slashes (c ∷ cs) = if c == slash then skip_slashes cs else c ∷ cs

-- `while (dirLen > 0 && dirName[dirLen - 1] == '/') --dirLen`
unfoldable pub trim_len : Bytes → ℕ → ℕ
trim_len s zero = zero
trim_len s (suc n) = let less = trim_len s n in if byte_at s n == slash then less else suc n

pub is_empty : Bytes → Bool
is_empty [] = true
is_empty (_ ∷ _) = false

-- `pathLen == 1 && path_[0] == '/'`
unfoldable pub is_root : Bytes → Bool
is_root p = length p == 1 && byte_at p 0 == slash

-- pushFilePath behind the null tests: `dir` is `dirName` without its leading slashes.
push_trimmed : (alloc : Bool) → FilePath → Bytes → Bytes → FilePath × ℤ
push_trimmed alloc fp p dir =
    let dir_len = trim_len dir (length dir) in
    if is_empty dir
    then (fp, minus_one)
    else if dir_len == 0
    then (fp, minus_one)
    else if not alloc
    then (fp, minus_one)
    else (
      record {
        path = some (p ++ (if is_root p then [] else slash ∷ []) ++ take dir_len dir);
        top = fp.top + 1;
      },
      pos 0,
    )

push_on : (alloc : Bool) → FilePath → Option Bytes → Option Bytes → FilePath × ℤ
push_on alloc fp (some p) (some dir_name) = push_trimmed alloc fp p (skip_slashes dir_name)
push_on alloc fp _ _ = (fp, minus_one)

-- pushFilePath on a path that is no null pointer
unfoldable pub push : (alloc : Bool) → FilePath → Option Bytes → FilePath × ℤ
unfolding push_on push_trimmed is_empty
push alloc fp dir_name = push_on alloc fp fp.path dir_name

-- pushFilePath
unfoldable pub push_file_path :
    (alloc : Bool) → Option FilePath → Option Bytes → Option FilePath × ℤ
push_file_path alloc none dir_name = (none, minus_one)
push_file_path alloc (some fp) dir_name = let (fp', ret) = push alloc fp dir_name in (some fp', ret)

-- `strrchr(s, '/')`, as an index
unfoldable pub last_slash : Bytes → Option ℕ
last_slash [] = none
last_slash (c ∷ cs) = elim (last_slash cs) [
  | some i ↦ some (suc i)
  | none ↦ if c == slash then some 0 else none
]

cut_at : FilePath → Bytes → Option ℕ → FilePath × ℤ
cut_at fp p none = (fp, minus_one)
cut_at fp p (some i) =
    (record { path = some (if i == 0 then take 1 p else take i p); top = fp.top - 1 }, pos 0)

pop_on : FilePath → Option Bytes → FilePath × ℤ
pop_on fp none = (fp, minus_one)
pop_on fp (some p) =
    if leb fp.top 1 || byte_at p 0 == slash && byte_at p 1 == 0
    then (fp, minus_one)
    else cut_at fp p (last_slash p)

-- popFilePath on a path that is no null pointer
unfoldable pub pop : FilePath → FilePath × ℤ
unfolding pop_on cut_at
pop fp = pop_on fp fp.path

-- popFilePath
unfoldable pub pop_file_path : Option FilePath → Option FilePath × ℤ
pop_file_path none = (none, minus_one)
pop_file_path (some fp) = let (fp', ret) = pop fp in (some fp', ret)
