-- ===== src/Server/FilePath/Refine.antt =====
-- Runs of calls of filePath.c refine a stack of names; failures; a name with a slash inside.
use nex_file.Base.{
  byte_at, ℕ, ◌≡◌, refl, sym, ◌∙◌, ap, ℤ, pos, minus_one, Bool, true, false, Option-cases,
  append-nil, ne→==, take-length, inl, inr, Bytes, List, [], ◌∷◌, ◌++◌, length, length-append,
  replicate, Option, none, some, All, arith,
}
use nex_file.Server.FilePath.{FilePath, slash, push, pop, skip_slashes, is_root}
use nex_file.Server.FilePath.Names.{
  IsName, skip_slashes-replicate, skip_slashes-IsName, is_empty-append, trim_len-nested,
}
use nex_file.Server.FilePath.Stack.{file_path, path_of, padded, push_name, pop_name, pop_top}

-- A call: pushFilePath with its `malloc`, and a name between slashes; or popFilePath.
pub data Call : Type 0 where
  enter : (alloc : Bool) (before : ℕ) (name : Bytes) (behind : ℕ) → Call
  leave : Call

-- The calls on the string.
unfoldable pub run : List Call → FilePath → FilePath × List ℤ
run [] fp = (fp, [])
run (enter alloc j n k ∷ cs) fp =
    let (fp', ret) = push alloc fp (some (padded j n k)) in
    let (last, rets) = run cs fp' in (last, ret ∷ rets)
run (leave ∷ cs) fp = let (fp', ret) = pop fp in let (last, rets) = run cs fp' in (last, ret ∷ rets)

-- The same calls on a stack of names: at the root, `leave` is refused.
unfoldable pub walk : List Call → List Bytes → List Bytes × List ℤ
walk [] ns = (ns, [])
walk (enter true j n k ∷ cs) ns = let (last, rets) = walk cs (n ∷ ns) in (last, pos 0 ∷ rets)
walk (enter false j n k ∷ cs) ns = let (last, rets) = walk cs ns in (last, minus_one ∷ rets)
walk (leave ∷ cs) [] = let (last, rets) = walk cs [] in (last, minus_one ∷ rets)
walk (leave ∷ cs) (n ∷ ns) = let (last, rets) = walk cs ns in (last, pos 0 ∷ rets)

-- Every name that is entered is the name of one directory.
abbrev pub IsCall : Call → Type 0
IsCall (enter _ _ n _) = IsName n
IsCall leave = Unit

pub push_no_memory : (fp : FilePath) (dir : Option Bytes) → push false fp dir ≡ (fp, minus_one)
unfolding push
push_no_memory fp none = elim (Option-cases fp.path) [ inl e ↦ rw e | inr (p, e) ↦ rw e ]
push_no_memory fp (some d) = elim (Option-cases fp.path) [
  | inl e ↦ rw e
  | inr (p, e) ↦ rw e (ground arith)
]

pop_root : pop (file_path []) ≡ (file_path [], minus_one)
unfolding pop byte_at
pop_root = refl

-- Any run of calls on the string, from the state of a stack of names, ends in the state of the
-- stack that the same calls reach, with the same results.
pub run-walk :
    (cs : List Call) (ns : List Bytes)
    → All IsName ns
    → All IsCall cs
    → run cs (file_path ns) ≡ (file_path (walk cs ns).0, (walk cs ns).1)
unfolding run walk
run-walk [] ns hs ok_calls = refl
run-walk (enter true j n k ∷ cs) ns hs ok_calls =
    rw (push_name ns n j k hs ok_calls.0, run-walk cs (n ∷ ns) (ok_calls.0, hs) ok_calls.1)
run-walk (enter false j n k ∷ cs) ns hs ok_calls =
    rw (push_no_memory (file_path ns) (some (padded j n k)), run-walk cs ns hs ok_calls.1)
run-walk (leave ∷ cs) [] hs ok_calls = rw (pop_root, run-walk cs [] tt ok_calls.1)
run-walk (leave ∷ cs) (n ∷ ns) hs ok_calls =
    rw (pop_name ns n hs.1 hs.0, run-walk cs ns hs.1 ok_calls.1)

-- pushFilePath refuses a name of slashes only, and changes nothing.
push_slashes :
    (alloc : Bool) (fp : FilePath) (k : ℕ)
    → push alloc fp (some (replicate k slash)) ≡ (fp, minus_one)
unfolding push
push_slashes alloc fp k =
    let e : skip_slashes (replicate k slash) ≡ [] =
      ap skip_slashes (sym (append-nil (replicate k slash)))
      ∙ skip_slashes-replicate k []
      ∙ unfold skip_slashes in refl in
    elim (Option-cases fp.path) [ inl o ↦ rw o | inr (p, o) ↦ rw (o, e) ]

-- The path `a/b` of two names, pushed at the root as one name.
push_nested :
    (a b : Bytes)
    → IsName a
    → IsName b
    → (push true (file_path []) (some (a ++ slash ∷ b))).0
      ≡ record { path = some (path_of (b ∷ a ∷ [])); top = 2 }
unfolding push
push_nested a b ha hb =
    let total = length-append a (slash ∷ b) in
    rw
      (
        skip_slashes-IsName a (slash ∷ b) ha,
        trim_len-nested a b hb,
        is_empty-append a (slash ∷ b) ha,
        take-length (a ++ slash ∷ b),
        ne→== (length (a ++ slash ∷ b)) 0 (omega arith),
      )
      (unfold byte_at is_root in refl)

-- Two names entered as `a/b` count as one level: after one popFilePath the path is `/a` and the
-- second one is refused, although the root is not reached.
pub nested_name_sticks :
    (a b : Bytes)
    → IsName a
    → IsName b
    → pop (pop (push true (file_path []) (some (a ++ slash ∷ b))).0).0
      ≡ (record { path = some (path_of (a ∷ [])); top = 1 }, minus_one)
nested_name_sticks a b ha hb =
    rw (push_nested a b ha hb, pop_top (a ∷ []) b 0 (ha, tt) hb) (unfold pop in refl)
