-- ===== src/Tests/Paths.antt =====
-- filePath.c on concrete names.
use nex_file.Base.{◌≡◌, refl, pos, minus_one, true, false, codes, List, [], ◌∷◌, ◌++◌, some, arith}
use nex_file.Server.FilePath.{slash, push, pop}
use nex_file.Server.FilePath.Names.{IsName}
use nex_file.Server.FilePath.Stack.{file_path, path_of}
use nex_file.Server.FilePath.Refine.{Call, enter, leave, run, walk, run-walk, nested_name_sticks}

docs-IsName : IsName (codes "docs")
docs-IsName = record { ne_nil = λ e. cc; plain = omega arith }

img-IsName : IsName (codes "img")
img-IsName = record { ne_nil = λ e. cc; plain = omega arith }

abbrev calls : List Call
calls = enter true 1 (codes "docs") 0 ∷ enter false 0 (codes "img") 2 ∷ leave ∷ leave ∷ []

calls_end : walk calls [] ≡ ([], pos 0 ∷ minus_one ∷ pos 0 ∷ minus_one ∷ [])
unfolding walk
calls_end = refl

run-walk_example : run calls (file_path []) ≡ (file_path (walk calls []).0, (walk calls []).1)
run-walk_example = run-walk calls [] tt (docs-IsName, (img-IsName, (tt, (tt, tt))))

nested_name_sticks_example :
    pop (pop (push true (file_path []) (some (codes "docs" ++ slash ∷ codes "img"))).0).0
    ≡ (record { path = some (path_of (codes "docs" ∷ [])); top = 1 }, minus_one)
nested_name_sticks_example = nested_name_sticks (codes "docs") (codes "img") docs-IsName img-IsName
