-- ===== src/Tests/Race.antt =====
-- Two logins at the same time, statement by statement.
use nex_file.Base.{
  ℕ, zero, suc, ◌≡◌, refl, true, Bytes, codes, IsStr, ◌∷◌, ◌++◌, replicate, some, arith,
}
use nex_file.Base.Io.{ok, undefined}
use nex_file.Server.Auth.{enter_home, last_or_nul}
use nex_file.Server.Auth.Steps.{path_room, put_slash, put_name, extend_alone}
use nex_file.Server.Auth.Steps.Alone.{extend_alone-entered}
use nex_file.Server.Auth.Steps.Race.{two_logins_overflow, login_lost}

-- A path that has room for one of the names and not for both.
abbrev long_path : Bytes
long_path = replicate 1000 b'a'

abbrev ann : Bytes
ann = replicate 15 b'n'

abbrev bob : Bytes
bob = replicate 15 b'b'

long_path-IsStr : IsStr long_path
long_path-IsStr = go 1000
  where
    go : (n : ℕ) → IsStr (replicate n b'a')
    go zero = tt
    go (suc n) = ((λ e. cc), go n)

extend_alone-entered_example :
    (rest' : Bytes) × (extend_alone (codes "ann") (codes "/srv" ++ 0 ∷ replicate 1019 7)
      ≡ ok true (enter_home (codes "/srv") (codes "ann") ++ 0 ∷ rest'))
extend_alone-entered_example =
    extend_alone-entered (codes "/srv") (codes "ann") (replicate 1019 7) (omega arith) refl
      (omega arith)

two_logins_overflow_example :
    (b₁ b₂ b₃ : Bytes) × (path_room ann (long_path ++ 0 ∷ replicate 23 7)
      ≡ ok (some 1000) (long_path ++ 0 ∷ replicate 23 7))
    × (path_room bob (long_path ++ 0 ∷ replicate 23 7)
        ≡ ok (some 1000) (long_path ++ 0 ∷ replicate 23 7))
    × (put_slash 1000 (long_path ++ 0 ∷ replicate 23 7) ≡ ok 1001 b₁)
    × (put_slash 1000 b₁ ≡ ok 1001 b₂)
    × (put_name ann 1001 b₂ ≡ ok tt b₃)
    × (put_name bob 1001 b₃ ≡ undefined)
unfolding last_or_nul
two_logins_overflow_example =
    two_logins_overflow long_path ann bob (replicate 23 7) long_path-IsStr (omega arith) refl refl
      (omega arith) (omega arith) (omega arith)

login_lost_example :
    (b₁ b₂ b₃ rest' : Bytes) × (path_room (codes "ann") (codes "/srv" ++ 0 ∷ replicate 1019 7)
      ≡ ok (some 4) (codes "/srv" ++ 0 ∷ replicate 1019 7))
    × (path_room (codes "bob") (codes "/srv" ++ 0 ∷ replicate 1019 7)
        ≡ ok (some 4) (codes "/srv" ++ 0 ∷ replicate 1019 7))
    × (put_slash 4 (codes "/srv" ++ 0 ∷ replicate 1019 7) ≡ ok 5 b₁)
    × (put_name (codes "ann") 5 b₁ ≡ ok tt b₂)
    × (put_slash 4 b₂ ≡ ok 5 b₃)
    × (put_name (codes "bob") 5 b₃ ≡ ok tt (codes "/srv/bob" ++ 0 ∷ rest'))
unfolding last_or_nul
login_lost_example =
    login_lost (codes "/srv") (codes "ann") (codes "bob") (replicate 1019 7) (omega arith) refl refl
      (omega arith) (omega arith)
