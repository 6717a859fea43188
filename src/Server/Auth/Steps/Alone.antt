-- ===== src/Server/Auth/Steps/Alone.antt =====
-- The statements of one worker alone make the path that the model of UserAuthen has.
use nex_file.Base.{
  ℕ, suc, ◌+◌, ◌-◌, ◌≤◌, ◌<◌, ◌≡◌, refl, sym, ◌∙◌, ap, Bool-cases, inl, inr, true, false, not, ◌||◌,
  Bytes, c_str-append, IsStr, [], ◌∷◌, ◌++◌, append_assoc, length, length-append, length-drop, Bool,
  drop, take_all, take-length-append, drop-length-append, overwrite, leb, le→leb, lt→leb, ◌==◌,
  some, arith,
}
use nex_file.Base.Io.{ok, undefined}
use nex_file.Server.Auth.{max_path_len, enter_home, slashed, last_or_nul}
use nex_file.Server.Auth.Steps.{put_at, str_len, path_room, put_slash, put_name, extend_alone}

-- A write behind a prefix.
pub put_at-append :
    (p bs w : Bytes)
    → length bs ≤ length w
    → put_at (length p) bs (p ++ w) ≡ ok tt (p ++ overwrite bs w)
unfolding put_at
put_at-append p bs w short =
    let fits : leb (length p + length bs) (length (p ++ w)) ≡ true =
      le→leb (length p + length bs) (length (p ++ w)) (omega (arith, length-append p w)) in
    rw (fits, take-length-append p w, drop-length-append p w) refl

pub put_at-past :
    (p bs w : Bytes) → length w < length bs → put_at (length p) bs (p ++ w) ≡ undefined
unfolding put_at
put_at-past p bs w long =
    rw (lt→leb (length p + length bs) (length (p ++ w)) (omega (arith, length-append p w))) refl

pub str_len-append :
    (p rest : Bytes) → IsStr p → str_len (p ++ 0 ∷ rest) ≡ ok (length p) (p ++ 0 ∷ rest)
unfolding str_len
str_len-append p rest str =
    let ended : leb (length (p ++ 0 ∷ rest)) (length p) ≡ false =
      lt→leb (length (p ++ 0 ∷ rest)) (length p) (omega (arith, length-append p (0 ∷ rest))) in
    rw (c_str-append p rest str, ended) refl

pub path_room-some :
    (p u rest : Bytes)
    → IsStr p
    → length p + 1 + length u < max_path_len
    → path_room u (p ++ 0 ∷ rest) ≡ ok (some (length p)) (p ++ 0 ∷ rest)
unfolding path_room
path_room-some p u rest str fits =
    rw (str_len-append p rest str, lt→leb max_path_len (length p + 1 + length u) fits) refl

-- strncat of a name that the count does not cut, behind a string with room for it.
pub put_name-append :
    (q u r : Bytes) (m : ℕ)
    → IsStr q
    → length u ≤ max_path_len - m - 1
    → length u ≤ length r
    → put_name u m (q ++ 0 ∷ r) ≡ ok tt ((q ++ u) ++ 0 ∷ drop (length u) r)
unfolding put_name
put_name-append q u r m str uncut short =
    let size : length (u ++ 0 ∷ []) ≡ suc (length u) = omega (arith, length-append u (0 ∷ [])) in
    let place : q ++ overwrite (u ++ 0 ∷ []) (0 ∷ r) ≡ (q ++ u) ++ 0 ∷ drop (length u) r =
      rw size (simp append_assoc) in
    rw (str_len-append q r str, take_all (max_path_len - m - 1) u uncut)
      (put_at-append q (u ++ 0 ∷ []) (0 ∷ r) (omega (arith, size)) ∙ ap (ok tt) place)

-- No slash at the end of the string.
abbrev pub open_end : Bytes → Bool
open_end p = length p == 0 || not (last_or_nul p == b'/')

pub put_slash-adds :
    (p w : Bytes)
    → open_end p ≡ true
    → 2 ≤ length w
    → put_slash (length p) (p ++ w) ≡ ok (length p + 1) (p ++ overwrite (b'/' ∷ 0 ∷ []) w)
unfolding put_slash
put_slash-adds p w opens room =
    rw (take-length-append p w, opens, put_at-append p (b'/' ∷ 0 ∷ []) w room) refl

put_slash-keeps :
    (p w : Bytes) → open_end p ≡ false → put_slash (length p) (p ++ w) ≡ ok (length p) (p ++ w)
unfolding put_slash
put_slash-keeps p w shut = rw (take-length-append p w, shut) refl

pub IsStr-append : (p q : Bytes) → IsStr p → IsStr q → IsStr (p ++ q)
IsStr-append [] q h k = k
IsStr-append (c ∷ p) q h k = (h.0, IsStr-append p q h.1 k)

-- enter_home of a name that fits
entered :
    (p u q : Bytes) → slashed p ≡ q → length q + length u < max_path_len → enter_home p u ≡ q ++ u
unfolding enter_home
entered p u q e fits =
    rw e (ap (λ x. q ++ x) (take_all (max_path_len - length q - 1) u (omega arith)))

-- For a string in the buffer and a name, both without a NUL, that have room together: the three
-- statements of one worker alone leave in the buffer the string with the home of the name behind
-- it, as the model of UserAuthen has it, and write only inside the 1024 bytes.
pub extend_alone-entered :
    (p u rest : Bytes)
    → IsStr p
    → length (p ++ 0 ∷ rest) ≡ max_path_len
    → length p + 1 + length u < max_path_len
    → (rest' : Bytes) × (extend_alone u (p ++ 0 ∷ rest) ≡ ok true (enter_home p u ++ 0 ∷ rest'))
unfolding extend_alone slashed
extend_alone-entered p u rest str whole fits =
    let size = length-append p (0 ∷ rest) in
    let room = path_room-some p u rest str fits in
    elim (Bool-cases (open_end p)) [
      | inl opens ↦
          let q = p ++ b'/' ∷ [] in
          let r = drop 1 rest in
          let longer = length-append p (b'/' ∷ []) in
          let slash = put_slash-adds p (0 ∷ rest) opens (omega arith) in
          let place : p ++ b'/' ∷ 0 ∷ r ≡ q ++ 0 ∷ r = simp append_assoc in
          let name =
            put_name-append q u r (length p + 1) (IsStr-append p (b'/' ∷ []) str ((λ e. cc), tt))
              (omega arith) (omega (arith, length-drop 1 rest)) in
          (
            drop (length u) r,
            rw (room, slash, place, name)
                (ap (λ x. ok true (x ++ 0 ∷ drop (length u) r))
                  (sym (entered p u q (rw opens refl) (omega (arith, longer))))),
          )
      | inr shut ↦
          let name = put_name-append p u rest (length p) str (omega arith) (omega arith) in
          (
            drop (length u) rest,
            rw (room, put_slash-keeps p (0 ∷ rest) shut, name)
                (ap (λ x. ok true (x ++ 0 ∷ drop (length u) rest))
                  (sym (entered p u p (rw shut refl) (omega arith)))),
          )
    ]
