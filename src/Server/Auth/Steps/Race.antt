-- ===== src/Server/Auth/Steps/Race.antt =====
-- Two workers whose statements on `clientPath` mix.
use nex_file.Base.{
  ℕ, ◌+◌, ◌-◌, ◌≤◌, ◌<◌, ◌≡◌, ◌∙◌, ap, true, Bytes, IsStr, [], ◌∷◌, ◌++◌, append_assoc, length,
  length-append, length-drop, drop, take_all, some, arith,
}
use nex_file.Base.Io.{ok, undefined}
use nex_file.Server.Auth.{max_path_len}
use nex_file.Server.Auth.Steps.{path_room, put_slash, put_name}
use nex_file.Server.Auth.Steps.Alone.{
  put_at-past, str_len-append, path_room-some, put_name-append, open_end, put_slash-adds,
  IsStr-append,
}

put_name-past :
    (q v r : Bytes) (m : ℕ)
    → IsStr q
    → length v ≤ max_path_len - m - 1
    → length r < length v
    → put_name v m (q ++ 0 ∷ r) ≡ undefined
unfolding put_name
put_name-past q v r m str uncut long =
    rw (str_len-append q r str, take_all (max_path_len - m - 1) v uncut)
      (put_at-past q (v ++ 0 ∷ []) (0 ∷ r) (omega (arith, length-append v (0 ∷ []))))

-- Two workers log in users at the same time: each name fits behind the path, a string without a
-- slash at its end, but the two names do not fit together. If both test the room before either
-- writes, and both write their slash before either writes its name, then the first name still fits
-- and the second is written past the end of clientPath.
pub two_logins_overflow :
    (p u v rest : Bytes)
    → IsStr p
    → IsStr u
    → open_end p ≡ true
    → length (p ++ 0 ∷ rest) ≡ max_path_len
    → length p + 1 + length u < max_path_len
    → length p + 1 + length v < max_path_len
    → max_path_len ≤ length p + 1 + length u + length v
    → (b₁ b₂ b₃ : Bytes) × (path_room u (p ++ 0 ∷ rest) ≡ ok (some (length p)) (p ++ 0 ∷ rest))
      × (path_room v (p ++ 0 ∷ rest) ≡ ok (some (length p)) (p ++ 0 ∷ rest))
      × (put_slash (length p) (p ++ 0 ∷ rest) ≡ ok (length p + 1) b₁)
      × (put_slash (length p) b₁ ≡ ok (length p + 1) b₂)
      × (put_name u (length p + 1) b₂ ≡ ok tt b₃)
      × (put_name v (length p + 1) b₃ ≡ undefined)
two_logins_overflow p u v rest str str_u opens whole room_u room_v full =
    let q = p ++ b'/' ∷ [] in
    let r = drop 1 rest in
    let b₁ = p ++ b'/' ∷ 0 ∷ r in
    let size = length-append p (0 ∷ rest) in
    let left = length-drop 1 rest in
    let left_u = length-drop (length u) r in
    let place : b₁ ≡ q ++ 0 ∷ r = simp append_assoc in
    let str_q = IsStr-append p (b'/' ∷ []) str ((λ e. cc), tt) in
    (
      b₁,
      b₁,
      (q ++ u) ++ 0 ∷ drop (length u) r,
      path_room-some p u rest str room_u,
      path_room-some p v rest str room_v,
      put_slash-adds p (0 ∷ rest) opens (omega arith),
      put_slash-adds p (b'/' ∷ 0 ∷ r) opens (omega arith),
      ap (put_name u (length p + 1)) place
          ∙ put_name-append q u r (length p + 1) str_q (omega arith) (omega (arith, left)),
      put_name-past (q ++ u) v (drop (length u) r) (length p + 1) (IsStr-append q u str_q str_u)
          (omega arith) (omega (arith, left, left_u)),
    )

-- Two workers log in users at the same time: both names fit behind the path, a string without a
-- slash at its end. If both test the room before either writes, and one then writes its slash and
-- name before the other does, then the first user's home is lost: the path is the one at the start
-- with the second user's name alone behind it.
pub login_lost :
    (p u v rest : Bytes)
    → IsStr p
    → open_end p ≡ true
    → length (p ++ 0 ∷ rest) ≡ max_path_len
    → length p + 1 + length u < max_path_len
    → length p + 1 + length v < max_path_len
    → (b₁ b₂ b₃ rest' : Bytes) × (path_room u (p ++ 0 ∷ rest)
        ≡ ok (some (length p)) (p ++ 0 ∷ rest))
      × (path_room v (p ++ 0 ∷ rest) ≡ ok (some (length p)) (p ++ 0 ∷ rest))
      × (put_slash (length p) (p ++ 0 ∷ rest) ≡ ok (length p + 1) b₁)
      × (put_name u (length p + 1) b₁ ≡ ok tt b₂)
      × (put_slash (length p) b₂ ≡ ok (length p + 1) b₃)
      × (put_name v (length p + 1) b₃ ≡ ok tt ((p ++ b'/' ∷ v) ++ 0 ∷ rest'))
login_lost p u v rest str opens whole room_u room_v =
    let q = p ++ b'/' ∷ [] in
    let r = drop 1 rest in
    let r₂ = drop (length u) r in
    let r₃ = drop 1 (u ++ 0 ∷ r₂) in
    let size = length-append p (0 ∷ rest) in
    let left = length-drop 1 rest in
    let left_u = length-drop (length u) r in
    let over = length-append u (0 ∷ r₂) in
    let left₃ = length-drop 1 (u ++ 0 ∷ r₂) in
    let place : p ++ b'/' ∷ 0 ∷ r ≡ q ++ 0 ∷ r = simp append_assoc in
    let place₂ : (q ++ u) ++ 0 ∷ r₂ ≡ p ++ (b'/' ∷ (u ++ 0 ∷ r₂)) = simp append_assoc in
    let place₃ : p ++ b'/' ∷ 0 ∷ r₃ ≡ q ++ 0 ∷ r₃ = simp append_assoc in
    let whole_v : q ++ v ≡ p ++ b'/' ∷ v = simp append_assoc in
    let str_q = IsStr-append p (b'/' ∷ []) str ((λ e. cc), tt) in
    (
      p ++ b'/' ∷ 0 ∷ r,
      p ++ (b'/' ∷ (u ++ 0 ∷ r₂)),
      p ++ b'/' ∷ 0 ∷ r₃,
      drop (length v) r₃,
      path_room-some p u rest str room_u,
      path_room-some p v rest str room_v,
      put_slash-adds p (0 ∷ rest) opens (omega arith),
      ap (put_name u (length p + 1)) place
          ∙ put_name-append q u r (length p + 1) str_q (omega arith) (omega (arith, left))
          ∙ ap (ok tt) place₂,
      put_slash-adds p (b'/' ∷ (u ++ 0 ∷ r₂)) opens (omega (arith, over)),
      ap (put_name v (length p + 1)) place₃
          ∙ put_name-append q v r₃ (length p + 1) str_q (omega arith)
              (omega (arith, left, left_u, over, left₃))
          ∙ ap (λ x. ok tt (x ++ 0 ∷ drop (length v) r₃)) whole_v,
    )
