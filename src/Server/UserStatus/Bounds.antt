-- ===== src/Server/UserStatus/Bounds.antt =====
-- The strings of a user's status fit their arrays.
use nex_file.Base.{
  ℕ, zero, suc, ◌≤◌, ◌≡◌, refl, ◌∙◌, ap, pos, Bytes, codes, c_str, c_str-append, c_str-IsStr, IsStr,
  [], ◌∷◌, ◌++◌, append_assoc, length, length-append, length-take, length-replicate,
  length-overwrite, take, replicate, some, arith,
}
use nex_file.Server.UserStatus.{UserStatus, home_of, set_status, init_user_status}

IsStr-append : (s t : Bytes) → IsStr s → IsStr t → IsStr (s ++ t)
IsStr-append [] t h k = k
IsStr-append (c ∷ s) t h k = (h.0, IsStr-append s t h.1 k)

take-IsStr : (n : ℕ) (s : Bytes) → IsStr s → IsStr (take n s)
take-IsStr zero s h = tt
take-IsStr (suc n) [] h = tt
take-IsStr (suc n) (c ∷ s) h = (h.0, take-IsStr n s h.1)

padded :
    (n m : ℕ) (s rest : Bytes)
    → n ≤ m
    → IsStr s
    → c_str (take n (s ++ replicate m 0) ++ 0 ∷ rest) ≡ take n s
unfolding c_str
padded zero m s rest h str = refl
padded (suc n) zero s rest h str = absurd (omega arith)
padded (suc n) (suc m) [] rest h str = refl
padded (suc n) (suc m) (c ∷ s) rest h str =
    ground (arith, padded n (suc m) s rest (omega arith) str.1)

home_of-IsStr : (name : Bytes) → IsStr name → IsStr (home_of name)
unfolding c_str
home_of-IsStr name h =
    IsStr-append (codes "/home/dingjr/DevCode/NexFile/tmp/netDisk/") (name ++ b'/' ∷ [])
      (c_str-IsStr (codes "/home/dingjr/DevCode/NexFile/tmp/netDisk/"))
      (IsStr-append name (b'/' ∷ []) h (λ e. cc, tt))

-- The arrays keep their sizes, and hold the name and the directory, cut to what fits.
pub record IsStatus (name : Bytes) (status : UserStatus) : Type 0 where
  pub username_size : length status.username ≡ 32
  pub current_dir_size : length status.current_dir ≡ 256
  pub username : c_str status.username ≡ take 31 name
  pub current_dir : c_str status.current_dir ≡ take 255 (home_of name)

-- initUserStatus stays inside both arrays, for every name, and leaves strings in them: the first 31
-- bytes of the name, and the first 255 bytes of the user's directory.
pub init_user_status-IsStatus :
    (status : UserStatus) (name : Bytes)
    → length status.current_dir ≡ 256
    → IsStr name
    → (after : UserStatus) × (init_user_status (some status) (some name) ≡ (some after, pos 0))
      × IsStatus name after
unfolding init_user_status
init_user_status-IsStatus status name size str =
    let dir = take 255 (home_of name) in
    let zeros = length-replicate {A = ℕ} 31 0 in
    let name_size = length-append name (replicate 31 0) in
    let cut = length-take 31 (name ++ replicate 31 0) in
    let whole = length-append (take 31 (name ++ replicate 31 0)) (0 ∷ []) in
    let dir_size = length-append dir (0 ∷ []) in
    let dir_cut = length-take 255 (home_of name) in
    (
      set_status status name,
      refl,
      record {
        username_size = omega (arith, zeros, name_size, cut, whole);
        current_dir_size =
            length-overwrite (dir ++ 0 ∷ []) status.current_dir (omega (arith, dir_size, dir_cut))
            ∙ size;
        username = padded 31 31 name [] (omega arith) str;
        current_dir =
            ap c_str (append_assoc dir (0 ∷ []) _)
            ∙ c_str-append dir _ (take-IsStr 255 (home_of name) (home_of-IsStr name str));
      },
    )
