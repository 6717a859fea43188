-- ===== src/Server/UserStatus.antt =====
-- NexFile/server/userStatus.c, which no other file of the program calls.
pub mod Bounds
use nex_file.Base.{
  ℤ, pos, minus_one, Bytes, codes, List, [], ◌∷◌, ◌++◌, take, replicate, overwrite, Option, none,
  some,
}

-- `userStatus_t`: the 32 bytes of `username`, the 256 bytes of `currentDir`
pub record UserStatus : Type 0 where
  pub username : Bytes
  pub current_dir : Bytes
  pub is_authenticated : ℤ

-- `"…/netDisk/%s/"`
abbrev pub home_of : Bytes → Bytes
home_of username = codes "/home/dingjr/DevCode/NexFile/tmp/netDisk/" ++ (username ++ b'/' ∷ [])

-- `strncpy` fills its 31 bytes up with NULs; `snprintf` writes at most 255 bytes and a NUL.
abbrev set_status : UserStatus → Bytes → UserStatus
set_status status username = record status {
  username = take 31 (username ++ replicate 31 0) ++ 0 ∷ [];
  current_dir = overwrite (take 255 (home_of username) ++ 0 ∷ []) status.current_dir;
}

-- initUserStatus: the structure afterwards, and the result; `none` is a null pointer.
unfoldable pub init_user_status : Option UserStatus → Option Bytes → Option UserStatus × ℤ
init_user_status (some status) (some username) = (some (set_status status username), pos 0)
init_user_status status username = (status, minus_one)
