-- ===== src/Client/Status.antt =====
-- initClientState and updateClientState of NexFile/client/status.c.
use nex_file.Base.{
  ℤ, pos, minus_one, Bool, false, Bytes, [], ◌∷◌, ◌++◌, take, overwrite, Option, none, some,
}

-- `ClientState_t`: three arrays of 1024, 1024 and 64 bytes
pub record ClientState : Type 0 where
  pub current_dir : Bytes
  pub server_cwd : Bytes
  pub is_connected : Bool
  pub username : Bytes

-- `getcwd` into an array that holds `buf`: the path if it fits; an error leaves the array.
abbrev directory : Option Bytes → (buf : Bytes) → Bytes
directory none buf = buf
directory (some path) buf = overwrite (path ++ 0 ∷ []) buf

-- initClientState; `cwd` is what `getcwd` finds.
unfoldable pub init_client_state : (cwd : Option Bytes) → ClientState → ClientState × ℤ
init_client_state cwd state = (
  record {
    current_dir = directory cwd state.current_dir;
    server_cwd = overwrite (0 ∷ []) state.server_cwd;
    is_connected = false;
    username = overwrite (0 ∷ []) state.username;
  },
  pos 0,
)

-- updateClientState; `none` is a null pointer. `snprintf` writes at most 1023 bytes and a NUL.
unfoldable pub update_client_state :
    Option ClientState → (new_dir : Option Bytes) → Option ClientState × ℤ
update_client_state (some state) (some new_dir) = (
  some (record state { server_cwd = overwrite (take 1023 new_dir ++ 0 ∷ []) state.server_cwd }),
  pos 0,
)
update_client_state state new_dir = (state, minus_one)
