-- ===== src/Server/Auth/Path.antt =====
-- A round of UserAuthen when the global path has no room for the name.
use nex_file.Base.{◌+◌, ◌≤◌, ◌≡◌, refl, Bytes, length, le→leb}
use nex_file.Base.Io.{ok}
use nex_file.Server.State.{Server}
use nex_file.Server.Auth.{result_ok, result_io_error, answer, max_path_len, welcome}

-- Without room for the name, a right login is an I/O error without a reply.
pub answer-full :
    {F : Type 0} (u : Bytes) (s : Server F)
    → max_path_len ≤ length s.client_path + 1 + length u
    → answer u result_ok s ≡ ok result_io_error s
unfolding answer welcome
answer-full u s full = rw (le→leb max_path_len (length s.client_path + 1 + length u) full) refl
