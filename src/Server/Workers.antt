-- ===== src/Server/Workers.antt =====
-- Workers that serve their clients at the same time: the global `clientPath` of
-- NexFile/server/clientHandle.c and the file system are shared, and each client has a connection of
-- its own. What one worker does is a call on the shared state; calls of several workers are run one
-- after the other in an explicit order. No lock keeps their statements apart: two workers inside
-- UserAuthen are in Server/Auth/Steps.
pub mod Race
use nex_file.Base.{ℕ, ℤ, Bool, Bytes, List, [], ◌∷◌, ◌==◌, if◌then◌else◌, ◌≡◌}
use nex_file.Base.Io.{Io, Run, ok, blocked, undefined, exited}
use nex_file.Net.{Conn}
use nex_file.Server.State.{Server}
use nex_file.Server.Files.{Os}
use nex_file.Server.Auth.{Shadow, user_authen}
use nex_file.Server.Session.{Memory, serve_ready}

-- `conns` has the connection of each descriptor.
pub record World (F : Type 0) : Type 0 where
  pub client_path : Bytes
  pub files : F
  pub conns : ℕ → Conn

-- What the worker of the descriptor `fd` works on.
abbrev pub view : {F : Type 0} → (fd : ℕ) → World F → Server F
view fd w = record { conn = w.conns fd; client_path = w.client_path; files = w.files }

abbrev pub update : (fd : ℕ) → Conn → (ℕ → Conn) → ℕ → Conn
update fd c conns i = if i == fd then c else conns i

abbrev pub put_back : {F : Type 0} → (fd : ℕ) → World F → Server F → World F
put_back fd w s = record {
  client_path = s.client_path;
  files = s.files;
  conns = update fd s.conn w.conns;
}

abbrev pub with_worker : {F A : Type 0} → (fd : ℕ) → World F → Run (Server F) A → Run (World F) A
with_worker fd w (ok a s) = ok a (put_back fd w s)
with_worker fd w blocked = blocked
with_worker fd w undefined = undefined
with_worker fd w exited = exited

-- A call of one worker.
abbrev pub on_worker : {F A : Type 0} → (fd : ℕ) → Io (Server F) A → Io (World F) A
on_worker fd m w = with_worker fd w (m (view fd w))
