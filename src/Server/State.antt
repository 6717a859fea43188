-- ===== src/Server/State.antt =====
-- What a server thread works on: its connection, the global `clientPath` of clientHandle.c, and
-- the file system. `F` is the file system's state, which the operating system keeps.
use nex_file.Base.{Bytes}
use nex_file.Base.Io.{Io, Run, ok, blocked, undefined, exited}
use nex_file.Net.{Conn}

pub record Server (F : Type 0) : Type 0 where
  pub conn : Conn
  pub client_path : Bytes
  pub files : F

abbrev pub with_conn : {F A : Type 0} → Server F → Run Conn A → Run (Server F) A
with_conn s (ok a c) = ok a (record s { conn = c })
with_conn s blocked = blocked
with_conn s undefined = undefined
with_conn s exited = exited

-- A call that works on the connection alone.
abbrev pub on_conn : {F A : Type 0} → Io Conn A → Io (Server F) A
on_conn m s = with_conn s (m s.conn)

abbrev pub get_path : {F : Type 0} → Io (Server F) Bytes
get_path s = ok s.client_path s

abbrev pub set_path : {F : Type 0} → Bytes → Io (Server F) (Unit {0})
set_path p s = ok tt (record s { client_path = p })
