-- ===== src/Server/Start.antt =====
-- tcpInit of NexFile/server/tcpInit.c, epollADD and epollDEL of NexFile/server/epoll.c (the client's
-- epoll.c is the same text), the constants of NexFile/server/serverConfig.h, and `main` of
-- NexFile/server/server.c up to its loop. The system calls are the operating system's: what each
-- returns is an argument, and the state is the list of those made so far.
pub mod Listens
pub mod Ready
use nex_file.Base.{
  ℕ, ◌/◌, ◌%◌, ℤ, pos, minus_one, eq_ℤ, Bool, true, false, not, Bytes, codes, List, [], ◌∷◌, ◌++◌,
  if◌then◌else◌, Option, none, some,
}
use nex_file.Base.Io.{Io, Run, ok, blocked, undefined, exited, exit, pure, ◌>>=◌, ◌>>◌}
use nex_file.Protocol.Wire.{pattern_of}
use nex_file.Server.Config.{SockAddr}
use nex_file.Server.ThreadPool.Create.{Created, ThreadPool, Threads, thread_pool_init, make_worker}

-- SERVER_IP, SERVER_PORT and WORKER_THREAD_NUM
abbrev pub server_ip : Bytes
server_ip = codes "0.0.0.0"

abbrev pub server_port : ℤ
server_port = pos 1234

abbrev pub worker_thread_num : ℕ
worker_thread_num = 4

-- The calls, with the descriptors that they are given or return; those of epoll_ctl with what they
-- return, as their callers do not look at it.
pub data Call : Type 0 where
  opened : (fd : ℕ) → Call
  reused : (fd : ℕ) → Call
  bound : (fd : ℕ) → SockAddr → Call
  listened : (fd backlog : ℕ) → Call
  closed : (fd : ℕ) → Call
  added : (epoll_fd : ℤ) → (fd : ℕ) → (ret : ℤ) → Call
  deleted : (epoll_fd : ℤ) → (fd : ℕ) → (ret : ℤ) → Call
  sigchld_ignored : Call
  child_awaited : Call

abbrev pub Calls : Type 0
Calls = List Call

abbrev call : Call → Io Calls (Unit {0})
call c cs = ok tt (cs ++ c ∷ [])

-- `inet_addr`, with 2 ^ 32 - 1 for a text that is no address.
abbrev pub InetAddr : Type 0
InetAddr = Bytes → ℕ

-- What `socket` returns (`none` is -1), and whether setsockopt, bind and listen succeed.
pub record Results : Type 0 where
  pub socket : Option ℕ
  pub reuse : Bool
  pub bind : Bool
  pub listen : Bool

-- The address that is bound: `htons` puts the high byte first.
unfoldable pub listen_address : InetAddr → (ip : Bytes) → (port : ℤ) → SockAddr
listen_address inet_addr ip port = record {
  sin_family = 2;
  sin_port = pattern_of port / 256 % 256 ∷ pattern_of port % 256 ∷ [];
  s_addr = inet_addr ip;
}

-- `close(*sockFd); return -1;`
abbrev give_up : ℕ → Io Calls (ℤ × ℕ)
give_up fd = do call (closed fd); pure (minus_one, fd)

tcp_listen : Results → SockAddr → ℕ → Io Calls (ℤ × ℕ)
tcp_listen r addr fd = do
  call (reused fd)
  if not r.reuse then give_up fd else do
    call (bound fd addr)
    if not r.bind
        then give_up fd
        else do call (listened fd 5); if not r.listen then give_up fd else pure (pos 0, fd)

-- tcpInit behind the call of `socket`
tcp_open : Results → SockAddr → Option ℕ → Io Calls (ℤ × ℕ)
tcp_open r addr none = exit
tcp_open r addr (some fd) = do call (opened fd); tcp_listen r addr fd

-- tcpInit: the result, and the descriptor in `*sockFd`.
unfoldable pub tcp_init : InetAddr → Results → (ip : Bytes) → (port : ℤ) → Io Calls (ℤ × ℕ)
unfolding tcp_listen tcp_open
tcp_init inet_addr r ip port = tcp_open r (listen_address inet_addr ip port) r.socket

-- epollADD and epollDEL; `ret` is what `epoll_ctl` returns.
unfoldable pub epoll_add : (ret : ℤ) → (epoll_fd : ℤ) → (fd : ℕ) → Io Calls ℤ
epoll_add ret epoll_fd fd = do call (added epoll_fd fd ret); pure ret

unfoldable pub epoll_del : (ret : ℤ) → (epoll_fd : ℤ) → (fd : ℕ) → Io Calls ℤ
epoll_del ret epoll_fd fd = do call (deleted epoll_fd fd ret); pure ret

main_listen : Results → SockAddr → ℕ → Io Calls ℕ
main_listen r addr fd = do
  call (reused fd)
  if not r.reuse then exit else do
    call (bound fd addr)
    if not r.bind then exit else do call (listened fd 5); if not r.listen then exit else pure fd

main_open : Results → SockAddr → Option ℕ → Io Calls ℕ
main_open r addr none = exit
main_open r addr (some fd) = do call (opened fd); main_listen r addr fd

-- The socket of `main`, from `socket` to `listen`.
unfoldable pub main_socket : InetAddr → Results → Io Calls ℕ
unfolding main_listen main_open
main_socket inet_addr r = main_open r (listen_address inet_addr server_ip server_port) r.socket

-- What `fork` returns: -1, the number of the child, or 0 in the child.
pub data Fork : Type 0 where
  fork_failing : Fork
  parent : Fork
  child : Fork

-- The calls so far, and the threads that run workerFunc.
pub record Process : Type 0 where
  pub calls : Calls
  pub threads : Threads

abbrev with_calls : {A : Type 0} → Process → Run Calls A → Run Process A
with_calls p (ok a cs) = ok a (record p { calls = cs })
with_calls p blocked = blocked
with_calls p undefined = undefined
with_calls p exited = exited

abbrev on_calls : {A : Type 0} → Io Calls A → Io Process A
on_calls m p = with_calls p (m p.calls)

abbrev with_threads : {A : Type 0} → Process → Run Threads A → Run Process A
with_threads p (ok a ts) = ok a (record p { threads = ts })
with_threads p blocked = blocked
with_threads p undefined = undefined
with_threads p exited = exited

abbrev on_threads : {A : Type 0} → Io Threads A → Io Process A
on_threads m p = with_threads p (m p.threads)

-- The child up to its loop: its socket, its epoll instance and its pool. `exit_read` and
-- `exit_write` are the two ends of the pipe, and `epoll_fd` is what epoll_create1 returns, -1 if it fails.
start_child :
    InetAddr
    → Results
    → (alloc : Bool) → (ℕ → Created)
    → (exit_read exit_write : ℕ) → (epoll_fd added_socket added_pipe : ℤ)
    → Io Process (Option (ℕ × ThreadPool))
start_child inet_addr r alloc calls exit_read exit_write epoll_fd added_socket added_pipe = do
  on_calls (call (closed exit_write))
  (pool, _) ← on_threads (thread_pool_init alloc worker_thread_num)
  (arr, _) ← on_threads (make_worker calls pool.worker_arr)
  fd ← on_calls (main_socket inet_addr r)
  on_calls (epoll_add added_socket epoll_fd fd)
  on_calls (epoll_add added_pipe epoll_fd exit_read)
  pure (some (fd, record pool { worker_arr = arr }))

-- `main` up to its loop, in the process that `fork` returns to; `none` when the parent has waited for
-- the child and leaves with exit(0).
unfoldable pub start :
    InetAddr
    → Results
    → Fork
    → (alloc : Bool) → (ℕ → Created)
    → (exit_read exit_write : ℕ) → (epoll_fd added_socket added_pipe : ℤ)
    → Io Process (Option (ℕ × ThreadPool))
unfolding start_child
start inet_addr r fork_failing alloc calls exit_read exit_write epoll_fd added_socket added_pipe =
    exit
start inet_addr r parent alloc calls exit_read exit_write epoll_fd added_socket added_pipe = do
  on_calls (call (closed exit_read))
  on_calls (call sigchld_ignored)
  on_calls (call child_awaited)
  pure none
start inet_addr r child alloc calls exit_read exit_write epoll_fd added_socket added_pipe =
    start_child inet_addr r alloc calls exit_read exit_write epoll_fd added_socket added_pipe
