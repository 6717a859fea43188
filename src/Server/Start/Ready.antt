-- ===== src/Server/Start/Ready.antt =====
-- Whether the server reaches its loop, and what it has made then.
use nex_file.Base.{
  ℕ, ◌≡◌, ◌∙◌, refl, ap, ℤ, pos, Bool, true, false, ◌&&◌, Bool-cases, Option-cases, inl, inr, ◌⊎◌,
  none, [], ◌∷◌, ◌++◌, append_assoc, replicate, some,
}
use nex_file.Base.Io.{ok, exited}
use nex_file.Server.ThreadPool.Create.{
  Created, WorkerArr, tid_arr_init, thread_pool_init, make_worker,
}
use nex_file.Server.ThreadPool.Create.Missing.{IsErrno, made_by, make_worker-made}
use nex_file.Server.TaskQueue.{task_queue_init}
use nex_file.Server.Start.{
  closed, added, opened, reused, bound, listened, Calls, InetAddr, Results, listen_address,
  main_listen, main_open, main_socket, server_ip, server_port, child, epoll_add, start_child, start,
}
use nex_file.Server.Start.Listens.{listening, all_succeed}

socket_listens :
    (inet_addr : InetAddr) (r : Results) (fd : ℕ) (cs : Calls)
    → r.socket ≡ some fd
    → r.reuse ≡ true
    → r.bind ≡ true
    → r.listen ≡ true
    → main_socket inet_addr r cs
      ≡ ok fd (cs ++ listening fd (listen_address inet_addr server_ip server_port))
unfolding main_socket main_open main_listen
socket_listens inet_addr r fd cs found reuse bind listens =
    let addr = listen_address inet_addr server_ip server_port in
    let all : (((cs ++ opened fd ∷ []) ++ reused fd ∷ []) ++ bound fd addr ∷ [])
          ++ listened fd 5 ∷ []
        ≡ cs ++ listening fd addr =
      simp append_assoc in
    ap (λ o. main_open r addr o cs) found ∙ rw (reuse, bind, listens) (ap (ok fd) all)

all_of : (a b c : Bool) → a && (b && c) ≡ true → (a ≡ true) × (b ≡ true) × (c ≡ true)
all_of true true true e = (refl, refl, refl)
all_of true true false e = cc e
all_of true false c e = cc e
all_of false b c e = cc e

-- The calls from `socket` to `listen` do not all succeed.
abbrev pub Refused : Results → Type 0
Refused r = (r.socket ≡ none) ⊎ (all_succeed r ≡ false)

main_socket-Refused :
    (inet_addr : InetAddr) (r : Results) (cs : Calls)
    → Refused r
    → main_socket inet_addr r cs ≡ exited
unfolding main_socket main_open main_listen
main_socket-Refused inet_addr r cs (inl nothing) =
    ap (λ o. main_open r (listen_address inet_addr server_ip server_port) o cs) nothing
main_socket-Refused inet_addr r cs (inr failed) = elim (Option-cases r.socket) [
  | inl nothing ↦
      ap (λ o. main_open r (listen_address inet_addr server_ip server_port) o cs) nothing
  | inr (fd, found) ↦
      ap (λ o. main_open r (listen_address inet_addr server_ip server_port) o cs) found
      ∙ elim (Bool-cases r.reuse) [
        | inr fails ↦ rw fails refl
        | inl reuse ↦ elim (Bool-cases r.bind) [
          | inr fails ↦ rw (reuse, fails) refl
          | inl bind ↦ elim (Bool-cases r.listen) [
            | inr fails ↦ rw (reuse, bind, fails) refl
            | inl listens ↦ absurd (cc (rw (reuse, bind, listens) at failed))
          ]
        ]
      ]
]

-- The server starts, or not. In the child, if the array of the threads is allocated and no result
-- of pthread_create is -1, as POSIX has it, one of two holds. The calls from `socket` to `listen`
-- all succeed, and `main` reaches its loop: one socket listens at SERVER_IP and SERVER_PORT with a
-- backlog of 5, epollADD is called for it and then for the exit pipe, the queue is empty, the exit
-- flag is 0, and the threads are those that pthread_create has made in WORKER_THREAD_NUM calls. Or
-- one of these calls fails, and `main` exits. What epoll_create1 and epollADD return decides
-- nothing: the loop is reached also if all of them are -1.
pub start-decides :
    (inet_addr : InetAddr) (r : Results) (calls : ℕ → Created) (exit_read exit_write : ℕ)
    (epoll_fd added_socket added_pipe : ℤ) (cs : Calls)
    → ((j : ℕ) → IsErrno (calls j))
    → ((fd : ℕ) × (arr : WorkerArr) × (r.socket ≡ some fd)
        × (all_succeed r ≡ true)
        × (start inet_addr r child true calls exit_read exit_write epoll_fd added_socket added_pipe
              (record { calls = cs; threads = [] })
            ≡ ok
                (some (
                  fd,
                  record { worker_arr = arr; task_queue = task_queue_init; exit_flag = false },
                ))
                (record {
                  calls =
                      cs
                      ++ closed exit_write
                        ∷ (listening fd (listen_address inet_addr server_ip server_port)
                            ++ added epoll_fd fd added_socket
                              ∷ added epoll_fd exit_read added_pipe
                              ∷ []);
                  threads = made_by calls 0 4;
                }))
        × (arr.worker_num ≡ 4))
      ⊎ (Refused r
          × (start inet_addr r child true calls exit_read exit_write epoll_fd added_socket
                added_pipe
                (record { calls = cs; threads = [] })
              ≡ exited))
unfolding start start_child epoll_add thread_pool_init tid_arr_init
start-decides inet_addr r calls exit_read exit_write epoll_fd added_socket added_pipe cs errnos =
    let (arr, made, size) = make_worker-made calls 4 errnos in
    let w : make_worker calls (record { thread_ids = replicate 4 0; worker_num = 4 }) []
        ≡ ok (arr, pos 0) (made_by calls 0 4) =
      made in
    let cs₁ = cs ++ closed exit_write ∷ [] in
    elim (Option-cases r.socket) [
      | inl nothing ↦
          inr (inl nothing, rw (w, main_socket-Refused inet_addr r cs₁ (inl nothing)) refl)
      | inr (fd, found) ↦ elim (Bool-cases (all_succeed r)) [
        | inr failed ↦
            inr (inr failed, rw (w, main_socket-Refused inet_addr r cs₁ (inr failed)) refl)
        | inl all ↦
            let (reuse, bind, listens) = all_of r.reuse r.bind r.listen all in
            let l = socket_listens inet_addr r fd cs₁ found reuse bind listens in
            inl (fd, arr, found, all, rw (w, l) (simp append_assoc), size)
      ]
    ]
