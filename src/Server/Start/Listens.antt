-- ===== src/Server/Start/Listens.antt =====
-- The listening socket: what tcpInit leaves behind, `main` beside tcpInit, and the start of the server.
use nex_file.Base.{
  ℕ, ◌≡◌, refl, ◌∙◌, ap, ℤ, pos, minus_one, eq_ℤ, Bool, true, false, ◌&&◌, Bytes, [], ◌∷◌, ◌++◌,
  append_assoc, ◌==◌, eq→==, if◌then◌else◌, Option, none, some, Bool-cases, Option-cases, inl, inr,
  ◌⊎◌,
}
use nex_file.Base.Io.{Run, ok, exited, and_then, exit, pure}
use nex_file.Server.Config.{SockAddr}
use nex_file.Server.Start.{
  opened, reused, bound, listened, closed, added, deleted, sigchld_ignored, child_awaited, Calls,
  InetAddr, Results, listen_address, tcp_listen, tcp_open, tcp_init, main_listen, main_open,
  main_socket, server_ip, server_port,
}

-- Whether the last call that opens or closes `fd` opens it.
abbrev pub held : (fd : ℕ) → Bool → Calls → Bool
held fd before [] = before
held fd before (opened g ∷ cs) = held fd (if g == fd then true else before) cs
held fd before (closed g ∷ cs) = held fd (if g == fd then false else before) cs
held fd before (_ ∷ cs) = held fd before cs

held-append :
    (fd : ℕ) (cs ds : Calls) (before : Bool)
    → held fd before (cs ++ ds) ≡ held fd (held fd before cs) ds
held-append fd [] ds b = refl
held-append fd (opened g ∷ cs) ds b = held-append fd cs ds (if g == fd then true else b)
held-append fd (closed g ∷ cs) ds b = held-append fd cs ds (if g == fd then false else b)
held-append fd (reused g ∷ cs) ds b = held-append fd cs ds b
held-append fd (bound g a ∷ cs) ds b = held-append fd cs ds b
held-append fd (listened g n ∷ cs) ds b = held-append fd cs ds b
held-append fd (added e g r ∷ cs) ds b = held-append fd cs ds b
held-append fd (deleted e g r ∷ cs) ds b = held-append fd cs ds b
held-append fd (sigchld_ignored ∷ cs) ds b = held-append fd cs ds b
held-append fd (child_awaited ∷ cs) ds b = held-append fd cs ds b

held_closed : (fd : ℕ) (cs : Calls) → held fd false (cs ++ closed fd ∷ []) ≡ false
held_closed fd cs = held-append fd cs (closed fd ∷ []) false ∙ rw (eq→== fd fd refl) refl

-- The calls that make a listening socket.
abbrev pub listening : ℕ → SockAddr → Calls
listening fd addr = opened fd ∷ reused fd ∷ bound fd addr ∷ listened fd 5 ∷ []

-- The calls behind `socket` all succeed.
abbrev pub all_succeed : Results → Bool
all_succeed r = r.reuse && (r.bind && r.listen)

-- What tcpInit leaves: the socket listens at the address and stays open, or it is closed.
abbrev pub Ends : Results → ℕ → SockAddr → Calls → ℤ → Calls → Type 0
Ends r fd addr cs ret cs' =
    ((ret ≡ pos 0)
      × (all_succeed r ≡ true)
      × (cs' ≡ cs ++ listening fd addr)
      × (held fd false cs' ≡ true))
    ⊎ ((ret ≡ minus_one) × (all_succeed r ≡ false) × (held fd false cs' ≡ false))

held-listening :
    (fd : ℕ) (addr : SockAddr) (cs : Calls) → held fd false (cs ++ listening fd addr) ≡ true
held-listening fd addr cs = held-append fd cs (listening fd addr) false ∙ rw (eq→== fd fd refl) refl

-- What tcpInit returns and leaves.
abbrev pub Leaves : Results → Run Calls (ℤ × ℕ) → ℕ → SockAddr → Calls → Type 0
Leaves r x fd addr cs =
    (ret : ℤ) × (cs' : Calls) × (x ≡ ok (ret, fd) cs') × Ends r fd addr cs ret cs'

closing :
    (r : Results) (x : Run Calls (ℤ × ℕ)) (addr : SockAddr) (fd : ℕ) (cs cs₁ : Calls)
    → all_succeed r ≡ false
    → x ≡ ok (minus_one, fd) (cs₁ ++ closed fd ∷ [])
    → Leaves r x fd addr cs
closing r x addr fd cs cs₁ failed e =
    (minus_one, cs₁ ++ closed fd ∷ [], e, inr (refl, failed, held_closed fd cs₁))

listen_ends :
    (r : Results) (addr : SockAddr) (fd : ℕ) (cs : Calls)
    → Leaves r (tcp_listen r addr fd (cs ++ opened fd ∷ [])) fd addr cs
unfolding tcp_listen
listen_ends r addr fd cs =
    let cs₁ = (cs ++ opened fd ∷ []) ++ reused fd ∷ [] in
    let cs₂ = cs₁ ++ bound fd addr ∷ [] in
    let cs₃ = cs₂ ++ listened fd 5 ∷ [] in
    let x = tcp_listen r addr fd (cs ++ opened fd ∷ []) in
    elim (Bool-cases r.reuse) [
      | inr failed ↦ closing r x addr fd cs cs₁ (rw failed refl) (rw failed refl)
      | inl reuse ↦ elim (Bool-cases r.bind) [
        | inr failed ↦
            closing r x addr fd cs cs₂ (rw (reuse, failed) refl) (rw (reuse, failed) refl)
        | inl bind ↦ elim (Bool-cases r.listen) [
          | inr failed ↦
              closing r x addr fd cs cs₃ (rw (reuse, bind, failed) refl)
                (rw (reuse, bind, failed) refl)
          | inl listens ↦
              let all : cs₃ ≡ cs ++ listening fd addr = simp append_assoc in
              (
                pos 0,
                cs ++ listening fd addr,
                rw (reuse, bind, listens) (ap (ok (pos 0, fd)) all),
                inl (refl, rw (reuse, bind, listens) refl, refl, held-listening fd addr cs),
              )
        ]
      ]
    ]

-- Exactly one of two holds. `socket` fails, and tcpInit exits; or `socket` gives a descriptor, and
-- tcpInit returns with it, whatever the other calls give: 0 if they all succeed, and then it has
-- made a socket, set SO_REUSEADDR, bound it to the address and let it listen, and nothing else, and
-- the socket is open; and -1 if one of them fails, and then the socket is closed.
pub tcp_init-Ends :
    (inet_addr : InetAddr) (r : Results) (ip : Bytes) (port : ℤ) (cs : Calls)
    → ((r.socket ≡ none) × (tcp_init inet_addr r ip port cs ≡ exited))
      ⊎ ((fd : ℕ) × (r.socket ≡ some fd)
          × Leaves r (tcp_init inet_addr r ip port cs) fd (listen_address inet_addr ip port) cs)
unfolding tcp_init tcp_open
tcp_init-Ends inet_addr r ip port cs =
    let addr = listen_address inet_addr ip port in
    elim (Option-cases r.socket) [
      | inl nothing ↦ inl (nothing, ap (λ o. tcp_open r addr o cs) nothing)
      | inr (fd, found) ↦
          let (ret, cs', returns, ends) = listen_ends r addr fd cs in
          inr (fd, found, (ret, cs', ap (λ o. tcp_open r addr o cs) found ∙ returns, ends))
    ]

main_beside :
    (r : Results) (addr : SockAddr) (fd : ℕ) (cs : Calls)
    → main_listen r addr fd cs
      ≡ and_then (tcp_listen r addr fd cs) (λ (ret, g). if eq_ℤ ret (pos 0) then pure g else exit)
unfolding main_listen tcp_listen
main_beside r addr fd cs = elim (Bool-cases r.reuse) [
  | inr failed ↦ rw failed refl
  | inl reuse ↦ elim (Bool-cases r.bind) [
    | inr failed ↦ rw (reuse, failed) refl
    | inl bind ↦ elim (Bool-cases r.listen) [
      | inr failed ↦ rw (reuse, bind, failed) refl
      | inl listens ↦ rw (reuse, bind, listens) refl
    ]
  ]
]

opens_beside :
    (r : Results) (addr : SockAddr) (o : Option ℕ) (cs : Calls)
    → main_open r addr o cs
      ≡ and_then (tcp_open r addr o cs) (λ (ret, g). if eq_ℤ ret (pos 0) then pure g else exit)
unfolding main_open tcp_open
opens_beside r addr none cs = refl
opens_beside r addr (some fd) cs = main_beside r addr fd (cs ++ opened fd ∷ [])

-- The socket of `main` is the one that tcpInit would make for SERVER_IP and SERVER_PORT, by the same calls:
-- whatever they return, `main` goes on with it if tcpInit would return 0, and else exits.
pub main_socket-tcp_init :
    (inet_addr : InetAddr) (r : Results) (cs : Calls)
    → main_socket inet_addr r cs
      ≡ and_then
          (tcp_init inet_addr r server_ip server_port cs)
          (λ (ret, fd). if eq_ℤ ret (pos 0) then pure fd else exit)
unfolding main_socket tcp_init
main_socket-tcp_init inet_addr r cs =
    opens_beside r (listen_address inet_addr server_ip server_port) r.socket cs
