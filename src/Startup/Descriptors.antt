-- ===== src/Startup/Descriptors.antt =====
-- A start that fails leaves no descriptor of a socket or of the tun device open.
use zprd.Prelude.{
  ℕ, ◌≡◌, ◌⊎◌, inl, inr, refl, ap, sym, ◌∙◌, ◌+◌, ◌*◌, List, [], ◌∷◌, codes, Option, none, some,
  arith, remove_if, ◌==◌, ◌/◌, ◌%◌, ◌++◌, replicate, Bool-cases, if◌then◌else◌,
}
use zprd.Bytes.{u16_bytes, htons}
use zprd.Oafa.{SockAddr, sa2catchall, gp_port, store_port}
use zprd.Peer.{set_port}
use zprd.Startup.{
  Call, open_file, close, socket, epoll_create, set_reuse_addr, bind, tun_set_iff, Event, execute,
  ◌>>=◌,
}
use zprd.Startup.Files.{tun_alloc, setup_server_fd, bind_server, server_addr, put_fd}

-- What is open behind a call.
abbrev touch : Call → Option ℕ → List ℕ → List ℕ
touch (open_file _) (some fd) fds = fd ∷ fds
touch (socket _) (some fd) fds = fd ∷ fds
touch epoll_create (some fd) fds = fd ∷ fds
touch (close (some fd)) _ fds = remove_if (λ x. x == fd) fds
touch _ _ fds = fds

abbrev pub left_open : List ℕ → List Event → List ℕ
left_open fds [] = fds
left_open fds ((c, r) ∷ events) = left_open (touch c r fds) events

pub remove_if_self : (fd : ℕ) → remove_if (λ x. x == fd) (fd ∷ []) ≡ []
remove_if_self fd = ground arith

-- tun_alloc always returns. Either it opened the tun device and then set up an interface with the
-- name that was asked for, and the descriptor is what it leaves open and what it returns, with the
-- name that the system gave; or it returns a negative number, and what it opened is closed.
pub tun_alloc-left_open :
    (tun_name : List ℕ → List ℕ) (dev : List ℕ) (answers : List (Option ℕ))
    → let (events, r) = execute answers (tun_alloc tun_name dev) in
      ((fd : ℕ) × (n : ℕ) × (r ≡ some (some (fd, tun_name dev)))
        × (events ≡ (open_file (codes "/dev/net/tun"), some fd) ∷ (tun_set_iff fd dev, some n) ∷ [])
        × (left_open [] events ≡ fd ∷ []))
      ⊎ ((r ≡ some none) × (left_open [] events ≡ []))
unfolding execute tun_alloc ◌>>=◌
tun_alloc-left_open tun_name dev [] = inr (refl, refl)
tun_alloc-left_open tun_name dev (none ∷ answers) = inr (refl, refl)
tun_alloc-left_open tun_name dev (some fd ∷ []) = inr (refl, remove_if_self fd)
tun_alloc-left_open tun_name dev (some fd ∷ none ∷ []) = inr (refl, remove_if_self fd)
tun_alloc-left_open tun_name dev (some fd ∷ none ∷ r ∷ answers) = inr (refl, remove_if_self fd)
tun_alloc-left_open tun_name dev (some fd ∷ some n ∷ answers) = inl (fd, n, refl, refl, refl)

bind_server_cases :
    (sa_family : ℕ) (server_fds : List (ℕ × ℕ)) (fd : ℕ) (o : Option SockAddr)
    (answers : List (Option ℕ))
    → let (events, r) = execute answers (bind_server sa_family server_fds fd o) in
      ((n : ℕ) × (ss : SockAddr) × (r ≡ some (some (put_fd sa_family fd server_fds)))
        × (o ≡ some ss)
        × (events ≡ (bind fd ss, some n) ∷ []))
      ⊎ ((r ≡ some none) × (left_open (fd ∷ []) events ≡ []))
unfolding execute bind_server ◌>>=◌
bind_server_cases sa_family server_fds fd none [] = inr (refl, remove_if_self fd)
bind_server_cases sa_family server_fds fd none (r ∷ answers) = inr (refl, remove_if_self fd)
bind_server_cases sa_family server_fds fd (some ss) [] = inr (refl, remove_if_self fd)
bind_server_cases sa_family server_fds fd (some ss) (none ∷ []) = inr (refl, remove_if_self fd)
bind_server_cases sa_family server_fds fd (some ss) (none ∷ r ∷ answers) =
    inr (refl, remove_if_self fd)
bind_server_cases sa_family server_fds fd (some ss) (some n ∷ answers) =
    inl (n, ss, refl, refl, refl)

-- The socket of a family.
abbrev pub find_fd : ℕ → List (ℕ × ℕ) → Option ℕ
find_fd family [] = none
find_fd family ((f, fd) ∷ fds) = if f == family then some fd else find_fd family fds

find_fd-put_fd :
    (sa_family fd : ℕ) (fds : List (ℕ × ℕ)) (family : ℕ)
    → find_fd family (put_fd sa_family fd fds)
      ≡ (if sa_family == family then some fd else find_fd family fds)
unfolding put_fd
find_fd-put_fd sa_family fd [] family = refl
find_fd-put_fd sa_family fd ((f, old) ∷ fds) family =
    ground (arith, find_fd-put_fd sa_family fd fds family)

-- The port in network order, then zero bytes: those of INADDR_ANY, or of the flow and in6addr_any.
abbrev pub CatchesAll : ℕ → ℕ → SockAddr → Type 0
CatchesAll sa_family data_port ss =
    let port = (data_port / 256 % 256) ∷ (data_port % 256) ∷ [] in
    (ss.family ≡ sa_family)
    × (((sa_family ≡ 2) × (ss.body ≡ port ++ replicate 4 0))
        ⊎ ((sa_family ≡ 10) × (ss.body ≡ port ++ replicate 20 0)))

u16_bytes-htons : (x : ℕ) → u16_bytes (htons x) ≡ (x / 256 % 256) ∷ (x % 256) ∷ []
u16_bytes-htons x =
    let high : (x % 256 * 256 + x / 256 % 256) % 256 ≡ x / 256 % 256 = omega arith in
    let low : (x % 256 * 256 + x / 256 % 256) / 256 ≡ x % 256 = omega arith in rw (high, low) refl

server_addr-inet :
    (data_port : ℕ)
    → server_addr 2 data_port
      ≡ some (record {
        family = 2;
        body = (data_port / 256 % 256) ∷ (data_port % 256) ∷ replicate 4 0;
      })
unfolding sa2catchall set_port gp_port store_port
server_addr-inet data_port =
    ap (λ port. some (record { family = 2; body = port ++ replicate 4 0 }))
      (u16_bytes-htons data_port)

server_addr-inet6 :
    (data_port : ℕ)
    → server_addr 10 data_port
      ≡ some (record {
        family = 10;
        body = (data_port / 256 % 256) ∷ (data_port % 256) ∷ replicate 20 0;
      })
unfolding sa2catchall set_port gp_port store_port
server_addr-inet6 data_port =
    ap (λ port. some (record { family = 10; body = port ++ replicate 20 0 }))
      (u16_bytes-htons data_port)

server_addr-CatchesAll :
    (sa_family data_port : ℕ) (ss : SockAddr)
    → server_addr sa_family data_port ≡ some ss
    → CatchesAll sa_family data_port ss
unfolding sa2catchall set_port gp_port store_port
server_addr-CatchesAll sa_family data_port ss h = elim (Bool-cases (sa_family == 2)) [
  | inl inet ↦
      let at : sa_family ≡ 2 = ground (arith, inet) in
      let found =
        some_same
          (sym (server_addr-inet data_port) ∙ sym (ap (λ f. server_addr f data_port) at) ∙ h) in
      (sym (ap (λ a. a.family) found) ∙ sym at, inl (at, sym (ap (λ a. a.body) found)))
  | inr other ↦ elim (Bool-cases (sa_family == 10)) [
    | inl inet6 ↦
        let at : sa_family ≡ 10 = ground (arith, inet6) in
        let found =
          some_same
            (sym (server_addr-inet6 data_port) ∙ sym (ap (λ f. server_addr f data_port) at) ∙ h) in
        (sym (ap (λ a. a.family) found) ∙ sym at, inr (at, sym (ap (λ a. a.body) found)))
    | inr unknown ↦ absurd (ground (arith, h, other, unknown))
  ]
]
  where
    some_same : {a b : SockAddr} → some a ≡ some b → a ≡ b
    some_same e = cc

-- setup_server_fd always returns. Either the socket is open and bound to the address with the data
-- port and only zero bytes for the host, that is to all interfaces, and the table of the sockets
-- has it for its family and is the same for all others; or the result is false, and what it opened
-- is closed.
pub setup_server_fd-left_open :
    (sa_family data_port : ℕ) (server_fds : List (ℕ × ℕ)) (answers : List (Option ℕ))
    → let (events, r) = execute answers (setup_server_fd sa_family data_port server_fds) in
      ((fd : ℕ) × (m : ℕ) × (n : ℕ) × (ss : SockAddr) × (fds : List (ℕ × ℕ)) × (r ≡ some (some fds))
        × ((family : ℕ)
            → find_fd family fds
              ≡ (if sa_family == family then some fd else find_fd family server_fds))
        × CatchesAll sa_family data_port ss
        × (events
            ≡ (socket sa_family, some fd) ∷ (set_reuse_addr fd, some m) ∷ (bind fd ss, some n) ∷ [])
        × (left_open [] events ≡ fd ∷ []))
      ⊎ ((r ≡ some none) × (left_open [] events ≡ []))
unfolding execute setup_server_fd ◌>>=◌
setup_server_fd-left_open sa_family data_port server_fds [] = inr (refl, refl)
setup_server_fd-left_open sa_family data_port server_fds (none ∷ []) = inr (refl, refl)
setup_server_fd-left_open sa_family data_port server_fds (none ∷ r ∷ answers) = inr (refl, refl)
setup_server_fd-left_open sa_family data_port server_fds (some fd ∷ []) =
    inr (refl, remove_if_self fd)
setup_server_fd-left_open sa_family data_port server_fds (some fd ∷ none ∷ []) =
    inr (refl, remove_if_self fd)
setup_server_fd-left_open sa_family data_port server_fds (some fd ∷ none ∷ r ∷ answers) =
    inr (refl, remove_if_self fd)
setup_server_fd-left_open sa_family data_port server_fds (some fd ∷ some m ∷ answers) =
    elim (bind_server_cases sa_family server_fds fd (server_addr sa_family data_port) answers) [
      | inl (n, ss, ends, found, calls) ↦ inl (
        fd,
        m,
        n,
        ss,
        put_fd sa_family fd server_fds,
        ends,
        find_fd-put_fd sa_family fd server_fds,
        server_addr-CatchesAll sa_family data_port ss found,
        ap (λ es. (socket sa_family, some fd) ∷ (set_reuse_addr fd, some m) ∷ es) calls,
        ap (left_open (fd ∷ [])) calls,
      )
      | inr undone ↦ inr undone
    ]
