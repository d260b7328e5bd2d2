-- ===== src/Startup/Files.antt =====
-- The descriptors that the start opens: the tun device, the server sockets and the null device.
use zprd.Prelude.{ℕ, List, [], ◌∷◌, Option, none, some, codes, ◌==◌, if◌then◌else◌}
use zprd.Oafa.{SockAddr, sa2catchall}
use zprd.Peer.{new_peer, set_port}
use zprd.Startup.{
  open_file, dup2, close, tun_set_iff, socket, set_reuse_addr, bind, Program, done, ask, need,
  need_zero, ◌>>=◌, ◌>>◌,
}

-- `-1`, after the descriptor is closed.
abbrev close_failed {ℓ} : {A : Type ℓ} → Option ℕ → Program (Option A)
close_failed fd = do ask (close fd); done none

-- tun_alloc: the descriptor and the name that the system gives to the device, `none` for a
-- negative result. `tun_name` is what the system makes of the name it is asked for.
unfoldable pub tun_alloc : (List ℕ → List ℕ) → List ℕ → Program (Option (ℕ × List ℕ))
tun_alloc tun_name dev = do
  opened ← ask (open_file (codes "/dev/net/tun"))
  elim opened [
    | none ↦ done none
    | some fd ↦ do
      err ← ask (tun_set_iff fd dev)
      elim err [ none ↦ close_failed (some fd) | some _ ↦ done (some (fd, tun_name dev)) ]
  ]

-- `server_fds[sa_family] = server_fd`
unfoldable pub put_fd : ℕ → ℕ → List (ℕ × ℕ) → List (ℕ × ℕ)
put_fd sa_family fd [] = (sa_family, fd) ∷ []
put_fd sa_family fd ((f, old) ∷ fds) =
    if f == sa_family then (f, fd) ∷ fds else (f, old) ∷ put_fd sa_family fd fds

-- The address that a server socket is bound to.
abbrev pub server_addr : ℕ → ℕ → Option SockAddr
server_addr sa_family data_port =
    let local_pt = record (new_peer 0) { saddr = record { family = sa_family; body = [] } } in
    sa2catchall (set_port data_port local_pt).saddr

-- The call of bind, unless the family is not supported.
unfoldable pub bind_server :
    ℕ → List (ℕ × ℕ) → ℕ → Option SockAddr → Program (Option (List (ℕ × ℕ)))
bind_server sa_family server_fds server_fd none = close_failed (some server_fd)
bind_server sa_family server_fds server_fd (some ss) = do
  bound ← ask (bind server_fd ss)
  elim bound [
    | none ↦ close_failed (some server_fd)
    | some _ ↦ done (some (put_fd sa_family server_fd server_fds))
  ]

-- setup_server_fd, with `server_fds`; `none` is the result false. A socket that is not there is
-- closed, too.
unfoldable pub setup_server_fd : ℕ → ℕ → List (ℕ × ℕ) → Program (Option (List (ℕ × ℕ)))
setup_server_fd sa_family data_port server_fds = do
  opened ← ask (socket sa_family)
  elim opened [
    | none ↦ close_failed none
    | some server_fd ↦ do
      reuse ← ask (set_reuse_addr server_fd)
      elim reuse [
        | none ↦ close_failed (some server_fd)
        | some _ ↦ bind_server sa_family server_fds server_fd (server_addr sa_family data_port)
      ]
  ]

-- The first block of init_all: standard input is the null device.
unfoldable pub redirect_stdin : Program (Option ℕ)
redirect_stdin = do
  ofd ← need (open_file (codes "/dev/null"))
  need_zero (dup2 ofd 0)
  ask (close (some ofd))
