-- ===== src/Startup/Main.antt =====
-- The part of main in src/main.cxx before the event loop: the command line, the signals, epoll,
-- the first message to the peers and the routes to ourselves.
use zprd.Prelude.{ℕ, zero, suc, List, [], ◌∷◌, ◌||◌, Option, none, some, codes, ◌==◌, if◌then◌else◌}
use zprd.Config.{text_eq}
use zprd.Peer.{Ptr, new_peer}
use zprd.Router.{Router, make_peer}
use zprd.Router.Timers.{send_connmgmt_msg, add_local_routes}
use zprd.Startup.{
  open_file, dup2, close, ignore_signal, handle_signal, epoll_create, epoll_add, Program, done,
  failed, ask, need, ◌>>=◌, ◌>>◌,
}
use zprd.Startup.Init.{Host, Started, init_all}
use zprd.Zprn.{zprn_connmgmt_open}

abbrev sighup : ℕ
sighup = 1

abbrev sigint : ℕ
sigint = 2

abbrev sigusr1 : ℕ
sigusr1 = 10

abbrev sigterm : ℕ
sigterm = 15

-- The loop over the command line, from the name of the program on; the result is the path of the
-- configuration file, `none` if the usage was printed.
unfoldable pub parse_args : List ℕ → List (List ℕ) → Program (Option (List ℕ))
parse_args confpath [] = done (some confpath)
parse_args confpath ([] ∷ args) = parse_args confpath args
parse_args confpath ((c ∷ cs) ∷ args) =
    if text_eq (c ∷ cs) (codes "-h") || text_eq (c ∷ cs) (codes "--help")
    then done none
    else (if c == b'L'
        then (do
          ofd ← need (open_file cs)
          need (dup2 ofd 1)
          need (dup2 ofd 2)
          ask (close (some ofd))
          ask (ignore_signal sighup)
          parse_args confpath args)
        else parse_args (if c == b'C' then cs else confpath) args)

-- do_epoll_add: epoll_ctl must answer 0.
abbrev epoll_added : ℕ → Option ℕ → Program ℕ
epoll_added epoll_fd (some zero) = done 0
epoll_added epoll_fd (some (suc n)) = do ask (close (some epoll_fd)); failed
epoll_added epoll_fd none = do ask (close (some epoll_fd)); failed

unfoldable pub do_epoll_add : ℕ → ℕ → Program ℕ
do_epoll_add epoll_fd fd_to_add = do
  answer ← ask (epoll_add epoll_fd fd_to_add)
  epoll_added epoll_fd answer

unfoldable pub add_servers : ℕ → List (ℕ × ℕ) → Program ℕ
add_servers epoll_fd [] = done epoll_fd
add_servers epoll_fd ((sa_family, fd) ∷ server_fds) = do
  do_epoll_add epoll_fd fd
  add_servers epoll_fd server_fds

unfoldable pub open_epoll : ℕ → List (ℕ × ℕ) → Program ℕ
open_epoll local_fd server_fds = do
  epoll_fd ← need epoll_create
  do_epoll_add epoll_fd local_fd
  add_servers epoll_fd server_fds

-- What the event loop starts with.
pub record Ready : Type 0 where
  pub router : Router
  pub local_router : Ptr
  pub epoll_fd : ℕ

-- The first message, and the routes to ourselves over a peer that is made for this.
unfoldable pub greet : Started → ℕ → Ready
greet x epoll_fd =
    let s1 = send_connmgmt_msg zprn_connmgmt_open x.router in
    let (s2, local_router) = make_peer (new_peer s1.last_time) s1 in
    record {
      router = add_local_routes local_router s2.locals s2;
      local_router = local_router;
      epoll_fd = epoll_fd;
    }

-- From the command line to the event loop; `none` is the end with the code 0, `failed` with 1.
unfoldable pub run_main : Host → List (List ℕ) → Program (Option Ready)
run_main host argv = do
  parsed ← parse_args (codes "/etc/zprd.conf") argv
  elim parsed [
    | none ↦ done none
    | some confpath ↦ do
      x ← init_all host confpath
      ask (ignore_signal sighup)
      ask (handle_signal sigusr1)
      epoll_fd ← open_epoll x.device.local_fd x.server_fds
      let ready = greet x epoll_fd
      ask (handle_signal sigint)
      ask (handle_signal sigterm)
      done (some ready)
  ]
