-- ===== src/Examples/Boot.antt =====
-- A start of the daemon with a configuration file of four lines, and its descriptors.
use zprd.Prelude.{
  if◌then◌else◌, ℕ, ◌≡◌, ◌≢◌, arith, ◌⊎◌, refl, List, [], ◌∷◌, ◌++◌, Option, none, some, codes, map,
  ◌==◌, all_of, true, All,
}
use zprd.Config.{Settings, defaults, read_config, apply_lines, apply_line, apply_stmt}
use zprd.Iafa.{of_sockaddr, xner_of_sockaddr, sa_family2iafa_at}
use zprd.Oafa.{SockAddr, af_unspec, af_inet, af_inet6, gp_addr, gp_port, sa2catchall, store_port}
use zprd.Peer.{set_port}
use zprd.Router.Timers.{connect_all}
use zprd.Startup.{
  Event, execute, ◌>>=◌, epoll_create, bind, set_reuse_addr, socket, open_file, tun_set_iff,
}
use zprd.Startup.CallKinds.{is_inner, is_outer}
use zprd.Startup.Commands.{commands, plan, succeeded}
use zprd.Startup.Descriptors.{
  left_open, CatchesAll, find_fd, tun_alloc-left_open, setup_server_fd-left_open,
}
use zprd.Startup.Epoll.{added, open_epoll-left_open}
use zprd.Startup.Files.{tun_alloc, setup_server_fd, bind_server, put_fd, redirect_stdin}
use zprd.Startup.Init.{
  Host, Interface, Started, IfAddr, init_all, set_up_interface, set_up_peers, start_servers,
  set_addrs, run_all, local_addrs, resolve_hosts, fresh_router,
}
use zprd.Startup.Main.{open_epoll, greet}
use zprd.Startup.Order.{HasDropped, init_all_order}
use zprd.Startup.Refusal.{planned, planned_hooks, init_all-commands}
use zprd.Startup.HookRuns.{texts}
use zprd.Startup.Hooks.{run_hooks}
use zprd.Startup.Outcome.{Outcome, hook_plan}
use zprd.Startup.LocalRoutes.{LocalRoute}
use zprd.Startup.Base.{Connected, greetings, greet-connect_all-Inv}
use zprd.Router.Invariant.{Inv}
use zprd.Startup.Privileges.{drop_privileges}
use zprd.Examples.{at_host}

abbrev tun0 : List ℕ
tun0 = codes "tun0"

-- The address of the interface, with the mask 255.255.255.0.
abbrev tun0_addr : IfAddr
tun0_addr = record {
  ifa_name = some tun0;
  ifa_addr = some (at_host 1);
  ifa_netmask = some (record { family = af_inet; body = 0 ∷ 0 ∷ 255 ∷ 255 ∷ 255 ∷ 0 ∷ [] });
}

abbrev host : Host
host = record {
  stoi = λ text. none;
  getaddrinfo = λ name port. none;
  tun_name = λ name. name;
  if_addrs = tun0_addr ∷ [];
  lines = codes "Itun0" ∷ codes "A10.0.0.1/24" ∷ codes "Unobody" ∷ codes "Hlogger" ∷ [];
  use_count = λ p. 1;
  inet_ntop = λ family addr. codes "addr";
}

abbrev settings : Settings
settings = record defaults {
  iface = tun0;
  addrs = codes "10.0.0.1/24" ∷ [];
  run_as_user = codes "nobody";
  hooks = codes "logger" ∷ [];
}

abbrev pub device : Interface
device = record {
  locals =
      record {
        inner = record { type = 0x0804; addr = 10 ∷ 0 ∷ 0 ∷ 1 ∷ [] };
        nmsk = 255 ∷ 255 ∷ 255 ∷ 0 ∷ [];
      }
      ∷ [];
  exported_locals = [];
  blocked_broadcast_dsts = [];
  local_fd = 4;
  iface = tun0;
}

abbrev started : Started
started = record {
  router = fresh_router settings device 100;
  device = device;
  server_fds = (af_inet, 5) ∷ (af_inet6, 6) ∷ [];
}

-- The user is 65534, the group 65533, the time 100; the descriptors count from 3.
abbrev answers : List (Option ℕ)
answers =
    some 3
    ∷ some 0
    ∷ some 0
    ∷ some 0
    ∷ some 0
    ∷ some 0
    ∷ some 0
    ∷ some 0
    ∷ some 0
    ∷ some 4
    ∷ some 0
    ∷ some 0
    ∷ some 0
    ∷ some 65534
    ∷ some 65533
    ∷ some 0
    ∷ some 0
    ∷ some 0
    ∷ some 0
    ∷ some 100
    ∷ some 5
    ∷ some 0
    ∷ some 0
    ∷ some 6
    ∷ some 0
    ∷ some 0
    ∷ some 0
    ∷ []

host_starts : (execute answers (init_all host (codes "/etc/zprd.conf"))).1 ≡ some started
unfolding execute init_all ◌>>=◌ redirect_stdin read_config apply_lines apply_line apply_stmt
    set_up_interface set_addrs run_all local_addrs xner_of_sockaddr of_sockaddr sa_family2iafa_at
    gp_addr gp_port resolve_hosts tun_alloc drop_privileges set_up_peers start_servers run_hooks
    connect_all setup_server_fd bind_server put_fd sa2catchall set_port store_port
host_starts = refl

init_all_order_example :
    (s : Settings) × (before : List Event) × (dropped : List Event) × (after : List Event)
    × (read_config host.stoi host.lines ≡ some s)
    × ((execute answers (init_all host (codes "/etc/zprd.conf"))).0 ≡ before ++ (dropped ++ after))
    × (commands before ≡ map succeeded (plan s))
    × (all_of (λ e. is_inner e.0) before ≡ true)
    × HasDropped s.run_as_user dropped
    × (all_of (λ e. is_outer e.0) after ≡ true)
    × (texts after ≡ hook_plan host s)
init_all_order_example = init_all_order host (codes "/etc/zprd.conf") answers started host_starts

tun_alloc-left_open_example :
    let (events, r) = execute (some 4 ∷ some 0 ∷ []) (tun_alloc (λ name. name) (codes "zprd0")) in
    ((fd : ℕ) × (n : ℕ) × (r ≡ some (some (fd, codes "zprd0")))
      × (events
          ≡ (open_file (codes "/dev/net/tun"), some fd)
            ∷ (tun_set_iff fd (codes "zprd0"), some n)
            ∷ [])
      × (left_open [] events ≡ fd ∷ []))
    ⊎ ((r ≡ some none) × (left_open [] events ≡ []))
tun_alloc-left_open_example =
    tun_alloc-left_open (λ name. name) (codes "zprd0") (some 4 ∷ some 0 ∷ [])

setup_server_fd-left_open_example :
    let (events, r) = execute (some 5 ∷ some 0 ∷ some 0 ∷ []) (setup_server_fd af_inet 45940 []) in
    ((fd : ℕ) × (m : ℕ) × (n : ℕ) × (ss : SockAddr) × (fds : List (ℕ × ℕ)) × (r ≡ some (some fds))
      × ((family : ℕ)
          → find_fd family fds ≡ (if af_inet == family then some fd else find_fd family []))
      × CatchesAll af_inet 45940 ss
      × (events
          ≡ (socket af_inet, some fd) ∷ (set_reuse_addr fd, some m) ∷ (bind fd ss, some n) ∷ [])
      × (left_open [] events ≡ fd ∷ []))
    ⊎ ((r ≡ some none) × (left_open [] events ≡ []))
setup_server_fd-left_open_example =
    setup_server_fd-left_open af_inet 45940 [] (some 5 ∷ some 0 ∷ some 0 ∷ [])

open_epoll-left_open_example :
    let (events, r) =
      execute (some 7 ∷ some 0 ∷ some 0 ∷ some 0 ∷ []) (open_epoll 4 started.server_fds) in
    ((epoll_fd : ℕ) × (r ≡ some epoll_fd)
      × (events
          ≡ (epoll_create, some epoll_fd)
            ∷ map (added epoll_fd) (4 ∷ map (λ x. x.1) started.server_fds)))
    ⊎ ((r ≡ none) × (left_open [] events ≡ []))
open_epoll-left_open_example =
    open_epoll-left_open 4 started.server_fds (some 7 ∷ some 0 ∷ some 0 ∷ some 0 ∷ [])

-- The same with a remote at 10.0.0.2 and a route hook.
abbrev host_of_one : Host
host_of_one = record host {
  getaddrinfo = λ name port. some (at_host 2 ∷ []);
  lines = host.lines ++ (codes "Rb.example" ∷ codes "htell" ∷ []);
}

init_all-commands_example :
    let (events, r) = execute answers (init_all host_of_one (codes "/etc/zprd.conf")) in
    let file = read_config host_of_one.stoi host_of_one.lines in
    Outcome r (planned file) (planned_hooks host_of_one file) (commands events)
init_all-commands_example = init_all-commands host_of_one (codes "/etc/zprd.conf") answers

-- One remote, at 10.0.0.2.
abbrev pub one_remote : Settings
one_remote = record settings { remotes = codes "b.example" ∷ [] }

abbrev pub resolves : List ℕ → Option SockAddr
resolves name = some (at_host 2)

resolves_family : (name : List ℕ) (a : SockAddr) → resolves name ≡ some a → a.family ≢ af_unspec
resolves_family name a h = ground arith

greet-connect_all-Inv_example :
    let x : Started = record {
      router =
          connect_all resolves host.use_count one_remote.remotes 0
            (fresh_router one_remote device 100);
      device = device;
      server_fds = started.server_fds;
    } in
    Inv (greet x 7).router
    × Connected resolves one_remote.remotes x.router
    × ((greet x 7).router.remotes ≡ x.router.remotes)
    × ((greet x 7).router.sender.zprn_msgs ≡ greetings x.router.remotes device.locals)
    × All (λ i. LocalRoute (greet x 7).local_router (greet x 7).router.routes i.inner) device.locals
greet-connect_all-Inv_example =
    greet-connect_all-Inv resolves host.use_count one_remote device 100 7 started.server_fds
      (omega arith) resolves_family
