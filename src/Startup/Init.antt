-- ===== src/Startup/Init.antt =====
-- init_all in src/main.cxx from its first to its last call of the system. The configuration file
-- is read by Config, the connections are made by Router/Timers.
use zprd.Prelude.{
  ℕ, List, [], ◌∷◌, ◌++◌, not, ◌&&◌, ◌||◌, Option, none, some, codes, take, is_empty, map, any_of,
  ◌==◌, if◌then◌else◌,
}
use zprd.Config.{Settings, read_config, resolve_hostname, text_eq}
use zprd.Iafa.{InnerAddr, XnerAddr, addr_eq, of_sockaddr, xner_of_sockaddr}
use zprd.Oafa.{SockAddr, af_inet, af_inet6}
use zprd.Peer.{Ptr, new_peer}
use zprd.PingCache.{empty_cache}
use zprd.Router.{Router}
use zprd.Router.Timers.{connect_all}
use zprd.Sender.{empty_queue}
use zprd.Startup.{
  system, read_file, getifaddrs, freeifaddrs, chdir, time, start_sender, Program, done, failed, ask,
  of_option, need, need_zero, ◌>>=◌, ◌>>◌,
}
use zprd.Startup.Files.{tun_alloc, setup_server_fd, redirect_stdin}
use zprd.Startup.Hooks.{run_hooks}
use zprd.Startup.Privileges.{drop_privileges}

-- `zs_devstr`, and the commands that are run for the configuration.
abbrev pub zs_devstr : List ℕ → List ℕ
zs_devstr iface = codes " dev '" ++ iface ++ codes "'"

abbrev pub flush_command : List ℕ → List ℕ
flush_command iface = codes "ip addr flush '" ++ iface ++ codes "'"

abbrev pub addr_command : List ℕ → List ℕ → List ℕ
addr_command iface i = codes "ip addr add '" ++ i ++ codes "'" ++ zs_devstr iface

abbrev pub mtu_command : List ℕ → List ℕ
mtu_command iface = codes "ip link set" ++ zs_devstr iface ++ codes " mtu 1472"

abbrev pub up_command : List ℕ → List ℕ
up_command iface = codes "ip link set" ++ zs_devstr iface ++ codes " up"

-- runcmd, for each of a list of commands.
unfoldable pub run_all : List (List ℕ) → Program ℕ
run_all [] = done 0
run_all (cmd ∷ cmds) = do need_zero (system cmd); run_all cmds

-- An entry of getifaddrs; null pointers are `none`.
pub record IfAddr : Type 0 where
  pub ifa_name : Option (List ℕ)
  pub ifa_addr : Option SockAddr
  pub ifa_netmask : Option SockAddr

abbrev pub af_packet : ℕ
af_packet = 17

-- The loop over the interface addresses; `none` is a copy from a null pointer.
unfoldable pub local_addrs : List ℕ → List IfAddr → Option (List XnerAddr)
local_addrs iface [] = some []
local_addrs iface (ifa ∷ ifas) = elim (local_addrs iface ifas) [
  | none ↦ none
  | some locals ↦ elim ifa.ifa_addr [
    | none ↦ some locals
    | some addr ↦ elim ifa.ifa_netmask [
      | none ↦ some locals
      | some netmask ↦ elim ifa.ifa_name [
        | none ↦ some locals
        | some name ↦
            if addr.family == af_packet || not (text_eq iface name)
            then some locals
            else elim (xner_of_sockaddr addr netmask) [
              | none ↦ none
              | some x ↦ some (if x.inner.type == 0 then locals else x ∷ locals)
            ]
      ]
    ]
  ]
]

-- The addresses of the interface, asked for only if the file gives some.
unfoldable pub set_addrs : List IfAddr → Settings → Program (List XnerAddr)
set_addrs ifas s = if is_empty s.addrs then done [] else do
  run_all (map (addr_command s.iface) s.addrs)
  need getifaddrs
  locals ← of_option (local_addrs s.iface ifas)
  ask freeifaddrs
  if is_empty locals then failed else done locals

-- resolve_hosts: a name that cannot be resolved is left out.
unfoldable pub resolve_hosts :
    (List ℕ → Option SockAddr) → List InnerAddr → List (List ℕ) → Option (List InnerAddr)
resolve_hosts resolve ret [] = some ret
resolve_hosts resolve ret (i ∷ addr_strv) = elim (resolve i) [
  | none ↦ resolve_hosts resolve ret addr_strv
  | some xra ↦ elim (of_sockaddr xra) [
    | none ↦ none
    | some a ↦
        resolve_hosts resolve (if any_of (addr_eq a) ret then ret else ret ++ (a ∷ [])) addr_strv
  ]
]

-- What the system and the libraries have: `stoi`, getaddrinfo, the name of a new tun device, the
-- addresses of the interfaces, the lines of the configuration file and inet_ntop.
pub record Host : Type 0 where
  pub stoi : List ℕ → Option ℕ
  pub getaddrinfo : List ℕ → Option (List ℕ) → Option (List SockAddr)
  pub tun_name : List ℕ → List ℕ
  pub if_addrs : List IfAddr
  pub lines : List (List ℕ)
  pub use_count : Ptr → ℕ
  pub inet_ntop : ℕ → List ℕ → List ℕ

-- What init_all knows of the inner network when the tun device is up.
pub record Interface : Type 0 where
  pub locals : List XnerAddr
  pub exported_locals : List InnerAddr
  pub blocked_broadcast_dsts : List InnerAddr
  pub local_fd : ℕ
  pub iface : List ℕ

-- The global state behind init_all.
pub record Started : Type 0 where
  pub router : Router
  pub device : Interface
  pub server_fds : List (ℕ × ℕ)

abbrev pub clock : Option ℕ → ℕ
clock none = 0
clock (some t) = t

-- The global state before the connections are made.
abbrev pub fresh_router : Settings → Interface → ℕ → Router
fresh_router s device now = record {
  heap = λ _. new_peer now;
  next_ptr = 1;
  remotes = [];
  locals = device.locals;
  exported_locals = device.exported_locals;
  blocked_broadcast_dsts = device.blocked_broadcast_dsts;
  routes = [];
  ping_cache = empty_cache;
  sender = empty_queue;
  last_time = now;
  hooks_run = [];
  conf = record {
    conf_remotes = s.remotes;
    data_port = s.data_port;
    remote_timeout = s.remote_timeout;
    max_near_rtt = s.max_near_rtt;
    preferred_af = s.preferred_af;
  };
}

module _ (host : Host) where
  abbrev pub resolve : Settings → List ℕ → Option SockAddr
  resolve s = resolve_hostname host.getaddrinfo s.preferred_af

  -- From the first command to the last; the name of a device has 15 bytes at most.
  unfoldable pub set_up_interface : Settings → Program Interface
  set_up_interface s = do
    need_zero (system (flush_command s.iface))
    locals ← set_addrs host.if_addrs s
    exported ← of_option (resolve_hosts (resolve s) [] s.exported_addrs)
    blocked ← of_option (resolve_hosts (resolve s) [] s.blocked_broadcasts)
    need_zero (system (mtu_command s.iface))
    tun ← tun_alloc host.tun_name (take 15 s.iface)
    (local_fd, if_name) ← of_option tun
    need_zero (system (up_command s.iface))
    run_all (map (λ i. i ++ zs_devstr s.iface) s.hooks)
    done (record {
      locals = locals;
      exported_locals = exported;
      blocked_broadcast_dsts = blocked;
      local_fd = local_fd;
      iface = if_name;
    })

  -- The server sockets and the thread of the sender.
  unfoldable pub start_servers : Settings → Interface → Router → Program Started
  start_servers s device router =
      if is_empty router.remotes && not (is_empty s.remotes) then failed else do
        fds4 ← setup_server_fd af_inet s.data_port []
        server_fds4 ← of_option fds4
        fds6 ← setup_server_fd af_inet6 s.data_port server_fds4
        server_fds6 ← of_option fds6
        ask start_sender
        done (record { router = router; device = device; server_fds = server_fds6 })

  -- The connections with their hooks, and what comes behind them.
  unfoldable pub set_up_peers : Settings → Interface → Program Started
  set_up_peers s device = do
    ask (chdir (codes "/"))
    now ← ask time
    let router =
        connect_all (resolve s) host.use_count s.remotes 0 (fresh_router s device (clock now))
    run_hooks host.inet_ntop s.route_hooks router.hooks_run
    start_servers s device router

  unfoldable pub init_all : List ℕ → Program Started
  init_all confpath = do
    redirect_stdin
    need (read_file confpath)
    s ← of_option (read_config host.stoi host.lines)
    device ← set_up_interface s
    drop_privileges s.run_as_user
    set_up_peers s device
