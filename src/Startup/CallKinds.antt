-- ===== src/Startup/CallKinds.antt =====
-- Which calls the parts of init_all can make at all.
use zprd.Prelude.{
  ℕ, ◌≡◌, inl, inr, refl, List, [], ◌∷◌, ◌++◌, Bool, true, false, Option, none, some, arith,
  is_empty, Bool-cases, codes, all_of,
}
use zprd.Config.{Settings}
use zprd.Oafa.{SockAddr, af_inet, af_inet6}
use zprd.Startup.{
  Call, system, dup2, chdir, time, close, open_file, tun_set_iff, setgroups, setregid, setreuid,
  socket, set_reuse_addr, bind, start_sender, getifaddrs, freeifaddrs, ◌>>=◌, Event,
}
use zprd.Startup.Runs.{
  CallsOnly, CallsOnly->>=, CallsOnly-of_option, CallsOnly-done, CallsOnly-failed, CallsOnly-need,
  CallsOnly-need_zero, CallsOnly-ask, CallsOnly-option, CallsOnly-if, CallsOnly-map,
}
use zprd.Startup.Files.{tun_alloc, setup_server_fd, bind_server, server_addr, redirect_stdin}
use zprd.Router.{Router, HookCall, dest_hook, peer_hook}
use zprd.Startup.Hooks.{run_route_hooks_intern, run_dest_hooks, run_peer_hooks, run_hooks}
use zprd.Startup.Init.{
  Host, Interface, set_up_interface, set_up_peers, start_servers, set_addrs, run_all, IfAddr,
  local_addrs,
}

pub CallsOnly-tun_alloc :
    (test : Call → Bool) (tun_name : List ℕ → List ℕ) (dev : List ℕ)
    → test (open_file (codes "/dev/net/tun")) ≡ true
    → ((fd : ℕ) → test (tun_set_iff fd dev) ≡ true)
    → ((fd : Option ℕ) → test (close fd) ≡ true)
    → CallsOnly test (tun_alloc tun_name dev)
unfolding tun_alloc ◌>>=◌ CallsOnly
CallsOnly-tun_alloc test tun_name dev opens sets closes = (
  opens,
  λ o. CallsOnly-option test o _ _ refl (λ fd.
      (sets fd, λ err. CallsOnly-option test err _ _ (closes (some fd), λ _. refl) (λ _. refl))),
)

-- Calls of the inner side, and calls that need no root.
abbrev pub is_inner : Call → Bool
is_inner (socket _) = false
is_inner (set_reuse_addr _) = false
is_inner (bind _ _) = false
is_inner start_sender = false
is_inner _ = true

abbrev pub is_harmless : Call → Bool
is_harmless (system _) = false
is_harmless (open_file _) = false
is_harmless (tun_set_iff _ _) = false
is_harmless (setgroups _) = false
is_harmless (setregid _ _) = false
is_harmless (setreuid _ _) = false
is_harmless _ = true

CallsOnly-bind_server :
    (sa_family : ℕ) (server_fds : List (ℕ × ℕ)) (fd : ℕ) (o : Option SockAddr)
    → CallsOnly is_harmless (bind_server sa_family server_fds fd o)
unfolding bind_server ◌>>=◌ CallsOnly
CallsOnly-bind_server sa_family server_fds fd none = (refl, λ _. refl)
CallsOnly-bind_server sa_family server_fds fd (some ss) =
    (refl, λ bound. CallsOnly-option is_harmless bound _ _ (refl, λ _. refl) (λ _. refl))

CallsOnly-setup_server_fd :
    (sa_family data_port : ℕ) (server_fds : List (ℕ × ℕ))
    → CallsOnly is_harmless (setup_server_fd sa_family data_port server_fds)
unfolding setup_server_fd ◌>>=◌ CallsOnly
CallsOnly-setup_server_fd sa_family data_port server_fds = (
  refl,
  λ opened.
      CallsOnly-option is_harmless opened _ _ (refl, λ _. refl)
        (λ fd. (
          refl,
          λ reuse.
              CallsOnly-option is_harmless reuse _ _ (refl, λ _. refl)
                (λ _.
                  CallsOnly-bind_server sa_family server_fds fd (server_addr sa_family data_port)),
        )),
)

pub CallsOnly-start_servers :
    (host : Host) (s : Settings) (device : Interface) (router : Router)
    → CallsOnly is_harmless (start_servers host s device router)
unfolding start_servers
CallsOnly-start_servers host s device router =
    CallsOnly-if is_harmless _ _ _ (CallsOnly-failed _ _) (
      CallsOnly->>= is_harmless _ _ (CallsOnly-setup_server_fd af_inet s.data_port []) (λ fds4.
        CallsOnly->>= is_harmless _ _ (CallsOnly-of_option is_harmless fds4) (λ server_fds4.
          CallsOnly->>= is_harmless _ _ (CallsOnly-setup_server_fd af_inet6 s.data_port server_fds4)
            (λ fds6.
              CallsOnly->>= is_harmless _ _ (CallsOnly-of_option is_harmless fds6) (λ server_fds6.
                CallsOnly->>= is_harmless _ _ (CallsOnly-ask is_harmless start_sender refl)
                  (λ _. CallsOnly-done _ _))))))

-- The same calls with those of commands.
abbrev pub is_outer : Call → Bool
is_outer (system _) = true
is_outer c = is_harmless c

is_harmless-is_outer : (c : Call) → is_harmless c ≡ true → is_outer c ≡ true
is_harmless-is_outer (system t) h = refl
is_harmless-is_outer _ h = h

CallsOnly-run_route_hooks :
    (hooks : List (List ℕ)) (args : List ℕ) → CallsOnly is_outer (run_route_hooks_intern hooks args)
unfolding run_route_hooks_intern
CallsOnly-run_route_hooks [] args = CallsOnly-done _ _
CallsOnly-run_route_hooks (i ∷ hooks) args =
    CallsOnly->>= is_outer _ _ (CallsOnly-ask is_outer (system (i ++ args)) refl)
      (λ _. CallsOnly-run_route_hooks hooks args)

CallsOnly-run_hooks :
    (inet_ntop : ℕ → List ℕ → List ℕ) (hooks : List (List ℕ)) (hs : List HookCall)
    → CallsOnly is_outer (run_hooks inet_ntop hooks hs)
unfolding run_hooks run_dest_hooks run_peer_hooks
CallsOnly-run_hooks inet_ntop hooks [] = CallsOnly-done _ _
CallsOnly-run_hooks inet_ntop hooks (dest_hook is_deleted dest ∷ hs) =
    CallsOnly->>= is_outer _ _
      (CallsOnly-if is_outer (is_empty hooks) _ _ (CallsOnly-done _ _)
        (CallsOnly-run_route_hooks hooks _))
      (λ _. CallsOnly-run_hooks inet_ntop hooks hs)
CallsOnly-run_hooks inet_ntop hooks (peer_hook is_deleted saddr ∷ hs) =
    CallsOnly->>= is_outer _ _
      (CallsOnly-if is_outer (is_empty hooks) _ _ (CallsOnly-done _ _)
        (CallsOnly-run_route_hooks hooks _))
      (λ _. CallsOnly-run_hooks inet_ntop hooks hs)

pub CallsOnly-set_up_peers :
    (host : Host) (s : Settings) (device : Interface)
    → CallsOnly is_outer (set_up_peers host s device)
unfolding set_up_peers
CallsOnly-set_up_peers host s device =
    CallsOnly->>= is_outer _ _ (CallsOnly-ask is_outer (chdir (codes "/")) refl) (λ _.
      CallsOnly->>= is_outer _ _ (CallsOnly-ask is_outer time refl) (λ now.
        CallsOnly->>= is_outer _ _ (CallsOnly-run_hooks host.inet_ntop s.route_hooks _) (λ _.
          CallsOnly-map is_harmless is_outer _ is_harmless-is_outer
            (CallsOnly-start_servers host s device _))))

CallsOnly-run_all : (cmds : List (List ℕ)) → CallsOnly is_inner (run_all cmds)
unfolding run_all
CallsOnly-run_all [] = CallsOnly-done _ _
CallsOnly-run_all (cmd ∷ cmds) =
    CallsOnly->>= is_inner _ _ (CallsOnly-need_zero is_inner (system cmd) refl)
      (λ _. CallsOnly-run_all cmds)

CallsOnly-set_addrs : (ifas : List IfAddr) (s : Settings) → CallsOnly is_inner (set_addrs ifas s)
unfolding set_addrs
CallsOnly-set_addrs ifas s = CallsOnly-if is_inner _ _ _ (CallsOnly-done _ _) (
    CallsOnly->>= is_inner _ _ (CallsOnly-run_all _) (λ _.
      CallsOnly->>= is_inner _ _ (CallsOnly-need is_inner getifaddrs refl) (λ _.
        CallsOnly->>= is_inner _ _ (CallsOnly-of_option is_inner (local_addrs s.iface ifas))
          (λ locals. CallsOnly->>= is_inner _ _ (CallsOnly-ask is_inner freeifaddrs refl) (λ _.
            CallsOnly-if is_inner (is_empty locals) _ _ (CallsOnly-failed _ _)
              (CallsOnly-done _ _))))))

pub CallsOnly-set_up_interface :
    (host : Host) (s : Settings) → CallsOnly is_inner (set_up_interface host s)
unfolding set_up_interface
CallsOnly-set_up_interface host s =
    CallsOnly->>= is_inner _ _ (CallsOnly-need_zero is_inner _ refl) (λ _.
      CallsOnly->>= is_inner _ _ (CallsOnly-set_addrs host.if_addrs s) (λ locals.
        CallsOnly->>= is_inner _ _ (CallsOnly-of_option is_inner _) (λ exported.
          CallsOnly->>= is_inner _ _ (CallsOnly-of_option is_inner _) (λ blocked.
            CallsOnly->>= is_inner _ _ (CallsOnly-need_zero is_inner _ refl) (λ _.
              CallsOnly->>= is_inner _ _
                (CallsOnly-tun_alloc is_inner host.tun_name _ refl (λ _. refl) (λ _. refl))
                (λ tun. CallsOnly->>= is_inner _ _ (CallsOnly-of_option is_inner tun) (λ device.
                  CallsOnly->>= is_inner _ _ (CallsOnly-need_zero is_inner _ refl) (λ _.
                    CallsOnly->>= is_inner _ _ (CallsOnly-run_all _)
                      (λ _. CallsOnly-done _ _)))))))))

pub CallsOnly-redirect_stdin :
    (test : Call → Bool)
    → test (open_file (codes "/dev/null")) ≡ true
    → ((fd : ℕ) → test (dup2 fd 0) ≡ true)
    → ((fd : Option ℕ) → test (close fd) ≡ true)
    → CallsOnly test redirect_stdin
unfolding redirect_stdin
CallsOnly-redirect_stdin test opens dups closes =
    CallsOnly->>= test _ _ (CallsOnly-need test _ opens) (λ ofd.
      CallsOnly->>= test _ _ (CallsOnly-need_zero test _ (dups ofd))
        (λ _. CallsOnly-ask test _ (closes (some ofd))))

pub all_of-++ :
    (test : Event → Bool) (e1 e2 : List Event)
    → all_of test e1 ≡ true
    → all_of test e2 ≡ true
    → all_of test (e1 ++ e2) ≡ true
all_of-++ test [] e2 h k = k
all_of-++ test (e ∷ e1) e2 h k = elim (Bool-cases (test e)) [
  | inl passes ↦ rw passes (all_of-++ test e1 e2 (ground arith) k)
  | inr fails ↦ ground arith
]
