-- ===== src/Startup/Balance.antt =====
-- The peers and the calls of run_route_hooks for them, from init_all over any number of rounds of
-- the event loop of main in src/main.cxx.
use zprd.Prelude.{ℕ, suc, refl, List, [], ◌∷◌, Option, Bool-cases, inl, inr}
use zprd.Config.{Settings}
use zprd.Iafa.{XnerAddr}
use zprd.Oafa.{SockAddr}
use zprd.Peer.{Ptr, new_peer}
use zprd.Router.{Router, make_peer, learn_route, send_zprn_msg}
use zprd.Router.Hooks.{IsBalanced}
use zprd.Router.Hooks.Balance.{receive_local-IsBalanced, receive_remote-IsBalanced}
use zprd.Router.Hooks.Cleanup.{connect2server-IsBalanced, cleanup_round-IsBalanced}
use zprd.Router.Loop.{
  Input, tun_input, server_input, handle_input, handle_inputs, Round, Loop, loop_round, main_loop,
  first_loop,
}
use zprd.Router.Timers.{
  connect2server, connect_all, send_connmgmt_msg, add_local_routes, cleanup_due,
}
use zprd.Startup.Init.{Interface, Started, fresh_router}
use zprd.Startup.Main.{greet}
use zprd.Zprn.{zprn_connmgmt_open}

handle_input-IsBalanced :
    (p : Ptr) (i : Input) (s : Router) → IsBalanced s → IsBalanced (handle_input p i s)
unfolding handle_input
handle_input-IsBalanced p (tun_input env buffer nread) s b =
    receive_local-IsBalanced env p buffer nread s b
handle_input-IsBalanced p (server_input env saddr buffer nread) s b =
    receive_remote-IsBalanced env saddr buffer nread s b

handle_inputs-IsBalanced :
    (p : Ptr) (is : List Input) (s : Router) → IsBalanced s → IsBalanced (handle_inputs p is s)
unfolding handle_inputs
handle_inputs-IsBalanced p [] s b = b
handle_inputs-IsBalanced p (i ∷ is) s b =
    handle_inputs-IsBalanced p is (handle_input p i s) (handle_input-IsBalanced p i s b)

add_local_routes-IsBalanced :
    (p : Ptr) (locals : List XnerAddr) (s : Router)
    → IsBalanced s
    → IsBalanced (add_local_routes p locals s)
unfolding add_local_routes learn_route
add_local_routes-IsBalanced p [] s b = b
add_local_routes-IsBalanced p (x ∷ locals) s b =
    add_local_routes-IsBalanced p locals (learn_route x.inner p 0 s) b

greet-IsBalanced :
    (x : Started) (epoll_fd : ℕ) → IsBalanced x.router → IsBalanced (greet x epoll_fd).router
unfolding greet send_connmgmt_msg send_zprn_msg make_peer
greet-IsBalanced x epoll_fd b =
    let s = send_connmgmt_msg zprn_connmgmt_open x.router in
    let made = (make_peer (new_peer s.last_time) s).0 in
    add_local_routes-IsBalanced s.next_ptr made.locals made b

module _ (resolve : List ℕ → Option SockAddr) (use_count : Ptr → ℕ) where
  connect_all-IsBalanced :
      (names : List (List ℕ)) (i : ℕ) (s : Router)
      → IsBalanced s
      → IsBalanced (connect_all resolve use_count names i s)
  unfolding connect_all
  connect_all-IsBalanced [] i s b = b
  connect_all-IsBalanced (n ∷ names) i s b =
      connect_all-IsBalanced names (suc i) (connect2server resolve use_count n i s)
        (connect2server-IsBalanced resolve use_count n i s b)

loop_round-IsBalanced :
    (p : Ptr) (r : Round) (l : Loop) → IsBalanced l.router → IsBalanced (loop_round p r l).router
unfolding loop_round
loop_round-IsBalanced p r l b =
    let s = handle_inputs p r.inputs l.router in
    let b1 = handle_inputs-IsBalanced p r.inputs l.router b in
    elim (Bool-cases (cleanup_due s.last_time r.now l.pastt_clu s.remote_timeout)) [
      | inl due ↦
          rw (due, loop_round)
            (cleanup_round-IsBalanced r.resolve r.use_count l.found_remotes
              (record s { last_time = r.now }) b1)
      | inr quiet ↦ rw (quiet, loop_round) b1
    ]

rounds-IsBalanced :
    (p : Ptr) (rs : List Round) (l : Loop)
    → IsBalanced l.router
    → IsBalanced (main_loop p rs l).router
unfolding main_loop
rounds-IsBalanced p [] l b = b
rounds-IsBalanced p (r ∷ rs) l b =
    rounds-IsBalanced p rs (loop_round p r l) (loop_round-IsBalanced p r l b)

-- From the connections of init_all over any number of rounds of the event loop, with any packets
-- and any cleanups in between, the hooks account for the peers: the peers in the vector and the
-- "del" hooks for peers that were run together are as many as the "add" hooks for peers.
pub main_loop-IsBalanced :
    (resolve : List ℕ → Option SockAddr) (use_count : Ptr → ℕ) (s : Settings) (device : Interface)
    (now epoll_fd : ℕ) (server_fds : List (ℕ × ℕ)) (rs : List Round)
    → let ready =
        greet
          (record {
            router = connect_all resolve use_count s.remotes 0 (fresh_router s device now);
            device = device;
            server_fds = server_fds;
          })
          epoll_fd in
      IsBalanced (main_loop ready.local_router rs (first_loop ready.router)).router
main_loop-IsBalanced resolve use_count s device now epoll_fd server_fds rs =
    rounds-IsBalanced _ rs _ (
      greet-IsBalanced _ epoll_fd
        (connect_all-IsBalanced resolve use_count s.remotes 0 (fresh_router s device now) refl))
