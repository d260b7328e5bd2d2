-- ===== src/Startup/Rooted.antt =====
-- The peers that the route table refers to, from init_all over any number of rounds of the event
-- loop of main in src/main.cxx.
use zprd.Prelude.{
  ℕ, suc, ◌≡◌, inl, inr, refl, sym, subst, arith, List, [], ◌∷◌, Option, Bool-cases, Option-cases,
}
use zprd.Config.{Settings}
use zprd.Iafa.{XnerAddr}
use zprd.Oafa.{SockAddr}
use zprd.Peer.{Ptr, new_peer}
use zprd.Remotes.Members.{is_member}
use zprd.Router.{Router, make_peer, learn_route, send_zprn_msg}
use zprd.Router.Loop.{
  Input, tun_input, server_input, handle_input, handle_inputs, Round, Loop, loop_round, main_loop,
  first_loop,
}
use zprd.Router.Owned.{AllOwned, learn_route-OwnsRoutes}
use zprd.Router.Owned.Rooted.{Rooted, FromSource, receive_local-Rooted, receive_remote-Rooted}
use zprd.Router.Owned.Rounds.{connect2server-Rooted, cleanup_round-Rooted}
use zprd.Router.Timers.{
  connect2server, connect_all, send_connmgmt_msg, add_local_routes, cleanup_due,
}
use zprd.Startup.Init.{Interface, Started, fresh_router}
use zprd.Startup.Main.{greet}
use zprd.Zprn.{zprn_connmgmt_open}

handle_input-Rooted :
    (p : Ptr) (i : Input) (s : Router) → Rooted p s → Rooted p (handle_input p i s)
unfolding handle_input
handle_input-Rooted p (tun_input env buffer nread) s k = receive_local-Rooted p env buffer nread s k
handle_input-Rooted p (server_input env saddr buffer nread) s k =
    receive_remote-Rooted p env saddr buffer nread s k

handle_inputs-Rooted :
    (p : Ptr) (is : List Input) (s : Router) → Rooted p s → Rooted p (handle_inputs p is s)
unfolding handle_inputs
handle_inputs-Rooted p [] s k = k
handle_inputs-Rooted p (i ∷ is) s k =
    handle_inputs-Rooted p is (handle_input p i s) (handle_input-Rooted p i s k)

-- What is looked at is the heap, its end, the vector and the routes.
Rooted-same :
    (p : Ptr) (s t : Router)
    → (t.heap ≡ s.heap)
      × (t.next_ptr ≡ s.next_ptr)
      × (t.remotes ≡ s.remotes)
      × AllOwned (FromSource p s.remotes) t.routes
    → Rooted p s
    → Rooted p t
Rooted-same p s t (heap, next, remotes, routes) k = record {
  routes_owned = record {
    owned = subst (λ xs. AllOwned (FromSource p xs) t.routes) (sym remotes) routes;
  };
  unmarked = λ a h. rw heap (k.unmarked a (rw remotes at h));
  old = λ a h. omega (arith, k.old a (rw remotes at h), next);
  local_unmarked = rw heap k.local_unmarked;
  local_apart = rw remotes k.local_apart;
  local_old = omega (arith, k.local_old, next);
}

add_local_routes-Rooted :
    (p : Ptr) (locals : List XnerAddr) (s : Router)
    → Rooted p s
    → Rooted p (add_local_routes p locals s)
unfolding add_local_routes learn_route
add_local_routes-Rooted p [] s k = k
add_local_routes-Rooted p (x ∷ locals) s k =
    let owns =
      learn_route-OwnsRoutes (FromSource p s.remotes) x.inner p 0 s (omega arith)
        (record { gives = λ h byte. inl refl; steady = λ a o h byte owned. owned })
        k.routes_owned in
    add_local_routes-Rooted p locals (learn_route x.inner p 0 s)
      (Rooted-same p s (learn_route x.inner p 0 s) (refl, refl, refl, owns.owned) k)

-- Before there are routes, any new peer can become the local router.
made-Rooted :
    (s : Router)
    → s.routes ≡ []
    → Rooted 0 s
    → Rooted s.next_ptr (make_peer (new_peer s.last_time) s).0
unfolding make_peer
made-Rooted s no_routes k = record {
  routes_owned = record {
    owned = subst (AllOwned (FromSource s.next_ptr s.remotes)) (sym no_routes) tt;
  };
  unmarked = λ a h. ground (arith, k.unmarked a h, k.old a h);
  old = λ a h. omega (arith, k.old a h);
  local_unmarked = ground arith;
  local_apart = elim (Bool-cases (is_member s.next_ptr s.remotes)) [
    | inl there ↦ absurd (omega (arith, k.old s.next_ptr there))
    | inr away ↦ away
  ];
  local_old = omega arith;
}

greet-Rooted :
    (x : Started) (epoll_fd : ℕ)
    → x.router.routes ≡ []
    → Rooted 0 x.router
    → Rooted (greet x epoll_fd).local_router (greet x epoll_fd).router
unfolding greet send_connmgmt_msg send_zprn_msg make_peer
greet-Rooted x epoll_fd no_routes k =
    let s = send_connmgmt_msg zprn_connmgmt_open x.router in
    let made = (make_peer (new_peer s.last_time) s).0 in
    add_local_routes-Rooted s.next_ptr made.locals made (
      made-Rooted s no_routes (Rooted-same 0 x.router s (refl, refl, refl, k.routes_owned.owned) k))

module _ (resolve : List ℕ → Option SockAddr) (use_count : Ptr → ℕ) where
  connect_all-Rooted :
      (names : List (List ℕ)) (i : ℕ) (s : Router)
      → Rooted 0 s
      → Rooted 0 (connect_all resolve use_count names i s)
  unfolding connect_all
  connect_all-Rooted [] i s k = k
  connect_all-Rooted (n ∷ names) i s k =
      connect_all-Rooted names (suc i) (connect2server resolve use_count n i s)
        (connect2server-Rooted resolve use_count 0 n i s k)

  pub connect_all-routes :
      (names : List (List ℕ)) (i : ℕ) (s : Router)
      → (connect_all resolve use_count names i s).routes ≡ s.routes
  unfolding connect_all connect2server make_peer
  connect_all-routes [] i s = refl
  connect_all-routes (n ∷ names) i s =
      let next = connect2server resolve use_count n i s in
      let later = connect_all-routes names (suc i) next in
      elim (Option-cases (resolve n)) [
        | inl unknown ↦ ground (arith, unknown, later)
        | inr (remote, found) ↦ ground (arith, found, later)
      ]

  fresh_router-Rooted :
      (s : Settings) (device : Interface) (now : ℕ) → Rooted 0 (fresh_router s device now)
  fresh_router-Rooted s device now = record {
    routes_owned = record { owned = tt };
    unmarked = λ a h. ground (arith, h);
    old = λ a h. ground (arith, h);
    local_unmarked = refl;
    local_apart = refl;
    local_old = omega arith;
  }

loop_round-Rooted :
    (p : Ptr) (r : Round) (l : Loop) → Rooted p l.router → Rooted p (loop_round p r l).router
unfolding loop_round
loop_round-Rooted p r l k =
    let s = handle_inputs p r.inputs l.router in
    let s1 = record s { last_time = r.now } in
    let k0 = handle_inputs-Rooted p r.inputs l.router k in
    let k1 = Rooted-same p s s1 (refl, refl, refl, k0.routes_owned.owned) k0 in
    elim (Bool-cases (cleanup_due s.last_time r.now l.pastt_clu s.remote_timeout)) [
      | inl due ↦
          rw (due, loop_round) (cleanup_round-Rooted r.resolve r.use_count p l.found_remotes s1 k1)
      | inr quiet ↦ rw (quiet, loop_round) k1
    ]

rounds-Rooted :
    (p : Ptr) (rs : List Round) (l : Loop) → Rooted p l.router → Rooted p (main_loop p rs l).router
unfolding main_loop
rounds-Rooted p [] l k = k
rounds-Rooted p (r ∷ rs) l k = rounds-Rooted p rs (loop_round p r l) (loop_round-Rooted p r l k)

-- From the connections of init_all over any number of rounds of the event loop, with any packets
-- and any cleanups in between, no route refers to a peer that is gone: every router of every
-- route is the local router of main or a peer of the vector. No peer of the vector is marked as
-- discarded, nor is the local router, which is never in the vector, and all of them are objects
-- that were made.
pub main_loop-Rooted :
    (resolve : List ℕ → Option SockAddr) (use_count : Ptr → ℕ) (s : Settings) (device : Interface)
    (now epoll_fd : ℕ) (server_fds : List (ℕ × ℕ)) (rs : List Round)
    → let ready =
        greet
          (record {
            router = connect_all resolve use_count s.remotes 0 (fresh_router s device now);
            device = device;
            server_fds = server_fds;
          })
          epoll_fd in
      Rooted ready.local_router (main_loop ready.local_router rs (first_loop ready.router)).router
main_loop-Rooted resolve use_count s device now epoll_fd server_fds rs = rounds-Rooted _ rs _ (
    greet-Rooted _ epoll_fd
      (connect_all-routes resolve use_count s.remotes 0 (fresh_router s device now))
      (connect_all-Rooted resolve use_count s.remotes 0 (fresh_router s device now)
        (fresh_router-Rooted resolve use_count s device now)))
