-- ===== src/Router/Loop.antt =====
-- The event loop of main in src/main.cxx: what epoll_wait reports, then the clock, then the
-- cleanup if it is due. `b_do_shutdown` and a failed epoll_wait end it: the rounds are a list.
use zprd.Prelude.{
  ℕ, ◌≡◌, ◌⊎◌, inl, inr, refl, List, [], ◌∷◌, Option, Bool, false, map, Bool-cases, if◌then◌else◌,
  ◌≢◌, All, true, ◌<◌, ◌≤◌, ◌+◌, ◌/◌, arith,
}
use zprd.Oafa.{SockAddr, af_unspec}
use zprd.Peer.{Ptr}
use zprd.Router.{Router}
use zprd.Router.Invariant.{Step, from_tun, from_network, tick, Reach, start, later, Inv, Reach-Inv}
use zprd.Router.Packet4.{Env}
use zprd.Router.Receive.{receive_local, receive_remote}
use zprd.Router.Timers.{cleanup_due, cleanup_round, send_connmgmt_msg}
use zprd.Sender.{stop}
use zprd.Zprn.{zprn_connmgmt_close}

-- A descriptor with data, and what is read from it.
pub data Input : Type 0 where
  tun_input : Env → List ℕ → ℕ → Input
  server_input : Env → SockAddr → List ℕ → ℕ → Input

unfoldable pub handle_input : Ptr → Input → Router → Router
handle_input local_router (tun_input env buffer nread) s =
    receive_local env local_router buffer nread s
handle_input local_router (server_input env saddr buffer nread) s =
    receive_remote env saddr buffer nread s

unfoldable pub handle_inputs : Ptr → List Input → Router → Router
handle_inputs local_router [] s = s
handle_inputs local_router (i ∷ is) s =
    handle_inputs local_router is (handle_input local_router i s)

-- A round: what epoll_wait reports, the time behind it, and what resolve_hostname and the reference
-- counts of the peers say in the cleanup of this round.
pub record Round : Type 0 where
  pub inputs : List Input
  pub now : ℕ
  pub resolve : List ℕ → Option SockAddr
  pub use_count : Ptr → ℕ

-- The variables of the loop.
pub record Loop : Type 0 where
  pub router : Router
  pub pastt_clu : ℕ
  pub found_remotes : List Bool

module _ (local_router : Ptr) where
  unfoldable pub loop_round : Round → Loop → Loop
  loop_round r l =
      let s = handle_inputs local_router r.inputs l.router in
      let s1 = record s { last_time = r.now } in
      if cleanup_due s.last_time r.now l.pastt_clu s.remote_timeout
      then (let (s2, found) = cleanup_round r.resolve r.use_count l.found_remotes s1 in
          record { router = s2; pastt_clu = r.now; found_remotes = found })
      else record l { router = s1 }

  unfoldable pub main_loop : List Round → Loop → Loop
  main_loop [] l = l
  main_loop (r ∷ rs) l = main_loop rs (loop_round r l)

-- The variables in front of the loop; no configured remote was found yet.
abbrev pub first_loop : Router → Loop
first_loop s = record {
  router = s;
  pastt_clu = s.last_time;
  found_remotes = map (λ _. false) s.conf_remotes;
}

-- The end of main: the message to the peers, the stop of the sender, and the clean-up.
unfoldable pub shut_down : Router → Router
shut_down s =
    let s1 = send_connmgmt_msg zprn_connmgmt_close s in
    record s1 {
      sender = stop s1.sender;
      routes = [];
      remotes = [];
      locals = [];
      exported_locals = [];
      blocked_broadcast_dsts = [];
    }

-- What comes from the network has an address.
abbrev pub HasAddress : Input → Type 0
HasAddress (tun_input env buffer nread) = Unit
HasAddress (server_input env saddr buffer nread) = saddr.family ≢ af_unspec

handle_input-Step :
    (p : Ptr) (i : Input) (s : Router) → HasAddress i → Step p s (handle_input p i s)
unfolding handle_input
handle_input-Step p (tun_input env buffer nread) s h = from_tun env buffer nread
handle_input-Step p (server_input env saddr buffer nread) s h =
    from_network env saddr buffer nread h

handle_inputs-Reach :
    (p : Ptr) (is : List Input) (s t : Router)
    → All HasAddress is
    → Reach p s t
    → Reach p s (handle_inputs p is t)
unfolding handle_inputs
handle_inputs-Reach p [] s t h r = r
handle_inputs-Reach p (i ∷ is) s t h r =
    handle_inputs-Reach p is s (handle_input p i t) h.1 (later r (handle_input-Step p i t h.0))

module _ (p : Ptr) (r : Round) (l : Loop) where
  -- The state behind the packets, and the state when the clock was read.
  abbrev pub received : Router
  received = handle_inputs p r.inputs l.router

  abbrev pub ticked : Router
  ticked = record received { last_time = r.now }

  -- The clock moved, and more than a quarter of the timeout is over since the last cleanup.
  abbrev pub IsDue : Type 0
  IsDue = (received.last_time ≢ r.now) × (l.pastt_clu + received.remote_timeout / 4 < r.now)

  -- One of the two does not hold.
  abbrev pub IsQuiet : Type 0
  IsQuiet = (received.last_time ≡ r.now) ⊎ (r.now ≤ l.pastt_clu + received.remote_timeout / 4)

  cleanup_due-IsDue :
      cleanup_due received.last_time r.now l.pastt_clu received.remote_timeout ≡ true → IsDue
  unfolding cleanup_due
  cleanup_due-IsDue h = (ground (arith, h), ground (arith, h))

  cleanup_due-IsQuiet :
      cleanup_due received.last_time r.now l.pastt_clu received.remote_timeout ≡ false → IsQuiet
  unfolding cleanup_due
  cleanup_due-IsQuiet h = ground (arith, h)

  -- If the peer vector is in order when a round of the event loop begins, with any number of
  -- packets from the tun device and from addresses of the network, then it is in order when the
  -- clock was read. If the clock did not move, or no more than a quarter of the timeout is over
  -- since the last cleanup, the round ends like this and keeps the time of the last cleanup.
  -- Otherwise a cleanup starts from this state, and its time is now the last one.
  pub loop_round-Inv :
      All HasAddress r.inputs
      → Inv l.router
      → Inv ticked
        × ((IsQuiet × (loop_round p r l ≡ record l { router = ticked }))
            ⊎ (let (s, found) = cleanup_round r.resolve r.use_count l.found_remotes ticked in
                IsDue
                × (loop_round p r l
                    ≡ record { router = s; pastt_clu = r.now; found_remotes = found })))
  unfolding loop_round
  loop_round-Inv h i =
      let s = handle_inputs p r.inputs l.router in
      let reach = later (handle_inputs-Reach p r.inputs l.router l.router h start) (tick r.now) in
      (
        Reach-Inv p l.router ticked i reach,
        elim (Bool-cases (cleanup_due s.last_time r.now l.pastt_clu s.remote_timeout)) [
          | inl due ↦ inr (cleanup_due-IsDue due, rw (due, loop_round) refl)
          | inr quiet ↦ inl (cleanup_due-IsQuiet quiet, rw (quiet, loop_round) refl)
        ],
      )
