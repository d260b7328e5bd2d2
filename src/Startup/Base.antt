-- ===== src/Startup/Base.antt =====
-- The state in which main enters the event loop.
use zprd.Prelude.{
  ℕ, ◌≡◌, ◌≢◌, ◌≤◌, ◌⊎◌, inl, inr, refl, ap, sym, ◌∙◌, All, none, arith, List, [], ◌∷◌, Option,
  some, length, false, subst, ◌==◌, Bool-cases, Option-cases,
}
use zprd.Config.{Settings}
use zprd.Iafa.{InnerAddr, XnerAddr, no_addr}
use zprd.Startup.LocalRoutes.{LocalRoute, add_local_routes-rest, add_local_routes-LocalRoute}
use zprd.Sender.{ZprnSdat, enqueue_zprn, move_zprn, empty_queue}
use zprd.Oafa.{SockAddr, gp_port, store_port, af_unspec}
use zprd.Peer.{Ptr, null, is_local, RemotePeer, new_peer, new_config_peer, set_port_if_unset}
use zprd.Router.{Router, make_peer, learn_route, send_zprn_msg, msg_peers}
use zprd.Router.Grows.{make_peer-Grows}
use zprd.Router.Invariant.{Inv, Grows-Inv}
use zprd.Router.Timers.{connect2server, connect_all, send_connmgmt_msg, add_local_routes}
use zprd.Startup.Init.{Interface, Started, fresh_router}
use zprd.Startup.Main.{greet}
use zprd.Zprn.{zprn_connmgmt_open}

set_port_if_unset-family :
    (port : ℕ) (p : RemotePeer) → (set_port_if_unset port p).saddr.family ≡ p.saddr.family
unfolding set_port_if_unset store_port
set_port_if_unset-family port p = elim (Option-cases (gp_port p.saddr)) [
  | inl no_port ↦ rw (no_port, set_port_if_unset) refl
  | inr (old, has_port) ↦ elim (Bool-cases (old == 0)) [
    | inl unset ↦ rw (has_port, unset, set_port_if_unset) refl
    | inr known ↦ rw (has_port, known, set_port_if_unset) refl
  ]
]

add_local_routes-Inv :
    (p : Ptr) (locals : List XnerAddr) (s : Router) → Inv s → Inv (add_local_routes p locals s)
unfolding add_local_routes learn_route
add_local_routes-Inv p [] s i = i
add_local_routes-Inv p (x ∷ locals) s i =
    add_local_routes-Inv p locals (learn_route x.inner p 0 s) (learned i)
  where
    learned : Inv s → Inv (learn_route x.inner p 0 s)
    learned j = record { sorted = j.sorted; peers = j.peers }

greet-Inv : (x : Started) (epoll_fd : ℕ) → Inv x.router → Inv (greet x epoll_fd).router
unfolding greet send_connmgmt_msg send_zprn_msg make_peer
greet-Inv x epoll_fd i =
    let s = send_connmgmt_msg zprn_connmgmt_open x.router in
    let told : Inv s = record { sorted = i.sorted; peers = i.peers } in
    let made = (make_peer (new_peer s.last_time) s).0 in
    add_local_routes-Inv s.next_ptr made.locals made
      (Grows-Inv s made (make_peer-Grows (new_peer s.last_time) s) told)

connect_one-Inv :
    (resolve : List ℕ → Option SockAddr) (use_count : Ptr → ℕ) (name : List ℕ) (s : Settings)
    (device : Interface) (now : ℕ)
    → ((a : SockAddr) → resolve name ≡ some a → a.family ≢ af_unspec)
    → Inv (connect2server resolve use_count name 0 (fresh_router s device now))
unfolding connect2server make_peer
connect_one-Inv resolve use_count name s device now away = elim (Option-cases (resolve name)) [
  | inl unknown ↦ rw (unknown, connect2server) (record { sorted = tt; peers = tt })
  | inr (a, found) ↦
      let same = set_port_if_unset-family s.data_port (new_config_peer now a 0) in
      rw (found, connect2server)
        (record {
          sorted = (tt, tt);
          peers = ((omega arith, ground (arith, away a found, same)), tt);
        })
]

connect_few-Inv :
    (resolve : List ℕ → Option SockAddr) (use_count : Ptr → ℕ) (names : List (List ℕ))
    (s : Settings) (device : Interface) (now : ℕ)
    → length names ≤ 1
    → ((name : List ℕ) (a : SockAddr) → resolve name ≡ some a → a.family ≢ af_unspec)
    → Inv (connect_all resolve use_count names 0 (fresh_router s device now))
unfolding connect_all
connect_few-Inv resolve use_count [] s device now few away = record { sorted = tt; peers = tt }
connect_few-Inv resolve use_count (n ∷ []) s device now few away =
    connect_one-Inv resolve use_count n s device now (away n)
connect_few-Inv resolve use_count (n ∷ m ∷ names) s device now few away = absurd (omega arith)

-- The messages that greet the peers, if there are any: "open" with the first local address.
abbrev pub greetings : List Ptr → List XnerAddr → List ZprnSdat
greetings [] locals = []
greetings (p ∷ ps) locals =
    let route : InnerAddr = elim locals [ [] ↦ no_addr | x ∷ _ ↦ x.inner ] in
    record { zprn = record { cmd = 1; prio = 0; route = route }; dests = p ∷ ps; confirmed = null }
    ∷ []

-- One peer was made for the name of the remote, with the kind of address that the name has, or
-- none since there is no such name.
abbrev pub Connected : (List ℕ → Option SockAddr) → List (List ℕ) → Router → Type 0
Connected resolve names t =
    (All (λ name. resolve name ≡ none) names × (t.remotes ≡ []))
    ⊎ ((name : List ℕ) × (a : SockAddr) × (p : Ptr) × (names ≡ name ∷ [])
        × (resolve name ≡ some a)
        × (t.remotes ≡ p ∷ [])
        × (p ≢ null)
        × ((t.heap p).saddr.family ≡ a.family))

connect_few-Connected :
    (resolve : List ℕ → Option SockAddr) (use_count : Ptr → ℕ) (names : List (List ℕ))
    (s : Settings) (device : Interface) (now : ℕ)
    → length names ≤ 1
    → let t = connect_all resolve use_count names 0 (fresh_router s device now) in
      Connected resolve names t
      × (t.sender ≡ empty_queue)
      × (t.routes ≡ [])
      × (t.locals ≡ device.locals)
unfolding connect_all connect2server make_peer
connect_few-Connected resolve use_count [] s device now few = (inl (tt, refl), refl, refl, refl)
connect_few-Connected resolve use_count (n ∷ []) s device now few =
    elim (Option-cases (resolve n)) [
      | inl unknown ↦ rw (unknown, connect2server) (inl ((refl, tt), refl), refl, refl, refl)
      | inr (a, found) ↦
          rw (found, connect2server)
            (
              inr (
                n,
                a,
                1,
                refl,
                found,
                refl,
                λ e. omega (arith, e),
                set_port_if_unset-family s.data_port (new_config_peer now a 0),
              ),
              refl,
              refl,
              refl,
            )
    ]
connect_few-Connected resolve use_count (n ∷ m ∷ names) s device now few = absurd (omega arith)

-- What main does in front of the loop leaves the vector, and tells its peer.
module _ (x : Started) (epoll_fd : ℕ) where
  greet-remotes : (greet x epoll_fd).router.remotes ≡ x.router.remotes
  unfolding greet send_connmgmt_msg send_zprn_msg make_peer
  greet-remotes = ap (λ t. t.remotes) (add_local_routes-rest x.router.next_ptr x.router.locals _)

  greet-sender :
      (greet x epoll_fd).router.sender ≡ (send_connmgmt_msg zprn_connmgmt_open x.router).sender
  unfolding greet send_connmgmt_msg send_zprn_msg make_peer
  greet-sender = ap (λ t. t.sender) (add_local_routes-rest x.router.next_ptr x.router.locals _)

  told-nobody :
      x.router.remotes ≡ []
      → x.router.sender ≡ empty_queue
      → (send_connmgmt_msg zprn_connmgmt_open x.router).sender.zprn_msgs
        ≡ greetings [] x.router.locals
  unfolding send_connmgmt_msg send_zprn_msg msg_peers enqueue_zprn
  told-nobody nobody idle = rw (nobody, idle) refl

  told-peer :
      (p : Ptr)
      → x.router.remotes ≡ p ∷ []
      → x.router.sender ≡ empty_queue
      → p ≢ null
      → is_local (x.router.heap p) ≡ false
      → (send_connmgmt_msg zprn_connmgmt_open x.router).sender.zprn_msgs
        ≡ greetings (p ∷ []) x.router.locals
  unfolding send_connmgmt_msg send_zprn_msg msg_peers enqueue_zprn move_zprn
  told-peer p peer idle there away = rw (peer, idle) (ground (arith, there, away))

module _ (x : Started) (epoll_fd : ℕ) where
  greet-LocalRoute :
      x.router.routes ≡ []
      → All
          (λ i. LocalRoute (greet x epoll_fd).local_router (greet x epoll_fd).router.routes i.inner)
          x.router.locals
  unfolding greet send_connmgmt_msg send_zprn_msg make_peer
  greet-LocalRoute no_routes =
      add_local_routes-LocalRoute x.router.next_ptr x.router.locals _ no_routes

  greet-greetings :
      (resolve : List ℕ → Option SockAddr) (names : List (List ℕ))
      → ((name : List ℕ) (a : SockAddr) → resolve name ≡ some a → a.family ≢ af_unspec)
      → Connected resolve names x.router
      → x.router.sender ≡ empty_queue
      → (greet x epoll_fd).router.sender.zprn_msgs ≡ greetings x.router.remotes x.router.locals
  greet-greetings resolve names away (inl (unknown, nobody)) idle =
      ap (λ q. q.zprn_msgs) (greet-sender x epoll_fd)
      ∙ told-nobody x epoll_fd nobody idle
      ∙ ap (λ ps. greetings ps x.router.locals) (sym nobody)
  greet-greetings resolve names away (inr (n, a, p, one, found, peer, there, family)) idle =
      ap (λ q. q.zprn_msgs) (greet-sender x epoll_fd)
      ∙ told-peer x epoll_fd p peer idle there (ground (arith, away n a found, family))
      ∙ ap (λ ps. greetings ps x.router.locals) (sym peer)

-- If the configuration file names one remote at most, and the addresses of names have a family,
-- then the event loop starts in this state. There is one peer, with the kind of address that the
-- name of the remote has, or none if there is no remote with an address; so the vector of peers is
-- in order, strictly. The greeting with the first local address, or an empty one if there is none,
-- is queued for the peer, and no other message. For every local address there is a route that goes
-- to the local router alone, with no hops.
pub greet-connect_all-Inv :
    (resolve : List ℕ → Option SockAddr) (use_count : Ptr → ℕ) (s : Settings) (device : Interface)
    (now epoll_fd : ℕ) (server_fds : List (ℕ × ℕ))
    → length s.remotes ≤ 1
    → ((name : List ℕ) (a : SockAddr) → resolve name ≡ some a → a.family ≢ af_unspec)
    → let x : Started = record {
      router = connect_all resolve use_count s.remotes 0 (fresh_router s device now);
      device = device;
      server_fds = server_fds;
    } in
      Inv (greet x epoll_fd).router
      × Connected resolve s.remotes x.router
      × ((greet x epoll_fd).router.remotes ≡ x.router.remotes)
      × ((greet x epoll_fd).router.sender.zprn_msgs ≡ greetings x.router.remotes device.locals)
      × All
          (λ i. LocalRoute (greet x epoll_fd).local_router (greet x epoll_fd).router.routes i.inner)
          device.locals
greet-connect_all-Inv resolve use_count s device now epoll_fd server_fds few away =
    let x : Started = record {
      router = connect_all resolve use_count s.remotes 0 (fresh_router s device now);
      device = device;
      server_fds = server_fds;
    } in
    let (connected, idle, no_routes, locals) =
      connect_few-Connected resolve use_count s.remotes s device now few in
    (
      greet-Inv x epoll_fd (connect_few-Inv resolve use_count s.remotes s device now few away),
      connected,
      greet-remotes x epoll_fd,
      greet-greetings x epoll_fd resolve s.remotes away connected idle
          ∙ ap (greetings x.router.remotes) locals,
      subst
          (All (λ i.
            LocalRoute (greet x epoll_fd).local_router (greet x epoll_fd).router.routes i.inner))
          locals (greet-LocalRoute x epoll_fd no_routes),
    )
