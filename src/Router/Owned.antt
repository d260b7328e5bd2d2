-- ===== src/Router/Owned.antt =====
-- Where the routers in the route table come from: the handlers of src/main.cxx keep a predicate of
-- the peers if the sender of the packet satisfies it.
pub mod Notify
pub mod Packets
pub mod Rooted
pub mod Cleanup
pub mod Rounds
use zprd.Prelude.{
  ◌<◌, ℕ, ◌≡◌, inl, inr, List, [], ◌∷◌, All, Bool, true, false, Option, none, some, Bool-cases,
  Option-cases, arith, subst, sym, if◌then◌else◌, ◌==◌, not,
}
use zprd.Iafa.{InnerAddr, addr_eq}
use zprd.Peer.{Ptr, Heap}
use zprd.PingCache.{PingCache, PingData, match_reply}
use zprd.Routes.{RouteVia, empty, swap_near_routers, del_router}
use zprd.Routes.Owned.{
  Owned, Owned-if, add_router-Owned, update_router-Owned, del_router-Owned,
  del_primary_router-Owned, swap_near_routers-Owned,
}
use zprd.Router.{
  Router, RouteMap, find_route, put_route, route_at, learn_route, have_route, set_route,
  send_zprn_msg, am_ii_addr,
}
use zprd.Router.Notify.{
  unlearn_route, routemod_handler, del_from_all, connmgmt_handler, handle_probe_req, probe_handler,
  handle_entry,
}
use zprd.Router.Packet4.{Env, drop_primary, drop_unreachable, evaluate_ping}
use zprd.Router.Resolve.{drop_source, forward}
use zprd.Zprn.{ZprnV2}

-- The predicate holds of every router of every route, by its peer and its hop count.
abbrev pub AllOwned : (Ptr → ℕ → Type 0) → RouteMap → Type 0
AllOwned Q m = All (λ e. Owned Q e.1) m

pub record OwnsRoutes (Q : Ptr → ℕ → Type 0) (s : Router) : Type 0 where
  pub owned : AllOwned Q s.routes

-- The hop count of a reply fits in a byte.
match_reply-hops :
    (ms_time : ℕ) (dat : PingData) (router : Ptr) (ttl : ℕ) (c : PingCache)
    → (match_reply ms_time dat router ttl c).0.hops < 256
unfolding match_reply
match_reply-hops ms_time dat router ttl c = ground arith

-- What a peer whose packet is routed must satisfy: with it any hop count may be learned, and any
-- router may get a new hop count.
pub record Source (Q : Ptr → ℕ → Type 0) (p : Ptr) : Type 0 where
  pub gives : (h : ℕ) → h < 256 → Q p h
  pub steady : (a : Ptr) (o h : ℕ) → h < 256 → Q a o → Q a h

module _ (Q : Ptr → ℕ → Type 0) where
  pub OwnsRoutes-if :
      (b : Bool) (s t : Router)
      → OwnsRoutes Q s
      → OwnsRoutes Q t
      → OwnsRoutes Q (if b then s else t)
  OwnsRoutes-if true s t h k = h
  OwnsRoutes-if false s t h k = k

  pub OwnsRoutes-same : (s t : Router) → t.routes ≡ s.routes → OwnsRoutes Q s → OwnsRoutes Q t
  OwnsRoutes-same s t same h = record { owned = subst (AllOwned Q) (sym same) h.owned }

  find_route-Owned :
      (a : InnerAddr) (m : RouteMap) (r : RouteVia)
      → AllOwned Q m
      → find_route a m ≡ some r
      → Owned Q r
  unfolding find_route
  find_route-Owned a [] r h found = ground arith
  find_route-Owned a ((b, q) ∷ m) r h found = elim (Bool-cases (addr_eq b a)) [
    | inl here ↦ let same : q ≡ r = ground (arith, found, here) in subst (Owned Q) same h.0
    | inr past ↦ find_route-Owned a m r h.1 (ground (arith, found, past))
  ]

  pub put_route-AllOwned :
      (a : InnerAddr) (r : RouteVia) (m : RouteMap)
      → Owned Q r
      → AllOwned Q m
      → AllOwned Q (put_route a r m)
  unfolding put_route
  put_route-AllOwned a r [] o h = (o, tt)
  put_route-AllOwned a r ((b, q) ∷ m) o h = elim (Bool-cases (addr_eq b a)) [
    | inl here ↦ rw (here, put_route) (o, h.1)
    | inr past ↦ rw (past, put_route) (h.0, put_route-AllOwned a r m o h.1)
  ]

  route_at-Owned : (a : InnerAddr) (m : RouteMap) → AllOwned Q m → Owned Q (route_at a m)
  unfolding route_at
  route_at-Owned a m h = elim (Option-cases (find_route a m)) [
    | inl missing ↦ rw (missing, route_at) tt
    | inr (r, found) ↦ rw (found, route_at) (find_route-Owned a m r h found)
  ]

  pub learn_route-OwnsRoutes :
      (a : InnerAddr) (p : Ptr) (hops : ℕ) (s : Router)
      → hops < 256
      → Source Q p
      → OwnsRoutes Q s
      → OwnsRoutes Q (learn_route a p hops s)
  unfolding learn_route
  learn_route-OwnsRoutes a p hops s byte q h = record {
    owned =
        put_route-AllOwned a _ s.routes
          (add_router-Owned Q s.last_time s.heap p hops _ (q.gives hops byte)
            (λ b o. q.steady b o hops byte) (route_at-Owned a s.routes h.owned))
          h.owned;
  }

  have_route-Owned :
      (a : InnerAddr) (s : Router) (r : RouteVia)
      → OwnsRoutes Q s
      → have_route a s ≡ some r
      → Owned Q r
  unfolding have_route
  have_route-Owned a s r h found = elim (Option-cases (find_route a s.routes)) [
    | inl missing ↦ ground (arith, missing, found)
    | inr (q, at) ↦ find_route-Owned a s.routes r h.owned (ground (arith, at, found))
  ]

  set_route-OwnsRoutes :
      (a : InnerAddr) (r : RouteVia) (s : Router)
      → Owned Q r
      → OwnsRoutes Q s
      → OwnsRoutes Q (set_route a r s)
  set_route-OwnsRoutes a r s o h = record { owned = put_route-AllOwned a r s.routes o h.owned }

  -- A write through the pointer of have_route, if it is not null.
  pub change_route-OwnsRoutes :
      (a : InnerAddr) (f : RouteVia → RouteVia) (s : Router)
      → ((r : RouteVia) → Owned Q r → Owned Q (f r))
      → OwnsRoutes Q s
      → OwnsRoutes Q (elim (have_route a s) [ none ↦ s | some r ↦ set_route a (f r) s ])
  change_route-OwnsRoutes a f s keep h = elim (Option-cases (have_route a s)) [
    | inl missing ↦ rw missing h
    | inr (r, found) ↦
        rw found (set_route-OwnsRoutes a (f r) s (keep r (have_route-Owned a s r h found)) h)
  ]

  pub drop_primary-OwnsRoutes :
      (dst : InnerAddr) (s : Router) → OwnsRoutes Q s → OwnsRoutes Q (drop_primary dst s)
  unfolding drop_primary
  drop_primary-OwnsRoutes dst s h = change_route-OwnsRoutes dst _ s (del_primary_router-Owned Q) h

  pub unlearn_route-OwnsRoutes :
      (a : InnerAddr) (p : Ptr) (s : Router) → OwnsRoutes Q s → OwnsRoutes Q (unlearn_route a p s)
  unfolding unlearn_route
  unlearn_route-OwnsRoutes a p s h = change_route-OwnsRoutes a _ s (del_router-Owned Q p) h

  pub drop_unreachable-OwnsRoutes :
      (p : Ptr) (dst : InnerAddr) (s : Router)
      → OwnsRoutes Q s
      → OwnsRoutes Q (drop_unreachable p dst s).0
  unfolding drop_unreachable
  drop_unreachable-OwnsRoutes p dst s h = elim (Option-cases (have_route dst s)) [
    | inl missing ↦ rw (missing, drop_unreachable) h
    | inr (r, found) ↦
        rw (found, drop_unreachable)
          (set_route-OwnsRoutes dst _ s (del_router-Owned Q p r (have_route-Owned dst s r h found))
            h)
  ]

  pub evaluate_ping-OwnsRoutes :
      (env : Env) (p d : Ptr) (edat : PingData) (echo reply : Bool) (ttl : ℕ) (s : Router)
      → Source Q p
      → OwnsRoutes Q s
      → OwnsRoutes Q (evaluate_ping env p d edat echo reply ttl s)
  unfolding evaluate_ping
  evaluate_ping-OwnsRoutes env p d edat echo reply ttl s q h =
      let (m, cache) = match_reply env.ms_time edat p ttl s.ping_cache in
      let s1 = record s { ping_cache = cache } in
      let h1 : OwnsRoutes Q s1 = record { owned = h.owned } in
      OwnsRoutes-if echo _ _ (record { owned = h.owned })
        (OwnsRoutes-if reply _ s
          (OwnsRoutes-if m.matched _ s1
            (change_route-OwnsRoutes edat.src _ s1
              (λ r.
                update_router-Owned Q s1.last_time s1.heap m.router m.hops m.diff r (λ b o.
                  q.steady b o m.hops (match_reply-hops env.ms_time edat p ttl s.ping_cache)))
              h1)
            h1)
          h)

  drop_source-Owned :
      (p : Ptr) (s : Router) (r : RouteVia) → Owned Q r → Owned Q (drop_source p s r)
  unfolding drop_source
  drop_source-Owned p s r h =
      let o = del_router-Owned Q p r h in
      Owned-if Q _ _ _ (del_primary_router-Owned Q (del_router p r).0 o) o

  pub forward-OwnsRoutes :
      (rand : ℕ) (p : Ptr) (dst : InnerAddr) (s : Router)
      → OwnsRoutes Q s
      → OwnsRoutes Q (forward rand p dst s).0
  unfolding forward
  forward-OwnsRoutes rand p dst s h = elim (Option-cases (have_route dst s)) [
    | inl missing ↦ rw (missing, forward) h
    | inr (r, found) ↦
        let r1 = drop_source p s r in
        let o1 = drop_source-Owned p s r (have_route-Owned dst s r h found) in
        let o2 =
          Owned-if Q (s.max_near_rtt == 0) r1 (swap_near_routers rand s.max_near_rtt r1) o1
            (swap_near_routers-Owned Q rand s.max_near_rtt r1 o1) in
        elim (Bool-cases (empty r1)) [
          | inl none_left ↦ rw (found, none_left, forward) (set_route-OwnsRoutes dst r1 s o1 h)
          | inr left ↦ rw (found, left, forward) (set_route-OwnsRoutes dst _ s o2 h)
        ]
  ]
