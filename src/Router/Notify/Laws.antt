-- ===== src/Router/Notify/Laws.antt =====
-- What the ZPRN handlers do to the route table and what they send.
use mathlib.Core.Option
use zprd.Prelude.{
  ℕ, ◌+◌, ◌%◌, ◌<◌, ◌≡◌, ◌≢◌, ◌⊎◌, inl, inr, refl, ap, sym, ◌∙◌, subst, arith, List, [], ◌∷◌, ◌++◌,
  All, Bool, true, false, none, some, ◌==◌, Bool-cases, Option-cases, is_empty, if◌then◌else◌,
}
use zprd.Iafa.{InnerAddr, addr_eq}
use zprd.Iafa.Equality.{addr_eq_refl}
use zprd.Peer.{Ptr, Heap}
use zprd.Routes.{ViaRouter, RouteVia, empty, del_router, add_router, front_hops}
use zprd.Routes.Find.{del_router_lem, add_router_lem, refreshed}
use zprd.Router.{
  Router, RouteMap, find_route, have_route, set_route, learn_route, route_at, am_ii_addr,
  send_zprn_msg,
}
use zprd.Router.Map.{have_route-set_route}
use zprd.Router.Notify.{unlearn_route, routemod_handler, del_from_all}
use zprd.Zprn.{ZprnV2}

add_router-nonempty :
    (t : ℕ) (heap : Heap) (p : Ptr) (hops : ℕ) (r : RouteVia)
    → empty (add_router t heap p hops r).0 ≡ false
add_router-nonempty t heap p hops r = elim ((add_router_lem t heap p hops r).0) [
  | inl (_, _, e) ↦ rw e
  | inr (_, (before, v, after, _, _, _, e)) ↦
      rw e (nonempty_middle before (refreshed t hops v) after)
]
  where
    nonempty_middle :
        (before : List ViaRouter) (v : ViaRouter) (after : List ViaRouter)
        → is_empty (before ++ (v ∷ after)) ≡ false
    nonempty_middle [] v after = refl
    nonempty_middle (b ∷ before) v after = refl

-- A learned route is there at once, with the router as add_router puts it in, and the routes to
-- other addresses are as before.
pub have_route-learn_route :
    (a b : InnerAddr) (p : Ptr) (hops : ℕ) (s : Router)
    → have_route b (learn_route a p hops s) ≡ (
        if addr_eq a b
        then some (add_router s.last_time s.heap p hops (route_at a s.routes)).0
        else have_route b s)
unfolding learn_route
have_route-learn_route a b p hops s =
    have_route-set_route a b (add_router s.last_time s.heap p hops (route_at a s.routes)).0 s
    ∙ rw (add_router-nonempty s.last_time s.heap p hops (route_at a s.routes))

unlearn_route-none :
    (a : InnerAddr) (p : Ptr) (s : Router) → have_route a s ≡ none → unlearn_route a p s ≡ s
unfolding unlearn_route
unlearn_route-none a p s h = rw (h, unlearn_route)

unlearn_route-some :
    (a : InnerAddr) (p : Ptr) (s : Router) (q : RouteVia)
    → have_route a s ≡ some q
    → unlearn_route a p s ≡ set_route a (del_router p q).0 s
unfolding unlearn_route
unlearn_route-some a p s q h = rw (h, unlearn_route)

unlearn_route-have_route :
    (a b : InnerAddr) (p : Ptr) (s : Router)
    → addr_eq a b ≡ false
    → have_route b (unlearn_route a p s) ≡ have_route b s
unfolding unlearn_route
unlearn_route-have_route a b p s h = elim (Option-cases (have_route a s)) [
  | inl nowhere ↦ rw (nowhere, unlearn_route)
  | inr (r, there) ↦
      rw (there, unlearn_route) (have_route-set_route a b (del_router p r).0 s ∙ rw h)
]

some_of_if : (b : Bool) (x r : RouteVia) → (if b then none else some x) ≡ some r → x ≡ r
some_of_if b x r h = ground arith

kept-NotVia :
    (a : InnerAddr) (p : Ptr) (s : Router) (q r : RouteVia)
    → have_route a (set_route a (del_router p q).0 s) ≡ some r
    → All (λ v. v.addr ≢ p) r.routers
kept-NotVia a p s q r h =
    subst (λ x. All (λ v. v.addr ≢ p) x.routers)
      (some_of_if (empty (del_router p q).0) (del_router p q).0 r
        (cc (have_route-set_route a a (del_router p q).0 s, addr_eq_refl a)))
      (del_router_lem p q).0

unlearn_route-NotVia :
    (a : InnerAddr) (p : Ptr) (s : Router) (r : RouteVia)
    → have_route a (unlearn_route a p s) ≡ some r
    → All (λ v. v.addr ≢ p) r.routers
unlearn_route-NotVia a p s r h = elim (Option-cases (have_route a s)) [
  | inl nowhere ↦ cc (unlearn_route-none a p s nowhere)
  | inr (q, there) ↦ kept-NotVia a p s q r (rw (unlearn_route-some a p s q there) at h)
]

pub find_route-del_from_all :
    (a : InnerAddr) (p : Ptr) (m : RouteMap)
    → find_route a (del_from_all p m) ≡ Option.map (λ r. (del_router p r).0) (find_route a m)
unfolding find_route del_from_all
find_route-del_from_all a p [] = refl
find_route-del_from_all a p ((b, r) ∷ m) = ground (arith, find_route-del_from_all a p m)

send_zprn_msg-have_route :
    (a : InnerAddr) (msg : ZprnV2) (c : Ptr) (s : Router)
    → have_route a (send_zprn_msg msg c s) ≡ have_route a s
unfolding send_zprn_msg have_route
send_zprn_msg-have_route a msg c s = refl

routemod-own :
    (p : Ptr) (d : ZprnV2) (s : Router)
    → (d.prio == 0xff) ≡ false
    → am_ii_addr d.route true s ≡ true
    → routemod_handler p d s ≡ s
unfolding routemod_handler
routemod-own p d s h k = ground (arith, h, k)

routemod-learn :
    (p : Ptr) (d : ZprnV2) (s : Router)
    → (d.prio == 0xff) ≡ false
    → am_ii_addr d.route true s ≡ false
    → routemod_handler p d s ≡ learn_route d.route p ((d.prio + 1) % 256) s
unfolding routemod_handler
routemod-learn p d s h k = ground (arith, h, k)

routemod-delete :
    (p : Ptr) (d : ZprnV2) (s : Router) (a : InnerAddr)
    → (d.prio == 0xff) ≡ true
    → have_route a (routemod_handler p d s) ≡ have_route a (unlearn_route d.route p s)
unfolding routemod_handler
routemod-delete p d s a h =
    elim (Bool-cases (am_ii_addr d.route false (unlearn_route d.route p s))) [
      | inl own ↦ rw (h, own) (send_zprn_msg-have_route a (record d { prio = 0 }) p _)
      | inr other ↦ elim (Option-cases (have_route d.route (unlearn_route d.route p s))) [
        | inl nowhere ↦ rw (h, other, nowhere, routemod_handler)
        | inr (r, there) ↦
            rw (h, other)
              (rw (there, routemod_handler)
                (send_zprn_msg-have_route a (record d { prio = front_hops r }) p _))
      ]
    ]

-- A route notification, whose hop count is a byte, is ignored below 255 for an address of our own,
-- and otherwise learned as one hop more, with no wrap-around; it leaves all other routes alone. One
-- with 255 takes the sender out of the route, and leaves all other routes alone.
pub routemod_handler_lem :
    (p : Ptr) (d : ZprnV2) (s : Router) (a : InnerAddr)
    → d.prio < 256
    → ((d.prio < 255) × (am_ii_addr d.route true s ≡ true) × (routemod_handler p d s ≡ s))
      ⊎ (((d.prio < 255)
            × (am_ii_addr d.route true s ≡ false)
            × (have_route a (routemod_handler p d s) ≡ (
                if addr_eq d.route a
                then some
                    (add_router s.last_time s.heap p (d.prio + 1) (route_at d.route s.routes)).0
                else have_route a s)))
          ⊎ ((d.prio ≡ 255)
              × ((addr_eq d.route a ≡ true)
                  ⊎ (have_route a (routemod_handler p d s) ≡ have_route a s))
              × ((have_route d.route (routemod_handler p d s) ≡ none)
                  ⊎ ((r : RouteVia) × (have_route d.route (routemod_handler p d s) ≡ some r)
                      × All (λ v. v.addr ≢ p) r.routers))))
routemod_handler_lem p d s a h = elim (Bool-cases (d.prio == 0xff)) [
  | inr add ↦ elim (Bool-cases (am_ii_addr d.route true s)) [
    | inl own ↦ inl (ground arith, own, routemod-own p d s add own)
    | inr other ↦ inr (inl (ground arith, other, learned add other))
  ]
  | inl delete ↦ inr (inr (ground arith, elsewhere delete, here delete))
]
  where
    one_more : (d.prio == 0xff) ≡ false → (d.prio + 1) % 256 ≡ d.prio + 1
    one_more add = ground arith

    learned :
        (d.prio == 0xff) ≡ false
        → am_ii_addr d.route true s ≡ false
        → have_route a (routemod_handler p d s) ≡ (
            if addr_eq d.route a
            then some (add_router s.last_time s.heap p (d.prio + 1) (route_at d.route s.routes)).0
            else have_route a s)
    learned add other =
        ap (have_route a) (routemod-learn p d s add other)
        ∙ rw (one_more add) (have_route-learn_route d.route a p (d.prio + 1) s)

    elsewhere :
        (d.prio == 0xff) ≡ true
        → (addr_eq d.route a ≡ true) ⊎ (have_route a (routemod_handler p d s) ≡ have_route a s)
    elsewhere delete = elim (Bool-cases (addr_eq d.route a)) [
      | inl same ↦ inl same
      | inr other ↦
          inr (routemod-delete p d s a delete ∙ unlearn_route-have_route d.route a p s other)
    ]

    here :
        (d.prio == 0xff) ≡ true
        → (have_route d.route (routemod_handler p d s) ≡ none)
          ⊎ ((r : RouteVia) × (have_route d.route (routemod_handler p d s) ≡ some r)
              × All (λ v. v.addr ≢ p) r.routers)
    here delete = elim (Option-cases (have_route d.route (routemod_handler p d s))) [
      | inl nowhere ↦ inl nowhere
      | inr (r, there) ↦ inr (
        r,
        there,
        unlearn_route-NotVia d.route p s r (sym (routemod-delete p d s d.route delete) ∙ there),
      )
    ]
