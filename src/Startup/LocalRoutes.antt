-- ===== src/Startup/LocalRoutes.antt =====
-- The routes to ourselves that main makes before the event loop, by add_local_routes.
use zprd.Prelude.{
  ◌≡◌, ◌⊎◌, inl, inr, refl, ◌∙◌, arith, List, [], ◌∷◌, All, true, false, none, some, Bool-cases,
}
use zprd.Iafa.{InnerAddr, XnerAddr, addr_eq}
use zprd.Iafa.Equality.{addr_eq_refl}
use zprd.Peer.{Ptr}
use zprd.Routes.{
  ViaRouter, RouteVia, no_routers, add_router, new_router, find_router, modify_at, update_hopcnt,
}
use zprd.Router.{Router, RouteMap, find_route, route_at, learn_route}
use zprd.Router.Map.{find_route-put_route}
use zprd.Router.Timers.{add_local_routes}

-- The route to an address has the local router alone, with no hops.
abbrev pub GoesHere : Ptr → RouteVia → Type 0
GoesHere p r = (v : ViaRouter) × (r.routers ≡ v ∷ []) × (v.addr ≡ p) × (v.hops ≡ 0)

abbrev pub LocalRoute : Ptr → RouteMap → InnerAddr → Type 0
LocalRoute p m a = (r : RouteVia) × (find_route a m ≡ some r) × GoesHere p r

-- There are no other routes.
abbrev OnlyLocal : Ptr → RouteMap → Type 0
OnlyLocal p m = (a : InnerAddr) → (find_route a m ≡ none) ⊎ LocalRoute p m a

add_router-GoesHere :
    (p : Ptr) (s : Router) (r : RouteVia)
    → (r ≡ no_routers) ⊎ GoesHere p r
    → GoesHere p (add_router s.last_time s.heap p 0 r).0
unfolding add_router find_router modify_at update_hopcnt
add_router-GoesHere p s r (inl none_yet) =
    rw none_yet (new_router s.last_time p 0, refl, refl, refl)
add_router-GoesHere p s r (inr (v, alone, here, hops)) = (
  record v { seen = s.last_time; hops = update_hopcnt v.hops 0 },
  rw (alone, found, add_router, alone) refl,
  here,
  ground (arith, hops),
)
  where
    found : find_router s.heap p (v ∷ []) ≡ some 0
    found = ground (arith, here)

module _ (p : Ptr) (y : InnerAddr) (s : Router) (only : OnlyLocal p s.routes) where
  abbrev learned : RouteVia
  learned = (add_router s.last_time s.heap p 0 (route_at y s.routes)).0

  learned-GoesHere : GoesHere p learned
  unfolding route_at
  learned-GoesHere = add_router-GoesHere p s (route_at y s.routes) (elim (only y) [
    | inl nowhere ↦ inl (rw (nowhere, route_at) refl)
    | inr (r, found, here) ↦ inr (rw (found, route_at) here)
  ])

  learn_route-at :
      (a : InnerAddr) → addr_eq y a ≡ true → LocalRoute p (learn_route y p 0 s).routes a
  unfolding learn_route
  learn_route-at a same =
      (learned, find_route-put_route y a learned s.routes ∙ rw same refl, learned-GoesHere)

  learn_route-kept :
      (a : InnerAddr)
      → addr_eq y a ≡ false
      → find_route a (learn_route y p 0 s).routes ≡ find_route a s.routes
  unfolding learn_route
  learn_route-kept a other = find_route-put_route y a learned s.routes ∙ rw other refl

  learn_route-OnlyLocal : OnlyLocal p (learn_route y p 0 s).routes
  learn_route-OnlyLocal a = elim (Bool-cases (addr_eq y a)) [
    | inl same ↦ inr (learn_route-at a same)
    | inr other ↦ elim (only a) [
      | inl nowhere ↦ inl (learn_route-kept a other ∙ nowhere)
      | inr (r, found, here) ↦ inr (r, learn_route-kept a other ∙ found, here)
    ]
  ]

  learn_route-LocalRoute :
      (a : InnerAddr) → LocalRoute p s.routes a → LocalRoute p (learn_route y p 0 s).routes a
  learn_route-LocalRoute a (r, found, here) = elim (Bool-cases (addr_eq y a)) [
    | inl same ↦ learn_route-at a same
    | inr other ↦ (r, learn_route-kept a other ∙ found, here)
  ]

add_local_routes-kept :
    (p : Ptr) (locals : List XnerAddr) (s : Router) (a : InnerAddr)
    → OnlyLocal p s.routes
    → LocalRoute p s.routes a
    → LocalRoute p (add_local_routes p locals s).routes a
unfolding add_local_routes
add_local_routes-kept p [] s a only k = k
add_local_routes-kept p (x ∷ locals) s a only k =
    add_local_routes-kept p locals (learn_route x.inner p 0 s) a
      (learn_route-OnlyLocal p x.inner s only) (learn_route-LocalRoute p x.inner s only a k)

add_local_routes-All :
    (p : Ptr) (locals : List XnerAddr) (s : Router)
    → OnlyLocal p s.routes
    → All (λ x. LocalRoute p (add_local_routes p locals s).routes x.inner) locals
unfolding add_local_routes
add_local_routes-All p [] s only = tt
add_local_routes-All p (x ∷ locals) s only =
    let next = learn_route-OnlyLocal p x.inner s only in
    (
      add_local_routes-kept p locals (learn_route x.inner p 0 s) x.inner next
          (learn_route-at p x.inner s only x.inner (addr_eq_refl x.inner)),
      add_local_routes-All p locals (learn_route x.inner p 0 s) next,
    )

-- If there are no routes before, each local address gets one that goes to the local router.
pub add_local_routes-LocalRoute :
    (p : Ptr) (locals : List XnerAddr) (s : Router)
    → s.routes ≡ []
    → All (λ x. LocalRoute p (add_local_routes p locals s).routes x.inner) locals
unfolding find_route
add_local_routes-LocalRoute p locals s no_routes =
    add_local_routes-All p locals s (λ a. inl (rw (no_routes, find_route) refl))

-- Nothing but the routes is changed.
pub add_local_routes-rest :
    (p : Ptr) (locals : List XnerAddr) (s : Router)
    → add_local_routes p locals s ≡ record s { routes = (add_local_routes p locals s).routes }
unfolding add_local_routes learn_route
add_local_routes-rest p [] s = refl
add_local_routes-rest p (x ∷ locals) s = add_local_routes-rest p locals (learn_route x.inner p 0 s)
