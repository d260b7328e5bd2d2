-- ===== src/Router/Notify/Close.antt =====
-- What the messages of a peer that opens or closes its connection, and the probes, do.
use mathlib.Core.Option
use zprd.Prelude.{
  ◌≡◌, ◌≢◌, ◌⊎◌, inl, inr, refl, ap, sym, ◌∙◌, subst, arith, [], All, Bool, true, false, Option,
  none, some, ◌==◌, Bool-cases, Option-cases, if◌then◌else◌,
}
use zprd.Iafa.{InnerAddr, addr_eq}
use zprd.Peer.{Ptr}
use zprd.Routes.{RouteVia, empty, del_router, add_router}
use zprd.Routes.Find.{del_router_lem}
use zprd.Router.{Router, find_route, have_route, route_at, learn_route, am_ii_addr}
use zprd.Router.Map.{have_route-set_route, find_route-addr_eq}
use zprd.Router.Notify.{connmgmt_handler, del_from_all}
use zprd.Router.Notify.Laws.{find_route-del_from_all, have_route-learn_route}
use zprd.Zprn.{ZprnV2}

-- The table after the closing peer is taken out of all routes.
unfoldable pub forgotten : Ptr → Router → Router
forgotten p s = record s { routes = del_from_all p s.routes }

some_of_if : (b : Bool) (x r : RouteVia) → (if b then none else some x) ≡ some r → x ≡ r
some_of_if b x r h = ground arith

abbrev routed : Option RouteVia → Option RouteVia
routed none = none
routed (some r) = if empty r then none else some r

have_route-routed : (a : InnerAddr) (s : Router) → have_route a s ≡ routed (find_route a s.routes)
unfolding have_route
have_route-routed a s = elim (Option-cases (find_route a s.routes)) [
  | inl nowhere ↦ rw (nowhere, have_route) refl
  | inr (r, there) ↦ rw (there, have_route) refl
]

have_route-addr_eq :
    (a b : InnerAddr) (s : Router) → addr_eq a b ≡ true → have_route a s ≡ have_route b s
have_route-addr_eq a b s h =
    have_route-routed a s
    ∙ (ap routed (find_route-addr_eq a b s.routes h) ∙ sym (have_route-routed b s))

have_route-forgotten :
    (p : Ptr) (s : Router) (a : InnerAddr)
    → have_route a (forgotten p s)
      ≡ routed (Option.map (λ r. (del_router p r).0) (find_route a s.routes))
unfolding forgotten
have_route-forgotten p s a =
    have_route-routed a (forgotten p s) ∙ ap routed (find_route-del_from_all a p s.routes)

forgotten-avoids :
    (p : Ptr) (s : Router) (a : InnerAddr) (r : RouteVia)
    → have_route a (forgotten p s) ≡ some r
    → All (λ v. v.addr ≢ p) r.routers
forgotten-avoids p s a r h = elim (Option-cases (find_route a s.routes)) [
  | inl nowhere ↦ absurd (gone nowhere)
  | inr (q, there) ↦
      subst (λ x. All (λ v. v.addr ≢ p) x.routers)
        (some_of_if (empty (del_router p q).0) (del_router p q).0 r (left q there))
        (del_router_lem p q).0
]
  where
    gone : ¬ (find_route a s.routes ≡ none)
    gone nowhere = cc (have_route-forgotten p s a, nowhere, h)

    left :
        (q : RouteVia) → find_route a s.routes ≡ some q → routed (some (del_router p q).0) ≡ some r
    left q there =
        sym (ap (λ x. routed (Option.map (λ r. (del_router p r).0) x)) there)
        ∙ (sym (have_route-forgotten p s a) ∙ h)

connmgmt-close :
    (p : Ptr) (d : ZprnV2) (s : Router) (a : InnerAddr)
    → (d.prio == 0) ≡ false
    → have_route a (connmgmt_handler p d s)
      ≡ (if addr_eq d.route a then none else have_route a (forgotten p s))
unfolding connmgmt_handler forgotten
connmgmt-close p d s a closing = elim (Option-cases (have_route d.route (forgotten p s))) [
  | inl nowhere ↦ elim (Bool-cases (addr_eq d.route a)) [
    | inl same ↦
        rw (closing, nowhere, same)
          (sym (have_route-addr_eq d.route a (forgotten p s) same) ∙ nowhere)
    | inr other ↦ rw (closing, nowhere, other) refl
  ]
  | inr (r, there) ↦
      rw (closing, there)
        (have_route-set_route d.route a (record r { routers = [] }) (forgotten p s))
]

connmgmt-open :
    (p : Ptr) (d : ZprnV2) (s : Router) (own : Bool)
    → (d.prio == 0) ≡ true
    → am_ii_addr d.route true s ≡ own
    → connmgmt_handler p d s ≡ (if own then s else learn_route d.route p 1 s)
unfolding connmgmt_handler
connmgmt-open p d s own opening mine = rw (opening, mine) refl

closed :
    (p : Ptr) (d : ZprnV2) (s : Router) (a : InnerAddr) (r : RouteVia)
    → (d.prio == 0) ≡ false
    → have_route a (connmgmt_handler p d s) ≡ some r
    → (addr_eq d.route a ≡ false) × All (λ v. v.addr ≢ p) r.routers
closed p d s a r closing there = elim (Bool-cases (addr_eq d.route a)) [
  | inl same ↦ absurd (lost same)
  | inr other ↦ (other, forgotten-avoids p s a r (kept other))
]
  where
    lost : ¬ (addr_eq d.route a ≡ true)
    lost same = cc (connmgmt-close p d s a closing, same, there)

    kept : addr_eq d.route a ≡ false → have_route a (forgotten p s) ≡ some r
    kept other = cc (connmgmt-close p d s a closing, other, there)

-- A connection message with 0 learns a route of one hop to the address of the sender, unless that
-- is an address of our own, which changes nothing. With any other number no route is left that
-- goes by the sender, and none to its address.
pub connmgmt_handler_lem :
    (p : Ptr) (d : ZprnV2) (s : Router) (a : InnerAddr)
    → ((d.prio ≡ 0) × (am_ii_addr d.route true s ≡ true) × (connmgmt_handler p d s ≡ s))
      ⊎ (((d.prio ≡ 0)
            × (am_ii_addr d.route true s ≡ false)
            × (have_route a (connmgmt_handler p d s) ≡ (
                if addr_eq d.route a
                then some (add_router s.last_time s.heap p 1 (route_at d.route s.routes)).0
                else have_route a s)))
          ⊎ ((d.prio ≢ 0)
              × ((have_route a (connmgmt_handler p d s) ≡ none)
                  ⊎ ((r : RouteVia) × (have_route a (connmgmt_handler p d s) ≡ some r)
                      × (addr_eq d.route a ≡ false)
                      × All (λ v. v.addr ≢ p) r.routers))))
connmgmt_handler_lem p d s a = elim (Bool-cases (d.prio == 0)) [
  | inl opening ↦ elim (Bool-cases (am_ii_addr d.route true s)) [
    | inl own ↦ inl (ground arith, own, connmgmt-open p d s true opening own)
    | inr other ↦ inr (
        inl (
          ground arith,
          other,
          ap (have_route a) (connmgmt-open p d s false opening other)
              ∙ have_route-learn_route d.route a p 1 s,
        ))
  ]
  | inr closing ↦ inr (
      inr (
        ground arith,
        elim (Option-cases (have_route a (connmgmt_handler p d s))) [
          | inl nowhere ↦ inl nowhere
          | inr (r, there) ↦
              let (other, avoids) = closed p d s a r closing there in inr (r, there, other, avoids)
        ],
      ))
]
