-- ===== src/Router/Owned/Notify.antt =====
-- The handlers of ZPRN entries, and where the routers in the route table come from.
use zprd.Prelude.{arith, ℕ, [], ◌∷◌, Bool, true, false, Option, none, some, inl, inr, Option-cases}
use zprd.Peer.{Ptr}
use zprd.Routes.{RouteVia}
use zprd.Routes.Owned.{del_router-Owned}
use zprd.Router.{Router, RouteMap, have_route, send_zprn_msg}
use zprd.Router.Notify.{
  unlearn_route, routemod_handler, del_from_all, connmgmt_handler, handle_probe_req, probed_hops,
  probe_handler, handle_entry,
}
use zprd.Router.Owned.{
  AllOwned, Source, OwnsRoutes, OwnsRoutes-if, learn_route-OwnsRoutes, change_route-OwnsRoutes,
  unlearn_route-OwnsRoutes,
}
use zprd.Zprn.{ZprnV2}

module _ (Q : Ptr → ℕ → Type 0) where
  send_zprn_msg-OwnsRoutes :
      (z : ZprnV2) (p : Ptr) (s : Router) → OwnsRoutes Q s → OwnsRoutes Q (send_zprn_msg z p s)
  unfolding send_zprn_msg
  send_zprn_msg-OwnsRoutes z p s h = record { owned = h.owned }

  -- The message about the route that is left.
  told-OwnsRoutes :
      (o : Option RouteVia) (f : RouteVia → ZprnV2) (p : Ptr) (s : Router)
      → OwnsRoutes Q s
      → OwnsRoutes Q (elim o [ none ↦ s | some r ↦ send_zprn_msg (f r) p s ])
  told-OwnsRoutes none f p s h = h
  told-OwnsRoutes (some r) f p s h = send_zprn_msg-OwnsRoutes (f r) p s h

  routemod_handler-OwnsRoutes :
      (p : Ptr) (d : ZprnV2) (s : Router)
      → Source Q p
      → OwnsRoutes Q s
      → OwnsRoutes Q (routemod_handler p d s)
  unfolding routemod_handler
  routemod_handler-OwnsRoutes p d s q h =
      let s1 = unlearn_route d.route p s in
      let h1 = unlearn_route-OwnsRoutes Q d.route p s h in
      OwnsRoutes-if Q _ _ _
        (OwnsRoutes-if Q _ _ _ h (learn_route-OwnsRoutes Q d.route p _ s (omega arith) q h))
        (OwnsRoutes-if Q _ _ _ (send_zprn_msg-OwnsRoutes _ p s1 h1)
          (told-OwnsRoutes (have_route d.route s1) _ p s1 h1))

  pub del_from_all-AllOwned :
      (p : Ptr) (m : RouteMap) → AllOwned Q m → AllOwned Q (del_from_all p m)
  unfolding del_from_all
  del_from_all-AllOwned p [] h = tt
  del_from_all-AllOwned p ((a, r) ∷ m) h =
      (del_router-Owned Q p r h.0, del_from_all-AllOwned p m h.1)

  connmgmt_handler-OwnsRoutes :
      (p : Ptr) (d : ZprnV2) (s : Router)
      → Source Q p
      → OwnsRoutes Q s
      → OwnsRoutes Q (connmgmt_handler p d s)
  unfolding connmgmt_handler
  connmgmt_handler-OwnsRoutes p d s q h =
      let s1 = record s { routes = del_from_all p s.routes } in
      OwnsRoutes-if Q _ _ _
        (OwnsRoutes-if Q _ _ _ h (learn_route-OwnsRoutes Q d.route p 1 s (omega arith) q h))
        (change_route-OwnsRoutes Q d.route (λ r. record r { routers = [] }) s1 (λ r o. tt)
          (record { owned = del_from_all-AllOwned p s.routes h.owned }))

  handle_probe_req-OwnsRoutes :
      (p : Ptr) (d : ZprnV2) (expected : Bool) (s : Router)
      → OwnsRoutes Q s
      → OwnsRoutes Q (handle_probe_req p d expected s)
  unfolding handle_probe_req
  handle_probe_req-OwnsRoutes p d expected s h = elim (Option-cases (probed_hops p d.route s)) [
    | inl missing ↦
        rw (missing, handle_probe_req) (OwnsRoutes-if Q expected _ s (record { owned = h.owned }) h)
    | inr (hops, found) ↦ rw (found, handle_probe_req) (record { owned = h.owned })
  ]

  probe_handler-OwnsRoutes :
      (p : Ptr) (d : ZprnV2) (s : Router) → OwnsRoutes Q s → OwnsRoutes Q (probe_handler p d s)
  unfolding probe_handler
  probe_handler-OwnsRoutes p d s h =
      OwnsRoutes-if Q _ _ _ (unlearn_route-OwnsRoutes Q d.route p s h) (
        OwnsRoutes-if Q _ _ _ (handle_probe_req-OwnsRoutes p d false s h)
          (OwnsRoutes-if Q _ _ s (handle_probe_req-OwnsRoutes p d true s h) h))

  pub handle_entry-OwnsRoutes :
      (p : Ptr) (d : ZprnV2) (s : Router)
      → Source Q p
      → OwnsRoutes Q s
      → OwnsRoutes Q (handle_entry p d s)
  unfolding handle_entry
  handle_entry-OwnsRoutes p d s q h =
      OwnsRoutes-if Q _ _ _ (routemod_handler-OwnsRoutes p d s q h) (
        OwnsRoutes-if Q _ _ _ (connmgmt_handler-OwnsRoutes p d s q h)
          (OwnsRoutes-if Q _ _ s (probe_handler-OwnsRoutes p d s h) h))
