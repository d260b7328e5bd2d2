-- ===== src/Router/Resolve.antt =====
-- resolve_route of src/main.cxx. `rand` is the number that swap_near_routers draws.
pub mod Laws
use zprd.Prelude.{
  ℕ, ◌-◌, List, [], ◌∷◌, Bool, true, false, not, ◌&&◌, ◌||◌, Option, none, some, any_of, ◌==◌,
  if◌then◌else◌,
}
use zprd.Iafa.{InnerAddr, addr_eq, is_direct_broadcast}
use zprd.Peer.{Ptr, is_local, peer_eq, new_peer}
use zprd.Remotes.{rem_peer}
use zprd.Routes.{RouteVia, empty, get_router, del_router, del_primary_router, swap_near_routers}
use zprd.Router.{Router, max_ttl, learn_route, have_route, set_route, am_ii_addr, make_peer}

-- The route to the destination without the source: its pointer is deleted, and then the primary
-- router if it is at the address of the source.
unfoldable pub drop_source : Ptr → Router → RouteVia → RouteVia
drop_source source_peer s r =
    let r1 = (del_router source_peer r).0 in
    if not (empty r1) && peer_eq (s.heap source_peer) (s.heap (get_router r1))
    then del_primary_router r1
    else r1

abbrev pub source_hops : InnerAddr → ℕ → Router → ℕ
source_hops iaddr_src ip_ttl s = if am_ii_addr iaddr_src false s then 0 else max_ttl - ip_ttl

-- What is left when there is no route: a blocked destination is dropped, any other goes to all
-- peers but the source.
unfoldable pub flood : Ptr → InnerAddr → Router → List Ptr
flood source_peer iaddr_dest s =
    if any_of (λ b. addr_eq b iaddr_dest) s.blocked_broadcast_dsts
    then []
    else (rem_peer s.heap s.remotes source_peer).0

unfoldable pub forward : ℕ → Ptr → InnerAddr → Router → Router × List Ptr
forward rand source_peer iaddr_dest s = elim (have_route iaddr_dest s) [
  | none ↦ (s, flood source_peer iaddr_dest s)
  | some r ↦
      let r1 = drop_source source_peer s r in
      let r2 = if s.max_near_rtt == 0 then r1 else swap_near_routers rand s.max_near_rtt r1 in
      if empty r1
      then (set_route iaddr_dest r1 s, flood source_peer iaddr_dest s)
      else (set_route iaddr_dest r2 s, get_router r2 ∷ [])
]

unfoldable pub resolve_route :
    ℕ → Ptr → InnerAddr → InnerAddr → ℕ → Bool → Router → Router × List Ptr
resolve_route rand source_peer iaddr_src iaddr_dest ip_ttl destination_is_local s =
    let s1 = learn_route iaddr_src source_peer (source_hops iaddr_src ip_ttl s) s in
    if destination_is_local
      || (not (is_local (s1.heap source_peer)) && is_direct_broadcast iaddr_dest)
    then (let (s2, here) = make_peer (new_peer s1.last_time) s1 in (s2, here ∷ []))
    else forward rand source_peer iaddr_dest s1
