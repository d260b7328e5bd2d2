-- ===== src/Examples/Route.antt =====
-- Routes, peers and the handlers at concrete inputs.
use mathlib.Core.List.{Perm}
use zprd.Cksum.{in_cksum}
use zprd.Ip.{
  ip_v, ip_len, ip_ttl, ip_p, ip_src, ip_dst, ip_size, icmphdr_size, icmp_type, icmp_code, ip_cksum,
  set_sum,
}
use zprd.Router.Icmp.{IcmpError, icmp_packet}
use zprd.Router.Icmp.Laws.{icmp_packet_lem}
use zprd.Prelude.{
  ℕ, ◌+◌, ◌%◌, ◌<◌, ◌≤◌, ◌≡◌, ◌≢◌, ◌⊎◌, refl, arith, List, [], ◌∷◌, All, true, false, Option, some,
  none, length, drop, if◌then◌else◌,
}
use zprd.Oafa.{SockAddr, sa_compare, sa_family2size}
use zprd.Bytes.{fit, memcmp}
use zprd.Iafa.{addr_eq}
use zprd.Peer.{Ptr, peer_lt}
use zprd.Routes.{ViaRouter, RouteVia, add_router, cleanup, swap_near_routers}
use zprd.Routes.Cleanup.{InOrder, IsKept, Sifted, cleanup_lem}
use zprd.Routes.Swap.{Alone, Rotated, swap_near_routers_lem}
use zprd.Remotes.{rem_peer, find_or_insert}
use zprd.Remotes.Sorted.{IsSorted, Missing, Erased, rem_peer_lem}
use zprd.Remotes.Insert.{Known, Added, find_or_insert_lem}
use zprd.Router.{have_route, route_at, am_ii_addr}
use zprd.Router.Resolve.{resolve_route}
use zprd.Router.Resolve.Laws.{resolve_route-avoids}
use zprd.Router.Notify.{routemod_handler, connmgmt_handler}
use zprd.Router.Notify.Laws.{routemod_handler_lem}
use zprd.Router.Notify.Close.{connmgmt_handler_lem}
use zprd.Router.Packet4.{Env, route_packet}
use zprd.Router.Packet4.Queued.{IsRouted, route_packet-Queues}
use zprd.Router.Queues.{Queues}
use zprd.Router.Timers.{cleanup_round}
use zprd.Router.Timers.Found.{cleanup_round-AllFound}
use zprd.Zprn.{ZprnV2, zprn_routemod, zprn_connmgmt}
use zprd.Examples.{test_heap, both, inner, via, test_router}

pub both-IsSorted : IsSorted test_heap both
unfolding peer_lt sa_compare memcmp sa_family2size
both-IsSorted = ((refl, tt), (tt, tt))

-- A packet from peer 1 to the host behind peer 2.
resolve_route-avoids_example :
    All (λ d. d ≢ 1) (resolve_route 0 1 (inner 1) (inner 7) 63 false test_router).1
resolve_route-avoids_example =
    resolve_route-avoids 0 1 (inner 1) (inner 7) 63 false test_router both-IsSorted (omega arith)

abbrev pub test_env : Env
test_env = record { rand = 0; ip_id = 7; ms_time = 1000; stack = [] }

-- UDP from 192.168.0.1 to 192.168.0.7 with a ttl of 64.
abbrev packet : List ℕ
packet =
    0x45 ∷ 0 ∷ 0 ∷ 20 ∷ 0 ∷ 1 ∷ 0x40 ∷ 0 ∷ 64 ∷ 17 ∷ 0 ∷ 0 ∷ 192 ∷ 168 ∷ 0 ∷ 1 ∷ 192 ∷ 168 ∷ 0 ∷ 7
    ∷ []

route_packet-Queues_example :
    Queues
      (IsRouted test_env.ip_id 1 packet 20 test_router)
      test_router
      (route_packet test_env 1 packet 20 test_router)
route_packet-Queues_example =
    route_packet-Queues test_env 1 packet 20 test_router both-IsSorted (omega arith) (omega arith)

abbrev two_ways : RouteVia
two_ways = record { routers = via 1 20 2 ∷ via 2 22 2 ∷ []; fresh_add = false }

cleanup_lem_example :
    let (res, gone) = cleanup 200 300 test_heap two_ways in
    InOrder res.routers
    × All (IsKept 200 300 test_heap) res.routers
    × ((kept : List ViaRouter) × Sifted (IsKept 200 300 test_heap) two_ways.routers kept gone
        × Perm res.routers kept)
    × (res.fresh_add ≡ two_ways.fresh_add)
cleanup_lem_example = cleanup_lem 200 300 test_heap two_ways

swap_near_routers_lem_example :
    ((swap_near_routers 4 5 two_ways ≡ two_ways) × ((4 % 2 ≢ 0) ⊎ Alone 5 two_ways.routers))
    ⊎ ((4 % 2 ≡ 0)
        × Rotated 5 two_ways.routers (swap_near_routers 4 5 two_ways).routers
        × ((swap_near_routers 4 5 two_ways).fresh_add ≡ two_ways.fresh_add))
swap_near_routers_lem_example = swap_near_routers_lem 4 5 two_ways

rem_peer_lem_example :
    ((rem_peer test_heap both 3 ≡ (both, false)) × Missing test_heap 3 both)
    ⊎ (((rem_peer test_heap both 3).1 ≡ true)
        × Erased test_heap 3 both (rem_peer test_heap both 3).0)
rem_peer_lem_example = rem_peer_lem test_heap both 3 both-IsSorted

find_or_insert_lem_example :
    (Known test_heap 3 both (find_or_insert test_heap both 3)
      ⊎ Added test_heap 3 both (find_or_insert test_heap both 3))
    × IsSorted test_heap (find_or_insert test_heap both 3).0
find_or_insert_lem_example = find_or_insert_lem test_heap both 3 both-IsSorted

-- A deleted route to 192.168.0.7.
abbrev gone : ZprnV2
gone = record { cmd = zprn_routemod; prio = 255; route = inner 7 }

routemod_handler_lem_example :
    ((gone.prio < 255)
      × (am_ii_addr (inner 7) true test_router ≡ true)
      × (routemod_handler 2 gone test_router ≡ test_router))
    ⊎ (((gone.prio < 255)
          × (am_ii_addr (inner 7) true test_router ≡ false)
          × (have_route (inner 7) (routemod_handler 2 gone test_router) ≡ (
              if addr_eq (inner 7) (inner 7)
              then some
                  (add_router 100 test_heap 2 (255 + 1) (route_at (inner 7) test_router.routes)).0
              else have_route (inner 7) test_router)))
        ⊎ ((gone.prio ≡ 255)
            × ((addr_eq (inner 7) (inner 7) ≡ true)
                ⊎ (have_route (inner 7) (routemod_handler 2 gone test_router)
                    ≡ have_route (inner 7) test_router))
            × ((have_route (inner 7) (routemod_handler 2 gone test_router) ≡ none)
                ⊎ ((r : RouteVia) × (have_route (inner 7) (routemod_handler 2 gone test_router)
                      ≡ some r)
                    × All (λ v. v.addr ≢ 2) r.routers))))
routemod_handler_lem_example = routemod_handler_lem 2 gone test_router (inner 7) (omega arith)

-- Peer 2, at 192.168.0.2, closes.
abbrev closing : ZprnV2
closing = record { cmd = zprn_connmgmt; prio = 255; route = inner 2 }

connmgmt_handler_lem_example :
    ((closing.prio ≡ 0)
      × (am_ii_addr (inner 2) true test_router ≡ true)
      × (connmgmt_handler 2 closing test_router ≡ test_router))
    ⊎ (((closing.prio ≡ 0)
          × (am_ii_addr (inner 2) true test_router ≡ false)
          × (have_route (inner 7) (connmgmt_handler 2 closing test_router) ≡ (
              if addr_eq (inner 2) (inner 7)
              then some (add_router 100 test_heap 2 1 (route_at (inner 2) test_router.routes)).0
              else have_route (inner 7) test_router)))
        ⊎ ((closing.prio ≢ 0)
            × ((have_route (inner 7) (connmgmt_handler 2 closing test_router) ≡ none)
                ⊎ ((r : RouteVia) × (have_route (inner 7) (connmgmt_handler 2 closing test_router)
                      ≡ some r)
                    × (addr_eq (inner 2) (inner 7) ≡ false)
                    × All (λ v. v.addr ≢ 2) r.routers))))
connmgmt_handler_lem_example = connmgmt_handler_lem 2 closing test_router (inner 7)

-- No name resolves, and no pointer is shared.
abbrev pub unresolved : List ℕ → Option SockAddr
unresolved name = none

abbrev pub unshared : Ptr → ℕ
unshared p = 1

cleanup_round-AllFound_example :
    let (after, found_after) = cleanup_round unresolved unshared (true ∷ []) test_router in
    (found_after ≡ true ∷ []) × (after.next_ptr ≡ 4) × (length after.remotes ≤ length both)
cleanup_round-AllFound_example =
    cleanup_round-AllFound unresolved unshared (true ∷ []) test_router (refl, tt)

icmp_packet_lem_example :
    let answer = icmp_packet IcmpError.unreach 77 packet test_router in
    (length answer ≡ 56)
    × (ip_v answer ≡ 4)
    × (ip_len answer ≡ 56)
    × (ip_ttl answer ≡ 255)
    × (ip_p answer ≡ 1)
    × (ip_dst answer ≡ ip_src packet)
    × (icmp_type (drop ip_size answer) ≡ 3)
    × (icmp_code (drop ip_size answer) ≡ 1)
    × (in_cksum (fit icmphdr_size (drop ip_size answer)) icmphdr_size ≡ 0)
    × (fit ip_size (drop (ip_size + icmphdr_size) answer)
        ≡ fit ip_size (set_sum (ip_cksum packet) packet))
icmp_packet_lem_example = icmp_packet_lem IcmpError.unreach 77 packet test_router
