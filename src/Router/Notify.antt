-- ===== src/Router/Notify.antt =====
-- The handlers of ZPRN entries in src/main.cxx.
pub mod Laws
pub mod Close
use zprd.Prelude.{
  ℕ, ◌+◌, List, [], ◌∷◌, Bool, true, false, not, Option, none, some, ◌==◌, if◌then◌else◌, ◌%◌,
}
use zprd.Iafa.{InnerAddr}
use zprd.Peer.{Ptr, peer_eq}
use zprd.Routes.{RouteVia, empty, get_router, del_router, front_hops}
use zprd.Router.{
  Router, RouteMap, learn_route, have_route, set_route, am_ii_addr, enqueue_msg, send_zprn_msg,
}
use zprd.Zprn.{ZprnV2, zprn_routemod, zprn_connmgmt, zprn2_probe, zprn_connmgmt_open}

-- `have_route(dsta)` and, if there is one, `del_router(srca)`.
unfoldable pub unlearn_route : InnerAddr → Ptr → Router → Router
unlearn_route dsta srca s = elim (have_route dsta s) [
  | none ↦ s
  | some r ↦ set_route dsta (del_router srca r).0 s
]

unfoldable pub routemod_handler : Ptr → ZprnV2 → Router → Router
routemod_handler srca d s =
    if not (d.prio == 0xff)
    then (if am_ii_addr d.route true s then s else learn_route d.route srca ((d.prio + 1) % 256) s)
    else (let s1 = unlearn_route d.route srca s in
        if am_ii_addr d.route false s1
        then send_zprn_msg (record d { prio = 0 }) srca s1
        else elim (have_route d.route s1) [
          | none ↦ s1
          | some r ↦ send_zprn_msg (record d { prio = front_hops r }) srca s1
        ])

-- `for(auto &r: routes) r.second.del_router(srca)`
unfoldable pub del_from_all : Ptr → RouteMap → RouteMap
del_from_all srca [] = []
del_from_all srca ((a, r) ∷ m) = (a, (del_router srca r).0) ∷ del_from_all srca m

unfoldable pub connmgmt_handler : Ptr → ZprnV2 → Router → Router
connmgmt_handler srca d s =
    if d.prio == zprn_connmgmt_open
    then (if am_ii_addr d.route true s then s else learn_route d.route srca 1 s)
    else (let s1 = record s { routes = del_from_all srca s.routes } in
        elim (have_route d.route s1) [
          | none ↦ s1
          | some r ↦ set_route d.route (record r { routers = [] }) s1
        ])

-- The hop count that a probe is answered with, if we have a route that the asking peer can use.
unfoldable pub probed_hops : Ptr → InnerAddr → Router → Option ℕ
probed_hops srca dest s = if am_ii_addr dest false s then some 0 else elim (have_route dest s) [
  | none ↦ none
  | some r ↦
      if front_hops r == 0xff
      then none
      else (if peer_eq (s.heap (get_router r)) (s.heap srca) then none else some (front_hops r))
]

unfoldable pub handle_probe_req : Ptr → ZprnV2 → Bool → Router → Router
handle_probe_req srca d expected_to_hr s =
    let answer = λ (msg : ZprnV2).
      enqueue_msg (record { zprn = msg; dests = srca ∷ []; confirmed = srca }) s in
    elim (probed_hops srca d.route s) [
      | some hops ↦ answer (record d { cmd = zprn_routemod; prio = hops })
      | none ↦ if expected_to_hr then answer (record d { prio = 0 }) else s
    ]

unfoldable pub probe_handler : Ptr → ZprnV2 → Router → Router
probe_handler srca d s =
    if d.prio == 0x00
    then unlearn_route d.route srca s
    else (if d.prio == 0xff
        then handle_probe_req srca d false s
        else (if d.prio == 0xfe then handle_probe_req srca d true s else s))

-- The dispatch table of handle_zprn_v2_pkt.
unfoldable pub handle_entry : Ptr → ZprnV2 → Router → Router
handle_entry srca d s =
    if d.cmd == zprn_routemod
    then routemod_handler srca d s
    else (if d.cmd == zprn_connmgmt
        then connmgmt_handler srca d s
        else (if d.cmd == zprn2_probe then probe_handler srca d s else s))
