-- ===== src/Router.antt =====
-- The global state of src/main.cxx and the helpers that read and change it. That they write to
-- the log is not modelled.
pub mod Resolve
pub mod Icmp
pub mod Verify
pub mod Notify
pub mod Packet4
pub mod Packet6
pub mod Receive
pub mod Timers
pub mod Map
pub mod Queues
pub mod Grows
pub mod Invariant
pub mod Loop
pub mod Owned
pub mod Hooks
use zprd.Prelude.{
  ℕ, zero, suc, ◌+◌, ◌-◌, List, [], ◌∷◌, ◌++◌, Bool, true, false, not, ◌&&◌, ◌||◌, Option, none,
  some, any_of, is_empty, map, ◌==◌, if◌then◌else◌,
}
use zprd.Iafa.{InnerAddr, XnerAddr, addr_eq}
use zprd.Oafa.{SockAddr}
use zprd.Peer.{Ptr, null, Heap, RemotePeer, store, zero_saddr, new_peer}
use zprd.PingCache.{PingCache}
use zprd.Remotes.{rem_peer}
use zprd.Routes.{RouteVia, ViaRouter, no_routers, empty, get_router, add_router}
use zprd.Sender.{SenderQueue, SendData, ZprnSdat, enqueue_data, enqueue_zprn}
use zprd.Zprn.{ZprnV2, zprn_routemod, zprn2_probe}

-- zprd_conf_t, without the interface name and the hooks; a text is the list of its bytes.
pub record Conf : Type 0 where
  pub conf_remotes : List (List ℕ)
  pub data_port : ℕ
  pub remote_timeout : ℕ
  pub max_near_rtt : ℕ
  pub preferred_af : ℕ

-- unordered_map<inner_addr_t, route_via_t>
abbrev pub RouteMap : Type 0
RouteMap = List (InnerAddr × RouteVia)

-- A call of one of the two functions run_route_hooks, with `is_deleted`.
pub data HookCall : Type 0 where
  dest_hook : Bool → InnerAddr → HookCall
  peer_hook : Bool → SockAddr → HookCall

-- `hooks_run` has the calls of run_route_hooks so far, in order.
pub record Router : Type 0 where
  pub heap : Heap
  pub next_ptr : Ptr
  pub remotes : List Ptr
  pub locals : List XnerAddr
  pub exported_locals : List InnerAddr
  pub blocked_broadcast_dsts : List InnerAddr
  pub routes : RouteMap
  pub ping_cache : PingCache
  pub sender : SenderQueue
  pub last_time : ℕ
  pub hooks_run : List HookCall
  pub conf : Conf
  pub open conf use *

-- MAXTTL
abbrev pub max_ttl : ℕ
max_ttl = 255

unfoldable pub find_route : InnerAddr → RouteMap → Option RouteVia
find_route a [] = none
find_route a ((b, r) ∷ m) = elim (addr_eq b a) [ true ↦ some r | false ↦ find_route a m ]

-- A write to the entry of a key, which is made if it is missing.
unfoldable pub put_route : InnerAddr → RouteVia → RouteMap → RouteMap
put_route a v [] = (a, v) ∷ []
put_route a v ((b, r) ∷ m) = elim (addr_eq b a) [
  | true ↦ (b, v) ∷ m
  | false ↦ (b, r) ∷ put_route a v m
]

-- `routes[a]`
unfoldable pub route_at : InnerAddr → RouteMap → RouteVia
route_at a m = elim (find_route a m) [ none ↦ no_routers | some r ↦ r ]

-- `routes[a].add_router(router, hops)`
unfoldable pub learn_route : InnerAddr → Ptr → ℕ → Router → Router
learn_route a router hops s = record s {
  routes = put_route a (add_router s.last_time s.heap router hops (route_at a s.routes)).0 s.routes;
}

-- have_route: `none` is the null pointer.
unfoldable pub have_route : InnerAddr → Router → Option RouteVia
have_route dsta s = elim (find_route dsta s.routes) [
  | none ↦ none
  | some r ↦ if empty r then none else some r
]

-- A write through the pointer of have_route.
abbrev pub set_route : InnerAddr → RouteVia → Router → Router
set_route a r s = record s { routes = put_route a r s.routes }

unfoldable pub am_ii_addr : InnerAddr → Bool → Router → Bool
am_ii_addr o with_exported s =
    any_of (λ i. addr_eq i.inner o) s.locals
    || (with_exported && any_of (λ i. addr_eq i o) s.exported_locals)

unfoldable pub local_aptr : ℕ → List XnerAddr → Option XnerAddr
local_aptr preferred_at [] = none
local_aptr preferred_at (i ∷ locals) = elim (i.inner.type == preferred_at) [
  | true ↦ some i
  | false ↦ local_aptr preferred_at locals
]

-- run_route_hooks; Startup/Hooks has the commands.
abbrev pub run_hook : HookCall → Router → Router
run_hook h s = record s { hooks_run = s.hooks_run ++ (h ∷ []) }

-- make_shared of a peer.
unfoldable pub make_peer : RemotePeer → Router → Router × Ptr
make_peer p s =
    (record s { heap = store s.heap s.next_ptr p; next_ptr = suc s.next_ptr }, s.next_ptr)

abbrev pub enqueue : SendData → Router → Router
enqueue dat s = record s { sender = enqueue_data s.heap dat s.sender }

abbrev pub enqueue_msg : ZprnSdat → Router → Router
enqueue_msg dat s = record s { sender = enqueue_zprn s.heap dat s.sender }

-- The peers that a message goes to: with split horizon for a route that is not deleted.
unfoldable pub msg_peers : ZprnV2 → Router → List Ptr
msg_peers msg s =
    if msg.prio == 0xff
    then s.remotes
    else (if msg.cmd == zprn_routemod
        then elim (have_route msg.route s) [
          | none ↦ s.remotes
          | some r ↦ (rem_peer s.heap s.remotes (get_router r)).0
        ]
        else s.remotes)

unfoldable pub send_zprn_msg : ZprnV2 → Ptr → Router → Router
send_zprn_msg msg confirmed s =
    enqueue_msg (record { zprn = msg; dests = msg_peers msg s; confirmed = confirmed }) s

-- `for(auto &i : rts) rem_peer(non_routers, i.addr)`
unfoldable pub rem_routers : Heap → List ViaRouter → List Ptr → List Ptr
rem_routers heap [] peers = peers
rem_routers heap (i ∷ rts) peers = rem_routers heap rts (rem_peer heap peers i.addr).0

unfoldable pub probe_msg : InnerAddr → ℕ → ZprnV2
probe_msg dest prio = record { cmd = zprn2_probe; prio = prio; route = dest }

unfoldable pub send_zprn_probe_req : InnerAddr → Router → Router
send_zprn_probe_req dest s =
    let rts : List ViaRouter = elim (have_route dest s) [ none ↦ [] | some r ↦ r.routers ] in
    let non_routers = rem_routers s.heap rts s.remotes in
    let s1 =
      if is_empty rts
      then s
      else enqueue_msg
          (record { zprn = probe_msg dest 0xfe; dests = map (λ i. i.addr) rts; confirmed = null })
          s in
    if is_empty non_routers
    then s1
    else enqueue_msg (record { zprn = probe_msg dest 0xff; dests = non_routers; confirmed = null })
        s1
