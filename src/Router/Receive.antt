-- ===== src/Router/Receive.antt =====
-- route_genip_packet of src/main.cxx, and the body of the event loop of main: a packet read from
-- the tun device or from a server socket.
use zprd.Prelude.{ℕ, List, none, some, false, ltb, ◌==◌, if◌then◌else◌}
use zprd.Ip.{ip_v, ip_size, ip6_size}
use zprd.Oafa.{SockAddr}
use zprd.Peer.{Ptr, store, new_peer}
use zprd.Remotes.{find_or_insert, is_unknown}
use zprd.Router.{Router, peer_hook, run_hook, make_peer}
use zprd.Router.Notify.{handle_entry}
use zprd.Router.Packet4.{Env, route_packet}
use zprd.Router.Packet6.{route6_packet}
use zprd.Router.Verify.{verify_ipv4_packet, verify_ipv6_packet}
use zprd.Zprn.{handle_zprn_pkt}

-- `srca->seen = last_time`
unfoldable pub mark_seen : Ptr → Router → Router
mark_seen srca s = record s {
  heap = store s.heap srca (record (s.heap srca) { seen = s.last_time });
}

unfoldable pub route_ipv4 : Env → Ptr → List ℕ → ℕ → Router → Router
route_ipv4 env srca buffer len s =
    if ltb len ip_size then s else elim (verify_ipv4_packet srca buffer len s) [
      | none ↦ s
      | some n ↦ route_packet env srca buffer n s
    ]

unfoldable pub route_ipv6 : Env → Ptr → List ℕ → ℕ → Router → Router
route_ipv6 env srca buffer len s =
    if ltb len ip6_size then s else elim (verify_ipv6_packet srca buffer len s) [
      | none ↦ s
      | some n ↦ route6_packet env srca buffer n s
    ]

-- An invalid ZPRN packet only writes a message.
unfoldable pub route_zprn : Ptr → List ℕ → ℕ → Router → Router
route_zprn srca buffer len s = elim (handle_zprn_pkt (handle_entry srca) buffer len s) [
  | none ↦ s
  | some s1 ↦ s1
]

unfoldable pub route_genip_packet : Env → Ptr → List ℕ → ℕ → Router → Router
route_genip_packet env srca buffer len s0 =
    let s = mark_seen srca s0 in
    let ipver = if ltb len 2 then 255 else ip_v buffer in
    if ipver == 0
    then route_zprn srca buffer len s
    else (if ipver == 4
        then route_ipv4 env srca buffer len s
        else (if ipver == 6 then route_ipv6 env srca buffer len s else s))

-- A packet from the tun device; `local_router` is the peer of main that stands for it.
unfoldable pub receive_local : Env → Ptr → List ℕ → ℕ → Router → Router
receive_local env local_router buffer nread s =
    if nread == 0 then s else route_genip_packet env local_router buffer nread s

-- The sender of a packet from the network, with the address that recvfrom filled in: it is looked
-- up in the sorted vector of peers, or put into it, and the hooks are run for a new one.
unfoldable pub lookup_peer : SockAddr → Router → Router × Ptr
lookup_peer saddr s =
    let (s1, fresh) = make_peer (record (new_peer s.last_time) { saddr = saddr }) s in
    let (remotes, peer_ptr) = find_or_insert s1.heap s1.remotes fresh in
    let s2 = record s1 { remotes = remotes } in
    (
      if is_unknown s1.heap s1.remotes fresh then run_hook (peer_hook false saddr) s2 else s2,
      peer_ptr,
    )

-- A packet from the network.
unfoldable pub receive_remote : Env → SockAddr → List ℕ → ℕ → Router → Router
receive_remote env saddr buffer nread s =
    if nread == 0
    then s
    else (let (s1, peer_ptr) = lookup_peer saddr s in
        route_genip_packet env peer_ptr buffer nread s1)
