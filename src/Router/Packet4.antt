-- ===== src/Router/Packet4.antt =====
-- route_packet of src/main.cxx: one IPv4 packet. `buffer` is the whole receive buffer, `buflen`
-- the length of the packet in it.
pub mod Laws
pub mod Queued
use zprd.Prelude.{
  ℕ, ◌+◌, ◌-◌, ◌*◌, ◌/◌, ◌^◌, List, [], ◌∷◌, Bool, true, false, not, ◌&&◌, ◌||◌, Option, none, some,
  is_eq, is_empty, drop, take, leb, ltb, ◌==◌, if◌then◌else◌,
}
use zprd.Bytes.{byte_at, le32, memcmp, fit}
use zprd.Iafa.{InnerAddr, of_ip4, apply_netmask, iafa_at_inet}
use zprd.Ip.{
  ip_size, icmphdr_size, ip_tos, ip_off, ip_ttl, ip_p, ip_src, ip_dst, set_ttl, set_sum, icmp_type,
  icmp_code, icmp_id, icmp_sequence,
}
use zprd.Peer.{Ptr, is_local}
use zprd.PingCache
use zprd.PingCache.{PingData, PingCache, match_reply}
use zprd.Routes.{RouteVia, empty, del_router, del_primary_router, update_router}
use zprd.Router.{Router, have_route, set_route, am_ii_addr, local_aptr, enqueue}
use zprd.Router.Icmp.{IcmpError, send_icmp_msg}
use zprd.Router.Resolve.{resolve_route}

-- What the calls of rand() and clock_gettime() return while a packet is routed, and the bytes of
-- the stack that send_icmp6_msg reads.
pub record Env : Type 0 where
  pub rand : ℕ
  pub ip_id : ℕ
  pub ms_time : ℕ
  pub stack : List ℕ

-- The switch on the ICMP type and code: is the packet an error message, and is it one that makes
-- a route outdated.
unfoldable pub is_errmsg : List ℕ → Bool
is_errmsg h_icmp =
    let type = icmp_type h_icmp in
    not (type == 0 || (type == 8 || (type == 9 || (type == 10 || (type == 13 || type == 14)))))

unfoldable pub is_rm_route : List ℕ → Bool
is_rm_route h_icmp =
    (icmp_type h_icmp == 11 && icmp_code h_icmp == 0)
    || (icmp_type h_icmp == 3 && (icmp_code h_icmp == 1 || icmp_code h_icmp == 0))

-- `(ip_dst.s_addr >> 28) == 14`, on the word as the host reads it.
unfoldable pub is_multicast : List ℕ → Bool
is_multicast dst = le32 dst / 2 ^ 28 == 14

-- To whom no route is known: the host if the masked destination is the local address itself.
unfoldable pub unreach_msg : List ℕ → List ℕ → ℕ → List ℕ → IcmpError
unreach_msg addr nmsk n dst =
    if is_eq (memcmp n addr (apply_netmask n dst nmsk))
    then IcmpError.unreach
    else IcmpError.unreach_net

-- "to prevent routing loops: drop routing table entry, if there is any"
unfoldable pub drop_primary : InnerAddr → Router → Router
drop_primary dst s = elim (have_route dst s) [
  | none ↦ s
  | some r ↦ set_route dst (del_primary_router r) s
]

-- No destination: an error message goes back, unless the packet is one.
unfoldable pub unroutable : Env → Ptr → List ℕ → Bool → Router → Router
unroutable env source_peer buffer errmsg s =
    if errmsg
    then s
    else (let s1 : Router = elim (local_aptr iafa_at_inet s.locals) [
      | none ↦ s
      | some i ↦
          send_icmp_msg (unreach_msg i.inner.addr i.nmsk 4 (ip_dst buffer)) env.ip_id buffer
            source_peer s
    ] in
        drop_primary (of_ip4 (ip_dst buffer)) s1)

-- An unreachable message drops the route of its sender. The flag tells that another router is
-- left, and the message is not passed on.
unfoldable pub drop_unreachable : Ptr → InnerAddr → Router → Router × Bool
drop_unreachable source_peer target s = elim (have_route target s) [
  | none ↦ (s, false)
  | some r ↦ let r1 = (del_router source_peer r).0 in (set_route target r1 s, not (empty r1))
]

-- Echo requests are remembered, replies measure the route that they came by.
unfoldable pub evaluate_ping : Env → Ptr → Ptr → PingData → Bool → Bool → ℕ → Router → Router
evaluate_ping env source_peer dest edat is_echo is_reply ttl s =
    if is_echo
    then record s { ping_cache = PingCache.init env.ms_time edat dest }
    else (if is_reply
        then (let (m, cache) = match_reply env.ms_time edat source_peer ttl s.ping_cache in
            let s1 = record s { ping_cache = cache } in
            if m.matched
            then elim (have_route edat.src s1) [
              | none ↦ s1
              | some r ↦
                  set_route edat.src (update_router s1.last_time s1.heap m.router m.hops m.diff r)
                    s1
            ]
            else s1)
        else s)

unfoldable pub send_packet : List ℕ → ℕ → List Ptr → Router → Router
send_packet buffer buflen ret s =
    enqueue
      (record {
        buffer = fit buflen buffer;
        dests = ret;
        frag = ip_off buffer;
        tos = ip_tos buffer;
      })
      s

-- The part behind resolve_route, on the buffer with the new ttl and a zero checksum.
unfoldable pub pass_on : Env → Ptr → List ℕ → ℕ → List Ptr → Router → Router
pass_on env source_peer buffer buflen [] s =
    let h_icmp = drop ip_size buffer in
    unroutable env source_peer buffer (ip_p buffer == 1 && is_errmsg h_icmp) s
pass_on env source_peer buffer buflen (d ∷ ds) s =
    let h_icmp = drop ip_size buffer in
    let send = send_packet buffer buflen (d ∷ ds) in
    if not (ip_p buffer == 1)
    then send s
    else (if is_errmsg h_icmp
        then (if is_rm_route h_icmp && leb (2 * ip_size + icmphdr_size) buflen
            then (let target = of_ip4 (ip_dst (drop (ip_size + icmphdr_size) buffer)) in
                let (s1, discard) = drop_unreachable source_peer target s in
                if discard then s1 else send s1)
            else send s)
        else (if is_empty ds
            then (let edat : PingData = record {
              src = of_ip4 (ip_src buffer);
              dst = of_ip4 (ip_dst buffer);
              id = icmp_id h_icmp;
              sequence = icmp_sequence h_icmp;
            } in
                send (
                  evaluate_ping env source_peer d edat (icmp_type h_icmp == 8)
                    (icmp_type h_icmp == 0) (ip_ttl buffer) s))
            else send s))

unfoldable pub route_packet : Env → Ptr → List ℕ → ℕ → Router → Router
route_packet env source_peer buffer buflen s =
    let h_icmp = drop ip_size buffer in
    let is_icmp = ip_p buffer == 1 in
    let errmsg = is_icmp && is_errmsg h_icmp in
    let dst = of_ip4 (ip_dst buffer) in
    let source_is_local = is_local (s.heap source_peer) in
    let iam_ep = source_is_local || am_ii_addr dst true s in
    let ttl = ip_ttl buffer in
    let new_ttl = if iam_ep then ttl else ttl - 1 in
    let buffer1 = set_sum 0 (set_ttl new_ttl buffer) in
    if is_icmp && ltb buflen (ip_size + icmphdr_size)
    then s
    else (if is_multicast (ip_dst buffer)
        then s
        else (if ttl == 0 || (not iam_ep && ttl == 1)
            then (if errmsg then s else send_icmp_msg IcmpError.ttl env.ip_id buffer source_peer s)
            else (let (s1, ret) =
                  resolve_route env.rand source_peer (of_ip4 (ip_src buffer)) dst new_ttl
                    (not source_is_local && iam_ep) s in
                pass_on env source_peer buffer1 buflen ret s1)))
