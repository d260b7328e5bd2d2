-- ===== src/Router/Packet6.antt =====
-- route6_packet of src/main.cxx: one IPv6 packet.
pub mod Queued
use zprd.Prelude.{
  ℕ, ◌+◌, ◌-◌, ◌/◌, ◌%◌, List, [], ◌∷◌, Bool, true, not, ◌&&◌, ◌||◌, none, some, is_empty, drop,
  leb, ltb, ◌==◌, if◌then◌else◌,
}
use zprd.Bytes.{byte_at, fit}
use zprd.Iafa.{of_ip6, iafa_at_inet6}
use zprd.Ip.{
  ip6_size, icmp6_size, ip6_nxt, ip6_hops, ip6_src, ip6_dst, ip6_tos, set_hops, icmp_type, icmp_id,
  icmp_sequence,
}
use zprd.Peer.{Ptr, is_local}
use zprd.PingCache.{PingData}
use zprd.Router.{Router, am_ii_addr, local_aptr, enqueue}
use zprd.Router.Icmp.{IcmpError, send_icmp6_msg, htons_ip_df}
use zprd.Router.Packet4.{Env, unreach_msg, drop_primary, drop_unreachable, evaluate_ping}
use zprd.Router.Resolve.{resolve_route}

-- `!(icmp6_type & 0x80)`
unfoldable pub is_errmsg6 : List ℕ → Bool
is_errmsg6 h_icmp = icmp_type h_icmp / 128 % 2 == 0

unfoldable pub is_rm_route6 : List ℕ → Bool
is_rm_route6 h_icmp = icmp_type h_icmp == 1 || icmp_type h_icmp == 3

-- IN6_IS_ADDR_MULTICAST
unfoldable pub is_multicast6 : List ℕ → Bool
is_multicast6 dst = byte_at dst 0 == 0xff

unfoldable pub unroutable6 : Env → Ptr → List ℕ → Bool → Router → Router
unroutable6 env source_peer buffer errmsg s =
    if errmsg
    then s
    else (let s1 : Router = elim (local_aptr iafa_at_inet6 s.locals) [
      | none ↦ s
      | some i ↦
          send_icmp6_msg (unreach_msg i.inner.addr i.nmsk 16 (ip6_dst buffer)) env.stack buffer
            source_peer s
    ] in
        drop_primary (of_ip6 (ip6_dst buffer)) s1)

unfoldable pub send_packet6 : List ℕ → ℕ → List Ptr → Router → Router
send_packet6 buffer buflen ret s =
    enqueue
      (record { buffer = fit buflen buffer; dests = ret; frag = htons_ip_df; tos = ip6_tos buffer })
      s

-- The part behind resolve_route, on the buffer with the new hop limit.
unfoldable pub pass_on6 : Env → Ptr → List ℕ → ℕ → List Ptr → Router → Router
pass_on6 env source_peer buffer buflen [] s =
    let h_icmp = drop ip6_size buffer in
    unroutable6 env source_peer buffer (ip6_nxt buffer == 0x3a && is_errmsg6 h_icmp) s
pass_on6 env source_peer buffer buflen (d ∷ ds) s =
    let h_icmp = drop ip6_size buffer in
    let mcpos = ip6_size + icmp6_size in
    let send = send_packet6 buffer buflen (d ∷ ds) in
    if not (ip6_nxt buffer == 0x3a)
    then send s
    else (if is_errmsg6 h_icmp
        then (if is_rm_route6 h_icmp && leb (mcpos + ip6_size) buflen
            then (let target = of_ip6 (ip6_dst (drop mcpos buffer)) in
                let (s1, discard) = drop_unreachable source_peer target s in
                if discard then s1 else send s1)
            else send s)
        else (if is_empty ds
            then (let edat : PingData = record {
              src = of_ip6 (ip6_src buffer);
              dst = of_ip6 (ip6_dst buffer);
              id = icmp_id h_icmp;
              sequence = icmp_sequence h_icmp;
            } in
                send (
                  evaluate_ping env source_peer d edat (icmp_type h_icmp == 0x80)
                    (icmp_type h_icmp == 0x81) (ip6_hops buffer) s))
            else send s))

unfoldable pub route6_packet : Env → Ptr → List ℕ → ℕ → Router → Router
route6_packet env source_peer buffer buflen s =
    let h_icmp = drop ip6_size buffer in
    let is_icmp = ip6_nxt buffer == 0x3a in
    let errmsg = is_icmp && is_errmsg6 h_icmp in
    let dst = of_ip6 (ip6_dst buffer) in
    let source_is_local = is_local (s.heap source_peer) in
    let iam_ep = source_is_local || am_ii_addr dst true s in
    let hops = ip6_hops buffer in
    let new_hops = if iam_ep then hops else hops - 1 in
    if is_icmp && ltb buflen (ip6_size + icmp6_size)
    then s
    else (if is_multicast6 (ip6_dst buffer)
        then s
        else (if hops == 0 || (not iam_ep && hops == 1)
            then (if errmsg then s else send_icmp6_msg IcmpError.ttl env.stack buffer source_peer s)
            else (let (s1, ret) =
                  resolve_route env.rand source_peer (of_ip6 (ip6_src buffer)) dst new_hops
                    (not source_is_local && iam_ep) s in
                pass_on6 env source_peer (set_hops new_hops buffer) buflen ret s1)))
