-- ===== src/Router/Grows/Packets.antt =====
-- The same for route_packet, route6_packet and route_genip_packet.
use zprd.Prelude.{
  ℕ, ◌-◌, ◌+◌, drop, ltb, leb, is_empty, refl, arith, List, [], ◌∷◌, Bool, true, Option, none, some,
  not, ◌&&◌, ◌||◌, ◌==◌, if◌then◌else◌,
}
use zprd.Iafa.{InnerAddr, of_ip4, of_ip6}
use zprd.Peer.{Ptr, is_local}
use zprd.Ip.{
  icmp_type, ip_v, set_ttl, set_sum, set_hops, ip_ttl, ip_p, ip_src, ip_dst, ip_size, icmphdr_size,
  ip6_nxt, ip6_hops, ip6_src, ip6_dst, ip6_size, icmp6_size,
}
use zprd.Zprn.{ZprnV2, handle_zprn_pkt}
use zprd.Router.{Router, am_ii_addr}
use zprd.Router.Icmp.{send_icmp_msg, send_icmp6_msg}
use zprd.Router.Resolve.{resolve_route}
use zprd.Router.Packet4.{Env, is_multicast, is_errmsg, drop_primary, drop_unreachable, route_packet}
use zprd.Router.Packet6.{
  is_multicast6, is_errmsg6, is_rm_route6, unroutable6, send_packet6, pass_on6, route6_packet,
}
use zprd.Router.Notify.{handle_entry}
use zprd.Router.Verify.{verify_ipv4_packet, verify_ipv6_packet}
use zprd.Zprn.Invariant.{Kept, handle_zprn_pkt-keeps}
use zprd.Router.Receive.{mark_seen, route_ipv4, route_ipv6, route_zprn, route_genip_packet}
use zprd.Router.Grows.{
  Grows, Keeps, Grows-trans, Grows-refl, mark_seen-Grows, Keeps-Grows, Grows-if,
  resolve_route-Grows, drop_unreachable-Keeps, evaluate_ping-Keeps, pass_on-Keeps,
  handle_entry-Keeps,
}

unroutable6-Keeps :
    (env : Env) (p : Ptr) (buffer : List ℕ) (errmsg : Bool) (s : Router)
    → Keeps s (unroutable6 env p buffer errmsg s)
unfolding unroutable6 send_icmp6_msg drop_primary
unroutable6-Keeps env p buffer errmsg s = ground arith

pass_on6-Grows :
    (env : Env) (p : Ptr) (packet : List ℕ) (n : ℕ) (ret : List Ptr) (s : Router)
    → Grows s (pass_on6 env p packet n ret s)
unfolding pass_on6 send_packet6
pass_on6-Grows env p packet n [] s = Keeps-Grows s _ (unroutable6-Keeps env p packet _ s)
pass_on6-Grows env p packet n (d ∷ ds) s = Grows-if s _ _ (not (ip6_nxt packet == 0x3a)) sent (
    Grows-if s _ _ (is_errmsg6 h_icmp)
      (Grows-if s _ _ (is_rm_route6 h_icmp && leb (ip6_size + icmp6_size + ip6_size) n)
        (Grows-if s dropped _ (drop_unreachable p target s).1
          (Keeps-Grows s _ (drop_unreachable-Keeps p target s))
          (Keeps-Grows s _ (drop_unreachable-Keeps p target s)))
        sent)
      (Grows-if s _ _ (is_empty ds)
        (Keeps-Grows s _ (
          evaluate_ping-Keeps env p d _ (icmp_type h_icmp == 0x80) (icmp_type h_icmp == 0x81)
            (ip6_hops packet) s))
        sent))
  where
    h_icmp : List ℕ
    h_icmp = drop ip6_size packet

    target : InnerAddr
    target = of_ip6 (ip6_dst (drop (ip6_size + icmp6_size) packet))

    dropped : Router
    dropped = (drop_unreachable p target s).0

    sent : Grows s (send_packet6 packet n (d ∷ ds) s)
    sent = Keeps-Grows s _ (refl, refl, refl, refl)

route_packet-Grows :
    (env : Env) (p : Ptr) (buffer : List ℕ) (n : ℕ) (s : Router)
    → Grows s (route_packet env p buffer n s)
unfolding route_packet send_icmp_msg
route_packet-Grows env p buffer n s =
    Grows-if s s _ (ip_p buffer == 1 && ltb n (ip_size + icmphdr_size)) (Grows-refl s) (
      Grows-if s s _ (is_multicast (ip_dst buffer)) (Grows-refl s) (
        Grows-if s _ _ (ip_ttl buffer == 0 || (not here && ip_ttl buffer == 1))
          (Grows-if s s _ (ip_p buffer == 1 && is_errmsg (drop ip_size buffer)) (Grows-refl s)
            (Keeps-Grows s _ (refl, refl, refl, refl)))
          (Grows-trans s routed.0 _ (resolve_route-Grows _ _ _ _ _ _ s) (
            Keeps-Grows routed.0 _
              (pass_on-Keeps env p (set_sum 0 (set_ttl ttl buffer)) n routed.1 routed.0)))))
  where
    here : Bool
    here = is_local (s.heap p) || am_ii_addr (of_ip4 (ip_dst buffer)) true s

    ttl : ℕ
    ttl = if here then ip_ttl buffer else ip_ttl buffer - 1

    routed : Router × List Ptr
    routed =
        resolve_route env.rand p (of_ip4 (ip_src buffer)) (of_ip4 (ip_dst buffer)) ttl
          (not (is_local (s.heap p)) && here) s

route6_packet-Grows :
    (env : Env) (p : Ptr) (buffer : List ℕ) (n : ℕ) (s : Router)
    → Grows s (route6_packet env p buffer n s)
unfolding route6_packet send_icmp6_msg
route6_packet-Grows env p buffer n s =
    Grows-if s s _ (ip6_nxt buffer == 0x3a && ltb n (ip6_size + icmp6_size)) (Grows-refl s) (
      Grows-if s s _ (is_multicast6 (ip6_dst buffer)) (Grows-refl s) (
        Grows-if s _ _ (ip6_hops buffer == 0 || (not here && ip6_hops buffer == 1))
          (Grows-if s s _ (ip6_nxt buffer == 0x3a && is_errmsg6 (drop ip6_size buffer))
            (Grows-refl s) (Keeps-Grows s _ (refl, refl, refl, refl)))
          (Grows-trans s routed.0 _ (resolve_route-Grows _ _ _ _ _ _ s)
            (pass_on6-Grows env p (set_hops hops buffer) n routed.1 routed.0))))
  where
    here : Bool
    here = is_local (s.heap p) || am_ii_addr (of_ip6 (ip6_dst buffer)) true s

    hops : ℕ
    hops = if here then ip6_hops buffer else ip6_hops buffer - 1

    routed : Router × List Ptr
    routed =
        resolve_route env.rand p (of_ip6 (ip6_src buffer)) (of_ip6 (ip6_dst buffer)) hops
          (not (is_local (s.heap p)) && here) s

-- A whole packet of any kind.
pub route_genip_packet-Grows :
    (env : Env) (p : Ptr) (buffer : List ℕ) (n : ℕ) (s : Router)
    → Grows s (route_genip_packet env p buffer n s)
unfolding route_genip_packet route_ipv4 route_ipv6 route_zprn
route_genip_packet-Grows env p buffer n s = Grows-trans s seen _ (mark_seen-Grows p s) (
    Grows-if seen _ _ (ipver == 0) (zprn (handle_zprn_pkt (handle_entry p) buffer n seen) kept) (
      Grows-if seen _ _ (ipver == 4)
        (Grows-if seen seen _ (ltb n ip_size) (Grows-refl seen)
          (ipv4 (verify_ipv4_packet p buffer n seen)))
        (Grows-if seen _ seen (ipver == 6)
          (Grows-if seen seen _ (ltb n ip6_size) (Grows-refl seen)
            (ipv6 (verify_ipv6_packet p buffer n seen)))
          (Grows-refl seen))))
  where
    seen : Router
    seen = mark_seen p s

    ipver : ℕ
    ipver = if ltb n 2 then 255 else ip_v buffer

    entry : (z : ZprnV2) (t : Router) → Grows seen t → Grows seen (handle_entry p z t)
    entry z t g = Grows-trans seen t _ g (Keeps-Grows t _ (handle_entry-Keeps p z t))

    kept : Kept (Grows seen) (handle_entry p) entry (handle_zprn_pkt (handle_entry p) buffer n seen)
    kept = handle_zprn_pkt-keeps (Grows seen) (handle_entry p) entry buffer n seen (Grows-refl seen)

    zprn :
        (r : Option Router)
        → Kept (Grows seen) (handle_entry p) entry r
        → Grows seen (elim r [ none ↦ seen | some t ↦ t ])
    zprn none k = Grows-refl seen
    zprn (some t) k = k

    ipv4 :
        (r : Option ℕ)
        → Grows seen (elim r [ none ↦ seen | some m ↦ route_packet env p buffer m seen ])
    ipv4 none = Grows-refl seen
    ipv4 (some m) = route_packet-Grows env p buffer m seen

    ipv6 :
        (r : Option ℕ)
        → Grows seen (elim r [ none ↦ seen | some m ↦ route6_packet env p buffer m seen ])
    ipv6 none = Grows-refl seen
    ipv6 (some m) = route6_packet-Grows env p buffer m seen
