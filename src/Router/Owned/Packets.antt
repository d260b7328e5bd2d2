-- ===== src/Router/Owned/Packets.antt =====
-- IP packets, and where the routers in the route table come from.
use zprd.Prelude.{
  ◌<◌, ℕ, ◌-◌, ◌+◌, ◌*◌, drop, ltb, leb, is_empty, arith, List, [], ◌∷◌, Bool, true, false, Option,
  none, some, not, ◌&&◌, ◌||◌, ◌==◌, if◌then◌else◌, inl, inr, Option-cases,
}
use zprd.Iafa.{InnerAddr, of_ip4, of_ip6, is_direct_broadcast, iafa_at_inet, iafa_at_inet6}
use zprd.Peer.{Ptr, is_local}
use zprd.Ip.{
  icmp_type, ip_v, set_ttl, set_sum, set_hops, ip_ttl, ip_p, ip_src, ip_dst, ip_size, icmphdr_size,
  ip6_nxt, ip6_hops, ip6_src, ip6_dst, ip6_size, icmp6_size,
}
use zprd.Zprn.{handle_zprn_pkt}
use zprd.Router.{Router, am_ii_addr, learn_route, make_peer, local_aptr}
use zprd.Router.Icmp.{send_icmp_msg, send_icmp6_msg}
use zprd.Router.Resolve.{resolve_route, source_hops}
use zprd.Router.Packet4.{
  Env, is_multicast, is_errmsg, is_rm_route, drop_unreachable, route_packet, pass_on, unroutable,
  send_packet,
}
use zprd.Router.Packet6.{
  is_multicast6, is_errmsg6, is_rm_route6, unroutable6, send_packet6, pass_on6, route6_packet,
}
use zprd.Router.Notify.{handle_entry}
use zprd.Router.Owned.{
  Source, OwnsRoutes, OwnsRoutes-if, learn_route-OwnsRoutes, drop_primary-OwnsRoutes,
  drop_unreachable-OwnsRoutes, evaluate_ping-OwnsRoutes, forward-OwnsRoutes,
}
use zprd.Router.Owned.Notify.{handle_entry-OwnsRoutes}
use zprd.Router.Verify.{verify_ipv4_packet, verify_ipv6_packet}
use zprd.Zprn.Invariant.{Kept, handle_zprn_pkt-keeps}
use zprd.Router.Receive.{mark_seen, route_ipv4, route_ipv6, route_zprn, route_genip_packet}

byte_hops : (a : InnerAddr) (ttl : ℕ) (s : Router) → source_hops a ttl s < 256
byte_hops a ttl s = ground arith

module _ (Q : Ptr → ℕ → Type 0) where
  OwnsRoutes-pick :
      (b : Bool) (x y : Router × List Ptr)
      → OwnsRoutes Q x.0
      → OwnsRoutes Q y.0
      → OwnsRoutes Q (if b then x else y).0
  OwnsRoutes-pick true x y h k = h
  OwnsRoutes-pick false x y h k = k

  resolve_route-OwnsRoutes :
      (rand : ℕ) (p : Ptr) (src dst : InnerAddr) (ttl : ℕ) (here : Bool) (s : Router)
      → Source Q p
      → OwnsRoutes Q s
      → OwnsRoutes Q (resolve_route rand p src dst ttl here s).0
  unfolding resolve_route make_peer
  resolve_route-OwnsRoutes rand p src dst ttl here s q h =
      let learned = learn_route src p (source_hops src ttl s) s in
      let k = learn_route-OwnsRoutes Q src p (source_hops src ttl s) s (byte_hops src ttl s) q h in
      OwnsRoutes-pick (here || (not (is_local (learned.heap p)) && is_direct_broadcast dst)) _ _
        (record { owned = k.owned }) (forward-OwnsRoutes Q rand p dst learned k)

  unroutable-OwnsRoutes :
      (env : Env) (p : Ptr) (buffer : List ℕ) (errmsg : Bool) (s : Router)
      → OwnsRoutes Q s
      → OwnsRoutes Q (unroutable env p buffer errmsg s)
  unfolding unroutable send_icmp_msg
  unroutable-OwnsRoutes env p buffer errmsg s h = OwnsRoutes-if Q errmsg s _ h (
      drop_primary-OwnsRoutes Q (of_ip4 (ip_dst buffer)) _
        (elim (Option-cases (local_aptr iafa_at_inet s.locals)) [
          | inl missing ↦ rw missing h
          | inr (i, found) ↦ rw found (record { owned = h.owned })
        ]))

  pass_on-OwnsRoutes :
      (env : Env) (p : Ptr) (packet : List ℕ) (n : ℕ) (ret : List Ptr) (s : Router)
      → Source Q p
      → OwnsRoutes Q s
      → OwnsRoutes Q (pass_on env p packet n ret s)
  unfolding pass_on send_packet
  pass_on-OwnsRoutes env p packet n [] s q h = unroutable-OwnsRoutes env p packet _ s h
  pass_on-OwnsRoutes env p packet n (d ∷ ds) s q h =
      OwnsRoutes-if Q (not (ip_p packet == 1)) _ _ sent (
        OwnsRoutes-if Q (is_errmsg (drop ip_size packet)) _ _
          (OwnsRoutes-if Q (is_rm_route (drop ip_size packet) && leb (2 * ip_size + icmphdr_size) n)
            _ _
            (let k = drop_unreachable-OwnsRoutes Q p target s h in
              OwnsRoutes-if Q (drop_unreachable p target s).1 _ _ k (record { owned = k.owned }))
            sent)
          (OwnsRoutes-if Q (is_empty ds) _ _
            (let k =
                evaluate_ping-OwnsRoutes Q env p d _ (icmp_type h_icmp == 8) (icmp_type h_icmp == 0)
                  (ip_ttl packet) s q h in
              record { owned = k.owned })
            sent))
    where
      h_icmp : List ℕ
      h_icmp = drop ip_size packet

      target : InnerAddr
      target = of_ip4 (ip_dst (drop (ip_size + icmphdr_size) packet))

      sent : OwnsRoutes Q (send_packet packet n (d ∷ ds) s)
      sent = record { owned = h.owned }

  unroutable6-OwnsRoutes :
      (env : Env) (p : Ptr) (buffer : List ℕ) (errmsg : Bool) (s : Router)
      → OwnsRoutes Q s
      → OwnsRoutes Q (unroutable6 env p buffer errmsg s)
  unfolding unroutable6 send_icmp6_msg
  unroutable6-OwnsRoutes env p buffer errmsg s h = OwnsRoutes-if Q errmsg s _ h (
      drop_primary-OwnsRoutes Q (of_ip6 (ip6_dst buffer)) _
        (elim (Option-cases (local_aptr iafa_at_inet6 s.locals)) [
          | inl missing ↦ rw missing h
          | inr (i, found) ↦ rw found (record { owned = h.owned })
        ]))

  pass_on6-OwnsRoutes :
      (env : Env) (p : Ptr) (packet : List ℕ) (n : ℕ) (ret : List Ptr) (s : Router)
      → Source Q p
      → OwnsRoutes Q s
      → OwnsRoutes Q (pass_on6 env p packet n ret s)
  unfolding pass_on6 send_packet6
  pass_on6-OwnsRoutes env p packet n [] s q h = unroutable6-OwnsRoutes env p packet _ s h
  pass_on6-OwnsRoutes env p packet n (d ∷ ds) s q h =
      OwnsRoutes-if Q (not (ip6_nxt packet == 0x3a)) _ _ sent (
        OwnsRoutes-if Q (is_errmsg6 h_icmp) _ _
          (OwnsRoutes-if Q (is_rm_route6 h_icmp && leb (ip6_size + icmp6_size + ip6_size) n) _ _
            (let k = drop_unreachable-OwnsRoutes Q p target s h in
              OwnsRoutes-if Q (drop_unreachable p target s).1 _ _ k (record { owned = k.owned }))
            sent)
          (OwnsRoutes-if Q (is_empty ds) _ _
            (let k =
                evaluate_ping-OwnsRoutes Q env p d _ (icmp_type h_icmp == 0x80)
                  (icmp_type h_icmp == 0x81) (ip6_hops packet) s q h in
              record { owned = k.owned })
            sent))
    where
      h_icmp : List ℕ
      h_icmp = drop ip6_size packet

      target : InnerAddr
      target = of_ip6 (ip6_dst (drop (ip6_size + icmp6_size) packet))

      sent : OwnsRoutes Q (send_packet6 packet n (d ∷ ds) s)
      sent = record { owned = h.owned }

  route_packet-OwnsRoutes :
      (env : Env) (p : Ptr) (buffer : List ℕ) (n : ℕ) (s : Router)
      → Source Q p
      → OwnsRoutes Q s
      → OwnsRoutes Q (route_packet env p buffer n s)
  unfolding route_packet send_icmp_msg
  route_packet-OwnsRoutes env p buffer n s q h =
      let here = is_local (s.heap p) || am_ii_addr (of_ip4 (ip_dst buffer)) true s in
      let ttl = if here then ip_ttl buffer else ip_ttl buffer - 1 in
      let packet = set_sum 0 (set_ttl ttl buffer) in
      let at_end = not (is_local (s.heap p)) && here in
      let (s1, ret) =
        resolve_route env.rand p (of_ip4 (ip_src buffer)) (of_ip4 (ip_dst buffer)) ttl at_end s in
      OwnsRoutes-if Q (ip_p buffer == 1 && ltb n (ip_size + icmphdr_size)) s _ h (
        OwnsRoutes-if Q (is_multicast (ip_dst buffer)) s _ h (
          OwnsRoutes-if Q (ip_ttl buffer == 0 || (not here && ip_ttl buffer == 1)) _ _
            (OwnsRoutes-if Q (ip_p buffer == 1 && is_errmsg (drop ip_size buffer)) s _ h
              (record { owned = h.owned }))
            (pass_on-OwnsRoutes env p packet n ret s1 q
              (resolve_route-OwnsRoutes env.rand p _ _ ttl at_end s q h))))

  route6_packet-OwnsRoutes :
      (env : Env) (p : Ptr) (buffer : List ℕ) (n : ℕ) (s : Router)
      → Source Q p
      → OwnsRoutes Q s
      → OwnsRoutes Q (route6_packet env p buffer n s)
  unfolding route6_packet send_icmp6_msg
  route6_packet-OwnsRoutes env p buffer n s q h =
      let here = is_local (s.heap p) || am_ii_addr (of_ip6 (ip6_dst buffer)) true s in
      let hops = if here then ip6_hops buffer else ip6_hops buffer - 1 in
      let at_end = not (is_local (s.heap p)) && here in
      let (s1, ret) =
        resolve_route env.rand p (of_ip6 (ip6_src buffer)) (of_ip6 (ip6_dst buffer)) hops at_end
          s in
      OwnsRoutes-if Q (ip6_nxt buffer == 0x3a && ltb n (ip6_size + icmp6_size)) s _ h (
        OwnsRoutes-if Q (is_multicast6 (ip6_dst buffer)) s _ h (
          OwnsRoutes-if Q (ip6_hops buffer == 0 || (not here && ip6_hops buffer == 1)) _ _
            (OwnsRoutes-if Q (ip6_nxt buffer == 0x3a && is_errmsg6 (drop ip6_size buffer)) s _ h
              (record { owned = h.owned }))
            (pass_on6-OwnsRoutes env p (set_hops hops buffer) n ret s1 q
              (resolve_route-OwnsRoutes env.rand p _ _ hops at_end s q h))))

  -- A whole packet of any kind.
  pub route_genip_packet-OwnsRoutes :
      (env : Env) (p : Ptr) (buffer : List ℕ) (n : ℕ) (s : Router)
      → Source Q p
      → OwnsRoutes Q s
      → OwnsRoutes Q (route_genip_packet env p buffer n s)
  unfolding route_genip_packet route_ipv4 route_ipv6 route_zprn mark_seen
  route_genip_packet-OwnsRoutes env p buffer n s q h =
      OwnsRoutes-if Q (ipver == 0) _ _ (zprn (handle_zprn_pkt (handle_entry p) buffer n seen) kept)
        (OwnsRoutes-if Q (ipver == 4) _ _
          (OwnsRoutes-if Q (ltb n ip_size) seen _ k (ipv4 (verify_ipv4_packet p buffer n seen)))
          (OwnsRoutes-if Q (ipver == 6) _ seen
            (OwnsRoutes-if Q (ltb n ip6_size) seen _ k (ipv6 (verify_ipv6_packet p buffer n seen)))
            k))
    where
      seen : Router
      seen = mark_seen p s

      k : OwnsRoutes Q seen
      k = record { owned = h.owned }

      ipver : ℕ
      ipver = if ltb n 2 then 255 else ip_v buffer

      kept :
          Kept
            (OwnsRoutes Q)
            (handle_entry p)
            (λ z t. handle_entry-OwnsRoutes Q p z t q)
            (handle_zprn_pkt (handle_entry p) buffer n seen)
      kept =
          handle_zprn_pkt-keeps (OwnsRoutes Q) (handle_entry p)
            (λ z t. handle_entry-OwnsRoutes Q p z t q) buffer n seen k

      zprn :
          (r : Option Router)
          → Kept (OwnsRoutes Q) (handle_entry p) (λ z t. handle_entry-OwnsRoutes Q p z t q) r
          → OwnsRoutes Q (elim r [ none ↦ seen | some t ↦ t ])
      zprn none o = k
      zprn (some t) o = o

      ipv4 :
          (r : Option ℕ)
          → OwnsRoutes Q (elim r [ none ↦ seen | some m ↦ route_packet env p buffer m seen ])
      ipv4 none = k
      ipv4 (some m) = route_packet-OwnsRoutes env p buffer m seen q k

      ipv6 :
          (r : Option ℕ)
          → OwnsRoutes Q (elim r [ none ↦ seen | some m ↦ route6_packet env p buffer m seen ])
      ipv6 none = k
      ipv6 (some m) = route6_packet-OwnsRoutes env p buffer m seen q k
