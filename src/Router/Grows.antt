-- ===== src/Router/Grows.antt =====
-- What the handlers of packets leave as it is: the vector of peers, and the address of every peer
-- object that exists.
pub mod Packets
use zprd.Prelude.{
  ℕ, ◌-◌, ◌+◌, drop, ltb, leb, is_empty, ◌<◌, ◌≤◌, ◌≡◌, refl, ap, ◌∙◌, arith, List, [], ◌∷◌, Bool,
  true, false, Option, none, some, not, ◌&&◌, ◌||◌, ◌==◌, if◌then◌else◌,
}
use zprd.Iafa.{InnerAddr, of_ip4, of_ip6, is_direct_broadcast}
use zprd.Peer.{Ptr, RemotePeer, is_local, new_peer}
use zprd.Ip.{
  icmp_type, ip_v, set_ttl, set_sum, set_hops, ip_ttl, ip_p, ip_src, ip_dst, ip_size, icmphdr_size,
  ip6_nxt, ip6_hops, ip6_src, ip6_dst, ip6_size, icmp6_size,
}
use zprd.PingCache.{PingData}
use zprd.Zprn.{ZprnV2, handle_zprn_pkt}
use zprd.Router.{Router, am_ii_addr, learn_route, make_peer, send_zprn_msg}
use zprd.Router.Icmp.{send_icmp_msg, send_icmp6_msg}
use zprd.Router.Resolve.{resolve_route, forward, source_hops}
use zprd.Router.Packet4.{
  Env, is_multicast, is_errmsg, drop_primary, unroutable, drop_unreachable, evaluate_ping,
  send_packet, pass_on, route_packet,
}
use zprd.Router.Packet6.{
  is_multicast6, is_errmsg6, is_rm_route6, unroutable6, send_packet6, pass_on6, route6_packet,
}
use zprd.Router.Notify.{
  unlearn_route, routemod_handler, connmgmt_handler, handle_probe_req, probe_handler, handle_entry,
}
use zprd.Router.Verify.{verify_ipv4_packet, verify_ipv6_packet}
use zprd.Zprn.Invariant.{Kept, handle_zprn_pkt-keeps}
use zprd.Router.Receive.{mark_seen, route_ipv4, route_ipv6, route_zprn, route_genip_packet}

pub record Grows (s t : Router) : Type 0 where
  pub remotes_same : t.remotes ≡ s.remotes
  pub older : s.next_ptr ≤ t.next_ptr
  pub hooks_same : t.hooks_run ≡ s.hooks_run
  pub saddr_same : (p : Ptr) → p < s.next_ptr → (t.heap p).saddr ≡ (s.heap p).saddr
  pub marks_same : (p : Ptr) → p < s.next_ptr → (t.heap p).to_discard ≡ (s.heap p).to_discard

-- Heap, vector, the next pointer and the hooks that were run are the same.
abbrev pub Keeps : Router → Router → Type 0
Keeps s t =
    (t.heap ≡ s.heap)
    × (t.remotes ≡ s.remotes)
    × (t.next_ptr ≡ s.next_ptr)
    × (t.hooks_run ≡ s.hooks_run)

pub Keeps-Grows : (s t : Router) → Keeps s t → Grows s t
Keeps-Grows s t (heap, remotes, next, hooks) = record {
  hooks_same = hooks;
  remotes_same = remotes;
  older = omega (arith, next);
  saddr_same = λ p h. ap (λ q. (q p).saddr) heap;
  marks_same = λ p h. ap (λ q. (q p).to_discard) heap;
}

pub Grows-trans : (s t u : Router) → Grows s t → Grows t u → Grows s u
Grows-trans s t u g h = record {
  remotes_same = h.remotes_same ∙ g.remotes_same;
  older = omega (arith, g.older, h.older);
  hooks_same = h.hooks_same ∙ g.hooks_same;
  saddr_same = λ p old. h.saddr_same p (omega (arith, g.older, old)) ∙ g.saddr_same p old;
  marks_same = λ p old. h.marks_same p (omega (arith, g.older, old)) ∙ g.marks_same p old;
}

pub Grows-if : (s t u : Router) (b : Bool) → Grows s t → Grows s u → Grows s (if b then t else u)
Grows-if s t u true g h = g
Grows-if s t u false g h = h

Grows-pick :
    (s : Router) (b : Bool) (x y : Router × List Ptr)
    → Grows s x.0
    → Grows s y.0
    → Grows s (if b then x else y).0
Grows-pick s true x y g h = g
Grows-pick s false x y g h = h

pub Grows-refl : (s : Router) → Grows s s
Grows-refl s = Keeps-Grows s s (refl, refl, refl, refl)

pub mark_seen-Grows : (p : Ptr) (s : Router) → Grows s (mark_seen p s)
unfolding mark_seen
mark_seen-Grows p s = record {
  remotes_same = refl;
  older = omega arith;
  hooks_same = refl;
  saddr_same = λ q h. ground arith;
  marks_same = λ q h. ground arith;
}

pub make_peer-Grows : (v : RemotePeer) (s : Router) → Grows s (make_peer v s).0
unfolding make_peer
make_peer-Grows v s = record {
  remotes_same = refl;
  older = omega arith;
  hooks_same = refl;
  saddr_same = λ q h. ground arith;
  marks_same = λ q h. ground arith;
}

forward-Keeps :
    (rand : ℕ) (p : Ptr) (dst : InnerAddr) (s : Router) → Keeps s (forward rand p dst s).0
unfolding forward
forward-Keeps rand p dst s = ground arith

pub resolve_route-Grows :
    (rand : ℕ) (p : Ptr) (src dst : InnerAddr) (ttl : ℕ) (here : Bool) (s : Router)
    → Grows s (resolve_route rand p src dst ttl here s).0
unfolding resolve_route learn_route
resolve_route-Grows rand p src dst ttl here s =
    Grows-trans s learned _ (Keeps-Grows s learned (refl, refl, refl, refl)) (
      Grows-pick learned (here || (not (is_local (s.heap p)) && is_direct_broadcast dst)) _ _
        (make_peer-Grows (new_peer s.last_time) learned)
        (Keeps-Grows learned (forward rand p dst learned).0 (forward-Keeps rand p dst learned)))
  where
    learned : Router
    learned = learn_route src p (source_hops src ttl s) s

drop_primary-Keeps : (dst : InnerAddr) (s : Router) → Keeps s (drop_primary dst s)
unfolding drop_primary
drop_primary-Keeps dst s = ground arith

pub drop_unreachable-Keeps :
    (p : Ptr) (dst : InnerAddr) (s : Router) → Keeps s (drop_unreachable p dst s).0
unfolding drop_unreachable
drop_unreachable-Keeps p dst s = ground arith

pub evaluate_ping-Keeps :
    (env : Env) (p d : Ptr) (edat : PingData) (echo reply : Bool) (ttl : ℕ) (s : Router)
    → Keeps s (evaluate_ping env p d edat echo reply ttl s)
unfolding evaluate_ping
evaluate_ping-Keeps env p d edat echo reply ttl s = ground arith

unroutable-Keeps :
    (env : Env) (p : Ptr) (buffer : List ℕ) (errmsg : Bool) (s : Router)
    → Keeps s (unroutable env p buffer errmsg s)
unfolding unroutable send_icmp_msg drop_primary
unroutable-Keeps env p buffer errmsg s = ground arith

pub pass_on-Keeps :
    (env : Env) (p : Ptr) (buffer : List ℕ) (n : ℕ) (ret : List Ptr) (s : Router)
    → Keeps s (pass_on env p buffer n ret s)
unfolding pass_on send_packet drop_unreachable evaluate_ping
pass_on-Keeps env p buffer n [] s = unroutable-Keeps env p buffer _ s
pass_on-Keeps env p buffer n (d ∷ ds) s = ground arith

routemod_handler-Keeps : (p : Ptr) (d : ZprnV2) (s : Router) → Keeps s (routemod_handler p d s)
unfolding routemod_handler unlearn_route learn_route send_zprn_msg
routemod_handler-Keeps p d s = ground arith

connmgmt_handler-Keeps : (p : Ptr) (d : ZprnV2) (s : Router) → Keeps s (connmgmt_handler p d s)
unfolding connmgmt_handler learn_route
connmgmt_handler-Keeps p d s = ground arith

probe_handler-Keeps : (p : Ptr) (d : ZprnV2) (s : Router) → Keeps s (probe_handler p d s)
unfolding probe_handler unlearn_route handle_probe_req
probe_handler-Keeps p d s = ground arith

pub handle_entry-Keeps : (p : Ptr) (d : ZprnV2) (s : Router) → Keeps s (handle_entry p d s)
unfolding handle_entry
handle_entry-Keeps p d s =
    ground
      (arith, routemod_handler-Keeps p d s, connmgmt_handler-Keeps p d s, probe_handler-Keeps p d s)
