-- ===== src/Router/Packet4/Queued.antt =====
-- What route_packet hands to the sender.
use zprd.Prelude.{
  ℕ, ◌-◌, ◌<◌, ◌≤◌, ◌≡◌, ◌≢◌, ◌⊎◌, inl, inr, refl, ap, ◌∙◌, arith, List, [], ◌∷◌, All, Bool, true,
  false, not, ◌&&◌, ◌||◌, ◌==◌, ltb, leb, drop, ◌*◌, ◌+◌, Option-cases, Bool-cases, is_empty, is_eq,
  drop-drop, ◌++◌, if◌then◌else◌,
}
use zprd.Bytes.{fit, byte_at, memcmp}
use zprd.Iafa.{InnerAddr, XnerAddr, of_ip4, iafa_at_inet, apply_netmask}
use zprd.Ip.{ip_ttl, set_ttl, set_sum, ip_src, ip_dst, ip_p, ip_size, icmphdr_size}
use zprd.Peer.{Ptr, is_local}
use zprd.PingCache.{PingData}
use zprd.Remotes.Sorted.{IsSorted}
use zprd.Sender.{SendData}
use zprd.Router.{Router, have_route, learn_route, make_peer, am_ii_addr, local_aptr}
use zprd.Router.Icmp.{IcmpError, icmp_packet, icmp_ip_header, send_icmp_msg}
use zprd.Router.Packet4.{
  Env, is_errmsg, is_rm_route, is_multicast, unreach_msg, drop_primary, unroutable,
  drop_unreachable, evaluate_ping, send_packet, pass_on, route_packet,
}
use zprd.Router.Queues.{
  Queues, idle, enqueue-Queues, Queues-if, Queues-cases, Queues-map, Queues-sender,
}
use zprd.Bytes.Fit.{byte_at-fit}
use zprd.Router.Resolve.{resolve_route, forward}
use zprd.Router.Resolve.Laws.{resolve_route-avoids}

-- An ICMP error message about a packet, to one peer or to the tun device.
abbrev pub IsError : IcmpError → ℕ → Ptr → List ℕ → Router → SendData → Type 0
IsError msg id p buffer s dat =
    (dat.buffer ≡ icmp_packet msg id buffer s) × All (λ d. d ≡ p) dat.dests

-- The message that the host or the network of a packet cannot be reached.
abbrev pub IsUnreach : ℕ → Ptr → List ℕ → Router → SendData → Type 0
IsUnreach id p buffer s dat =
    IsError IcmpError.unreach id p buffer s dat ⊎ IsError IcmpError.unreach_net id p buffer s dat

-- The first bytes of a packet, not to the peer.
abbrev pub IsForwarded : Ptr → ℕ → List ℕ → SendData → Type 0
IsForwarded p n packet dat = (dat.buffer ≡ fit n packet) × All (λ d. d ≢ p) dat.dests

pub resolve_route-sender :
    (rand : ℕ) (p : Ptr) (src dst : InnerAddr) (ttl : ℕ) (here : Bool) (s : Router)
    → (resolve_route rand p src dst ttl here s).0.sender ≡ s.sender
unfolding resolve_route learn_route make_peer forward
resolve_route-sender rand p src dst ttl here s = ground arith

pub resolve_route-locals :
    (rand : ℕ) (p : Ptr) (src dst : InnerAddr) (ttl : ℕ) (here : Bool) (s : Router)
    → (resolve_route rand p src dst ttl here s).0.locals ≡ s.locals
unfolding resolve_route learn_route make_peer forward
resolve_route-locals rand p src dst ttl here s = ground arith

icmp_packet-locals :
    (msg : IcmpError) (id : ℕ) (buffer : List ℕ) (s t : Router)
    → t.locals ≡ s.locals
    → icmp_packet msg id buffer t ≡ icmp_packet msg id buffer s
unfolding icmp_packet icmp_ip_header
icmp_packet-locals msg id buffer s t same = rw same refl

-- A packet with another ttl and no checksum, all other bytes kept.
abbrev pub with_ttl : ℕ → List ℕ → List ℕ
with_ttl ttl h = fit 8 h ++ (ttl ∷ byte_at (drop 9 h) 0 ∷ 0 ∷ 0 ∷ drop 12 h)

set_sum-set_ttl : (ttl : ℕ) (h : List ℕ) → set_sum 0 (set_ttl ttl h) ≡ with_ttl ttl h
unfolding set_sum
set_sum-set_ttl ttl h = rw (drop-drop 3 9 12 h refl) refl

pub drop_primary-sender : (dst : InnerAddr) (s : Router) → (drop_primary dst s).sender ≡ s.sender
unfolding drop_primary
drop_primary-sender dst s = elim (Option-cases (have_route dst s)) [
  | inl nowhere ↦ rw (nowhere, drop_primary) refl
  | inr (r, there) ↦ rw (there, drop_primary) refl
]

pub drop_unreachable-sender :
    (p : Ptr) (target : InnerAddr) (s : Router) → (drop_unreachable p target s).0.sender ≡ s.sender
unfolding drop_unreachable
drop_unreachable-sender p target s = elim (Option-cases (have_route target s)) [
  | inl nowhere ↦ rw (nowhere, drop_unreachable) refl
  | inr (r, there) ↦ rw (there, drop_unreachable) refl
]

pub evaluate_ping-sender :
    (env : Env) (p d : Ptr) (edat : PingData) (echo reply : Bool) (ttl : ℕ) (s : Router)
    → (evaluate_ping env p d edat echo reply ttl s).sender ≡ s.sender
unfolding evaluate_ping
evaluate_ping-sender env p d edat echo reply ttl s = ground arith

pub unreach_msg-cases :
    (addr nmsk : List ℕ) (n : ℕ) (dst : List ℕ)
    → (unreach_msg addr nmsk n dst ≡ IcmpError.unreach)
      ⊎ (unreach_msg addr nmsk n dst ≡ IcmpError.unreach_net)
unfolding unreach_msg
unreach_msg-cases addr nmsk n dst =
    elim (Bool-cases (is_eq (memcmp n addr (apply_netmask n dst nmsk)))) [
      | inl itself ↦ inl (rw (itself, unreach_msg) refl)
      | inr other ↦ inr (rw (other, unreach_msg) refl)
    ]

-- What the part behind resolve_route may queue.
abbrev pub MayQueue : ℕ → Ptr → ℕ → List ℕ → Router → SendData → Type 0
MayQueue id p n packet s dat = IsUnreach id p packet s dat ⊎ IsForwarded p n packet dat

module _ (env : Env) (p : Ptr) (s : Router) (n : ℕ) (packet : List ℕ) where
  send_icmp_msg-Queues :
      (msg : IcmpError) (t : Router)
      → (msg ≡ IcmpError.unreach) ⊎ (msg ≡ IcmpError.unreach_net)
      → t.sender ≡ s.sender
      → t.locals ≡ s.locals
      → Queues (MayQueue env.ip_id p n packet s) s (send_icmp_msg msg env.ip_id packet p t)
  unfolding send_icmp_msg
  send_icmp_msg-Queues msg t kind same locals =
      let answer = icmp_packet-locals msg env.ip_id packet s t locals in
      enqueue-Queues (MayQueue env.ip_id p n packet s) _ s t same
        (inl (of_kind (p ∷ []) kind answer (refl, tt))) (inl (of_kind [] kind answer tt))
    where
      of_kind :
          (ds : List Ptr)
          → (msg ≡ IcmpError.unreach) ⊎ (msg ≡ IcmpError.unreach_net)
          → icmp_packet msg env.ip_id packet t ≡ icmp_packet msg env.ip_id packet s
          → All (λ d. d ≡ p) ds
          → IsUnreach env.ip_id p packet s (record {
            buffer = icmp_packet msg env.ip_id packet t;
            dests = ds;
            frag = 0;
            tos = 0;
          })
      of_kind ds (inl host) answer to_p =
          inl (answer ∙ ap (λ m. icmp_packet m env.ip_id packet s) host, to_p)
      of_kind ds (inr net) answer to_p =
          inr (answer ∙ ap (λ m. icmp_packet m env.ip_id packet s) net, to_p)

  unroutable-Queues :
      (errmsg : Bool) (t : Router)
      → t.sender ≡ s.sender
      → t.locals ≡ s.locals
      → Queues (MayQueue env.ip_id p n packet s) s (unroutable env p packet errmsg t)
  unfolding unroutable
  unroutable-Queues true t same locals = idle (ap (λ q. q.tasks) same)
  unroutable-Queues false t same locals = elim (Option-cases (local_aptr iafa_at_inet t.locals)) [
    | inl nobody ↦
        idle (rw (nobody, unroutable) (ap (λ q. q.tasks) (drop_primary-sender _ t ∙ same)))
    | inr (i, here) ↦
        rw (here, unroutable)
          (Queues-sender (MayQueue env.ip_id p n packet s) s (told i)
            (drop_primary (of_ip4 (ip_dst packet)) (told i))
            (drop_primary-sender (of_ip4 (ip_dst packet)) (told i))
            (send_icmp_msg-Queues (unreach_msg i.inner.addr i.nmsk 4 (ip_dst packet)) t
              (unreach_msg-cases i.inner.addr i.nmsk 4 (ip_dst packet)) same locals))
  ]
    where
      told : XnerAddr → Router
      told i =
          send_icmp_msg (unreach_msg i.inner.addr i.nmsk 4 (ip_dst packet)) env.ip_id packet p t

  send_packet-Queues :
      (ret : List Ptr) (t : Router)
      → All (λ d. d ≢ p) ret
      → t.sender ≡ s.sender
      → Queues (MayQueue env.ip_id p n packet s) s (send_packet packet n ret t)
  unfolding send_packet
  send_packet-Queues ret t avoids same =
      enqueue-Queues (MayQueue env.ip_id p n packet s) _ s t same (inr (refl, avoids))
        (inr (refl, tt))

  pass_on-Queues :
      (ret : List Ptr) (t : Router)
      → All (λ d. d ≢ p) ret
      → t.sender ≡ s.sender
      → t.locals ≡ s.locals
      → Queues (MayQueue env.ip_id p n packet s) s (pass_on env p packet n ret t)
  unfolding pass_on
  pass_on-Queues [] t avoids same locals = unroutable-Queues _ t same locals
  pass_on-Queues (d ∷ ds) t avoids same locals = Queues-if _ s _ _ (not (ip_p packet == 1)) direct (
      Queues-if _ s _ _ (is_errmsg h_icmp)
        (Queues-if _ s _ _ (is_rm_route h_icmp && leb (2 * ip_size + icmphdr_size) n)
          (Queues-if _ s (drop_unreachable p target t).0 _ (drop_unreachable p target t).1
            (idle (ap (λ q. q.tasks) dropped)) (sent (drop_unreachable p target t).0 dropped))
          direct)
        (Queues-if _ s _ _ (is_empty ds) (sent (after_ping _ _ _ _) (measured _ _ _ _)) direct))
    where
      h_icmp : List ℕ
      h_icmp = drop ip_size packet

      target : InnerAddr
      target = of_ip4 (ip_dst (drop (ip_size + icmphdr_size) packet))

      after_ping : PingData → Bool → Bool → ℕ → Router
      after_ping edat echo reply hops = evaluate_ping env p d edat echo reply hops t

      sent :
          (u : Router)
          → u.sender ≡ s.sender
          → Queues (MayQueue env.ip_id p n packet s) s (send_packet packet n (d ∷ ds) u)
      sent u = send_packet-Queues (d ∷ ds) u avoids

      direct : Queues (MayQueue env.ip_id p n packet s) s (send_packet packet n (d ∷ ds) t)
      direct = sent t same

      dropped : (drop_unreachable p target t).0.sender ≡ s.sender
      dropped = drop_unreachable-sender p target t ∙ same

      measured :
          (edat : PingData) (echo reply : Bool) (hops : ℕ)
          → (after_ping edat echo reply hops).sender ≡ s.sender
      measured edat echo reply hops = evaluate_ping-sender env p d edat echo reply hops t ∙ same

-- Whether this router is an end of the packet's way: it comes from the tun device, or goes to one
-- of our addresses.
abbrev pub is_end : Ptr → List ℕ → Router → Bool
is_end p buffer s = is_local (s.heap p) || am_ii_addr (of_ip4 (ip_dst buffer)) true s

abbrev next_ttl : Ptr → List ℕ → Router → ℕ
next_ttl p buffer s = if is_end p buffer s then ip_ttl buffer else ip_ttl buffer - 1

-- A packet that is dead is answered. One that is alive is answered if there is no way for it, and
-- forwarded with its next ttl otherwise.
abbrev pub IsRouted : ℕ → Ptr → List ℕ → ℕ → Router → SendData → Type 0
IsRouted id p buffer buflen s dat =
    let least = if is_end p buffer s then 0 else 1 in
    let packet = with_ttl (next_ttl p buffer s) buffer in
    ((ip_ttl buffer ≤ least) × IsError IcmpError.ttl id p buffer s dat)
    ⊎ ((least < ip_ttl buffer)
        × (IsUnreach id p packet s dat
            ⊎ ((ip_ttl dat.buffer ≡ next_ttl p buffer s) × IsForwarded p buflen packet dat)))

alive-MayQueue :
    (id : ℕ) (p : Ptr) (buffer : List ℕ) (buflen : ℕ) (s : Router) (dat : SendData)
    → 9 ≤ buflen
    → ((if is_end p buffer s then 0 else 1) < ip_ttl buffer)
    → MayQueue id p buflen (set_sum 0 (set_ttl (next_ttl p buffer s) buffer)) s dat
    → IsRouted id p buffer buflen s dat
alive-MayQueue id p buffer buflen s dat long alive =
    rw (set_sum-set_ttl (next_ttl p buffer s) buffer) (λ may. inr (alive, cases may))
  where
    packet : List ℕ
    packet = with_ttl (next_ttl p buffer s) buffer

    cases :
        MayQueue id p buflen packet s dat
        → IsUnreach id p packet s dat
          ⊎ ((ip_ttl dat.buffer ≡ next_ttl p buffer s) × IsForwarded p buflen packet dat)
    cases (inl unreach) = inl unreach
    cases (inr (same, away)) =
        inr (ap (λ b. ip_ttl b) same ∙ byte_at-fit buflen 8 packet (omega arith), (same, away))

-- If the peer vector is sorted, the packet comes from a peer object that exists, and has 9 bytes at
-- least, route_packet queues one packet at most. If the ttl was 0, or was 1 and this router is no
-- end of its way, that is the ICMP message "time exceeded" for the packet, to that peer or to the
-- tun device. Otherwise it is either the message that the host or the network is unreachable, to
-- the same, or the packet itself, not back to that peer: its `buflen` bytes, of which only those
-- of the ttl and of the checksum are new. The checksum is 0, and the ttl is lowered by one, unless
-- this router is an end of its way.
pub route_packet-Queues :
    (env : Env) (p : Ptr) (buffer : List ℕ) (buflen : ℕ) (s : Router)
    → IsSorted s.heap s.remotes
    → p < s.next_ptr
    → 9 ≤ buflen
    → Queues (IsRouted env.ip_id p buffer buflen s) s (route_packet env p buffer buflen s)
unfolding route_packet send_icmp_msg
route_packet-Queues env p buffer buflen s sorted old long =
    Queues-if _ s s _ (ip_p buffer == 1 && ltb buflen (ip_size + icmphdr_size)) (idle refl) (
      Queues-if _ s s _ (is_multicast (ip_dst buffer)) (idle refl) (
        Queues-cases _ s _ _ (ip_ttl buffer == 0 || (not (is_end p buffer s) && ip_ttl buffer == 1))
          (λ dead.
            Queues-if _ s s _ (ip_p buffer == 1 && is_errmsg (drop ip_size buffer)) (idle refl)
              (ttl_error (below dead)))
          (λ alive.
            Queues-map (MayQueue env.ip_id p buflen packet s) Routed s _
              (λ dat. alive-MayQueue env.ip_id p buffer buflen s dat long (above alive))
              (pass_on-Queues env p s buflen packet routed.1 routed.0
                (resolve_route-avoids env.rand p src dst ttl here s sorted old)
                (resolve_route-sender env.rand p src dst ttl here s)
                (resolve_route-locals env.rand p src dst ttl here s)))))
  where
    Routed : SendData → Type 0
    Routed = IsRouted env.ip_id p buffer buflen s

    src : InnerAddr
    src = of_ip4 (ip_src buffer)

    dst : InnerAddr
    dst = of_ip4 (ip_dst buffer)

    ttl : ℕ
    ttl = next_ttl p buffer s

    packet : List ℕ
    packet = set_sum 0 (set_ttl ttl buffer)

    here : Bool
    here = not (is_local (s.heap p)) && is_end p buffer s

    routed : Router × List Ptr
    routed = resolve_route env.rand p src dst ttl here s

    above :
        (ip_ttl buffer == 0 || (not (is_end p buffer s) && ip_ttl buffer == 1)) ≡ false
        → (if is_end p buffer s then 0 else 1) < ip_ttl buffer
    above alive = ground (arith, alive)

    below :
        (ip_ttl buffer == 0 || (not (is_end p buffer s) && ip_ttl buffer == 1)) ≡ true
        → ip_ttl buffer ≤ (if is_end p buffer s then 0 else 1)
    below dead = ground (arith, dead)

    ttl_error :
        ip_ttl buffer ≤ (if is_end p buffer s then 0 else 1)
        → Queues Routed s (send_icmp_msg IcmpError.ttl env.ip_id buffer p s)
    ttl_error dead =
        enqueue-Queues Routed _ s s refl (inl (dead, (refl, (refl, tt)))) (inl (dead, (refl, tt)))
