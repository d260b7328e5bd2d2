-- ===== src/Router/Packet6/Queued.antt =====
-- What route6_packet hands to the sender.
use zprd.Prelude.{
  ℕ, ◌-◌, ◌+◌, ◌<◌, ◌≤◌, ◌≡◌, ◌≢◌, ◌⊎◌, inl, inr, refl, ap, ◌∙◌, arith, List, [], ◌∷◌, All, Bool,
  true, false, not, ◌&&◌, ◌||◌, ◌==◌, ltb, leb, drop, ◌++◌, Option-cases, is_empty, if◌then◌else◌,
}
use zprd.Bytes.{fit}
use zprd.Bytes.Fit.{byte_at-fit}
use zprd.Iafa.{InnerAddr, XnerAddr, of_ip6, iafa_at_inet6}
use zprd.Ip.{ip6_hops, set_hops, ip6_src, ip6_dst, ip6_nxt, ip6_size, icmp6_size, poke}
use zprd.Peer.{Ptr, is_local}
use zprd.PingCache.{PingData}
use zprd.Remotes.Sorted.{IsSorted}
use zprd.Sender.{SendData}
use zprd.Router.{Router, am_ii_addr, local_aptr}
use zprd.Router.Icmp.{IcmpError, icmp6_packet, icmp6_ip_header, send_icmp6_msg, htons_ip_df}
use zprd.Router.Packet4.{Env, unreach_msg, drop_primary, drop_unreachable, evaluate_ping}
use zprd.Router.Packet4.Queued.{
  resolve_route-sender, drop_primary-sender, drop_unreachable-sender, evaluate_ping-sender,
  resolve_route-locals, unreach_msg-cases,
}
use zprd.Router.Packet6.{
  is_errmsg6, is_rm_route6, is_multicast6, unroutable6, send_packet6, pass_on6, route6_packet,
}
use zprd.Router.Queues.{
  Queues, idle, enqueue-Queues, Queues-if, Queues-cases, Queues-map, Queues-sender,
}
use zprd.Router.Resolve.{resolve_route}
use zprd.Router.Resolve.Laws.{resolve_route-avoids}

-- An ICMPv6 error message about a packet, to one peer or to the tun device.
abbrev pub IsError6 : IcmpError → List ℕ → Ptr → List ℕ → Router → SendData → Type 0
IsError6 msg stack p buffer s dat =
    (dat.buffer ≡ icmp6_packet msg stack buffer s) × All (λ d. d ≡ p) dat.dests

-- The message that the host or the network of a packet cannot be reached.
abbrev pub IsUnreach6 : List ℕ → Ptr → List ℕ → Router → SendData → Type 0
IsUnreach6 stack p buffer s dat =
    IsError6 IcmpError.unreach stack p buffer s dat
    ⊎ IsError6 IcmpError.unreach_net stack p buffer s dat

-- The first bytes of a packet, not to the peer.
abbrev pub IsForwarded6 : Ptr → ℕ → List ℕ → SendData → Type 0
IsForwarded6 p n packet dat = (dat.buffer ≡ fit n packet) × All (λ d. d ≢ p) dat.dests

-- What the part behind resolve_route may queue.
abbrev pub MayQueue6 : List ℕ → Ptr → ℕ → List ℕ → Router → SendData → Type 0
MayQueue6 stack p n packet s dat = IsUnreach6 stack p packet s dat ⊎ IsForwarded6 p n packet dat

-- A packet with another hop limit, all other bytes kept.
abbrev pub with_hops : ℕ → List ℕ → List ℕ
with_hops hops h = fit 7 h ++ (hops ∷ drop 8 h)

poke-with_hops : (hops : ℕ) (h : List ℕ) → set_hops hops h ≡ with_hops hops h
unfolding poke
poke-with_hops hops h = refl

icmp6_packet-locals :
    (msg : IcmpError) (stack buffer : List ℕ) (s t : Router)
    → t.locals ≡ s.locals
    → icmp6_packet msg stack buffer t ≡ icmp6_packet msg stack buffer s
unfolding icmp6_packet icmp6_ip_header
icmp6_packet-locals msg stack buffer s t same = rw same refl

module _ (env : Env) (p : Ptr) (s : Router) (n : ℕ) (packet : List ℕ) where
  send_icmp6_msg-Queues :
      (msg : IcmpError) (t : Router)
      → (msg ≡ IcmpError.unreach) ⊎ (msg ≡ IcmpError.unreach_net)
      → t.sender ≡ s.sender
      → t.locals ≡ s.locals
      → Queues (MayQueue6 env.stack p n packet s) s (send_icmp6_msg msg env.stack packet p t)
  unfolding send_icmp6_msg
  send_icmp6_msg-Queues msg t kind same locals =
      let answer = icmp6_packet-locals msg env.stack packet s t locals in
      enqueue-Queues (MayQueue6 env.stack p n packet s) _ s t same
        (inl (of_kind (p ∷ []) kind answer (refl, tt))) (inl (of_kind [] kind answer tt))
    where
      of_kind :
          (ds : List Ptr)
          → (msg ≡ IcmpError.unreach) ⊎ (msg ≡ IcmpError.unreach_net)
          → icmp6_packet msg env.stack packet t ≡ icmp6_packet msg env.stack packet s
          → All (λ d. d ≡ p) ds
          → IsUnreach6 env.stack p packet s (record {
            buffer = icmp6_packet msg env.stack packet t;
            dests = ds;
            frag = htons_ip_df;
            tos = 0;
          })
      of_kind ds (inl host) answer to_p =
          inl (answer ∙ ap (λ m. icmp6_packet m env.stack packet s) host, to_p)
      of_kind ds (inr net) answer to_p =
          inr (answer ∙ ap (λ m. icmp6_packet m env.stack packet s) net, to_p)

  unroutable6-Queues :
      (errmsg : Bool) (t : Router)
      → t.sender ≡ s.sender
      → t.locals ≡ s.locals
      → Queues (MayQueue6 env.stack p n packet s) s (unroutable6 env p packet errmsg t)
  unfolding unroutable6
  unroutable6-Queues true t same locals = idle (ap (λ q. q.tasks) same)
  unroutable6-Queues false t same locals = elim (Option-cases (local_aptr iafa_at_inet6 t.locals)) [
    | inl nobody ↦
        idle (rw (nobody, unroutable6) (ap (λ q. q.tasks) (drop_primary-sender _ t ∙ same)))
    | inr (i, here) ↦
        rw (here, unroutable6)
          (Queues-sender (MayQueue6 env.stack p n packet s) s (told i)
            (drop_primary (of_ip6 (ip6_dst packet)) (told i))
            (drop_primary-sender (of_ip6 (ip6_dst packet)) (told i))
            (send_icmp6_msg-Queues (unreach_msg i.inner.addr i.nmsk 16 (ip6_dst packet)) t
              (unreach_msg-cases i.inner.addr i.nmsk 16 (ip6_dst packet)) same locals))
  ]
    where
      told : XnerAddr → Router
      told i =
          send_icmp6_msg (unreach_msg i.inner.addr i.nmsk 16 (ip6_dst packet)) env.stack packet p t

  send_packet6-Queues :
      (ret : List Ptr) (t : Router)
      → All (λ d. d ≢ p) ret
      → t.sender ≡ s.sender
      → Queues (MayQueue6 env.stack p n packet s) s (send_packet6 packet n ret t)
  unfolding send_packet6
  send_packet6-Queues ret t avoids same =
      enqueue-Queues (MayQueue6 env.stack p n packet s) _ s t same (inr (refl, avoids))
        (inr (refl, tt))

  pass_on6-Queues :
      (ret : List Ptr) (t : Router)
      → All (λ d. d ≢ p) ret
      → t.sender ≡ s.sender
      → t.locals ≡ s.locals
      → Queues (MayQueue6 env.stack p n packet s) s (pass_on6 env p packet n ret t)
  unfolding pass_on6
  pass_on6-Queues [] t avoids same locals = unroutable6-Queues _ t same locals
  pass_on6-Queues (d ∷ ds) t avoids same locals =
      Queues-if _ s _ _ (not (ip6_nxt packet == 0x3a)) direct (
        Queues-if _ s _ _ (is_errmsg6 h_icmp)
          (Queues-if _ s _ _ (is_rm_route6 h_icmp && leb (ip6_size + icmp6_size + ip6_size) n)
            (Queues-if _ s (drop_unreachable p target t).0 _ (drop_unreachable p target t).1
              (idle (ap (λ q. q.tasks) dropped)) (sent (drop_unreachable p target t).0 dropped))
            direct)
          (Queues-if _ s _ _ (is_empty ds) (sent (after_ping _ _ _ _) (measured _ _ _ _)) direct))
    where
      h_icmp : List ℕ
      h_icmp = drop ip6_size packet

      target : InnerAddr
      target = of_ip6 (ip6_dst (drop (ip6_size + icmp6_size) packet))

      after_ping : PingData → Bool → Bool → ℕ → Router
      after_ping edat echo reply limit = evaluate_ping env p d edat echo reply limit t

      sent :
          (u : Router)
          → u.sender ≡ s.sender
          → Queues (MayQueue6 env.stack p n packet s) s (send_packet6 packet n (d ∷ ds) u)
      sent u = send_packet6-Queues (d ∷ ds) u avoids

      direct : Queues (MayQueue6 env.stack p n packet s) s (send_packet6 packet n (d ∷ ds) t)
      direct = sent t same

      dropped : (drop_unreachable p target t).0.sender ≡ s.sender
      dropped = drop_unreachable-sender p target t ∙ same

      measured :
          (edat : PingData) (echo reply : Bool) (limit : ℕ)
          → (after_ping edat echo reply limit).sender ≡ s.sender
      measured edat echo reply limit = evaluate_ping-sender env p d edat echo reply limit t ∙ same

-- Whether this router is an end of the packet's way.
abbrev pub is_end6 : Ptr → List ℕ → Router → Bool
is_end6 p buffer s = is_local (s.heap p) || am_ii_addr (of_ip6 (ip6_dst buffer)) true s

abbrev pub next_hops : Ptr → List ℕ → Router → ℕ
next_hops p buffer s = if is_end6 p buffer s then ip6_hops buffer else ip6_hops buffer - 1

-- A packet that is dead is answered. One that is alive is answered if there is no way for it, and
-- forwarded with its next hop limit otherwise.
abbrev pub IsRouted6 : List ℕ → Ptr → List ℕ → ℕ → Router → SendData → Type 0
IsRouted6 stack p buffer buflen s dat =
    let least = if is_end6 p buffer s then 0 else 1 in
    let packet = with_hops (next_hops p buffer s) buffer in
    ((ip6_hops buffer ≤ least) × IsError6 IcmpError.ttl stack p buffer s dat)
    ⊎ ((least < ip6_hops buffer)
        × (IsUnreach6 stack p packet s dat
            ⊎ ((ip6_hops dat.buffer ≡ next_hops p buffer s) × IsForwarded6 p buflen packet dat)))

alive-MayQueue6 :
    (stack : List ℕ) (p : Ptr) (buffer : List ℕ) (buflen : ℕ) (s : Router) (dat : SendData)
    → 8 ≤ buflen
    → ((if is_end6 p buffer s then 0 else 1) < ip6_hops buffer)
    → MayQueue6 stack p buflen (set_hops (next_hops p buffer s) buffer) s dat
    → IsRouted6 stack p buffer buflen s dat
alive-MayQueue6 stack p buffer buflen s dat long alive =
    rw (poke-with_hops (next_hops p buffer s) buffer) (λ may. inr (alive, cases may))
  where
    packet : List ℕ
    packet = with_hops (next_hops p buffer s) buffer

    cases :
        MayQueue6 stack p buflen packet s dat
        → IsUnreach6 stack p packet s dat
          ⊎ ((ip6_hops dat.buffer ≡ next_hops p buffer s) × IsForwarded6 p buflen packet dat)
    cases (inl unreach) = inl unreach
    cases (inr (same, away)) =
        inr (ap (λ b. ip6_hops b) same ∙ byte_at-fit buflen 7 packet (omega arith), (same, away))

-- If the peer vector is sorted, the packet comes from a peer object that exists, and has 8 bytes at
-- least, route6_packet queues one packet at most. If the hop limit was 0, or was 1 and this router
-- is no end of its way, that is the ICMPv6 message "time exceeded" for the packet, to that peer or
-- to the tun device. Otherwise it is either the message that the host or the network is
-- unreachable, to the same, or the packet itself, not back to that peer: its `buflen` bytes, of
-- which only the hop limit is new. It is lowered by one, unless this router is an end of its way.
pub route6_packet-Queues :
    (env : Env) (p : Ptr) (buffer : List ℕ) (buflen : ℕ) (s : Router)
    → IsSorted s.heap s.remotes
    → p < s.next_ptr
    → 8 ≤ buflen
    → Queues (IsRouted6 env.stack p buffer buflen s) s (route6_packet env p buffer buflen s)
unfolding route6_packet send_icmp6_msg
route6_packet-Queues env p buffer buflen s sorted old long =
    Queues-if _ s s _ (ip6_nxt buffer == 0x3a && ltb buflen (ip6_size + icmp6_size)) (idle refl) (
      Queues-if _ s s _ (is_multicast6 (ip6_dst buffer)) (idle refl) (
        Queues-cases _ s _ _
          (ip6_hops buffer == 0 || (not (is_end6 p buffer s) && ip6_hops buffer == 1))
          (λ dead.
            Queues-if _ s s _ (ip6_nxt buffer == 0x3a && is_errmsg6 (drop ip6_size buffer))
              (idle refl) (ttl_error (below dead)))
          (λ alive.
            Queues-map (MayQueue6 env.stack p buflen packet s) Routed s _
              (λ dat. alive-MayQueue6 env.stack p buffer buflen s dat long (above alive))
              (pass_on6-Queues env p s buflen packet routed.1 routed.0
                (resolve_route-avoids env.rand p src dst hops here s sorted old)
                (resolve_route-sender env.rand p src dst hops here s)
                (resolve_route-locals env.rand p src dst hops here s)))))
  where
    Routed : SendData → Type 0
    Routed = IsRouted6 env.stack p buffer buflen s

    src : InnerAddr
    src = of_ip6 (ip6_src buffer)

    dst : InnerAddr
    dst = of_ip6 (ip6_dst buffer)

    hops : ℕ
    hops = next_hops p buffer s

    packet : List ℕ
    packet = set_hops hops buffer

    here : Bool
    here = not (is_local (s.heap p)) && is_end6 p buffer s

    routed : Router × List Ptr
    routed = resolve_route env.rand p src dst hops here s

    above :
        (ip6_hops buffer == 0 || (not (is_end6 p buffer s) && ip6_hops buffer == 1)) ≡ false
        → (if is_end6 p buffer s then 0 else 1) < ip6_hops buffer
    above alive = ground (arith, alive)

    below :
        (ip6_hops buffer == 0 || (not (is_end6 p buffer s) && ip6_hops buffer == 1)) ≡ true
        → ip6_hops buffer ≤ (if is_end6 p buffer s then 0 else 1)
    below dead = ground (arith, dead)

    ttl_error :
        ip6_hops buffer ≤ (if is_end6 p buffer s then 0 else 1)
        → Queues Routed s (send_icmp6_msg IcmpError.ttl env.stack buffer p s)
    ttl_error dead =
        enqueue-Queues Routed _ s s refl (inl (dead, (refl, (refl, tt)))) (inl (dead, (refl, tt)))
