-- ===== src/Router/Owned/Rooted.antt =====
-- The peers that the route table refers to, over packets from the tun device and the network.
use zprd.Prelude.{
  ℕ, ◌<◌, ◌≡◌, ◌⊎◌, inl, inr, refl, ap, sym, ◌∙◌, subst, arith, List, [], ◌∷◌, All-map, Bool, true,
  false, ◌==◌, Bool-cases, if◌then◌else◌,
}
use zprd.Oafa.{SockAddr}
use zprd.Peer.{Ptr, new_peer}
use zprd.Remotes.{find_or_insert, is_unknown}
use zprd.Remotes.Members.{is_member, find_or_insert_members}
use zprd.Router.{Router, RouteMap, make_peer}
use zprd.Router.Grows.Packets.{route_genip_packet-Grows}
use zprd.Router.Owned.{AllOwned, Source, OwnsRoutes}
use zprd.Router.Owned.Packets.{route_genip_packet-OwnsRoutes}
use zprd.Router.Packet4.{Env}
use zprd.Router.Receive.{lookup_peer, receive_local, receive_remote, route_genip_packet}

-- The local router, or a peer of the vector.
abbrev pub IsSource : Ptr → List Ptr → Ptr → Type 0
IsSource p remotes a = (a ≡ p) ⊎ (is_member a remotes ≡ true)

-- The same for a router, whatever its hop count.
abbrev pub FromSource : Ptr → List Ptr → Ptr → ℕ → Type 0
FromSource p remotes a hops = IsSource p remotes a

-- Every router of every route is the local router or a peer of the vector. No peer of the vector is
-- marked as discarded, nor is the local router, which is not in the vector. All of them exist.
pub record Rooted (p : Ptr) (s : Router) : Type 0 where
  pub routes_owned : OwnsRoutes (FromSource p s.remotes) s
  pub unmarked : (a : Ptr) → is_member a s.remotes ≡ true → (s.heap a).to_discard ≡ false
  pub old : (a : Ptr) → is_member a s.remotes ≡ true → a < s.next_ptr
  pub local_unmarked : (s.heap p).to_discard ≡ false
  pub local_apart : is_member p s.remotes ≡ false
  pub local_old : p < s.next_ptr

pub AllOwned-map :
    (P Q : Ptr → ℕ → Type 0) (m : RouteMap)
    → ((a : Ptr) (h : ℕ) → P a h → Q a h)
    → AllOwned P m
    → AllOwned Q m
AllOwned-map P Q [] f h = tt
AllOwned-map P Q ((a, r) ∷ m) f h =
    (All-map (λ v k. f v.addr v.hops k) r.routers h.0, AllOwned-map P Q m f h.1)

Rooted-if :
    (p : Ptr) (s t : Router) (b : Bool) → Rooted p s → Rooted p t → Rooted p (if b then s else t)
Rooted-if p s t true h k = h
Rooted-if p s t false h k = k

-- A packet whose sender is known.
packet-Rooted :
    (p q : Ptr) (env : Env) (buffer : List ℕ) (n : ℕ) (s : Router)
    → IsSource p s.remotes q
    → Rooted p s
    → Rooted p (route_genip_packet env q buffer n s)
packet-Rooted p q env buffer n s from k =
    let g = route_genip_packet-Grows env q buffer n s in
    let t = route_genip_packet env q buffer n s in
    let source : Source (FromSource p s.remotes) q = record {
      gives = λ h byte. from;
      steady = λ a o h byte owned. owned;
    } in
    let kept =
      route_genip_packet-OwnsRoutes (FromSource p s.remotes) env q buffer n s source
        k.routes_owned in
    let back =
      λ (a : Ptr) (h : is_member a t.remotes ≡ true). ap (is_member a) (sym g.remotes_same) ∙ h in
    record {
      routes_owned = record {
        owned = subst (λ xs. AllOwned (FromSource p xs) t.routes) (sym g.remotes_same) kept.owned;
      };
      unmarked = λ a h. g.marks_same a (k.old a (back a h)) ∙ k.unmarked a (back a h);
      old = λ a h. omega (arith, k.old a (back a h), g.older);
      local_unmarked = g.marks_same p k.local_old ∙ k.local_unmarked;
      local_apart = ap (is_member p) g.remotes_same ∙ k.local_apart;
      local_old = omega (arith, k.local_old, g.older);
    }

pub receive_local-Rooted :
    (p : Ptr) (env : Env) (buffer : List ℕ) (nread : ℕ) (s : Router)
    → Rooted p s
    → Rooted p (receive_local env p buffer nread s)
unfolding receive_local
receive_local-Rooted p env buffer nread s k =
    Rooted-if p s _ (nread == 0) k (packet-Rooted p p env buffer nread s (inl refl) k)

module _ (p : Ptr) (saddr : SockAddr) (s : Router) (k : Rooted p s) where
  -- The new peer, and what the lookup makes of the vector.
  made : Router
  made = (make_peer (record (new_peer s.last_time) { saddr = saddr }) s).0

  members :
      (a : Ptr)
      → is_member a (find_or_insert made.heap s.remotes s.next_ptr).0 ≡ true
      → (is_member a s.remotes ≡ true) ⊎ (a ≡ s.next_ptr)
  members a h = elim ((find_or_insert_members made.heap s.remotes s.next_ptr).1 a) [
    | inl same ↦ inl (ground (arith, same, h))
    | inr more ↦ ground (arith, more, h)
  ]

  still :
      (a : Ptr)
      → is_member a s.remotes ≡ true
      → is_member a (find_or_insert made.heap s.remotes s.next_ptr).0 ≡ true
  still a h = elim ((find_or_insert_members made.heap s.remotes s.next_ptr).1 a) [
    | inl same ↦ ground (arith, same, h)
    | inr more ↦ ground (arith, more, h)
  ]

  found-Rooted :
      Rooted p (record made { remotes = (find_or_insert made.heap s.remotes s.next_ptr).0 })
  unfolding made make_peer
  found-Rooted = record {
    routes_owned = record {
      owned =
          AllOwned-map (FromSource p s.remotes) _ s.routes
            (λ a hops from. elim from [ inl here ↦ inl here | inr h ↦ inr (still a h) ])
            k.routes_owned.owned;
    };
    unmarked = λ a h. elim (members a h) [
      | inl was ↦ ground (arith, k.unmarked a was, k.old a was)
      | inr new ↦ ground (arith, new)
    ];
    old = λ a h. elim (members a h) [
      | inl was ↦ omega (arith, k.old a was)
      | inr new ↦ omega (arith, new)
    ];
    local_unmarked = ground (arith, k.local_unmarked, k.local_old);
    local_apart =
        elim (Bool-cases (is_member p (find_or_insert made.heap s.remotes s.next_ptr).0)) [
          | inl there ↦ elim (members p there) [
            | inl was ↦ ground (arith, was, k.local_apart)
            | inr new ↦ absurd (omega (arith, new, k.local_old))
          ]
          | inr away ↦ away
        ];
    local_old = omega (arith, k.local_old);
  }

  lookup_peer-Rooted :
      Rooted p (lookup_peer saddr s).0
      × (is_member (lookup_peer saddr s).1 (lookup_peer saddr s).0.remotes ≡ true)
  unfolding lookup_peer made make_peer
  lookup_peer-Rooted =
      let k2 = found-Rooted in
      let there = (find_or_insert_members made.heap s.remotes s.next_ptr).0 in
      elim (Bool-cases (is_unknown made.heap s.remotes s.next_ptr)) [
        | inl new ↦ rw new (
          record {
            routes_owned = record { owned = k2.routes_owned.owned };
            unmarked = k2.unmarked;
            old = k2.old;
            local_unmarked = k2.local_unmarked;
            local_apart = k2.local_apart;
            local_old = k2.local_old;
          },
          there,
        )
        | inr known ↦ rw known (k2, there)
      ]

pub receive_remote-Rooted :
    (p : Ptr) (env : Env) (saddr : SockAddr) (buffer : List ℕ) (nread : ℕ) (s : Router)
    → Rooted p s
    → Rooted p (receive_remote env saddr buffer nread s)
unfolding receive_remote
receive_remote-Rooted p env saddr buffer nread s k =
    let (k1, there) = lookup_peer-Rooted p saddr s k in
    let (s1, q) = lookup_peer saddr s in
    Rooted-if p s _ (nread == 0) k (packet-Rooted p q env buffer nread s1 (inr there) k1)
