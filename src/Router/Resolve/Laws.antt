-- ===== src/Router/Resolve/Laws.antt =====
-- Where resolve_route sends a packet.
use zprd.Prelude.{
  ℕ, ◌<◌, ◌≡◌, ◌≢◌, ◌⊎◌, inl, inr, refl, ap, subst, arith, List, [], ◌∷◌, ◌++◌, All, All-map,
  All-append, All-append_left, All-append_right, Bool, true, false, not, ◌&&◌, ◌||◌, none, some,
  ◌==◌, Bool-cases, Option-cases, is_empty, if◌then◌else◌, drop, any_of,
}
use zprd.Iafa.{InnerAddr, addr_eq, is_direct_broadcast}
use zprd.Iafa.Equality.{addr_eq_refl}
use zprd.Peer.{Ptr, is_local, peer_eq}
use zprd.Remotes.{rem_peer}
use zprd.Remotes.Order.{peer_eq_refl}
use zprd.Remotes.Sorted.{IsSorted, rem_peer-Missing}
use zprd.Routes.{
  ViaRouter, RouteVia, empty, get_router, del_router, del_primary_router, swap_near_routers,
}
use zprd.Routes.Find.{del_router_lem}
use zprd.Routes.Swap.{swap_near_routers_lem}
use zprd.Router.{Router, have_route, set_route, learn_route, make_peer}
use zprd.Router.Map.{have_route-set_route}
use zprd.Router.Resolve.{drop_source, flood, forward, resolve_route, source_hops}

abbrev Avoids : Ptr → List ViaRouter → Type 0
Avoids p = All (λ v. v.addr ≢ p)

drop-one-Avoids : (p : Ptr) (rs : List ViaRouter) → Avoids p rs → Avoids p (drop 1 rs)
drop-one-Avoids p [] h = tt
drop-one-Avoids p (v ∷ rs) h = h.1

drop_source-Avoids : (p : Ptr) (s : Router) (r : RouteVia) → Avoids p (drop_source p s r).routers
unfolding drop_source del_primary_router
drop_source-Avoids p s r = elim (Bool-cases test) [
  | inl again ↦ rw again (drop-one-Avoids p (del_router p r).0.routers (del_router_lem p r).0)
  | inr clean ↦ rw clean (del_router_lem p r).0
]
  where
    test : Bool
    test =
        not (empty (del_router p r).0)
        && peer_eq (s.heap p) (s.heap (get_router (del_router p r).0))

swap-Avoids :
    (p : Ptr) (rand m : ℕ) (r : RouteVia)
    → Avoids p r.routers
    → Avoids p (swap_near_routers rand m r).routers
swap-Avoids p rand m r h = elim (swap_near_routers_lem rand m r) [
  | inl (same, _) ↦ rw same h
  | inr (_, (primary, near, far, split, joined, _, _, _), _) ↦
      let parts : Avoids p (primary ∷ (near ++ far)) = subst (Avoids p) split h in
      rw joined (
        All-append _ near (primary ∷ far) (All-append_left _ near far parts.1)
          (parts.0, All-append_right _ near far parts.1))
]

front-ne :
    (p : Ptr) (rs : List ViaRouter) (fresh : Bool)
    → is_empty rs ≡ false
    → Avoids p rs
    → get_router (record { routers = rs; fresh_add = fresh }) ≢ p
front-ne p [] fresh h avoids = cc
front-ne p (v ∷ rs) fresh h avoids = avoids.0

peer_eq_refl_ne : (s : Router) (p d : Ptr) → peer_eq (s.heap d) (s.heap p) ≡ false → d ≢ p
peer_eq_refl_ne s p d h e = cc (peer_eq_refl (s.heap p), ap (λ q. peer_eq (s.heap q) (s.heap p)) e)

flood-avoids :
    (p : Ptr) (dst : InnerAddr) (s : Router)
    → IsSorted s.heap s.remotes
    → All (λ d. d ≢ p) (flood p dst s)
unfolding flood
flood-avoids p dst s sorted =
    elim (Bool-cases (any_of (λ b. addr_eq b dst) s.blocked_broadcast_dsts)) [
      | inl blocked ↦ rw blocked tt
      | inr open_dst ↦ rw open_dst (
          All-map (λ d h. peer_eq_refl_ne s p d h) (rem_peer s.heap s.remotes p).0
            (rem_peer-Missing s.heap s.remotes p sorted))
    ]

-- The route after the source is dropped, with the near routers swapped if that is configured.
chosen : ℕ → Ptr → Router → RouteVia → RouteVia
chosen rand p s r =
    let r1 = drop_source p s r in
    if s.max_near_rtt == 0 then r1 else swap_near_routers rand s.max_near_rtt r1

-- The four ways through the end of resolve_route.
forward_cases :
    (rand : ℕ) (p : Ptr) (dst : InnerAddr) (s : Router)
    → ((have_route dst s ≡ none) × (forward rand p dst s ≡ (s, flood p dst s)))
      ⊎ ((r : RouteVia) × (have_route dst s ≡ some r)
          × (((empty (drop_source p s r) ≡ true)
                × (forward rand p dst s ≡ (set_route dst (drop_source p s r) s, flood p dst s)))
              ⊎ ((empty (drop_source p s r) ≡ false)
                  × (forward rand p dst s ≡ (
                    set_route dst (chosen rand p s r) s,
                    get_router (chosen rand p s r) ∷ [],
                  )))))
unfolding forward chosen
forward_cases rand p dst s = elim (Option-cases (have_route dst s)) [
  | inl nowhere ↦ inl (nowhere, rw (nowhere, forward))
  | inr (r, there) ↦ inr (
    r,
    there,
    elim (Bool-cases (empty (drop_source p s r))) [
      | inl gone ↦ inl (gone, rw (there, forward) (rw gone))
      | inr left ↦ inr (left, rw (there, forward) (rw left))
    ],
  )
]

nonempty_middle : (near far : List ViaRouter) (v : ViaRouter) → is_empty (near ++ (v ∷ far)) ≡ false
nonempty_middle [] far v = refl
nonempty_middle (n ∷ near) far v = refl

swap-nonempty :
    (rand m : ℕ) (r : RouteVia)
    → is_empty r.routers ≡ false
    → is_empty (swap_near_routers rand m r).routers ≡ false
swap-nonempty rand m r h = elim (swap_near_routers_lem rand m r) [
  | inl (same, _) ↦ rw same h
  | inr (_, (primary, near, far, split, joined, _, _, _), _) ↦
      rw joined (nonempty_middle near far primary)
]

chosen-nonempty :
    (rand : ℕ) (p : Ptr) (s : Router) (r : RouteVia)
    → empty (drop_source p s r) ≡ false
    → is_empty (chosen rand p s r).routers ≡ false
unfolding chosen
chosen-nonempty rand p s r h = elim (Bool-cases (s.max_near_rtt == 0)) [
  | inl off ↦ rw off h
  | inr on ↦ rw on (swap-nonempty rand s.max_near_rtt (drop_source p s r) h)
]

chosen-Avoids :
    (rand : ℕ) (p : Ptr) (s : Router) (r : RouteVia) → Avoids p (chosen rand p s r).routers
unfolding chosen
chosen-Avoids rand p s r = elim (Bool-cases (s.max_near_rtt == 0)) [
  | inl off ↦ rw off (drop_source-Avoids p s r)
  | inr on ↦
      rw on (swap-Avoids p rand s.max_near_rtt (drop_source p s r) (drop_source-Avoids p s r))
]

forward-avoids :
    (rand : ℕ) (p : Ptr) (dst : InnerAddr) (s : Router)
    → IsSorted s.heap s.remotes
    → All (λ d. d ≢ p) (forward rand p dst s).1
forward-avoids rand p dst s sorted = elim (forward_cases rand p dst s) [
  | inl (_, e) ↦ rw e (flood-avoids p dst s sorted)
  | inr (r, _, inl (_, e)) ↦ rw e (flood-avoids p dst s sorted)
  | inr (r, _, inr (left, e)) ↦ rw e (
    front-ne p (chosen rand p s r).routers (chosen rand p s r).fresh_add
        (chosen-nonempty rand p s r left) (chosen-Avoids rand p s r),
    tt,
  )
]

forward-none :
    (rand : ℕ) (p : Ptr) (dst : InnerAddr) (s : Router)
    → (forward rand p dst s).1 ≡ []
    → have_route dst (forward rand p dst s).0 ≡ none
forward-none rand p dst s h = elim (forward_cases rand p dst s) [
  | inl (nowhere, e) ↦ rw e nowhere
  | inr (r, _, inl (gone, e)) ↦
      rw e (rw (have_route-set_route dst dst (drop_source p s r) s, addr_eq_refl dst, gone))
  | inr (r, _, inr (left, e)) ↦ cc
]

-- Whether resolve_route answers with the local peer.
abbrev to_local : Ptr → InnerAddr → Bool → Router → Bool
to_local p dst destination_is_local s =
    destination_is_local || (not (is_local (s.heap p)) && is_direct_broadcast dst)

module _ (rand : ℕ) (p : Ptr) (src dst : InnerAddr) (ttl : ℕ) (here : Bool) (s : Router) where
  learned : Router
  learned = learn_route src p (source_hops src ttl s) s

  resolve_route-local :
      to_local p dst here s ≡ true → (resolve_route rand p src dst ttl here s).1 ≡ s.next_ptr ∷ []
  unfolding resolve_route learn_route make_peer
  resolve_route-local h = ground (arith, h)

  resolve_route-forward :
      to_local p dst here s ≡ false
      → resolve_route rand p src dst ttl here s ≡ forward rand p dst learned
  unfolding resolve_route learn_route learned
  resolve_route-forward h = ground (arith, h)

  learned-IsSorted : IsSorted s.heap s.remotes → IsSorted learned.heap learned.remotes
  unfolding learned learn_route
  learned-IsSorted h = h

  -- If the peer vector is sorted, no packet is sent back to the peer that it came from, an object
  -- that exists: not by a route, not when it is sent to all peers, and not as the local peer that
  -- resolve_route makes.
  pub resolve_route-avoids :
      IsSorted s.heap s.remotes
      → p < s.next_ptr
      → All (λ d. d ≢ p) (resolve_route rand p src dst ttl here s).1
  resolve_route-avoids sorted old = elim (Bool-cases (to_local p dst here s)) [
    | inl yes_local ↦ rw (resolve_route-local yes_local) (omega arith, tt)
    | inr no_local ↦
        rw (resolve_route-forward no_local)
          (forward-avoids rand p dst learned (learned-IsSorted sorted))
  ]

  -- If resolve_route finds no destination, there is no route to the destination left.
  pub resolve_route-none :
      (resolve_route rand p src dst ttl here s).1 ≡ []
      → have_route dst (resolve_route rand p src dst ttl here s).0 ≡ none
  resolve_route-none h = elim (Bool-cases (to_local p dst here s)) [
    | inl yes_local ↦ cc (resolve_route-local yes_local)
    | inr no_local ↦
        rw (resolve_route-forward no_local)
          (forward-none rand p dst learned (rw (resolve_route-forward no_local) at h))
  ]
