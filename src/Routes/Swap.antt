-- ===== src/Routes/Swap.antt =====
-- swap_near_routers: the primary router moves behind the routers near it.
use zprd.Prelude.{
  ℕ, zero, suc, ◌*◌, ◌%◌, ◌≤◌, ◌≡◌, ◌≢◌, ◌⊎◌, inl, inr, refl, ap, sym, subst, arith, List, [], ◌∷◌,
  ◌++◌, All, true, false, not, ◌||◌, ◌==◌, length, take, drop, Bool-cases, take-append-drop,
  is_empty,
}
use zprd.Routes.{
  ViaRouter, RouteVia, diff, is_near, near_rcnt, rotate_near, swap_near_routers, router_less,
  front_hops,
}
use zprd.Routes.Cleanup.{IsSorted}

-- A router near the primary one: no more hops, and a latency within max_near_rtt milliseconds.
abbrev pub IsNear : ℕ → ViaRouter → ViaRouter → Type 0
IsNear max_near_rtt primary it =
    (it.hops ≤ primary.hops) × (diff it.latency primary.latency ≤ max_near_rtt * 1_000_000)

IsNear-of_test :
    (m : ℕ) (primary it : ViaRouter) → is_near m primary it ≡ true → IsNear m primary it
IsNear-of_test m primary it h = (ground arith, ground arith)

test_of_near : (m : ℕ) (primary it : ViaRouter) → IsNear m primary it → is_near m primary it ≡ true
test_of_near m primary it h = ground arith

near_rcnt_hit :
    (m : ℕ) (primary it : ViaRouter) (rs : List ViaRouter)
    → is_near m primary it ≡ true
    → near_rcnt m primary (it ∷ rs) ≡ suc (near_rcnt m primary rs)
unfolding near_rcnt
near_rcnt_hit m primary it rs h = ground arith

near_rcnt_miss :
    (m : ℕ) (primary it : ViaRouter) (rs : List ViaRouter)
    → is_near m primary it ≡ false
    → near_rcnt m primary (it ∷ rs) ≡ 0
unfolding near_rcnt
near_rcnt_miss m primary it rs h = ground arith

take-nil : (n : ℕ) → take {A = ViaRouter} n [] ≡ []
take-nil zero = refl
take-nil (suc n) = refl

drop-nil : (n : ℕ) → drop {A = ViaRouter} n [] ≡ []
drop-nil zero = refl
drop-nil (suc n) = refl

near_rcnt-IsNear :
    (m : ℕ) (primary : ViaRouter) (rs : List ViaRouter)
    → All (IsNear m primary) (take (near_rcnt m primary rs) rs)
near_rcnt-IsNear m primary [] = rw (take-nil (near_rcnt m primary [])) tt
near_rcnt-IsNear m primary (it ∷ rs) = elim (Bool-cases (is_near m primary it)) [
  | inl hit ↦
      rw (near_rcnt_hit m primary it rs hit)
        (IsNear-of_test m primary it hit, near_rcnt-IsNear m primary rs)
  | inr miss ↦ rw (near_rcnt_miss m primary it rs miss) tt
]

-- The list does not begin with a router near the primary one.
abbrev pub NoneNear : ℕ → ViaRouter → List ViaRouter → Type 0
NoneNear m primary [] = Unit
NoneNear m primary (it ∷ rs) = ¬ IsNear m primary it

near_rcnt-NoneNear :
    (m : ℕ) (primary : ViaRouter) (rs : List ViaRouter)
    → near_rcnt m primary rs ≡ 0
    → NoneNear m primary rs
near_rcnt-NoneNear m primary [] h = tt
near_rcnt-NoneNear m primary (it ∷ rs) h = λ near.
    absurd (omega (arith, h, near_rcnt_hit m primary it rs (test_of_near m primary it near)))

-- The count ends at a router that is not near.
near_rcnt_stops :
    (m : ℕ) (primary : ViaRouter) (rs : List ViaRouter)
    → NoneNear m primary (drop (near_rcnt m primary rs) rs)
near_rcnt_stops m primary [] = rw (drop-nil (near_rcnt m primary [])) tt
near_rcnt_stops m primary (it ∷ rs) = elim (Bool-cases (is_near m primary it)) [
  | inl hit ↦ rw (near_rcnt_hit m primary it rs hit) (near_rcnt_stops m primary rs)
  | inr miss ↦
      rw (near_rcnt_miss m primary it rs miss)
        (λ near. absurd (cc (miss, test_of_near m primary it near)))
]

near_rcnt-le :
    (m : ℕ) (primary : ViaRouter) (rs : List ViaRouter) → near_rcnt m primary rs ≤ length rs
unfolding near_rcnt
near_rcnt-le m primary [] = omega arith
near_rcnt-le m primary (it ∷ rs) = ground (arith, near_rcnt-le m primary rs)

take-ne-nil : (n : ℕ) (rs : List ViaRouter) → n ≢ 0 → n ≤ length rs → take n rs ≢ []
take-ne-nil zero rs h k = absurd (h refl)
take-ne-nil (suc n) [] h k = absurd (omega arith)
take-ne-nil (suc n) (r ∷ rs) h k = λ e. cc

-- The routers after a swap: the near ones first, the old primary one behind them, then the rest.
abbrev pub Rotated : ℕ → List ViaRouter → List ViaRouter → Type 0
Rotated m rs rs' =
    (primary : ViaRouter) × (near : List ViaRouter) × (far : List ViaRouter) × (rs
      ≡ primary ∷ (near ++ far))
    × (rs' ≡ near ++ (primary ∷ far))
    × All (IsNear m primary) near
    × (near ≢ [])
    × NoneNear m primary far

-- There is nothing to swap: no router, or the second one is missing or not near.
abbrev pub Alone : ℕ → List ViaRouter → Type 0
Alone m [] = Unit
Alone m (primary ∷ rs) = NoneNear m primary rs

rotate_near_cases :
    (m : ℕ) (rs : List ViaRouter)
    → (Alone m rs × (rotate_near m rs ≡ rs)) ⊎ Rotated m rs (rotate_near m rs)
unfolding rotate_near
rotate_near_cases m [] = inl (tt, refl)
rotate_near_cases m (primary ∷ rs) = elim (Bool-cases (near_rcnt m primary rs == 0)) [
  | inl none_near ↦ inl (near_rcnt-NoneNear m primary rs (ground arith), ground arith)
  | inr some_near ↦ inr (
    primary,
    take (near_rcnt m primary rs) rs,
    drop (near_rcnt m primary rs) rs,
    ap (◌∷◌ primary) (sym (take-append-drop (near_rcnt m primary rs) rs)),
    ground arith,
    near_rcnt-IsNear m primary rs,
    take-ne-nil (near_rcnt m primary rs) rs (ground arith) (near_rcnt-le m primary rs),
    near_rcnt_stops m primary rs,
  )
]

swap_skipped :
    (rand m : ℕ) (r : RouteVia)
    → (is_empty r.routers || not (rand % 2 == 0)) ≡ true
    → swap_near_routers rand m r ≡ r
unfolding swap_near_routers
swap_skipped rand m r h = ground (arith, h)

swap_taken :
    (rand m : ℕ) (r : RouteVia)
    → (is_empty r.routers || not (rand % 2 == 0)) ≡ false
    → swap_near_routers rand m r ≡ record r { routers = rotate_near m r.routers }
unfolding swap_near_routers
swap_taken rand m r h = ground (arith, h)

Alone-of_empty : (m : ℕ) (rs : List ViaRouter) → is_empty rs ≡ true → Alone m rs
Alone-of_empty m [] h = tt
Alone-of_empty m (x ∷ rs) h = cc

skip_reason :
    (rand m : ℕ) (rs : List ViaRouter)
    → (is_empty rs || not (rand % 2 == 0)) ≡ true
    → (rand % 2 ≢ 0) ⊎ Alone m rs
skip_reason rand m rs h = elim (Bool-cases (is_empty rs)) [
  | inl no_router ↦ inr (Alone-of_empty m rs no_router)
  | inr other ↦ inl (ground (arith, h, other))
]

-- swap_near_routers changes nothing if `rand()` is odd or there is no router near behind the
-- primary one. Otherwise it moves the primary router behind the routers near it that follow it, up
-- to the first one that is not near or the end, and leaves the order of the others.
pub swap_near_routers_lem :
    (rand m : ℕ) (r : RouteVia)
    → let res = swap_near_routers rand m r in
      ((res ≡ r) × ((rand % 2 ≢ 0) ⊎ Alone m r.routers))
      ⊎ ((rand % 2 ≡ 0) × Rotated m r.routers res.routers × (res.fresh_add ≡ r.fresh_add))
unfolding swap_near_routers
swap_near_routers_lem rand m r = elim (Bool-cases (is_empty r.routers || not (rand % 2 == 0))) [
  | inl skip ↦ inl (swap_skipped rand m r skip, skip_reason rand m r.routers skip)
  | inr go ↦ rw (swap_taken rand m r go) (elim (rotate_near_cases m r.routers) [
    | inl (alone, same) ↦ inl (ground (arith, same), inr alone)
    | inr rotated ↦ inr (ground (arith, go), rotated, refl)
  ])
]

near_hops :
    (m : ℕ) (primary it : ViaRouter)
    → IsNear m primary it
    → router_less it primary ≡ false
    → it.hops ≡ primary.hops
unfolding router_less
near_hops m primary it near h = ground arith

Rotated-front_hops :
    (m : ℕ) (r r' : RouteVia)
    → IsSorted r.routers
    → Rotated m r.routers r'.routers
    → front_hops r' ≡ front_hops r
Rotated-front_hops m r r' s (primary, [], far, split, joined, near, some_near, _) =
    absurd (some_near refl)
Rotated-front_hops m r r' s (primary, it ∷ near, far, split, joined, all_near, some_near, _) =
    let sorted : IsSorted (primary ∷ it ∷ (near ++ far)) = subst IsSorted split s in
    ground (arith, split, joined, near_hops m primary it all_near.0 sorted.0.0)

-- On routers in the order that cleanup leaves them in, swap_near_routers puts no router in front
-- that needs more hops: the hop count of the route stays.
pub front_hops-swap_near_routers :
    (rand m : ℕ) (r : RouteVia)
    → IsSorted r.routers
    → front_hops (swap_near_routers rand m r) ≡ front_hops r
front_hops-swap_near_routers rand m r s = elim (swap_near_routers_lem rand m r) [
  | inl (same, _) ↦ ap (λ q. front_hops q) same
  | inr (_, rotated, _) ↦ Rotated-front_hops m r (swap_near_routers rand m r) s rotated
]
