-- ===== src/Routes/Cleanup.antt =====
-- cleanup: what goes, what stays, and the order of what stays.
use mathlib.Core.List.{Perm}
use mathlib.Core.List.Perm
use zprd.Prelude.{
  ℕ, ◌+◌, ◌*◌, ◌<◌, ◌≤◌, ◌≡◌, ◌⊎◌, inl, inr, refl, arith, List, [], ◌∷◌, All, All-map, true, false,
  Bool-cases, remove_if, remove_if_drop, remove_if_keep,
}
use zprd.Peer.{Heap, Ptr, is_local}
use zprd.Routes.{
  ViaRouter, RouteVia, router_less, insert_sorted, sort, is_outdated, outdated_addrs, cleanup,
}

-- No router is better than one that stands before it.
abbrev pub IsSorted : List ViaRouter → Type 0
IsSorted [] = Unit
IsSorted (x ∷ xs) = All (λ y. router_less y x ≡ false) xs × IsSorted xs

router_less-asym : (a b : ViaRouter) → router_less a b ≡ true → router_less b a ≡ false
unfolding router_less
router_less-asym a b h = ground arith

-- "Not better than" is transitive.
router_less-negtrans :
    (a b c : ViaRouter)
    → router_less b a ≡ false
    → router_less c b ≡ false
    → router_less c a ≡ false
unfolding router_less
router_less-negtrans a b c h k = ground arith

All-negtrans :
    (a b : ViaRouter) (xs : List ViaRouter)
    → router_less b a ≡ false
    → All (λ y. router_less y b ≡ false) xs
    → All (λ y. router_less y a ≡ false) xs
All-negtrans a b [] h k = tt
All-negtrans a b (x ∷ xs) h k = (router_less-negtrans a b x h k.0, All-negtrans a b xs h k.1)

insert_sorted_later :
    (x y : ViaRouter) (ys : List ViaRouter)
    → router_less y x ≡ true
    → insert_sorted x (y ∷ ys) ≡ y ∷ insert_sorted x ys
unfolding insert_sorted
insert_sorted_later x y ys h = ground arith

insert_sorted_here :
    (x y : ViaRouter) (ys : List ViaRouter)
    → router_less y x ≡ false
    → insert_sorted x (y ∷ ys) ≡ x ∷ y ∷ ys
unfolding insert_sorted
insert_sorted_here x y ys h = ground arith

insert_sorted-All :
    (a x : ViaRouter) (xs : List ViaRouter)
    → router_less x a ≡ false
    → All (λ y. router_less y a ≡ false) xs
    → All (λ y. router_less y a ≡ false) (insert_sorted x xs)
unfolding insert_sorted
insert_sorted-All a x [] h k = (h, tt)
insert_sorted-All a x (y ∷ ys) h k = elim (Bool-cases (router_less y x)) [
  | inl later ↦ rw (insert_sorted_later x y ys later) (k.0, insert_sorted-All a x ys h k.1)
  | inr here ↦ rw (insert_sorted_here x y ys here) (h, k)
]

insert_sorted-IsSorted :
    (x : ViaRouter) (xs : List ViaRouter) → IsSorted xs → IsSorted (insert_sorted x xs)
unfolding insert_sorted
insert_sorted-IsSorted x [] s = (tt, tt)
insert_sorted-IsSorted x (y ∷ ys) s = elim (Bool-cases (router_less y x)) [
  | inl later ↦
      rw (insert_sorted_later x y ys later)
        (insert_sorted-All y x ys (router_less-asym y x later) s.0, insert_sorted-IsSorted x ys s.1)
  | inr here ↦ rw (insert_sorted_here x y ys here) ((here, All-negtrans x y ys here s.0), s)
]

sort-IsSorted : (xs : List ViaRouter) → IsSorted (sort xs)
unfolding sort
sort-IsSorted [] = tt
sort-IsSorted (x ∷ xs) = insert_sorted-IsSorted x (sort xs) (sort-IsSorted xs)

insert_sorted-perm : (x : ViaRouter) (xs : List ViaRouter) → Perm (insert_sorted x xs) (x ∷ xs)
unfolding insert_sorted
insert_sorted-perm x [] = Perm.rfl
insert_sorted-perm x (y ∷ ys) = elim (Bool-cases (router_less y x)) [
  | inl later ↦
      rw (insert_sorted_later x y ys later)
        (Perm.trans (Perm.cons y (insert_sorted-perm x ys)) (Perm.swap x y ys))
  | inr here ↦ rw (insert_sorted_here x y ys here) Perm.rfl
]

sort-perm : (xs : List ViaRouter) → Perm (sort xs) xs
unfolding sort
sort-perm [] = Perm.rfl
sort-perm (x ∷ xs) = Perm.trans (insert_sorted-perm x (sort xs)) (Perm.cons x (sort-perm xs))

-- `x` may stand before `y`: fewer hops; with as many, a lower latency; with the same, seen as
-- recently.
abbrev pub AsGood : ViaRouter → ViaRouter → Type 0
AsGood x y =
    (x.hops < y.hops)
    ⊎ ((x.hops ≡ y.hops)
        × ((x.latency < y.latency) ⊎ ((x.latency ≡ y.latency) × (y.seen ≤ x.seen))))

abbrev pub InOrder : List ViaRouter → Type 0
InOrder [] = Unit
InOrder (x ∷ xs) = All (AsGood x) xs × InOrder xs

AsGood-of_test : (x y : ViaRouter) → router_less y x ≡ false → AsGood x y
unfolding router_less
AsGood-of_test x y h = ground arith

IsSorted-InOrder : (xs : List ViaRouter) → IsSorted xs → InOrder xs
IsSorted-InOrder [] s = tt
IsSorted-InOrder (x ∷ xs) s = (All-map (AsGood-of_test x) xs s.0, IsSorted-InOrder xs s.1)

-- A router that cleanup keeps: seen within two timeouts, or local.
abbrev pub IsKept : ℕ → ℕ → Heap → ViaRouter → Type 0
IsKept last_time remote_timeout heap v =
    (last_time < v.seen + 2 * remote_timeout) ⊎ (is_local (heap v.addr) ≡ true)

-- Of the routers those with the property stay, in order, and the addresses of the others are
-- reported, in order.
pub data Sifted (P : ViaRouter → Type 0) : List ViaRouter → List ViaRouter → List Ptr → Type 0 where
  at_end : Sifted P [] [] []
  stays :
      (v : ViaRouter) {vs kept : List ViaRouter} {gone : List Ptr}
      → P v
      → Sifted P vs kept gone
      → Sifted P (v ∷ vs) (v ∷ kept) gone
  goes :
      (v : ViaRouter) {vs kept : List ViaRouter} {gone : List Ptr}
      → ¬ P v
      → Sifted P vs kept gone
      → Sifted P (v ∷ vs) kept (v.addr ∷ gone)

Sifted-All :
    (P : ViaRouter → Type 0) (vs kept : List ViaRouter) (gone : List Ptr)
    → Sifted P vs kept gone
    → All P kept
Sifted-All P vs kept gone at_end = tt
Sifted-All P vs kept gone (stays v h more) = (h, Sifted-All P _ _ _ more)
Sifted-All P vs kept gone (goes v h more) = Sifted-All P _ _ _ more

All-insert_sorted {κ} :
    (P : ViaRouter → Type κ) (x : ViaRouter) (xs : List ViaRouter)
    → P x
    → All P xs
    → All P (insert_sorted x xs)
unfolding insert_sorted
All-insert_sorted P x [] h k = (h, tt)
All-insert_sorted P x (y ∷ ys) h k = elim (Bool-cases (router_less y x)) [
  | inl later ↦ rw (insert_sorted_later x y ys later) (k.0, All-insert_sorted P x ys h k.1)
  | inr here ↦ rw (insert_sorted_here x y ys here) (h, k)
]

pub All-sort {κ} : (P : ViaRouter → Type κ) (xs : List ViaRouter) → All P xs → All P (sort xs)
unfolding sort
All-sort P [] h = tt
All-sort P (x ∷ xs) h = All-insert_sorted P x (sort xs) h.0 (All-sort P xs h.1)

module _ (t remote_timeout : ℕ) (heap : Heap) where
  IsKept-of_test :
      (v : ViaRouter) → is_outdated t remote_timeout heap v ≡ false → IsKept t remote_timeout heap v
  IsKept-of_test v h = ground arith

  not-IsKept :
      (v : ViaRouter)
      → is_outdated t remote_timeout heap v ≡ true
      → ¬ IsKept t remote_timeout heap v
  not-IsKept v h (inl recent) = absurd (ground (arith, h, recent))
  not-IsKept v h (inr here) = absurd (ground (arith, h, here))

  remove_if-Sifted :
      (vs : List ViaRouter)
      → Sifted
          (IsKept t remote_timeout heap)
          vs
          (remove_if (is_outdated t remote_timeout heap) vs)
          (outdated_addrs t remote_timeout heap vs)
  unfolding outdated_addrs
  remove_if-Sifted [] = at_end
  remove_if-Sifted (v ∷ vs) = elim (Bool-cases (is_outdated t remote_timeout heap v)) [
    | inl old ↦
        rw (remove_if_drop (is_outdated t remote_timeout heap) v vs old, old, outdated_addrs)
          (goes v (not-IsKept v old) (remove_if-Sifted vs))
    | inr kept ↦
        rw (remove_if_keep (is_outdated t remote_timeout heap) v vs kept, kept, outdated_addrs)
          (stays v (IsKept-of_test v kept) (remove_if-Sifted vs))
  ]

-- cleanup leaves the routers that were seen within two timeouts or are local, and all of them, each
-- as often as before, and reports the addresses of all others, in order. No router that is left
-- stands behind one with more hops, nor behind one with as many and a higher latency, nor behind
-- one with the same of both that was seen less recently. The mark for a fresh destination stays.
pub cleanup_lem :
    (last_time remote_timeout : ℕ) (heap : Heap) (r : RouteVia)
    → let (res, gone) = cleanup last_time remote_timeout heap r in
      InOrder res.routers
      × All (IsKept last_time remote_timeout heap) res.routers
      × ((kept : List ViaRouter) × Sifted (IsKept last_time remote_timeout heap) r.routers kept gone
          × Perm res.routers kept)
      × (res.fresh_add ≡ r.fresh_add)
unfolding cleanup
cleanup_lem last_time remote_timeout heap r =
    let kept = remove_if (is_outdated last_time remote_timeout heap) r.routers in
    let sifted = remove_if-Sifted last_time remote_timeout heap r.routers in
    (
      IsSorted-InOrder _ (sort-IsSorted kept),
      All-sort _ _ (Sifted-All _ r.routers kept _ sifted),
      (kept, sifted, sort-perm kept),
      refl,
    )
