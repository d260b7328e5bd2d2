-- ===== src/Remotes/Sorted.antt =====
-- The peer vector stays sorted, and the searches in it find what is there.
use zprd.Prelude.{
  ℕ, ◌≡◌, ◌⊎◌, inl, inr, refl, ap, sym, ◌∙◌, subst, arith, List, [], ◌∷◌, ◌++◌, All, true, false,
  length, take, drop, Bool-cases, All-map, All-append, All-append_left, All-append_right,
  take-append, drop-append,
}
use zprd.Remotes.Order.{
  peer_lt_trans, peer_order, peer_lt-ne, peer_gt-ne, peer_lt-asym, peer_eq-lt, peer_eq_sym,
}
use zprd.Peer.{Ptr, Heap, peer_eq}
use zprd.Remotes.{x_less, lower_bound_of, rem_peer}
use zprd.Remotes.LowerBound.{prefix_length, Partitioned, lower_bound_lem}

-- Strictly ascending addresses.
abbrev pub IsSorted : Heap → List Ptr → Type 0
IsSorted heap [] = Unit
IsSorted heap (x ∷ xs) = All (λ y. x_less heap x y ≡ true) xs × IsSorted heap xs

-- No peer of the vector has the address of the item.
abbrev pub Missing : Heap → Ptr → List Ptr → Type 0
Missing heap item = All (λ y. peer_eq (heap y) (heap item) ≡ false)

-- Behind a peer that is not before the item, none is.
pub later_miss :
    (heap : Heap) (item x y : Ptr)
    → x_less heap x item ≡ false
    → x_less heap x y ≡ true
    → x_less heap item y ≡ true
later_miss heap item x y h k = elim (peer_order (heap x) (heap item) h) [
  | inl same ↦ peer_eq-lt (heap item) (heap x) (heap y) (peer_eq_sym (heap x) (heap item) same) k
  | inr behind ↦ peer_lt_trans (heap item) (heap x) (heap y) behind k
]

IsSorted-Partitioned :
    (heap : Heap) (item : Ptr) (vec : List Ptr)
    → IsSorted heap vec
    → Partitioned (λ x. x_less heap x item) vec
IsSorted-Partitioned heap item [] s = tt
IsSorted-Partitioned heap item (x ∷ vec) s = (
  elim (Bool-cases (x_less heap x item)) [
    | inl before ↦ inl before
    | inr behind ↦ inr (
      behind,
      All-map (λ y k. peer_lt-asym (heap item) (heap y) (later_miss heap item x y behind k)) vec
          s.0,
    )
  ],
  IsSorted-Partitioned heap item vec s.1,
)

-- Where the search ends: the peers before the place are before the item, the others are not.
abbrev pub Place : Heap → Ptr → List Ptr → ℕ → Type 0
Place heap item vec it =
    (before : List Ptr) × (after : List Ptr) × (vec ≡ before ++ after)
    × (it ≡ length before)
    × All (λ y. x_less heap y item ≡ true) before
    × All (λ y. x_less heap y item ≡ false) after

prefix_length-Place :
    (heap : Heap) (item : Ptr) (vec : List Ptr)
    → Partitioned (λ x. x_less heap x item) vec
    → Place heap item vec (prefix_length (λ x. x_less heap x item) vec)
prefix_length-Place heap item [] p = ([], [], refl, refl, tt, tt)
prefix_length-Place heap item (x ∷ vec) (inl hit, p) =
    let (before, after, split, count, less, more) = prefix_length-Place heap item vec p in
    (x ∷ before, after, ap (◌∷◌ x) split, ground (arith, hit, count), (hit, less), more)
prefix_length-Place heap item (x ∷ vec) (inr miss, p) =
    ([], x ∷ vec, refl, ground (arith, miss.0), tt, miss)

pub lower_bound-Place :
    (heap : Heap) (item : Ptr) (vec : List Ptr)
    → IsSorted heap vec
    → Place heap item vec (lower_bound_of heap vec item)
lower_bound-Place heap item vec s =
    let parts = IsSorted-Partitioned heap item vec s in
    rw (lower_bound_lem (λ x. x_less heap x item) (length vec) vec (omega arith) parts)
      (prefix_length-Place heap item vec parts)

IsSorted-erase :
    (heap : Heap) (before : List Ptr) (x : Ptr) (after : List Ptr)
    → IsSorted heap (before ++ (x ∷ after))
    → IsSorted heap (before ++ after)
IsSorted-erase heap [] x after s = s.1
IsSorted-erase heap (b ∷ before) x after s = (
  All-append _ before after (All-append_left _ before (x ∷ after) s.0)
      (All-append_right _ before (x ∷ after) s.0).1,
  IsSorted-erase heap before x after s.1,
)

pub IsSorted-insert :
    (heap : Heap) (before : List Ptr) (x : Ptr) (after : List Ptr)
    → All (λ y. x_less heap y x ≡ true) before
    → All (λ y. x_less heap x y ≡ true) after
    → IsSorted heap (before ++ after)
    → IsSorted heap (before ++ (x ∷ after))
IsSorted-insert heap [] x after less more s = (more, s)
IsSorted-insert heap (b ∷ before) x after less more s = (
  All-append _ before (x ∷ after) (All-append_left _ before after s.0)
      (less.0, All-append_right _ before after s.0),
  IsSorted-insert heap before x after less.1 more s.1,
)

pub IsSorted-behind :
    (heap : Heap) (before : List Ptr) (x : Ptr) (after : List Ptr)
    → IsSorted heap (before ++ (x ∷ after))
    → All (λ y. x_less heap x y ≡ true) after
IsSorted-behind heap [] x after s = s.0
IsSorted-behind heap (b ∷ before) x after s = IsSorted-behind heap before x after s.1

pub Missing-before :
    (heap : Heap) (item : Ptr) (vec : List Ptr)
    → All (λ y. x_less heap y item ≡ true) vec
    → Missing heap item vec
Missing-before heap item vec = All-map (λ y h. peer_lt-ne (heap y) (heap item) h) vec

pub Missing-behind :
    (heap : Heap) (item : Ptr) (vec : List Ptr)
    → All (λ y. x_less heap item y ≡ true) vec
    → Missing heap item vec
Missing-behind heap item vec = All-map (λ y h. peer_gt-ne (heap y) (heap item) h) vec

pub drop_at :
    {n : ℕ} {vec : List Ptr} (before after : List Ptr)
    → vec ≡ before ++ after
    → n ≡ length before
    → drop n vec ≡ after
drop_at before after split count = rw (split, count) (drop-append before after)

pub take_at :
    {n : ℕ} {vec : List Ptr} (before after : List Ptr)
    → vec ≡ before ++ after
    → n ≡ length before
    → take n vec ≡ before
take_at before after split count = rw (split, count) (take-append before after)

rem_peer-end :
    (heap : Heap) (vec : List Ptr) (item : Ptr)
    → drop (lower_bound_of heap vec item) vec ≡ []
    → rem_peer heap vec item ≡ (vec, false)
unfolding rem_peer
rem_peer-end heap vec item h = rw (h, rem_peer)

rem_peer-other :
    (heap : Heap) (vec : List Ptr) (item x : Ptr) (after : List Ptr)
    → drop (lower_bound_of heap vec item) vec ≡ x ∷ after
    → peer_eq (heap x) (heap item) ≡ false
    → rem_peer heap vec item ≡ (vec, false)
unfolding rem_peer
rem_peer-other heap vec item x after h k = rw (h, rem_peer) (rw k)

rem_peer-hit :
    (heap : Heap) (vec : List Ptr) (item x : Ptr) (after : List Ptr)
    → drop (lower_bound_of heap vec item) vec ≡ x ∷ after
    → peer_eq (heap x) (heap item) ≡ true
    → rem_peer heap vec item ≡ (take (lower_bound_of heap vec item) vec ++ after, true)
unfolding rem_peer
rem_peer-hit heap vec item x after h k = rw (h, rem_peer) (rw k)

-- The vector without the one peer that has the address of the item.
abbrev pub Erased : Heap → Ptr → List Ptr → List Ptr → Type 0
Erased heap item vec vec' =
    (before : List Ptr) × (x : Ptr) × (after : List Ptr) × (vec ≡ before ++ (x ∷ after))
    × (peer_eq (heap x) (heap item) ≡ true)
    × (vec' ≡ before ++ after)
    × Missing heap item (before ++ after)

module _ (heap : Heap) (vec : List Ptr) (item : Ptr) (s : IsSorted heap vec) where
  rem_peer_at :
      (before after : List Ptr)
      → vec ≡ before ++ after
      → lower_bound_of heap vec item ≡ length before
      → All (λ y. x_less heap y item ≡ true) before
      → All (λ y. x_less heap y item ≡ false) after
      → ((rem_peer heap vec item ≡ (vec, false)) × Missing heap item vec)
        ⊎ (((rem_peer heap vec item).1 ≡ true) × Erased heap item vec (rem_peer heap vec item).0)
  rem_peer_at before [] split count less more = inl (
    rem_peer-end heap vec item (drop_at before [] split count),
    subst (Missing heap item) (sym split)
        (All-append _ before [] (Missing-before heap item before less) tt),
  )
  rem_peer_at before (x ∷ after) split count less more =
      let there = drop_at before (x ∷ after) split count in
      let beyond = IsSorted-behind heap before x after (subst (IsSorted heap) split s) in
      elim (Bool-cases (peer_eq (heap x) (heap item))) [
        | inl same ↦
            let result = rem_peer-hit heap vec item x after there same in
            inr (
              ap (λ r. r.1) result,
              (
                before,
                x,
                after,
                split,
                same,
                ap (λ r. r.0) result
                    ∙ ap (λ t. t ++ after) (take_at before (x ∷ after) split count),
                All-append _ before after (Missing-before heap item before less) (
                    Missing-behind heap item after
                      (All-map (λ y k. later_miss heap item x y more.0 k) after beyond)),
              ),
            )
        | inr other ↦ inl (
          rem_peer-other heap vec item x after there other,
          subst (Missing heap item) (sym split) (
              All-append _ before (x ∷ after) (Missing-before heap item before less) (
                other,
                Missing-behind heap item after
                    (All-map (λ y k. later_miss heap item x y more.0 k) after beyond),
              )),
        )
      ]

  -- In a sorted vector rem_peer removes the peer with the address of the item, reports it, and
  -- leaves none with that address; if there is no such peer it changes nothing.
  pub rem_peer_lem :
      ((rem_peer heap vec item ≡ (vec, false)) × Missing heap item vec)
      ⊎ (((rem_peer heap vec item).1 ≡ true) × Erased heap item vec (rem_peer heap vec item).0)
  rem_peer_lem =
      let (before, after, split, count, less, more) = lower_bound-Place heap item vec s in
      rem_peer_at before after split count less more

  pub rem_peer-IsSorted : IsSorted heap (rem_peer heap vec item).0
  rem_peer-IsSorted = elim rem_peer_lem [
    | inl (same, _) ↦ rw same s
    | inr (_, (before, x, after, split, _, gone, _)) ↦
        rw gone (IsSorted-erase heap before x after (subst (IsSorted heap) split s))
  ]

  pub rem_peer-Missing : Missing heap item (rem_peer heap vec item).0
  rem_peer-Missing = elim rem_peer_lem [
    | inl (same, clear) ↦ rw same clear
    | inr (_, (before, x, after, _, _, gone, clear)) ↦ rw gone clear
  ]
