-- ===== src/Remotes/Insert.antt =====
-- The lookup of the sender of a packet, and std::sort on the peers.
use zprd.Prelude.{
  ◌≡◌, ◌⊎◌, inl, inr, ap, sym, ◌∙◌, subst, List, [], ◌∷◌, ◌++◌, All, All-map, All-append, true,
  false, take, drop, length, Bool-cases,
}
use zprd.Peer.{Ptr, Heap, peer_eq}
use zprd.Remotes.{x_less, lower_bound_of, find_or_insert}
use zprd.Remotes.Order.{peer_order}
use zprd.Remotes.Sorted.{
  IsSorted, Missing, lower_bound-Place, drop_at, take_at, IsSorted-insert, IsSorted-behind,
  Missing-before, Missing-behind, later_miss,
}

-- A peer of the vector has the address of the item, and nothing changed.
abbrev pub Known : Heap → Ptr → List Ptr → List Ptr × Ptr → Type 0
Known heap item vec r =
    (before : List Ptr) × (x : Ptr) × (after : List Ptr) × (vec ≡ before ++ (x ∷ after))
    × (peer_eq (heap x) (heap item) ≡ true)
    × (r ≡ (vec, x))

-- No peer had the address of the item, which is now in the vector.
abbrev pub Added : Heap → Ptr → List Ptr → List Ptr × Ptr → Type 0
Added heap item vec r =
    (before : List Ptr) × (after : List Ptr) × (vec ≡ before ++ after)
    × Missing heap item vec
    × (r ≡ (before ++ (item ∷ after), item))

module _ (heap : Heap) (vec : List Ptr) (item : Ptr) where
  pub find_or_insert-end :
      drop (lower_bound_of heap vec item) vec ≡ []
      → find_or_insert heap vec item
        ≡ (take (lower_bound_of heap vec item) vec ++ (item ∷ []), item)
  unfolding find_or_insert
  find_or_insert-end h = rw (h, find_or_insert)

  pub find_or_insert-new :
      (x : Ptr) (after : List Ptr)
      → drop (lower_bound_of heap vec item) vec ≡ x ∷ after
      → peer_eq (heap x) (heap item) ≡ false
      → find_or_insert heap vec item
        ≡ (take (lower_bound_of heap vec item) vec ++ (item ∷ x ∷ after), item)
  unfolding find_or_insert
  find_or_insert-new x after h k = rw (h, find_or_insert) (rw k)

  pub find_or_insert-old :
      (x : Ptr) (after : List Ptr)
      → drop (lower_bound_of heap vec item) vec ≡ x ∷ after
      → peer_eq (heap x) (heap item) ≡ true
      → find_or_insert heap vec item ≡ (vec, x)
  unfolding find_or_insert
  find_or_insert-old x after h k = rw (h, find_or_insert) (rw k)

  module _ (s : IsSorted heap vec) where
    find_or_insert_at :
        (before after : List Ptr)
        → vec ≡ before ++ after
        → lower_bound_of heap vec item ≡ length before
        → All (λ y. x_less heap y item ≡ true) before
        → All (λ y. x_less heap y item ≡ false) after
        → (Known heap item vec (find_or_insert heap vec item)
            ⊎ Added heap item vec (find_or_insert heap vec item))
          × IsSorted heap (find_or_insert heap vec item).0
    find_or_insert_at before [] split count less more =
        let result =
          find_or_insert-end (drop_at before [] split count)
          ∙ ap (λ t. (t ++ (item ∷ []), item)) (take_at before [] split count) in
        (
          inr (
            before,
            [],
            split,
            subst (Missing heap item) (sym split)
                (All-append _ before [] (Missing-before heap item before less) tt),
            result,
          ),
          rw result (IsSorted-insert heap before item [] less tt (subst (IsSorted heap) split s)),
        )
    find_or_insert_at before (x ∷ after) split count less more =
        let there = drop_at before (x ∷ after) split count in
        let beyond = IsSorted-behind heap before x after (subst (IsSorted heap) split s) in
        let bigger = All-map (λ y k. later_miss heap item x y more.0 k) after beyond in
        elim (Bool-cases (peer_eq (heap x) (heap item))) [
          | inl same ↦
              let result = find_or_insert-old x after there same in
              (inl (before, x, after, split, same, result), rw result s)
          | inr other ↦
              let result =
                find_or_insert-new x after there other
                ∙ ap (λ t. (t ++ (item ∷ x ∷ after), item))
                    (take_at before (x ∷ after) split count) in
              (
                inr (
                  before,
                  x ∷ after,
                  split,
                  subst (Missing heap item) (sym split) (
                      All-append _ before (x ∷ after) (Missing-before heap item before less)
                        (other, Missing-behind heap item after bigger)),
                  result,
                ),
                rw result (
                    IsSorted-insert heap before item (x ∷ after) less
                      (behind x other more.0, bigger) (subst (IsSorted heap) split s)),
              )
        ]
      where
        behind :
            (x : Ptr)
            → peer_eq (heap x) (heap item) ≡ false
            → x_less heap x item ≡ false
            → x_less heap item x ≡ true
        behind x other later = elim (peer_order (heap x) (heap item) later) [
          | inl same ↦ cc
          | inr more ↦ more
        ]

    -- In a sorted vector the sender of a packet is found if a peer has its address, and otherwise
    -- put in; the vector stays strictly sorted, so that no two peers share an address.
    pub find_or_insert_lem :
        (Known heap item vec (find_or_insert heap vec item)
          ⊎ Added heap item vec (find_or_insert heap vec item))
        × IsSorted heap (find_or_insert heap vec item).0
    find_or_insert_lem =
        let (before, after, split, count, less, more) = lower_bound-Place heap item vec s in
        find_or_insert_at before after split count less more
