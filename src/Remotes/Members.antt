-- ===== src/Remotes/Members.antt =====
-- The peers of the vector, whatever its order.
use zprd.Prelude.{
  ℕ, ◌≡◌, ◌⊎◌, inl, inr, refl, ap, arith, List, [], ◌∷◌, ◌++◌, Bool, true, false, ◌||◌, ◌==◌,
  any_of, remove_if, take, drop, take-append-drop, Bool-cases, if◌then◌else◌,
}
use zprd.Peer.{Ptr, Heap, peer_eq}
use zprd.Remotes.{lower_bound_of, find_or_insert, insert_peer, sort_peers, x_less}
use zprd.Remotes.Insert.{find_or_insert-end, find_or_insert-new, find_or_insert-old}

abbrev pub is_member : Ptr → List Ptr → Bool
is_member a xs = any_of (λ x. x == a) xs

pub is_member-append :
    (a : Ptr) (xs ys : List Ptr) → is_member a (xs ++ ys) ≡ (is_member a xs || is_member a ys)
is_member-append a [] ys = refl
is_member-append a (x ∷ xs) ys = ground (arith, is_member-append a xs ys)

is_member-insert_peer :
    (heap : Heap) (a x : Ptr) (ys : List Ptr)
    → is_member a (insert_peer heap x ys) ≡ ((x == a) || is_member a ys)
unfolding insert_peer
is_member-insert_peer heap a x [] = ground arith
is_member-insert_peer heap a x (y ∷ ys) = elim (Bool-cases (x_less heap y x)) [
  | inl later ↦ rw (later, insert_peer) (ground (arith, is_member-insert_peer heap a x ys))
  | inr here ↦ rw (here, insert_peer) (ground arith)
]

pub is_member-sort_peers :
    (heap : Heap) (a : Ptr) (xs : List Ptr) → is_member a (sort_peers heap xs) ≡ is_member a xs
unfolding sort_peers
is_member-sort_peers heap a [] = refl
is_member-sort_peers heap a (x ∷ xs) =
    ground
      (arith, is_member-insert_peer heap a x (sort_peers heap xs), is_member-sort_peers heap a xs)

-- What remove_if leaves does not satisfy the test, and the rest stays.
pub is_member-remove_if :
    (a : Ptr) (test : Ptr → Bool) (xs : List Ptr)
    → is_member a (remove_if test xs) ≡ (if test a then false else is_member a xs)
is_member-remove_if a test [] = ground arith
is_member-remove_if a test (x ∷ xs) = elim (Bool-cases (x == a)) [
  | inl here ↦
      let same : x ≡ a = ground arith in
      ground (arith, here, ap test same, is_member-remove_if a test xs)
  | inr past ↦ ground (arith, past, is_member-remove_if a test xs)
]

-- The lookup finds a peer of the vector, or puts the new one in.
pub find_or_insert_members :
    (heap : Heap) (vec : List Ptr) (item : Ptr)
    → let (remotes, found) = find_or_insert heap vec item in
      (is_member found remotes ≡ true)
      × ((a : Ptr)
          → (is_member a remotes ≡ is_member a vec)
            ⊎ (is_member a remotes ≡ ((item == a) || is_member a vec)))
find_or_insert_members heap vec item = go (drop it vec) refl
  where
    it : ℕ
    it = lower_bound_of heap vec item

    Result : List Ptr × Ptr → Type 0
    Result r =
        (is_member r.1 r.0 ≡ true)
        × ((a : Ptr)
            → (is_member a r.0 ≡ is_member a vec)
              ⊎ (is_member a r.0 ≡ ((item == a) || is_member a vec)))

    inserted : (ys : List Ptr) → drop it vec ≡ ys → Result (take it vec ++ (item ∷ ys), item)
    inserted ys h = (
      ground (arith, is_member-append item (take it vec) (item ∷ ys)),
      λ a. inr (
          ground (
            arith,
            is_member-append a (take it vec) (item ∷ ys),
            is_member-append a (take it vec) (drop it vec),
            ap (is_member a) (take-append-drop it vec),
            h,
          )),
    )

    go : (ys : List Ptr) → drop it vec ≡ ys → Result (find_or_insert heap vec item)
    go [] h = rw (find_or_insert-end heap vec item h) (inserted [] h)
    go (x ∷ after) h = elim (Bool-cases (peer_eq (heap x) (heap item))) [
      | inl same ↦ rw (find_or_insert-old heap vec item x after h same) (
        ground (
          arith,
          is_member-append x (take it vec) (drop it vec),
          ap (is_member x) (take-append-drop it vec),
          h,
        ),
        λ a. inl refl,
      )
      | inr other ↦ rw (find_or_insert-new heap vec item x after h other) (inserted (x ∷ after) h)
    ]
