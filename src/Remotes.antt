-- ===== src/Remotes.antt =====
-- The sorted vector of peers in src/main.cxx: x_less, rem_peer, and the lookup of the sender of a
-- packet in main. std::lower_bound halves the range as the standard library does.
pub mod LowerBound
pub mod Order
pub mod Sorted
pub mod Sort
pub mod Insert
pub mod Members
use zprd.Prelude.{
  ℕ, zero, suc, ◌+◌, ◌/◌, List, [], ◌∷◌, ◌++◌, Bool, true, false, not, Option, none, some, take,
  drop, length, if◌then◌else◌,
}
use zprd.Peer.{Ptr, Heap, peer_eq, peer_lt}

-- x_less
abbrev pub x_less : Heap → Ptr → Ptr → Bool
x_less heap a b = peer_lt (heap a) (heap b)

-- lower_bound on a range, for the test `x < item`: the number of places that the result lies
-- behind the start of the range. Each round halves the range, so its length is fuel enough.
unfoldable pub lower_bound {ℓ} : {A : Type ℓ} → (A → Bool) → ℕ → List A → ℕ
lower_bound less zero range = 0
lower_bound less (suc fuel) range =
    let half = length range / 2 in
    elim (drop half range) [
      | [] ↦ 0
      | mid ∷ upper ↦ elim (less mid) [
        | true ↦ half + 1 + lower_bound less fuel upper
        | false ↦ lower_bound less fuel (take half range)
      ]
    ]

abbrev pub lower_bound_of : Heap → List Ptr → Ptr → ℕ
lower_bound_of heap vec item = lower_bound (λ x. x_less heap x item) (length vec) vec

-- rem_peer: the vector afterwards, and whether an element was erased.
unfoldable pub rem_peer : Heap → List Ptr → Ptr → List Ptr × Bool
rem_peer heap vec item =
    let it = lower_bound_of heap vec item in
    elim (drop it vec) [
      | [] ↦ (vec, false)
      | x ∷ after ↦
          if not (peer_eq (heap x) (heap item)) then (vec, false) else (take it vec ++ after, true)
    ]

-- The sender of a packet: the peer at its address if there is one, else the new peer, which is
-- put in at its place.
unfoldable pub find_or_insert : Heap → List Ptr → Ptr → List Ptr × Ptr
find_or_insert heap remotes peer_ptr =
    let it = lower_bound_of heap remotes peer_ptr in
    elim (drop it remotes) [
      | [] ↦ (take it remotes ++ (peer_ptr ∷ []), peer_ptr)
      | x ∷ after ↦
          if not (peer_eq (heap x) (heap peer_ptr))
          then (take it remotes ++ (peer_ptr ∷ x ∷ after), peer_ptr)
          else (remotes, x)
    ]

-- The condition under which the new peer is put in.
unfoldable pub is_unknown : Heap → List Ptr → Ptr → Bool
is_unknown heap remotes peer_ptr = elim (drop (lower_bound_of heap remotes peer_ptr) remotes) [
  | [] ↦ true
  | x ∷ after ↦ not (peer_eq (heap x) (heap peer_ptr))
]

-- std::sort by x_less; the order of equal peers, which it leaves open, is kept.
unfoldable pub insert_peer : Heap → Ptr → List Ptr → List Ptr
insert_peer heap x [] = x ∷ []
insert_peer heap x (y ∷ ys) = elim (x_less heap y x) [
  | true ↦ y ∷ insert_peer heap x ys
  | false ↦ x ∷ y ∷ ys
]

unfoldable pub sort_peers : Heap → List Ptr → List Ptr
sort_peers heap [] = []
sort_peers heap (x ∷ xs) = insert_peer heap x (sort_peers heap xs)
