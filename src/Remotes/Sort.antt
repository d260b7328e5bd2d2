-- ===== src/Remotes/Sort.antt =====
-- std::sort of the peer vector at the end of the cleanup.
use mathlib.Core.List.{Perm}
use mathlib.Core.List.Perm
use zprd.Prelude.{◌≡◌, inl, inr, arith, List, [], ◌∷◌, All, All-map, true, false, Bool-cases}
use zprd.Peer.{Ptr, Heap, peer_eq}
use zprd.Remotes.{x_less, insert_peer, sort_peers}
use zprd.Remotes.Order.{peer_lt_trans, peer_order}
use zprd.Remotes.Sorted.{IsSorted, Missing}

-- No two peers of the vector have the same address.
abbrev pub AreDistinct : Heap → List Ptr → Type 0
AreDistinct heap [] = Unit
AreDistinct heap (x ∷ xs) = Missing heap x xs × AreDistinct heap xs

module _ {ℓ} (P : Ptr → Type ℓ) (heap : Heap) where
  pub All-insert_peer : (x : Ptr) (ys : List Ptr) → P x → All P ys → All P (insert_peer heap x ys)
  unfolding insert_peer
  All-insert_peer x [] px ps = (px, tt)
  All-insert_peer x (y ∷ ys) px ps = elim (Bool-cases (x_less heap y x)) [
    | inl before ↦ rw (before, insert_peer) (ps.0, All-insert_peer x ys px ps.1)
    | inr behind ↦ rw (behind, insert_peer) (px, ps)
  ]

  pub All-sort_peers : (xs : List Ptr) → All P xs → All P (sort_peers heap xs)
  unfolding sort_peers
  All-sort_peers [] ps = tt
  All-sort_peers (x ∷ xs) ps = All-insert_peer x (sort_peers heap xs) ps.0 (All-sort_peers xs ps.1)

different_less :
    (heap : Heap) (x y : Ptr)
    → peer_eq (heap y) (heap x) ≡ false
    → x_less heap y x ≡ false
    → x_less heap x y ≡ true
different_less heap x y other behind = elim (peer_order (heap y) (heap x) behind) [
  | inl same ↦ ground (arith, other, same)
  | inr less ↦ less
]

insert_peer-perm : (heap : Heap) (x : Ptr) (xs : List Ptr) → Perm (insert_peer heap x xs) (x ∷ xs)
unfolding insert_peer
insert_peer-perm heap x [] = Perm.rfl
insert_peer-perm heap x (y ∷ ys) = elim (Bool-cases (x_less heap y x)) [
  | inl before ↦
      rw (before, insert_peer)
        (Perm.trans (Perm.cons y (insert_peer-perm heap x ys)) (Perm.swap x y ys))
  | inr behind ↦ rw (behind, insert_peer) Perm.rfl
]

sort_peers-perm : (heap : Heap) (xs : List Ptr) → Perm (sort_peers heap xs) xs
unfolding sort_peers
sort_peers-perm heap [] = Perm.rfl
sort_peers-perm heap (x ∷ xs) =
    Perm.trans (insert_peer-perm heap x (sort_peers heap xs))
      (Perm.cons x (sort_peers-perm heap xs))

insert_peer-IsSorted :
    (heap : Heap) (x : Ptr) (ys : List Ptr)
    → Missing heap x ys
    → IsSorted heap ys
    → IsSorted heap (insert_peer heap x ys)
unfolding insert_peer
insert_peer-IsSorted heap x [] miss s = (tt, tt)
insert_peer-IsSorted heap x (y ∷ ys) miss s = elim (Bool-cases (x_less heap y x)) [
  | inl before ↦
      rw (before, insert_peer)
        (
          All-insert_peer (λ z. x_less heap y z ≡ true) heap x ys before s.0,
          insert_peer-IsSorted heap x ys miss.1 s.1,
        )
  | inr behind ↦
      let less = different_less heap x y miss.0 behind in
      rw (behind, insert_peer)
        ((less, All-map (λ z k. peer_lt_trans (heap x) (heap y) (heap z) less k) ys s.0), s)
]

sort_peers-IsSorted :
    (heap : Heap) (xs : List Ptr) → AreDistinct heap xs → IsSorted heap (sort_peers heap xs)
unfolding sort_peers
sort_peers-IsSorted heap [] d = tt
sort_peers-IsSorted heap (x ∷ xs) d =
    insert_peer-IsSorted heap x (sort_peers heap xs)
      (All-sort_peers (λ y. peer_eq (heap y) (heap x) ≡ false) heap xs d.0)
      (sort_peers-IsSorted heap xs d.1)

-- If no two peers of the vector have the same address, the sort at the end of the cleanup keeps
-- every peer, and the result has strictly ascending addresses, as the binary searches need it.
pub sort_peers_lem :
    (heap : Heap) (xs : List Ptr)
    → AreDistinct heap xs
    → Perm (sort_peers heap xs) xs × IsSorted heap (sort_peers heap xs)
sort_peers_lem heap xs distinct = (sort_peers-perm heap xs, sort_peers-IsSorted heap xs distinct)
