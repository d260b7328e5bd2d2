-- ===== src/Sender/Queue.antt =====
-- What enqueue lets through.
use zprd.Prelude.{
  ◌≡◌, ◌≢◌, inl, inr, refl, arith, List, [], ◌∷◌, All, All-append, false, ◌||◌, ◌==◌, Bool-cases,
  remove_if, remove_if_drop, remove_if_keep, is_empty,
}
use zprd.Peer.{Ptr, null, Heap, is_local}
use zprd.Sender.{ZprnSdat, SenderQueue, enqueue_zprn, move_zprn}

-- A peer that a message can be sent to.
abbrev pub IsRemote : Heap → Ptr → Type 0
IsRemote heap d = (d ≢ null) × (is_local (heap d) ≡ false)

-- A message as it lies in the queue: with destinations, none of them null or local, and with no
-- peer to confirm.
abbrev pub IsClean : Heap → ZprnSdat → Type 0
IsClean heap d = (d.dests ≢ []) × All (IsRemote heap) d.dests × (d.confirmed ≡ null)

remove_if-IsRemote :
    (heap : Heap) (ds : List Ptr)
    → All (IsRemote heap) (remove_if (λ x. x == null || is_local (heap x)) ds)
remove_if-IsRemote heap [] = tt
remove_if-IsRemote heap (d ∷ ds) = elim (Bool-cases (d == null || is_local (heap d))) [
  | inl bad ↦
      rw (remove_if_drop (λ x. x == null || is_local (heap x)) d ds bad)
        (remove_if-IsRemote heap ds)
  | inr good ↦
      rw (remove_if_keep (λ x. x == null || is_local (heap x)) d ds good)
        ((ground arith, ground arith), remove_if-IsRemote heap ds)
]

-- enqueue keeps every queued ZPRN message clean, and thereby drops the peer that the caller wants
-- to have confirmed: the worker never sees one.
pub enqueue_zprn-IsClean :
    (heap : Heap) (dat : ZprnSdat) (q : SenderQueue)
    → All (IsClean heap) q.zprn_msgs
    → All (IsClean heap) (enqueue_zprn heap dat q).zprn_msgs
unfolding enqueue_zprn move_zprn
enqueue_zprn-IsClean heap dat q h =
    elim (Bool-cases (is_empty (remove_if (λ x. x == null || is_local (heap x)) dat.dests))) [
      | inl nobody ↦ rw (nobody, enqueue_zprn) h
      | inr somebody ↦
          rw (somebody, enqueue_zprn)
            (All-append (IsClean heap) q.zprn_msgs _ h
              ((ground (arith, somebody), remove_if-IsRemote heap dat.dests, refl), tt))
    ]
