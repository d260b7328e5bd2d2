-- ===== src/Router/Hooks/Balance.antt =====
-- The peers and the calls of run_route_hooks for them, over the event loop of main in src/main.cxx.
use zprd.Prelude.{
  ℕ, suc, ◌+◌, ◌≡◌, inl, inr, refl, ap, arith, List, [], ◌∷◌, false, length, length-append,
  if◌then◌else◌, drop, take, take-append-drop, Bool-cases, ◌==◌,
}
use zprd.Oafa.{SockAddr}
use zprd.Peer.{Ptr, Heap, peer_eq, new_peer}
use zprd.Remotes.{find_or_insert, is_unknown, lower_bound_of}
use zprd.Router.{Router, peer_hook, run_hook, make_peer}
use zprd.Router.Grows.Packets.{route_genip_packet-Grows}
use zprd.Router.Hooks.{
  IsBalanced, IsBalanced-same, IsBalanced-more, IsBalanced-if, Grows-IsBalanced,
}
use zprd.Router.Packet4.{Env}
use zprd.Router.Receive.{lookup_peer, receive_local, receive_remote}

pub receive_local-IsBalanced :
    (env : Env) (p : Ptr) (buffer : List ℕ) (nread : ℕ) (s : Router)
    → IsBalanced s
    → IsBalanced (receive_local env p buffer nread s)
unfolding receive_local
receive_local-IsBalanced env p buffer nread s b =
    IsBalanced-if s _ (nread == 0) b
      (Grows-IsBalanced s _ (route_genip_packet-Grows env p buffer nread s) b)

length-take-drop :
    (n : ℕ) (xs ys : List Ptr) → drop n xs ≡ ys → length (take n xs) + length ys ≡ length xs
length-take-drop n xs ys h =
    omega
      (arith, ap length h, ap length (take-append-drop n xs), length-append (take n xs) (drop n xs))

-- The vector grows by the new peer if no other has its address.
length-find_or_insert :
    (heap : Heap) (remotes : List Ptr) (p : Ptr)
    → length (find_or_insert heap remotes p).0
      ≡ (if is_unknown heap remotes p then suc (length remotes) else length remotes)
unfolding find_or_insert is_unknown
length-find_or_insert heap remotes p = go (drop it remotes) refl
  where
    it : ℕ
    it = lower_bound_of heap remotes p

    go :
        (ys : List Ptr)
        → drop it remotes ≡ ys
        → length (find_or_insert heap remotes p).0
          ≡ (if is_unknown heap remotes p then suc (length remotes) else length remotes)
    go [] h =
        rw (h, find_or_insert, is_unknown)
          (omega
            (arith, length-append (take it remotes) (p ∷ []), length-take-drop it remotes [] h))
    go (y ∷ ys) h = elim (Bool-cases (peer_eq (heap y) (heap p))) [
      | inl same ↦ rw (h, same, find_or_insert, is_unknown) refl
      | inr other ↦
          rw (h, other, find_or_insert, is_unknown)
            (omega (
              arith,
              length-append (take it remotes) (p ∷ y ∷ ys),
              length-take-drop it remotes (y ∷ ys) h,
            ))
    ]

lookup_peer-IsBalanced :
    (saddr : SockAddr) (s : Router) → IsBalanced s → IsBalanced (lookup_peer saddr s).0
unfolding lookup_peer make_peer
lookup_peer-IsBalanced saddr s b =
    let made = (make_peer (record (new_peer s.last_time) { saddr = saddr }) s).0 in
    let s2 = record made { remotes = (find_or_insert made.heap s.remotes s.next_ptr).0 } in
    let size = length-find_or_insert made.heap s.remotes s.next_ptr in
    let more = peer_hook false saddr in
    elim (Bool-cases (is_unknown made.heap s.remotes s.next_ptr)) [
      | inl new ↦
          rw new
            (IsBalanced-more s (run_hook more s2) (more ∷ []) refl (ground (arith, new, size)) b)
      | inr known ↦ rw known (IsBalanced-same s s2 (ground (arith, known, size)) refl b)
    ]

pub receive_remote-IsBalanced :
    (env : Env) (saddr : SockAddr) (buffer : List ℕ) (nread : ℕ) (s : Router)
    → IsBalanced s
    → IsBalanced (receive_remote env saddr buffer nread s)
unfolding receive_remote
receive_remote-IsBalanced env saddr buffer nread s b =
    let (s1, peer_ptr) = lookup_peer saddr s in
    IsBalanced-if s _ (nread == 0) b (
      Grows-IsBalanced s1 _ (route_genip_packet-Grows env peer_ptr buffer nread s1)
        (lookup_peer-IsBalanced saddr s b))
