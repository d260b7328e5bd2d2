-- ===== src/Router/Invariant.antt =====
-- The invariant of the event loop between two rounds of the cleanup, over any sequence of packets.
use zprd.Prelude.{
  ℕ, ◌<◌, ◌≤◌, ◌≡◌, ◌≢◌, refl, ap, subst, ◌∙◌, arith, List, [], ◌∷◌, ◌++◌, All, All-map, All-append,
  All-append_left, All-append_right, Bool, true, false, inl, inr, ◌⊎◌, ◌==◌, if◌then◌else◌,
}
use zprd.Oafa.{SockAddr, af_unspec}
use zprd.Peer.{Ptr, Heap, RemotePeer, is_local, peer_lt, new_peer}
use zprd.Remotes.{x_less, find_or_insert, is_unknown}
use zprd.Remotes.Sorted.{IsSorted}
use zprd.Remotes.Insert.{Known, Added, find_or_insert_lem}
use zprd.Router.{Router, make_peer}
use zprd.Router.Grows.{Grows, make_peer-Grows}
use zprd.Router.Grows.Packets.{route_genip_packet-Grows}
use zprd.Router.Packet4.{Env}
use zprd.Router.Receive.{lookup_peer, receive_local, receive_remote}

-- A peer object of the network: it exists, and has an address.
abbrev pub IsPeer : Heap → ℕ → Ptr → Type 0
IsPeer heap next p = (p < next) × (is_local (heap p) ≡ false)

-- The vector holds peers of the network in strictly ascending order, so that no two of them have
-- the same address.
pub record Inv (s : Router) : Type 0 where
  pub sorted : IsSorted s.heap s.remotes
  pub peers : All (IsPeer s.heap s.next_ptr) s.remotes

peer_lt-saddr :
    (a b c d : RemotePeer) → c.saddr ≡ a.saddr → d.saddr ≡ b.saddr → peer_lt c d ≡ peer_lt a b
unfolding peer_lt
peer_lt-saddr a b c d h k = rw (h, k) refl

-- Vector and invariant look at the addresses of the peers alone.
module _ (heap later : Heap) (next : ℕ)
    (same : (p : Ptr) → p < next → (later p).saddr ≡ (heap p).saddr) where
  less-later :
      (x : Ptr) (xs : List Ptr)
      → IsPeer heap next x
      → All (IsPeer heap next) xs
      → All (λ y. x_less heap x y ≡ true) xs
      → All (λ y. x_less later x y ≡ true) xs
  less-later x [] px ps h = tt
  less-later x (y ∷ xs) px ps h = (
    peer_lt-saddr (heap x) (heap y) (later x) (later y) (same x px.0) (same y ps.0.0) ∙ h.0,
    less-later x xs px ps.1 h.1,
  )

  IsSorted-later :
      (xs : List Ptr) → All (IsPeer heap next) xs → IsSorted heap xs → IsSorted later xs
  IsSorted-later [] ps h = tt
  IsSorted-later (x ∷ xs) ps h = (less-later x xs ps.0 ps.1 h.0, IsSorted-later xs ps.1 h.1)

  IsPeer-later : (more p : ℕ) → next ≤ more → IsPeer heap next p → IsPeer later more p
  IsPeer-later more p grown (old, away) =
      (omega arith, ap (λ a. a.family == af_unspec) (same p old) ∙ away)

pub Grows-Inv : (s t : Router) → Grows s t → Inv s → Inv t
Grows-Inv s t g i = record {
  sorted =
      rw g.remotes_same
        (IsSorted-later s.heap t.heap s.next_ptr g.saddr_same s.remotes i.peers i.sorted);
  peers = rw g.remotes_same (
      All-map (λ p. IsPeer-later s.heap t.heap s.next_ptr g.saddr_same t.next_ptr p g.older)
        s.remotes i.peers);
}

-- What can happen between two rounds of the cleanup: a packet comes from the tun device, whose
-- peer is local, or from an address of the network, or time passes.
pub data Step (local_router : Ptr) (s : Router) : Router → Type 0 where
  from_tun :
      (env : Env) (buffer : List ℕ) (nread : ℕ)
      → Step local_router s (receive_local env local_router buffer nread s)
  from_network :
      (env : Env) (saddr : SockAddr) (buffer : List ℕ) (nread : ℕ)
      → saddr.family ≢ af_unspec
      → Step local_router s (receive_remote env saddr buffer nread s)
  tick : (now : ℕ) → Step local_router s (record s { last_time = now })

pub data Reach (local_router : Ptr) (s : Router) : Router → Type 0 where
  start : Reach local_router s s
  later : {t u : Router} → Reach local_router s t → Step local_router t u → Reach local_router s u

Inv-if : (s t : Router) (b : Bool) → Inv s → Inv t → Inv (if b then s else t)
Inv-if s t true h k = h
Inv-if s t false h k = k

inserted-peers :
    (heap : Heap) (next item : ℕ) (vec : List Ptr) (r : List Ptr × Ptr)
    → IsPeer heap next item
    → All (IsPeer heap next) vec
    → Known heap item vec r ⊎ Added heap item vec r
    → All (IsPeer heap next) r.0
inserted-peers heap next item vec r p ps (inl (before, x, after, split, same, e)) = rw e ps
inserted-peers heap next item vec r p ps (inr (before, after, split, miss, e)) =
    let parts : All (IsPeer heap next) (before ++ after) =
      subst (All (IsPeer heap next)) split ps in
    rw e (
      All-append _ before (item ∷ after) (All-append_left _ before after parts)
        (p, All-append_right _ before after parts))

module _ (saddr : SockAddr) (s : Router) (i : Inv s) (away : saddr.family ≢ af_unspec) where
  -- The new peer object, and what the lookup makes of the vector.
  made : Router
  made = (make_peer (record (new_peer s.last_time) { saddr = saddr }) s).0

  looked_up : List Ptr × Ptr
  looked_up = find_or_insert made.heap made.remotes s.next_ptr

  made-Inv : Inv made
  unfolding made
  made-Inv =
      Grows-Inv s made (make_peer-Grows (record (new_peer s.last_time) { saddr = saddr }) s) i

  made-IsPeer : IsPeer made.heap made.next_ptr s.next_ptr
  unfolding made make_peer
  made-IsPeer = (omega arith, ground (arith, away))

  looked_up-Inv : Inv (record made { remotes = looked_up.0 })
  unfolding looked_up
  looked_up-Inv =
      let (found, sorted) = find_or_insert_lem made.heap made.remotes s.next_ptr made-Inv.sorted in
      record {
        sorted = sorted;
        peers =
            inserted-peers made.heap made.next_ptr s.next_ptr made.remotes looked_up made-IsPeer
              made-Inv.peers found;
      }

  lookup_peer-Inv : Inv (lookup_peer saddr s).0
  unfolding lookup_peer made looked_up make_peer
  lookup_peer-Inv =
      let i2 = looked_up-Inv in
      Inv-if _ _ (is_unknown made.heap made.remotes s.next_ptr)
        (record { sorted = i2.sorted; peers = i2.peers }) looked_up-Inv

receive_remote-Inv :
    (env : Env) (saddr : SockAddr) (buffer : List ℕ) (nread : ℕ) (s : Router)
    → Inv s
    → saddr.family ≢ af_unspec
    → Inv (receive_remote env saddr buffer nread s)
unfolding receive_remote
receive_remote-Inv env saddr buffer nread s i away =
    let (s1, peer_ptr) = lookup_peer saddr s in
    Inv-if s _ (nread == 0) i (
      Grows-Inv s1 _ (route_genip_packet-Grows env peer_ptr buffer nread s1)
        (lookup_peer-Inv saddr s i away))

Step-Inv : (local_router : Ptr) (s t : Router) → Inv s → Step local_router s t → Inv t
unfolding receive_local
Step-Inv p s t i (from_tun env buffer nread) =
    Inv-if s _ (nread == 0) i (Grows-Inv s _ (route_genip_packet-Grows env p buffer nread s) i)
Step-Inv p s t i (from_network env saddr buffer nread away) =
    receive_remote-Inv env saddr buffer nread s i away
Step-Inv p s t i (tick now) = record { sorted = i.sorted; peers = i.peers }

-- The invariant holds after any sequence of packets and ticks, if it held before.
pub Reach-Inv : (local_router : Ptr) (s t : Router) → Inv s → Reach local_router s t → Inv t
Reach-Inv p s t i start = i
Reach-Inv p s t i (later {t = u} r st) = Step-Inv p u t (Reach-Inv p s u i r) st
