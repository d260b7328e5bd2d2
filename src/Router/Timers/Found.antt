-- ===== src/Router/Timers/Found.antt =====
-- The flags `found_remotes` of main, which no round of the cleanup resets.
use zprd.Prelude.{
  ℕ, zero, suc, ◌-◌, ◌≤◌, ◌≡◌, inl, inr, refl, ap, sym, subst, ◌∙◌, arith, List, [], ◌∷◌, All, Bool,
  true, Option, set, length, length-remove_if, ◌==◌, Option-cases, if◌then◌else◌,
}
use zprd.Iafa.{InnerAddr}
use zprd.Oafa.{SockAddr}
use zprd.Peer.{Ptr, Heap, cfgent_name}
use zprd.Remotes.{sort_peers, insert_peer}
use zprd.Routes.{RouteVia}
use zprd.Router.{Router, RouteMap, send_zprn_msg, send_zprn_probe_req}
use zprd.Router.Timers.{
  update_server_addr, check_peer, check_peers, forget_peer, clean_route, clean_routes, reconnect,
  cleanup_round, discard_peers, dash, hashes,
}

-- Every configured remote was found at some time.
abbrev pub AllFound : List Bool → Type 0
AllFound = All (λ b. b ≡ true)

set-AllFound : (found : List Bool) (i : ℕ) → AllFound found → set found i true ≡ found
set-AllFound [] i h = refl
set-AllFound (b ∷ found) zero h = ap (λ x. x ∷ found) (sym h.0)
set-AllFound (b ∷ found) (suc i) h = ap (◌∷◌ b) (set-AllFound found i h.1)

length-insert_peer :
    (heap : Heap) (x : Ptr) (ys : List Ptr) → length (insert_peer heap x ys) ≡ suc (length ys)
unfolding insert_peer
length-insert_peer heap x [] = refl
length-insert_peer heap x (y ∷ ys) = ground (arith, length-insert_peer heap x ys)

pub length-sort_peers : (heap : Heap) (xs : List Ptr) → length (sort_peers heap xs) ≡ length xs
unfolding sort_peers
length-sort_peers heap [] = refl
length-sort_peers heap (x ∷ xs) =
    omega (arith, length-insert_peer heap x (sort_peers heap xs), length-sort_peers heap xs)

-- The peers and the number of objects are as before.
abbrev pub SamePeers : Router → Router → Type 0
SamePeers s t = (t.remotes ≡ s.remotes) × (t.next_ptr ≡ s.next_ptr)

SamePeers-trans : (s t u : Router) → SamePeers s t → SamePeers t u → SamePeers s u
SamePeers-trans s t u h k = (k.0 ∙ h.0, k.1 ∙ h.1)

reconnect-AllFound :
    (resolve : List ℕ → Option SockAddr) (use_count : Ptr → ℕ) (names : List (List ℕ)) (i : ℕ)
    (found : List Bool) (s : Router)
    → AllFound found
    → reconnect resolve use_count names i found s ≡ s
unfolding reconnect
reconnect-AllFound resolve use_count names i [] s h = refl
reconnect-AllFound resolve use_count [] i (b ∷ found) s h = refl
reconnect-AllFound resolve use_count (n ∷ names) i (b ∷ found) s h =
    rw h.0 (reconnect-AllFound resolve use_count names (suc i) found s h.1)

pub clean_route-SamePeers :
    (resolve : List ℕ → Option SockAddr) (use_count : Ptr → ℕ) (done : RouteMap) (a : InnerAddr)
    (r : RouteVia) (todo : RouteMap) (s : Router)
    → SamePeers s (clean_route resolve use_count done a r todo s).0
unfolding clean_route send_zprn_msg send_zprn_probe_req
clean_route-SamePeers resolve use_count done a r todo s = ground arith

pub clean_routes-SamePeers :
    (resolve : List ℕ → Option SockAddr) (use_count : Ptr → ℕ) (done todo : RouteMap) (s : Router)
    → SamePeers s (clean_routes resolve use_count done todo s)
unfolding clean_routes
clean_routes-SamePeers resolve use_count done [] s = (refl, refl)
clean_routes-SamePeers resolve use_count done ((a, r) ∷ todo) s =
    let round = clean_route resolve use_count done a r todo s in
    SamePeers-trans s round.0 (clean_routes resolve use_count round.1 todo round.0)
      (clean_route-SamePeers resolve use_count done a r todo s)
      (clean_routes-SamePeers resolve use_count round.1 todo round.0)

update_server_addr-SamePeers :
    (resolve : List ℕ → Option SockAddr) (use_count : Ptr → ℕ) (i : Ptr) (s : Router)
    → SamePeers s (update_server_addr resolve use_count i s).0
unfolding update_server_addr
update_server_addr-SamePeers resolve use_count i s =
    elim (Option-cases (resolve (cfgent_name s.conf_remotes dash hashes (s.heap i)))) [
      | inl failed ↦ ground (arith, failed)
      | inr (remote, found) ↦ ground (arith, found)
    ]

pub check_peer-SamePeers :
    (resolve : List ℕ → Option SockAddr) (use_count : Ptr → ℕ) (i : Ptr) (later : List Ptr)
    (s : Router)
    → SamePeers s (check_peer resolve use_count i later s)
unfolding check_peer forget_peer
check_peer-SamePeers resolve use_count i later s =
    ground (arith, update_server_addr-SamePeers resolve use_count i s)

check_peers-AllFound :
    (resolve : List ℕ → Option SockAddr) (use_count : Ptr → ℕ) (peers : List Ptr)
    (found : List Bool) (s : Router)
    → AllFound found
    → SamePeers s (check_peers resolve use_count peers found s).0
      × ((check_peers resolve use_count peers found s).1 ≡ found)
unfolding check_peers
check_peers-AllFound resolve use_count [] found s h = ((refl, refl), refl)
check_peers-AllFound resolve use_count (i ∷ later) found s h =
    subst
      (λ f.
        SamePeers s (check_peers resolve use_count later f next).0
        × ((check_peers resolve use_count later f next).1 ≡ found))
      (sym kept)
      (let (same, flags) = check_peers-AllFound resolve use_count later found next h in
        (
          SamePeers-trans s next (check_peers resolve use_count later found next).0
              (check_peer-SamePeers resolve use_count i later s) same,
          flags,
        ))
  where
    next : Router
    next = check_peer resolve use_count i later s

    kept : (if (s.heap i).cent == 0 then found else set found ((s.heap i).cent - 1) true) ≡ found
    kept = ground (arith, set-AllFound found ((s.heap i).cent - 1) h)

module _ (resolve : List ℕ → Option SockAddr) (use_count : Ptr → ℕ) where
  -- Once every configured remote was found, it stays so for good: a round of the cleanup makes no
  -- peer, and the vector of peers grows by none, even if the peer of a remote is discarded.
  pub cleanup_round-AllFound :
      (found : List Bool) (s : Router)
      → AllFound found
      → let (after, found_after) = cleanup_round resolve use_count found s in
        (found_after ≡ found)
        × (after.next_ptr ≡ s.next_ptr)
        × (length after.remotes ≤ length s.remotes)
  unfolding cleanup_round discard_peers
  cleanup_round-AllFound found s h =
      let (peers, flags) = check_peers-AllFound resolve use_count s.remotes found s h in
      let kept =
        reconnect-AllFound resolve use_count s3.conf_remotes 0 round.1 s3
          (subst AllFound (sym flags) h) in
      (
        flags,
        ap (λ t. t.next_ptr) kept ∙ (cleaned.1 ∙ peers.1),
        omega (
          arith,
          length-sort_peers s4.heap s4.remotes,
          ap (λ t. length t.remotes) kept,
          length-remove_if (λ i. (s2.heap i).to_discard) s2.remotes,
          ap length cleaned.0,
          ap length peers.0,
        ),
      )
    where
      round : Router × List Bool
      round = check_peers resolve use_count s.remotes found s

      s2 : Router
      s2 = clean_routes resolve use_count [] round.0.routes round.0

      s3 : Router
      s3 = discard_peers s2

      s4 : Router
      s4 = reconnect resolve use_count s3.conf_remotes 0 round.1 s3

      cleaned : SamePeers round.0 s2
      cleaned = clean_routes-SamePeers resolve use_count [] round.0.routes round.0
