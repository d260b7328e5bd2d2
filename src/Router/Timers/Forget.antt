-- ===== src/Router/Timers/Forget.antt =====
-- The first loop of the cleanup takes every peer that it marks out of all routes.
use zprd.Prelude.{
  ℕ, ◌≡◌, ◌≢◌, ◌⊎◌, inl, inr, refl, ap, sym, subst, ◌∙◌, arith, List, [], ◌∷◌, All, Bool, ltb, ◌+◌,
  true, false, Option, any_of, ◌==◌, Bool-cases, Option-cases, if◌then◌else◌,
}
use zprd.Oafa.{SockAddr, gp_port}
use zprd.Peer.{Ptr, Heap, RemotePeer, store, cfgent_name, set_port_if_unset}
use zprd.Routes.{del_router}
use zprd.Routes.Find.{del_router_lem}
use zprd.Routes.Owned.{All-remove_if}
use zprd.Router.{Router, RouteMap}
use zprd.Router.Notify.{del_from_all}
use zprd.Router.Timers.{
  update_server_addr, mark_duplicates, discard, duplicate, check_peer, check_peers, forget_peer,
  dash, hashes,
}

-- No route goes by the peer.
abbrev pub RoutesAvoid : Ptr → RouteMap → Type 0
RoutesAvoid p = All (λ e. All (λ v. v.addr ≢ p) e.1.routers)

-- No route goes by a peer that is marked as discarded.
abbrev pub IsClean : Router → Type 0
IsClean s = (p : Ptr) → (s.heap p).to_discard ≡ true → RoutesAvoid p s.routes

-- A peer that is marked as discarded is in no route.
abbrev pub IsGone : Router → Ptr → Type 0
IsGone s p = ((s.heap p).to_discard ≡ false) ⊎ RoutesAvoid p s.routes

-- The same as IsClean, but for the peers of a list.
abbrev pub Pending : List Ptr → Router → Type 0
Pending later s =
    (p : Ptr)
    → (s.heap p).to_discard ≡ true
    → (any_of (λ x. x == p) later ≡ true) ⊎ RoutesAvoid p s.routes

del_from_all-RoutesAvoid : (i : Ptr) (m : RouteMap) → RoutesAvoid i (del_from_all i m)
unfolding del_from_all
del_from_all-RoutesAvoid i [] = tt
del_from_all-RoutesAvoid i ((a, r) ∷ m) = ((del_router_lem i r).0, del_from_all-RoutesAvoid i m)

RoutesAvoid-del_from_all :
    (p i : Ptr) (m : RouteMap) → RoutesAvoid p m → RoutesAvoid p (del_from_all i m)
unfolding del_from_all del_router
RoutesAvoid-del_from_all p i [] h = tt
RoutesAvoid-del_from_all p i ((a, r) ∷ m) h = (
  All-remove_if (λ v. v.addr ≢ p) (λ v. i == v.addr) r.routers h.0,
  RoutesAvoid-del_from_all p i m h.1,
)

pub set_port_if_unset-marks :
    (port : ℕ) (p : RemotePeer) → (set_port_if_unset port p).to_discard ≡ p.to_discard
unfolding set_port_if_unset
set_port_if_unset-marks port p = elim (Option-cases (gp_port p.saddr)) [
  | inl no_port ↦ rw (no_port, set_port_if_unset) refl
  | inr (old, has_port) ↦ elim (Bool-cases (old == 0)) [
    | inl unset ↦ rw (has_port, unset, set_port_if_unset) refl
    | inr known ↦ rw (has_port, known, set_port_if_unset) refl
  ]
]

store-marks :
    (heap : Heap) (i : Ptr) (v : RemotePeer)
    → v.to_discard ≡ (heap i).to_discard
    → (p : Ptr) → (store heap i v p).to_discard ≡ (heap p).to_discard
store-marks heap i v same p = elim (Bool-cases (p == i)) [
  | inl here ↦ let eq : i ≡ p = ground arith in rw here (same ∙ ap (λ q. (heap q).to_discard) eq)
  | inr away ↦ rw away refl
]

module _ (resolve : List ℕ → Option SockAddr) (use_count : Ptr → ℕ) where
  forget_peer-Pending :
      (i : Ptr) (later : List Ptr) (s : Router)
      → Pending (i ∷ later) s
      → Pending later (forget_peer resolve use_count i s)
  unfolding forget_peer
  forget_peer-Pending i later s pending p h = elim (Bool-cases (p == i)) [
    | inl same ↦
        let eq : i ≡ p = ground arith in
        inr (
          subst (λ q. RoutesAvoid q (del_from_all i s.routes)) eq
            (del_from_all-RoutesAvoid i s.routes))
    | inr other ↦ elim (pending p (ground arith)) [
      | inl waits ↦ inl (ground arith)
      | inr avoids ↦ inr (RoutesAvoid-del_from_all p i s.routes avoids)
    ]
  ]

  discard-marks :
      (i op : Ptr) (heap : Heap) (p : Ptr)
      → (discard resolve use_count (duplicate resolve use_count heap i op) heap p).to_discard ≡ true
      → ((heap p).to_discard ≡ true) ⊎ (any_of (λ x. x == p) (i ∷ op ∷ []) ≡ true)
  discard-marks i op heap p h = ground arith

  pub mark_duplicates-marks :
      (i : Ptr) (later : List Ptr) (heap : Heap) (p : Ptr)
      → (mark_duplicates resolve use_count i later heap p).to_discard ≡ true
      → ((heap p).to_discard ≡ true) ⊎ (any_of (λ x. x == p) (i ∷ later) ≡ true)
  unfolding mark_duplicates
  mark_duplicates-marks i [] heap p h = inl h
  mark_duplicates-marks i (op ∷ later) heap p h =
      ground (arith, mark_duplicates-marks i later _ p h, discard-marks i op heap p)

  mark_duplicates-Pending :
      (i : Ptr) (later : List Ptr) (s : Router)
      → Pending (i ∷ later) s
      → Pending (i ∷ later) (record s { heap = mark_duplicates resolve use_count i later s.heap })
  mark_duplicates-Pending i later s pending p h = elim (mark_duplicates-marks i later s.heap p h) [
    | inl before ↦ pending p before
    | inr now ↦ inl now
  ]

  pub update_server_addr-marks :
      (i : Ptr) (s : Router)
      → let t = (update_server_addr resolve use_count i s).0 in
        ((p : Ptr) → (t.heap p).to_discard ≡ (s.heap p).to_discard) × (t.routes ≡ s.routes)
  unfolding update_server_addr
  update_server_addr-marks i s = elim (Bool-cases ((s.heap i).cent == 0)) [
    | inl unnamed ↦ rw (unnamed, update_server_addr) (λ p. refl, refl)
    | inr named ↦
        elim (Option-cases (resolve (cfgent_name s.conf_remotes dash hashes (s.heap i)))) [
          | inl unknown ↦ rw (named, unknown, update_server_addr) (λ p. refl, refl)
          | inr (remote, found) ↦
              let moved = record (s.heap i) { seen = s.last_time; saddr = remote } in
              rw (named, found, update_server_addr)
                (
                  store-marks s.heap i (set_port_if_unset s.data_port moved)
                      (set_port_if_unset-marks s.data_port moved),
                  refl,
                )
        ]
  ]

  Pending-same :
      (later : List Ptr) (s t : Router)
      → ((p : Ptr) → (t.heap p).to_discard ≡ (s.heap p).to_discard) × (t.routes ≡ s.routes)
      → Pending later s
      → Pending later t
  Pending-same later s t (marks, routes) pending p h = elim (pending p (sym (marks p) ∙ h)) [
    | inl waits ↦ inl waits
    | inr avoids ↦ inr (subst (RoutesAvoid p) (sym routes) avoids)
  ]

  -- What becomes of a peer that stays for now.
  kept_peer : Ptr → List Ptr → Router → Router
  kept_peer i later s1 =
      let s2 = record s1 { heap = mark_duplicates resolve use_count i later s1.heap } in
      if (s2.heap i).to_discard then forget_peer resolve use_count i s2 else s2

  kept_peer-Pending :
      (i : Ptr) (later : List Ptr) (s : Router)
      → Pending (i ∷ later) s
      → Pending later (kept_peer i later s)
  unfolding kept_peer
  kept_peer-Pending i later s pending =
      let s2 = record s { heap = mark_duplicates resolve use_count i later s.heap } in
      let pending2 = mark_duplicates-Pending i later s pending in
      elim (Bool-cases (s2.heap i).to_discard) [
        | inl marked ↦ rw marked (forget_peer-Pending i later s2 pending2)
        | inr stays ↦ rw stays (λ p h. elim (pending2 p h) [
          | inl waits ↦ elim (Bool-cases (i == p)) [
            | inl same ↦
                let eq : p ≡ i = ground arith in
                let marked = subst (λ q. (s2.heap q).to_discard ≡ true) eq h in
                ground (arith, marked, stays)
            | inr other ↦ inl (ground arith)
          ]
          | inr avoids ↦ inr avoids
        ])
      ]

  check_peer-Pending :
      (i : Ptr) (later : List Ptr) (s : Router)
      → Pending (i ∷ later) s
      → Pending later (check_peer resolve use_count i later s)
  unfolding check_peer kept_peer
  check_peer-Pending i later s pending =
      elim (Bool-cases (ltb s.last_time ((s.heap i).seen + s.remote_timeout))) [
        | inl fresh ↦ rw (fresh, check_peer) (kept_peer-Pending i later s pending)
        | inr silent ↦
            let round = update_server_addr resolve use_count i s in
            let pending1 =
              Pending-same (i ∷ later) s round.0 (update_server_addr-marks i s) pending in
            elim (Bool-cases round.1) [
              | inl updated ↦
                  rw (silent, updated, check_peer) (kept_peer-Pending i later round.0 pending1)
              | inr lost ↦
                  rw (silent, lost, check_peer) (forget_peer-Pending i later round.0 pending1)
            ]
      ]

  pub check_peers-Pending :
      (peers : List Ptr) (found : List Bool) (s : Router)
      → Pending peers s
      → IsClean (check_peers resolve use_count peers found s).0
  unfolding check_peers
  check_peers-Pending [] found s pending =
      λ p h. elim (pending p h) [ inl none_left ↦ ground arith | inr avoids ↦ avoids ]
  check_peers-Pending (i ∷ later) found s pending =
      check_peers-Pending later _ (check_peer resolve use_count i later s)
        (check_peer-Pending i later s pending)
