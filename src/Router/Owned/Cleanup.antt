-- ===== src/Router/Owned/Cleanup.antt =====
-- The peers that the route table refers to, over a round of the cleanup.
use zprd.Prelude.{
  ℕ, ◌≡◌, inl, inr, ◌⊎◌, refl, sym, ◌∙◌, arith, List, [], ◌∷◌, All-append, Bool, true, false,
  Option, ◌||◌, Bool-cases, if◌then◌else◌, ltb, ◌+◌,
}
use zprd.Iafa.{InnerAddr}
use zprd.Oafa.{SockAddr}
use zprd.Peer.{Ptr}
use zprd.Remotes.Members.{is_member}
use zprd.Routes.{RouteVia, empty, cleanup}
use zprd.Routes.Owned.{Owned, Owned-if, cleanup-Owned}
use zprd.Router.{Router, RouteMap}
use zprd.Router.Owned.{AllOwned, OwnsRoutes, OwnsRoutes-if, OwnsRoutes-same}
use zprd.Router.Owned.Notify.{del_from_all-AllOwned}
use zprd.Router.Timers.{
  check_peer, check_peers, forget_peer, update_server_addr, mark_duplicates, clean_route,
  clean_routes,
}
use zprd.Router.Timers.Forget.{update_server_addr-marks, mark_duplicates-marks}
use zprd.Router.Timers.Found.{check_peer-SamePeers, SamePeers}

module _ (resolve : List ℕ → Option SockAddr) (use_count : Ptr → ℕ) where
  -- The peers that are marked are those that were, and some of the list.
  abbrev pub MarksOnly : List Ptr → Router → Router → Type 0
  MarksOnly peers s t =
      (a : Ptr)
      → (t.heap a).to_discard ≡ true
      → ((s.heap a).to_discard ≡ true) ⊎ (is_member a peers ≡ true)

  forget_peer-MarksOnly :
      (i : Ptr) (later : List Ptr) (s : Router)
      → MarksOnly (i ∷ later) s (forget_peer resolve use_count i s)
  unfolding forget_peer
  forget_peer-MarksOnly i later s a h = ground arith

  kept_peer-MarksOnly :
      (i : Ptr) (later : List Ptr) (s : Router)
      → let s2 = record s { heap = mark_duplicates resolve use_count i later s.heap } in
        MarksOnly
          (i ∷ later)
          s
          (if (s2.heap i).to_discard then forget_peer resolve use_count i s2 else s2)
  kept_peer-MarksOnly i later s a h =
      let s2 = record s { heap = mark_duplicates resolve use_count i later s.heap } in
      elim (Bool-cases (s2.heap i).to_discard) [
        | inl marked ↦ elim (forget_peer-MarksOnly i later s2 a (ground (arith, marked, h))) [
          | inl before ↦ mark_duplicates-marks resolve use_count i later s.heap a before
          | inr there ↦ inr there
        ]
        | inr stays ↦
            mark_duplicates-marks resolve use_count i later s.heap a (ground (arith, stays, h))
      ]

  check_peer-MarksOnly :
      (i : Ptr) (later : List Ptr) (s : Router)
      → MarksOnly (i ∷ later) s (check_peer resolve use_count i later s)
  unfolding check_peer
  check_peer-MarksOnly i later s a h =
      let round = update_server_addr resolve use_count i s in
      let same = (update_server_addr-marks resolve use_count i s).0 a in
      elim (Bool-cases (ltb s.last_time ((s.heap i).seen + s.remote_timeout))) [
        | inl fresh ↦ kept_peer-MarksOnly i later s a (rw (fresh, check_peer) at h)
        | inr silent ↦ elim (Bool-cases round.1) [
          | inl updated ↦
              back same
                (kept_peer-MarksOnly i later round.0 a (rw (silent, updated, check_peer) at h))
          | inr lost ↦
              back same
                (forget_peer-MarksOnly i later round.0 a (rw (silent, lost, check_peer) at h))
        ]
      ]
    where
      back : {u v : Bool} {R : Type 0} → u ≡ v → (u ≡ true) ⊎ R → (v ≡ true) ⊎ R
      back same (inl before) = inl (sym same ∙ before)
      back same (inr there) = inr there

  module _ (Q : Ptr → ℕ → Type 0) where
    forget_peer-OwnsRoutes :
        (i : Ptr) (s : Router) → OwnsRoutes Q s → OwnsRoutes Q (forget_peer resolve use_count i s)
    unfolding forget_peer
    forget_peer-OwnsRoutes i s h = record { owned = del_from_all-AllOwned Q i s.routes h.owned }

    kept_peer-OwnsRoutes :
        (i : Ptr) (later : List Ptr) (s : Router)
        → OwnsRoutes Q s
        → let s2 = record s { heap = mark_duplicates resolve use_count i later s.heap } in
          OwnsRoutes Q (if (s2.heap i).to_discard then forget_peer resolve use_count i s2 else s2)
    kept_peer-OwnsRoutes i later s h =
        let s2 = record s { heap = mark_duplicates resolve use_count i later s.heap } in
        let h2 : OwnsRoutes Q s2 = record { owned = h.owned } in
        OwnsRoutes-if Q (s2.heap i).to_discard _ s2 (forget_peer-OwnsRoutes i s2 h2) h2

    check_peer-OwnsRoutes :
        (i : Ptr) (later : List Ptr) (s : Router)
        → OwnsRoutes Q s
        → OwnsRoutes Q (check_peer resolve use_count i later s)
    unfolding check_peer
    check_peer-OwnsRoutes i later s h =
        let round = update_server_addr resolve use_count i s in
        let h1 : OwnsRoutes Q round.0 =
          OwnsRoutes-same Q s round.0 (update_server_addr-marks resolve use_count i s).1 h in
        elim (Bool-cases (ltb s.last_time ((s.heap i).seen + s.remote_timeout))) [
          | inl fresh ↦ rw (fresh, check_peer) (kept_peer-OwnsRoutes i later s h)
          | inr silent ↦ elim (Bool-cases round.1) [
            | inl updated ↦
                rw (silent, updated, check_peer) (kept_peer-OwnsRoutes i later round.0 h1)
            | inr lost ↦ rw (silent, lost, check_peer) (forget_peer-OwnsRoutes i round.0 h1)
          ]
        ]

    pub check_peers-OwnsRoutes :
        (peers : List Ptr) (found : List Bool) (s : Router)
        → OwnsRoutes Q s
        → OwnsRoutes Q (check_peers resolve use_count peers found s).0
    unfolding check_peers
    check_peers-OwnsRoutes [] found s h = h
    check_peers-OwnsRoutes (i ∷ later) found s h =
        check_peers-OwnsRoutes later _ (check_peer resolve use_count i later s)
          (check_peer-OwnsRoutes i later s h)

    clean_route-AllOwned :
        (done : RouteMap) (a : InnerAddr) (r : RouteVia) (todo : RouteMap) (s : Router)
        → AllOwned Q done
        → Owned Q r
        → AllOwned Q (clean_route resolve use_count done a r todo s).1
    unfolding clean_route
    clean_route-AllOwned done a r todo s h k =
        let ise = (cleanup s.last_time s.remote_timeout s.heap r).0 in
        let kept = cleanup-Owned Q s.last_time s.remote_timeout s.heap r k in
        AllOwned-if (empty ise) done _ h (
          All-append _ done _ h (
            Owned-if Q (empty ise || ise.fresh_add) (record ise { fresh_add = false }) ise kept
                kept,
            tt,
          ))
      where
        AllOwned-if :
            (b : Bool) (m n : RouteMap)
            → AllOwned Q m
            → AllOwned Q n
            → AllOwned Q (if b then m else n)
        AllOwned-if true m n x y = x
        AllOwned-if false m n x y = y

    pub clean_routes-AllOwned :
        (done todo : RouteMap) (s : Router)
        → AllOwned Q done
        → AllOwned Q todo
        → AllOwned Q (clean_routes resolve use_count done todo s).routes
    unfolding clean_routes
    clean_routes-AllOwned done [] s h k = h
    clean_routes-AllOwned done ((a, r) ∷ todo) s h k =
        let round = clean_route resolve use_count done a r todo s in
        clean_routes-AllOwned round.1 todo round.0 (clean_route-AllOwned done a r todo s h k.0) k.1

  pub check_peers-Checked :
      (peers : List Ptr) (found : List Bool) (s : Router)
      → let t = (check_peers resolve use_count peers found s).0 in
        SamePeers s t × MarksOnly peers s t
  unfolding check_peers
  check_peers-Checked [] found s = ((refl, refl), λ a h. inl h)
  check_peers-Checked (i ∷ later) found s =
      let next = check_peer resolve use_count i later s in
      let (remotes, count) = check_peer-SamePeers resolve use_count i later s in
      let ((remotes2, count2), marks) = check_peers-Checked later _ next in
      (
        (remotes2 ∙ remotes, count2 ∙ count),
        λ a h. elim (marks a h) [
          | inl before ↦ check_peer-MarksOnly i later s a before
          | inr there ↦ inr (ground (arith, there))
        ],
      )
