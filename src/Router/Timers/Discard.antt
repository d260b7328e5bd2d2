-- ===== src/Router/Timers/Discard.antt =====
-- The cleanup takes the peers that it discards out of all routes.
use zprd.Prelude.{
  ℕ, suc, ◌≡◌, ◌≢◌, inl, inr, refl, subst, ◌∙◌, arith, List, [], ◌∷◌, All, All-append, Bool, true,
  false, Option, ◌||◌, Option-cases, Bool-cases, if◌then◌else◌,
}
use zprd.Iafa.{InnerAddr}
use zprd.Oafa.{SockAddr}
use zprd.Peer.{Ptr, new_config_peer}
use zprd.Routes.{RouteVia, empty, cleanup, is_outdated}
use zprd.Routes.Cleanup.{All-sort}
use zprd.Routes.Owned.{All-remove_if}
use zprd.Router.{Router, RouteMap, make_peer, send_zprn_msg, send_zprn_probe_req}
use zprd.Router.Timers.{
  check_peers, clean_route, clean_routes, connect2server, reconnect, cleanup_round, discard_peers,
}
use zprd.Router.Timers.Forget.{
  RoutesAvoid, IsClean, IsGone, check_peers-Pending, set_port_if_unset-marks,
}

RoutesAvoid-if :
    (p : Ptr) (b : Bool) (m n : RouteMap)
    → RoutesAvoid p m
    → RoutesAvoid p n
    → RoutesAvoid p (if b then m else n)
RoutesAvoid-if p true m n h k = h
RoutesAvoid-if p false m n h k = k

unfresh-All :
    (p : Ptr) (b : Bool) (r : RouteVia)
    → All (λ v. v.addr ≢ p) r.routers
    → All (λ v. v.addr ≢ p) (if b then record r { fresh_add = false } else r).routers
unfresh-All p true r h = h
unfresh-All p false r h = h

module _ (resolve : List ℕ → Option SockAddr) (use_count : Ptr → ℕ) where
  clean_route-RoutesAvoid :
      (p : Ptr) (done : RouteMap) (a : InnerAddr) (r : RouteVia) (todo : RouteMap) (s : Router)
      → RoutesAvoid p done
      → All (λ v. v.addr ≢ p) r.routers
      → RoutesAvoid p (clean_route resolve use_count done a r todo s).1
  unfolding clean_route cleanup
  clean_route-RoutesAvoid p done a r todo s h k =
      let ise = (cleanup s.last_time s.remote_timeout s.heap r).0 in
      let avoids =
        All-sort (λ v. v.addr ≢ p) _
          (All-remove_if (λ v. v.addr ≢ p) (is_outdated s.last_time s.remote_timeout s.heap)
            r.routers k) in
      RoutesAvoid-if p (empty ise) done _ h
        (All-append _ done _ h (unfresh-All p (empty ise || ise.fresh_add) ise avoids, tt))

  clean_route-heap :
      (done : RouteMap) (a : InnerAddr) (r : RouteVia) (todo : RouteMap) (s : Router)
      → (clean_route resolve use_count done a r todo s).0.heap ≡ s.heap
  unfolding clean_route send_zprn_msg send_zprn_probe_req
  clean_route-heap done a r todo s = ground arith

  clean_routes-RoutesAvoid :
      (p : Ptr) (done todo : RouteMap) (s : Router)
      → RoutesAvoid p done
      → RoutesAvoid p todo
      → RoutesAvoid p (clean_routes resolve use_count done todo s).routes
  unfolding clean_routes
  clean_routes-RoutesAvoid p done [] s h k = h
  clean_routes-RoutesAvoid p done ((a, r) ∷ todo) s h k =
      let round = clean_route resolve use_count done a r todo s in
      clean_routes-RoutesAvoid p round.1 todo round.0
        (clean_route-RoutesAvoid p done a r todo s h k.0) k.1

  pub clean_routes-heap :
      (done todo : RouteMap) (s : Router)
      → (clean_routes resolve use_count done todo s).heap ≡ s.heap
  unfolding clean_routes
  clean_routes-heap done [] s = refl
  clean_routes-heap done ((a, r) ∷ todo) s =
      let round = clean_route resolve use_count done a r todo s in
      clean_routes-heap round.1 todo round.0 ∙ clean_route-heap done a r todo s

  pub clean_routes-IsClean :
      (s : Router) → IsClean s → IsClean (clean_routes resolve use_count [] s.routes s)
  clean_routes-IsClean s clean p h =
      clean_routes-RoutesAvoid p [] s.routes s tt
        (clean p (subst (λ heap. (heap p).to_discard ≡ true) (clean_routes-heap [] s.routes s) h))

  connect2server-IsClean :
      (name : List ℕ) (i : ℕ) (s : Router)
      → IsClean s
      → IsClean (connect2server resolve use_count name i s)
  unfolding connect2server make_peer
  connect2server-IsClean name i s clean = elim (Option-cases (resolve name)) [
    | inl unknown ↦ rw (unknown, connect2server) clean
    | inr (remote, found) ↦
        let unmarked = set_port_if_unset-marks s.data_port (new_config_peer s.last_time remote i) in
        rw (found, connect2server) (λ p h. clean p (ground (arith, unmarked, h)))
  ]

  reconnect-IsClean :
      (names : List (List ℕ)) (i : ℕ) (found : List Bool) (s : Router)
      → IsClean s
      → IsClean (reconnect resolve use_count names i found s)
  unfolding reconnect
  reconnect-IsClean names i [] s clean = clean
  reconnect-IsClean [] i (fri ∷ found) s clean = clean
  reconnect-IsClean (name ∷ names) i (true ∷ found) s clean =
      reconnect-IsClean names (suc i) found s clean
  reconnect-IsClean (name ∷ names) i (false ∷ found) s clean =
      reconnect-IsClean names (suc i) found (connect2server resolve use_count name i s)
        (connect2server-IsClean name i s clean)

  cleanup_round-IsClean :
      (found : List Bool) (s : Router)
      → IsClean s
      → IsClean (cleanup_round resolve use_count found s).0
  unfolding cleanup_round discard_peers
  cleanup_round-IsClean found s clean =
      let (s1, found1) = check_peers resolve use_count s.remotes found s in
      let clean1 =
        check_peers-Pending resolve use_count s.remotes found s (λ p h. inr (clean p h)) in
      let s2 = clean_routes resolve use_count [] s1.routes s1 in
      let clean2 = clean_routes-IsClean s1 clean1 in
      let s3 = discard_peers s2 in reconnect-IsClean s3.conf_remotes 0 found1 s3 clean2

  IsClean-of_gone : (s : Router) → ((p : Ptr) → IsGone s p) → IsClean s
  IsClean-of_gone s gone p h = elim (gone p) [
    | inl unmarked ↦ ground (arith, unmarked, h)
    | inr avoids ↦ avoids
  ]

  -- If no route goes by a peer that is marked as discarded when the cleanup starts, then none does
  -- when it ends, whichever peers it has marked: those that timed out and those that are
  -- duplicates of another.
  pub cleanup_round-IsGone :
      (found : List Bool) (s : Router)
      → ((p : Ptr) → IsGone s p)
      → (p : Ptr) → IsGone (cleanup_round resolve use_count found s).0 p
  cleanup_round-IsGone found s gone p =
      let after = (cleanup_round resolve use_count found s).0 in
      elim (Bool-cases (after.heap p).to_discard) [
        | inl marked ↦ inr (cleanup_round-IsClean found s (IsClean-of_gone s gone) p marked)
        | inr unmarked ↦ inl unmarked
      ]
