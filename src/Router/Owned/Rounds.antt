-- ===== src/Router/Owned/Rounds.antt =====
-- The peers that the route table refers to, from one round of the cleanup to the next.
use zprd.Prelude.{
  ℕ, suc, ◌≡◌, ◌≢◌, inl, inr, refl, ap, sym, ◌∙◌, arith, List, [], ◌∷◌, All, Bool, true, false,
  Option, Bool-cases, Option-cases, remove_if,
}
use zprd.Oafa.{SockAddr}
use zprd.Peer.{Ptr, Heap, set_port_if_unset, new_config_peer}
use zprd.Remotes.{sort_peers}
use zprd.Remotes.Members.{is_member, is_member-append, is_member-sort_peers, is_member-remove_if}
use zprd.Routes.{ViaRouter}
use zprd.Router.{Router, RouteMap, make_peer}
use zprd.Router.Owned.{AllOwned}
use zprd.Router.Owned.Cleanup.{check_peers-Checked, clean_routes-AllOwned, check_peers-OwnsRoutes}
use zprd.Router.Owned.Rooted.{Rooted, FromSource, AllOwned-map}
use zprd.Router.Timers.{
  check_peers, clean_routes, connect2server, reconnect, discard_peers, cleanup_round,
}
use zprd.Router.Timers.Discard.{clean_routes-heap, clean_routes-IsClean}
use zprd.Router.Timers.Forget.{RoutesAvoid, IsClean, check_peers-Pending, set_port_if_unset-marks}
use zprd.Router.Timers.Found.{clean_routes-SamePeers}

-- Routers that are all sources and all not marked.
module _ (P Q : Ptr → ℕ → Type 0) (heap : Heap)
    (keep : (a : Ptr) (h : ℕ) → P a h → (heap a).to_discard ≡ false → Q a h) where
  keep_routers :
      (rs : List ViaRouter)
      → ((a : Ptr) → (heap a).to_discard ≡ true → All (λ v. v.addr ≢ a) rs)
      → All (λ v. P v.addr v.hops) rs
      → All (λ v. Q v.addr v.hops) rs
  keep_routers [] avoid h = tt
  keep_routers (v ∷ rs) avoid h = (
    elim (Bool-cases (heap v.addr).to_discard) [
      | inl marked ↦ absurd ((avoid v.addr marked).0 refl)
      | inr stays ↦ keep v.addr v.hops h.0 stays
    ],
    keep_routers rs (λ a marked. (avoid a marked).1) h.1,
  )

  keep_routes :
      (m : RouteMap)
      → ((a : Ptr) → (heap a).to_discard ≡ true → RoutesAvoid a m)
      → AllOwned P m
      → AllOwned Q m
  keep_routes [] avoid h = tt
  keep_routes ((a, r) ∷ m) avoid h = (
    keep_routers r.routers (λ b marked. (avoid b marked).0) h.0,
    keep_routes m (λ b marked. (avoid b marked).1) h.1,
  )

Rooted-IsClean : (p : Ptr) (s : Router) → Rooted p s → IsClean s
Rooted-IsClean p s k b marked =
    AllOwned-map (FromSource p s.remotes) (λ a h. a ≢ b) s.routes
      (λ a h from same. elim from [
        | inl here ↦
            let at = ap (λ x. (s.heap x).to_discard) (sym here ∙ same) in
            ground (arith, at, marked, k.local_unmarked)
        | inr there ↦
            let at = ap (λ x. (s.heap x).to_discard) same in
            ground (arith, at, marked, k.unmarked a there)
      ])
      k.routes_owned.owned

module _ (resolve : List ℕ → Option SockAddr) (use_count : Ptr → ℕ) (p : Ptr) where
  -- The part of the cleanup before new connections are made.
  swept : List Bool → Router → Router
  swept found s =
      let (s1, found1) = check_peers resolve use_count s.remotes found s in
      discard_peers (clean_routes resolve use_count [] s1.routes s1)

  swept-Rooted : (found : List Bool) (s : Router) → Rooted p s → Rooted p (swept found s)
  unfolding swept discard_peers
  swept-Rooted found s k =
      let s1 = (check_peers resolve use_count s.remotes found s).0 in
      let ((remotes1, count1), marks) = check_peers-Checked resolve use_count s.remotes found s in
      let clean1 =
        check_peers-Pending resolve use_count s.remotes found s
          (λ a h. inr (Rooted-IsClean p s k a h)) in
      let s2 = clean_routes resolve use_count [] s1.routes s1 in
      let clean2 = clean_routes-IsClean resolve use_count s1 clean1 in
      let heap2 = clean_routes-heap resolve use_count [] s1.routes s1 in
      let (remotes2, count2) = clean_routes-SamePeers resolve use_count [] s1.routes s1 in
      let same : s2.remotes ≡ s.remotes = remotes2 ∙ remotes1 in
      let Q = FromSource p s.remotes in
      let owned1 = check_peers-OwnsRoutes resolve use_count Q s.remotes found s k.routes_owned in
      let owned2 = clean_routes-AllOwned resolve use_count Q [] s1.routes s1 tt owned1.owned in
      let test : Ptr → Bool = λ i. (s2.heap i).to_discard in
      let left = λ (a : Ptr). is_member-remove_if a test s2.remotes in
      let member : (a : Ptr)
          → is_member a (remove_if test s2.remotes) ≡ true
          → is_member a s.remotes ≡ true =
        λ a h. ground (arith, left a, h, ap (is_member a) same) in
      record {
        routes_owned = record {
          owned =
              keep_routes Q (FromSource p (remove_if test s2.remotes)) s2.heap
                (λ a h from stays. elim from [
                  | inl here ↦ inl here
                  | inr there ↦ inr (ground (arith, left a, stays, there, ap (is_member a) same))
                ])
                s2.routes clean2 owned2;
        };
        unmarked = λ a h. ground (arith, left a, h);
        old = λ a h. omega (arith, k.old a (member a h), count1, count2);
        local_unmarked = elim (Bool-cases (test p)) [
          | inl marked ↦ elim (marks p (ap (λ heap. (heap p).to_discard) (sym heap2) ∙ marked)) [
            | inl before ↦ ground (arith, before, k.local_unmarked)
            | inr there ↦ ground (arith, there, k.local_apart)
          ]
          | inr stays ↦ stays
        ];
        local_apart = elim (Bool-cases (is_member p (remove_if test s2.remotes))) [
          | inl there ↦ ground (arith, member p there, k.local_apart)
          | inr away ↦ away
        ];
        local_old = omega (arith, k.local_old, count1, count2);
      }

  pub connect2server-Rooted :
      (name : List ℕ) (i : ℕ) (s : Router)
      → Rooted p s
      → Rooted p (connect2server resolve use_count name i s)
  unfolding connect2server make_peer
  connect2server-Rooted name i s k = elim (Option-cases (resolve name)) [
    | inl unknown ↦ rw (unknown, connect2server) k
    | inr (remote, found) ↦
        let v = set_port_if_unset s.data_port (new_config_peer s.last_time remote i) in
        let fresh = set_port_if_unset-marks s.data_port (new_config_peer s.last_time remote i) in
        let more = λ (a : Ptr). is_member-append a s.remotes (s.next_ptr ∷ []) in
        rw (found, connect2server)
          (record {
            routes_owned = record {
              owned =
                  AllOwned-map (FromSource p s.remotes) _ s.routes
                    (λ a h from. elim from [
                      | inl here ↦ inl here
                      | inr there ↦ inr (ground (arith, more a, there))
                    ])
                    k.routes_owned.owned;
            };
            unmarked = λ a h. elim (Bool-cases (is_member a s.remotes)) [
              | inl was ↦ ground (arith, was, k.unmarked a was, k.old a was)
              | inr new ↦ ground (arith, more a, new, h, fresh)
            ];
            old = λ a h. elim (Bool-cases (is_member a s.remotes)) [
              | inl was ↦ omega (arith, k.old a was)
              | inr new ↦ ground (arith, more a, new, h)
            ];
            local_unmarked = ground (arith, k.local_unmarked, k.local_old);
            local_apart = ground (arith, more p, k.local_apart, k.local_old);
            local_old = omega (arith, k.local_old);
          })
  ]

  reconnect-Rooted :
      (names : List (List ℕ)) (i : ℕ) (found : List Bool) (s : Router)
      → Rooted p s
      → Rooted p (reconnect resolve use_count names i found s)
  unfolding reconnect
  reconnect-Rooted names i [] s k = k
  reconnect-Rooted [] i (fri ∷ found) s k = k
  reconnect-Rooted (name ∷ names) i (true ∷ found) s k = reconnect-Rooted names (suc i) found s k
  reconnect-Rooted (name ∷ names) i (false ∷ found) s k =
      reconnect-Rooted names (suc i) found (connect2server resolve use_count name i s)
        (connect2server-Rooted name i s k)

  sorted-Rooted :
      (s : Router) → Rooted p s → Rooted p (record s { remotes = sort_peers s.heap s.remotes })
  sorted-Rooted s k =
      let same = λ (a : Ptr). is_member-sort_peers s.heap a s.remotes in
      record {
        routes_owned = record {
          owned =
              AllOwned-map (FromSource p s.remotes) _ s.routes
                (λ a h from. elim from [ inl here ↦ inl here | inr there ↦ inr (same a ∙ there) ])
                k.routes_owned.owned;
        };
        unmarked = λ a h. k.unmarked a (sym (same a) ∙ h);
        old = λ a h. k.old a (sym (same a) ∙ h);
        local_unmarked = k.local_unmarked;
        local_apart = same p ∙ k.local_apart;
        local_old = k.local_old;
      }

  pub cleanup_round-Rooted :
      (found : List Bool) (s : Router)
      → Rooted p s
      → Rooted p (cleanup_round resolve use_count found s).0
  unfolding cleanup_round swept
  cleanup_round-Rooted found s k =
      let (s1, found1) = check_peers resolve use_count s.remotes found s in
      let s3 = swept found s in
      sorted-Rooted (reconnect resolve use_count s3.conf_remotes 0 found1 s3)
        (reconnect-Rooted s3.conf_remotes 0 found1 s3 (swept-Rooted found s k))
