-- ===== src/Router/Hooks/Cleanup.antt =====
-- The peers and the calls of run_route_hooks for them, over a round of the cleanup.
use zprd.Prelude.{
  ℕ, suc, ◌+◌, ◌≡◌, inl, inr, refl, ap, ◌∙◌, arith, List, [], ◌∷◌, ◌++◌, Bool, true, false, Option,
  length, length-append, remove_if, Option-cases,
}
use zprd.Iafa.{InnerAddr}
use zprd.Oafa.{SockAddr}
use zprd.Peer.{Ptr, Heap, cfgent_name, set_port_if_unset, new_config_peer}
use zprd.Routes.{RouteVia}
use zprd.Router.{Router, RouteMap, peer_hook, run_hook, make_peer}
use zprd.Router.Hooks.{IsBalanced, IsBalanced-same, IsBalanced-more, peers_added, peers_deleted}
use zprd.Router.Timers.{
  check_peer, check_peers, forget_peer, update_server_addr, clean_route, clean_routes,
  connect2server, reconnect, discard_hooks, discard_peers, cleanup_round, dash, hashes,
}
use zprd.Router.Hooks.Dests.{route_hooks, clean_route-hooks}
use zprd.Router.Timers.Found.{length-sort_peers, clean_route-SamePeers}

length-discard_hooks :
    (heap : Heap) (peers : List Ptr)
    → length (remove_if (λ i. (heap i).to_discard) peers) + peers_deleted (discard_hooks heap peers)
      ≡ length peers + peers_added (discard_hooks heap peers)
unfolding discard_hooks
length-discard_hooks heap [] = refl
length-discard_hooks heap (i ∷ peers) = ground (arith, length-discard_hooks heap peers)

discard_peers-IsBalanced : (s : Router) → IsBalanced s → IsBalanced (discard_peers s)
unfolding discard_peers
discard_peers-IsBalanced s =
    IsBalanced-more s (discard_peers s) (discard_hooks s.heap s.remotes) refl
      (length-discard_hooks s.heap s.remotes)

-- The hooks for a route tell nothing of peers.
no_peer_hooks :
    (now timeout : ℕ) (heap : Heap) (a : InnerAddr) (r : RouteVia)
    → (peers_added (route_hooks now timeout heap a r) ≡ 0)
      × (peers_deleted (route_hooks now timeout heap a r) ≡ 0)
no_peer_hooks now timeout heap a r = ground arith

module _ (resolve : List ℕ → Option SockAddr) (use_count : Ptr → ℕ) where
  -- The vector and the hooks of the first loop are the same.
  abbrev Quiet : Router → Router → Type 0
  Quiet s t = (t.remotes ≡ s.remotes) × (t.hooks_run ≡ s.hooks_run)

  update_server_addr-Quiet :
      (i : Ptr) (s : Router) → Quiet s (update_server_addr resolve use_count i s).0
  unfolding update_server_addr
  update_server_addr-Quiet i s =
      elim (Option-cases (resolve (cfgent_name s.conf_remotes dash hashes (s.heap i)))) [
        | inl failed ↦ ground (arith, failed)
        | inr (remote, found) ↦ ground (arith, found)
      ]

  check_peer-Quiet :
      (i : Ptr) (later : List Ptr) (s : Router) → Quiet s (check_peer resolve use_count i later s)
  unfolding check_peer forget_peer
  check_peer-Quiet i later s = ground (arith, update_server_addr-Quiet i s)

  check_peers-Quiet :
      (peers : List Ptr) (found : List Bool) (s : Router)
      → Quiet s (check_peers resolve use_count peers found s).0
  unfolding check_peers
  check_peers-Quiet [] found s = (refl, refl)
  check_peers-Quiet (i ∷ later) found s =
      let next = check_peer resolve use_count i later s in
      let (remotes, hooks) = check_peer-Quiet i later s in
      let (remotes2, hooks2) = check_peers-Quiet later _ next in
      (remotes2 ∙ remotes, hooks2 ∙ hooks)

  clean_route-IsBalanced :
      (done : RouteMap) (a : InnerAddr) (r : RouteVia) (todo : RouteMap) (s : Router)
      → IsBalanced s
      → IsBalanced (clean_route resolve use_count done a r todo s).0
  clean_route-IsBalanced done a r todo s =
      let silent = no_peer_hooks s.last_time s.remote_timeout s.heap a r in
      let (same, _) = clean_route-SamePeers resolve use_count done a r todo s in
      IsBalanced-more s (clean_route resolve use_count done a r todo s).0
        (route_hooks s.last_time s.remote_timeout s.heap a r)
        (clean_route-hooks resolve use_count done a r todo s)
        (omega (arith, silent, ap length same))

  clean_routes-IsBalanced :
      (done todo : RouteMap) (s : Router)
      → IsBalanced s
      → IsBalanced (clean_routes resolve use_count done todo s)
  unfolding clean_routes
  clean_routes-IsBalanced done [] s b = b
  clean_routes-IsBalanced done ((a, r) ∷ todo) s b =
      let round = clean_route resolve use_count done a r todo s in
      clean_routes-IsBalanced round.1 todo round.0 (clean_route-IsBalanced done a r todo s b)

  pub connect2server-IsBalanced :
      (name : List ℕ) (i : ℕ) (s : Router)
      → IsBalanced s
      → IsBalanced (connect2server resolve use_count name i s)
  unfolding connect2server make_peer
  connect2server-IsBalanced name i s b = elim (Option-cases (resolve name)) [
    | inl unknown ↦ rw (unknown, connect2server) b
    | inr (remote, found) ↦
        let p = set_port_if_unset s.data_port (new_config_peer s.last_time remote i) in
        let made = (make_peer p s).0 in
        let hook = peer_hook false p.saddr in
        let s1 = record made { remotes = made.remotes ++ (s.next_ptr ∷ []) } in
        rw (found, connect2server)
          (IsBalanced-more s (run_hook hook s1) (hook ∷ []) refl
            (omega (arith, length-append s.remotes (s.next_ptr ∷ []))) b)
  ]

  reconnect-IsBalanced :
      (names : List (List ℕ)) (i : ℕ) (found : List Bool) (s : Router)
      → IsBalanced s
      → IsBalanced (reconnect resolve use_count names i found s)
  unfolding reconnect
  reconnect-IsBalanced names i [] s b = b
  reconnect-IsBalanced [] i (fri ∷ found) s b = b
  reconnect-IsBalanced (name ∷ names) i (true ∷ found) s b =
      reconnect-IsBalanced names (suc i) found s b
  reconnect-IsBalanced (name ∷ names) i (false ∷ found) s b =
      reconnect-IsBalanced names (suc i) found (connect2server resolve use_count name i s)
        (connect2server-IsBalanced name i s b)

  pub cleanup_round-IsBalanced :
      (found : List Bool) (s : Router)
      → IsBalanced s
      → IsBalanced (cleanup_round resolve use_count found s).0
  unfolding cleanup_round
  cleanup_round-IsBalanced found s b =
      let (s1, found1) = check_peers resolve use_count s.remotes found s in
      let quiet = check_peers-Quiet s.remotes found s in
      let b1 = IsBalanced-same s s1 (ap length quiet.0) quiet.1 b in
      let s2 = clean_routes resolve use_count [] s1.routes s1 in
      let b3 = discard_peers-IsBalanced s2 (clean_routes-IsBalanced [] s1.routes s1 b1) in
      let s3 = discard_peers s2 in
      let s4 = reconnect resolve use_count s3.conf_remotes 0 found1 s3 in
      IsBalanced-same s4 (cleanup_round resolve use_count found s).0
        (length-sort_peers s4.heap s4.remotes) refl
        (reconnect-IsBalanced s3.conf_remotes 0 found1 s3 b3)
