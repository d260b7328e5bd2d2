-- ===== src/Router/Timers.antt =====
-- The periodic part of the event loop of main in src/main.cxx, and the messages at its start and
-- end. `resolve` is resolve_hostname with the preferred family, `use_count` the reference counts
-- of the shared pointers.
pub mod Found
pub mod Forget
pub mod Discard
use zprd.Prelude.{
  ℕ, zero, suc, ◌+◌, ◌-◌, ◌*◌, ◌/◌, List, [], ◌∷◌, ◌++◌, Bool, true, false, not, ◌&&◌, ◌||◌, Option,
  none, some, remove_if, is_empty, leb, ltb, ◌==◌, set, if◌then◌else◌,
}
use zprd.Iafa.{InnerAddr, XnerAddr, no_addr}
use zprd.Oafa.{SockAddr}
use zprd.Peer.{
  Ptr, null, Heap, RemotePeer, store, peer_eq, set_port_if_unset, new_config_peer, cfgent_name,
}
use zprd.Remotes.{sort_peers}
use zprd.Routes.{RouteVia, empty, cleanup, get_router, front_hops, front_seen}
use zprd.Router.{
  Router, RouteMap, HookCall, dest_hook, peer_hook, run_hook, make_peer, send_zprn_msg,
  send_zprn_probe_req, learn_route,
}
use zprd.Router.Notify.{del_from_all}
use zprd.Zprn.{ZprnV2, zprn_routemod, zprn_connmgmt}

-- The text of cfgent_name for a peer that is not configured, and for an entry out of range.
abbrev pub dash : List ℕ
dash = b'-' ∷ []

abbrev pub hashes : List ℕ
hashes = b'#' ∷ b'#' ∷ b'#' ∷ b'#' ∷ []

-- The hooks for the peers that leave the vector.
unfoldable pub discard_hooks : Heap → List Ptr → List HookCall
discard_hooks heap [] = []
discard_hooks heap (peer ∷ peers) =
    let rest = discard_hooks heap peers in
    if (heap peer).to_discard then peer_hook true (heap peer).saddr ∷ rest else rest

-- map_remove_if over the peers.
unfoldable pub discard_peers : Router → Router
discard_peers s = record s {
  remotes = remove_if (λ i. (s.heap i).to_discard) s.remotes;
  hooks_run = s.hooks_run ++ discard_hooks s.heap s.remotes;
}

module _ (resolve : List ℕ → Option SockAddr) (use_count : Ptr → ℕ) where
  unfoldable pub connect2server : List ℕ → ℕ → Router → Router
  connect2server r cent s = elim (resolve r) [
    | none ↦ s
    | some remote ↦
        let p = set_port_if_unset s.data_port (new_config_peer s.last_time remote cent) in
        let (s1, ptr) = make_peer p s in
        run_hook (peer_hook false p.saddr) (record s1 { remotes = s1.remotes ++ (ptr ∷ []) })
  ]

  -- update_server_addr, with its result.
  unfoldable pub update_server_addr : Ptr → Router → Router × Bool
  update_server_addr i s =
      let pdat = s.heap i in
      if pdat.cent == 0
      then (s, false)
      else elim (resolve (cfgent_name s.conf_remotes dash hashes pdat)) [
        | none ↦ (s, false)
        | some remote ↦ (
          record s {
            heap = store s.heap i (
                set_port_if_unset s.data_port (record pdat { seen = s.last_time; saddr = remote }));
          },
          true,
        )
      ]

  abbrev pub discard : Ptr → Heap → Heap
  discard i heap = store heap i (record (heap i) { to_discard = true })

  -- Which one of two peers at the same address goes.
  abbrev pub duplicate : Heap → Ptr → Ptr → Ptr
  duplicate heap i op =
      if (((heap i).cent == 0) && not ((heap op).cent == 0)) || ltb (use_count i) (use_count op)
      then i
      else op

  -- The loop over the peers behind `it`.
  unfoldable pub mark_duplicates : Ptr → List Ptr → Heap → Heap
  mark_duplicates i [] heap = heap
  mark_duplicates i (op ∷ later) heap = mark_duplicates i later (
      if (heap op).to_discard || not (peer_eq (heap i) (heap op))
      then heap
      else discard (duplicate heap i op) heap)

  -- The peer leaves all routes and is marked.
  unfoldable pub forget_peer : Ptr → Router → Router
  forget_peer i s = record s { routes = del_from_all i s.routes; heap = discard i s.heap }

  -- One round of the first loop: a peer that was heard of, or whose address could be looked up
  -- again, stays unless it is a duplicate; any other goes.
  unfoldable pub check_peer : Ptr → List Ptr → Router → Router
  check_peer i later s =
      let fresh = ltb s.last_time ((s.heap i).seen + s.remote_timeout) in
      let (s1, updated) = if fresh then (s, true) else update_server_addr i s in
      if updated
      then (let s2 = record s1 { heap = mark_duplicates i later s1.heap } in
          if (s2.heap i).to_discard then forget_peer i s2 else s2)
      else forget_peer i s1

  -- The first loop with `found_remotes`.
  unfoldable pub check_peers : List Ptr → List Bool → Router → Router × List Bool
  check_peers [] found s = (s, found)
  check_peers (i ∷ later) found s =
      let cent = (s.heap i).cent in
      check_peers later (if cent == 0 then found else set found (cent - 1) true)
        (check_peer i later s)

  -- One route: cleaned, and announced if it is new or gone, or probed if its primary router was
  -- not heard of for a while. The map has the entries before it as they are now.
  unfoldable pub clean_route :
      RouteMap → InnerAddr → RouteVia → RouteMap → Router → Router × RouteMap
  clean_route done a r todo s =
      let ise = (cleanup s.last_time s.remote_timeout s.heap r).0 in
      let iee = empty ise in
      let kept = if iee || ise.fresh_add then record ise { fresh_add = false } else ise in
      let s1 = record s { routes = done ++ ((a, kept) ∷ todo) } in
      let announce : ZprnV2 = record {
        cmd = zprn_routemod;
        prio = if iee then 0xff else front_hops ise;
        route = a;
      } in
      let s2 =
        if iee || ise.fresh_add
        then run_hook (dest_hook iee a)
            (send_zprn_msg announce (if iee then null else get_router ise) s1)
        else (if ltb (front_seen ise + s.remote_timeout) s.last_time
            then send_zprn_probe_req a s1
            else s1) in
      (s2, if iee then done else done ++ ((a, kept) ∷ []))

  -- map_remove_if over the routes.
  unfoldable pub clean_routes : RouteMap → RouteMap → Router → Router
  clean_routes done [] s = record s { routes = done }
  clean_routes done ((a, r) ∷ todo) s =
      let (s1, done1) = clean_route done a r todo s in clean_routes done1 todo s1

  -- Configured peers that were not found are connected to again.
  unfoldable pub reconnect : List (List ℕ) → ℕ → List Bool → Router → Router
  reconnect names i [] s = s
  reconnect [] i (fri ∷ found) s = s
  reconnect (name ∷ names) i (fri ∷ found) s =
      reconnect names (suc i) found (if fri then s else connect2server name i s)

  -- The whole cleanup; `found_remotes` is declared outside of the event loop.
  unfoldable pub cleanup_round : List Bool → Router → Router × List Bool
  cleanup_round found s =
      let (s1, found1) = check_peers s.remotes found s in
      let s2 = clean_routes [] s1.routes s1 in
      let s3 = discard_peers s2 in
      let s4 = reconnect s3.conf_remotes 0 found1 s3 in
      (record s4 { remotes = sort_peers s4.heap s4.remotes }, found1)

  -- The loop of init_all over the configured remotes.
  unfoldable pub connect_all : List (List ℕ) → ℕ → Router → Router
  connect_all [] i s = s
  connect_all (r ∷ rs) i s = connect_all rs (suc i) (connect2server r i s)

-- The tests behind epoll_wait: the clock moved, and a quarter of the timeout is over. The loop
-- runs the cleanup only then.
unfoldable pub cleanup_due : ℕ → ℕ → ℕ → ℕ → Bool
cleanup_due pastt last_time pastt_clu remote_timeout =
    not (pastt == last_time) && ltb (pastt_clu + remote_timeout / 4) last_time

-- send_zprn_connmgmt_msg
unfoldable pub send_connmgmt_msg : ℕ → Router → Router
send_connmgmt_msg prio s =
    let route : InnerAddr = elim s.locals [ [] ↦ no_addr | i ∷ _ ↦ i.inner ] in
    send_zprn_msg (record { cmd = zprn_connmgmt; prio = prio; route = route }) null s

-- The routes to ourselves that main makes before the event loop.
unfoldable pub add_local_routes : Ptr → List XnerAddr → Router → Router
add_local_routes local_router [] s = s
add_local_routes local_router (i ∷ locals) s =
    add_local_routes local_router locals (learn_route i.inner local_router 0 s)
