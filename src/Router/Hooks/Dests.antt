-- ===== src/Router/Hooks/Dests.antt =====
-- The calls of run_route_hooks for routes, in the cleanup of main in src/main.cxx.
use zprd.Prelude.{
  ℕ, ◌≡◌, inl, inr, refl, sym, ◌∙◌, arith, List, [], ◌∷◌, ◌++◌, Bool, true, false, Option, map,
  all_of, remove_if, is_empty, if◌then◌else◌, ◌||◌, Bool-cases, All, All-append,
}
use mathlib.Core.List.{append_assoc, append-nil, map-append}
use zprd.Iafa.{InnerAddr}
use zprd.Oafa.{SockAddr}
use zprd.Peer.{Ptr, Heap}
use zprd.Routes.{RouteVia, ViaRouter, empty, cleanup, sort, insert_sorted, is_outdated}
use zprd.Router.{Router, RouteMap, HookCall, dest_hook, send_zprn_msg, send_zprn_probe_req}
use zprd.Router.Timers.{clean_route, clean_routes}

-- All routers of the route are outdated.
abbrev pub is_lost : ℕ → ℕ → Heap → RouteVia → Bool
is_lost last_time remote_timeout heap r =
    all_of (is_outdated last_time remote_timeout heap) r.routers

-- The hooks for a route: it is lost, or it is new.
abbrev pub route_hooks : ℕ → ℕ → Heap → InnerAddr → RouteVia → List HookCall
route_hooks last_time remote_timeout heap a r =
    if is_lost last_time remote_timeout heap r
    then dest_hook true a ∷ []
    else (if r.fresh_add then dest_hook false a ∷ [] else [])

abbrev pub all_route_hooks : ℕ → ℕ → Heap → RouteMap → List HookCall
all_route_hooks last_time remote_timeout heap [] = []
all_route_hooks last_time remote_timeout heap ((a, r) ∷ m) =
    route_hooks last_time remote_timeout heap a r ++ all_route_hooks last_time remote_timeout heap m

-- The destinations of the routes that are not lost.
abbrev pub kept_keys : ℕ → ℕ → Heap → RouteMap → List InnerAddr
kept_keys last_time remote_timeout heap [] = []
kept_keys last_time remote_timeout heap ((a, r) ∷ m) =
    let rest = kept_keys last_time remote_timeout heap m in
    if is_lost last_time remote_timeout heap r then rest else a ∷ rest

is_empty-insert_sorted :
    (x : ViaRouter) (ys : List ViaRouter) → is_empty (insert_sorted x ys) ≡ false
unfolding insert_sorted
is_empty-insert_sorted x [] = refl
is_empty-insert_sorted x (y ∷ ys) = ground arith

is_empty-sort : (xs : List ViaRouter) → is_empty (sort xs) ≡ is_empty xs
unfolding sort
is_empty-sort [] = refl
is_empty-sort (x ∷ xs) = is_empty-insert_sorted x (sort xs)

is_empty-remove_if {ℓ} :
    {A : Type ℓ} (p : A → Bool) (xs : List A) → is_empty (remove_if p xs) ≡ all_of p xs
is_empty-remove_if p [] = refl
is_empty-remove_if p (x ∷ xs) = ground (arith, is_empty-remove_if p xs)

pub empty-cleanup :
    (last_time remote_timeout : ℕ) (heap : Heap) (r : RouteVia)
    → empty (cleanup last_time remote_timeout heap r).0 ≡ is_lost last_time remote_timeout heap r
unfolding cleanup
empty-cleanup last_time remote_timeout heap r =
    is_empty-sort _ ∙ is_empty-remove_if (is_outdated last_time remote_timeout heap) r.routers

fresh_add-cleanup :
    (last_time remote_timeout : ℕ) (heap : Heap) (r : RouteVia)
    → (cleanup last_time remote_timeout heap r).0.fresh_add ≡ r.fresh_add
unfolding cleanup
fresh_add-cleanup last_time remote_timeout heap r = refl

cleared_flag :
    (b : Bool) (r : RouteVia)
    → (if b || r.fresh_add then record r { fresh_add = false } else r).fresh_add ≡ false
cleared_flag b r = ground arith

-- What a round of the loop over the routes has to do with one of them.
module _ (resolve : List ℕ → Option SockAddr) (use_count : Ptr → ℕ) where
  -- The heap, the clock and the configuration are the same.
  abbrev Setting : Router → Router → Type 0
  Setting s t =
      (t.heap ≡ s.heap) × (t.last_time ≡ s.last_time) × (t.remote_timeout ≡ s.remote_timeout)

  clean_route-Setting :
      (done : RouteMap) (a : InnerAddr) (r : RouteVia) (todo : RouteMap) (s : Router)
      → Setting s (clean_route resolve use_count done a r todo s).0
  unfolding clean_route send_zprn_msg send_zprn_probe_req
  clean_route-Setting done a r todo s = ground arith

  pub clean_route-hooks :
      (done : RouteMap) (a : InnerAddr) (r : RouteVia) (todo : RouteMap) (s : Router)
      → (clean_route resolve use_count done a r todo s).0.hooks_run
        ≡ s.hooks_run ++ route_hooks s.last_time s.remote_timeout s.heap a r
  unfolding clean_route send_zprn_msg send_zprn_probe_req
  clean_route-hooks done a r todo s =
      ground
        (arith, append-nil s.hooks_run, empty-cleanup s.last_time s.remote_timeout s.heap r, flag)
    where
      flag : (cleanup s.last_time s.remote_timeout s.heap r).0.fresh_add ≡ r.fresh_add
      flag = fresh_add-cleanup s.last_time s.remote_timeout s.heap r

  -- The entries that stay, with their flags cleared.
  clean_route-entry :
      (done : RouteMap) (a : InnerAddr) (r : RouteVia) (todo : RouteMap) (s : Router)
      → All (λ e. e.1.fresh_add ≡ false) done
      → (map (λ e. e.0) (clean_route resolve use_count done a r todo s).1
          ≡ map (λ e. e.0) done
            ++ (if is_lost s.last_time s.remote_timeout s.heap r then [] else a ∷ []))
        × All (λ e. e.1.fresh_add ≡ false) (clean_route resolve use_count done a r todo s).1
  unfolding clean_route
  clean_route-entry done a r todo s fresh =
      elim (Bool-cases (is_lost s.last_time s.remote_timeout s.heap r)) [
        | inl lost ↦
            let gone = empty-cleanup s.last_time s.remote_timeout s.heap r ∙ lost in
            (
              ground (arith, gone, lost, append-nil (map (λ e. e.0) done)),
              ground (arith, gone, fresh),
            )
        | inr stays ↦
            let ise = (cleanup s.last_time s.remote_timeout s.heap r).0 in
            let kept = empty-cleanup s.last_time s.remote_timeout s.heap r ∙ stays in
            let entry : InnerAddr × RouteVia =
              (a, if empty ise || ise.fresh_add then record ise { fresh_add = false } else ise) in
            let keys = map-append (λ e. e.0) done (entry ∷ []) in
            let cleared =
              All-append (λ e. e.1.fresh_add ≡ false) done (entry ∷ []) fresh
                (cleared_flag (empty ise) ise, tt) in
            (ground (arith, kept, stays, keys), ground (arith, kept, cleared))
      ]

  clean_routes_from :
      (done todo : RouteMap) (s : Router)
      → All (λ e. e.1.fresh_add ≡ false) done
      → let t = clean_routes resolve use_count done todo s in
        (t.hooks_run ≡ s.hooks_run ++ all_route_hooks s.last_time s.remote_timeout s.heap todo)
        × (map (λ e. e.0) t.routes
            ≡ map (λ e. e.0) done ++ kept_keys s.last_time s.remote_timeout s.heap todo)
        × All (λ e. e.1.fresh_add ≡ false) t.routes
  unfolding clean_routes
  clean_routes_from done [] s fresh =
      (sym (append-nil s.hooks_run), sym (append-nil (map (λ e. e.0) done)), fresh)
  clean_routes_from done ((a, r) ∷ todo) s fresh =
      let round = clean_route resolve use_count done a r todo s in
      let (heap, time, timeout) = clean_route-Setting done a r todo s in
      let here = route_hooks s.last_time s.remote_timeout s.heap a r in
      let entry = clean_route-entry done a r todo s fresh in
      let (hooks, keys, cleared) = clean_routes_from round.1 todo round.0 entry.1 in
      (
        ground (
          arith,
          hooks,
          clean_route-hooks done a r todo s,
          heap,
          time,
          timeout,
          append_assoc s.hooks_run here (all_route_hooks s.last_time s.remote_timeout s.heap todo),
        ),
        ground (
          arith,
          keys,
          entry.0,
          heap,
          time,
          timeout,
          append_assoc (map (λ e. e.0) done)
              (if is_lost s.last_time s.remote_timeout s.heap r then [] else a ∷ [])
              (kept_keys s.last_time s.remote_timeout s.heap todo),
        ),
        cleared,
      )

  -- The loop of the cleanup over the routes runs the hooks in the order of the map: "del" for a
  -- route whose routers are all outdated, or that has none, and "add" for any other that is marked
  -- as new. The destinations that stay in the map, in order, are those without a "del", and none of
  -- them is marked as new, so that the next cleanup runs no "add" for it unless it is marked again.
  pub clean_routes-hooks :
      (m : RouteMap) (s : Router)
      → let t = clean_routes resolve use_count [] m s in
        (t.hooks_run ≡ s.hooks_run ++ all_route_hooks s.last_time s.remote_timeout s.heap m)
        × (map (λ e. e.0) t.routes ≡ kept_keys s.last_time s.remote_timeout s.heap m)
        × All (λ e. e.1.fresh_add ≡ false) t.routes
  clean_routes-hooks m s = clean_routes_from [] m s tt
