-- ===== src/Routes/Find.antt =====
-- find_router, add_router, update_router and del_router.
use zprd.Prelude.{
  ℕ, ◌<◌, ◌≡◌, ◌≢◌, ◌⊎◌, inl, inr, refl, ap, arith, List, [], ◌∷◌, ◌++◌, All, true, false, ◌||◌,
  ◌==◌, none, some, length, Bool-cases, any_of, remove_if, length-remove_if, remove_if_drop,
  remove_if_keep,
}
use zprd.Peer.{Ptr, Heap}
use zprd.Routes.{
  ViaRouter, RouteVia, new_router, is_router, find_router, modify_at, update_hopcnt, add_router,
  update_router, del_router, empty,
}

-- No router of the list is the one that is looked for.
abbrev pub NoneIs : Heap → Ptr → List ViaRouter → Type 0
NoneIs heap router = All (λ i. is_router heap router i ≡ false)

-- find_router returns end() if nothing matches, and otherwise the first router that does.
find_router-Finds :
    (heap : Heap) (router : Ptr) (rs : List ViaRouter)
    → (NoneIs heap router rs × (find_router heap router rs ≡ none))
      ⊎ ((before : List ViaRouter) × (v : ViaRouter) × (after : List ViaRouter) × (rs
            ≡ before ++ (v ∷ after))
          × NoneIs heap router before
          × (is_router heap router v ≡ true)
          × (find_router heap router rs ≡ some (length before)))
unfolding find_router
find_router-Finds heap router [] = inl (tt, refl)
find_router-Finds heap router (i ∷ rs) = elim (Bool-cases (is_router heap router i)) [
  | inl hit ↦ inr ([], i, rs, refl, tt, hit, ground (arith, hit))
  | inr miss ↦ elim (find_router-Finds heap router rs) [
    | inl (no_match, e) ↦ inl ((miss, no_match), ground (arith, miss, e))
    | inr (before, v, after, split, clear, hit, e) ↦
        inr (i ∷ before, v, after, ap (◌∷◌ i) split, (miss, clear), hit, ground (arith, miss, e))
  ]
]

modify_at-middle :
    (f : ViaRouter → ViaRouter) (before : List ViaRouter) (v : ViaRouter) (after : List ViaRouter)
    → modify_at (length before) f (before ++ (v ∷ after)) ≡ before ++ (f v ∷ after)
unfolding modify_at
modify_at-middle f [] v after = refl
modify_at-middle f (x ∷ before) v after = ap (◌∷◌ x) (modify_at-middle f before v after)

-- The same list but for one router, the first that find_router accepts.
abbrev pub Touched : Heap → Ptr → (ViaRouter → ViaRouter) → List ViaRouter → List ViaRouter → Type 0
Touched heap router f rs rs' =
    (before : List ViaRouter) × (v : ViaRouter) × (after : List ViaRouter) × (rs
      ≡ before ++ (v ∷ after))
    × NoneIs heap router before
    × (is_router heap router v ≡ true)
    × (rs' ≡ before ++ (f v ∷ after))

abbrev pub refreshed : ℕ → ℕ → ViaRouter → ViaRouter
refreshed last_time hops v = record v { seen = last_time; hops = update_hopcnt v.hops hops }

abbrev pub measured : ℕ → ℕ → ℕ → ViaRouter → ViaRouter
measured last_time hops latency v = record v {
  seen = last_time;
  latency = latency;
  hops = update_hopcnt v.hops hops;
}

pub add_router_lem :
    (last_time : ℕ) (heap : Heap) (router : Ptr) (hops : ℕ) (r : RouteVia)
    → let res = add_router last_time heap router hops r in
      ((NoneIs heap router r.routers
          × (res.1 ≡ true)
          × (res.0.routers ≡ new_router last_time router hops ∷ r.routers))
        ⊎ ((res.1 ≡ false)
            × Touched heap router (refreshed last_time hops) r.routers res.0.routers))
      × (res.0.fresh_add ≡ (empty r || r.fresh_add))
unfolding add_router
add_router_lem last_time heap router hops r = elim (find_router-Finds heap router r.routers) [
  | inl (clear, e) ↦ (inl (clear, ground (arith, e), ground (arith, e)), ground (arith, e))
  | inr (before, v, after, split, clear, hit, e) ↦ (
    inr (
      ground (arith, e),
      (
        before,
        v,
        after,
        split,
        clear,
        hit,
        ground (arith, e, split, modify_at-middle (refreshed last_time hops) before v after),
      ),
    ),
    ground (arith, e),
  )
]

-- update_router refreshes and measures the first router that matches, and does nothing if there
-- is none.
pub update_router_lem :
    (last_time : ℕ) (heap : Heap) (router : Ptr) (hops latency : ℕ) (r : RouteVia)
    → let res = update_router last_time heap router hops latency r in
      (NoneIs heap router r.routers × (res ≡ r))
      ⊎ (Touched heap router (measured last_time hops latency) r.routers res.routers
          × (res.fresh_add ≡ r.fresh_add))
unfolding update_router
update_router_lem last_time heap router hops latency r =
    elim (find_router-Finds heap router r.routers) [
      | inl (clear, e) ↦ inl (clear, ground (arith, e))
      | inr (before, v, after, split, clear, hit, e) ↦ inr (
        (
          before,
          v,
          after,
          split,
          clear,
          hit,
          ground
              (arith, e, split, modify_at-middle (measured last_time hops latency) before v after),
        ),
        ground (arith, e),
      )
    ]

remove_if-clear :
    (router : Ptr) (rs : List ViaRouter)
    → All (λ v. v.addr ≢ router) (remove_if (λ a. router == a.addr) rs)
remove_if-clear router [] = tt
remove_if-clear router (v ∷ rs) = elim (Bool-cases (router == v.addr)) [
  | inl same ↦ rw (remove_if_drop (λ a. router == a.addr) v rs same) (remove_if-clear router rs)
  | inr other ↦
      rw (remove_if_keep (λ a. router == a.addr) v rs other)
        (ground arith, remove_if-clear router rs)
]

any_of-false :
    (router : Ptr) (rs : List ViaRouter)
    → any_of (λ a. router == a.addr) rs ≡ false
    → remove_if (λ a. router == a.addr) rs ≡ rs
any_of-false router [] h = refl
any_of-false router (v ∷ rs) h = ground (arith, any_of-false router rs)

remove_if-shorter :
    (router : Ptr) (rs : List ViaRouter)
    → any_of (λ a. router == a.addr) rs ≡ true
    → length (remove_if (λ a. router == a.addr) rs) < length rs
remove_if-shorter router [] h = cc
remove_if-shorter router (v ∷ rs) h =
    ground (arith, remove_if-shorter router rs, length-remove_if (λ a. router == a.addr) rs)

-- After del_router no router of the destination is this pointer. It returns true exactly if it
-- removed one, and what returns false left the list as it was.
pub del_router_lem :
    (router : Ptr) (r : RouteVia)
    → let res = del_router router r in
      All (λ v. v.addr ≢ router) res.0.routers
      × (((res.1 ≡ true) × (length res.0.routers < length r.routers))
          ⊎ ((res.1 ≡ false) × (res.0 ≡ r)))
unfolding del_router
del_router_lem router r = (
  remove_if-clear router r.routers,
  elim (Bool-cases (any_of (λ a. router == a.addr) r.routers)) [
    | inl some_gone ↦ inl (some_gone, remove_if-shorter router r.routers some_gone)
    | inr none_gone ↦ inr (none_gone, ground (arith, any_of-false router r.routers none_gone))
  ],
)
