-- ===== src/Routes/Owned.antt =====
-- Where the routers of a destination come from: every operation of routes.cxx keeps a predicate of
-- the peers that it is given.
use zprd.Prelude.{
  ltb, ◌-◌, ◌&&◌, ◌||◌, ℕ, zero, suc, inl, inr, List, [], ◌∷◌, Bool, true, false, take, drop,
  remove_if, All, All-append, Bool-cases, Option-cases, if◌then◌else◌, ◌==◌,
}
use zprd.Peer.{Ptr, Heap}
use zprd.Routes.{
  ViaRouter, RouteVia, modify_at, find_router, add_router, update_router, update_hopcnt, del_router,
  del_primary_router, cleanup, is_outdated, rotate_near, near_rcnt, swap_near_routers,
}
use zprd.Routes.Cleanup.{All-sort}

pub All-take {ℓ κ} :
    {A : Type ℓ} (P : A → Type κ) (n : ℕ) (xs : List A) → All P xs → All P (take n xs)
All-take P zero xs h = tt
All-take P (suc n) [] h = tt
All-take P (suc n) (x ∷ xs) h = (h.0, All-take P n xs h.1)

pub All-drop {ℓ κ} :
    {A : Type ℓ} (P : A → Type κ) (n : ℕ) (xs : List A) → All P xs → All P (drop n xs)
All-drop P zero xs h = h
All-drop P (suc n) [] h = tt
All-drop P (suc n) (x ∷ xs) h = All-drop P n xs h.1

pub All-remove_if {ℓ κ} :
    {A : Type ℓ} (P : A → Type κ) (test : A → Bool) (xs : List A)
    → All P xs
    → All P (remove_if test xs)
All-remove_if P test [] h = tt
All-remove_if P test (x ∷ xs) h = elim (Bool-cases (test x)) [
  | inl gone ↦ rw (gone, remove_if) (All-remove_if P test xs h.1)
  | inr kept ↦ rw (kept, remove_if) (h.0, All-remove_if P test xs h.1)
]

-- The predicate holds of every router, by its peer and its hop count.
abbrev pub Owned : (Ptr → ℕ → Type 0) → RouteVia → Type 0
Owned Q r = All (λ v. Q v.addr v.hops) r.routers

module _ (Q : Ptr → ℕ → Type 0) where
  pub Owned-if : (b : Bool) (r q : RouteVia) → Owned Q r → Owned Q q → Owned Q (if b then r else q)
  Owned-if true r q h k = h
  Owned-if false r q h k = k

  modify_at-Owned :
      (n : ℕ) (f : ViaRouter → ViaRouter) (rs : List ViaRouter)
      → ((v : ViaRouter) → Q v.addr v.hops → Q (f v).addr (f v).hops)
      → All (λ v. Q v.addr v.hops) rs
      → All (λ v. Q v.addr v.hops) (modify_at n f rs)
  unfolding modify_at
  modify_at-Owned n f [] keep h = tt
  modify_at-Owned zero f (r ∷ rs) keep h = (keep r h.0, h.1)
  modify_at-Owned (suc n) f (r ∷ rs) keep h = (h.0, modify_at-Owned n f rs keep h.1)

  update_hopcnt-Owned : (a : Ptr) (o h : ℕ) → Q a o → Q a h → Q a (update_hopcnt o h)
  unfolding update_hopcnt
  update_hopcnt-Owned a o h old new =
      elim (Bool-cases (ltb o h && (h - o == 0xbe || h - o == 0xbf))) [
        | inl far ↦ rw far old
        | inr near ↦ rw near new
      ]

  pub add_router-Owned :
      (now : ℕ) (heap : Heap) (p : Ptr) (hops : ℕ) (r : RouteVia)
      → Q p hops
      → ((a : Ptr) (o : ℕ) → Q a o → Q a hops)
      → Owned Q r
      → Owned Q (add_router now heap p hops r).0
  unfolding add_router
  add_router-Owned now heap p hops r q steady h =
      elim (Option-cases (find_router heap p r.routers)) [
        | inl missing ↦ rw (missing, add_router) (q, h)
        | inr (n, found) ↦
            rw (found, add_router)
              (modify_at-Owned n _ r.routers
                (λ v k. update_hopcnt-Owned v.addr v.hops hops k (steady v.addr v.hops k)) h)
      ]

  pub update_router-Owned :
      (now : ℕ) (heap : Heap) (p : Ptr) (hops latency : ℕ) (r : RouteVia)
      → ((a : Ptr) (o : ℕ) → Q a o → Q a hops)
      → Owned Q r
      → Owned Q (update_router now heap p hops latency r)
  unfolding update_router
  update_router-Owned now heap p hops latency r steady h =
      elim (Option-cases (find_router heap p r.routers)) [
        | inl missing ↦ rw (missing, update_router) h
        | inr (n, found) ↦
            rw (found, update_router)
              (modify_at-Owned n _ r.routers
                (λ v k. update_hopcnt-Owned v.addr v.hops hops k (steady v.addr v.hops k)) h)
      ]

  pub del_router-Owned : (p : Ptr) (r : RouteVia) → Owned Q r → Owned Q (del_router p r).0
  unfolding del_router
  del_router-Owned p r h = All-remove_if (λ v. Q v.addr v.hops) (λ a. p == a.addr) r.routers h

  pub del_primary_router-Owned : (r : RouteVia) → Owned Q r → Owned Q (del_primary_router r)
  unfolding del_primary_router
  del_primary_router-Owned r h = All-drop (λ v. Q v.addr v.hops) 1 r.routers h

  pub cleanup-Owned :
      (now timeout : ℕ) (heap : Heap) (r : RouteVia)
      → Owned Q r
      → Owned Q (cleanup now timeout heap r).0
  unfolding cleanup
  cleanup-Owned now timeout heap r h =
      All-sort (λ v. Q v.addr v.hops) _
        (All-remove_if (λ v. Q v.addr v.hops) (is_outdated now timeout heap) r.routers h)

  rotate_near-Owned :
      (max_near_rtt : ℕ) (rs : List ViaRouter)
      → All (λ v. Q v.addr v.hops) rs
      → All (λ v. Q v.addr v.hops) (rotate_near max_near_rtt rs)
  unfolding rotate_near
  rotate_near-Owned max_near_rtt [] h = tt
  rotate_near-Owned max_near_rtt (primary ∷ rs) h =
      let n = near_rcnt max_near_rtt primary rs in
      elim (Bool-cases (n == 0)) [
        | inl alone ↦ rw (alone, rotate_near) h
        | inr near ↦
            rw (near, rotate_near)
              (All-append (λ v. Q v.addr v.hops) (take n rs) (primary ∷ drop n rs)
                (All-take (λ v. Q v.addr v.hops) n rs h.1)
                (h.0, All-drop (λ v. Q v.addr v.hops) n rs h.1))
      ]

  pub swap_near_routers-Owned :
      (rand max_near_rtt : ℕ) (r : RouteVia)
      → Owned Q r
      → Owned Q (swap_near_routers rand max_near_rtt r)
  unfolding swap_near_routers
  swap_near_routers-Owned rand max_near_rtt r h =
      Owned-if _ r _ h (rotate_near-Owned max_near_rtt r.routers h)
