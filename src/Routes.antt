-- ===== src/Routes.antt =====
-- src/routes.hpp and routes.cxx: the routers of one destination. Times are seconds, latencies
-- nanoseconds (see PingCache). `rand()` is an argument.
pub mod Find
pub mod Cleanup
pub mod Swap
pub mod Owned
use zprd.Prelude.{
  ℕ, zero, suc, ◌+◌, ◌-◌, ◌*◌, ◌%◌, List, [], ◌∷◌, ◌++◌, Bool, true, false, not, ◌&&◌, ◌||◌, Option,
  none, some, take, drop, remove_if, any_of, is_empty, ltb, leb, ◌==◌, if◌then◌else◌,
}
use zprd.Peer.{Ptr, null, Heap, peer_eq, is_local}

-- via_router_t
pub record ViaRouter : Type 0 where
  pub addr : Ptr
  pub seen : ℕ
  pub latency : ℕ
  pub hops : ℕ

abbrev pub new_router : ℕ → Ptr → ℕ → ViaRouter
new_router last_time addr hops = record { addr = addr; seen = last_time; latency = 0; hops = hops }

-- route_via_t
pub record RouteVia : Type 0 where
  pub routers : List ViaRouter
  pub fresh_add : Bool

abbrev pub no_routers : RouteVia
no_routers = record { routers = []; fresh_add = false }

abbrev pub empty : RouteVia → Bool
empty r = is_empty r.routers

-- front() of an empty list is not defined; the callers test empty() first.
abbrev pub get_router : RouteVia → Ptr
get_router r = elim r.routers [ [] ↦ null | f ∷ _ ↦ f.addr ]

abbrev pub front_hops : RouteVia → ℕ
front_hops r = elim r.routers [ [] ↦ 0 | f ∷ _ ↦ f.hops ]

abbrev pub front_seen : RouteVia → ℕ
front_seen r = elim r.routers [ [] ↦ 0 | f ∷ _ ↦ f.seen ]

-- The predicate of find_router: the same pointer, or the same address.
abbrev pub is_router : Heap → Ptr → ViaRouter → Bool
is_router heap router i = i.addr == router || peer_eq (heap i.addr) (heap router)

-- find_router; an iterator is its distance from begin(), `none` is end().
unfoldable pub find_router : Heap → Ptr → List ViaRouter → Option ℕ
find_router heap router [] = none
find_router heap router (i ∷ rs) = elim (is_router heap router i) [
  | true ↦ some 0
  | false ↦ elim (find_router heap router rs) [ none ↦ none | some n ↦ some (suc n) ]
]

-- A write through an iterator.
unfoldable pub modify_at : ℕ → (ViaRouter → ViaRouter) → List ViaRouter → List ViaRouter
modify_at n f [] = []
modify_at zero f (r ∷ rs) = f r ∷ rs
modify_at (suc n) f (r ∷ rs) = r ∷ modify_at n f rs

unfoldable pub update_hopcnt : ℕ → ℕ → ℕ
update_hopcnt oldhops newhops =
    if ltb oldhops newhops && (newhops - oldhops == 0xbe || newhops - oldhops == 0xbf)
    then oldhops
    else newhops

unfoldable pub add_router : ℕ → Heap → Ptr → ℕ → RouteVia → RouteVia × Bool
add_router last_time heap router hops r =
    let fresh = if empty r then true else r.fresh_add in
    elim (find_router heap router r.routers) [
      | none ↦ (
        record { routers = new_router last_time router hops ∷ r.routers; fresh_add = fresh },
        true,
      )
      | some it ↦ (
        record {
          routers =
              modify_at it (λ v. record v { seen = last_time; hops = update_hopcnt v.hops hops })
                r.routers;
          fresh_add = fresh;
        },
        false,
      )
    ]

unfoldable pub update_router : ℕ → Heap → Ptr → ℕ → ℕ → RouteVia → RouteVia
update_router last_time heap router hops latency r = elim (find_router heap router r.routers) [
  | none ↦ r
  | some it ↦ record r {
    routers =
        modify_at it
          (λ v. record v { seen = last_time; latency = latency; hops = update_hopcnt v.hops hops })
          r.routers;
  }
]

-- del_router compares pointers only.
unfoldable pub del_router : Ptr → RouteVia → RouteVia × Bool
del_router router r = (
  record r { routers = remove_if (λ a. router == a.addr) r.routers },
  any_of (λ a. router == a.addr) r.routers,
)

unfoldable pub del_primary_router : RouteVia → RouteVia
del_primary_router r = record r { routers = drop 1 r.routers }

-- The comparison of the sort: low hops, low latency, recently seen.
unfoldable pub router_less : ViaRouter → ViaRouter → Bool
router_less a b =
    ltb a.hops b.hops
    || (a.hops == b.hops
        && (ltb a.latency b.latency || (a.latency == b.latency && ltb b.seen a.seen)))

-- forward_list::sort, which is stable.
unfoldable pub insert_sorted : ViaRouter → List ViaRouter → List ViaRouter
insert_sorted x [] = x ∷ []
insert_sorted x (y ∷ ys) = elim (router_less y x) [
  | true ↦ y ∷ insert_sorted x ys
  | false ↦ x ∷ y ∷ ys
]

unfoldable pub sort : List ViaRouter → List ViaRouter
sort [] = []
sort (x ∷ xs) = insert_sorted x (sort xs)

-- What cleanup removes: `last_time - 2 * remote_timeout` is not below `seen`, and not local.
abbrev pub is_outdated : ℕ → ℕ → Heap → ViaRouter → Bool
is_outdated last_time remote_timeout heap a =
    not (ltb last_time (a.seen + 2 * remote_timeout) || is_local (heap a.addr))

-- The pointers that `f` is called with, in order.
unfoldable pub outdated_addrs : ℕ → ℕ → Heap → List ViaRouter → List Ptr
outdated_addrs last_time remote_timeout heap [] = []
outdated_addrs last_time remote_timeout heap (a ∷ rs) =
    let more = outdated_addrs last_time remote_timeout heap rs in
    if is_outdated last_time remote_timeout heap a then a.addr ∷ more else more

unfoldable pub cleanup : ℕ → ℕ → Heap → RouteVia → RouteVia × List Ptr
cleanup last_time remote_timeout heap r = (
  record r { routers = sort (remove_if (is_outdated last_time remote_timeout heap) r.routers) },
  outdated_addrs last_time remote_timeout heap r.routers,
)

-- fabs
abbrev pub diff : ℕ → ℕ → ℕ
diff a b = (a - b) + (b - a)

abbrev pub is_near : ℕ → ViaRouter → ViaRouter → Bool
is_near max_near_rtt primary it =
    leb it.hops primary.hops && leb (diff it.latency primary.latency) (max_near_rtt * 1_000_000)

-- The loop that counts the routers behind the primary one that are near it.
unfoldable pub near_rcnt : ℕ → ViaRouter → List ViaRouter → ℕ
near_rcnt max_near_rtt primary [] = 0
near_rcnt max_near_rtt primary (it ∷ rs) = elim (is_near max_near_rtt primary it) [
  | true ↦ suc (near_rcnt max_near_rtt primary rs)
  | false ↦ 0
]

unfoldable pub rotate_near : ℕ → List ViaRouter → List ViaRouter
rotate_near max_near_rtt [] = []
rotate_near max_near_rtt (primary ∷ rs) =
    let n = near_rcnt max_near_rtt primary rs in
    if n == 0 then primary ∷ rs else take n rs ++ (primary ∷ drop n rs)

unfoldable pub swap_near_routers : ℕ → ℕ → RouteVia → RouteVia
swap_near_routers rand max_near_rtt r =
    if empty r || not (rand % 2 == 0)
    then r
    else record r { routers = rotate_near max_near_rtt r.routers }
