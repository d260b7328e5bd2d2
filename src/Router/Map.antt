-- ===== src/Router/Map.antt =====
-- The laws of the route table.
use zprd.Prelude.{◌≡◌, inl, inr, refl, arith, [], ◌∷◌, true, none, some, Bool-cases, if◌then◌else◌}
use zprd.Iafa.{InnerAddr, addr_eq}
use zprd.Iafa.Equality.{addr_eq_sym, addr_eq_trans}
use zprd.Routes.{RouteVia, empty}
use zprd.Router.{Router, RouteMap, find_route, put_route, have_route, set_route}

-- Equal addresses compare alike with a third.
addr_eq_left : (a b c : InnerAddr) → addr_eq a b ≡ true → addr_eq a c ≡ addr_eq b c
addr_eq_left a b c h = elim (Bool-cases (addr_eq a c)) [
  | inl same ↦ cc (addr_eq_trans b a c (addr_eq_sym a b h) same)
  | inr other ↦ elim (Bool-cases (addr_eq b c)) [
    | inl same ↦ cc (addr_eq_trans a b c h same)
    | inr other' ↦ cc
  ]
]

addr_eq_right : (a b c : InnerAddr) → addr_eq a b ≡ true → addr_eq c a ≡ addr_eq c b
addr_eq_right a b c h = elim (Bool-cases (addr_eq c a)) [
  | inl same ↦ cc (addr_eq_trans c a b same h)
  | inr other ↦ elim (Bool-cases (addr_eq c b)) [
    | inl same ↦ cc (addr_eq_trans c b a same (addr_eq_sym a b h))
    | inr other' ↦ cc
  ]
]

-- Equal addresses find the same route.
pub find_route-addr_eq :
    (a b : InnerAddr) (m : RouteMap) → addr_eq a b ≡ true → find_route a m ≡ find_route b m
unfolding find_route
find_route-addr_eq a b [] h = refl
find_route-addr_eq a b ((k, r) ∷ m) h =
    ground (arith, addr_eq_right a b k h, find_route-addr_eq a b m h)

-- A write to one address is what a lookup of it finds, and no other lookup sees it.
pub find_route-put_route :
    (a b : InnerAddr) (v : RouteVia) (m : RouteMap)
    → find_route b (put_route a v m) ≡ (if addr_eq a b then some v else find_route b m)
unfolding find_route put_route
find_route-put_route a b v [] = ground arith
find_route-put_route a b v ((k, r) ∷ m) = elim (Bool-cases (addr_eq k a)) [
  | inl hit ↦ ground (arith, hit, addr_eq_left k a b hit)
  | inr miss ↦ elim (Bool-cases (addr_eq k b)) [
    | inl at ↦ elim (Bool-cases (addr_eq a b)) [
      | inl same ↦ cc (addr_eq_trans k b a at (addr_eq_sym a b same))
      | inr other ↦ ground (arith, miss, at, other)
    ]
    | inr past ↦ ground (arith, miss, past, find_route-put_route a b v m)
  ]
]

pub have_route-set_route :
    (a b : InnerAddr) (r : RouteVia) (s : Router)
    → have_route b (set_route a r s)
      ≡ (if addr_eq a b then (if empty r then none else some r) else have_route b s)
unfolding have_route
have_route-set_route a b r s = ground (arith, find_route-put_route a b r s.routes)
