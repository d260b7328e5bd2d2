-- ===== src/Oafa/Order.antt =====
-- AFa_sa_compare as an order: what the sorted peer vector and its binary searches rely on.
use zprd.Prelude.{◌≡◌, arith, Ordering, flip_order}
use zprd.Bytes.{memcmp}
use zprd.Bytes.Compare.{memcmp_refl, memcmp_flip, memcmp_eq_left, memcmp_lt_trans}
use zprd.Oafa.{SockAddr, sa_bytes, sa_compare, sa_family2size}

sa_family2size_cong : (a b : SockAddr) → a.family ≡ b.family → sa_family2size a ≡ sa_family2size b
unfolding sa_family2size
sa_family2size_cong a b h = ground arith

pub sa_compare_refl : (a : SockAddr) → sa_compare a a ≡ Ordering.eq
unfolding sa_compare
sa_compare_refl a = ground (arith, memcmp_refl (sa_family2size a) (sa_bytes a))

-- Exchanging the arguments of AFa_sa_compare exchanges the sign of its result.
pub sa_compare_flip : (a b : SockAddr) → sa_compare b a ≡ flip_order (sa_compare a b)
unfolding sa_compare
sa_compare_flip a b = ground (
  arith,
  sa_family2size_cong a b,
  memcmp_flip (sa_family2size a) (sa_bytes a) (sa_bytes b),
  memcmp_flip 2 (sa_bytes a) (sa_bytes b),
)

-- Addresses that compare equal have one family.
family_of_eq : (a b : SockAddr) → sa_compare a b ≡ Ordering.eq → a.family ≡ b.family
unfolding sa_compare memcmp
family_of_eq a b h = ground arith

pub sa_compare_eq_left :
    (a b c : SockAddr) → sa_compare a b ≡ Ordering.eq → sa_compare a c ≡ sa_compare b c
unfolding sa_compare memcmp
sa_compare_eq_left a b c h = ground (
  arith,
  family_of_eq a b,
  sa_family2size_cong a b,
  memcmp_eq_left (sa_family2size a) (sa_bytes a) (sa_bytes b) (sa_bytes c),
)

-- The order of socket addresses by AFa_sa_compare is transitive.
pub sa_compare_lt_trans :
    (a b c : SockAddr)
    → sa_compare a b ≡ Ordering.lt
    → sa_compare b c ≡ Ordering.lt
    → sa_compare a c ≡ Ordering.lt
unfolding sa_compare memcmp
sa_compare_lt_trans a b c h k = ground (
  arith,
  sa_family2size_cong a b,
  sa_family2size_cong b c,
  memcmp_lt_trans (sa_family2size a) (sa_bytes a) (sa_bytes b) (sa_bytes c),
)
