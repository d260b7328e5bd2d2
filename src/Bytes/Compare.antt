-- ===== src/Bytes/Compare.antt =====
-- memcmp is a total order on the compared bytes.
use zprd.Prelude.{ℕ, zero, suc, ◌≡◌, refl, List, arith, Ordering, flip_order}
use zprd.Bytes.{memcmp, rest, fit}

pub memcmp_refl : (n : ℕ) (a : List ℕ) → memcmp n a a ≡ Ordering.eq
unfolding memcmp
memcmp_refl zero a = refl
memcmp_refl (suc n) a = ground (arith, memcmp_refl n (rest a))

pub memcmp_flip : (n : ℕ) (a b : List ℕ) → memcmp n b a ≡ flip_order (memcmp n a b)
unfolding memcmp
memcmp_flip zero a b = refl
memcmp_flip (suc n) a b = ground (arith, memcmp_flip n (rest a) (rest b))

-- memcmp returns 0 only for arrays with the same n leading bytes.
pub memcmp_eq_fit : (n : ℕ) (a b : List ℕ) → memcmp n a b ≡ Ordering.eq → fit n a ≡ fit n b
unfolding memcmp
memcmp_eq_fit zero a b h = refl
memcmp_eq_fit (suc n) a b h = ground (arith, memcmp_eq_fit n (rest a) (rest b))

pub fit-memcmp_eq : (n : ℕ) (a b : List ℕ) → fit n a ≡ fit n b → memcmp n a b ≡ Ordering.eq
unfolding memcmp
fit-memcmp_eq zero a b h = refl
fit-memcmp_eq (suc n) a b h = ground (arith, fit-memcmp_eq n (rest a) (rest b))

-- What compares equal can be replaced on the left.
pub memcmp_eq_left :
    (n : ℕ) (a b c : List ℕ) → memcmp n a b ≡ Ordering.eq → memcmp n a c ≡ memcmp n b c
unfolding memcmp
memcmp_eq_left zero a b c h = refl
memcmp_eq_left (suc n) a b c h = ground (arith, memcmp_eq_left n (rest a) (rest b) (rest c))

pub memcmp_lt_trans :
    (n : ℕ) (a b c : List ℕ)
    → memcmp n a b ≡ Ordering.lt
    → memcmp n b c ≡ Ordering.lt
    → memcmp n a c ≡ Ordering.lt
unfolding memcmp
memcmp_lt_trans zero a b c h k = ground arith
memcmp_lt_trans (suc n) a b c h k = ground (arith, memcmp_lt_trans n (rest a) (rest b) (rest c))
