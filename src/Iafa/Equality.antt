-- ===== src/Iafa/Equality.antt =====
-- operator== on inner addresses is an equivalence that looks at the type and `get_alen()` bytes,
-- and the hash of the route table respects it.
use zprd.Prelude.{ℕ, ◌≡◌, ◌↔◌, refl, arith, true}
use zprd.Bytes.{memcmp, fit}
use zprd.Bytes.Compare.{memcmp_eq_fit, fit-memcmp_eq}
use zprd.Iafa.{InnerAddr, get_alen, compare_addr, addr_eq, inner_addr_hash}

-- Two addresses are the same to the program.
abbrev pub SameAddr : InnerAddr → InnerAddr → Type 0
SameAddr a b = (a.type ≡ b.type) × (fit (get_alen a) a.addr ≡ fit (get_alen a) b.addr)

addr_eq→SameAddr : (a b : InnerAddr) → addr_eq a b ≡ true → SameAddr a b
unfolding addr_eq compare_addr memcmp
addr_eq→SameAddr a b h = ground (arith, memcmp_eq_fit (get_alen a) a.addr b.addr)

SameAddr→addr_eq : (a b : InnerAddr) → SameAddr a b → addr_eq a b ≡ true
unfolding addr_eq compare_addr
SameAddr→addr_eq a b h = ground (arith, fit-memcmp_eq (get_alen a) a.addr b.addr)

-- operator== of two inner addresses is true exactly when they have the same type and the same
-- `get_alen()` leading bytes.
pub addr_eq_iff : (a b : InnerAddr) → (addr_eq a b ≡ true) ↔ SameAddr a b
addr_eq_iff a b = (addr_eq→SameAddr a b, SameAddr→addr_eq a b)

pub addr_eq_refl : (a : InnerAddr) → addr_eq a a ≡ true
addr_eq_refl a = SameAddr→addr_eq a a (refl, refl)

pub addr_eq_sym : (a b : InnerAddr) → addr_eq a b ≡ true → addr_eq b a ≡ true
addr_eq_sym a b h = let s = addr_eq→SameAddr a b h in SameAddr→addr_eq b a (ground (arith, s))

pub addr_eq_trans :
    (a b c : InnerAddr) → addr_eq a b ≡ true → addr_eq b c ≡ true → addr_eq a c ≡ true
addr_eq_trans a b c h k =
    let s = addr_eq→SameAddr a b h in
    let t = addr_eq→SameAddr b c k in SameAddr→addr_eq a c (ground (arith, s, t))

-- Addresses that operator== joins have the same hash, whatever `hash_combine` computes.
pub addr_eq-inner_addr_hash :
    (hash_combine : ℕ → ℕ → ℕ) (a b : InnerAddr)
    → addr_eq a b ≡ true
    → inner_addr_hash hash_combine a ≡ inner_addr_hash hash_combine b
unfolding inner_addr_hash
addr_eq-inner_addr_hash hash_combine a b h = let s = addr_eq→SameAddr a b h in ground (arith, s)
