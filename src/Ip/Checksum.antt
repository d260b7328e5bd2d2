-- ===== src/Ip/Checksum.antt =====
-- The checksum of an IPv4 header as it leaves the tun device and as it enters it.
use zprd.Prelude.{ℕ, zero, suc, ◌<◌, ◌≡◌, refl, arith, List, [], ◌∷◌, All, drop}
use zprd.Bytes.{byte_at, rest, fit}
use zprd.Cksum.Laws.{IsByte, in_cksum-stored}
use zprd.Ip.{set_sum, ip_cksum}

byte_at-IsByte : (a : List ℕ) → All IsByte a → byte_at a 0 < 256
byte_at-IsByte [] h = omega arith
byte_at-IsByte (x ∷ a) h = h.0

rest-IsByte : (a : List ℕ) → All IsByte a → All IsByte (rest a)
rest-IsByte [] h = tt
rest-IsByte (x ∷ a) h = h.1

fit-IsByte : (n : ℕ) (a : List ℕ) → All IsByte a → All IsByte (fit n a)
fit-IsByte zero a h = tt
fit-IsByte (suc n) a h = (byte_at-IsByte a h, fit-IsByte n (rest a) (rest-IsByte a h))

drop-IsByte : (n : ℕ) (a : List ℕ) → All IsByte a → All IsByte (drop n a)
drop-IsByte zero a h = h
drop-IsByte (suc n) [] h = tt
drop-IsByte (suc n) (x ∷ a) h = drop-IsByte n a h.1

set_sum_twice : (b c : ℕ) (h : List ℕ) → set_sum c (set_sum b h) ≡ set_sum c h
unfolding set_sum
set_sum_twice b c h = refl

-- If the checksum field of a header of bytes is cleared and IN_CKSUM of the result stored in it,
-- IN_CKSUM of the header is 0: the test of verify_ipv4_packet lets it pass.
pub ip_cksum-set_sum :
    (h : List ℕ) → All IsByte h → ip_cksum (set_sum (ip_cksum (set_sum 0 h)) (set_sum 0 h)) ≡ 0
unfolding ip_cksum set_sum
ip_cksum-set_sum h bytes =
    in_cksum-stored 5 4 (fit 10 h) (drop 12 h) (fit-IsByte 10 h bytes) (drop-IsByte 12 h bytes) refl
      (omega arith)
