-- ===== src/Cksum.antt =====
-- src/cksum.c: the internet checksum, with uint32_t and uint16_t wrapping written out.
pub mod Laws
use zprd.Prelude.{ℕ, zero, suc, ◌+◌, ◌-◌, ◌*◌, ◌/◌, ◌%◌, ◌^◌, List, drop, ◌==◌, if◌then◌else◌}
use zprd.Bytes.{byte_at, rest, le16}

-- The `for` loop: one round for each pair of bytes, `nbytes / 2` rounds in all.
unfoldable pub sum_words : ℕ → ℕ → List ℕ → ℕ
sum_words sum zero ptr = sum
sum_words sum (suc rounds) ptr = sum_words ((sum + le16 ptr) % 2 ^ 32) rounds (rest (rest ptr))

-- `sum = (sum >> 16) + (sum & 0xffff); sum += (sum >> 16); return ~sum;`
unfoldable pub fold_sum : ℕ → ℕ
fold_sum sum =
    let sum1 = (sum / 2 ^ 16 + sum % 2 ^ 16) % 2 ^ 32 in
    let sum2 = (sum1 + sum1 / 2 ^ 16) % 2 ^ 32 in 2 ^ 16 - 1 - sum2 % 2 ^ 16

-- The test `nbytes % 1` is the source's.
unfoldable pub in_cksum : List ℕ → ℕ → ℕ
in_cksum ptr nbytes =
    let sum = sum_words 0 (nbytes / 2) ptr in
    fold_sum
      (if nbytes % 1 == 0 then sum else (sum + byte_at (drop (2 * (nbytes / 2)) ptr) 0) % 2 ^ 32)
