-- ===== src/Bytes/Words.antt =====
-- The 16 bit byte order helpers: ranges and round trips.
use zprd.Prelude.{ℕ, ◌<◌, ◌≡◌, arith}
use zprd.Bytes.{htons, le16, u16_bytes}

pub htons-htons : (x : ℕ) → x < 65536 → htons (htons x) ≡ x
htons-htons x h = omega arith

pub htons-lt : (x : ℕ) → htons x < 65536
htons-lt x = omega arith

pub le16-u16_bytes : (x : ℕ) → le16 (u16_bytes x) ≡ x
le16-u16_bytes x = omega arith
