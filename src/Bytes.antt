-- ===== src/Bytes.antt =====
-- Byte arrays, memcmp and the byte order helpers that the C and C++ files take from libc.
-- An array is the list of its leading bytes; the bytes behind the list are zero. The host is
-- little-endian, as on the platforms that zprd is built for.
pub mod Compare
pub mod Words
pub mod Fit
use zprd.Prelude.{ℕ, zero, suc, ◌+◌, ◌*◌, ◌/◌, ◌%◌, List, [], ◌∷◌, compare, Ordering, get_or}

-- `a[i]`
abbrev pub byte_at : List ℕ → ℕ → ℕ
byte_at a i = get_or a i 0

abbrev pub rest : List ℕ → List ℕ
rest [] = []
rest (x ∷ xs) = xs

-- memcpy of n bytes out of an array.
abbrev pub fit : ℕ → List ℕ → List ℕ
fit zero a = []
fit (suc n) a = byte_at a 0 ∷ fit n (rest a)

-- memcmp over n bytes; the constructors stand for the sign of the result.
unfoldable pub memcmp : ℕ → List ℕ → List ℕ → Ordering
memcmp zero a b = Ordering.eq
memcmp (suc n) a b = elim (compare (byte_at a 0) (byte_at b 0)) [
  | Ordering.lt ↦ Ordering.lt
  | Ordering.eq ↦ memcmp n (rest a) (rest b)
  | Ordering.gt ↦ Ordering.gt
]

-- A 16 bit word in memory, and the one that network order reads there.
abbrev pub le16 : List ℕ → ℕ
le16 a = byte_at a 0 + 256 * byte_at a 1

abbrev pub be16 : List ℕ → ℕ
be16 a = 256 * byte_at a 0 + byte_at a 1

abbrev pub le32 : List ℕ → ℕ
le32 a = byte_at a 0 + 256 * byte_at a 1 + 65536 * byte_at a 2 + 16777216 * byte_at a 3

-- The memory of a word below 2 ^ 16.
abbrev pub u16_bytes : ℕ → List ℕ
u16_bytes x = (x % 256) ∷ (x / 256) ∷ []

-- htons and ntohs.
abbrev pub htons : ℕ → ℕ
htons x = x % 256 * 256 + x / 256 % 256
