-- ===== src/Cksum/Laws.antt =====
-- What in_cksum computes: the complement of the ones' complement sum.
use zprd.Prelude.{
  ℕ, zero, suc, ◌+◌, ◌*◌, ◌/◌, ◌%◌, ◌^◌, ◌≤◌, ◌<◌, ◌≡◌, refl, ◌∙◌, ap, arith, List, [], ◌∷◌, ◌++◌,
  All, length,
}
use zprd.Bytes.{byte_at, rest, le16, u16_bytes}
use zprd.Cksum.{sum_words, fold_sum, in_cksum}

abbrev pub IsByte : ℕ → Type 0
IsByte x = x < 256

-- The plain sum of the first `rounds` words.
unfoldable pub word_sum : ℕ → List ℕ → ℕ
word_sum zero ptr = 0
word_sum (suc rounds) ptr = le16 ptr + word_sum rounds (rest (rest ptr))

rest-All : (a : List ℕ) → All IsByte a → All IsByte (rest a)
rest-All [] h = tt
rest-All (x ∷ a) h = h.1

byte_at-zero-lt : (a : List ℕ) → All IsByte a → byte_at a 0 < 256
byte_at-zero-lt [] h = omega arith
byte_at-zero-lt (x ∷ a) h = h.0

le16-lt : (a : List ℕ) → All IsByte a → le16 a < 65536
le16-lt [] h = omega arith
le16-lt (x ∷ []) h = omega arith
le16-lt (x ∷ y ∷ a) h = omega arith

word_sum-le : (n : ℕ) (a : List ℕ) → All IsByte a → word_sum n a ≤ n * 65535
unfolding word_sum
word_sum-le zero a h = omega arith
word_sum-le (suc n) a h =
    omega (arith, le16-lt a h, word_sum-le n (rest (rest a)) (rest-All (rest a) (rest-All a h)))

sum_words-eq-word_sum :
    (sum n : ℕ) (a : List ℕ) → sum + word_sum n a < 2 ^ 32 → sum_words sum n a ≡ sum + word_sum n a
unfolding sum_words word_sum
sum_words-eq-word_sum sum zero a h = omega arith
sum_words-eq-word_sum sum (suc n) a h =
    omega (arith, sum_words-eq-word_sum ((sum + le16 a) % 2 ^ 32) n (rest (rest a)) (omega arith))

pub in_cksum-fold_sum :
    (a : List ℕ) (n : ℕ)
    → word_sum (n / 2) a < 2 ^ 32
    → in_cksum a n ≡ fold_sum (word_sum (n / 2) a)
unfolding in_cksum
in_cksum-fold_sum a n h = ground (arith, sum_words-eq-word_sum 0 (n / 2) a (omega arith))

fold_sum-mod : (s : ℕ) → s < 2 ^ 32 → (fold_sum s + s) % 65535 ≡ 0
unfolding fold_sum
fold_sum-mod s h = omega arith

fold_sum-lt : (s : ℕ) → fold_sum s < 65536
unfolding fold_sum
fold_sum-lt s = omega arith

fold_sum_done : (s : ℕ) → s + 65535 < 2 ^ 32 → fold_sum (s + fold_sum s) ≡ 0
unfolding fold_sum
fold_sum_done s h = omega arith

-- For at most 2 ^ 16 words of a byte array, the result of in_cksum is a 16 bit number that, added
-- to the sum of the words, is a multiple of 65535.
pub in_cksum_lem :
    (a : List ℕ) (n : ℕ)
    → All IsByte a
    → n ≤ 131072
    → (in_cksum a n < 65536) × ((in_cksum a n + word_sum (n / 2) a) % 65535 ≡ 0)
in_cksum_lem a n h k =
    let small = word_sum-le (n / 2) a h in
    rw (in_cksum-fold_sum a n (omega arith))
      (fold_sum-lt (word_sum (n / 2) a), fold_sum-mod (word_sum (n / 2) a) (omega arith))

-- The last byte of an odd number of bytes does not count: `nbytes % 1` is never true.
pub in_cksum_odd : (a : List ℕ) (k : ℕ) → in_cksum a (2 * k + 1) ≡ in_cksum a (2 * k)
unfolding in_cksum
in_cksum_odd a k = ground (arith, half_odd k, half_even k)
  where
    half_odd : (k : ℕ) → (2 * k + 1) / 2 ≡ k
    half_odd k = omega arith

    half_even : (k : ℕ) → 2 * k / 2 ≡ k
    half_even k = omega arith

word_sum-zero : (a : List ℕ) → word_sum 0 a ≡ 0
unfolding word_sum
word_sum-zero a = refl

word_sum_cong : (j k : ℕ) (a : List ℕ) → j ≡ k → word_sum j a ≡ word_sum k a
word_sum_cong j k a h = ap (λ (i : ℕ). word_sum i a) h

word_sum-suc :
    (k : ℕ) (x y : ℕ) (a : List ℕ) → word_sum (suc k) (x ∷ y ∷ a) ≡ x + 256 * y + word_sum k a
unfolding word_sum
word_sum-suc k x y a = refl

word_sum-append :
    (k m : ℕ) (a b : List ℕ)
    → length a ≡ 2 * k
    → word_sum (k + m) (a ++ b) ≡ word_sum k a + word_sum m b
word_sum-append zero m [] b h =
    omega (arith, word_sum_cong (0 + m) m b (omega arith), word_sum-zero [])
word_sum-append zero m (x ∷ a) b h = absurd (omega arith)
word_sum-append (suc k) m [] b h = absurd (omega arith)
word_sum-append (suc k) m (x ∷ []) b h = absurd (omega arith)
word_sum-append (suc k) m (x ∷ y ∷ a) b h = omega (
  arith,
  word_sum-append k m a b (omega arith),
  word_sum_cong (suc k + m) (suc (k + m)) (x ∷ y ∷ (a ++ b)) (omega arith),
  word_sum-suc (k + m) x y (a ++ b),
  word_sum-suc k x y a,
)

-- The sum of a block whose field, behind `k` words, holds the word c.
word_sum-field :
    (k m c : ℕ) (before after : List ℕ)
    → length before ≡ 2 * k
    → word_sum (2 * (k + suc m) / 2) (before ++ (u16_bytes c ++ after))
      ≡ word_sum k before + word_sum m after + c
word_sum-field k m c before after h = omega (
  arith,
  word_sum_cong (2 * (k + suc m) / 2) (k + suc m) (before ++ (u16_bytes c ++ after)) (omega arith),
  word_sum-append k (suc m) before (u16_bytes c ++ after) h,
  word_sum-suc m (c % 256) (c / 256) after,
)

-- A block of words with its own checksum stored in a field that was zero has the checksum 0.
pub in_cksum-stored :
    (k m : ℕ) (before after : List ℕ)
    → All IsByte before
    → All IsByte after
    → length before ≡ 2 * k
    → k + m ≤ 65535
    → let n = 2 * (k + suc m) in
      in_cksum (before ++ (u16_bytes (in_cksum (before ++ (u16_bytes 0 ++ after)) n) ++ after)) n
      ≡ 0
in_cksum-stored k m before after hb ha hl hn =
    in_cksum-fold_sum _ n
      (omega (arith, sum_below, filled, fold_sum-lt (word_sum (n / 2) cleared), stored))
    ∙ ap fold_sum (omega (arith, filled, stored, empty, ap fold_sum empty))
    ∙ fold_sum_done (word_sum k before + word_sum m after) (omega (arith, sum_below))
  where
    n : ℕ
    n = 2 * (k + suc m)

    cleared : List ℕ
    cleared = before ++ (u16_bytes 0 ++ after)

    sum_below : word_sum k before + word_sum m after + 65535 < 2 ^ 32
    sum_below = omega (arith, word_sum-le k before hb, word_sum-le m after ha)

    empty : word_sum (n / 2) cleared ≡ word_sum k before + word_sum m after
    empty = omega (arith, word_sum-field k m 0 before after hl)

    stored : in_cksum cleared n ≡ fold_sum (word_sum (n / 2) cleared)
    stored = in_cksum-fold_sum cleared n (omega (arith, sum_below, empty))

    filled :
        word_sum (n / 2) (before ++ (u16_bytes (in_cksum cleared n) ++ after))
        ≡ word_sum k before + word_sum m after + in_cksum cleared n
    filled = word_sum-field k m (in_cksum cleared n) before after hl
