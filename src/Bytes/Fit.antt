-- ===== src/Bytes/Fit.antt =====
-- The leading bytes of an array.
use zprd.Prelude.{ℕ, zero, suc, ◌<◌, ◌≡◌, refl, ap, ◌∙◌, arith, List, [], ◌∷◌, length}
use zprd.Bytes.{byte_at, rest, fit}

pub length-fit : (n : ℕ) (a : List ℕ) → length (fit n a) ≡ n
length-fit zero a = refl
length-fit (suc n) a = ap suc (length-fit n (rest a))

pub byte_at-rest : (a : List ℕ) (i : ℕ) → byte_at (rest a) i ≡ byte_at a (suc i)
byte_at-rest [] i = refl
byte_at-rest (x ∷ a) i = refl

pub byte_at-fit : (n i : ℕ) (a : List ℕ) → i < n → byte_at (fit n a) i ≡ byte_at a i
byte_at-fit zero i a h = absurd (omega arith)
byte_at-fit (suc n) zero a h = refl
byte_at-fit (suc n) (suc i) a h = byte_at-fit n i (rest a) (omega arith) ∙ byte_at-rest a i
