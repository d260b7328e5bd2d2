-- ===== src/Iafa/Netmask.antt =====
-- set_pflen and xner_apply_netmask.
use Prim.Native.Nat.{bit_and}
use zprd.Prelude.{
  ℕ, zero, suc, ◌-◌, ◌*◌, ◌/◌, ◌%◌, ◌^◌, ◌<◌, ◌≡◌, ◌↔◌, refl, arith, Bool, true, false, ◌≤◌,
  Bool-cases, subst, if◌then◌else◌, List, [], ◌∷◌, ◌++◌, none, some, min, length, replicate, ◌==◌,
  ==_iff, ◌∙◌, sym, ap, ◌⊎◌, inl, inr,
}
use zprd.Bytes.Fit.{byte_at-rest}
use zprd.Bytes.{byte_at, rest}
use zprd.Iafa.{set_pflen, apply_netmask, iafa_al_max}

-- The leading bits of byte i that a prefix of p bits covers, and the netmask byte that has them.
abbrev pub covered : ℕ → ℕ → ℕ
covered p i = min 8 (p - 8 * i)

abbrev pub prefix_byte : ℕ → ℕ
prefix_byte k = 256 - 2 ^ (8 - k)

byte_at-replicate : (n i v : ℕ) (r : List ℕ) → i < n → byte_at (replicate n v ++ r) i ≡ v
byte_at-replicate zero i v r h = absurd (omega arith)
byte_at-replicate (suc n) zero v r h = refl
byte_at-replicate (suc n) (suc i) v r h = byte_at-replicate n i v r (omega arith)

byte_at-replicate_end : (n v w : ℕ) (r : List ℕ) → byte_at (replicate n v ++ w ∷ r) n ≡ w
byte_at-replicate_end zero v w r = refl
byte_at-replicate_end (suc n) v w r = byte_at-replicate_end n v w r

byte_at-zeros : (n i : ℕ) → byte_at (replicate n 0) i ≡ 0
byte_at-zeros zero i = refl
byte_at-zeros (suc n) zero = refl
byte_at-zeros (suc n) (suc i) = byte_at-zeros n i

byte_at-beyond : (n m i v w : ℕ) → n < i → byte_at (replicate n v ++ w ∷ replicate m 0) i ≡ 0
byte_at-beyond zero m zero v w h = absurd (omega arith)
byte_at-beyond zero m (suc i) v w h = byte_at-zeros m i
byte_at-beyond (suc n) m zero v w h = absurd (omega arith)
byte_at-beyond (suc n) m (suc i) v w h = byte_at-beyond n m i v w (omega arith)

-- A test of all numbers up to a bound, by evaluation.
every : (ℕ → Bool) → ℕ → Bool
every test zero = test zero
every test (suc k) = if test (suc k) then every test k else false

every-at : (test : ℕ → Bool) (k x : ℕ) → every test k ≡ true → x ≤ k → test x ≡ true
unfolding every
every-at test zero zero passed bound = passed
every-at test zero (suc x) passed bound = absurd (omega arith)
every-at test (suc k) x passed bound = elim (Bool-cases (test (suc k))) [
  | inr fails ↦ absurd (cc (passed, fails))
  | inl holds ↦ elim (near_end) [
    | inl low ↦ every-at test k x (ground (arith, passed, holds)) low
    | inr last ↦ subst (λ v. test v ≡ true) last holds
  ]
]
  where
    near_end : (x ≤ k) ⊎ (suc k ≡ x)
    near_end = omega arith

partial_byte_table : every (λ r. (0xff * 2 ^ (8 - r)) % 256 == prefix_byte r) 7 ≡ true
unfolding every
partial_byte_table = refl

partial_byte : (r : ℕ) → r < 8 → (0xff * 2 ^ (8 - r)) % 256 ≡ prefix_byte r
partial_byte r h = (==_iff _ _).0 (every-at _ 7 r partial_byte_table (omega arith))

-- What `apply_netmask` does to one byte, for each number of covered bits.
kept_table :
    every (λ k. every (λ x. bit_and x (prefix_byte k) == x / 2 ^ (8 - k) * 2 ^ (8 - k)) 255) 8
    ≡ true
unfolding every
kept_table = refl

kept_byte : (k x : ℕ) → k < 9 → x < 256 → bit_and x (prefix_byte k) ≡ x / 2 ^ (8 - k) * 2 ^ (8 - k)
kept_byte k x h g =
    (==_iff _ _).0 (every-at _ 255 x (every-at _ 8 k kept_table (omega arith)) (omega arith))

mask : ℕ → List ℕ
mask p =
    replicate (p / 8) 0xff
    ++ ((0xff * 2 ^ (8 - p % 8)) % 256) ∷ replicate (iafa_al_max - p / 8 - 1) 0

prefix_byte_cong : (j k : ℕ) → j ≡ k → prefix_byte j ≡ prefix_byte k
prefix_byte_cong j k h = ap prefix_byte h

order : (a b : ℕ) → (a < b) ⊎ ((a ≡ b) ⊎ (b < a))
order a b = omega arith

mask_byte : (p i : ℕ) → byte_at (mask p) i ≡ prefix_byte (covered p i)
unfolding mask
mask_byte p i = elim (order i (p / 8)) [
  | inl below ↦
      byte_at-replicate (p / 8) i 0xff _ below ∙ prefix_byte_cong (8) (covered p i) (omega arith)
  | inr (inl here) ↦ rw here (
      byte_at-replicate_end (p / 8) 0xff _ _
      ∙ partial_byte (p % 8) (omega arith)
      ∙ prefix_byte_cong (p % 8) (covered p (p / 8)) (omega arith))
  | inr (inr above) ↦
      byte_at-beyond (p / 8) _ i 0xff _ above ∙ prefix_byte_cong (0) (covered p i) (omega arith)
]

set_pflen-mask : (p : ℕ) (nmsk : List ℕ) → p < 248 → set_pflen p nmsk ≡ some (mask p)
unfolding set_pflen mask
set_pflen-mask p nmsk h = ground arith

-- For a prefix length below 248, set_pflen writes no byte outside the mask and every byte of the
-- mask has exactly the bits set that the prefix covers.
pub set_pflen_lem :
    (p i : ℕ) (nmsk : List ℕ)
    → p < 248
    → (m : List ℕ) × (set_pflen p nmsk ≡ some m) × (byte_at m i ≡ prefix_byte (covered p i))
set_pflen_lem p i nmsk h = (mask p, set_pflen-mask p nmsk h, mask_byte p i)

-- set_pflen writes behind the mask for the prefix length 248, which its guard lets pass, and for no
-- other.
pub set_pflen_overrun : (p : ℕ) (nmsk : List ℕ) → (set_pflen p nmsk ≡ none) ↔ (p ≡ 248)
unfolding set_pflen
set_pflen_overrun p nmsk = ((λ h. ground (arith, h)), (λ h. ground (arith, h)))

byte_at-apply_netmask :
    (n i : ℕ) (addr nmsk : List ℕ)
    → i < n
    → i < length addr
    → byte_at (apply_netmask n addr nmsk) i ≡ bit_and (byte_at addr i) (byte_at nmsk i)
unfolding apply_netmask
byte_at-apply_netmask zero i addr nmsk h k = absurd (omega arith)
byte_at-apply_netmask (suc n) i [] nmsk h k = absurd (omega arith)
byte_at-apply_netmask (suc n) zero (a ∷ addr) nmsk h k = refl
byte_at-apply_netmask (suc n) (suc i) (a ∷ addr) nmsk h k =
    byte_at-apply_netmask n i addr (rest nmsk) (omega arith) (omega arith)
    ∙ ap (bit_and (byte_at addr i)) (byte_at-rest nmsk i)

-- With the mask that set_pflen writes for a prefix length below 248, xner_apply_netmask keeps the
-- bits of the prefix in every byte of the address that it is called on and clears the others.
pub apply_netmask-set_pflen :
    (p n i : ℕ) (addr nmsk m : List ℕ)
    → p < 248
    → set_pflen p nmsk ≡ some m
    → i < n
    → i < length addr
    → byte_at addr i < 256
    → byte_at (apply_netmask n addr m) i
      ≡ byte_at addr i / 2 ^ (8 - covered p i) * 2 ^ (8 - covered p i)
apply_netmask-set_pflen p n i addr nmsk m hp e hn hl hb =
    byte_at-apply_netmask n i addr m hn hl
    ∙ ap (bit_and (byte_at addr i)) (ap (λ (q : List ℕ). byte_at q i) (sym is_mask) ∙ mask_byte p i)
    ∙ kept_byte (covered p i) (byte_at addr i) (omega arith) hb
  where
    is_mask : mask p ≡ m
    is_mask = cc (set_pflen-mask p nmsk hp)
