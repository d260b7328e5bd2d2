-- ===== src/Remotes/LowerBound.antt =====
-- The halving search against a walk from the front, on a range where the items that satisfy the
-- test stand before all others.
use zprd.Prelude.{
  ℕ, zero, suc, ◌+◌, ◌/◌, ◌≤◌, ◌≡◌, ◌⊎◌, inl, inr, refl, ap, sym, arith, List, [], ◌∷◌, ◌++◌, All,
  Bool, true, false, length, take, drop, Bool-cases, length-take, length-drop, take-append-drop,
  subst,
}
use zprd.Remotes.{lower_bound}

module _ {ℓ} {A : Type ℓ} where
  -- The number of items at the front that satisfy the test.
  abbrev pub prefix_length : (A → Bool) → List A → ℕ
  prefix_length less [] = 0
  prefix_length less (x ∷ xs) = elim (less x) [ true ↦ suc (prefix_length less xs) | false ↦ 0 ]

  -- Behind an item that fails the test, all items fail it.
  abbrev pub Partitioned : (A → Bool) → List A → Type 0
  Partitioned less [] = Unit
  Partitioned less (x ∷ xs) =
      ((less x ≡ true) ⊎ All (λ y. less y ≡ false) (x ∷ xs)) × Partitioned less xs

  prefix_length-hit :
      (less : A → Bool) (x : A) (xs : List A)
      → less x ≡ true
      → prefix_length less (x ∷ xs) ≡ suc (prefix_length less xs)
  prefix_length-hit less x xs h = ground arith

  prefix_length-miss :
      (less : A → Bool) (x : A) (xs : List A) → less x ≡ false → prefix_length less (x ∷ xs) ≡ 0
  prefix_length-miss less x xs h = ground arith

  Partitioned-take :
      (less : A → Bool) (xs ys : List A) → Partitioned less (xs ++ ys) → Partitioned less xs
  Partitioned-take less [] ys p = tt
  Partitioned-take less (x ∷ xs) ys (inl hit, p) = (inl hit, Partitioned-take less xs ys p)
  Partitioned-take less (x ∷ xs) ys (inr miss, p) =
      (inr (miss.0, All-front xs miss.1), Partitioned-take less xs ys p)
    where
      All-front :
          (xs : List A) → All (λ y. less y ≡ false) (xs ++ ys) → All (λ y. less y ≡ false) xs
      All-front [] a = tt
      All-front (x ∷ xs) a = (a.0, All-front xs a.1)

  Partitioned-drop :
      (less : A → Bool) (xs ys : List A) → Partitioned less (xs ++ ys) → Partitioned less ys
  Partitioned-drop less [] ys p = p
  Partitioned-drop less (x ∷ xs) ys p = Partitioned-drop less xs ys p.1

  All-middle :
      (less : A → Bool) (xs : List A) (m : A) (ys : List A)
      → All (λ y. less y ≡ false) (xs ++ (m ∷ ys))
      → less m ≡ false
  All-middle less [] m ys a = a.0
  All-middle less (x ∷ xs) m ys a = All-middle less xs m ys a.1

  -- An item in the middle that satisfies the test counts with all items before it.
  prefix_length-upper :
      (less : A → Bool) (xs : List A) (m : A) (ys : List A)
      → Partitioned less (xs ++ (m ∷ ys))
      → less m ≡ true
      → prefix_length less (xs ++ (m ∷ ys)) ≡ length xs + 1 + prefix_length less ys
  prefix_length-upper less [] m ys p h = omega (arith, prefix_length-hit less m ys h)
  prefix_length-upper less (x ∷ xs) m ys (inl hit, p) h =
      omega
        (arith, prefix_length-hit less x (xs ++ (m ∷ ys)) hit, prefix_length-upper less xs m ys p h)
  prefix_length-upper less (x ∷ xs) m ys (inr miss, p) h =
      absurd (cc (All-middle less xs m ys miss.1))

  -- One that fails it bounds the count to the items before it.
  prefix_length-lower :
      (less : A → Bool) (xs : List A) (m : A) (ys : List A)
      → less m ≡ false
      → prefix_length less (xs ++ (m ∷ ys)) ≡ prefix_length less xs
  prefix_length-lower less [] m ys h = prefix_length-miss less m ys h
  prefix_length-lower less (x ∷ xs) m ys h = elim (Bool-cases (less x)) [
    | inl hit ↦ omega (
      arith,
      prefix_length-hit less x (xs ++ (m ∷ ys)) hit,
      prefix_length-hit less x xs hit,
      prefix_length-lower less xs m ys h,
    )
    | inr miss ↦
        omega (
          arith,
          prefix_length-miss less x (xs ++ (m ∷ ys)) miss,
          prefix_length-miss less x xs miss,
        )
  ]

  lower_bound-nil : (less : A → Bool) (fuel : ℕ) → lower_bound less fuel [] ≡ 0
  unfolding lower_bound
  lower_bound-nil less zero = refl
  lower_bound-nil less (suc fuel) = refl

  lower_bound_round :
      (less : A → Bool) (fuel : ℕ) (range : List A) (m : A) (upper : List A)
      → drop (length range / 2) range ≡ m ∷ upper
      → lower_bound less (suc fuel) range ≡ elim (less m) [
        | true ↦ length range / 2 + 1 + lower_bound less fuel upper
        | false ↦ lower_bound less fuel (take (length range / 2) range)
      ]
  unfolding lower_bound
  lower_bound_round less fuel range m upper h = rw (h, lower_bound)

  module _ (less : A → Bool) (fuel : ℕ) (range : List A) (m : A) (upper : List A) where
    split_range :
        drop (length range / 2) range ≡ m ∷ upper
        → take (length range / 2) range ++ (m ∷ upper) ≡ range
    split_range h = rw (← h) (take-append-drop (length range / 2) range)

    -- One round of the search, if the search is right on both halves.
    lower_bound_halves :
        drop (length range / 2) range ≡ m ∷ upper
        → Partitioned less range
        → lower_bound less fuel upper ≡ prefix_length less upper
        → lower_bound less fuel (take (length range / 2) range)
          ≡ prefix_length less (take (length range / 2) range)
        → lower_bound less (suc fuel) range ≡ prefix_length less range
    lower_bound_halves h p above below =
        let joined = split_range h in
        let parts = subst (Partitioned less) (sym joined) p in
        let counted = ap (prefix_length less) joined in
        elim (Bool-cases (less m)) [
          | inl hit ↦
              rw (lower_bound_round less fuel range m upper h, hit)
                (omega (
                  arith,
                  counted,
                  above,
                  prefix_length-upper less (take (length range / 2) range) m upper parts hit,
                  length-take (length range / 2) range,
                ))
          | inr miss ↦
              rw (lower_bound_round less fuel range m upper h, miss)
                (omega (
                  arith,
                  counted,
                  below,
                  prefix_length-lower less (take (length range / 2) range) m upper miss,
                ))
        ]

  -- On a range where the items that satisfy the test come first, the halving search finds their
  -- number, and as many rounds as the range has items are enough.
  pub lower_bound_lem :
      (less : A → Bool) (fuel : ℕ) (range : List A)
      → length range ≤ fuel
      → Partitioned less range
      → lower_bound less fuel range ≡ prefix_length less range
  lower_bound_lem less zero [] h p = lower_bound-nil less zero
  lower_bound_lem less (suc fuel) [] h p = lower_bound-nil less (suc fuel)
  lower_bound_lem less zero (x ∷ xs) h p = absurd (omega arith)
  lower_bound_lem less (suc fuel) (x ∷ xs) h p =
      go (λ r. lower_bound_lem less fuel r) (drop (length (x ∷ xs) / 2) (x ∷ xs)) refl
    where
      half : ℕ
      half = length (x ∷ xs) / 2

      go :
          ((r : List A)
            → length r ≤ fuel
            → Partitioned less r
            → lower_bound less fuel r ≡ prefix_length less r)
          → (d : List A) → drop (length (x ∷ xs) / 2) (x ∷ xs) ≡ d
          → lower_bound less (suc fuel) (x ∷ xs) ≡ prefix_length less (x ∷ xs)
      go ih [] e = absurd (omega (arith, ap (length {A = A}) e, length-drop half (x ∷ xs)))
      go ih (m ∷ upper) e =
          let parts : Partitioned less (take half (x ∷ xs) ++ (m ∷ upper)) =
            subst (Partitioned less) (sym (split_range less fuel (x ∷ xs) m upper e)) p in
          lower_bound_halves less fuel (x ∷ xs) m upper e p
            (ih upper (omega (arith, ap (length {A = A}) e, length-drop half (x ∷ xs)))
              (Partitioned-drop less (take half (x ∷ xs)) (m ∷ upper) parts).1)
            (ih (take half (x ∷ xs)) (omega (arith, length-take half (x ∷ xs)))
              (Partitioned-take less (take half (x ∷ xs)) (m ∷ upper) parts))
