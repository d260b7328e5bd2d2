-- ===== src/Startup/Runs.antt =====
-- The runs of a program of system calls, taken apart at its binds, and which calls it can make.
use zprd.Prelude.{
  ℕ, zero, suc, ◌≡◌, ◌⊎◌, inl, inr, refl, ap, sym, ◌∙◌, List, [], ◌∷◌, ◌++◌, Bool, true, false,
  Option, none, some, arith, all_of, if◌then◌else◌,
}
use zprd.Startup.{
  Call, Program, done, failed, call, ask, of_option, need, need_zero, zero_only, ◌>>=◌, Event,
  execute,
}

-- The events are those of a run that ends in `r`, for some answers of the system.
unfoldable pub Runs {ℓ} : {A : Type ℓ} → Program A → List Event → Option A → Type ℓ
Runs (done a) events r = (events ≡ []) × (r ≡ some a)
Runs failed events r = (events ≡ []) × (r ≡ none)
Runs (call c k) events r =
    (answer : Option ℕ) × (later : List Event) × (events ≡ (c, answer) ∷ later)
    × Runs (k answer) later r

pub execute-Runs {ℓ} :
    {A : Type ℓ} (answers : List (Option ℕ)) (p : Program A)
    → Runs p (execute answers p).0 (execute answers p).1
unfolding execute Runs
execute-Runs answers (done a) = (refl, refl)
execute-Runs answers failed = (refl, refl)
execute-Runs [] (call c k) = (none, (execute [] (k none)).0, refl, execute-Runs [] (k none))
execute-Runs (r ∷ answers) (call c k) =
    (r, (execute answers (k r)).0, refl, execute-Runs answers (k r))

-- A run of a bind that comes to a result is a run of each part.
pub Runs->>= {ℓ κ} :
    {A : Type ℓ} {B : Type κ} (p : Program A) (f : A → Program B) (events : List Event) (b : B)
    → Runs (p >>= f) events (some b)
    → (a : A) × (first second : List Event) × (events ≡ first ++ second)
      × Runs p first (some a)
      × Runs (f a) second (some b)
unfolding Runs ◌>>=◌
Runs->>= (done a) f events b h = (a, [], events, refl, (refl, refl), h)
Runs->>= failed f events b (none_called, h) = ground arith
Runs->>= (call c k) f events b (answer, later, h, r) =
    let (a, first, second, split, p, q) = Runs->>= (k answer) f later b r in
    (
      a,
      (c, answer) ∷ first,
      second,
      h ∙ ap (λ es. (c, answer) ∷ es) split,
      (answer, first, refl, p),
      q,
    )

-- Any run of a bind: the first part fails, or both parts run.
pub Runs-bind_cases {ℓ κ} :
    {A : Type ℓ} {B : Type κ} (p : Program A) (f : A → Program B) (events : List Event)
    (r : Option B)
    → Runs (p >>= f) events r
    → ((r ≡ none) × Runs p events none)
      ⊎ ((a : A) × (first : List Event) × (second : List Event) × (events ≡ first ++ second)
          × Runs p first (some a)
          × Runs (f a) second r)
unfolding Runs ◌>>=◌
Runs-bind_cases (done a) f events r h = inr (a, [], events, refl, (refl, refl), h)
Runs-bind_cases failed f events r (ended, h) = inl (h, (ended, refl))
Runs-bind_cases (call c k) f events r (answer, later, h, rest) =
    elim (Runs-bind_cases (k answer) f later r rest) [
      | inl (none_left, fails) ↦ inl (none_left, (answer, later, h, fails))
      | inr (a, first, second, split, p_runs, f_runs) ↦ inr (
        a,
        (c, answer) ∷ first,
        second,
        h ∙ ap (λ es. (c, answer) ∷ es) split,
        (answer, first, refl, p_runs),
        f_runs,
      )
    ]

pub Runs-ask :
    (c : Call) (events : List Event) (a : Option ℕ)
    → Runs (ask c) events (some a)
    → events ≡ (c, a) ∷ []
unfolding Runs
Runs-ask c events a (answer, later, h, (ended, same)) = cc

pub Runs-of_option {ℓ} :
    {A : Type ℓ} (o : Option A) (events : List Event) (a : A)
    → Runs (of_option o) events (some a)
    → (events ≡ []) × (o ≡ some a)
unfolding Runs
Runs-of_option none events a (ended, same) = ground arith
Runs-of_option (some b) events a (ended, same) = (ended, sym same)

pub Runs-need :
    (c : Call) (events : List Event) (n : ℕ)
    → Runs (need c) events (some n)
    → events ≡ (c, some n) ∷ []
unfolding Runs
Runs-need c events n (none, later, h, (ended, r)) = ground arith
Runs-need c events n (some m, later, h, (ended, r)) = cc

pub Runs-need_zero :
    (c : Call) (events : List Event) (n : ℕ)
    → Runs (need_zero c) events (some n)
    → events ≡ (c, some 0) ∷ []
unfolding Runs
Runs-need_zero c events n (none, later, h, (ended, r)) = ground arith
Runs-need_zero c events n (some zero, later, h, (ended, r)) = h ∙ ap (λ es. (c, some 0) ∷ es) ended
Runs-need_zero c events n (some (suc m), later, h, (ended, r)) = ground arith

-- The same where the first part is one call.
pub Runs-need->>= {ℓ} :
    {B : Type ℓ} (c : Call) (f : ℕ → Program B) (events : List Event) (b : B)
    → Runs (need c >>= f) events (some b)
    → (n : ℕ) × (later : List Event) × (events ≡ (c, some n) ∷ later) × Runs (f n) later (some b)
Runs-need->>= c f events b r =
    let (n, first, later, split, call_runs, rest) = Runs->>= (need c) f events b r in
    (n, later, split ∙ ap (λ es. es ++ later) (Runs-need c first n call_runs), rest)

pub Runs-ask->>= {ℓ} :
    {B : Type ℓ} (c : Call) (f : Option ℕ → Program B) (events : List Event) (b : B)
    → Runs (ask c >>= f) events (some b)
    → (a : Option ℕ) × (later : List Event) × (events ≡ (c, a) ∷ later) × Runs (f a) later (some b)
Runs-ask->>= c f events b r =
    let (a, first, later, split, call_runs, rest) = Runs->>= (ask c) f events b r in
    (a, later, split ∙ ap (λ es. es ++ later) (Runs-ask c first a call_runs), rest)

pub followed :
    {e : Event} {events later rest : List Event}
    → events ≡ e ∷ later
    → later ≡ rest
    → events ≡ e ∷ rest
followed {e = e} h k = h ∙ ap (λ es. e ∷ es) k

-- All calls that the program can make pass the test.
unfoldable pub CallsOnly {ℓ} : {A : Type ℓ} → (Call → Bool) → Program A → Type 0
CallsOnly test (done a) = true ≡ true
CallsOnly test failed = true ≡ true
CallsOnly test (call c k) = (test c ≡ true) × ((r : Option ℕ) → CallsOnly test (k r))

pub CallsOnly->>= {ℓ κ} :
    {A : Type ℓ} {B : Type κ} (test : Call → Bool) (p : Program A) (f : A → Program B)
    → CallsOnly test p
    → ((a : A) → CallsOnly test (f a))
    → CallsOnly test (p >>= f)
unfolding CallsOnly ◌>>=◌
CallsOnly->>= test (done a) f h g = g a
CallsOnly->>= test failed f h g = refl
CallsOnly->>= test (call c k) f (here, below) g =
    (here, λ r. CallsOnly->>= test (k r) f (below r) g)

pub CallsOnly-done {ℓ} : {A : Type ℓ} (test : Call → Bool) (a : A) → CallsOnly test (done a)
unfolding CallsOnly
CallsOnly-done test a = refl

pub CallsOnly-failed {ℓ} : (A : Type ℓ) (test : Call → Bool) → CallsOnly {A = A} test failed
unfolding CallsOnly
CallsOnly-failed A test = refl

pub all_of-calls {ℓ} :
    {A : Type ℓ} (test : Call → Bool) (p : Program A) (events : List Event) (r : Option A)
    → CallsOnly test p
    → Runs p events r
    → all_of (λ e. test e.0) events ≡ true
unfolding CallsOnly Runs
all_of-calls test (done a) events r h (ended, same) = rw ended refl
all_of-calls test failed events r h (ended, same) = rw ended refl
all_of-calls test (call c k) events r (here, below) (answer, later, split, rest) =
    rw (split, here) (all_of-calls test (k answer) later r (below answer) rest)

pub CallsOnly-of_option {ℓ} :
    {A : Type ℓ} (test : Call → Bool) (o : Option A) → CallsOnly test (of_option o)
unfolding CallsOnly
CallsOnly-of_option test none = refl
CallsOnly-of_option test (some a) = refl

pub CallsOnly-need : (test : Call → Bool) (c : Call) → test c ≡ true → CallsOnly test (need c)
unfolding CallsOnly
CallsOnly-need test c h = (h, λ r. CallsOnly-of_option test r)

CallsOnly-zero_only : (test : Call → Bool) (r : Option ℕ) → CallsOnly test (zero_only r)
unfolding CallsOnly
CallsOnly-zero_only test none = refl
CallsOnly-zero_only test (some zero) = refl
CallsOnly-zero_only test (some (suc n)) = refl

pub CallsOnly-need_zero :
    (test : Call → Bool) (c : Call) → test c ≡ true → CallsOnly test (need_zero c)
unfolding CallsOnly
CallsOnly-need_zero test c h = (h, CallsOnly-zero_only test)

pub CallsOnly-ask : (test : Call → Bool) (c : Call) → test c ≡ true → CallsOnly test (ask c)
unfolding CallsOnly
CallsOnly-ask test c h = (h, λ r. refl)

pub CallsOnly-option {ℓ κ} :
    {A : Type ℓ} {B : Type κ} (test : Call → Bool) (o : Option A) (p : Program B)
    (f : A → Program B)
    → CallsOnly test p
    → ((a : A) → CallsOnly test (f a))
    → CallsOnly test (elim o [ none ↦ p | some a ↦ f a ])
CallsOnly-option test none p f h g = h
CallsOnly-option test (some a) p f h g = g a

pub CallsOnly-if {ℓ} :
    {A : Type ℓ} (test : Call → Bool) (b : Bool) (p q : Program A)
    → CallsOnly test p
    → CallsOnly test q
    → CallsOnly test (if b then p else q)
CallsOnly-if test true p q h g = h
CallsOnly-if test false p q h g = g

pub CallsOnly-map {ℓ} :
    {A : Type ℓ} (test other : Call → Bool) (p : Program A)
    → ((c : Call) → test c ≡ true → other c ≡ true)
    → CallsOnly test p
    → CallsOnly other p
unfolding CallsOnly
CallsOnly-map test other (done a) g h = refl
CallsOnly-map test other failed g h = refl
CallsOnly-map test other (call c k) g (here, below) =
    (g c here, λ r. CallsOnly-map test other (k r) g (below r))
