-- ===== src/Startup/Commands.antt =====
-- The commands that init_all runs for a configuration.
use zprd.Prelude.{
  ℕ, zero, suc, ◌≡◌, ◌≢◌, ◌∙◌, inl, inr, refl, ap, sym, subst, List, [], ◌∷◌, ◌++◌, Bool, true,
  false, Option, none, some, arith, map, is_empty, Bool-cases, all_of,
}
use mathlib.Core.List.{append_assoc, append-nil}
use zprd.Config.{Settings}
use zprd.Startup.{
  Call, system, getifaddrs, freeifaddrs, Program, done, of_option, zero_only, need_zero, ◌>>=◌,
  Event,
}
use zprd.Startup.Runs.{
  Runs, Runs-bind_cases, CallsOnly, all_of-calls, CallsOnly-done, CallsOnly-failed, CallsOnly-need,
  CallsOnly-ask, CallsOnly-if,
}
use zprd.Startup.Init.{
  Host, set_up_interface, set_addrs, run_all, zs_devstr, flush_command, addr_command, mtu_command,
  up_command, IfAddr, local_addrs,
}
use zprd.Startup.CallKinds.{CallsOnly-tun_alloc}

-- The commands that were run, with their results.
abbrev command_of : Call → Option (List ℕ)
command_of (system t) = some t
command_of _ = none

abbrev pub commands : List Event → List (List ℕ × Option ℕ)
commands [] = []
commands ((c, r) ∷ events) = elim (command_of c) [
  | none ↦ commands events
  | some t ↦ (t, r) ∷ commands events
]

-- The commands for a configuration.
abbrev pub plan : Settings → List (List ℕ)
plan s =
    flush_command s.iface
    ∷ (map (addr_command s.iface) s.addrs
        ++ (mtu_command s.iface ∷ up_command s.iface ∷ map (λ i. i ++ zs_devstr s.iface) s.hooks))

abbrev pub succeeded : List ℕ → List ℕ × Option ℕ
succeeded t = (t, some 0)

pub commands-++ : (e1 e2 : List Event) → commands (e1 ++ e2) ≡ commands e1 ++ commands e2
commands-++ [] e2 = refl
commands-++ ((c, r) ∷ e1) e2 =
    elim (command_of c)
      as (λ o.
        elim o [ none ↦ commands (e1 ++ e2) | some t ↦ (t, r) ∷ commands (e1 ++ e2) ]
        ≡ elim o [ none ↦ commands e1 | some t ↦ (t, r) ∷ commands e1 ] ++ commands e2) [
          | none ↦ commands-++ e1 e2
          | some t ↦ ap (λ es. (t, r) ∷ es) (commands-++ e1 e2)
        ]

pub map-++ :
    (ts us : List (List ℕ)) → map succeeded (ts ++ us) ≡ map succeeded ts ++ map succeeded us
map-++ [] us = refl
map-++ (t ∷ ts) us = ap (λ es. succeeded t ∷ es) (map-++ ts us)

-- The commands that were run are the first of the list, in order; all succeeded, or all but the
-- last, behind which no command is run.
pub data Follows (ts : List (List ℕ)) (log : List (List ℕ × Option ℕ)) : Type 0 where
  stopped :
      (before after : List (List ℕ))
      → ts ≡ before ++ after
      → log ≡ map succeeded before
      → Follows ts log
  refused :
      (before : List (List ℕ)) (t : List ℕ) (after : List (List ℕ)) (r : Option ℕ)
      → ts ≡ before ++ (t ∷ after)
      → r ≢ some 0
      → log ≡ map succeeded before ++ ((t, r) ∷ [])
      → Follows ts log

pub Follows-++ :
    (ts us : List (List ℕ)) (log : List (List ℕ × Option ℕ))
    → Follows ts log
    → Follows (ts ++ us) log
Follows-++ ts us log (stopped before after h k) =
    stopped before (after ++ us) (ap (λ xs. xs ++ us) h ∙ append_assoc before after us) k
Follows-++ ts us log (refused before t after r h bad k) =
    refused before t (after ++ us) r (ap (λ xs. xs ++ us) h ∙ append_assoc before (t ∷ after) us)
      bad k

pub Follows-behind :
    (ts us : List (List ℕ)) (log : List (List ℕ × Option ℕ))
    → Follows us log
    → Follows (ts ++ us) (map succeeded ts ++ log)
Follows-behind ts us log (stopped before after h k) =
    stopped (ts ++ before) after (ap (λ xs. ts ++ xs) h ∙ sym (append_assoc ts before after))
      (ap (λ xs. map succeeded ts ++ xs) k ∙ sym (map-++ ts before))
Follows-behind ts us log (refused before t after r h bad k) =
    refused (ts ++ before) t after r
      (ap (λ xs. ts ++ xs) h ∙ sym (append_assoc ts before (t ∷ after))) bad
      (ap (λ xs. map succeeded ts ++ xs) k
        ∙ sym (append_assoc (map succeeded ts) (map succeeded before) ((t, r) ∷ []))
        ∙ ap (λ xs. xs ++ ((t, r) ∷ [])) (sym (map-++ ts before)))

-- A run with a result ran all the commands, a failed one the first of them.
abbrev pub Ran {ℓ} : {A : Type ℓ} → Option A → List (List ℕ) → List (List ℕ × Option ℕ) → Type 0
Ran none ts log = Follows ts log
Ran (some a) ts log = log ≡ map succeeded ts

unfoldable pub RunsCommands {ℓ} : {A : Type ℓ} → Program A → List (List ℕ) → Type ℓ
RunsCommands {A = A} p ts =
    (events : List Event) (r : Option A) → Runs p events r → Ran r ts (commands events)

Ran-behind {ℓ} :
    {A : Type ℓ} (r : Option A) (ts us : List (List ℕ)) (log : List (List ℕ × Option ℕ))
    → Ran r us log
    → Ran r (ts ++ us) (map succeeded ts ++ log)
Ran-behind none ts us log h = Follows-behind ts us log h
Ran-behind (some a) ts us log h = ap (λ xs. map succeeded ts ++ xs) h ∙ sym (map-++ ts us)

pub RunsCommands->>= {ℓ κ} :
    {A : Type ℓ} {B : Type κ} (p : Program A) (f : A → Program B) (ts us : List (List ℕ))
    → RunsCommands p ts
    → ((a : A) → RunsCommands (f a) us)
    → RunsCommands (p >>= f) (ts ++ us)
unfolding RunsCommands
RunsCommands->>= p f ts us h g events r runs = elim (Runs-bind_cases p f events r runs) [
  | inl (fails, p_runs) ↦ rw fails (Follows-++ ts us (commands events) (h events none p_runs))
  | inr (a, first, second, split, p_runs, f_runs) ↦
      rw (split, commands-++ first second, h first (some a) p_runs)
        (Ran-behind r ts us (commands second) (g a second r f_runs))
]

-- The program of a step that is already done.
pub RunsCommands-done_step {ℓ κ} :
    {A : Type ℓ} {B : Type κ} (a : A) (f : A → Program B) (us : List (List ℕ))
    → RunsCommands (f a) us
    → RunsCommands (of_option (some a) >>= f) us
unfolding ◌>>=◌
RunsCommands-done_step a f us h = h

Ran-nothing {ℓ} :
    {A : Type ℓ} (r : Option A) (events : List Event)
    → commands events ≡ []
    → Ran r [] (commands events)
Ran-nothing none events h = stopped [] [] refl h
Ran-nothing (some a) events h = h

module _ {ℓ} {A : Type ℓ} where
  pub RunsCommands-done : (a : A) → RunsCommands (done a) []
  unfolding Runs RunsCommands
  RunsCommands-done a events r (ended, _) = Ran-nothing r events (ap commands ended)

  pub RunsCommands-of_option : (o : Option A) → RunsCommands (of_option o) []
  unfolding Runs RunsCommands
  RunsCommands-of_option none events r (ended, _) = Ran-nothing r events (ap commands ended)
  RunsCommands-of_option (some a) events r (ended, _) = Ran-nothing r events (ap commands ended)

Ran-one :
    (t : List ℕ) (answer : Option ℕ) (later events : List Event) (r : Option ℕ)
    → events ≡ (system t, answer) ∷ later
    → Runs (zero_only answer) later r
    → Ran r (t ∷ []) (commands events)
unfolding Runs
Ran-one t none later events r h (ended, fails) =
    rw (fails, h, ended) (refused [] t [] none refl (ground arith) refl)
Ran-one t (some zero) later events r h (ended, ends) = rw (ends, h, ended) refl
Ran-one t (some (suc n)) later events r h (ended, fails) =
    rw (fails, h, ended) (refused [] t [] (some (suc n)) refl (ground arith) refl)

RunsCommands-need_zero : (t : List ℕ) → RunsCommands (need_zero (system t)) (t ∷ [])
unfolding RunsCommands Runs
RunsCommands-need_zero t events r (answer, later, h, rest) = Ran-one t answer later events r h rest

RunsCommands-run_all : (ts : List (List ℕ)) → RunsCommands (run_all ts) ts
unfolding run_all
RunsCommands-run_all [] = RunsCommands-done 0
RunsCommands-run_all (t ∷ ts) =
    RunsCommands->>= (need_zero (system t)) (λ _. run_all ts) (t ∷ []) ts (RunsCommands-need_zero t)
      (λ _. RunsCommands-run_all ts)

-- A program that calls no command.
abbrev pub no_command : Call → Bool
no_command c = elim (command_of c) [ none ↦ true | some _ ↦ false ]

is_none : (o : Option (List ℕ)) → elim o [ none ↦ true | some _ ↦ false ] ≡ true → o ≡ none
is_none none h = refl
is_none (some t) h = ground arith

all_of_parts :
    (events : List Event) (c : Call) (r : Option ℕ)
    → all_of (λ e. no_command e.0) ((c, r) ∷ events) ≡ true
    → (command_of c ≡ none) × (all_of (λ e. no_command e.0) events ≡ true)
all_of_parts events c r h = elim (Bool-cases (no_command c)) [
  | inl passes ↦ (is_none (command_of c) passes, ground arith)
  | inr fails ↦ ground arith
]

pub commands-no_command :
    (events : List Event) → all_of (λ e. no_command e.0) events ≡ true → commands events ≡ []
commands-no_command [] h = refl
commands-no_command ((c, r) ∷ events) h =
    let (none_run, later) = all_of_parts events c r h in
    rw (none_run, commands) (commands-no_command events later)

pub RunsCommands-no_command {ℓ} :
    {A : Type ℓ} (p : Program A) → CallsOnly no_command p → RunsCommands p []
unfolding RunsCommands
RunsCommands-no_command p only events r runs =
    Ran-nothing r events (commands-no_command events (all_of-calls no_command p events r only runs))

pub RunsCommands-failed_step {ℓ κ} :
    {A : Type ℓ} {B : Type κ} (f : A → Program B) → RunsCommands (of_option none >>= f) []
unfolding ◌>>=◌
RunsCommands-failed_step {B = B} f = RunsCommands-no_command _ (CallsOnly-failed B no_command)

RunsCommands-set_addrs :
    (ifas : List IfAddr) (s : Settings)
    → RunsCommands (set_addrs ifas s) (map (addr_command s.iface) s.addrs)
unfolding set_addrs
RunsCommands-set_addrs ifas s = go s.addrs refl
  where
    go :
        (addrs : List (List ℕ))
        → s.addrs ≡ addrs
        → RunsCommands (set_addrs ifas s) (map (addr_command s.iface) s.addrs)
    go [] h = rw h (RunsCommands-done [])
    go (x ∷ xs) h = rw h (
        subst (RunsCommands _) (append-nil (map (addr_command s.iface) (x ∷ xs))) (
          RunsCommands->>= _ _ _ [] (RunsCommands-run_all (map (addr_command s.iface) (x ∷ xs)))
            (λ _.
              RunsCommands->>= _ _ [] []
                (RunsCommands-no_command _ (CallsOnly-need no_command getifaddrs refl))
                (λ _.
                  RunsCommands->>= _ _ [] [] (RunsCommands-of_option (local_addrs s.iface ifas))
                    (λ locals.
                      RunsCommands->>= _ _ [] []
                        (RunsCommands-no_command _ (CallsOnly-ask no_command freeifaddrs refl))
                        (λ _. RunsCommands-no_command _ (
                          CallsOnly-if no_command (is_empty locals) _ _ (CallsOnly-failed _ _)
                            (CallsOnly-done _ _))))))))

pub RunsCommands-set_up_interface :
    (host : Host) (s : Settings) → RunsCommands (set_up_interface host s) (plan s)
unfolding set_up_interface
RunsCommands-set_up_interface host s =
    subst (RunsCommands _)
      (ap
        (λ hooks.
          flush_command s.iface
          ∷ (map (addr_command s.iface) s.addrs
              ++ (mtu_command s.iface ∷ up_command s.iface ∷ hooks)))
        (append-nil _))
      (RunsCommands->>= _ _ (_ ∷ []) _ (RunsCommands-need_zero (flush_command s.iface)) (λ _.
        RunsCommands->>= _ _ _ _ (RunsCommands-set_addrs host.if_addrs s) (λ locals.
          RunsCommands->>= _ _ [] _ (RunsCommands-of_option _) (λ exported.
            RunsCommands->>= _ _ [] _ (RunsCommands-of_option _) (λ blocked.
              RunsCommands->>= _ _ (_ ∷ []) _ (RunsCommands-need_zero (mtu_command s.iface)) (λ _.
                RunsCommands->>= _ _ [] _
                  (RunsCommands-no_command _
                    (CallsOnly-tun_alloc no_command host.tun_name _ refl (λ _. refl) (λ _. refl)))
                  (λ tun. RunsCommands->>= _ _ [] _ (RunsCommands-of_option tun) (λ device.
                    RunsCommands->>= _ _ (_ ∷ []) _ (RunsCommands-need_zero (up_command s.iface))
                      (λ _.
                        RunsCommands->>= _ _ _ [] (RunsCommands-run_all _)
                          (λ _. RunsCommands-done _))))))))))
