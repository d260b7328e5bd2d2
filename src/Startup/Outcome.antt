-- ===== src/Startup/Outcome.antt =====
-- How a start can end, by the commands of the configuration and those of the route hooks.
use zprd.Prelude.{
  ℕ, ◌≡◌, ◌⊎◌, inl, inr, refl, ap, sym, ◌∙◌, List, [], ◌++◌, Option, none, some, arith, map, codes,
  true, subst,
}
use mathlib.Core.List.{append_assoc, append-nil}
use zprd.Config.{Settings}
use zprd.Router.Timers.{connect_all}
use zprd.Startup.{Call, system, chdir, time, Program, of_option, ◌>>=◌, Event}
use zprd.Startup.CallKinds.{is_harmless, CallsOnly-start_servers}
use zprd.Startup.Commands.{
  commands, succeeded, commands-++, Follows, stopped, Follows-++, Follows-behind, no_command,
  RunsCommands, RunsCommands-no_command, commands-no_command, map-++,
}
use zprd.Startup.Hooks.{run_hooks}
use zprd.Startup.HookRuns.{RunsAll, RunsAll-run_hooks, hook_commands, new_hooks, connect_all-hooks}
use zprd.Startup.Init.{Host, Interface, resolve, set_up_peers, fresh_router, clock}
use zprd.Startup.Runs.{Runs, Runs-bind_cases, CallsOnly, CallsOnly-map, CallsOnly-ask, all_of-calls}

-- Either the start fails, and the commands that it ran are the first of `ts`, or it ran all of
-- `ts` with the result 0 and then all of `hooks` with any result.
abbrev pub Outcome {ℓ} :
    {A : Type ℓ} → Option A → List (List ℕ) → List (List ℕ) → List (List ℕ × Option ℕ) → Type ℓ
Outcome r ts hooks log =
    ((r ≡ none) × Follows ts log)
    ⊎ ((hook_log : List (List ℕ × Option ℕ)) × (log ≡ map succeeded ts ++ hook_log)
        × (map (λ c. c.0) hook_log ≡ hooks))

unfoldable pub RunsBoth {ℓ} : {A : Type ℓ} → Program A → List (List ℕ) → List (List ℕ) → Type ℓ
RunsBoth {A = A} p ts hooks =
    (events : List Event) (r : Option A) → Runs p events r → Outcome r ts hooks (commands events)

Outcome-behind {ℓ} :
    {A : Type ℓ} (r : Option A) (ts us hooks : List (List ℕ)) (log : List (List ℕ × Option ℕ))
    → Outcome r us hooks log
    → Outcome r (ts ++ us) hooks (map succeeded ts ++ log)
Outcome-behind r ts us hooks log (inl (fails, h)) = inl (fails, Follows-behind ts us log h)
Outcome-behind r ts us hooks log (inr (hook_log, h, k)) = inr (
  hook_log,
  ap (λ xs. map succeeded ts ++ xs) h
      ∙ sym (append_assoc (map succeeded ts) (map succeeded us) hook_log)
      ∙ ap (λ xs. xs ++ hook_log) (sym (map-++ ts us)),
  k,
)

pub RunsBoth->>= {ℓ κ} :
    {A : Type ℓ} {B : Type κ} (p : Program A) (f : A → Program B) (ts us hooks : List (List ℕ))
    → RunsCommands p ts
    → ((a : A) → RunsBoth (f a) us hooks)
    → RunsBoth (p >>= f) (ts ++ us) hooks
unfolding RunsBoth RunsCommands
RunsBoth->>= p f ts us hooks h g events r runs = elim (Runs-bind_cases p f events r runs) [
  | inl (fails, p_runs) ↦ inl (fails, Follows-++ ts us (commands events) (h events none p_runs))
  | inr (a, first, second, split, p_runs, f_runs) ↦
      rw (split, commands-++ first second, h first (some a) p_runs)
        (Outcome-behind r ts us hooks (commands second) (g a second r f_runs))
]

pub RunsBoth-done_step {ℓ κ} :
    {A : Type ℓ} {B : Type κ} (a : A) (f : A → Program B) (us hooks : List (List ℕ))
    → RunsBoth (f a) us hooks
    → RunsBoth (of_option (some a) >>= f) us hooks
unfolding ◌>>=◌
RunsBoth-done_step a f us hooks h = h

pub RunsBoth-failed_step {ℓ κ} :
    {A : Type ℓ} {B : Type κ} (f : A → Program B) (hooks : List (List ℕ))
    → RunsBoth (of_option none >>= f) [] hooks
unfolding ◌>>=◌ RunsBoth Runs
RunsBoth-failed_step f hooks events r (ended, fails) =
    inl (fails, stopped [] [] refl (ap commands ended))

-- Programs of hooks, before a program without commands.
RunsBoth-hooks {ℓ κ} :
    {A : Type ℓ} {B : Type κ} (p : Program A) (f : A → Program B) (hooks : List (List ℕ))
    → RunsAll p hooks
    → ((a : A) → CallsOnly no_command (f a))
    → RunsBoth (p >>= f) [] hooks
unfolding RunsBoth RunsAll
RunsBoth-hooks p f hooks h silent events r runs = elim (Runs-bind_cases p f events r runs) [
  | inl (fails, p_runs) ↦ let (n, ends) = (h events none p_runs).1 in ground (arith, ends)
  | inr (a, first, second, split, p_runs, f_runs) ↦
      let (run, _) = h first (some a) p_runs in
      let quiet =
        commands-no_command second (all_of-calls no_command (f a) second r (silent a) f_runs) in
      inr (
        commands first,
        ap commands split
            ∙ commands-++ first second
            ∙ ap (λ xs. commands first ++ xs) quiet
            ∙ append-nil (commands first),
        run,
      )
]

-- The commands of the route hooks for the configured remotes.
abbrev pub hook_plan : Host → Settings → List (List ℕ)
hook_plan host s =
    hook_commands host.inet_ntop s.route_hooks (new_hooks (resolve host s) s.data_port s.remotes)

pub harmless_no_command : (c : Call) → is_harmless c ≡ true → no_command c ≡ true
harmless_no_command (system t) h = ground arith
harmless_no_command _ h = refl

pub RunsBoth-set_up_peers :
    (host : Host) (s : Settings) (device : Interface)
    → RunsBoth (set_up_peers host s device) [] (hook_plan host s)
unfolding set_up_peers
RunsBoth-set_up_peers host s device =
    RunsBoth->>= _ _ [] [] _
      (RunsCommands-no_command _ (CallsOnly-ask no_command (chdir (codes "/")) refl))
      (λ _.
        RunsBoth->>= _ _ [] [] _ (RunsCommands-no_command _ (CallsOnly-ask no_command time refl))
          (λ now.
            let router =
              connect_all (resolve host s) host.use_count s.remotes 0
                (fresh_router s device (clock now)) in
            let run = run_hooks host.inet_ntop s.route_hooks router.hooks_run in
            RunsBoth-hooks run _ _
              (subst (λ hs. RunsAll run (hook_commands host.inet_ntop s.route_hooks hs))
                (connect_all-hooks (resolve host s) host.use_count s.remotes 0
                  (fresh_router s device (clock now)))
                (RunsAll-run_hooks host.inet_ntop s.route_hooks router.hooks_run))
              (λ _.
                CallsOnly-map is_harmless no_command _ harmless_no_command
                  (CallsOnly-start_servers host s device router))))
