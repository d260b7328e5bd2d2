-- ===== src/Startup/HookRuns.antt =====
-- The commands of the route hooks that a start runs.
use zprd.Prelude.{
  ℕ, suc, ◌≡◌, inl, inr, ap, sym, ◌∙◌, List, [], ◌∷◌, ◌++◌, false, Option, none, some, arith, map,
  is_empty, Option-cases, if◌then◌else◌, ◌==◌,
}
use mathlib.Core.List.{append_assoc, append-nil, map-append}
use zprd.Oafa.{SockAddr, gp_port, store_port}
use zprd.Bytes.{htons}
use zprd.Peer.{Ptr, new_config_peer, set_port_if_unset}
use zprd.Router.{Router, HookCall, dest_hook, peer_hook, make_peer}
use zprd.Router.Timers.{connect2server, connect_all}
use zprd.Startup.{system, Program, done, ask, ◌>>=◌, Event}
use zprd.Startup.Commands.{commands, commands-++}
use zprd.Startup.Hooks.{run_route_hooks_intern, run_dest_hooks, run_peer_hooks, run_hooks}
use zprd.Startup.Runs.{Runs, Runs-bind_cases}
use zprd.Text.Table.{route_args, peer_args}

abbrev pub texts : List Event → List (List ℕ)
texts events = map (λ c. c.0) (commands events)

-- The program comes to its end whatever the system answers, and runs just these commands.
unfoldable pub RunsAll {ℓ} : {A : Type ℓ} → Program A → List (List ℕ) → Type ℓ
RunsAll {A = A} p ts =
    (events : List Event) (r : Option A)
    → Runs p events r
    → (texts events ≡ ts) × ((a : A) × (r ≡ some a))

texts-append : (e1 e2 : List Event) → texts (e1 ++ e2) ≡ texts e1 ++ texts e2
texts-append e1 e2 =
    ap (map (λ c. c.0)) (commands-++ e1 e2) ∙ map-append (λ c. c.0) (commands e1) (commands e2)

RunsAll-done : (n : ℕ) → RunsAll (done n) []
unfolding RunsAll Runs
RunsAll-done n events r (ended, result) = (ap texts ended, (n, result))

RunsAll-system : (t : List ℕ) → RunsAll (ask (system t)) (t ∷ [])
unfolding RunsAll Runs
RunsAll-system t events r (answer, later, h, (ended, result)) =
    (ap texts h ∙ ap (λ es. t ∷ texts es) ended, (answer, result))

RunsAll->>= {ℓ κ} :
    {A : Type ℓ} {B : Type κ} (p : Program A) (f : A → Program B) (ts us : List (List ℕ))
    → RunsAll p ts
    → ((a : A) → RunsAll (f a) us)
    → RunsAll (p >>= f) (ts ++ us)
unfolding RunsAll
RunsAll->>= p f ts us h k events r runs = elim (Runs-bind_cases p f events r runs) [
  | inl (fails, p_runs) ↦ let (n, ends) = (h events none p_runs).1 in ground (arith, ends)
  | inr (n, first, second, split, p_runs, f_runs) ↦
      let (texts1, _) = h first (some n) p_runs in
      let (texts2, ends) = k n second r f_runs in
      (
        ap texts split
            ∙ texts-append first second
            ∙ ap (λ xs. xs ++ texts second) texts1
            ∙ ap (λ xs. ts ++ xs) texts2,
        ends,
      )
]

-- The commands for the calls of run_route_hooks.
module _ (inet_ntop : ℕ → List ℕ → List ℕ) (route_hooks : List (List ℕ)) where
  abbrev pub hook_args : HookCall → List ℕ
  hook_args (dest_hook is_deleted dest) = route_args inet_ntop is_deleted dest
  hook_args (peer_hook is_deleted saddr) = peer_args inet_ntop is_deleted saddr

  abbrev pub hook_commands : List HookCall → List (List ℕ)
  hook_commands [] = []
  hook_commands (h ∷ hs) = map (λ i. i ++ hook_args h) route_hooks ++ hook_commands hs

RunsAll-intern :
    (hooks : List (List ℕ)) (args : List ℕ)
    → RunsAll (run_route_hooks_intern hooks args) (map (λ i. i ++ args) hooks)
unfolding run_route_hooks_intern
RunsAll-intern [] args = RunsAll-done 0
RunsAll-intern (i ∷ hooks) args =
    RunsAll->>= _ _ ((i ++ args) ∷ []) _ (RunsAll-system (i ++ args))
      (λ _. RunsAll-intern hooks args)

RunsAll-guarded :
    (hooks : List (List ℕ)) (args : List ℕ)
    → RunsAll
        (if is_empty hooks then done 0 else run_route_hooks_intern hooks args)
        (map (λ i. i ++ args) hooks)
RunsAll-guarded [] args = RunsAll-done 0
RunsAll-guarded (i ∷ hooks) args = RunsAll-intern (i ∷ hooks) args

pub RunsAll-run_hooks :
    (inet_ntop : ℕ → List ℕ → List ℕ) (hooks : List (List ℕ)) (hs : List HookCall)
    → RunsAll (run_hooks inet_ntop hooks hs) (hook_commands inet_ntop hooks hs)
unfolding run_hooks run_dest_hooks run_peer_hooks
RunsAll-run_hooks inet_ntop hooks [] = RunsAll-done 0
RunsAll-run_hooks inet_ntop hooks (dest_hook is_deleted dest ∷ hs) =
    RunsAll->>= _ _ _ _ (RunsAll-guarded hooks _) (λ _. RunsAll-run_hooks inet_ntop hooks hs)
RunsAll-run_hooks inet_ntop hooks (peer_hook is_deleted saddr ∷ hs) =
    RunsAll->>= _ _ _ _ (RunsAll-guarded hooks _) (λ _. RunsAll-run_hooks inet_ntop hooks hs)

-- The address of a configured peer, with the port of the configuration if it has none.
abbrev pub configured_addr : ℕ → SockAddr → SockAddr
configured_addr data_port remote = elim (gp_port remote) [
  | some old ↦ if old == 0 then store_port remote (htons data_port) else remote
  | none ↦ remote
]

-- The hooks for the configured remotes that can be resolved.
abbrev pub new_hooks : (List ℕ → Option SockAddr) → ℕ → List (List ℕ) → List HookCall
new_hooks resolve data_port [] = []
new_hooks resolve data_port (r ∷ rs) = elim (resolve r) [
  | none ↦ new_hooks resolve data_port rs
  | some remote ↦
      peer_hook false (configured_addr data_port remote) ∷ new_hooks resolve data_port rs
]

set_port_if_unset-saddr :
    (port now cent : ℕ) (remote : SockAddr)
    → (set_port_if_unset port (new_config_peer now remote cent)).saddr ≡ configured_addr port remote
unfolding set_port_if_unset
set_port_if_unset-saddr port now cent remote = elim (Option-cases (gp_port remote)) [
  | inl no_port ↦ ground (arith, no_port)
  | inr (old, has_port) ↦ ground (arith, has_port)
]

pub connect_all-hooks :
    (resolve : List ℕ → Option SockAddr) (use_count : Ptr → ℕ) (names : List (List ℕ)) (i : ℕ)
    (s : Router)
    → (connect_all resolve use_count names i s).hooks_run
      ≡ s.hooks_run ++ new_hooks resolve s.data_port names
unfolding connect_all connect2server make_peer
connect_all-hooks resolve use_count [] i s = sym (append-nil s.hooks_run)
connect_all-hooks resolve use_count (n ∷ names) i s =
    let next =
      connect_all-hooks resolve use_count names (suc i) (connect2server resolve use_count n i s) in
    elim (Option-cases (resolve n)) [
      | inl unknown ↦ ground (arith, unknown, next)
      | inr (remote, found) ↦
          let h = peer_hook false (configured_addr s.data_port remote) in
          let same = set_port_if_unset-saddr s.data_port s.last_time i remote in
          let rest = new_hooks resolve s.data_port names in
          ground (arith, found, next, same, append_assoc s.hooks_run (h ∷ []) rest)
    ]
