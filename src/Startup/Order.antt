-- ===== src/Startup/Order.antt =====
-- What a start that comes to its end has called, and in which order.
use zprd.Prelude.{
  ℕ, ◌≡◌, ◌⊎◌, inl, inr, refl, ap, sym, ◌∙◌, subst, List, [], ◌∷◌, ◌++◌, true, Option, some, map,
  is_empty, all_of, arith,
}
use mathlib.Core.List.{append_assoc}
use zprd.Config.{Settings, read_config}
use zprd.Startup.{
  read_file, setgroups, setregid, setreuid, getpwnam, getgrnam, of_option, Event, execute,
}
use zprd.Startup.HookRuns.{texts}
use zprd.Startup.Outcome.{Outcome, RunsBoth, RunsBoth-set_up_peers, hook_plan}
use zprd.Startup.Runs.{
  Runs, Runs->>=, Runs-need->>=, Runs-ask->>=, followed, Runs-of_option, Runs-need, execute-Runs,
  all_of-calls,
}
use zprd.Startup.Files.{redirect_stdin}
use zprd.Startup.Privileges.{drop_privileges, nogroup}
use zprd.Startup.Init.{Host, Started, init_all, set_up_interface}
use zprd.Startup.CallKinds.{
  is_inner, is_outer, CallsOnly-redirect_stdin, CallsOnly-set_up_interface, CallsOnly-set_up_peers,
  all_of-++,
}
use zprd.Startup.Commands.{
  commands, plan, succeeded, commands-++, no_command, RunsCommands, RunsCommands-no_command,
  RunsCommands-set_up_interface,
}

-- The calls by which the daemon leaves root.
abbrev pub drop_events : List ℕ → ℕ → ℕ → Option ℕ → ℕ → ℕ → List Event
drop_events user uid gid groups m n =
    (getpwnam user, some uid)
    ∷ (getgrnam nogroup, some gid)
    ∷ (setgroups gid, groups)
    ∷ (setregid gid gid, some m)
    ∷ (setreuid uid uid, some n)
    ∷ []

abbrev pub HasDropped : List ℕ → List Event → Type 0
HasDropped user events =
    ((is_empty user ≡ true) × (events ≡ []))
    ⊎ ((uid : ℕ) × (gid : ℕ) × (groups : Option ℕ) × (m : ℕ) × (n : ℕ) × (events
          ≡ drop_events user uid gid groups m n))

Runs-drop_privileges :
    (user : List ℕ) (events : List Event) (n : ℕ)
    → Runs (drop_privileges user) events (some n)
    → HasDropped user events
unfolding drop_privileges Runs
Runs-drop_privileges [] events n (ended, r) = inl (refl, ended)
Runs-drop_privileges (c ∷ cs) events n r =
    let user = c ∷ cs in
    let (uid, e1, h1, r1) = Runs-need->>= (getpwnam user) _ events n r in
    let (gid, e2, h2, r2) = Runs-need->>= (getgrnam nogroup) _ e1 n r1 in
    let (groups, e3, h3, r3) = Runs-ask->>= (setgroups gid) _ e2 n r2 in
    let (m, e4, h4, r4) = Runs-need->>= (setregid gid gid) _ e3 n r3 in
    let h5 = Runs-need (setreuid uid uid) e4 n r4 in
    inr (uid, gid, groups, m, n, followed h1 (followed h2 (followed h3 (followed h4 h5))))

hooks_of_start :
    (host : Host) (s : Settings) (x : Started) (events : List Event)
    → Outcome (some x) [] (hook_plan host s) (commands events)
    → texts events ≡ hook_plan host s
hooks_of_start host s x events (inl (fails, h)) = ground (arith, fails)
hooks_of_start host s x events (inr (hook_log, h, k)) = ap (map (λ c. c.0)) h ∙ k

init_all_parts :
    (host : Host) (confpath : List ℕ) (events : List Event) (x : Started)
    → Runs (init_all host confpath) events (some x)
    → (s : Settings) × (before : List Event) × (dropped : List Event) × (after : List Event)
      × (read_config host.stoi host.lines ≡ some s)
      × (events ≡ before ++ (dropped ++ after))
      × (commands before ≡ map succeeded (plan s))
      × (all_of (λ e. is_inner e.0) before ≡ true)
      × HasDropped s.run_as_user dropped
      × (all_of (λ e. is_outer e.0) after ≡ true)
      × (texts after ≡ hook_plan host s)
unfolding init_all RunsCommands RunsBoth
init_all_parts host confpath events x r =
    let (closed, e1, es1, h1, stdin_runs, r1) = Runs->>= redirect_stdin _ events x r in
    let (n, es2, h2, r2) = Runs-need->>= (read_file confpath) _ es1 x r1 in
    let (s, e3, es3, h3, file, r3) =
      Runs->>= (of_option (read_config host.stoi host.lines)) _ es2 x r2 in
    let (no_call, settings) = Runs-of_option _ e3 s file in
    let (device, e4, es4, h4, interface_runs, r4) = Runs->>= (set_up_interface host s) _ es3 x r3 in
    let (m, e5, es5, h5, drop_runs, r5) = Runs->>= (drop_privileges s.run_as_user) _ es4 x r4 in
    let before = e1 ++ ((read_file confpath, some n) ∷ e4) in
    let stdin_inner = CallsOnly-redirect_stdin is_inner refl (λ _. refl) (λ _. refl) in
    let stdin_silent = CallsOnly-redirect_stdin no_command refl (λ _. refl) (λ _. refl) in
    (
      s,
      before,
      e5,
      es5,
      settings,
      (h1
          ∙ ap (λ es. e1 ++ es)
              (followed h2 (h3 ∙ ap (λ es. es ++ es3) no_call ∙ h4 ∙ ap (λ es. e4 ++ es) h5))
          ∙ sym (append_assoc e1 ((read_file confpath, some n) ∷ e4) (e5 ++ es5))),
      (commands-++ e1 ((read_file confpath, some n) ∷ e4)
          ∙ ap (λ cs. cs ++ commands e4)
              (RunsCommands-no_command _ stdin_silent e1 (some closed) stdin_runs)
          ∙ RunsCommands-set_up_interface host s e4 (some device) interface_runs),
      all_of-++ (λ e. is_inner e.0) e1 _
          (all_of-calls is_inner _ e1 (some closed) stdin_inner stdin_runs)
          (all_of-calls is_inner _ e4 (some device) (CallsOnly-set_up_interface host s)
            interface_runs),
      Runs-drop_privileges s.run_as_user e5 m drop_runs,
      all_of-calls is_outer _ es5 (some x) (CallsOnly-set_up_peers host s device) r5,
      hooks_of_start host s x es5 (RunsBoth-set_up_peers host s device es5 (some x) r5),
    )

-- If init_all comes to its end, then for the settings of the configuration file its calls are in
-- three parts. In the first part the commands for these settings were run, each once, in order and
-- with the result 0, and no socket was made. The second part is the drop of the privileges: it is
-- empty if no user is set; otherwise the user and the group "nogroup" were found, and the group
-- was set before the user. In the third part, with
-- the server sockets and the thread, no file or device is opened and no user or group is set, and
-- the commands are those of the route hooks for the remotes that can be resolved.
pub init_all_order :
    (host : Host) (confpath : List ℕ) (answers : List (Option ℕ)) (x : Started)
    → (execute answers (init_all host confpath)).1 ≡ some x
    → (s : Settings) × (before : List Event) × (dropped : List Event) × (after : List Event)
      × (read_config host.stoi host.lines ≡ some s)
      × ((execute answers (init_all host confpath)).0 ≡ before ++ (dropped ++ after))
      × (commands before ≡ map succeeded (plan s))
      × (all_of (λ e. is_inner e.0) before ≡ true)
      × HasDropped s.run_as_user dropped
      × (all_of (λ e. is_outer e.0) after ≡ true)
      × (texts after ≡ hook_plan host s)
unfolding init_all
init_all_order host confpath answers x ends =
    let events = (execute answers (init_all host confpath)).0 in
    let r =
      subst (Runs (init_all host confpath) events) ends
        (execute-Runs answers (init_all host confpath)) in
    init_all_parts host confpath events x r
