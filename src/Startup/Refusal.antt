-- ===== src/Startup/Refusal.antt =====
-- The commands of every start, also of one that fails.
use zprd.Prelude.{ℕ, ◌≡◌, refl, subst, List, [], Option, none, some, is_empty}
use mathlib.Core.List.{append-nil}
use zprd.Config.{Settings, read_config}
use zprd.Startup.{
  read_file, getpwnam, getgrnam, setgroups, setregid, setreuid, execute, of_option, Program, ◌>>=◌,
  ◌>>◌,
}
use zprd.Startup.CallKinds.{CallsOnly-redirect_stdin}
use zprd.Startup.Commands.{
  commands, plan, no_command, RunsCommands-no_command, RunsCommands-set_up_interface,
}
use zprd.Startup.Outcome.{
  Outcome, RunsBoth, RunsBoth->>=, RunsBoth-done_step, RunsBoth-failed_step, RunsBoth-set_up_peers,
  hook_plan,
}
use zprd.Startup.Init.{Host, Started, init_all, set_up_interface, set_up_peers}
use zprd.Startup.Privileges.{drop_privileges, nogroup}
use zprd.Startup.Runs.{
  execute-Runs, CallsOnly, CallsOnly->>=, CallsOnly-if, CallsOnly-done, CallsOnly-need,
  CallsOnly-ask,
}

CallsOnly-drop_privileges : (user : List ℕ) → CallsOnly no_command (drop_privileges user)
unfolding drop_privileges
CallsOnly-drop_privileges user = CallsOnly-if no_command (is_empty user) _ _ (CallsOnly-done _ _) (
    CallsOnly->>= _ _ _ (CallsOnly-need no_command (getpwnam user) refl) (λ newuid.
      CallsOnly->>= _ _ _ (CallsOnly-need no_command (getgrnam nogroup) refl) (λ newgid.
        CallsOnly->>= _ _ _ (CallsOnly-ask no_command (setgroups newgid) refl) (λ _.
          CallsOnly->>= _ _ _ (CallsOnly-need no_command (setregid newgid newgid) refl)
            (λ _. CallsOnly-need no_command (setreuid newuid newuid) refl)))))

-- What the commands of a start are, by the configuration file.
abbrev pub planned : Option Settings → List (List ℕ)
planned none = []
planned (some s) = plan s

abbrev pub planned_hooks : Host → Option Settings → List (List ℕ)
planned_hooks host none = []
planned_hooks host (some s) = hook_plan host s

RunsBoth-init_all :
    (host : Host) (confpath : List ℕ) (o : Option Settings)
    → read_config host.stoi host.lines ≡ o
    → RunsBoth (init_all host confpath) (planned o) (planned_hooks host o)
unfolding init_all
RunsBoth-init_all host confpath o h =
    RunsBoth->>= _ _ [] _ _
      (RunsCommands-no_command _ (CallsOnly-redirect_stdin no_command refl (λ _. refl) (λ _. refl)))
      (λ _.
        RunsBoth->>= _ _ [] _ _
          (RunsCommands-no_command _ (CallsOnly-need no_command (read_file confpath) refl))
          (λ _. rw h (configured o)))
  where
    behind : Settings → Program Started
    behind s =
        set_up_interface host s
        >>= (λ device. drop_privileges s.run_as_user >> set_up_peers host s device)

    set_up : (s : Settings) → RunsBoth (behind s) (plan s) (hook_plan host s)
    set_up s =
        subst (λ ts. RunsBoth (behind s) ts (hook_plan host s)) (append-nil (plan s))
          (RunsBoth->>= _ _ (plan s) [] _ (RunsCommands-set_up_interface host s) (λ device.
            RunsBoth->>= _ _ [] [] _
              (RunsCommands-no_command _ (CallsOnly-drop_privileges s.run_as_user))
              (λ _. RunsBoth-set_up_peers host s device)))

    configured :
        (o2 : Option Settings)
        → RunsBoth (of_option o2 >>= behind) (planned o2) (planned_hooks host o2)
    configured none = RunsBoth-failed_step _ []
    configured (some s) = RunsBoth-done_step s _ (plan s) (hook_plan host s) (set_up s)

-- A start runs no command if the configuration file is not accepted. Otherwise, if it fails and
-- has not come to the route hooks, then the commands that it ran are the first of those for its
-- settings, in order, and all of these but at most the last succeeded. In all other cases, and so
-- if it comes to its end, all the commands for the settings were run and succeeded, and behind
-- them the route hooks were run for every remote that can be resolved, whatever they answered.
pub init_all-commands :
    (host : Host) (confpath : List ℕ) (answers : List (Option ℕ))
    → let (events, r) = execute answers (init_all host confpath) in
      let file = read_config host.stoi host.lines in
      Outcome r (planned file) (planned_hooks host file) (commands events)
unfolding RunsBoth
init_all-commands host confpath answers =
    let (events, r) = execute answers (init_all host confpath) in
    RunsBoth-init_all host confpath (read_config host.stoi host.lines) refl events r
      (execute-Runs answers (init_all host confpath))
