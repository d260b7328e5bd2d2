-- ===== src/Startup/Hooks.antt =====
-- The route hooks of src/main.cxx. That a hook fails is only logged.
use zprd.Prelude.{ℕ, List, [], ◌∷◌, ◌++◌, Bool, is_empty, if◌then◌else◌}
use zprd.Iafa.{InnerAddr}
use zprd.Oafa.{SockAddr}
use zprd.Router.{HookCall, dest_hook, peer_hook}
use zprd.Startup.{system, Program, done, ask, ◌>>◌}
use zprd.Text.Table.{route_args, peer_args}

unfoldable pub run_route_hooks_intern : List (List ℕ) → List ℕ → Program ℕ
run_route_hooks_intern [] args = done 0
run_route_hooks_intern (i ∷ route_hooks) args = do
  ask (system (i ++ args))
  run_route_hooks_intern route_hooks args

module _ (inet_ntop : ℕ → List ℕ → List ℕ) (route_hooks : List (List ℕ)) where
  -- The two functions run_route_hooks.
  unfoldable pub run_dest_hooks : Bool → InnerAddr → Program ℕ
  run_dest_hooks is_deleted dest =
      if is_empty route_hooks
      then done 0
      else run_route_hooks_intern route_hooks (route_args inet_ntop is_deleted dest)

  unfoldable pub run_peer_hooks : Bool → SockAddr → Program ℕ
  run_peer_hooks is_deleted saddr =
      if is_empty route_hooks
      then done 0
      else run_route_hooks_intern route_hooks (peer_args inet_ntop is_deleted saddr)

  -- The calls of run_route_hooks in their order.
  unfoldable pub run_hooks : List HookCall → Program ℕ
  run_hooks [] = done 0
  run_hooks (dest_hook is_deleted dest ∷ hs) = do run_dest_hooks is_deleted dest; run_hooks hs
  run_hooks (peer_hook is_deleted saddr ∷ hs) = do run_peer_hooks is_deleted saddr; run_hooks hs
