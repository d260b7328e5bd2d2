-- ===== src/Examples/Hooks.antt =====
-- The route hooks, the event loop and the route table at concrete inputs.
use zprd.Prelude.{◌≡◌, List, [], ◌∷◌, ◌++◌, All, false, map}
use zprd.Router.{Router}
use zprd.Router.Hooks.{IsBalanced}
use zprd.Router.Hooks.Dests.{all_route_hooks, kept_keys, clean_routes-hooks}
use zprd.Router.Loop.{server_input, Round, main_loop, first_loop}
use zprd.Router.Timers.{connect_all, clean_routes}
use zprd.Router.Owned.Rooted.{Rooted}
use zprd.Startup.Rooted.{main_loop-Rooted}
use zprd.Startup.Balance.{main_loop-IsBalanced}
use zprd.Startup.Init.{fresh_router}
use zprd.Startup.Main.{Ready, greet}
use zprd.Examples.{at_host, test_router}
use zprd.Examples.Boot.{one_remote, device, resolves}
use zprd.Examples.Route.{test_env, unresolved, unshared}
use zprd.Examples.Runs.{packet6}

-- The route to 192.168.0.7 is outdated.
abbrev outdated : Router
outdated = record test_router { last_time = 800 }

clean_routes-hooks_example :
    let t = clean_routes unresolved unshared [] outdated.routes outdated in
    (t.hooks_run ≡ [] ++ all_route_hooks 800 300 outdated.heap outdated.routes)
    × (map (λ e. e.0) t.routes ≡ kept_keys 800 300 outdated.heap outdated.routes)
    × All (λ e. e.1.fresh_add ≡ false) t.routes
clean_routes-hooks_example = clean_routes-hooks unresolved unshared outdated.routes outdated

-- A new peer sends a packet, and is silent from then on; the name of the remote is lost later.
abbrev two_rounds : List Round
two_rounds =
    record {
      inputs = server_input test_env (at_host 3) packet6 40 ∷ [];
      now = 160;
      resolve = resolves;
      use_count = unshared;
    }
    ∷ record { inputs = []; now = 900; resolve = unresolved; use_count = λ p. p }
    ∷ []

abbrev ready : Ready
ready =
    greet
      (record {
        router =
            connect_all resolves unshared one_remote.remotes 0 (fresh_router one_remote device 100);
        device = device;
        server_fds = [];
      })
      7

main_loop-IsBalanced_example :
    IsBalanced (main_loop ready.local_router two_rounds (first_loop ready.router)).router
main_loop-IsBalanced_example =
    main_loop-IsBalanced resolves unshared one_remote device 100 7 [] two_rounds

main_loop-Rooted_example :
    Rooted ready.local_router
      (main_loop ready.local_router two_rounds (first_loop ready.router)).router
main_loop-Rooted_example = main_loop-Rooted resolves unshared one_remote device 100 7 [] two_rounds
