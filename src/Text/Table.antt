-- ===== src/Text/Table.antt =====
-- The print-out of the peers and the routes on SIGUSR1, and the arguments of the route hooks, in
-- src/main.cxx. `format_time` stands for localtime and strftime, `ms_text` for "%4.2f".
use zprd.Prelude.{ℕ, List, [], ◌∷◌, ◌++◌, Bool, codes, map, if◌then◌else◌}
use zprd.Iafa.{InnerAddr}
use zprd.Oafa.{SockAddr}
use zprd.Peer.{Ptr, Heap, cfgent_name}
use zprd.Router.{Router, RouteMap}
use zprd.Router.Timers.{dash, hashes}
use zprd.Routes.{ViaRouter}
use zprd.Text.{sa2string, to_string, ui162string}

abbrev pub tab : List ℕ
tab = 9 ∷ []

module _ (inet_ntop : ℕ → List ℕ → List ℕ) where
  -- get_remote_desc
  abbrev pub get_remote_desc : SockAddr → List ℕ
  get_remote_desc saddr = sa2string inet_ntop saddr (codes "peer ")

  -- The line of del_route_msg.
  abbrev pub del_route_line : InnerAddr → SockAddr → List ℕ
  del_route_line dest router =
      codes "ROUTER: delete route to "
      ++ (to_string inet_ntop dest
          ++ (codes " via " ++ (get_remote_desc router ++ codes " (outdated)")))

  abbrev pub add_or_del : Bool → List ℕ
  add_or_del is_deleted = if is_deleted then codes "del" else codes "add"

  -- The arguments of the two functions run_route_hooks.
  unfoldable pub route_args : Bool → InnerAddr → List ℕ
  route_args is_deleted dest =
      codes " route "
      ++ (add_or_del is_deleted ++ (codes " \"" ++ (to_string inet_ntop dest ++ codes "\"")))

  unfoldable pub peer_args : Bool → SockAddr → List ℕ
  peer_args is_deleted saddr =
      codes " peer "
      ++ (add_or_del is_deleted ++ (codes " \"" ++ (sa2string inet_ntop saddr [] ++ codes "\"")))

  module _ (format_time ms_text : ℕ → List ℕ) where
    unfoldable pub peer_line : Router → Ptr → List ℕ
    peer_line s i =
        sa2string inet_ntop (s.heap i).saddr []
        ++ (tab
            ++ (format_time (s.heap i).seen
                ++ (tab ++ cfgent_name s.conf_remotes dash hashes (s.heap i))))

    unfoldable pub router_line : Heap → InnerAddr → ViaRouter → List ℕ
    router_line heap dest r =
        to_string inet_ntop dest
        ++ (tab
            ++ (sa2string inet_ntop (heap r.addr).saddr []
                ++ (tab
                    ++ (format_time r.seen
                        ++ (tab ++ (ms_text r.latency ++ (tab ++ ui162string r.hops)))))))

    unfoldable pub route_lines : Heap → RouteMap → List (List ℕ)
    route_lines heap [] = []
    route_lines heap ((dest, via) ∷ routes) =
        map (router_line heap dest) via.routers ++ route_lines heap routes

    -- print_routing_table, line by line.
    unfoldable pub print_routing_table : Router → List (List ℕ)
    print_routing_table s =
        (codes "-- connected peers:")
        ∷ (codes "Peer\t\tSeen\t\tConfig Entry")
        ∷ (map (peer_line s) s.remotes
            ++ ((codes "-- routing table:")
                ∷ (codes "Destination\tGateway\t\tSeen\t\tLatency\tHops")
                ∷ route_lines s.heap s.routes))
