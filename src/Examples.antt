-- ===== src/Examples.antt =====
-- Concrete runs: two peers at 10.0.0.1 and 10.0.0.2, the tun device, and a router that knows them.
pub mod Wire
pub mod Route
pub mod Address
pub mod Runs
pub mod Boot
pub mod Hooks
use zprd.Prelude.{ℕ, List, [], ◌∷◌, false}
use zprd.Oafa.{SockAddr, af_inet}
use zprd.Iafa.{InnerAddr, of_ip4}
use zprd.Peer.{Ptr, Heap, RemotePeer, store, new_peer, set_saddr}
use zprd.PingCache.{PingCache, empty_cache}
use zprd.Sender.{empty_queue}
use zprd.Routes.{ViaRouter, RouteVia}
use zprd.Router.{Router, Conf}

-- Port 45940 at 10.0.0.x.
abbrev pub at_host : ℕ → SockAddr
at_host x = record { family = af_inet; body = 0xb3 ∷ 0x74 ∷ 10 ∷ 0 ∷ 0 ∷ x ∷ [] }

abbrev pub peer_at : ℕ → RemotePeer
peer_at x = set_saddr (at_host x) (new_peer 100)

-- Peers 1 and 2, peer 3 again at the address of peer 2, and everything else local.
abbrev pub test_heap : Heap
test_heap = store (store (store (λ p. new_peer 100) 1 (peer_at 1)) 2 (peer_at 2)) 3 (peer_at 2)

abbrev pub both : List Ptr
both = 1 ∷ 2 ∷ []

-- 192.168.0.x
abbrev pub inner : ℕ → InnerAddr
inner x = of_ip4 (192 ∷ 168 ∷ 0 ∷ x ∷ [])

abbrev pub via : Ptr → ℕ → ℕ → ViaRouter
via p latency hops = record { addr = p; seen = 100; latency = latency; hops = hops }

abbrev pub test_conf : Conf
test_conf = record {
  conf_remotes = [];
  data_port = 45940;
  remote_timeout = 300;
  max_near_rtt = 5;
  preferred_af = 0;
}

-- A router with the peers 1 and 2, and a route over peer 2 to 192.168.0.7.
abbrev pub test_router : Router
test_router = record {
  heap = test_heap;
  next_ptr = 4;
  remotes = both;
  locals = [];
  exported_locals = [];
  blocked_broadcast_dsts = [];
  routes = (inner 7, record { routers = via 2 10 1 ∷ []; fresh_add = false }) ∷ [];
  ping_cache = empty_cache;
  sender = empty_queue;
  last_time = 100;
  hooks_run = [];
  conf = test_conf;
}
