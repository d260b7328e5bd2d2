-- ===== src/Router/Hooks.antt =====
-- The calls of run_route_hooks for peers, over the event loop of main in src/main.cxx.
pub mod Dests
pub mod Balance
pub mod Cleanup
use zprd.Prelude.{
  ℕ, suc, ◌+◌, ◌≡◌, inl, inr, refl, ap, ◌∙◌, arith, List, [], ◌∷◌, ◌++◌, Bool, true, false, Option,
  length, length-append, remove_if, Option-cases, if◌then◌else◌, drop, take, take-append-drop,
  Bool-cases,
}
use zprd.Iafa.{InnerAddr}
use zprd.Oafa.{SockAddr}
use zprd.Peer.{Ptr, Heap, peer_eq, cfgent_name}
use zprd.Remotes.{find_or_insert, is_unknown, lower_bound_of}
use zprd.Routes.{RouteVia}
use zprd.Router.{
  Router, RouteMap, HookCall, dest_hook, peer_hook, make_peer, send_zprn_msg, send_zprn_probe_req,
}
use zprd.Router.Grows.{Grows}
use zprd.Router.Grows.Packets.{route_genip_packet-Grows}
use zprd.Router.Loop.{Input, tun_input, server_input, handle_input, handle_inputs, Round, Loop}
use zprd.Router.Packet4.{Env}
use zprd.Router.Receive.{receive_local, receive_remote}
use zprd.Router.Timers.{
  check_peer, check_peers, forget_peer, update_server_addr, clean_route, clean_routes,
  connect2server, reconnect, discard_hooks, discard_peers, dash, hashes,
}

-- How often the hooks were run for a new peer, and for one that leaves.
abbrev pub peers_added : List HookCall → ℕ
peers_added [] = 0
peers_added (dest_hook is_deleted a ∷ hs) = peers_added hs
peers_added (peer_hook true saddr ∷ hs) = peers_added hs
peers_added (peer_hook false saddr ∷ hs) = suc (peers_added hs)

abbrev pub peers_deleted : List HookCall → ℕ
peers_deleted [] = 0
peers_deleted (dest_hook is_deleted a ∷ hs) = peers_deleted hs
peers_deleted (peer_hook true saddr ∷ hs) = suc (peers_deleted hs)
peers_deleted (peer_hook false saddr ∷ hs) = peers_deleted hs

-- There are as many peers as the hooks tell.
abbrev pub IsBalanced : Router → Type 0
IsBalanced s = length s.remotes + peers_deleted s.hooks_run ≡ peers_added s.hooks_run

peers_added-append :
    (hs js : List HookCall) → peers_added (hs ++ js) ≡ peers_added hs + peers_added js
peers_added-append [] js = omega arith
peers_added-append (dest_hook is_deleted a ∷ hs) js = peers_added-append hs js
peers_added-append (peer_hook true saddr ∷ hs) js = peers_added-append hs js
peers_added-append (peer_hook false saddr ∷ hs) js = omega (arith, peers_added-append hs js)

peers_deleted-append :
    (hs js : List HookCall) → peers_deleted (hs ++ js) ≡ peers_deleted hs + peers_deleted js
peers_deleted-append [] js = omega arith
peers_deleted-append (dest_hook is_deleted a ∷ hs) js = peers_deleted-append hs js
peers_deleted-append (peer_hook true saddr ∷ hs) js = omega (arith, peers_deleted-append hs js)
peers_deleted-append (peer_hook false saddr ∷ hs) js = peers_deleted-append hs js

-- The number of peers and the hooks that are behind a step.
module _ (s t : Router) where
  pub IsBalanced-same :
      length t.remotes ≡ length s.remotes → t.hooks_run ≡ s.hooks_run → IsBalanced s → IsBalanced t
  IsBalanced-same size hooks b =
      omega (arith, size, ap peers_added hooks, ap peers_deleted hooks, b)

  pub IsBalanced-more :
      (js : List HookCall)
      → t.hooks_run ≡ s.hooks_run ++ js
      → length t.remotes + peers_deleted js ≡ length s.remotes + peers_added js
      → IsBalanced s
      → IsBalanced t
  IsBalanced-more js hooks size b = omega (
    arith,
    ap peers_added hooks,
    ap peers_deleted hooks,
    peers_added-append s.hooks_run js,
    peers_deleted-append s.hooks_run js,
    size,
    b,
  )

pub IsBalanced-if :
    (s t : Router) (b : Bool) → IsBalanced s → IsBalanced t → IsBalanced (if b then s else t)
IsBalanced-if s t true h k = h
IsBalanced-if s t false h k = k

pub Grows-IsBalanced : (s t : Router) → Grows s t → IsBalanced s → IsBalanced t
Grows-IsBalanced s t g = IsBalanced-same s t (ap length g.remotes_same) g.hooks_same
