-- ===== src/Peer.antt =====
-- src/remote_peer.hpp, remote_peer.cxx and remote_peer_detail.cxx. A shared pointer is the number
-- of the object it owns, 0 the null pointer, and the heap maps it to the object; the fields of
-- remote_peer_detail_t of a plain remote_peer_t are not read. The mutex of each peer is not
-- modelled: the accessors below are the critical sections, one after another.
use zprd.Prelude.{
  ℕ, ◌+◌, ◌-◌, List, [], Bool, false, none, some, is_eq, is_lt, ◌==◌, ltb, get_or, length,
  if◌then◌else◌,
}
use zprd.Bytes.{htons}
use zprd.Oafa.{SockAddr, sa_compare, gp_port, store_port, af_unspec}

abbrev pub Ptr : Type 0
Ptr = ℕ

abbrev pub null : Ptr
null = 0

pub record RemotePeer : Type 0 where
  pub saddr : SockAddr
  pub seen : ℕ
  pub cent : ℕ
  pub to_discard : Bool

abbrev pub Heap : Type 0
Heap = Ptr → RemotePeer

abbrev pub zero_saddr : SockAddr
zero_saddr = record { family = af_unspec; body = [] }

-- remote_peer_detail_t(), at the time `last_time`.
abbrev pub new_peer : ℕ → RemotePeer
new_peer last_time = record { saddr = zero_saddr; seen = last_time; cent = 0; to_discard = false }

-- remote_peer_detail_t(sas, cfgent)
abbrev pub new_config_peer : ℕ → SockAddr → ℕ → RemotePeer
new_config_peer last_time sas cfgent = record {
  saddr = sas;
  seen = last_time;
  cent = cfgent + 1;
  to_discard = false;
}

abbrev pub is_local : RemotePeer → Bool
is_local p = p.saddr.family == af_unspec

-- operator==, operator< on peers.
unfoldable pub peer_eq : RemotePeer → RemotePeer → Bool
peer_eq lhs rhs = is_eq (sa_compare lhs.saddr rhs.saddr)

unfoldable pub peer_lt : RemotePeer → RemotePeer → Bool
peer_lt lhs rhs = is_lt (sa_compare lhs.saddr rhs.saddr)

abbrev pub set_saddr : SockAddr → RemotePeer → RemotePeer
set_saddr sas p = record p { saddr = sas }

-- An unsupported family only prints a notice.
unfoldable pub set_port : ℕ → RemotePeer → RemotePeer
set_port port p = elim (gp_port p.saddr) [
  | some old ↦ record p { saddr = store_port p.saddr (htons port) }
  | none ↦ p
]

unfoldable pub set_port_if_unset : ℕ → RemotePeer → RemotePeer
set_port_if_unset port p = elim (gp_port p.saddr) [
  | some old ↦ if old == 0 then record p { saddr = store_port p.saddr (htons port) } else p
  | none ↦ p
]

-- cfgent_name, over the names of the configured remotes and the texts "-" and "####".
unfoldable pub cfgent_name {ℓ} : {A : Type ℓ} → List A → A → A → RemotePeer → A
cfgent_name remotes dash hashes p =
    if ltb p.cent 1
    then dash
    else (if ltb (p.cent - 1) (length remotes) then get_or remotes (p.cent - 1) hashes else hashes)

-- A write to the object of a pointer.
abbrev pub store : Heap → Ptr → RemotePeer → Heap
store heap p v q = if q == p then v else heap q
