-- ===== src/Remotes/Order.antt =====
-- The order of peers by their addresses.
use zprd.Prelude.{◌≡◌, ◌⊎◌, arith, true, false}
use zprd.Oafa.Order.{sa_compare_refl, sa_compare_flip, sa_compare_eq_left, sa_compare_lt_trans}
use zprd.Peer.{RemotePeer, peer_eq, peer_lt}

pub peer_lt_trans :
    (a b c : RemotePeer) → peer_lt a b ≡ true → peer_lt b c ≡ true → peer_lt a c ≡ true
unfolding peer_lt
peer_lt_trans a b c h k = ground (arith, sa_compare_lt_trans a.saddr b.saddr c.saddr)

-- What is not before the item is at its address or behind it.
pub peer_order :
    (a b : RemotePeer) → peer_lt a b ≡ false → (peer_eq a b ≡ true) ⊎ (peer_lt b a ≡ true)
unfolding peer_lt peer_eq
peer_order a b h = ground (arith, sa_compare_flip a.saddr b.saddr)

pub peer_lt-ne : (a b : RemotePeer) → peer_lt a b ≡ true → peer_eq a b ≡ false
unfolding peer_lt peer_eq
peer_lt-ne a b h = ground arith

pub peer_gt-ne : (a b : RemotePeer) → peer_lt b a ≡ true → peer_eq a b ≡ false
unfolding peer_lt peer_eq
peer_gt-ne a b h = ground (arith, sa_compare_flip a.saddr b.saddr)

pub peer_lt-asym : (a b : RemotePeer) → peer_lt a b ≡ true → peer_lt b a ≡ false
unfolding peer_lt
peer_lt-asym a b h = ground (arith, sa_compare_flip a.saddr b.saddr)

pub peer_eq-lt : (a b c : RemotePeer) → peer_eq a b ≡ true → peer_lt b c ≡ true → peer_lt a c ≡ true
unfolding peer_eq peer_lt
peer_eq-lt a b c h k = ground (arith, sa_compare_eq_left a.saddr b.saddr c.saddr)

pub peer_eq_refl : (a : RemotePeer) → peer_eq a a ≡ true
unfolding peer_eq
peer_eq_refl a = ground (arith, sa_compare_refl a.saddr)

pub peer_eq_sym : (a b : RemotePeer) → peer_eq a b ≡ true → peer_eq b a ≡ true
unfolding peer_eq
peer_eq_sym a b h = ground (arith, sa_compare_flip a.saddr b.saddr)
