-- ===== src/Router/Packet4/Laws.antt =====
-- Branches of route_packet.
use zprd.Prelude.{ℕ, ◌/◌, ◌<◌, ◌≡◌, arith, [], ◌∷◌, ◌==◌}
use zprd.Router.Packet4.{is_multicast}

-- For an address of four bytes, of which the first three are below 256, the multicast test looks
-- at the last byte of the address alone.
pub is_multicast_lem :
    (a b c d : ℕ) → a < 256 → b < 256 → c < 256 → is_multicast (a ∷ b ∷ c ∷ d ∷ []) ≡ (d / 16 == 14)
unfolding is_multicast
is_multicast_lem a b c d ha hb hc = ground arith
