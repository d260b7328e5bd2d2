-- ===== src/Examples/Address.antt =====
-- Addresses, netmasks and the ping cache at concrete inputs.
use zprd.Prelude.{
  ℕ, ◌==◌, ◌+◌, ◌*◌, ◌/◌, ◌%◌, ◌-◌, ◌^◌, ◌≡◌, ◌↔◌, ◌⊎◌, refl, arith, List, [], ◌∷◌, true, some,
  none, replicate,
}
use zprd.Bytes.{byte_at, memcmp}
use zprd.Iafa.{InnerAddr, addr_eq, compare_addr, inner_addr_hash, set_pflen, apply_netmask}
use zprd.Iafa.Equality.{SameAddr, addr_eq_iff, addr_eq-inner_addr_hash}
use zprd.Iafa.Netmask.{covered, set_pflen_overrun, apply_netmask-set_pflen}
use zprd.Router.Packet4.{is_multicast}
use zprd.Router.Packet4.Laws.{is_multicast_lem}
use zprd.PingCache.{PingData, PingCache, init, match_reply, no_match}
use zprd.PingCache.Laws.{reply_to, match_reply_cases}
use zprd.Examples.{inner}

addr_eq_iff_example : (addr_eq (inner 7) (inner 9) ≡ true) ↔ SameAddr (inner 7) (inner 9)
addr_eq_iff_example = addr_eq_iff (inner 7) (inner 9)

abbrev combine : ℕ → ℕ → ℕ
combine seed v = (31 * seed + v) % 2 ^ 64

-- 192.168.0.7 with stale bytes behind it.
abbrev stale : InnerAddr
stale = record { type = 0x0004; addr = 192 ∷ 168 ∷ 0 ∷ 7 ∷ 1 ∷ 2 ∷ [] }

abbrev clean : InnerAddr
clean = record { type = 0x0004; addr = 192 ∷ 168 ∷ 0 ∷ 7 ∷ [] }

stale-clean : addr_eq stale clean ≡ true
unfolding addr_eq compare_addr memcmp
stale-clean = refl

addr_eq-inner_addr_hash_example : inner_addr_hash combine stale ≡ inner_addr_hash combine clean
addr_eq-inner_addr_hash_example = addr_eq-inner_addr_hash combine stale clean stale-clean

abbrev too_long : ℕ
too_long = 248

set_pflen_overrun_example : (set_pflen too_long [] ≡ none) ↔ (too_long ≡ 248)
set_pflen_overrun_example = set_pflen_overrun too_long []

abbrev mask20 : List ℕ
mask20 = 0xff ∷ 0xff ∷ 0xf0 ∷ replicate 28 0

mask20-is : set_pflen 20 [] ≡ some mask20
unfolding set_pflen
mask20-is = refl

abbrev ping : PingData
ping = record { src = inner 1; dst = inner 7; id = 5; sequence = 1 }

abbrev asked : PingCache
asked = init 1000 ping 2

match_reply_cases_example :
    (((match_reply 1030 (reply_to ping) 2 64 asked).0.matched ≡ true)
      × (2 ≡ asked.router)
      × (addr_eq (reply_to ping).src asked.dat.dst ≡ true)
      × (addr_eq (reply_to ping).dst asked.dat.src ≡ true)
      × ((reply_to ping).id ≡ asked.dat.id)
      × ((reply_to ping).sequence ≡ asked.dat.sequence))
    ⊎ (match_reply 1030 (reply_to ping) 2 64 asked ≡ (no_match, asked))
match_reply_cases_example = match_reply_cases 1030 (reply_to ping) 2 64 asked

is_multicast_lem_example : is_multicast (10 ∷ 0 ∷ 0 ∷ 225 ∷ []) ≡ (225 / 16 == 14)
is_multicast_lem_example = is_multicast_lem 10 0 0 225 (omega arith) (omega arith) (omega arith)

apply_netmask-set_pflen_example :
    byte_at (apply_netmask 4 (192 ∷ 168 ∷ 31 ∷ 7 ∷ []) mask20) 2
    ≡ byte_at (192 ∷ 168 ∷ 31 ∷ 7 ∷ []) 2 / 2 ^ (8 - covered 20 2) * 2 ^ (8 - covered 20 2)
apply_netmask-set_pflen_example =
    apply_netmask-set_pflen 20 4 2 (192 ∷ 168 ∷ 31 ∷ 7 ∷ []) [] mask20 (omega arith) mask20-is
      (omega arith) (omega arith) (omega arith)
