-- ===== src/PingCache.antt =====
-- src/ping_cache.hpp and ping_cache.cxx. Times are whole nanoseconds of CLOCK_MONOTONIC, where
-- the source has them as a double of milliseconds; its rounding is not modelled. The clock is an
-- argument.
pub mod Laws
use zprd.Prelude.{ℕ, ◌+◌, ◌-◌, ◌%◌, Bool, true, false, not, ◌&&◌, ◌==◌, if◌then◌else◌}
use zprd.Iafa.{InnerAddr, addr_eq, no_addr}
use zprd.Peer.{Ptr, null}

pub record Match : Type 0 where
  pub diff : ℕ
  pub router : Ptr
  pub hops : ℕ
  pub matched : Bool

pub record PingData : Type 0 where
  pub src : InnerAddr
  pub dst : InnerAddr
  pub id : ℕ
  pub sequence : ℕ

pub record PingCache : Type 0 where
  pub seen : ℕ
  pub dat : PingData
  pub router : Ptr

abbrev pub empty_cache : PingCache
empty_cache = record {
  seen = 0;
  dat = record { src = no_addr; dst = no_addr; id = 0; sequence = 0 };
  router = null;
}

unfoldable pub init : ℕ → PingData → Ptr → PingCache
init ms_time dat router = record { seen = ms_time; dat = dat; router = router }

-- A failed match reports 1 ms.
abbrev pub no_match : Match
no_match = record { diff = 1_000_000; router = null; hops = 255; matched = false }

unfoldable pub match_reply : ℕ → PingData → Ptr → ℕ → PingCache → Match × PingCache
match_reply ms_time dat router ttl c =
    if not (c.seen == 0)
      && (router == c.router
          && (addr_eq dat.src c.dat.dst
              && (addr_eq dat.dst c.dat.src
                  && (dat.id == c.dat.id && dat.sequence == c.dat.sequence))))
    then (
      record {
        diff = ms_time - c.seen;
        router = router;
        hops = (65 + 256 - ttl) % 256;
        matched = true;
      },
      record c { seen = 0 },
    )
    else (no_match, c)
