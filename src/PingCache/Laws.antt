-- ===== src/PingCache/Laws.antt =====
-- A cached echo request is matched by its reply, once, and by nothing else.
use zprd.Prelude.{ℕ, ◌-◌, ◌%◌, ◌<◌, ◌≡◌, ◌≢◌, ◌⊎◌, arith, true, false}
use zprd.Iafa.{addr_eq}
use zprd.Iafa.Equality.{addr_eq_refl}
use zprd.Peer.{Ptr}
use zprd.PingCache.{PingData, PingCache, init, match_reply, no_match}

-- The reply to an echo request, source and destination exchanged.
abbrev pub reply_to : PingData → PingData
reply_to d = record d { src = d.dst; dst = d.src }

-- After init at a time other than 0, the reply through the same router, with a ttl that is a byte,
-- is matched with the time since the request, and a second copy of the reply is not.
pub match_reply-init :
    (sent now later : ℕ) (dat : PingData) (router : Ptr) (ttl : ℕ) (c : PingCache)
    → sent ≢ 0
    → ttl < 256
    → let r = match_reply now (reply_to dat) router ttl (init sent dat router) in
      (r.0.matched ≡ true)
      × (r.0.diff ≡ now - sent)
      × (r.0.router ≡ router)
      × (r.0.hops ≡ (321 - ttl) % 256)
      × ((match_reply later (reply_to dat) router ttl r.1).0.matched ≡ false)
unfolding init match_reply
match_reply-init sent now later dat router ttl c h k =
    ground (arith, addr_eq_refl dat.src, addr_eq_refl dat.dst)

-- Either a reply is matched, and then it came from the router of the request, with its id, its
-- sequence number and its addresses exchanged, or nothing is reported and the cache stays.
pub match_reply_cases :
    (now : ℕ) (dat : PingData) (router : Ptr) (ttl : ℕ) (c : PingCache)
    → (((match_reply now dat router ttl c).0.matched ≡ true)
        × (router ≡ c.router)
        × (addr_eq dat.src c.dat.dst ≡ true)
        × (addr_eq dat.dst c.dat.src ≡ true)
        × (dat.id ≡ c.dat.id)
        × (dat.sequence ≡ c.dat.sequence))
      ⊎ (match_reply now dat router ttl c ≡ (no_match, c))
unfolding match_reply
match_reply_cases now dat router ttl c = ground arith
