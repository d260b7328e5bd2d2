-- ===== src/Iafa/Families.antt =====
-- The two family tables are inverse, and each address type carries its length.
use zprd.Prelude.{ℕ, ◌≡◌, ◌⊎◌, arith, none, some}
use zprd.Oafa.{SockAddr, gp_addr, af_unspec, af_inet, af_ipx, af_inet6}
use zprd.Iafa.{InnerAddr, iafa_at2sa_family, sa_family2iafa_at, get_alen, of_sockaddr}

-- For the families that the program knows, the table to address types and back is the identity,
-- and every other family is mapped to type 0.
pub iafa_at2sa_family-sa_family2iafa_at :
    (f : ℕ)
    → (iafa_at2sa_family (sa_family2iafa_at f) ≡ f)
      ⊎ ((sa_family2iafa_at f ≡ 0) × (iafa_at2sa_family (sa_family2iafa_at f) ≡ af_unspec))
unfolding iafa_at2sa_family sa_family2iafa_at
iafa_at2sa_family-sa_family2iafa_at f = ground arith

-- A socket address of family AF_INET or AF_INET6 becomes an inner address of 4 or 16 bytes, one of
-- AF_IPX is read through a null pointer, and any other becomes the empty address of type 0.
pub of_sockaddr_lem :
    (o : SockAddr)
    → ((o.family ≡ af_inet) × ((a : InnerAddr) × (of_sockaddr o ≡ some a) × (get_alen a ≡ 4)))
      ⊎ (((o.family ≡ af_inet6) × ((a : InnerAddr) × (of_sockaddr o ≡ some a) × (get_alen a ≡ 16)))
          ⊎ (((o.family ≡ af_ipx) × (of_sockaddr o ≡ none))
              ⊎ ((a : InnerAddr) × (of_sockaddr o ≡ some a) × (a.type ≡ 0) × (get_alen a ≡ 0))))
unfolding of_sockaddr sa_family2iafa_at gp_addr
of_sockaddr_lem o = ground arith
