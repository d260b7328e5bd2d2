-- ===== src/Oafa.antt =====
-- libzsneta/oAFa.cxx: socket addresses of the outer network, built with USE_IPV6 and without
-- USE_IPX, the defaults of CMakeLists.txt. The numbers are those of Linux.
pub mod Order
use zprd.Prelude.{
  ℕ, ◌+◌, ◌/◌, ◌%◌, List, [], ◌∷◌, ◌++◌, Bool, Option, none, some, Ordering, is_eq, is_lt, take,
  drop, replicate, ◌==◌, if◌then◌else◌,
}
use zprd.Bytes.{fit, memcmp, le16, htons, u16_bytes}

abbrev pub af_unspec : ℕ
af_unspec = 0

abbrev pub af_inet : ℕ
af_inet = 2

abbrev pub af_ipx : ℕ
af_ipx = 4

abbrev pub af_inet6 : ℕ
af_inet6 = 10

-- struct sockaddr_storage: the 16 bit family and the bytes behind it.
pub record SockAddr : Type 0 where
  pub family : ℕ
  pub body : List ℕ

abbrev pub sa_bytes : SockAddr → List ℕ
sa_bytes s = (s.family % 256) ∷ (s.family / 256) ∷ s.body

unfoldable pub sa_family2size : SockAddr → ℕ
sa_family2size s = if s.family == af_inet then 16 else (if s.family == af_inet6 then 28 else 128)

-- AFa_sa_compare; the offset of ss_family is 0.
unfoldable pub sa_compare : SockAddr → SockAddr → Ordering
sa_compare lhs rhs =
    if lhs.family == rhs.family
    then memcmp (sa_family2size lhs) (sa_bytes lhs) (sa_bytes rhs)
    else memcmp 2 (sa_bytes lhs) (sa_bytes rhs)

-- AFa_gp_addr and AFa_gp_port; `none` is the null pointer.
unfoldable pub gp_addr : SockAddr → Option (List ℕ)
gp_addr s =
    if s.family == af_inet
    then some (fit 4 (drop 2 s.body))
    else (if s.family == af_inet6 then some (fit 16 (drop 6 s.body)) else none)

unfoldable pub gp_port : SockAddr → Option ℕ
gp_port s =
    if s.family == af_inet
    then some (le16 s.body)
    else (if s.family == af_inet6 then some (le16 s.body) else none)

-- A write through the pointer of AFa_gp_port.
unfoldable pub store_port : SockAddr → ℕ → SockAddr
store_port s port = record s { body = u16_bytes port ++ drop 2 s.body }

-- AFa_sa2catchall: INADDR_ANY and in6addr_any are zero bytes; `none` is the result false.
unfoldable pub sa2catchall : SockAddr → Option SockAddr
sa2catchall s =
    if s.family == af_inet
    then some (record s { body = fit 2 s.body ++ replicate 4 0 ++ drop 6 s.body })
    else (if s.family == af_inet6
        then some (record s { body = fit 6 s.body ++ replicate 16 0 ++ drop 22 s.body })
        else none)
