-- ===== src/Iafa.antt =====
-- libzsneta/iAFa.hpp and iAFa.cxx: addresses of the tunnelled (inner) network.
-- Of `char addr[IAFA_AL_MAX]` the model keeps the `get_alen()` bytes that the code reads.
pub mod Equality
pub mod Netmask
pub mod Families
use Prim.Native.Nat.{bit_and}
use zprd.Prelude.{
  ℕ, zero, suc, ◌+◌, ◌-◌, ◌*◌, ◌/◌, ◌%◌, ◌^◌, List, [], ◌∷◌, ◌++◌, Bool, true, false, Option, none,
  some, Ordering, is_eq, replicate, ltb, ◌==◌, if◌then◌else◌,
}
use zprd.Bytes.{byte_at, rest, fit, memcmp, le32, u16_bytes}
use zprd.Oafa.{SockAddr, gp_addr, af_unspec, af_inet, af_ipx, af_inet6}

-- IAFA_AT_*
abbrev pub iafa_at_inet : ℕ
iafa_at_inet = 0x0804

abbrev pub iafa_at_ipx : ℕ
iafa_at_ipx = 0x02ea

abbrev pub iafa_at_inet6 : ℕ
iafa_at_inet6 = 0x05b0

-- IAFA_AL_MAX
abbrev pub iafa_al_max : ℕ
iafa_al_max = 0x1f

unfoldable pub iafa_at2sa_family : ℕ → ℕ
iafa_at2sa_family type =
    if type == iafa_at_inet
    then af_inet
    else (if type == iafa_at_ipx
        then af_ipx
        else (if type == iafa_at_inet6 then af_inet6 else af_unspec))

unfoldable pub sa_family2iafa_at : ℕ → ℕ
sa_family2iafa_at sa_fam =
    if sa_fam == af_inet
    then iafa_at_inet
    else (if sa_fam == af_ipx
        then iafa_at_ipx
        else (if sa_fam == af_inet6 then iafa_at_inet6 else 0))

-- `type & IAFA_AL_MAX`: the five low bits.
abbrev pub pli_at2alen : ℕ → ℕ
pli_at2alen type = type % 2 ^ 5

pub record InnerAddr : Type 0 where
  pub type : ℕ
  pub addr : List ℕ

-- The default constructor leaves the bytes alone; there are none of length `get_alen()`.
abbrev pub no_addr : InnerAddr
no_addr = record { type = 0; addr = [] }

abbrev pub get_alen : InnerAddr → ℕ
get_alen a = pli_at2alen a.type

abbrev pub get_tflen : InnerAddr → ℕ
get_tflen a = 2 + pli_at2alen a.type

-- inner_addr_t(uint32_t) and inner_addr_t(in6_addr), from the bytes in network order.
unfoldable pub of_ip4 : List ℕ → InnerAddr
of_ip4 ip4a = record { type = iafa_at_inet; addr = fit 4 ip4a }

unfoldable pub of_ip6 : List ℕ → InnerAddr
of_ip6 ip6a = record { type = iafa_at_inet6; addr = fit 16 ip6a }

-- inner_addr_t(sockaddr_storage): `none` is a copy from the null pointer of AFa_gp_addr.
unfoldable pub of_sockaddr : SockAddr → Option InnerAddr
of_sockaddr o =
    let type = sa_family2iafa_at o.family in
    elim (gp_addr o) [
      | some a ↦ some (record { type = type; addr = fit (pli_at2alen type) a })
      | none ↦ if pli_at2alen type == 0 then some (record { type = type; addr = [] }) else none
    ]

unfoldable pub is_direct_broadcast : InnerAddr → Bool
is_direct_broadcast a = if a.type == iafa_at_inet then le32 a.addr == 0xffff_ffff else false

-- compare_addr, as the sign of its result.
unfoldable pub compare_addr : InnerAddr → InnerAddr → Ordering
compare_addr lhs rhs =
    if lhs.type == rhs.type
    then memcmp (pli_at2alen lhs.type) lhs.addr rhs.addr
    else memcmp 2 (u16_bytes lhs.type) (u16_bytes rhs.type)

-- operator==
unfoldable pub addr_eq : InnerAddr → InnerAddr → Bool
addr_eq lhs rhs = is_eq (compare_addr lhs rhs)

-- inner_addr_hash, over the `hash_combine` of lowlevelzs.
unfoldable pub hash_bytes : (ℕ → ℕ → ℕ) → ℕ → List ℕ → ℕ
hash_bytes hash_combine seed [] = seed
hash_bytes hash_combine seed (c ∷ cs) = hash_bytes hash_combine (hash_combine seed c) cs

unfoldable pub inner_addr_hash : (ℕ → ℕ → ℕ) → InnerAddr → ℕ
inner_addr_hash hash_combine a =
    hash_bytes hash_combine (hash_combine 0 a.type) (fit (get_alen a) a.addr)

-- A local endpoint: an address with its netmask.
pub record XnerAddr : Type 0 where
  pub inner : InnerAddr
  pub nmsk : List ℕ

-- xner_addr_t(sockaddr_storage, sockaddr_storage) with i_set2am.
unfoldable pub xner_of_sockaddr : SockAddr → SockAddr → Option XnerAddr
xner_of_sockaddr o netmask = elim (of_sockaddr o) [
  | none ↦ none
  | some a ↦ elim (gp_addr netmask) [
    | some m ↦ some (record { inner = a; nmsk = fit (get_alen a) m })
    | none ↦ if get_alen a == 0 then some (record { inner = a; nmsk = [] }) else none
  ]
]

-- xner_addr_t::set_pflen on the mask bytes; `none` is a write behind the array of 31 bytes.
unfoldable pub set_pflen : ℕ → List ℕ → Option (List ℕ)
set_pflen pflen nmsk =
    if ltb (iafa_al_max * 8) pflen
    then some nmsk
    else (let restbits = pflen % 8 in
        let fullbytes = pflen / 8 in
        if ltb fullbytes iafa_al_max
        then some (
            replicate fullbytes 0xff
            ++ ((0xff * 2 ^ (8 - restbits)) % 256 ∷ replicate (iafa_al_max - fullbytes - 1) 0))
        else none)

-- xner_apply_netmask on the first `cmplen` bytes.
unfoldable pub apply_netmask : ℕ → List ℕ → List ℕ → List ℕ
apply_netmask zero addr nmsk = addr
apply_netmask (suc n) [] nmsk = []
apply_netmask (suc n) (a ∷ addr) nmsk =
    bit_and a (byte_at nmsk 0) ∷ apply_netmask n addr (rest nmsk)
