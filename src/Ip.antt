-- ===== src/Ip.antt =====
-- The fields of struct ip, struct ip6_hdr, struct icmphdr and struct icmp6_hdr that src/main.cxx
-- and src/sender.cxx read and write, by their offsets in the packet.
pub mod Checksum
use zprd.Prelude.{ℕ, ◌+◌, ◌*◌, ◌/◌, ◌%◌, List, [], ◌∷◌, ◌++◌, drop, length}
use zprd.Bytes.{byte_at, fit, be16, le16, le32, u16_bytes}
use zprd.Cksum.{in_cksum}

-- A write of some bytes at an offset.
unfoldable pub poke : ℕ → List ℕ → List ℕ → List ℕ
poke at bytes buffer = fit at buffer ++ (bytes ++ drop (at + length bytes) buffer)

abbrev pub ip_size : ℕ
ip_size = 20

abbrev pub icmphdr_size : ℕ
icmphdr_size = 8

abbrev pub ip_v : List ℕ → ℕ
ip_v h = byte_at h 0 / 16

abbrev pub ip_tos : List ℕ → ℕ
ip_tos h = byte_at h 1

-- ntohs(ip_len)
abbrev pub ip_len : List ℕ → ℕ
ip_len h = be16 (drop 2 h)

-- ip_off as it stands in memory.
abbrev pub ip_off : List ℕ → ℕ
ip_off h = le16 (drop 6 h)

abbrev pub ip_ttl : List ℕ → ℕ
ip_ttl h = byte_at h 8

abbrev pub ip_p : List ℕ → ℕ
ip_p h = byte_at h 9

abbrev pub ip_src : List ℕ → List ℕ
ip_src h = fit 4 (drop 12 h)

abbrev pub ip_dst : List ℕ → List ℕ
ip_dst h = fit 4 (drop 16 h)

-- Writes to ip_ttl and ip_sum.
abbrev pub set_ttl : ℕ → List ℕ → List ℕ
set_ttl ttl h = poke 8 (ttl ∷ []) h

unfoldable pub set_sum : ℕ → List ℕ → List ℕ
unfolding poke
set_sum sum h = poke 10 (u16_bytes sum) h

-- IN_CKSUM on a struct ip.
unfoldable pub ip_cksum : List ℕ → ℕ
ip_cksum h = in_cksum h ip_size

abbrev pub icmp_type : List ℕ → ℕ
icmp_type h = byte_at h 0

abbrev pub icmp_code : List ℕ → ℕ
icmp_code h = byte_at h 1

-- un.echo.id and un.echo.sequence; icmp6_id and icmp6_seq stand in the same place.
abbrev pub icmp_id : List ℕ → ℕ
icmp_id h = le16 (drop 4 h)

abbrev pub icmp_sequence : List ℕ → ℕ
icmp_sequence h = le16 (drop 6 h)

abbrev pub ip6_size : ℕ
ip6_size = 40

abbrev pub icmp6_size : ℕ
icmp6_size = 8

-- ntohs(ip6_plen)
abbrev pub ip6_plen : List ℕ → ℕ
ip6_plen h = be16 (drop 4 h)

abbrev pub ip6_nxt : List ℕ → ℕ
ip6_nxt h = byte_at h 6

abbrev pub ip6_hops : List ℕ → ℕ
ip6_hops h = byte_at h 7

abbrev pub ip6_src : List ℕ → List ℕ
ip6_src h = fit 16 (drop 8 h)

abbrev pub ip6_dst : List ℕ → List ℕ
ip6_dst h = fit 16 (drop 24 h)

abbrev pub set_hops : ℕ → List ℕ → List ℕ
set_hops hops h = poke 7 (hops ∷ []) h

-- `(ntohl(ip6_flow) & 0xFF00000) >> 20`
abbrev pub ip6_tos : List ℕ → ℕ
ip6_tos h = byte_at h 0 % 16 * 16 + byte_at h 1 / 16
