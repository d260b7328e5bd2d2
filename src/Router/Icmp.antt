-- ===== src/Router/Icmp.antt =====
-- send_icmp_msg and send_icmp6_msg of src/main.cxx. `buffer` is the whole receive buffer that
-- `orig_hip` points to the start of.
pub mod Laws
use zprd.Prelude.{
  ℕ, ◌+◌, ◌-◌, ◌*◌, ◌%◌, min, List, [], ◌∷◌, ◌++◌, none, some, drop, length, replicate,
}
use zprd.Bytes.{fit, htons, u16_bytes}
use zprd.Cksum.{in_cksum}
use zprd.Iafa.{XnerAddr, iafa_at_inet, iafa_at_inet6, pli_at2alen}
use zprd.Ip.{
  ip_size, icmphdr_size, ip_len, ip_src, ip_cksum, set_sum, ip6_size, icmp6_size, ip6_plen, ip6_src,
  poke,
}
use zprd.Peer.{Ptr}
use zprd.Router.{Router, max_ttl, local_aptr, enqueue}

-- zprd_icmpe
pub data IcmpError : Type 0 where
  ttl unreach unreach_net : IcmpError

-- get_local_addr into a zeroed field of `size` bytes.
unfoldable pub get_local_addr : ℕ → ℕ → List XnerAddr → List ℕ
get_local_addr preferred_at size locals = elim (local_aptr preferred_at locals) [
  | none ↦ replicate size 0
  | some i ↦ fit size (fit (min (pli_at2alen preferred_at) size) i.inner.addr)
]

-- ICMP_TIMXCEED with ICMP_TIMXCEED_INTRANS, ICMP_UNREACH with ICMP_UNREACH_HOST or ICMP_UNREACH_NET.
unfoldable pub icmp_head : IcmpError → List ℕ
icmp_head ttl = 11 ∷ 0 ∷ []
icmp_head unreach = 3 ∷ 1 ∷ []
icmp_head unreach_net = 3 ∷ 0 ∷ []

-- htons in memory order.
abbrev pub net16 : ℕ → List ℕ
net16 x = u16_bytes (htons x)

-- The IPv4 header of the answer; `id` is what rand() gives for ip_id.
unfoldable pub icmp_ip_header : ℕ → ℕ → List ℕ → Router → List ℕ
icmp_ip_header id buflen buffer s =
    (0x45 ∷ 0 ∷ [])
    ++ (net16 buflen
        ++ (u16_bytes id
            ++ ((0 ∷ 0 ∷ max_ttl ∷ 1 ∷ 0 ∷ 0 ∷ [])
                ++ (get_local_addr iafa_at_inet 4 s.locals ++ ip_src buffer))))

-- The ICMP header: its checksum is taken over these eight bytes alone.
unfoldable pub icmp_header : IcmpError → List ℕ
unfolding icmp_head
icmp_header msg =
    let plain = icmp_head msg ++ replicate 6 0 in
    icmp_head msg ++ (u16_bytes (in_cksum plain icmphdr_size) ++ replicate 4 0)

-- `orig_hip + sizeof(ip)` counts in headers: it points 400 bytes behind the header.
unfoldable pub icmp_packet : IcmpError → ℕ → List ℕ → Router → List ℕ
icmp_packet msg id buffer s =
    let buflen = 2 * ip_size + icmphdr_size + 8 in
    let orig = set_sum (ip_cksum buffer) buffer in
    let more = min 8 (ip_len buffer) in
    icmp_ip_header id buflen buffer s
    ++ (icmp_header msg
        ++ (fit ip_size orig
            ++ (fit more (drop (ip_size * ip_size) buffer) ++ replicate (8 - more) 0)))

unfoldable pub send_icmp_msg : IcmpError → ℕ → List ℕ → Ptr → Router → Router
send_icmp_msg msg id buffer source_ip s =
    enqueue
      (record { buffer = icmp_packet msg id buffer s; dests = source_ip ∷ []; frag = 0; tos = 0 }) s

unfoldable pub icmp6_head : IcmpError → List ℕ
icmp6_head ttl = 3 ∷ 0 ∷ []
icmp6_head unreach = 1 ∷ 0 ∷ []
icmp6_head unreach_net = 1 ∷ 3 ∷ []

unfoldable pub icmp6_ip_header : ℕ → List ℕ → Router → List ℕ
icmp6_ip_header plen buffer s =
    (0x60 ∷ 0 ∷ 0 ∷ 0 ∷ [])
    ++ (net16 plen
        ++ ((0x3a ∷ max_ttl ∷ []) ++ (get_local_addr iafa_at_inet6 16 s.locals ++ ip6_src buffer)))

-- What the checksum is taken over: 24 bytes from the source address on, the low bytes of four
-- words that begin with htons(payload length), four bytes of padding, and the rest of the packet.
-- `stack` stands for the low bytes of the three words behind `pll`, which the code reads as well.
unfoldable pub icmp6_pseudo : List ℕ → List ℕ → List ℕ
icmp6_pseudo stack packet =
    let bwohl = length packet - ip6_size in
    fit 24 (drop 8 packet)
    ++ ((htons bwohl % 256 ∷ fit 3 stack) ++ ((0 ∷ 0 ∷ 0 ∷ 0x3a ∷ []) ++ drop ip6_size packet))

unfoldable pub icmp6_packet : IcmpError → List ℕ → List ℕ → Router → List ℕ
unfolding poke
icmp6_packet msg stack buffer s =
    let buflen = 2 * ip6_size + icmp6_size + 8 in
    let more = min 8 (ip6_plen buffer) in
    let packet =
      icmp6_ip_header (buflen - ip6_size) buffer s
      ++ ((icmp6_head msg ++ replicate 6 0)
          ++ (fit ip6_size buffer
              ++ (fit more (drop (ip6_size * ip6_size) buffer) ++ replicate (8 - more) 0))) in
    let pseudohdr = icmp6_pseudo stack packet in
    poke (ip6_size + 2) (u16_bytes (in_cksum pseudohdr (length pseudohdr))) packet

-- `htons(IP_DF)` for the frag field.
abbrev pub htons_ip_df : ℕ
htons_ip_df = 0x40

unfoldable pub send_icmp6_msg : IcmpError → List ℕ → List ℕ → Ptr → Router → Router
send_icmp6_msg msg stack buffer source_ip s =
    enqueue
      (record {
        buffer = icmp6_packet msg stack buffer s;
        dests = source_ip ∷ [];
        frag = htons_ip_df;
        tos = 0;
      })
      s
