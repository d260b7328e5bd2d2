-- ===== src/Router/Icmp/Laws.antt =====
-- The ICMP messages that send_icmp_msg builds, read back by the fields of their headers.
use zprd.Prelude.{
  ℕ, ◌+◌, ◌≡◌, inl, inr, refl, List, [], ◌∷◌, arith, drop, length, length-append, length-replicate,
  replicate, min, ◌++◌, ◌-◌, ◌*◌, Option-cases,
}
use zprd.Bytes.{byte_at, fit}
use zprd.Bytes.Fit.{length-fit}
use zprd.Cksum.{in_cksum, sum_words, fold_sum}
use zprd.Iafa.{XnerAddr, iafa_at_inet}
use zprd.Ip.{
  ip_v, ip_len, ip_ttl, ip_p, ip_src, ip_dst, ip_size, icmphdr_size, icmp_type, icmp_code, ip_cksum,
  set_sum,
}
use zprd.Router.{Router, local_aptr}
use zprd.Router.Icmp.{
  IcmpError, ttl, unreach, unreach_net, get_local_addr, icmp_head, icmp_ip_header, icmp_header,
  icmp_packet,
}

-- The type and the code that RFC 792 gives a message.
abbrev pub type_and_code : IcmpError → ℕ × ℕ
type_and_code ttl = (11, 0)
type_and_code unreach = (3, 1)
type_and_code unreach_net = (3, 0)

-- The address is a field of four bytes.
get_local_addr-bytes :
    (locals : List XnerAddr)
    → (a : ℕ) × (b : ℕ) × (c : ℕ) × (d : ℕ) × (get_local_addr iafa_at_inet 4 locals
        ≡ a ∷ b ∷ c ∷ d ∷ [])
unfolding get_local_addr
get_local_addr-bytes locals = elim (Option-cases (local_aptr iafa_at_inet locals)) [
  | inl missing ↦ (0, 0, 0, 0, rw (missing, get_local_addr) refl)
  | inr (i, found) ↦
      let x = fit 4 i.inner.addr in
      (byte_at x 0, byte_at x 1, byte_at x 2, byte_at x 3, rw (found, get_local_addr) refl)
]

icmp_header-in_cksum : (msg : IcmpError) → in_cksum (icmp_header msg) icmphdr_size ≡ 0
unfolding icmp_header icmp_head in_cksum sum_words fold_sum
icmp_header-in_cksum ttl = refl
icmp_header-in_cksum unreach = refl
icmp_header-in_cksum unreach_net = refl

length-padded : (n : ℕ) (a : List ℕ) → length (fit (min 8 n) a ++ replicate (8 - min 8 n) 0) ≡ 8
length-padded n a = omega (
  arith,
  length-append (fit (min 8 n) a) (replicate (8 - min 8 n) 0),
  length-fit (min 8 n) a,
  length-replicate {A = ℕ} (8 - min 8 n) 0,
)

-- The answer to a packet is an IPv4 packet of 56 bytes with the full time to live, for ICMP, back
-- to the source of the packet. Behind its header is an ICMP header with the type and the code of
-- the message, over which alone the checksum comes out even, and behind that the header of the
-- packet with its checksum as it is computed.
pub icmp_packet_lem :
    (msg : IcmpError) (id : ℕ) (buffer : List ℕ) (s : Router)
    → let packet = icmp_packet msg id buffer s in
      (length packet ≡ 56)
      × (ip_v packet ≡ 4)
      × (ip_len packet ≡ 56)
      × (ip_ttl packet ≡ 255)
      × (ip_p packet ≡ 1)
      × (ip_dst packet ≡ ip_src buffer)
      × (icmp_type (drop ip_size packet) ≡ (type_and_code msg).0)
      × (icmp_code (drop ip_size packet) ≡ (type_and_code msg).1)
      × (in_cksum (fit icmphdr_size (drop ip_size packet)) icmphdr_size ≡ 0)
      × (fit ip_size (drop (ip_size + icmphdr_size) packet)
          ≡ fit ip_size (set_sum (ip_cksum buffer) buffer))
unfolding icmp_packet icmp_ip_header icmp_header icmp_head
icmp_packet_lem ttl id buffer s =
    let (a, b, c, d, local) = get_local_addr-bytes s.locals in
    rw local (
      omega (arith, length-padded (ip_len buffer) (drop (ip_size * ip_size) buffer)),
      refl,
      refl,
      refl,
      refl,
      refl,
      refl,
      refl,
      icmp_header-in_cksum ttl,
      refl,
    )
icmp_packet_lem unreach id buffer s =
    let (a, b, c, d, local) = get_local_addr-bytes s.locals in
    rw local (
      omega (arith, length-padded (ip_len buffer) (drop (ip_size * ip_size) buffer)),
      refl,
      refl,
      refl,
      refl,
      refl,
      refl,
      refl,
      icmp_header-in_cksum unreach,
      refl,
    )
icmp_packet_lem unreach_net id buffer s =
    let (a, b, c, d, local) = get_local_addr-bytes s.locals in
    rw local (
      omega (arith, length-padded (ip_len buffer) (drop (ip_size * ip_size) buffer)),
      refl,
      refl,
      refl,
      refl,
      refl,
      refl,
      refl,
      icmp_header-in_cksum unreach_net,
      refl,
    )
