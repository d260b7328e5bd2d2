-- ===== src/Router/Verify.antt =====
-- verify_ipv4_packet and verify_ipv6_packet of src/main.cxx: `some` the length from the header,
-- or `none` for a packet that is dropped.
use zprd.Prelude.{
  ℕ, ◌+◌, ◌%◌, ◌^◌, List, true, not, ◌&&◌, Option, none, some, ltb, ◌==◌, if◌then◌else◌,
}
use zprd.Iafa.{of_ip4, of_ip6}
use zprd.Ip.{ip_cksum, ip_len, ip_src, ip6_plen, ip6_size, ip6_src}
use zprd.Peer.{Ptr, is_local}
use zprd.Router.{Router, am_ii_addr}

unfoldable pub verify_ipv4_packet : Ptr → List ℕ → ℕ → Router → Option ℕ
verify_ipv4_packet srca buffer nread s =
    let srca_is_local = is_local (s.heap srca) in
    let len = ip_len buffer in
    if srca_is_local && not (ip_cksum buffer == 0)
    then none
    else (if ltb nread len
        then none
        else (if not srca_is_local && am_ii_addr (of_ip4 (ip_src buffer)) true s
            then none
            else some len))

-- The length is a uint16_t.
unfoldable pub verify_ipv6_packet : Ptr → List ℕ → ℕ → Router → Option ℕ
verify_ipv6_packet srca buffer nread s =
    let len = (ip6_plen buffer + ip6_size) % 2 ^ 16 in
    if ltb nread len
    then none
    else (if not (is_local (s.heap srca)) && am_ii_addr (of_ip6 (ip6_src buffer)) true s
        then none
        else some len)
