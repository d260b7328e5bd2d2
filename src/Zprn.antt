-- ===== src/Zprn.antt =====
-- src/zprn.hpp, zprn.cxx, and the packet loop of handle_zprn_v2_pkt in src/main.cxx: the ZPRN v2
-- wire format. The loop is generic in the state that its handlers change.
pub mod RoundTrip
pub mod Invariant
use zprd.Prelude.{
  ℕ, zero, suc, ◌+◌, ◌-◌, List, [], ◌∷◌, ◌++◌, Bool, true, false, ◌&&◌, Option, none, some, drop,
  leb, ltb, ◌==◌, if◌then◌else◌,
}
use zprd.Bytes.{byte_at, fit, le16, htons, u16_bytes}
use zprd.Iafa.{InnerAddr, get_tflen, get_alen, pli_at2alen}

abbrev pub zprn_routemod : ℕ
zprn_routemod = 0x00

abbrev pub zprn_connmgmt : ℕ
zprn_connmgmt = 0x01

abbrev pub zprn2_probe : ℕ
zprn2_probe = 0x02

abbrev pub zprn_connmgmt_open : ℕ
zprn_connmgmt_open = 0x00

abbrev pub zprn_connmgmt_close : ℕ
zprn_connmgmt_close = 0xff

-- zprn_v2, the type of its route in host order.
pub record ZprnV2 : Type 0 where
  pub cmd : ℕ
  pub prio : ℕ
  pub route : InnerAddr

-- zprn_v2hdr::valid, on the bytes of the header.
unfoldable pub hdr_valid : List ℕ → Bool
hdr_valid h = byte_at h 0 == 0 && byte_at h 1 == 2

abbrev pub hdr_size : ℕ
hdr_size = 4

-- The header that worker_fn writes: zeroed, with version 2.
abbrev pub zprn_hdrv : List ℕ
zprn_hdrv = 0 ∷ 2 ∷ 0 ∷ 0 ∷ []

abbrev pub get_needed_size : ZprnV2 → ℕ
get_needed_size z = 2 + get_tflen z.route

-- `ntohs` on the type, then the entry that `*cur_ent` is; the bytes of the array start at bptr.
unfoldable pub read_entry : List ℕ → ZprnV2
read_entry bptr =
    let type = htons (le16 (drop 2 bptr)) in
    record {
      cmd = byte_at bptr 0;
      prio = byte_at bptr 1;
      route = record { type = type; addr = fit (pli_at2alen type) (drop 4 bptr) };
    }

-- The bytes of an entry in network order: what worker_fn appends after zprn_rttr.
unfoldable pub entry_bytes : ZprnV2 → List ℕ
entry_bytes z =
    z.cmd ∷ z.prio ∷ (u16_bytes (htons z.route.type) ++ fit (get_alen z.route) z.route.addr)

-- `while(bptr < eobptr)`: `left` is eobptr - bptr; an entry has four bytes at least, so that the
-- number of bytes left is fuel enough.
unfoldable pub packet_loop {ℓ} : {S : Type ℓ} → (ZprnV2 → S → S) → ℕ → ℕ → List ℕ → S → S
packet_loop handler zero left bptr s = s
packet_loop handler (suc fuel) left bptr s =
    let cur_ent = read_entry bptr in
    let size = get_needed_size cur_ent in
    let next = packet_loop handler fuel (left - size) (drop size bptr) (handler cur_ent s) in
    if left == 0 then s else (if ltb left size then s else next)

-- handle_zprn_v2_pkt: `none` is the result false.
unfoldable pub handle_zprn_v2_pkt {ℓ} : {S : Type ℓ} → (ZprnV2 → S → S) → List ℕ → ℕ → S → Option S
handle_zprn_v2_pkt handler buffer len s =
    if ltb (hdr_size + 2) len && hdr_valid buffer
    then some (packet_loop handler (len - hdr_size) (len - hdr_size) (drop hdr_size buffer) s)
    else none

-- handle_zprn_pkt
unfoldable pub handle_zprn_pkt {ℓ} : {S : Type ℓ} → (ZprnV2 → S → S) → List ℕ → ℕ → S → Option S
handle_zprn_pkt handler buffer len s =
    if ltb len 4
    then none
    else (if byte_at buffer 0 == 0
        then (if byte_at buffer 1 == 2 then handle_zprn_v2_pkt handler buffer len s else none)
        else none)
