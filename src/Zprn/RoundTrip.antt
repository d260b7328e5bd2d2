-- ===== src/Zprn/RoundTrip.antt =====
-- What worker_fn writes is what handle_zprn_v2_pkt reads.
use zprd.Prelude.{
  ℕ, zero, suc, ◌+◌, ◌*◌, ◌/◌, ◌%◌, ◌-◌, ◌≤◌, ◌<◌, ◌≡◌, refl, ◌∙◌, ap, arith, List, [], ◌∷◌, ◌++◌,
  All, some, if◌then◌else◌, ltb, ◌==◌, false, length, drop, length-append, drop-append,
}
use mathlib.Core.List.{append_assoc}
use zprd.Bytes.Fit.{length-fit}
use zprd.Bytes.{byte_at, rest, fit, htons}
use zprd.Iafa.{get_alen}
use zprd.Zprn.{
  ZprnV2, read_entry, entry_bytes, get_needed_size, packet_loop, handle_zprn_v2_pkt,
  handle_zprn_pkt, hdr_valid, zprn_hdrv,
}

-- A message as its sender builds it: a 16 bit type, and an address of the length that the type says.
pub record IsWire (z : ZprnV2) : Type 0 where
  pub type_fits : z.route.type < 65536
  pub addr_whole : length z.route.addr ≡ get_alen z.route

-- The concatenated entries of a packet.
unfoldable pub body_bytes : List ZprnV2 → List ℕ
body_bytes [] = []
body_bytes (z ∷ zs) = entry_bytes z ++ body_bytes zs

-- The messages in the order in which a handler gets them.
unfoldable pub handle_all {ℓ} : {S : Type ℓ} → (ZprnV2 → S → S) → List ZprnV2 → S → S
handle_all handler [] s = s
handle_all handler (z ∷ zs) s = handle_all handler zs (handler z s)

fit-append : (a b : List ℕ) → fit (length a) (a ++ b) ≡ a
fit-append [] b = refl
fit-append (x ∷ a) b = ap (◌∷◌ x) (fit-append a b)

fit_self : (a : List ℕ) → fit (length a) a ≡ a
fit_self [] = refl
fit_self (x ∷ a) = ap (◌∷◌ x) (fit_self a)

pub length-entry_bytes : (z : ZprnV2) → length (entry_bytes z) ≡ get_needed_size z
unfolding entry_bytes
length-entry_bytes z = omega (arith, length-fit (get_alen z.route) z.route.addr)

read_entry-type :
    (z : ZprnV2) (more : List ℕ)
    → z.route.type < 65536
    → (read_entry (entry_bytes z ++ more)).route.type ≡ z.route.type
unfolding read_entry entry_bytes
read_entry-type z more h = omega arith

fit-fit-append : (n : ℕ) (a more : List ℕ) → fit n (fit n a ++ more) ≡ fit n a
fit-fit-append zero a more = refl
fit-fit-append (suc n) a more = ap (◌∷◌ (byte_at a 0)) (fit-fit-append n (rest a) more)

read_entry-addr :
    (z : ZprnV2) (more : List ℕ)
    → IsWire z
    → (read_entry (entry_bytes z ++ more)).route.addr ≡ z.route.addr
unfolding read_entry entry_bytes
read_entry-addr z more w =
    rw (swapped, fit-fit-append (get_alen z.route) z.route.addr more, ← w.addr_whole)
      (fit_self z.route.addr)
  where
    swapped :
        htons (htons z.route.type % 256 + 256 * (htons z.route.type / 256)) % 32 ≡ get_alen z.route
    swapped = omega (arith, w.type_fits)

pub read_entry-entry_bytes :
    (z : ZprnV2) (more : List ℕ) → IsWire z → read_entry (entry_bytes z ++ more) ≡ z
unfolding read_entry entry_bytes
read_entry-entry_bytes z more w =
    ground (arith, read_entry-type z more w.type_fits, read_entry-addr z more w)

needed_size-pos : (z : ZprnV2) → 4 ≤ get_needed_size z
needed_size-pos z = omega arith

drop_entry : (z : ZprnV2) (more : List ℕ) → drop (get_needed_size z) (entry_bytes z ++ more) ≡ more
drop_entry z more = rw (← length-entry_bytes z) (drop-append (entry_bytes z) more)

packet_loop-zero {ℓ} :
    {S : Type ℓ} (handler : ZprnV2 → S → S) (fuel : ℕ) (bptr : List ℕ) (s : S)
    → packet_loop handler fuel 0 bptr s ≡ s
unfolding packet_loop
packet_loop-zero handler zero bptr s = refl
packet_loop-zero handler (suc fuel) bptr s = refl

packet_loop-suc {ℓ} :
    {S : Type ℓ} (handler : ZprnV2 → S → S) (fuel left : ℕ) (bptr : List ℕ) (s : S)
    → packet_loop handler (suc fuel) left bptr s ≡ (
        if left == 0
        then s
        else (if ltb left (get_needed_size (read_entry bptr))
            then s
            else packet_loop handler fuel
                (left - get_needed_size (read_entry bptr))
                (drop (get_needed_size (read_entry bptr)) bptr)
                (handler (read_entry bptr) s)))
unfolding packet_loop
packet_loop-suc handler fuel left bptr s = refl

-- One round of the loop on a packet that begins with an entry.
packet_loop_step {ℓ} :
    {S : Type ℓ} (handler : ZprnV2 → S → S) (fuel left : ℕ) (z : ZprnV2) (more : List ℕ) (s : S)
    → IsWire z
    → packet_loop handler (suc fuel) (get_needed_size z + left) (entry_bytes z ++ more) s
      ≡ packet_loop handler fuel left more (handler z s)
packet_loop_step handler fuel left z more s w =
    rw (
      packet_loop-suc,
      read_entry-entry_bytes z more w,
      drop_entry z more,
      goes_on,
      fits,
      rest_left,
    )
  where
    goes_on : (get_needed_size z + left == 0) ≡ false
    goes_on = ground arith

    fits : ltb (get_needed_size z + left) (get_needed_size z) ≡ false
    fits = ground arith

    rest_left : get_needed_size z + left - get_needed_size z ≡ left
    rest_left = omega arith

packet_loop-body_bytes {ℓ} :
    {S : Type ℓ} (handler : ZprnV2 → S → S) (fuel : ℕ) (zs : List ZprnV2) (stale : List ℕ) (s : S)
    → All IsWire zs
    → length (body_bytes zs) ≤ fuel
    → packet_loop handler fuel (length (body_bytes zs)) (body_bytes zs ++ stale) s
      ≡ handle_all handler zs s
unfolding body_bytes handle_all
packet_loop-body_bytes handler fuel [] stale s w h = packet_loop-zero handler fuel stale s
packet_loop-body_bytes handler zero (z ∷ zs) stale s w h =
    absurd (omega (arith, length-append (entry_bytes z) (body_bytes zs), length-entry_bytes z))
packet_loop-body_bytes handler (suc fuel) (z ∷ zs) stale s w h =
    rw (append_assoc, length-append (entry_bytes z) (body_bytes zs), length-entry_bytes z)
      (packet_loop_step handler fuel (length (body_bytes zs)) z (body_bytes zs ++ stale) s w.0
        ∙ packet_loop-body_bytes handler fuel zs stale (handler z s) w.1
            (omega (arith, length-append (entry_bytes z) (body_bytes zs), length-entry_bytes z)))

long_body : (z : ZprnV2) (zs : List ZprnV2) → 4 ≤ length (body_bytes (z ∷ zs))
unfolding body_bytes
long_body z zs = omega (arith, length-append (entry_bytes z) (body_bytes zs), length-entry_bytes z)

-- For messages with a 16 bit address type and the address length that it says: the bytes of a
-- packet with the header of worker_fn and one entry at least, whatever stale bytes follow them in
-- the buffer, are accepted, and the handlers get exactly the messages that were written, in order.
pub handle_zprn_pkt-body_bytes {ℓ} :
    {S : Type ℓ} (handler : ZprnV2 → S → S) (z : ZprnV2) (zs : List ZprnV2) (stale : List ℕ) (s : S)
    → All IsWire (z ∷ zs)
    → let packet = zprn_hdrv ++ body_bytes (z ∷ zs) in
      handle_zprn_pkt handler (packet ++ stale) (length packet) s
      ≡ some (handle_all handler (z ∷ zs) s)
unfolding handle_zprn_pkt handle_zprn_v2_pkt hdr_valid
handle_zprn_pkt-body_bytes handler z zs stale s w = ground (arith, loop, length_body)
  where
    n : ℕ
    n = length (body_bytes (z ∷ zs))

    loop : packet_loop handler n n (body_bytes (z ∷ zs) ++ stale) s ≡ handle_all handler (z ∷ zs) s
    loop = packet_loop-body_bytes handler n (z ∷ zs) stale s w (omega arith)

    length_body : 4 ≤ n
    length_body = long_body z zs
