-- ===== src/Zprn/Invariant.antt =====
-- What every handler keeps, a whole packet keeps.
use zprd.Prelude.{
  ℕ, zero, suc, ◌-◌, ◌+◌, List, Bool, true, false, Option, some, none, drop, ltb, ◌==◌, ◌&&◌,
  if◌then◌else◌,
}
use zprd.Bytes.{byte_at}
use zprd.Zprn.{
  ZprnV2, packet_loop, handle_zprn_v2_pkt, handle_zprn_pkt, get_needed_size, read_entry, hdr_size,
  hdr_valid,
}

module _ {ℓ κ} {S : Type ℓ} (P : S → Type κ) (handler : ZprnV2 → S → S)
    (keep : (z : ZprnV2) (s : S) → P s → P (handler z s)) where
  pick : (b : Bool) (s t : S) → P s → P t → P (if b then s else t)
  pick true s t h k = h
  pick false s t h k = k

  packet_loop-keeps :
      (fuel left : ℕ) (bptr : List ℕ) (s : S) → P s → P (packet_loop handler fuel left bptr s)
  unfolding packet_loop
  packet_loop-keeps zero left bptr s h = h
  packet_loop-keeps (suc fuel) left bptr s h = pick (left == 0) s _ h (
      pick (ltb left (get_needed_size (read_entry bptr))) s _ h (
        packet_loop-keeps fuel (left - get_needed_size (read_entry bptr))
          (drop (get_needed_size (read_entry bptr)) bptr) (handler (read_entry bptr) s)
          (keep (read_entry bptr) s h)))

  -- The predicate of the state that a packet leads to, if it is valid.
  abbrev pub Kept : Option S → Type κ
  Kept none = Unit
  Kept (some t) = P t

  Kept-if : (b : Bool) (x y : Option S) → Kept x → Kept y → Kept (if b then x else y)
  Kept-if true x y h k = h
  Kept-if false x y h k = k

  pub handle_zprn_pkt-keeps :
      (buffer : List ℕ) (len : ℕ) (s : S) → P s → Kept (handle_zprn_pkt handler buffer len s)
  unfolding handle_zprn_pkt handle_zprn_v2_pkt
  handle_zprn_pkt-keeps buffer len s h = Kept-if (ltb len 4) none _ tt (
      Kept-if (byte_at buffer 0 == 0) _ none
        (Kept-if (byte_at buffer 1 == 2) _ none
          (Kept-if (ltb (hdr_size + 2) len && hdr_valid buffer) (some _) none
            (packet_loop-keeps (len - hdr_size) (len - hdr_size) (drop hdr_size buffer) s h) tt)
          tt)
        tt)
