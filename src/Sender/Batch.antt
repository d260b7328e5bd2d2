-- ===== src/Sender/Batch.antt =====
-- How the worker joins ZPRN messages to packets.
use zprd.Prelude.{
  ℕ, ◌+◌, ◌≤◌, ◌≡◌, refl, ap, sym, ◌∙◌, arith, List, [], ◌∷◌, ◌++◌, All, false, ◌==◌, Bool-cases,
  inl, inr, is_empty, length, length-append, ltb, map, if◌then◌else◌,
}
use mathlib.Core.List.{append_assoc, append-nil}
use zprd.Peer.{Ptr}
use zprd.Zprn.{ZprnV2, entry_bytes, get_needed_size, zprn_hdrv}
use zprd.Zprn.RoundTrip.{body_bytes, length-entry_bytes}
use zprd.Sender.{ZprnSdat}
use zprd.Sender.Worker.{ZprnBuf, add_entry, buffer_of, put_entry, put_dests, build_buf}

-- The packet that holds these messages.
abbrev pub packet_of : List ZprnV2 → List ℕ
packet_of zs = zprn_hdrv ++ body_bytes zs

abbrev pub flatten : List (List ZprnV2) → List ZprnV2
flatten [] = []
flatten (g ∷ groups) = g ++ flatten groups

-- The copies of a message for one destination.
abbrev pub copies : Ptr → ZprnV2 → List Ptr → List ZprnV2
copies dest z [] = []
copies dest z (d ∷ ds) = if dest == d then z ∷ copies dest z ds else copies dest z ds

-- What the queued messages say to one destination, in order.
abbrev pub addressed : Ptr → List ZprnSdat → List ZprnV2
addressed dest [] = []
addressed dest (i ∷ msgs) = copies dest i.zprn i.dests ++ addressed dest msgs

-- A packet's messages: one at least, and at most 1232 bytes with the header.
abbrev pub IsGroup : List ZprnV2 → Type 0
IsGroup g = (is_empty g ≡ false) × (length (packet_of g) ≤ 1232)

-- Packets that hold these messages, in order.
abbrev pub Packs : List (List ℕ) → List ZprnV2 → Type 0
Packs packets zs =
    (groups : List (List ZprnV2)) × (packets ≡ map packet_of groups)
    × (flatten groups ≡ zs)
    × All IsGroup groups

body_bytes-append : (a b : List ZprnV2) → body_bytes (a ++ b) ≡ body_bytes a ++ body_bytes b
unfolding body_bytes
body_bytes-append [] b = refl
body_bytes-append (z ∷ a) b =
    ap (entry_bytes z ++◌) (body_bytes-append a b)
    ∙ sym (append_assoc (entry_bytes z) (body_bytes a) (body_bytes b))

body_bytes_one : (z : ZprnV2) → body_bytes (z ∷ []) ≡ entry_bytes z
unfolding body_bytes
body_bytes_one z = append-nil (entry_bytes z)

packet_of-append :
    (g : List ZprnV2) (z : ZprnV2) → packet_of (g ++ (z ∷ [])) ≡ packet_of g ++ entry_bytes z
packet_of-append g z =
    ap (zprn_hdrv ++◌) (body_bytes-append g (z ∷ []) ∙ ap (body_bytes g ++◌) (body_bytes_one z))

length_packet-append :
    (g : List ZprnV2) (z : ZprnV2)
    → length (packet_of (g ++ (z ∷ []))) ≡ length (packet_of g) + get_needed_size z
length_packet-append g z =
    ap length (packet_of-append g z)
    ∙ (length-append (packet_of g) (entry_bytes z)
        ∙ ap (length (packet_of g) +◌) (length-entry_bytes z))

IsGroup-one : (z : ZprnV2) → IsGroup (z ∷ [])
IsGroup-one z = (refl, rw (body_bytes_one z) (omega (arith, length-entry_bytes z)))

-- One more entry for packets that hold messages.
joined :
    (z : ZprnV2) (groups : List (List ZprnV2))
    → All IsGroup groups
    → Packs (add_entry z (map packet_of groups)) (flatten groups ++ (z ∷ []))
unfolding add_entry
joined z [] h = (
  (z ∷ []) ∷ [],
  ap (λ b. (zprn_hdrv ++ b) ∷ []) (sym (body_bytes_one z)),
  refl,
  (IsGroup-one z, tt),
)
joined z (g ∷ []) h = elim (Bool-cases (ltb 1232 (length (packet_of g) + get_needed_size z))) [
  | inl full ↦ (
    g ∷ (z ∷ []) ∷ [],
    rw full (ap (λ b. packet_of g ∷ (zprn_hdrv ++ b) ∷ []) (sym (body_bytes_one z))),
    rw (append-nil g) refl,
    (h.0, (IsGroup-one z, tt)),
  )
  | inr fits ↦ (
    (g ++ (z ∷ [])) ∷ [],
    rw fits (ap (λ p. p ∷ []) (sym (packet_of-append g z))),
    rw (append-nil g, append-nil (g ++ (z ∷ []))) refl,
    ((nonempty g, short fits), tt),
  )
]
  where
    nonempty : (xs : List ZprnV2) → is_empty (xs ++ (z ∷ [])) ≡ false
    nonempty [] = refl
    nonempty (x ∷ xs) = refl

    short :
        ltb 1232 (length (packet_of g) + get_needed_size z) ≡ false
        → length (packet_of (g ++ (z ∷ []))) ≤ 1232
    short fits = ground (arith, fits, length_packet-append g z)
joined z (g ∷ k ∷ groups) h =
    let (more, same, flat, good) = joined z (k ∷ groups) h.1 in
    (
      g ∷ more,
      ap (◌∷◌ (packet_of g)) same,
      ap (g ++◌) flat ∙ sym (append_assoc g (flatten (k ∷ groups)) (z ∷ [])),
      (h.0, good),
    )

add_entry-Packs :
    (z : ZprnV2) (packets : List (List ℕ)) (zs : List ZprnV2)
    → Packs packets zs
    → Packs (add_entry z packets) (zs ++ (z ∷ []))
add_entry-Packs z packets zs (groups, same, flat, good) = rw (same, ← flat) (joined z groups good)

buffer_of-put_entry :
    (d e : Ptr) (z : ZprnV2) (buf : ZprnBuf)
    → buffer_of d (put_entry z e buf)
      ≡ (if d == e then add_entry z (buffer_of d buf) else buffer_of d buf)
unfolding buffer_of put_entry
buffer_of-put_entry d e z [] = ground arith
buffer_of-put_entry d e z ((k, ps) ∷ buf) = ground (arith, buffer_of-put_entry d e z buf)

put_dests-Packs :
    (d : Ptr) (z : ZprnV2) (dests : List Ptr) (buf : ZprnBuf) (zs : List ZprnV2)
    → Packs (buffer_of d buf) zs
    → Packs (buffer_of d (put_dests z dests buf)) (zs ++ copies d z dests)
unfolding put_dests
put_dests-Packs d z [] buf zs h = rw (append-nil zs) h
put_dests-Packs d z (e ∷ dests) buf zs h = elim (Bool-cases (d == e)) [
  | inl here ↦
      rw (here, ← append_assoc zs (z ∷ []) (copies d z dests))
        (put_dests-Packs d z dests (put_entry z e buf) (zs ++ (z ∷ []))
          (rw (buffer_of-put_entry d e z buf, here) (add_entry-Packs z (buffer_of d buf) zs h)))
  | inr elsewhere ↦ rw elsewhere (
      put_dests-Packs d z dests (put_entry z e buf) zs
        (rw (buffer_of-put_entry d e z buf, elsewhere) h))
]

build_buf_onto :
    (d : Ptr) (msgs : List ZprnSdat) (buf : ZprnBuf) (zs : List ZprnV2)
    → Packs (buffer_of d buf) zs
    → Packs (buffer_of d (build_buf msgs buf)) (zs ++ addressed d msgs)
unfolding build_buf
build_buf_onto d [] buf zs h = rw (append-nil zs) h
build_buf_onto d (i ∷ msgs) buf zs h =
    rw (← append_assoc zs (copies d i.zprn i.dests) (addressed d msgs)) (
      build_buf_onto d msgs (put_dests i.zprn i.dests buf) (zs ++ copies d i.zprn i.dests)
        (put_dests-Packs d i.zprn i.dests buf zs h))

-- The packets that the worker builds for a destination hold exactly the messages that are addressed
-- to it, in order; each packet holds one message at least, and is 1232 bytes long at most.
pub build_buf-Packs :
    (d : Ptr) (msgs : List ZprnSdat) → Packs (buffer_of d (build_buf msgs [])) (addressed d msgs)
unfolding buffer_of
build_buf-Packs d msgs = build_buf_onto d msgs [] [] ([], refl, refl, tt)
