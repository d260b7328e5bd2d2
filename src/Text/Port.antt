-- ===== src/Text/Port.antt =====
-- The port can be read back from the text of an address.
use zprd.Prelude.{
  ℕ, zero, suc, ◌+◌, ◌-◌, ◌*◌, ◌/◌, ◌%◌, ◌^◌, ◌<◌, ◌≡◌, ◌≢◌, inl, inr, refl, ap, sym, ◌∙◌, arith,
  List, [], ◌∷◌, ◌++◌, Bool, true, false, some, not, ltb, ◌==◌, ◌&&◌, if◌then◌else◌, Bool-cases,
  &&_parts,
}
use mathlib.Core.List.{append_assoc, append-nil}
use native.Mathlib.Nat.{pow-succ'}
use zprd.Oafa.{SockAddr, gp_port, gp_addr, af_unspec}
use zprd.Bytes.{htons}
use zprd.Text.{digits, ui162string, sa2string, addr2string, port_text}

-- The number that a text of digits stands for, from `n` on.
abbrev pub read_number : ℕ → List ℕ → ℕ
read_number n [] = n
read_number n (c ∷ cs) = read_number (n * 10 + (c - 48)) cs

-- What stands behind the last colon of a text.
abbrev pub behind_colon : List ℕ → List ℕ → List ℕ
behind_colon last [] = last
behind_colon last (c ∷ cs) =
    if c == b':' then behind_colon [] cs else behind_colon (last ++ (c ∷ [])) cs

read_number-snoc :
    (n : ℕ) (cs : List ℕ) (c : ℕ)
    → read_number n (cs ++ (c ∷ [])) ≡ read_number n cs * 10 + (c - 48)
read_number-snoc n [] c = refl
read_number-snoc n (d ∷ cs) c = read_number-snoc (n * 10 + (d - 48)) cs c

read_number-digits : (fuel x : ℕ) → x < 10 ^ fuel → read_number 0 (digits fuel x) ≡ x
unfolding digits
read_number-digits zero x h = omega arith
read_number-digits (suc fuel) x h = elim (Bool-cases (ltb x 10)) [
  | inl small ↦ rw small (omega arith)
  | inr large ↦
      let fits : x / 10 < 10 ^ fuel = omega (arith, pow-succ' 10 fuel) in
      rw large (
        read_number-snoc 0 (digits fuel (x / 10)) (48 + x % 10)
        ∙ ap (λ n. n * 10 + ((48 + x % 10) - 48)) (read_number-digits fuel (x / 10) fits)
        ∙ (omega arith))
]

-- No colon.
abbrev no_colon : List ℕ → Bool
no_colon [] = true
no_colon (c ∷ cs) = not (c == b':') && no_colon cs

no_colon-snoc :
    (cs : List ℕ) (c : ℕ) → no_colon cs ≡ true → c ≢ b':' → no_colon (cs ++ (c ∷ [])) ≡ true
no_colon-snoc [] c h k = ground arith
no_colon-snoc (d ∷ cs) c h k =
    let (other, rest) = &&_parts (not (d == b':')) (no_colon cs) h in
    rw (other, no_colon-snoc cs c rest k) refl

digit_no_colon : (x : ℕ) → x < 10 → not ((48 + x) == b':') ≡ true
digit_no_colon x h = ground arith

no_colon-digits : (fuel x : ℕ) → no_colon (digits fuel x) ≡ true
unfolding digits
no_colon-digits zero x = refl
no_colon-digits (suc fuel) x = elim (Bool-cases (ltb x 10)) [
  | inl small ↦ rw (small, digit_no_colon x (ground arith)) refl
  | inr large ↦ rw large (
      no_colon-snoc (digits fuel (x / 10)) (48 + x % 10) (no_colon-digits fuel (x / 10))
        (omega arith))
]

behind_colon-no_colon : (last cs : List ℕ) → no_colon cs ≡ true → behind_colon last cs ≡ last ++ cs
behind_colon-no_colon last [] h = sym (append-nil last)
behind_colon-no_colon last (c ∷ cs) h = elim (Bool-cases (c == b':')) [
  | inl colon ↦ ground arith
  | inr other ↦
      rw other
        (behind_colon-no_colon (last ++ (c ∷ [])) cs (ground arith) ∙ append_assoc last (c ∷ []) cs)
]

behind_colon-++ :
    (last before cs : List ℕ) → no_colon cs ≡ true → behind_colon last (before ++ (b':' ∷ cs)) ≡ cs
behind_colon-++ last [] cs h = behind_colon-no_colon [] cs h
behind_colon-++ last (c ∷ before) cs h = elim (Bool-cases (c == b':')) [
  | inl colon ↦ rw colon (behind_colon-++ [] before cs h)
  | inr other ↦ rw other (behind_colon-++ (last ++ (c ∷ [])) before cs h)
]

gp_port-family :
    (sas : SockAddr) (sanport : ℕ) → gp_port sas ≡ some sanport → (sas.family == af_unspec) ≡ false
unfolding gp_port
gp_port-family sas sanport h = ground arith

port_text_lem :
    (sas : SockAddr) (sanport : ℕ)
    → gp_port sas ≡ some sanport
    → port_text sas ≡ digits 5 (htons sanport)
unfolding port_text ui162string
port_text_lem sas sanport h = rw (h, port_text) refl

-- The text of an address with a port, whatever the text of the host is, ends with a colon and the
-- decimal digits of the port in the order of the host: read behind the last colon, they are
-- exactly this port.
pub sa2string-port :
    (inet_ntop : ℕ → List ℕ → List ℕ) (sas : SockAddr) (prefix : List ℕ) (sanport : ℕ)
    → gp_port sas ≡ some sanport
    → read_number 0 (behind_colon [] (sa2string inet_ntop sas prefix)) ≡ htons sanport
unfolding sa2string
sa2string-port inet_ntop sas prefix sanport has_port =
    let host = addr2string inet_ntop sas.family (gp_addr sas) in
    let port = digits 5 (htons sanport) in
    rw
      (
        gp_port-family sas sanport has_port,
        port_text_lem sas sanport has_port,
        sym (append_assoc prefix host (b':' ∷ port)),
      )
      (ap (read_number 0)
          (behind_colon-++ [] (prefix ++ host) port (no_colon-digits 5 (htons sanport)))
        ∙ read_number-digits 5 (htons sanport) (omega arith))
