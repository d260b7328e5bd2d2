-- ===== src/Config/Laws.antt =====
-- What the configuration file sets, and how a host name is split.
use zprd.Prelude.{
  ℕ, ◌≡◌, ◌≢◌, ◌⊎◌, inl, inr, refl, ap, sym, subst, ◌∙◌, arith, List, [], ◌∷◌, ◌++◌, true, false,
  Option, none, some, ◌==◌, Bool-cases, Option-cases, is_empty, All, if◌then◌else◌,
}
use mathlib.Core.List.{append_assoc, append-nil}
use zprd.Config.{Settings, defaults, apply_stmt, apply_line, apply_lines, read_config, split_port}

-- The arguments of the lines with this first character, in order.
unfoldable pub args : ℕ → List (List ℕ) → List (List ℕ)
args c [] = []
args c ([] ∷ lines) = args c lines
args c ((k ∷ arg) ∷ lines) = if k == c then arg ∷ args c lines else args c lines

-- The list settings of `t` are those of `s`, followed by the arguments of the lines.
abbrev pub Collected : List (List ℕ) → Settings → Settings → Type 0
Collected lines s t =
    (t.remotes ≡ s.remotes ++ args b'R' lines)
    × (t.addrs ≡ s.addrs ++ args b'A' lines)
    × (t.exported_addrs ≡ s.exported_addrs ++ args b'L' lines)
    × (t.blocked_broadcasts ≡ s.blocked_broadcasts ++ args b'B' lines)
    × (t.hooks ≡ s.hooks ++ args b'H' lines)
    × (t.route_hooks ≡ s.route_hooks ++ args b'h' lines)

args-cons :
    (k : ℕ) (line : List ℕ) (lines : List (List ℕ))
    → args k (line ∷ lines) ≡ args k (line ∷ []) ++ args k lines
unfolding args
args-cons k [] lines = refl
args-cons k (c ∷ arg) lines = ground arith

onto :
    (k : ℕ) (line : List ℕ) (lines : List (List ℕ)) (xs ys zs : List (List ℕ))
    → ys ≡ xs ++ args k (line ∷ [])
    → zs ≡ ys ++ args k lines
    → zs ≡ xs ++ args k (line ∷ lines)
onto k line lines xs ys zs h g =
    g
    ∙ (ap (λ ys. ys ++ args k lines) h
        ∙ (append_assoc xs (args k (line ∷ [])) (args k lines)
            ∙ ap (xs ++◌) (sym (args-cons k line lines))))

module _ (stoi : List ℕ → Option ℕ) where
  apply_line_lem :
      (line : List ℕ) (s t : Settings) → apply_line stoi line s ≡ some t → Collected (line ∷ []) s t
  unfolding apply_line apply_stmt args
  apply_line_lem [] s t h = ground (
    arith,
    h,
    append-nil s.remotes,
    append-nil s.addrs,
    append-nil s.exported_addrs,
    append-nil s.blocked_broadcasts,
    append-nil s.hooks,
    append-nil s.route_hooks,
  )
  apply_line_lem (c ∷ arg) s t h = ground (
    arith,
    h,
    append-nil s.remotes,
    append-nil s.addrs,
    append-nil s.exported_addrs,
    append-nil s.blocked_broadcasts,
    append-nil s.hooks,
    append-nil s.route_hooks,
  )

  apply_lines_lem :
      (lines : List (List ℕ)) (s t : Settings)
      → apply_lines stoi lines s ≡ some t
      → Collected lines s t
  unfolding apply_lines args
  apply_lines_lem [] s t h = ground (
    arith,
    h,
    append-nil s.remotes,
    append-nil s.addrs,
    append-nil s.exported_addrs,
    append-nil s.blocked_broadcasts,
    append-nil s.hooks,
    append-nil s.route_hooks,
  )
  apply_lines_lem (line ∷ lines) s t h = elim (Option-cases (apply_line stoi line s)) [
    | inl failed ↦ absurd (cc (h, failed))
    | inr (u, applied) ↦
        let (r1, a1, e1, b1, h1, k1) = apply_line_lem line s u applied in
        let (r2, a2, e2, b2, h2, k2) = apply_lines_lem lines u t (rest u applied) in
        (
          onto _ line lines _ _ _ r1 r2,
          onto _ line lines _ _ _ a1 a2,
          onto _ line lines _ _ _ e1 e2,
          onto _ line lines _ _ _ b1 b2,
          onto _ line lines _ _ _ h1 h2,
          onto _ line lines _ _ _ k1 k2,
        )
  ]
    where
      rest : (u : Settings) → apply_line stoi line s ≡ some u → apply_lines stoi lines u ≡ some t
      rest u applied = cc (h, applied)

  -- Settings that the configuration file gives have an interface, and hold in each of the list
  -- settings the arguments of the lines with its letter, in order.
  pub read_config_lem :
      (lines : List (List ℕ)) (t : Settings)
      → read_config stoi lines ≡ some t
      → Collected lines defaults t × (is_empty t.iface ≡ false)
  unfolding read_config
  read_config_lem lines t h = elim (Option-cases (apply_lines stoi lines defaults)) [
    | inl failed ↦ absurd (cc (h, failed))
    | inr (u, read) ↦ elim (Bool-cases (is_empty u.iface)) [
      | inl unset ↦ absurd (cc (h, read, unset))
      | inr named ↦
          subst (λ v. Collected lines defaults v × (is_empty v.iface ≡ false)) (same u read named)
            (apply_lines_lem lines defaults u read, named)
    ]
  ]
    where
      same :
          (u : Settings)
          → apply_lines stoi lines defaults ≡ some u
          → is_empty u.iface ≡ false
          → u ≡ t
      same u read named = cc (h, read, named)

-- The name has no '|'.
abbrev pub NoBar : List ℕ → Type 0
NoBar = All (λ c. c ≢ b'|')

-- How a name is taken apart: at a '|' with no other before it and something behind it, or not at
-- all, if there is no '|', or nothing behind the first one.
abbrev pub Split : List ℕ → List ℕ × Option (List ℕ) → Type 0
Split name (host, port) =
    ((text : List ℕ) × (port ≡ some text)
      × (text ≢ [])
      × NoBar host
      × (name ≡ host ++ (b'|' ∷ text)))
    ⊎ ((port ≡ none)
        × (host ≡ name)
        × (NoBar name ⊎ ((front : List ℕ) × NoBar front × (name ≡ front ++ (b'|' ∷ [])))))

split_port_plain :
    (c : ℕ) (cs : List ℕ)
    → (c == b'|') ≡ false
    → split_port (c ∷ cs) ≡ (c ∷ (split_port cs).0, (split_port cs).1)
unfolding split_port
split_port_plain c cs h = ground arith

split_port_bar :
    (c d : ℕ) (ds : List ℕ) → (c == b'|') ≡ true → split_port (c ∷ d ∷ ds) ≡ ([], some (d ∷ ds))
unfolding split_port
split_port_bar c d ds h = ground arith

split_port_end : (c : ℕ) → (c == b'|') ≡ true → split_port (c ∷ []) ≡ (c ∷ [], none)
unfolding split_port
split_port_end c h = ground arith

more_plain :
    (c : ℕ) (cs host : List ℕ) (port : Option (List ℕ))
    → c ≢ b'|'
    → Split cs (host, port)
    → Split (c ∷ cs) (c ∷ host, port)
more_plain c cs host port h (inl (text, found, nonempty, clean, same)) =
    inl (text, found, nonempty, (h, clean), ap (◌∷◌ c) same)
more_plain c cs host port h (inr (nowhere, same, inl clean)) =
    inr (nowhere, ap (◌∷◌ c) same, inl (h, clean))
more_plain c cs host port h (inr (nowhere, same, inr (front, clean, split))) =
    inr (nowhere, ap (◌∷◌ c) same, inr (c ∷ front, (h, clean), ap (◌∷◌ c) split))

-- A host name is taken apart at its first '|', unless nothing follows it there; the parts and the
-- '|' are the whole name.
pub split_port_lem : (name : List ℕ) → Split name (split_port name)
unfolding split_port
split_port_lem [] = inr (refl, refl, inl tt)
split_port_lem (c ∷ cs) = elim (Bool-cases (c == b'|')) [
  | inl bar ↦ at_bar cs bar
  | inr plain ↦
      subst (Split (c ∷ cs)) (sym (split_port_plain c cs plain))
        (more_plain c cs (split_port cs).0 (split_port cs).1 (ground arith) (split_port_lem cs))
]
  where
    at_bar : (cs : List ℕ) → (c == b'|') ≡ true → Split (c ∷ cs) (split_port (c ∷ cs))
    at_bar [] bar =
        subst (Split (c ∷ [])) (sym (split_port_end c bar))
          (inr (refl, refl, inr ([], tt, ap (λ x. x ∷ []) (ground arith))))
    at_bar (d ∷ ds) bar =
        subst (Split (c ∷ d ∷ ds)) (sym (split_port_bar c d ds bar))
          (inl (d ∷ ds, refl, ground arith, tt, ap (λ x. x ∷ d ∷ ds) (ground arith)))
