-- ===== src/Config.antt =====
-- The configuration file of init_all in src/main.cxx, and the split of a host name in
-- src/resolve.cxx. A text is the list of its bytes. `stoi` of the standard library is an argument;
-- `none` is its exception, which ends the program.
pub mod Laws
use zprd.Prelude.{
  ℕ, zero, suc, ◌+◌, ◌-◌, ◌%◌, ◌^◌, List, [], ◌∷◌, ◌++◌, Bool, true, false, ◌&&◌, Option, none,
  some, leb, ◌==◌, map, is_empty, if◌then◌else◌,
}
use zprd.Oafa.{SockAddr, af_unspec, af_inet, af_inet6}

-- The settings of zprd_conf and the local variables of init_all that the file fills.
pub record Settings : Type 0 where
  pub iface : List ℕ
  pub remotes : List (List ℕ)
  pub route_hooks : List (List ℕ)
  pub data_port : ℕ
  pub remote_timeout : ℕ
  pub max_near_rtt : ℕ
  pub preferred_af : ℕ
  pub run_as_user : List ℕ
  pub addrs : List (List ℕ)
  pub exported_addrs : List (List ℕ)
  pub blocked_broadcasts : List (List ℕ)
  pub hooks : List (List ℕ)

abbrev pub defaults : Settings
defaults = record {
  iface = [];
  remotes = [];
  route_hooks = [];
  data_port = 45940;
  remote_timeout = 300;
  max_near_rtt = 5;
  preferred_af = af_unspec;
  run_as_user = [];
  addrs = [];
  exported_addrs = [];
  blocked_broadcasts = [];
  hooks = [];
}

abbrev pub text_eq : List ℕ → List ℕ → Bool
text_eq [] [] = true
text_eq [] (y ∷ ys) = false
text_eq (x ∷ xs) [] = false
text_eq (x ∷ xs) (y ∷ ys) = x == y && text_eq xs ys

-- ::toupper in the C locale.
abbrev pub toupper : ℕ → ℕ
toupper c = if leb b'a' c && leb c b'z' then c - 32 else c

abbrev pub text_inet : List ℕ
text_inet = b'I' ∷ b'N' ∷ b'E' ∷ b'T' ∷ []

abbrev pub text_ipv4 : List ℕ
text_ipv4 = b'I' ∷ b'P' ∷ b'V' ∷ b'4' ∷ []

abbrev pub text_ipv6 : List ℕ
text_ipv6 = b'I' ∷ b'P' ∷ b'V' ∷ b'6' ∷ []

unfoldable pub str2preferred_af : List ℕ → ℕ
str2preferred_af afdesc =
    let upper = map toupper afdesc in
    if text_eq upper text_inet
    then af_inet
    else (if text_eq upper text_ipv4
        then af_inet
        else (if text_eq upper (text_inet ++ (b'6' ∷ []))
            then af_inet6
            else (if text_eq upper text_ipv6 then af_inet6 else af_unspec)))

module _ (stoi : List ℕ → Option ℕ) where
  abbrev pub with_number : List ℕ → (ℕ → Settings) → Option Settings
  with_number arg f = elim (stoi arg) [ none ↦ none | some n ↦ some (f n) ]

  -- The switch on the first character of a line; the port and the RTT are 16 bit numbers.
  unfoldable pub apply_stmt : ℕ → List ℕ → Settings → Option Settings
  apply_stmt c arg s =
      if c == b'A'
      then some (record s { addrs = s.addrs ++ (arg ∷ []) })
      else (if c == b'B'
          then some (record s { blocked_broadcasts = s.blocked_broadcasts ++ (arg ∷ []) })
          else (if c == b'H'
              then some (record s { hooks = s.hooks ++ (arg ∷ []) })
              else (if c == b'h'
                  then some (record s { route_hooks = s.route_hooks ++ (arg ∷ []) })
                  else (if c == b'I'
                      then some (record s { iface = arg })
                      else (if c == b'L'
                          then some (record s { exported_addrs = s.exported_addrs ++ (arg ∷ []) })
                          else (if c == b'P'
                              then with_number arg (λ n. record s { data_port = n % 2 ^ 16 })
                              else (if c == b'R'
                                  then some (record s { remotes = s.remotes ++ (arg ∷ []) })
                                  else (if c == b'T'
                                      then with_number arg (λ n. record s { remote_timeout = n })
                                      else (if c == b'U'
                                          then some (record s { run_as_user = arg })
                                          else (if c == b'n'
                                              then with_number arg
                                                  (λ n. record s { max_near_rtt = n % 2 ^ 16 })
                                              else (if c == b'^'
                                                  then some (record s {
                                                    preferred_af = str2preferred_af arg;
                                                  })
                                                  else some s)))))))))))

  -- Empty lines and comments are skipped.
  unfoldable pub apply_line : List ℕ → Settings → Option Settings
  apply_line [] s = some s
  apply_line (c ∷ arg) s = if c == b'#' then some s else apply_stmt c arg s

  unfoldable pub apply_lines : List (List ℕ) → Settings → Option Settings
  apply_lines [] s = some s
  apply_lines (line ∷ lines) s = elim (apply_line line s) [
    | none ↦ none
    | some s1 ↦ apply_lines lines s1
  ]

  -- The whole file: an interface must be given. The result false is `none`, too.
  unfoldable pub read_config : List (List ℕ) → Option Settings
  read_config lines = elim (apply_lines lines defaults) [
    | none ↦ none
    | some s ↦ if is_empty s.iface then none else some s
  ]

-- resolve_hostname: the name is cut at the first '|' if anything follows it. The second part is
-- the port, `none` for a null pointer.
unfoldable pub split_port : List ℕ → List ℕ × Option (List ℕ)
split_port [] = ([], none)
split_port (c ∷ cs) =
    let (host, port) = split_port cs in
    if c == b'|' then (if is_empty cs then (c ∷ cs, none) else ([], some cs)) else (c ∷ host, port)

-- The choice among the results of getaddrinfo: the first of the preferred family, if a family is
-- preferred and there is one, else the first of all.
unfoldable pub find_family : ℕ → List SockAddr → Option SockAddr
find_family af [] = none
find_family af (a ∷ servinfo) = if a.family == af then some a else find_family af servinfo

unfoldable pub choose_addr : ℕ → List SockAddr → Option SockAddr
choose_addr preferred_af servinfo =
    let first : Option SockAddr = elim servinfo [ [] ↦ none | a ∷ _ ↦ some a ] in
    if preferred_af == af_unspec
    then first
    else elim (find_family preferred_af servinfo) [ none ↦ first | some a ↦ some a ]

-- resolve_hostname over getaddrinfo, whose failure is `none`.
unfoldable pub resolve_hostname :
    (List ℕ → Option (List ℕ) → Option (List SockAddr)) → ℕ → List ℕ → Option SockAddr
resolve_hostname getaddrinfo preferred_af hostname =
    let (host, port) = split_port hostname in
    elim (getaddrinfo host port) [ none ↦ none | some servinfo ↦ choose_addr preferred_af servinfo ]
