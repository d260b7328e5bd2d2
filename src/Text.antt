-- ===== src/Text.antt =====
-- libzsneta/AFa.cxx and inner_addr_t::to_string: addresses as texts, for the log, the hooks and
-- the print-out of the routes. `inet_ntop` of the C library gives the text of an address.
pub mod Port
pub mod Table
use zprd.Prelude.{
  ℕ, zero, suc, ◌+◌, ◌/◌, ◌%◌, List, [], ◌∷◌, ◌++◌, Option, none, some, codes, ltb, ◌==◌, ◌||◌,
  if◌then◌else◌,
}
use zprd.Bytes.{htons}
use zprd.Iafa.{InnerAddr, iafa_at2sa_family}
use zprd.Oafa.{SockAddr, gp_addr, gp_port, af_unspec, af_inet, af_inet6}

-- std::to_string of a number, on fuel for its digits.
unfoldable pub digits : ℕ → ℕ → List ℕ
digits zero x = []
digits (suc fuel) x =
    let rest = digits fuel (x / 10) in
    if ltb x 10 then (48 + x) ∷ [] else rest ++ ((48 + x % 10) ∷ [])

-- ui162string: a number of 16 bits has five digits at most.
unfoldable pub ui162string : ℕ → List ℕ
unfolding digits
ui162string x = digits 5 x

-- AFa_addr2string; `none` is the null pointer.
unfoldable pub addr2string : (ℕ → List ℕ → List ℕ) → ℕ → Option (List ℕ) → List ℕ
addr2string inet_ntop sa_fam none = codes "(null)"
addr2string inet_ntop sa_fam (some addr) =
    if sa_fam == af_unspec
    then codes "localhost"
    else (if sa_fam == af_inet || sa_fam == af_inet6
        then inet_ntop sa_fam addr
        else codes "-unsupported-AF-" ++ ui162string sa_fam)

-- The port as AFa_sa2string prints it.
unfoldable pub port_text : SockAddr → List ℕ
port_text sas = elim (gp_port sas) [
  | none ↦ codes "(null)"
  | some sanport ↦ ui162string (htons sanport)
]

-- AFa_sa2string
unfoldable pub sa2string : (ℕ → List ℕ → List ℕ) → SockAddr → List ℕ → List ℕ
sa2string inet_ntop sas prefix =
    if sas.family == af_unspec
    then codes "local"
    else prefix ++ (addr2string inet_ntop sas.family (gp_addr sas) ++ (b':' ∷ port_text sas))

-- inner_addr_t::to_string
unfoldable pub to_string : (ℕ → List ℕ → List ℕ) → InnerAddr → List ℕ
to_string inet_ntop a = addr2string inet_ntop (iafa_at2sa_family a.type) (some a.addr)
