-- ===== src/Acl/Decision.antt =====
-- The decision on an address.
use teleproxy.Base.{
  ℕ, ◌/◌, ◌%◌, ◌^◌, ◌≡◌, ◌≢◌, refl, false, List, [], ◌∷◌, ◌++◌, arith, ◌==◌, Option, none, some,
  All,
}
use teleproxy.Acl.{
  Rule, Acl, State, match_v6, acl_contains_v4, acl_contains_v6, any_v6, v6_to_v4_mapped, check_v4,
  check_v6, names_v6, v4mapped_prefix,
}

-- The IPv6 address that maps an IPv4 address.
abbrev pub mapped : ℕ → List ℕ
mapped ip = v4mapped_prefix ++ (ip / 2 ^ 24 ∷ ip / 2 ^ 16 % 256 ∷ ip / 2 ^ 8 % 256 ∷ ip % 256 ∷ [])

v6_to_v4_mapped-mapped : (ip : ℕ) → v6_to_v4_mapped (mapped ip) ≡ ip
unfolding v6_to_v4_mapped
v6_to_v4_mapped-mapped ip = omega arith

-- No rule of a list is for IPv6.
abbrev pub OnlyV4 : List Rule → Type 0
OnlyV4 rules = All (λ r. (ip : List ℕ) → match_v6 r ip ≡ false) rules

any_v6-OnlyV4 : (rules : List Rule) (ip : List ℕ) → OnlyV4 rules → any_v6 rules ip ≡ false
unfolding any_v6
any_v6-OnlyV4 [] ip h = refl
any_v6-OnlyV4 (r ∷ rs) ip h = rw (h.0 ip) (any_v6-OnlyV4 rs ip h.1)

abbrev pub ListOnlyV4 : Option Acl → Type 0
ListOnlyV4 none = Unit {0}
ListOnlyV4 (some acl) = OnlyV4 acl.rules

names_v6-mapped :
    (acl : Option Acl) (ip : ℕ)
    → ip ≢ 0
    → ListOnlyV4 acl
    → names_v6 acl (mapped ip) ≡ acl_contains_v4 acl ip
unfolding names_v6 acl_contains_v6 acl_contains_v4
names_v6-mapped none ip h k = ground (arith, v6_to_v4_mapped-mapped ip)
names_v6-mapped (some acl) ip h k =
    let e : (ip == 0) ≡ false = ground arith in
    rw (v6_to_v4_mapped-mapped ip, any_v6-OnlyV4 acl.rules (mapped ip) k, e)

-- An IPv4 client that comes in on an IPv6 socket, as a mapped address, is judged as on an IPv4
-- socket, if the lists have IPv4 rules only and the address is not 0.0.0.0.
pub check_v6-mapped :
    (s : State) (ip : ℕ)
    → ip ≢ 0
    → ListOnlyV4 s.current_allowlist
    → ListOnlyV4 s.current_blocklist
    → check_v6 s (mapped ip) ≡ check_v4 s ip
unfolding check_v6 check_v4
check_v6-mapped s ip h ka kb =
    rw (names_v6-mapped s.current_allowlist ip h ka, names_v6-mapped s.current_blocklist ip h kb)
