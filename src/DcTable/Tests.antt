-- ===== src/DcTable/Tests.antt =====
-- Concrete tables, and the theorems at concrete inputs.
use Prim.Native.String.{String}
use text.Mathlib.Text.{◌==◌ as str_eq}
use teleproxy.Base.{
  ℕ, ◌≡◌, refl, List, [], ◌∷◌, ◌++◌, arith, true, false, Option, none, some, if◌then◌else◌,
}
use teleproxy.Base.Int.{pos, negsuc}
use teleproxy.DcTable.{
  DcAddr, DcEntry, eq_int, find_entry, override_id, direct_dc_lookup, parse_host,
  direct_dc_override, zero_ipv6,
}
use teleproxy.DcTable.Override.{
  addresses, lookup-override, lookup-failed_override, IsWithin, override-IsWithin,
}

-- A resolver that knows one IPv4 address and no IPv6 address.
abbrev inet_addr : String → ℕ
inet_addr s = if str_eq s "1.2.3.4" then 67305985 else 4294967295

abbrev inet_pton6 : String → Option (List ℕ)
inet_pton6 s = none

abbrev cdn : DcAddr
cdn = record { ipv4 = 67305985; ipv6 = zero_ipv6; port = pos 443 }

abbrev with_cdn : List DcEntry
with_cdn = record { dc_id = pos 203; addrs = cdn ∷ [] } ∷ []

override_cdn :
    direct_dc_override inet_addr inet_pton6 [] (pos 203) "1.2.3.4" (pos 443) ≡ (true, with_cdn)
unfolding direct_dc_override
override_cdn = refl

cdn_overridden :
    direct_dc_lookup inet_addr inet_pton6 with_cdn (negsuc 202)
    ≡ some (record { dc_id = pos 203; addrs = cdn ∷ [] })
unfolding direct_dc_lookup
cdn_overridden = refl

lookup-override_example :
    (a : DcAddr) × (parse_host inet_addr inet_pton6 "1.2.3.4" (pos 443) ≡ some a)
    × (direct_dc_lookup inet_addr inet_pton6 with_cdn (pos 2) ≡ (
        if eq_int (pos 203) (override_id (pos 2))
        then some (record {
          dc_id = pos 203;
          addrs = addresses inet_addr inet_pton6 (pos 203) [] ++ (a ∷ []);
        })
        else direct_dc_lookup inet_addr inet_pton6 [] (pos 2)))
lookup-override_example =
    lookup-override inet_addr inet_pton6 [] (pos 203) "1.2.3.4" (pos 443) (pos 2) with_cdn
      override_cdn

nothing_found : find_entry (pos 2) [] ≡ none
unfolding find_entry
nothing_found = refl

not_an_address : parse_host inet_addr inet_pton6 "nowhere" (pos 443) ≡ none
unfolding parse_host
not_an_address = refl

media_is_two : override_id (negsuc 1) ≡ pos 2
unfolding override_id
media_is_two = refl

lookup-failed_override_example :
    let (success, overrides') =
      direct_dc_override inet_addr inet_pton6 [] (pos 2) "nowhere" (pos 443) in
    (success ≡ false)
    × (direct_dc_lookup inet_addr inet_pton6 overrides' (negsuc 1)
        ≡ some (record { dc_id = pos 2; addrs = [] }))
lookup-failed_override_example =
    lookup-failed_override inet_addr inet_pton6 [] (pos 2) "nowhere" (pos 443) (negsuc 1)
      nothing_found (omega arith) not_an_address media_is_two

override-IsWithin_example :
    IsWithin (direct_dc_override inet_addr inet_pton6 with_cdn (pos 203) "1.2.3.4" (pos 80)).1
override-IsWithin_example =
    override-IsWithin inet_addr inet_pton6 with_cdn (pos 203) "1.2.3.4" (pos 80)
      (record { entries = omega arith; addresses_each = omega arith })
