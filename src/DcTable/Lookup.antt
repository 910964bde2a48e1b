-- ===== src/DcTable/Lookup.antt =====
-- Which entry a data centre's identifier leads to.
use Prim.Native.String.{String}
use teleproxy.Base.{
  ℕ, zero, suc, ◌+◌, ◌-◌, ◌^◌, ◌<◌, ◌≡◌, refl, List, [], arith, if◌then◌else◌, Option, none, some,
  ◌⊎◌, ap,
}
use teleproxy.Base.Int.{ℤ, pos, negsuc}
use teleproxy.DcTable.{
  DcEntry, absolute, is_test_id, strip_test, strip_cdn, find_entry, prod_table, test_table,
  direct_dc_lookup,
}

module _ (inet_addr : String → ℕ) (inet_pton6 : String → Option (List ℕ)) where
  -- Whatever the overrides, a media data centre (a negative number, but for the least `int`) has
  -- the entry of its positive counterpart.
  pub lookup_media :
      (overrides : List DcEntry) (n : ℕ)
      → n < 2 ^ 31 - 1
      → direct_dc_lookup inet_addr inet_pton6 overrides (negsuc n)
        ≡ direct_dc_lookup inet_addr inet_pton6 overrides (pos (n + 1))
  unfolding direct_dc_lookup
  lookup_media overrides n h =
      let from_absolute : ℤ → Option DcEntry = λ a. elim (find_entry (strip_test a) overrides) [
        | some e ↦ some e
        | none ↦
            if is_test_id a
            then find_entry (strip_cdn (strip_test a)) (test_table inet_addr inet_pton6)
            else find_entry (strip_cdn (strip_test a)) (prod_table inet_addr inet_pton6)
      ] in
      let e : absolute (negsuc n) ≡ pos (n + 1) = ground arith in ap from_absolute e

  -- Without overrides a production data centre 1 to 5 and its CDN number (200 more) lead to one
  -- entry, and a test data centre 10001 to 10003 and its CDN number to another: each carries the
  -- data centre's own number.
  pub lookup_known :
      (n : ℕ)
      → n < 5
      → ((e : DcEntry) × (e.dc_id ≡ pos (n + 1))
          × (direct_dc_lookup inet_addr inet_pton6 [] (pos (n + 1)) ≡ some e)
          × (direct_dc_lookup inet_addr inet_pton6 [] (pos (n + 201)) ≡ some e))
        × (n < 3
            → (e : DcEntry) × (e.dc_id ≡ pos (n + 1))
              × (direct_dc_lookup inet_addr inet_pton6 [] (pos (n + 10001)) ≡ some e)
              × (direct_dc_lookup inet_addr inet_pton6 [] (pos (n + 10201)) ≡ some e))
  unfolding direct_dc_lookup
  lookup_known zero h = ((_, refl, refl, refl), λ _. (_, refl, refl, refl))
  lookup_known (suc zero) h = ((_, refl, refl, refl), λ _. (_, refl, refl, refl))
  lookup_known (suc (suc zero)) h = ((_, refl, refl, refl), λ _. (_, refl, refl, refl))
  lookup_known (suc (suc (suc zero))) h = ((_, refl, refl, refl), λ k. absurd (omega arith))
  lookup_known (suc (suc (suc (suc zero)))) h = ((_, refl, refl, refl), λ k. absurd (omega arith))
  lookup_known (suc (suc (suc (suc (suc n))))) h = absurd (omega arith)

  -- Without overrides every other number below 10000 is unknown.
  pub lookup_unknown :
      (n : ℕ)
      → n < 10000
      → (n ≡ 0) ⊎ (((5 < n) × (n < 201)) ⊎ (205 < n))
      → direct_dc_lookup inet_addr inet_pton6 [] (pos n) ≡ none
  unfolding direct_dc_lookup
  lookup_unknown n h o = ground arith
