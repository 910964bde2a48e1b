-- ===== src/DcTable/Override.antt =====
-- Overrides: what one call changes, and its limits.
use Prim.Native.String.{String}
use teleproxy.Base.{
  ℕ, ◌≤◌, ◌<◌, ◌≡◌, refl, true, false, List, [], ◌∷◌, ◌++◌, arith, leb, if◌then◌else◌, length,
  Option, none, some, inl, inr, All, length-append, Bool-cases, ap, Option-cases,
}
use teleproxy.Base.Int.{ℤ, pos, negsuc}
use teleproxy.DcTable.{
  DcAddr, DcEntry, dc_max_addrs, max_overrides, eq_int, find_entry, override_id, add_addr,
  direct_dc_lookup, parse_host, put_addr, direct_dc_override,
}

pub eq_int_iff : (a b : ℤ) → (eq_int a b ≡ true → a ≡ b) × (a ≡ b → eq_int a b ≡ true)
eq_int_iff (pos a) (pos b) = ground arith
eq_int_iff (pos a) (negsuc b) = ground arith
eq_int_iff (negsuc a) (pos b) = ground arith
eq_int_iff (negsuc a) (negsuc b) = ground arith

-- An entry with one address more.
abbrev pub grown : DcAddr → DcEntry → DcEntry
grown a e = record e { addrs = e.addrs ++ (a ∷ []) }

-- `add_addr` changes the entry that is found by its identifier, and no other.
find_entry-add_addr :
    (id j : ℤ) (a : DcAddr) (es : List DcEntry)
    → find_entry j (add_addr id a es) ≡ (
        if eq_int id j
        then elim (find_entry j es) [ none ↦ none | some e ↦ some (grown a e) ]
        else find_entry j es)
unfolding find_entry add_addr
find_entry-add_addr id j a [] = ground arith
find_entry-add_addr id j a (e ∷ es) = ground (
  arith,
  find_entry-add_addr id j a es,
  eq_int_iff id j,
  eq_int_iff e.dc_id id,
  eq_int_iff e.dc_id j,
)

find_entry-snoc :
    (j : ℤ) (es : List DcEntry) (e : DcEntry)
    → find_entry j (es ++ (e ∷ [])) ≡ elim (find_entry j es) [
      | some f ↦ some f
      | none ↦ if eq_int e.dc_id j then some e else none
    ]
unfolding find_entry
find_entry-snoc j [] e = ground arith
find_entry-snoc j (f ∷ es) e = ground (arith, find_entry-snoc j es e)

find_entry-dc_id :
    (id : ℤ) (es : List DcEntry) (e : DcEntry) → find_entry id es ≡ some e → e.dc_id ≡ id
unfolding find_entry
find_entry-dc_id id [] e h = cc
find_entry-dc_id id (f ∷ es) e h = ground (arith, find_entry-dc_id id es e, eq_int_iff f.dc_id id)

module _ (inet_addr : String → ℕ) (inet_pton6 : String → Option (List ℕ)) where
  -- The addresses that the table has for an identifier.
  abbrev pub addresses : ℤ → List DcEntry → List DcAddr
  addresses id es = elim (find_entry id es) [ none ↦ [] | some e ↦ e.addrs ]

  put_addr-true :
      (id : ℤ) (host : String) (port : ℤ) (entry : DcEntry) (overrides overrides' : List DcEntry)
      → put_addr inet_addr inet_pton6 id host port entry overrides ≡ (true, overrides')
      → (a : DcAddr) × (parse_host inet_addr inet_pton6 host port ≡ some a)
        × (overrides' ≡ add_addr id a overrides)
  unfolding put_addr
  put_addr-true id host port entry overrides overrides' e =
      elim (Option-cases (parse_host inet_addr inet_pton6 host port)) [
        | inl n ↦ absurd (ground (arith, n))
        | inr (a, p) ↦ (a, p, ground (arith, p))
      ]

  room :
      (overrides : List DcEntry) (id : ℤ) (host : String) (port : ℤ) (overrides' : List DcEntry)
      → find_entry id overrides ≡ none
      → direct_dc_override inet_addr inet_pton6 overrides id host port ≡ (true, overrides')
      → put_addr inet_addr inet_pton6 id host port
          (record { dc_id = id; addrs = [] })
          (overrides ++ (record { dc_id = id; addrs = [] } ∷ []))
        ≡ (true, overrides')
  unfolding direct_dc_override
  room overrides id host port overrides' n e = ground (arith, n)

  found :
      (overrides : List DcEntry) (id : ℤ) (host : String) (port : ℤ) (f : DcEntry)
      (overrides' : List DcEntry)
      → find_entry id overrides ≡ some f
      → direct_dc_override inet_addr inet_pton6 overrides id host port ≡ (true, overrides')
      → put_addr inet_addr inet_pton6 id host port f overrides ≡ (true, overrides')
  unfolding direct_dc_override
  found overrides id host port f overrides' p e = ground (arith, p)

  -- After a successful override the identifier has an entry of its own, whose addresses are those
  -- that earlier overrides gave it and the new one, and every other identifier's entry is as it was.
  override_entries :
      (overrides : List DcEntry) (id : ℤ) (host : String) (port : ℤ) (j : ℤ)
      (overrides' : List DcEntry)
      → direct_dc_override inet_addr inet_pton6 overrides id host port ≡ (true, overrides')
      → (a : DcAddr) × (parse_host inet_addr inet_pton6 host port ≡ some a)
        × (find_entry j overrides' ≡ (
            if eq_int id j
            then some (record { dc_id = id; addrs = addresses id overrides ++ (a ∷ []) })
            else find_entry j overrides))
  override_entries overrides id host port j overrides' e =
      elim (Option-cases (find_entry id overrides)) [
        | inr (f, p) ↦
            let (a, q, r) =
              put_addr-true id host port f overrides overrides'
                (found overrides id host port f overrides' p e) in
            (
              a,
              q,
              ground (
                arith,
                p,
                r,
                find_entry-add_addr id j a overrides,
                find_entry-dc_id id overrides f p,
                eq_int_iff id j,
              ),
            )
        | inl n ↦
            let fresh : DcEntry = record { dc_id = id; addrs = [] } in
            let (a, q, r) =
              put_addr-true id host port fresh (overrides ++ (fresh ∷ [])) overrides'
                (room overrides id host port overrides' n e) in
            (
              a,
              q,
              ground (
                arith,
                n,
                r,
                find_entry-add_addr id j a (overrides ++ (fresh ∷ [])),
                find_entry-snoc j overrides fresh,
                eq_int_iff id j,
              ),
            )
      ]

  -- A successful override is what lookups see from then on: every number that stands for the data
  -- centre finds the addresses that overrides gave it, the new one last, and nothing built in;
  -- every other number finds what it found before.
  pub lookup-override :
      (overrides : List DcEntry) (id : ℤ) (host : String) (port : ℤ) (dc_id : ℤ)
      (overrides' : List DcEntry)
      → direct_dc_override inet_addr inet_pton6 overrides id host port ≡ (true, overrides')
      → (a : DcAddr) × (parse_host inet_addr inet_pton6 host port ≡ some a)
        × (direct_dc_lookup inet_addr inet_pton6 overrides' dc_id ≡ (
            if eq_int id (override_id dc_id)
            then some (record { dc_id = id; addrs = addresses id overrides ++ (a ∷ []) })
            else direct_dc_lookup inet_addr inet_pton6 overrides dc_id))
  unfolding direct_dc_lookup
  lookup-override overrides id host port dc_id overrides' e =
      let (a, p, q) = override_entries overrides id host port (override_id dc_id) overrides' e in
      (a, p, ground (arith, q))

  -- An override whose host is no address is refused, but where the table had no entry for the data
  -- centre it has one afterwards, with no address, and lookups find that and no longer the
  -- built-in one.
  pub lookup-failed_override :
      (overrides : List DcEntry) (id : ℤ) (host : String) (port : ℤ) (dc_id : ℤ)
      → find_entry id overrides ≡ none
      → length overrides < max_overrides
      → parse_host inet_addr inet_pton6 host port ≡ none
      → override_id dc_id ≡ id
      → let (success, overrides') =
          direct_dc_override inet_addr inet_pton6 overrides id host port in
        (success ≡ false)
        × (direct_dc_lookup inet_addr inet_pton6 overrides' dc_id
            ≡ some (record { dc_id = id; addrs = [] }))
  unfolding direct_dc_override direct_dc_lookup put_addr
  lookup-failed_override overrides id host port dc_id n h p e = ground (
    arith,
    find_entry-snoc id overrides (record { dc_id = id; addrs = [] }),
    eq_int_iff id id,
    ap (λ j. find_entry j (overrides ++ (record { dc_id = id; addrs = [] } ∷ []))) e,
  )

-- The table stays within its arrays.
pub record IsWithin (overrides : List DcEntry) : Type 0 where
  pub entries : length overrides ≤ max_overrides
  pub addresses_each : All (λ e. length e.addrs ≤ dc_max_addrs) overrides

length-add_addr : (id : ℤ) (a : DcAddr) (es : List DcEntry) → length (add_addr id a es) ≡ length es
unfolding add_addr
length-add_addr id a [] = refl
length-add_addr id a (e ∷ es) = ground (arith, length-add_addr id a es)

add_addr-All :
    (id : ℤ) (a : DcAddr) (es : List DcEntry) (f : DcEntry)
    → find_entry id es ≡ some f
    → length f.addrs < dc_max_addrs
    → All (λ e. length e.addrs ≤ dc_max_addrs) es
    → All (λ e. length e.addrs ≤ dc_max_addrs) (add_addr id a es)
unfolding add_addr find_entry
add_addr-All id a [] f p h all = tt
add_addr-All id a (e ∷ es) f p h all = elim (Bool-cases (eq_int e.dc_id id)) [
  | inl t ↦ rw t (ground (arith, length-append e.addrs (a ∷ []), t), all.1)
  | inr n ↦ rw n (all.0, add_addr-All id a es f (rw n at p) h all.1)
]

All-append :
    (es : List DcEntry) (f : DcEntry)
    → All (λ e. length e.addrs ≤ dc_max_addrs) es
    → length f.addrs ≤ dc_max_addrs
    → All (λ e. length e.addrs ≤ dc_max_addrs) (es ++ (f ∷ []))
All-append [] f h k = (k, tt)
All-append (e ∷ es) f h k = (h.0, All-append es f h.1 k)

module _ (inet_addr : String → ℕ) (inet_pton6 : String → Option (List ℕ)) where
  put_addr-IsWithin :
      (id : ℤ) (host : String) (port : ℤ) (f : DcEntry) (es : List DcEntry)
      → find_entry id es ≡ some f
      → IsWithin es
      → IsWithin (put_addr inet_addr inet_pton6 id host port f es).1
  unfolding put_addr
  put_addr-IsWithin id host port f es p w = elim (Bool-cases (leb dc_max_addrs (length f.addrs))) [
    | inl t ↦ rw t w
    | inr n ↦ elim (Option-cases (parse_host inet_addr inet_pton6 host port)) [
      | inl q ↦ rw (n, q) w
      | inr (a, q) ↦
          rw (n, q)
            (record {
              entries = omega (arith, length-add_addr id a es, w.entries);
              addresses_each = add_addr-All id a es f p (ground arith) w.addresses_each;
            })
    ]
  ]

  -- No call of `direct_dc_override`, successful or not, writes past the 16 entries of the table or
  -- past the four addresses of an entry.
  pub override-IsWithin :
      (overrides : List DcEntry) (id : ℤ) (host : String) (port : ℤ)
      → IsWithin overrides
      → IsWithin (direct_dc_override inet_addr inet_pton6 overrides id host port).1
  unfolding direct_dc_override
  override-IsWithin overrides id host port w = elim (Option-cases (find_entry id overrides)) [
    | inr (f, p) ↦ rw (p, direct_dc_override) (put_addr-IsWithin id host port f overrides p w)
    | inl n ↦ elim (Bool-cases (leb max_overrides (length overrides))) [
      | inl t ↦ rw (n, direct_dc_override, t) w
      | inr r ↦
          let fresh : DcEntry = record { dc_id = id; addrs = [] } in
          rw (n, direct_dc_override, r)
            (put_addr-IsWithin id host port fresh (overrides ++ (fresh ∷ []))
              (ground (arith, n, find_entry-snoc id overrides fresh, eq_int_iff id id))
              (record {
                entries = ground (arith, length-append overrides (fresh ∷ []));
                addresses_each = All-append overrides fresh w.addresses_each (omega arith);
              }))
    ]
  ]
