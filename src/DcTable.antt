-- ===== src/DcTable.antt =====
-- src/mtproto/mtproto-dc-table.c: the addresses of Telegram's data centres, and the overrides of
-- --dc-override. `inet_addr` and `inet_pton` of the C library are parameters. The first
-- `addr_count` elements of an entry's array are a list.
pub mod Lookup
pub mod Override
mod Tests
use Prim.Native.String.{String}
use teleproxy.Base.{
  ℕ, zero, suc, ◌+◌, ◌-◌, ◌*◌, ◌/◌, ◌%◌, ◌^◌, Bool, true, false, not, ◌&&◌, ◌||◌, List, [], ◌∷◌,
  ◌++◌, arith, ltb, leb, ◌==◌, if◌then◌else◌, length, Option, none, some, replicate,
}
use teleproxy.Base.Int.{ℤ, pos, negsuc}

pub record DcAddr : Type 0 where
  pub ipv4 : ℕ
  pub ipv6 : List ℕ
  pub port : ℤ

pub record DcEntry : Type 0 where
  pub dc_id : ℤ
  pub addrs : List DcAddr

abbrev pub dc_max_addrs : ℕ
dc_max_addrs = 4

abbrev pub max_overrides : ℕ
max_overrides = 16

abbrev pub eq_int : ℤ → ℤ → Bool
eq_int (pos a) (pos b) = a == b
eq_int (pos a) (negsuc b) = false
eq_int (negsuc a) (pos b) = false
eq_int (negsuc a) (negsuc b) = a == b

-- `-x` for a negative `int`: the least one has no opposite and wraps round to itself.
pub absolute : ℤ → ℤ
absolute (pos n) = pos n
absolute (negsuc n) = if n == 2 ^ 31 - 1 then negsuc n else pos (n + 1)

abbrev pub is_test_id : ℤ → Bool
is_test_id (pos n) = leb 10000 n
is_test_id (negsuc n) = false

pub strip_test : ℤ → ℤ
strip_test (pos n) = if leb 10000 n then pos (n - 10000) else pos n
strip_test (negsuc n) = negsuc n

pub strip_cdn : ℤ → ℤ
strip_cdn (pos n) = if ltb 200 n && ltb n 300 then pos (n - 200) else pos n
strip_cdn (negsuc n) = negsuc n

-- The first entry with an identifier.
pub find_entry : ℤ → List DcEntry → Option DcEntry
find_entry id [] = none
find_entry id (e ∷ es) = if eq_int e.dc_id id then some e else find_entry id es

-- The identifier that overrides are looked up by.
pub override_id : ℤ → ℤ
unfolding absolute strip_test
override_id dc_id = strip_test (absolute dc_id)

-- The address in the first entry with an identifier is one more.
pub add_addr : ℤ → DcAddr → List DcEntry → List DcEntry
add_addr id a [] = []
add_addr id a (e ∷ es) =
    if eq_int e.dc_id id
    then record e { addrs = e.addrs ++ (a ∷ []) } ∷ es
    else e ∷ add_addr id a es

abbrev pub zero_ipv6 : List ℕ
zero_ipv6 = replicate 16 0

module _ (inet_addr : String → ℕ) (inet_pton6 : String → Option (List ℕ)) where
  -- Where `inet_pton` fails on a built-in address, the program stops at an assertion.
  pub builtin : ℕ → String → String → DcEntry
  builtin id v4 v6 = record {
    dc_id = pos id;
    addrs =
        record {
          ipv4 = inet_addr v4;
          ipv6 = elim (inet_pton6 v6) [ none ↦ zero_ipv6 | some a ↦ a ];
          port = pos 443;
        }
        ∷ [];
  }

  pub prod_table : List DcEntry
  unfolding builtin
  prod_table =
      builtin 1 "149.154.175.50" "2001:0b28:f23d:f001::a"
      ∷ builtin 2 "149.154.167.51" "2001:067c:04e8:f002::a"
      ∷ builtin 3 "149.154.175.100" "2001:0b28:f23d:f003::a"
      ∷ builtin 4 "149.154.167.91" "2001:067c:04e8:f004::a"
      ∷ builtin 5 "91.108.56.100" "2001:0b28:f23f:f005::a"
      ∷ []

  pub test_table : List DcEntry
  unfolding builtin
  test_table =
      builtin 1 "149.154.175.10" "2001:0b28:f23d:f001::e"
      ∷ builtin 2 "149.154.167.40" "2001:067c:04e8:f002::e"
      ∷ builtin 3 "149.154.175.117" "2001:0b28:f23d:f003::e"
      ∷ []

  -- The built-in entry, once no override is found.
  pub builtin_lookup : ℤ → Option DcEntry
  unfolding strip_cdn absolute override_id find_entry prod_table test_table
  builtin_lookup dc_id =
      let id = strip_cdn (override_id dc_id) in
      if is_test_id (absolute dc_id) then find_entry id test_table else find_entry id prod_table

  -- `direct_dc_lookup`, over the entries of `override_table` in use.
  pub direct_dc_lookup : List DcEntry → ℤ → Option DcEntry
  unfolding override_id find_entry builtin_lookup
  direct_dc_lookup overrides dc_id = elim (find_entry (override_id dc_id) overrides) [
    | some e ↦ some e
    | none ↦ builtin_lookup dc_id
  ]

  -- The address of a host, if it is one: IPv6 first, then IPv4.
  pub parse_host : String → ℤ → Option DcAddr
  parse_host host port = elim (inet_pton6 host) [
    | some a ↦ some (record { ipv4 = 0; ipv6 = a; port = port })
    | none ↦
        if inet_addr host == 2 ^ 32 - 1
        then none
        else some (record { ipv4 = inet_addr host; ipv6 = zero_ipv6; port = port })
  ]

  -- The second half of `direct_dc_override`: the address goes to the entry that was found or made.
  pub put_addr : ℤ → String → ℤ → DcEntry → List DcEntry → Bool × List DcEntry
  unfolding parse_host add_addr
  put_addr dc_id host port entry overrides =
      if leb dc_max_addrs (length entry.addrs)
      then (false, overrides)
      else (elim (parse_host host port) [
        | none ↦ (false, overrides)
        | some a ↦ (true, add_addr dc_id a overrides)
      ])

  -- `direct_dc_override`: whether it succeeds, and the table after it.
  pub direct_dc_override : List DcEntry → ℤ → String → ℤ → Bool × List DcEntry
  unfolding find_entry put_addr
  direct_dc_override overrides dc_id host port = elim (find_entry dc_id overrides) [
    | some e ↦ put_addr dc_id host port e overrides
    | none ↦
        if leb max_overrides (length overrides)
        then (false, overrides)
        else put_addr dc_id host port (record { dc_id = dc_id; addrs = [] })
            (overrides ++ (record { dc_id = dc_id; addrs = [] } ∷ []))
  ]
