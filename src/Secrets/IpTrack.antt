-- ===== src/Secrets/IpTrack.antt =====
-- src/net/net-tcp-rpc-ext-server.c: the addresses that are connected with a secret.
pub mod Count
pub mod Found
use teleproxy.Base.{
  ℕ, zero, suc, ◌+◌, ◌-◌, ◌*◌, ◌/◌, ◌^◌, Bool, true, false, not, ◌&&◌, ◌||◌, List, [], ◌∷◌, arith,
  ltb, leb, ◌==◌, if◌then◌else◌, Option, none, some, replicate,
}
use teleproxy.Base.Int.{ℤ, pos, negsuc}
use teleproxy.UniqBloom.{uniq_bloom_test_and_set}
use teleproxy.TopIps.{same_bytes, zero_ipv6}
use teleproxy.Secrets.{TrackedIp, Slot, Secrets, set_slot, share, no_ip}

abbrev pub is_live : TrackedIp → Bool
is_live e = ltb 0 e.connections

-- The test on an entry: it is live and the address is its own.
pub is_for : ℕ → List ℕ → TrackedIp → Bool
is_for ip ipv6 e =
    is_live e
    && (if not (ip == 0)
        then e.ip == ip
        else e.ip == 0 && (not (same_bytes e.ipv6 zero_ipv6) && same_bytes e.ipv6 ipv6))

-- Some entry passes.
unfoldable pub is_tracked : ℕ → List ℕ → List TrackedIp → Bool
unfolding is_for
is_tracked ip ipv6 [] = false
is_tracked ip ipv6 (e ∷ es) = is_for ip ipv6 e || is_tracked ip ipv6 es

-- `ip_over_limit`
unfoldable pub ip_over_limit : ℕ → Slot → ℕ → List ℕ → Bool
ip_over_limit workers slot ip ipv6 = elim slot.max_ips [
  | negsuc k ↦ false
  | pos n ↦
      if n == 0
      then false
      else if is_tracked ip ipv6 slot.ips
      then false
      else leb (share workers n) slot.unique_ip_count
]

-- One connection more for the first entry that passes.
pub add_connection : ℕ → List ℕ → List TrackedIp → Option (List TrackedIp)
unfolding is_for
add_connection ip ipv6 [] = none
add_connection ip ipv6 (e ∷ es) =
    let later = add_connection ip ipv6 es in
    if is_for ip ipv6 e
    then some (record e { connections = e.connections + 1 } ∷ es)
    else elim later [ none ↦ none | some rest ↦ some (e ∷ rest) ]

-- The entry for a new address.
pub new_ip : Secrets → ℤ → ℕ → List ℕ → TrackedIp → TrackedIp
new_ip s rate_limit ip ipv6 e =
    let e1 : TrackedIp = record e { ip = ip; ipv6 = ipv6; connections = 1 } in
    elim rate_limit [
      | negsuc k ↦ e1
      | pos n ↦
          if n == 0
          then e1
          else record e1 { tokens = pos (share s.workers n); last_refill_time = s.precise_now }
    ]

-- The first entry that is not live is given away.
pub fill_empty : (TrackedIp → TrackedIp) → List TrackedIp → Option (List TrackedIp)
fill_empty f [] = none
fill_empty f (e ∷ es) =
    let later = fill_empty f es in
    if is_live e
    then (elim later [ none ↦ none | some rest ↦ some (e ∷ rest) ])
    else some (f e ∷ es)

-- The tables of a slot after a connection: nothing changes when the table is full.
pub track : Secrets → ℕ → List ℕ → Slot → Slot
track s ip ipv6 slot = elim (add_connection ip ipv6 slot.ips) [
  | some es ↦ record slot { ips = es }
  | none ↦ elim (fill_empty (new_ip s slot.rate_limit ip ipv6) slot.ips) [
    | none ↦ slot
    | some es ↦ record slot { ips = es; unique_ip_count = slot.unique_ip_count + 1 }
  ]
]

abbrev pub is_positive : ℤ → Bool
is_positive (pos n) = ltb 0 n
is_positive (negsuc k) = false

-- What a connection does to the slot, when the filter says whether the address is new to it.
unfoldable pub track_slot : Secrets → Bool → ℕ → List ℕ → Slot → Slot
track_slot s novel ip ipv6 slot =
    let c = slot.counters in
    let slot1 : Slot =
      if novel
      then record slot { counters = record c { unique_ips = c.unique_ips + 1 } }
      else slot in
    if not (is_positive slot.max_ips) && not (is_positive slot.rate_limit)
    then slot1
    else track s ip ipv6 slot1

-- `ip_track_connect`
unfoldable pub ip_track_connect : ℕ → ℕ → List ℕ → Secrets → Secrets
ip_track_connect id ip ipv6 s =
    let (novel, filters) = uniq_bloom_test_and_set id ip ipv6 s.uniq_bloom in
    record s {
      uniq_bloom = filters;
      slots = set_slot id (track_slot s novel ip ipv6 (s.slots id)) s.slots;
    }

-- One connection less for the first entry that passes; the flag says that it was the last.
pub drop_connection : ℕ → List ℕ → List TrackedIp → List TrackedIp × Bool
unfolding is_for
drop_connection ip ipv6 [] = ([], false)
drop_connection ip ipv6 (e ∷ es) =
    let (rest, last) = drop_connection ip ipv6 es in
    if is_for ip ipv6 e
    then (if leb (e.connections - 1) 0
        then (record e { ip = 0; ipv6 = zero_ipv6; connections = 0 } ∷ es, true)
        else (record e { connections = e.connections - 1 } ∷ es, false))
    else (e ∷ rest, last)

-- The tables of a slot after the end of a connection.
unfoldable pub untrack : ℕ → List ℕ → Slot → Slot
untrack ip ipv6 slot =
    let (es, last) = drop_connection ip ipv6 slot.ips in
    record slot {
      ips = es;
      unique_ip_count = if last then slot.unique_ip_count - 1 else slot.unique_ip_count;
    }

-- `ip_track_disconnect_impl`
unfoldable pub ip_track_disconnect : ℕ → ℕ → List ℕ → Secrets → Secrets
ip_track_disconnect id ip ipv6 s = record s {
  slots = set_slot id (untrack ip ipv6 (s.slots id)) s.slots;
}
