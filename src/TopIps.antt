-- ===== src/TopIps.antt =====
-- src/net/net-tcp-rpc-ext-top-ips.c: the traffic of each client address, per secret, and the report
-- of the busiest. A pointer to an entry is its index in the table; `long long` and `int` counters
-- are bit patterns. Times count ticks of a clock, `stale_ticks` of which are IP_VOLUME_STALE_SEC.
pub mod Snapshot
pub mod Eviction
mod Tests
use teleproxy.Base.{
  ℕ, zero, suc, ◌+◌, ◌-◌, ◌*◌, ◌%◌, ◌^◌, Bool, true, false, not, ◌&&◌, ◌||◌, List, [], ◌∷◌, ◌++◌,
  arith, ltb, leb, ◌==◌, if◌then◌else◌, length, Option, none, some, replicate, get_elem?, set,
  get_or,
}
use mathlib.Core.List.{map}
use teleproxy.Base.Int.{ℤ, pos, negsuc}

abbrev pub ip_volume_table_size : ℕ
ip_volume_table_size = 64

abbrev pub stale_ticks : ℕ
stale_ticks = 5000000000

abbrev pub worker_top_ips_max : ℕ
worker_top_ips_max = 32

-- `struct ip_volume_entry`
pub record IpVolumeEntry : Type 0 where
  pub ip : ℕ
  pub ipv6 : List ℕ
  pub connections : ℕ
  pub bytes_in : ℕ
  pub bytes_out : ℕ
  pub last_seen : ℕ

-- `struct worker_top_ip`
pub record WorkerTopIp : Type 0 where
  pub top_ip : ℕ
  pub top_ipv6 : List ℕ
  pub top_connections : ℕ
  pub top_bytes_in : ℕ
  pub top_bytes_out : ℕ

-- The file's variables, and the clock.
pub record Volumes : Type 0 where
  pub ip_volume : ℕ → List IpVolumeEntry
  pub top_ips_per_secret_runtime : ℕ
  pub precise_now : ℕ

abbrev pub zero_ipv6 : List ℕ
zero_ipv6 = replicate 16 0

abbrev pub empty_entry : IpVolumeEntry
empty_entry = record {
  ip = 0;
  ipv6 = zero_ipv6;
  connections = 0;
  bytes_in = 0;
  bytes_out = 0;
  last_seen = 0;
}

-- `memcmp (x, y, 16) == 0`
unfoldable pub same_bytes : List ℕ → List ℕ → Bool
same_bytes [] [] = true
same_bytes [] (y ∷ ys) = false
same_bytes (x ∷ xs) [] = false
same_bytes (x ∷ xs) (y ∷ ys) = x == y && same_bytes xs ys

-- A positive `int`.
abbrev pub is_positive : ℕ → Bool
is_positive n = ltb 0 n && ltb n (2 ^ 31)

-- `bytes_in + bytes_out`, and its place in the order of `long long`: the patterns of negative
-- numbers come first.
abbrev pub bytes_total : IpVolumeEntry → ℕ
bytes_total e = (e.bytes_in + e.bytes_out) % 2 ^ 64

abbrev pub signed_place : ℕ → ℕ
signed_place n = (n + 2 ^ 63) % 2 ^ 64

-- The place of an entry's sum in that order.
pub place : IpVolumeEntry → ℕ
place e = signed_place (bytes_total e)

pub set_top_ips_per_secret : ℤ → Volumes → Volumes
set_top_ips_per_secret (negsuc k) v = record v { top_ips_per_secret_runtime = 0 }
set_top_ips_per_secret (pos n) v = record v {
  top_ips_per_secret_runtime = if ltb worker_top_ips_max n then worker_top_ips_max else n;
}

pub is_empty_slot : IpVolumeEntry → Bool
is_empty_slot e = e.ip == 0 && same_bytes e.ipv6 zero_ipv6

-- The test of `ip_volume_lookup` on one entry.
pub is_for : ℕ → Option (List ℕ) → IpVolumeEntry → Bool
is_for ip address e = if not (ip == 0) then e.ip == ip else elim address [
  | none ↦ false
  | some a ↦
      not (same_bytes a zero_ipv6)
      && (e.ip == 0 && (same_bytes e.ipv6 a && not (same_bytes e.ipv6 zero_ipv6)))
]

-- The first index from `i` on that passes a test.
pub find_index : (IpVolumeEntry → Bool) → ℕ → List IpVolumeEntry → Option ℕ
find_index test i [] = none
find_index test i (e ∷ es) =
    let rest = find_index test (suc i) es in if test e then some i else rest

abbrev pub ip_volume_lookup : ℕ → Option (List ℕ) → List IpVolumeEntry → Option ℕ
ip_volume_lookup ip address es = find_index (is_for ip address) 0 es

-- Neither in use nor seen lately.
pub is_stale : ℕ → IpVolumeEntry → Bool
is_stale now e = not (is_positive e.connections) && not (leb now (e.last_seen + stale_ticks))

-- The second pass of `ip_volume_acquire_slot`, from index `i` on. `victim_bytes` is the place of a
-- sum.
pub find_victim : ℕ → ℕ → Option ℕ → ℕ → List IpVolumeEntry → Option ℕ
find_victim now i victim victim_bytes [] = victim
find_victim now i victim victim_bytes (e ∷ es) =
    let taken = find_victim now (suc i) (some i) (place e) es in
    let passed = find_victim now (suc i) victim victim_bytes es in
    if is_stale now e
    then (elim victim [
      | none ↦ taken
      | some v ↦ if ltb (place e) victim_bytes then taken else passed
    ])
    else passed

-- `ip_volume_acquire_slot`: the index, and the table with a victim cleared.
pub ip_volume_acquire_slot : ℕ → List IpVolumeEntry → Option ℕ × List IpVolumeEntry
unfolding find_victim
ip_volume_acquire_slot now es = elim (find_index is_empty_slot 0 es) [
  | some i ↦ (some i, es)
  | none ↦ elim (find_victim now 0 none 0 es) [
    | none ↦ (none, es)
    | some i ↦ (some i, set es i empty_entry)
  ]
]

abbrev pub fresh_entry : ℕ → Option (List ℕ) → ℕ → IpVolumeEntry
fresh_entry ip address now =
    let a : List ℕ =
      if ip == 0 then (elim address [ none ↦ zero_ipv6 | some a ↦ a ]) else zero_ipv6 in
    record { ip = ip; ipv6 = a; connections = 0; bytes_in = 0; bytes_out = 0; last_seen = now }

pub ip_volume_get_or_create :
    ℕ → ℕ → Option (List ℕ) → List IpVolumeEntry → Option ℕ × List IpVolumeEntry
unfolding find_index ip_volume_acquire_slot
ip_volume_get_or_create now ip address es = elim (ip_volume_lookup ip address es) [
  | some i ↦ (some i, es)
  | none ↦
      let (slot, cleared) = ip_volume_acquire_slot now es in
      elim slot [
        | none ↦ (none, cleared)
        | some i ↦ (some i, set cleared i (fresh_entry ip address now))
      ]
]

-- The caller's change of the entry that the pointer stands for, if it is not null.
abbrev pub change :
    (IpVolumeEntry → IpVolumeEntry) → Option ℕ × List IpVolumeEntry → List IpVolumeEntry
change f (none, es) = es
change f (some i, es) = set es i (f (get_or es i empty_entry))

-- A call is without effect while the feature is off, and for a number that is no secret's.
pub on_secret : ℤ → (List IpVolumeEntry → List IpVolumeEntry) → Volumes → Volumes
on_secret (negsuc k) f v = v
on_secret (pos sid) f v =
    if v.top_ips_per_secret_runtime == 0 || leb 16 sid
    then v
    else record v { ip_volume = λ k. if k == sid then f (v.ip_volume k) else v.ip_volume k }

abbrev pub connected : ℕ → IpVolumeEntry → IpVolumeEntry
connected now e = record e { connections = (e.connections + 1) % 2 ^ 32; last_seen = now }

pub account_connect : ℤ → ℕ → Option (List ℕ) → Volumes → Volumes
unfolding on_secret ip_volume_get_or_create
account_connect sid ip address v =
    on_secret sid
      (λ es. change (connected v.precise_now) (ip_volume_get_or_create v.precise_now ip address es))
      v

abbrev pub disconnected : ℕ → IpVolumeEntry → IpVolumeEntry
disconnected now e = record e {
  connections =
      if is_positive e.connections then (e.connections + (2 ^ 32 - 1)) % 2 ^ 32 else e.connections;
  last_seen = now;
}

pub account_disconnect : ℤ → ℕ → Option (List ℕ) → Volumes → Volumes
unfolding on_secret find_index
account_disconnect sid ip address v =
    on_secret sid (λ es. change (disconnected v.precise_now) (ip_volume_lookup ip address es, es)) v

abbrev pub counted : ℕ → ℕ → ℤ → IpVolumeEntry → IpVolumeEntry
counted now bytes (pos zero) e = record e {
  bytes_in = (e.bytes_in + bytes) % 2 ^ 64;
  last_seen = now;
}
counted now bytes _ e = record e { bytes_out = (e.bytes_out + bytes) % 2 ^ 64; last_seen = now }

pub account_bytes : ℤ → ℕ → Option (List ℕ) → ℤ → ℤ → Volumes → Volumes
unfolding on_secret ip_volume_get_or_create
account_bytes sid ip address (negsuc k) direction v = v
account_bytes sid ip address (pos zero) direction v = v
account_bytes sid ip address (pos (suc bytes)) direction v =
    on_secret sid
      (λ es.
        change (counted v.precise_now (suc bytes) direction)
          (ip_volume_get_or_create v.precise_now ip address es))
      v

-- The entries with their `picked` flags.
abbrev pub Slot : Type 0
Slot = Bool × IpVolumeEntry

-- The conditions of the report on one entry.
pub is_candidate : Slot → Bool
unfolding is_empty_slot
is_candidate (picked, e) =
    not picked && (not (is_empty_slot e) && not (bytes_total e == 0 && e.connections == 0))

-- The inner loop of `tcp_rpcs_snapshot_top_ips`, from index `i` on. `best_total` is the place
-- of a sum.
pub find_best : ℕ → Option ℕ → ℕ → List Slot → Option ℕ
find_best i best best_total [] = best
find_best i best best_total (s ∷ slots) =
    let better = find_best (suc i) (some i) (place s.1) slots in
    let passed = find_best (suc i) best best_total slots in
    if is_candidate s && ltb best_total (place s.1) then better else passed

-- The outer loop: at most `max` entries.
pub pick_loop : ℕ → List Slot → List IpVolumeEntry
unfolding find_best
pick_loop zero slots = []
pick_loop (suc max) slots = elim (find_best 0 none (2 ^ 63 - 1) slots) [
  | none ↦ []
  | some i ↦ elim (get_elem? slots i) [
    | none ↦ []
    | some s ↦ s.1 ∷ pick_loop max (set slots i (true, s.1))
  ]
]

abbrev pub unpicked : List IpVolumeEntry → List Slot
unpicked es = map (λ e. (false, e)) es

abbrev pub reported : IpVolumeEntry → WorkerTopIp
reported e = record {
  top_ip = e.ip;
  top_ipv6 = e.ipv6;
  top_connections = e.connections;
  top_bytes_in = e.bytes_in;
  top_bytes_out = e.bytes_out;
}

-- `tcp_rpcs_snapshot_top_ips`: the entries written to `out`, `out_count` of them.
pub snapshot_top_ips : ℤ → ℤ → Volumes → List WorkerTopIp
unfolding pick_loop
snapshot_top_ips (negsuc k) max v = []
snapshot_top_ips (pos sid) (negsuc k) v = []
snapshot_top_ips (pos sid) (pos max) v =
    if v.top_ips_per_secret_runtime == 0 || leb 16 sid
    then []
    else map reported (pick_loop max (unpicked (v.ip_volume sid)))
