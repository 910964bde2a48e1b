-- ===== src/TopIps/Tests.antt =====
-- src/net/net-tcp-rpc-ext-top-ips.c: the table and the report on concrete clients.
use teleproxy.Base.{
  ℕ, ◌^◌, ◌≤◌, ◌<◌, ◌==◌, false, List, [], ◌∷◌, none, some, arith, length, get_elem?, ◌≡◌, refl,
  if◌then◌else◌,
}
use mathlib.Core.List.{map}
use teleproxy.Base.Int.{pos}
use teleproxy.TopIps.{
  IpVolumeEntry, Volumes, is_for, is_candidate, find_index, account_connect, account_bytes,
  snapshot_top_ips, reported, place, is_empty_slot, is_stale, zero_ipv6,
}
use teleproxy.TopIps.Snapshot.{snapshot_lem, IsOf, Descending, Reported}
use teleproxy.TopIps.Eviction.{connect_keeps}

abbrev client : ℕ → ℕ → ℕ → IpVolumeEntry
client ip sent seen = record {
  ip = ip;
  ipv6 = zero_ipv6;
  connections = 0;
  bytes_in = sent;
  bytes_out = 0;
  last_seen = seen;
}

-- Two clients of secret 0, one stale, in a table of two.
abbrev two_clients : Volumes
two_clients = record {
  ip_volume = λ k. if k == 0 then client 7 100 0 ∷ client 8 20 9000000000 ∷ [] else [];
  top_ips_per_secret_runtime = 5;
  precise_now = 10000000000;
}

snapshot_lem_example :
    (top : List IpVolumeEntry) × (snapshot_top_ips (pos 0) (pos 1) two_clients ≡ map reported top)
    × ((is : List ℕ) × IsOf (two_clients.ip_volume 0) is top)
    × (length top ≤ 1)
    × Descending (2 ^ 64) top
    × ((j : ℕ) (e : IpVolumeEntry)
        → get_elem? (two_clients.ip_volume 0) j ≡ some e
        → is_empty_slot e ≡ false
        → 2 ^ 63 < place e
        → Reported e 1 top)
snapshot_lem_example = snapshot_lem two_clients 0 1 (ground arith) (omega arith)

connect_keeps_example :
    get_elem? ((account_connect (pos 0) 9 none two_clients).ip_volume 0) 1
    ≡ some (client 8 20 9000000000)
unfolding is_empty_slot is_stale is_for find_index
connect_keeps_example =
    connect_keeps two_clients 0 9 1 none (client 8 20 9000000000) refl refl refl
      (λ e. absurd (ground (arith, e)))

-- The busiest first.
report : map (λ t. t.top_ip) (snapshot_top_ips (pos 0) (pos 5) two_clients) ≡ 7 ∷ 8 ∷ []
unfolding snapshot_top_ips is_candidate place
report = refl

-- The stale entry makes way.
evicted : map (λ e. e.ip) ((account_connect (pos 0) 9 none two_clients).ip_volume 0) ≡ 9 ∷ 8 ∷ []
unfolding account_connect is_for is_empty_slot is_stale
evicted = refl

-- Traffic is added to the entry of its address.
counted_bytes :
    map (λ e. e.bytes_out) ((account_bytes (pos 0) 8 none (pos 30) (pos 1) two_clients).ip_volume 0)
    ≡ 0 ∷ 30 ∷ []
unfolding account_bytes is_for
counted_bytes = refl
