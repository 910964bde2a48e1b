-- ===== src/Secrets/Gate/Tracked.antt =====
-- src/net/net-tcp-rpc-ext-server.c: the address of a connection that is let in is tracked.
use teleproxy.Base.{
  ℕ, suc, ◌+◌, ◌≤◌, Bool, true, false, List, arith, length, ◌==◌, Option-cases, ◌≡◌, inl, inr,
}
use teleproxy.Base.Int.{pos}
use teleproxy.TopIps.{Volumes}
use teleproxy.UniqBloom.{uniq_bloom_test_and_set}
use teleproxy.Secrets.{Slot, Secrets, set_slot, share}
use teleproxy.Secrets.IpTrack.{is_tracked, track_slot, is_positive, ip_track_connect}
use teleproxy.Secrets.IpTrack.Count.{IsCounted}
use teleproxy.Secrets.IpTrack.Found.{IsAddress, track-is_tracked}
use teleproxy.Secrets.Gate.{refusal, count_connection, accept}
use teleproxy.Secrets.Gate.Limits.{AllWithin, over_ips_room, refusal_room}

track_slot-is_tracked :
    (s : Secrets) (novel : Bool) (ip : ℕ) (ipv6 : List ℕ) (slot : Slot) (n : ℕ)
    → slot.max_ips ≡ pos (suc n)
    → IsAddress ip ipv6
    → IsCounted slot
    → (is_tracked ip ipv6 slot.ips ≡ false → slot.unique_ip_count + 1 ≤ length slot.ips)
    → is_tracked ip ipv6 (track_slot s novel ip ipv6 slot).ips ≡ true
unfolding track_slot
track_slot-is_tracked s false ip ipv6 slot n m h c room =
    let p : is_positive slot.max_ips ≡ true = ground (arith, m) in
    rw p (track-is_tracked s ip ipv6 slot h c room)
track_slot-is_tracked s true ip ipv6 slot n m h c room =
    let k = slot.counters in
    let p : is_positive slot.max_ips ≡ true = ground (arith, m) in
    rw p (
      track-is_tracked s ip ipv6
        (record slot { counters = record k { unique_ips = k.unique_ips + 1 } }) h c room)

-- A connection that is let in by a secret with a positive limit of addresses, in a state that keeps
-- to the limits, has its address in the table of the secret, if a worker's share of the limit is at
-- most the size of the table and the address is not 0.
pub accept-is_tracked :
    (id ip : ℕ) (ipv6 : List ℕ) (s : Secrets) (v : Volumes) (n : ℕ)
    → AllWithin s
    → (s.slots id).max_ips ≡ pos (suc n)
    → share s.workers (suc n) ≤ length (s.slots id).ips
    → IsAddress ip ipv6
    → (accept id ip ipv6 (s, v)).1 ≡ true
    → is_tracked ip ipv6 ((accept id ip ipv6 (s, v)).0.0.slots id).ips ≡ true
unfolding accept count_connection ip_track_connect
accept-is_tracked id ip ipv6 s v n w m fits h e = elim (Option-cases (refusal s id ip ipv6)) [
  | inr (r, p) ↦ absurd (ground (arith, e, p))
  | inl p ↦
      let (free, room) = refusal_room s id ip ipv6 p in
      let same : (id == id) ≡ true = ground arith in
      let slot = s.slots id in
      let c = slot.counters in
      let slot1 : Slot = record slot {
        active_connections = slot.active_connections + 1;
        counters = record c { connections_created = c.connections_created + 1 };
      } in
      let s1 : Secrets = record s { slots = set_slot id slot1 s.slots } in
      let novel = (uniq_bloom_test_and_set id ip ipv6 s.uniq_bloom).0 in
      rw (p, accept, same)
        (track_slot-is_tracked s1 novel ip ipv6 slot1 n m h (w id).counted
          (λ x. let k = over_ips_room s.workers slot ip ipv6 room x n m in omega (arith, k, fits)))
]
