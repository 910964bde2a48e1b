-- ===== src/Secrets/Gate/Limits.antt =====
-- src/net/net-tcp-rpc-ext-server.c: the checks keep every secret within its limits.
use teleproxy.Base.{
  ℕ, suc, ◌+◌, ◌-◌, ◌≤◌, Bool, true, false, not, ◌&&◌, List, arith, ◌==◌, if◌then◌else◌, none,
  Bool-cases, Option-cases, ◌≡◌, sym, ◌∙◌, inl, inr,
}
use teleproxy.Base.Int.{ℤ, pos}
use teleproxy.TopIps.{Volumes}
use teleproxy.UniqBloom.{uniq_bloom_test_and_set}
use teleproxy.Secrets.{Slot, Secrets, set_slot, share}
use teleproxy.Secrets.IpTrack.{
  is_tracked, ip_over_limit, ip_track_connect, ip_track_disconnect, track, track_slot, untrack,
  is_positive,
}
use teleproxy.Secrets.IpTrack.Count.{IsCounted, track_lem, untrack-IsCounted, untrack_le}
use teleproxy.Secrets.Gate.{
  secret_over_limit, Refusal, refusal, refuse, count_connection, accept, discount_connection,
}

-- A positive limit is kept to.
abbrev pub Under : ℕ → ℤ → ℕ → Type 0
Under workers limit n = (k : ℕ) → limit ≡ pos (suc k) → n ≤ share workers (suc k)

-- The counters of a slot are right and within its limits.
pub record IsWithin (workers : ℕ) (slot : Slot) : Type 0 where
  pub counted : IsCounted slot
  pub connections : Under workers slot.limit slot.active_connections
  pub addresses : Under workers slot.max_ips slot.unique_ip_count

abbrev pub AllWithin : Secrets → Type 0
AllWithin s = (k : ℕ) → IsWithin s.workers (s.slots k)

-- The checks leave room for one more.
over_limit_room :
    (workers : ℕ) (slot : Slot)
    → secret_over_limit workers slot ≡ false
    → Under workers slot.limit (slot.active_connections + 1)
unfolding secret_over_limit
over_limit_room workers slot f k e = ground (arith, f, e)

pub over_ips_room :
    (workers : ℕ) (slot : Slot) (ip : ℕ) (ipv6 : List ℕ)
    → ip_over_limit workers slot ip ipv6 ≡ false
    → is_tracked ip ipv6 slot.ips ≡ false
    → Under workers slot.max_ips (slot.unique_ip_count + 1)
unfolding ip_over_limit
over_ips_room workers slot ip ipv6 f t k e = ground (arith, f, t, e)

pub refusal_room :
    (s : Secrets) (id ip : ℕ) (ipv6 : List ℕ)
    → refusal s id ip ipv6 ≡ none
    → (secret_over_limit s.workers (s.slots id) ≡ false)
      × (ip_over_limit s.workers (s.slots id) ip ipv6 ≡ false)
unfolding refusal
refusal_room s id ip ipv6 e = ground (arith, e)

-- What counting a connection does to the slot.
abbrev one_more : Slot → Slot
one_more slot =
    let c = slot.counters in
    record slot {
      active_connections = slot.active_connections + 1;
      counters = record c { connections_created = c.connections_created + 1 };
    }

abbrev novel_address : Bool → Slot → Slot
novel_address novel slot =
    let c = slot.counters in
    if novel then record slot { counters = record c { unique_ips = c.unique_ips + 1 } } else slot

track-IsWithin :
    (s : Secrets) (ip : ℕ) (ipv6 : List ℕ) (slot : Slot)
    → IsWithin s.workers slot
    → (is_tracked ip ipv6 slot.ips ≡ false
        → Under s.workers slot.max_ips (slot.unique_ip_count + 1))
    → IsWithin s.workers (track s ip ipv6 slot)
track-IsWithin s ip ipv6 slot w room =
    let (c, n, a, l, m) = track_lem s ip ipv6 slot w.counted in
    record {
      counted = c;
      connections = λ k e. ground (arith, a, w.connections k (sym l ∙ e));
      addresses = λ k e. elim n [
        | inl p ↦ ground (arith, p, w.addresses k (sym m ∙ e))
        | inr (t, p) ↦ ground (arith, p, room t k (sym m ∙ e))
      ];
    }

-- Room for a new address.
abbrev HasRoom : ℕ → ℕ → List ℕ → Slot → Type 0
HasRoom workers ip ipv6 slot =
    is_tracked ip ipv6 slot.ips ≡ false → Under workers slot.max_ips (slot.unique_ip_count + 1)

novel_address-IsWithin :
    (workers : ℕ) (novel : Bool) (ip : ℕ) (ipv6 : List ℕ) (slot : Slot)
    → IsWithin workers slot
    → HasRoom workers ip ipv6 slot
    → IsWithin workers (novel_address novel slot)
      × HasRoom workers ip ipv6 (novel_address novel slot)
novel_address-IsWithin workers false ip ipv6 slot w room = (w, room)
novel_address-IsWithin workers true ip ipv6 slot w room =
    (record { counted = w.counted; connections = w.connections; addresses = w.addresses }, room)

track_slot-IsWithin :
    (s : Secrets) (novel : Bool) (ip : ℕ) (ipv6 : List ℕ) (slot : Slot)
    → IsWithin s.workers slot
    → HasRoom s.workers ip ipv6 slot
    → IsWithin s.workers (track_slot s novel ip ipv6 slot)
unfolding track_slot
track_slot-IsWithin s novel ip ipv6 slot w room =
    let (w1, room1) = novel_address-IsWithin s.workers novel ip ipv6 slot w room in
    elim (Bool-cases (not (is_positive slot.max_ips) && not (is_positive slot.rate_limit))) [
      | inl t ↦ rw t w1
      | inr f ↦ rw f (track-IsWithin s ip ipv6 (novel_address novel slot) w1 room1)
    ]

-- A new value for one slot.
set_slot-IsWithin :
    (workers : ℕ) (slots : ℕ → Slot) (i : ℕ) (v : Slot)
    → ((k : ℕ) → IsWithin workers (slots k))
    → IsWithin workers v
    → (k : ℕ) → IsWithin workers (set_slot i v slots k)
set_slot-IsWithin workers slots i v w wv k = elim (Bool-cases (k == i)) [
  | inl t ↦ rw t wv
  | inr f ↦ rw f (w k)
]

refuse-AllWithin : (r : Refusal) (id : ℕ) (s : Secrets) → AllWithin s → AllWithin (refuse r id s)
refuse-AllWithin r id s w = set_slot-IsWithin s.workers s.slots id _ w (record {
  counted = (w id).counted;
  connections = (w id).connections;
  addresses = (w id).addresses;
})

count_connection-AllWithin :
    (id ip : ℕ) (ipv6 : List ℕ) (s : Secrets) (v : Volumes)
    → AllWithin s
    → refusal s id ip ipv6 ≡ none
    → AllWithin (count_connection id ip ipv6 (s, v)).0
unfolding count_connection ip_track_connect
count_connection-AllWithin id ip ipv6 s v w e =
    let (free, room) = refusal_room s id ip ipv6 e in
    let slot1 = one_more (s.slots id) in
    let w1 : IsWithin s.workers slot1 = record {
      counted = (w id).counted;
      connections = over_limit_room s.workers (s.slots id) free;
      addresses = (w id).addresses;
    } in
    let s1 : Secrets = record s { slots = set_slot id slot1 s.slots } in
    let all1 = set_slot-IsWithin s.workers s.slots id slot1 w w1 in
    let same : (id == id) ≡ true = ground arith in
    let novel = (uniq_bloom_test_and_set id ip ipv6 s.uniq_bloom).0 in
    set_slot-IsWithin s.workers s1.slots id _ all1 (
      rw same (
        track_slot-IsWithin s1 novel ip ipv6 slot1 w1
          (over_ips_room s.workers (s.slots id) ip ipv6 room)))

pub accept-AllWithin :
    (id ip : ℕ) (ipv6 : List ℕ) (s : Secrets) (v : Volumes)
    → AllWithin s
    → AllWithin (accept id ip ipv6 (s, v)).0.0
unfolding accept
accept-AllWithin id ip ipv6 s v w = elim (Option-cases (refusal s id ip ipv6)) [
  | inl n ↦ rw (n, accept) (count_connection-AllWithin id ip ipv6 s v w n)
  | inr (r, p) ↦ rw (p, accept) (refuse-AllWithin r id s w)
]

untrack-IsWithin :
    (workers ip : ℕ) (ipv6 : List ℕ) (slot : Slot)
    → IsWithin workers slot
    → IsWithin workers (untrack ip ipv6 slot)
unfolding untrack
untrack-IsWithin workers ip ipv6 slot w = record {
  counted = untrack-IsCounted ip ipv6 slot w.counted;
  connections = w.connections;
  addresses = λ k e.
      let less = untrack_le ip ipv6 slot in
      let before = w.addresses k e in omega (arith, less, before);
}

pub discount-AllWithin :
    (id ip : ℕ) (ipv6 : List ℕ) (s : Secrets) (v : Volumes)
    → AllWithin s
    → AllWithin (discount_connection id ip ipv6 (s, v)).0
unfolding discount_connection ip_track_disconnect
discount-AllWithin id ip ipv6 s v w =
    let slot = s.slots id in
    let slot1 : Slot = record slot { active_connections = slot.active_connections - 1 } in
    let w1 : IsWithin s.workers slot1 = record {
      counted = (w id).counted;
      connections = λ k e. let before = (w id).connections k e in omega (arith, before);
      addresses = (w id).addresses;
    } in
    let all1 = set_slot-IsWithin s.workers s.slots id slot1 w w1 in
    set_slot-IsWithin s.workers (set_slot id slot1 s.slots) id _ all1
      (untrack-IsWithin s.workers ip ipv6 _ (all1 id))
