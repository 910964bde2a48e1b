-- ===== src/Secrets.antt =====
-- src/net/net-tcp-rpc-ext-server.c and src/net/net-tcp-rpc-ext-drain.c: the slots of the secrets,
-- with their limits, counters and addresses. The arrays `ext_secret_...` and `per_secret_...` are one
-- array of structures, indexed by the slot. Limits are signed; counters and the connections of an
-- address, which no code makes negative, are numbers that do not wrap around. Times are ticks.
pub mod IpTrack
pub mod Gate
pub mod Reload
mod Tests
use teleproxy.Base.{
  ℕ, zero, suc, ◌+◌, ◌-◌, ◌*◌, ◌/◌, ◌^◌, Bool, true, false, not, ◌&&◌, ◌||◌, List, [], ◌∷◌, arith,
  ltb, leb, ◌==◌, if◌then◌else◌, length, take, replicate,
}
use teleproxy.Base.Int.{ℤ, pos, negsuc}
use teleproxy.UniqBloom.{Filters, ext_secret_max_slots, uniq_bloom_clear_slot}

abbrev pub ext_secret_max_active : ℕ
ext_secret_max_active = 16

abbrev pub ext_secret_label_max : ℕ
ext_secret_label_max = 32

abbrev pub secret_max_tracked_ips : ℕ
secret_max_tracked_ips = 256

pub data SlotState : Type 0 where
  slot_free slot_active slot_draining : SlotState

abbrev pub is_free : SlotState → Bool
is_free slot_free = true
is_free _ = false

abbrev pub is_active : SlotState → Bool
is_active slot_active = true
is_active _ = false

abbrev pub is_draining : SlotState → Bool
is_draining slot_draining = true
is_draining _ = false

-- `struct tracked_ip`
pub record TrackedIp : Type 0 where
  pub ip : ℕ
  pub ipv6 : List ℕ
  pub connections : ℕ
  pub tokens : ℤ
  pub last_refill_time : ℕ

-- The counters `per_secret_...`, but for the connections.
pub record Counters : Type 0 where
  pub connections_created : ℕ
  pub connections_rejected : ℕ
  pub bytes_received : ℕ
  pub bytes_sent : ℕ
  pub rejected_quota : ℕ
  pub rejected_ips : ℕ
  pub rejected_expired : ℕ
  pub unique_ips : ℕ
  pub rate_limited : ℕ
  pub rejected_draining : ℕ
  pub drain_forced : ℕ

pub record Slot : Type 0 where
  pub secret : List ℕ
  pub label : List ℕ
  pub limit : ℤ
  pub quota : ℤ
  pub rate_limit : ℤ
  pub max_ips : ℤ
  pub expires : ℤ
  pub state : SlotState
  pub drain_started_at : ℕ
  pub active_connections : ℕ
  pub counters : Counters
  pub ips : List TrackedIp
  pub unique_ip_count : ℕ

pub record Secrets : Type 0 where
  pub slots : ℕ → Slot
  pub ext_secret_cnt : ℕ
  pub ext_secret_pinned : ℕ
  pub uniq_bloom : Filters
  pub workers : ℕ
  pub precise_now : ℕ
  pub now : ℤ

abbrev pub no_ip : TrackedIp
no_ip = record {
  ip = 0;
  ipv6 = replicate 16 0;
  connections = 0;
  tokens = pos 0;
  last_refill_time = 0;
}

abbrev pub no_counters : Counters
no_counters = record {
  connections_created = 0;
  connections_rejected = 0;
  bytes_received = 0;
  bytes_sent = 0;
  rejected_quota = 0;
  rejected_ips = 0;
  rejected_expired = 0;
  unique_ips = 0;
  rate_limited = 0;
  rejected_draining = 0;
  drain_forced = 0;
}

abbrev pub set_slot : ℕ → Slot → (ℕ → Slot) → ℕ → Slot
set_slot i v slots k = if k == i then v else slots k

-- A secret of the configuration; a quota, limit or time that is not given is 0.
pub record NewSecret : Type 0 where
  pub new_secret : List ℕ
  pub new_label : List ℕ
  pub new_limit : ℤ
  pub new_quota : ℤ
  pub new_rate_limit : ℤ
  pub new_max_ips : ℤ
  pub new_expires : ℤ

-- The share of a worker: at least 1.
abbrev pub share : ℕ → ℕ → ℕ
share workers n = let eff = if ltb 1 workers then n / workers else n in if ltb eff 1 then 1 else eff

-- A slot's tables of addresses, cleared.
abbrev pub clear_ips : Slot → Slot
clear_ips slot = record slot { ips = replicate secret_max_tracked_ips no_ip; unique_ip_count = 0 }

-- The text "secret_%d".
module _ (secret_name : ℕ → List ℕ) where
  -- The label that is stored.
  pub label_for : ℕ → List ℕ → List ℕ
  label_for i [] = take ext_secret_label_max (secret_name i)
  label_for i (c ∷ cs) = take ext_secret_label_max (c ∷ cs)

  -- A slot with a secret's data, active, and the rest as it was.
  pub refresh : ℕ → NewSecret → Slot → Slot
  unfolding label_for
  refresh i new slot = record slot {
    label = label_for i new.new_label;
    limit = new.new_limit;
    quota = new.new_quota;
    rate_limit = new.new_rate_limit;
    max_ips = new.new_max_ips;
    expires = new.new_expires;
    state = slot_active;
    drain_started_at = 0;
  }

  -- `tcp_rpcs_set_ext_secret`: `none` is the failed assertion.
  pub set_ext_secret : NewSecret → Secrets → Secrets × Bool
  set_ext_secret new s =
      let i = s.ext_secret_cnt in
      if ltb i ext_secret_max_active
      then (
        record s {
          ext_secret_cnt = i + 1;
          slots =
              set_slot i
                (clear_ips (record (refresh i new (s.slots i)) { secret = new.new_secret }))
                s.slots;
          uniq_bloom = uniq_bloom_clear_slot (pos i) s.uniq_bloom;
        },
        true,
      )
      else (s, false)

pub pin_ext_secrets : Secrets → Secrets
pin_ext_secrets s = record s { ext_secret_pinned = s.ext_secret_cnt }
