-- ===== src/Secrets/Gate.antt =====
-- src/net/net-tcp-rpc-ext-server.c: which slot's secret a client used, the checks on a new
-- connection, and what is counted for it.
pub mod Limits
pub mod Runs
pub mod Tracked
pub mod Resolve
use teleproxy.Base.{
  ℕ, zero, suc, ◌+◌, ◌-◌, ◌*◌, ◌/◌, ◌^◌, Bool, true, false, not, ◌&&◌, ◌||◌, List, [], ◌∷◌, arith,
  ltb, leb, ◌==◌, if◌then◌else◌, Option, none, some, get_elem?,
}
use mathlib.Core.List.{map}
use teleproxy.Base.Int.{ℤ, pos, negsuc}
use teleproxy.Obfs2.{ParseResult, parse_header}
use teleproxy.TopIps.{Volumes, account_connect, account_disconnect}
use teleproxy.Secrets.{Slot, SlotState, Counters, Secrets, set_slot, share, is_free, is_draining}
use teleproxy.Secrets.IpTrack.{ip_over_limit, ip_track_connect, ip_track_disconnect}

-- `secret_over_limit`, `secret_expired` and `secret_over_quota`
pub secret_over_limit : ℕ → Slot → Bool
secret_over_limit workers slot = elim slot.limit [
  | negsuc k ↦ false
  | pos n ↦ if n == 0 then false else leb (share workers n) slot.active_connections
]

pub secret_expired : ℤ → Slot → Bool
secret_expired now slot = elim slot.expires [
  | negsuc k ↦ false
  | pos n ↦ if n == 0 then false else elim now [ negsuc k ↦ false | pos t ↦ leb n t ]
]

pub secret_over_quota : ℕ → Slot → Bool
secret_over_quota workers slot = elim slot.quota [
  | negsuc k ↦ false
  | pos n ↦
      if n == 0
      then false
      else leb (share workers n) (slot.counters.bytes_received + slot.counters.bytes_sent)
]

-- Why a connection is refused.
pub data Refusal : Type 0 where
  draining expired over_limit over_quota over_ips : Refusal

unfoldable pub refusal : Secrets → ℕ → ℕ → List ℕ → Option Refusal
unfolding secret_over_limit secret_expired secret_over_quota
refusal s id ip ipv6 =
    let slot = s.slots id in
    if is_draining slot.state
    then some draining
    else if secret_expired s.now slot
    then some expired
    else if secret_over_limit s.workers slot
    then some over_limit
    else if secret_over_quota s.workers slot
    then some over_quota
    else if ip_over_limit s.workers slot ip ipv6
    then some over_ips
    else none

abbrev pub count_refusal : Refusal → Counters → Counters
count_refusal draining c = record c { rejected_draining = c.rejected_draining + 1 }
count_refusal expired c = record c { rejected_expired = c.rejected_expired + 1 }
count_refusal over_limit c = record c { connections_rejected = c.connections_rejected + 1 }
count_refusal over_quota c = record c { rejected_quota = c.rejected_quota + 1 }
count_refusal over_ips c = record c { rejected_ips = c.rejected_ips + 1 }

abbrev pub refuse : Refusal → ℕ → Secrets → Secrets
refuse r id s =
    let slot = s.slots id in
    record s {
      slots = set_slot id (record slot { counters = count_refusal r slot.counters }) s.slots;
    }

-- The counters of a connection that is let in, and its address.
pub count_connection : ℕ → ℕ → List ℕ → Secrets × Volumes → Secrets × Volumes
count_connection id ip ipv6 (s, volumes) =
    let slot = s.slots id in
    let c = slot.counters in
    let slot1 : Slot = record slot {
      active_connections = slot.active_connections + 1;
      counters = record c { connections_created = c.connections_created + 1 };
    } in
    (
      ip_track_connect id ip ipv6 (record s { slots = set_slot id slot1 s.slots }),
      account_connect (pos id) ip (some ipv6) volumes,
    )

-- A connection that is not TLS, once its secret is known: what is left, and whether it is let in.
unfoldable pub accept : ℕ → ℕ → List ℕ → Secrets × Volumes → (Secrets × Volumes) × Bool
accept id ip ipv6 (s, volumes) = elim (refusal s id ip ipv6) [
  | some r ↦ ((refuse r id s, volumes), false)
  | none ↦ (count_connection id ip ipv6 (s, volumes), true)
]

-- The end of a connection that was counted: the count is positive.
pub discount_connection : ℕ → ℕ → List ℕ → Secrets × Volumes → Secrets × Volumes
discount_connection id ip ipv6 (s, volumes) =
    let slot = s.slots id in
    let slot1 : Slot = record slot { active_connections = slot.active_connections - 1 } in
    (
      ip_track_disconnect id ip ipv6 (record s { slots = set_slot id slot1 s.slots }),
      account_disconnect (pos id) ip (some ipv6) volumes,
    )

-- The slots in use from `i` on, `n` of them looked at.
unfoldable pub compact : (ℕ → Slot) → ℕ → ℕ → List ℕ
compact slots i zero = []
compact slots i (suc n) =
    let rest = compact slots (suc i) n in if is_free (slots i).state then rest else i ∷ rest

module _ (sha256 : List ℕ → List ℕ) (aes_ctr : List ℕ → List ℕ → List ℕ → List ℕ) where
  -- The slot of an obfuscated2 header: `none` is the parser's refusal, and an inner `none` an
  -- element of `compact_to_slot` that was never written.
  unfoldable pub resolve_secret : Bool → Secrets → List ℕ → Option (Option ℕ)
  unfolding compact
  resolve_secret rand_pad_only s header =
      let used = compact s.slots 0 s.ext_secret_cnt in
      elim (parse_header sha256 aes_ctr header (map (λ i. (s.slots i).secret) used)
        rand_pad_only).0 [ none ↦ none | some r ↦ some (get_elem? used r.secret_id) ]
