-- ===== src/Secrets/Reload.antt =====
-- src/net/net-tcp-rpc-ext-drain.c: the reload of the secrets, and the end of a draining slot. The
-- array `placed` is kept as the list of the entries that are not placed yet.
pub mod Slots
pub mod Result
use teleproxy.Base.{
  ℕ, zero, suc, ◌+◌, ◌-◌, ◌*◌, ◌/◌, ◌^◌, Bool, true, false, not, ◌&&◌, ◌||◌, List, [], ◌∷◌, arith,
  ltb, leb, ◌==◌, if◌then◌else◌, Option, none, some, replicate,
}
use teleproxy.Base.Int.{ℤ, pos, negsuc}
use teleproxy.TopIps.{same_bytes}
use teleproxy.UniqBloom.{uniq_bloom_clear_slot, ext_secret_max_slots}
use teleproxy.Secrets.{
  Slot, SlotState, slot_free, slot_active, slot_draining, Secrets, NewSecret, is_free, is_active,
  is_draining, set_slot, no_counters, refresh, clear_ips, ext_secret_max_active,
}

-- The first slot of `n` slots from `i` on that passes a test.
unfoldable pub find_slot : (Slot → Bool) → (ℕ → Slot) → ℕ → ℕ → Option ℕ
find_slot test slots i zero = none
find_slot test slots i (suc n) =
    let later = find_slot test slots (suc i) n in if test (slots i) then some i else later

-- The slots behind the pinned ones.
abbrev pub find_free_range : (Slot → Bool) → (ℕ → Slot) → ℕ → Option ℕ
find_free_range test slots pinned = find_slot test slots pinned (ext_secret_max_slots - pinned)

abbrev pub has_key : List ℕ → Slot → Bool
has_key key slot = same_bytes slot.secret key

abbrev pub in_use_with : List ℕ → Slot → Bool
in_use_with key slot = not (is_free slot.state) && has_key key slot

-- The entries that do not collide with a pinned slot.
unfoldable pub drop_pinned : (ℕ → Slot) → ℕ → List NewSecret → List NewSecret
unfolding find_slot
drop_pinned slots pinned [] = []
drop_pinned slots pinned (new ∷ news) =
    let rest = drop_pinned slots pinned news in
    elim (find_slot (has_key new.new_secret) slots 0 pinned) [ some p ↦ rest | none ↦ new ∷ rest ]

abbrev pub clear_at : ℕ → (ℕ → Bool) → ℕ → Bool
clear_at i f k = if k == i then false else f k

abbrev pub drain_slot : ℕ → Slot → Slot
drain_slot now slot = record slot { state = slot_draining; drain_started_at = now }

-- Pass C, on the slots behind the pinned ones.
unfoldable pub mark_draining : ℕ → ℕ → (ℕ → Bool) → (ℕ → Slot) → ℕ → Slot
mark_draining now pinned candidate slots k =
    if leb pinned k && (ltb k ext_secret_max_slots && candidate k)
    then drain_slot now (slots k)
    else slots k

-- The counters of a slot for a new secret.
abbrev pub clear_counters : Slot → Slot
clear_counters slot = clear_ips (record slot { active_connections = 0; counters = no_counters })

-- The count of active slots and the first index behind the slots in use, of `n` slots from `i` on.
unfoldable pub count_active : (ℕ → Slot) → ℕ → ℕ → ℕ
count_active slots i zero = 0
count_active slots i (suc n) =
    let rest = count_active slots (suc i) n in if is_active (slots i).state then rest + 1 else rest

unfoldable pub high_water : (ℕ → Slot) → ℕ → ℕ → ℕ → ℕ
high_water slots mark i zero = mark
high_water slots mark i (suc n) =
    let raised = high_water slots (i + 1) (suc i) n in
    let same = high_water slots mark (suc i) n in
    if not (is_free (slots i).state) && ltb mark (i + 1) then raised else same

abbrev pub mark_of : (ℕ → Slot) → ℕ → ℕ
mark_of slots pinned = high_water slots pinned pinned (ext_secret_max_slots - pinned)

module _ (secret_name : ℕ → List ℕ) where
  -- Pass B: the slots, the candidates, and the entries that have no slot yet.
  unfoldable pub match_existing :
      ℕ → List NewSecret → (ℕ → Slot) → (ℕ → Bool) → (ℕ → Slot) × (ℕ → Bool) × List NewSecret
  unfolding find_slot refresh
  match_existing pinned [] slots candidate = (slots, candidate, [])
  match_existing pinned (new ∷ news) slots candidate =
      elim (find_free_range (in_use_with new.new_secret) slots pinned) [
        | some i ↦
            match_existing pinned news (set_slot i (refresh secret_name i new (slots i)) slots)
              (clear_at i candidate)
        | none ↦
            let (slots', candidate', rest) = match_existing pinned news slots candidate in
            (slots', candidate', new ∷ rest)
      ]

  -- A slot for a new secret.
  abbrev pub fresh_slot : ℕ → NewSecret → Slot → Slot
  fresh_slot i new slot =
      clear_counters (record (refresh secret_name i new slot) { secret = new.new_secret })

  -- Pass D: false when there is no free slot.
  unfoldable pub place_new : List NewSecret → Secrets → Secrets × Bool
  unfolding find_slot refresh
  place_new [] s = (s, true)
  place_new (new ∷ news) s =
      elim (find_free_range (λ slot. is_free slot.state) s.slots s.ext_secret_pinned) [
        | none ↦ (s, false)
        | some i ↦ place_new news (record s {
          slots = set_slot i (fresh_slot i new (s.slots i)) s.slots;
          uniq_bloom = uniq_bloom_clear_slot (pos i) s.uniq_bloom;
        })
      ]

  -- Passes A, B and C.
  unfoldable pub match_and_drain : List NewSecret → Secrets → Secrets × List NewSecret
  match_and_drain news s =
      let candidate : ℕ → Bool = λ k. is_active (s.slots k).state in
      let (slots, candidate', rest) =
        match_existing s.ext_secret_pinned (drop_pinned s.slots s.ext_secret_pinned news) s.slots
          candidate in
      (record s { slots = mark_draining s.precise_now s.ext_secret_pinned candidate' slots }, rest)

  -- The end of the reload: the number of active slots is checked, and the count of slots set.
  unfoldable pub finish_reload : Secrets × Bool → Secrets × Bool
  finish_reload (s, false) = (s, false)
  finish_reload (s, true) =
      let pinned = s.ext_secret_pinned in
      if ltb ext_secret_max_active
        (pinned + count_active s.slots pinned (ext_secret_max_slots - pinned))
      then (s, false)
      else (record s { ext_secret_cnt = mark_of s.slots pinned }, true)

  -- `tcp_rpcs_reload_ext_secrets`: false is the return value -1.
  unfoldable pub reload_ext_secrets : List NewSecret → Secrets → Secrets × Bool
  reload_ext_secrets news s =
      let (s1, rest) = match_and_drain news s in finish_reload (place_new rest s1)

-- A slot that is released.
abbrev pub released : Slot → Slot
released slot = clear_counters (record slot {
  state = slot_free;
  drain_started_at = 0;
  secret = replicate 16 0;
  label = [];
  limit = pos 0;
  quota = pos 0;
  rate_limit = pos 0;
  max_ips = pos 0;
  expires = pos 0;
})

-- `tcp_rpcs_drain_release_slot_if_empty`
pub drain_release_slot_if_empty : ℤ → Secrets → Secrets
unfolding high_water
drain_release_slot_if_empty (negsuc k) s = s
drain_release_slot_if_empty (pos i) s =
    if ltb i s.ext_secret_pinned || leb ext_secret_max_slots i
    then s
    else if not (is_draining (s.slots i).state)
    then s
    else if not ((s.slots i).active_connections == 0)
    then s
    else (let slots = set_slot i (released (s.slots i)) s.slots in
        record s {
          slots = slots;
          uniq_bloom = uniq_bloom_clear_slot (pos i) s.uniq_bloom;
          ext_secret_cnt = mark_of slots s.ext_secret_pinned;
        })
