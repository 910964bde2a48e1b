-- ===== src/Secrets/Tests.antt =====
-- src/net/net-tcp-rpc-ext-server.c and src/net/net-tcp-rpc-ext-drain.c: concrete secrets.
use teleproxy.Base.{
  ℕ, ◌<◌, ◌+◌, ◌-◌, ◌%◌, ◌==◌, if◌then◌else◌, true, false, none, some, List, [], ◌∷◌, ◌++◌, arith,
  ◌≡◌, refl, inl, ◌⊎◌, replicate, drop,
}
use teleproxy.Base.Int.{pos}
use teleproxy.TopIps.{Volumes, same_bytes}
use teleproxy.Obfs2.{parse_header}
use teleproxy.Secrets.{
  Slot, SlotState, slot_free, slot_active, slot_draining, Secrets, NewSecret, no_ip, no_counters,
  is_free,
}
use teleproxy.Secrets.IpTrack.{ip_over_limit, is_tracked}
use teleproxy.Secrets.IpTrack.Count.{live}
use teleproxy.Secrets.Gate.{accept, refusal, compact, resolve_secret}
use teleproxy.Secrets.Gate.Limits.{AllWithin}
use teleproxy.Secrets.Gate.Runs.{opens, closes, run, run-AllWithin}
use teleproxy.Secrets.Gate.Tracked.{accept-is_tracked}
use teleproxy.Secrets.Gate.Resolve.{resolve, IsAccepted, resolve_secret_lem}
use teleproxy.Secrets.Reload.{
  reload_ext_secrets, match_and_drain, match_existing, find_slot, drop_pinned, mark_draining,
  place_new, finish_reload, count_active,
}
use teleproxy.Secrets.Reload.Slots.{Kept, reload-Kept}
use teleproxy.Secrets.Reload.Result.{PinnedFor, ActiveFor, reload-serves}

abbrev slot_with : List ℕ → SlotState → Slot
slot_with key state = record {
  secret = key;
  label = [];
  limit = pos 1;
  quota = pos 0;
  rate_limit = pos 0;
  max_ips = pos 1;
  expires = pos 0;
  state = state;
  drain_started_at = 0;
  active_connections = 0;
  counters = no_counters;
  ips = no_ip ∷ no_ip ∷ [];
  unique_ip_count = 0;
}

-- Secret 4 is pinned in slot 0, slot 1 is free, and slot 2 has secret 5.
abbrev three_slots : ℕ → Slot
three_slots k =
    if k == 0
    then slot_with (4 ∷ []) slot_active
    else if k == 2
    then slot_with (5 ∷ []) slot_active
    else slot_with [] slot_free

abbrev some_secrets : Secrets
some_secrets = record {
  slots = three_slots;
  ext_secret_cnt = 3;
  ext_secret_pinned = 1;
  uniq_bloom = λ sid bit. false;
  workers = 0;
  precise_now = 100;
  now = pos 100;
}

abbrev no_volumes : Volumes
no_volumes = record { ip_volume = λ k. []; top_ips_per_secret_runtime = 0; precise_now = 100 }

slot_with-IsWithin : AllWithin some_secrets
unfolding live
slot_with-IsWithin k = record {
  counted = ground arith;
  connections = λ n e. ground arith;
  addresses = λ n e. ground arith;
}

run-AllWithin_example :
    AllWithin (run (opens 0 7 [] ∷ opens 0 8 [] ∷ closes 0 7 [] ∷ []) (some_secrets, no_volumes)).0
run-AllWithin_example =
    run-AllWithin (opens 0 7 [] ∷ opens 0 8 [] ∷ closes 0 7 [] ∷ []) some_secrets no_volumes
      slot_with-IsWithin

accept-is_tracked_example :
    is_tracked 7 [] ((accept 0 7 [] (some_secrets, no_volumes)).0.0.slots 0).ips ≡ true
unfolding accept refusal ip_over_limit is_tracked
accept-is_tracked_example =
    accept-is_tracked 0 7 [] some_secrets no_volumes 0 slot_with-IsWithin refl (omega arith)
      (inl (omega arith)) refl

-- A hash that keeps its input, and a cipher that takes the first byte of the key off each byte.
abbrev toy_hash : List ℕ → List ℕ
toy_hash k = drop 32 k

abbrev shift_all : ℕ → List ℕ → List ℕ
shift_all k [] = []
shift_all k (b ∷ bs) = (b + 256 - k) % 256 ∷ shift_all k bs

abbrev toy_cipher : List ℕ → List ℕ → List ℕ → List ℕ
toy_cipher [] iv text = text
toy_cipher (k ∷ key) iv text = shift_all k text

abbrev hello : List ℕ
hello = replicate 56 9 ++ (0xe2 ∷ 0xe2 ∷ 0xe2 ∷ 0xe2 ∷ 7 ∷ 5 ∷ 0 ∷ 0 ∷ [])

resolve_secret_lem_example :
    (resolve toy_hash toy_cipher true some_secrets hello ≡ none)
    ⊎ (((id : ℕ) × (resolve toy_hash toy_cipher true some_secrets hello ≡ some (some id))
          × (id < 3)
          × (is_free (three_slots id).state ≡ false)
          × IsAccepted toy_hash toy_cipher true hello (some (three_slots id).secret))
        ⊎ ((resolve toy_hash toy_cipher true some_secrets hello ≡ some none)
            × (compact three_slots 0 3 ≡ [])
            × IsAccepted toy_hash toy_cipher true hello none))
resolve_secret_lem_example = resolve_secret_lem toy_hash toy_cipher true some_secrets hello

-- Secret 5, the second in use, is that of slot 2.
slot_2_used : resolve toy_hash toy_cipher true some_secrets hello ≡ some (some 2)
unfolding resolve_secret compact parse_header
slot_2_used = refl

abbrev no_name : ℕ → List ℕ
no_name i = i ∷ []

abbrev entry : ℕ → NewSecret
entry k = record {
  new_secret = k ∷ [];
  new_label = [];
  new_limit = pos 0;
  new_quota = pos 0;
  new_rate_limit = pos 0;
  new_max_ips = pos 0;
  new_expires = pos 0;
}

-- Secret 6 is new, and secret 5 is dropped.
abbrev news : List NewSecret
news = entry 4 ∷ entry 6 ∷ []

reload-Kept_example : Kept 1 three_slots (reload_ext_secrets no_name news some_secrets).0.slots
reload-Kept_example = reload-Kept no_name news some_secrets

reload_succeeds : (reload_ext_secrets no_name news some_secrets).1 ≡ true
unfolding reload_ext_secrets match_and_drain match_existing find_slot drop_pinned mark_draining
    place_new finish_reload same_bytes count_active
reload_succeeds = refl

reload-serves_example :
    PinnedFor 1 three_slots (entry 6)
    ⊎ ActiveFor 1 (reload_ext_secrets no_name news some_secrets).0.slots (entry 6)
reload-serves_example = reload-serves no_name news some_secrets (entry 6) (1, refl) reload_succeeds

-- The slot of the dropped secret drains.
slot_2_drains : ((reload_ext_secrets no_name news some_secrets).0.slots 2).state ≡ slot_draining
unfolding reload_ext_secrets match_and_drain match_existing find_slot drop_pinned mark_draining
    place_new finish_reload same_bytes count_active
slot_2_drains = refl
