-- ===== src/Ja4/Table.antt =====
-- src/net/net-ja4.c: the tables of fingerprints, of a worker and of the master. The master's table is
-- the list of its first `master_count` entries.
use teleproxy.Base.{
  ℕ, zero, suc, ◌+◌, ◌%◌, ◌^◌, not, ◌&&◌, ◌||◌, List, [], ◌∷◌, ◌++◌, ltb, ◌==◌, if◌then◌else◌,
  length, Option, none, some,
}
use teleproxy.TopIps.{same_bytes}

-- `struct worker_top_ja4`
pub record TopJa4 : Type 0 where
  pub hash : List ℕ
  pub count : ℕ

abbrev pub worker_top_ja4_max : ℕ
worker_top_ja4_max = 32

abbrev pub master_top_ja4_max : ℕ
master_top_ja4_max = 256

abbrev pub one_more : ℕ → TopJa4 → TopJa4
one_more n e = record e { count = (e.count + n) % 2 ^ 64 }

-- The first loop of `ja4_record`.
pub count_hash : List ℕ → List TopJa4 → Option (List TopJa4)
count_hash hash [] = none
count_hash hash (e ∷ es) =
    let later = count_hash hash es in
    if not (e.count == 0) && same_bytes e.hash hash
    then some (one_more 1 e ∷ es)
    else elim later [ none ↦ none | some rest ↦ some (e ∷ rest) ]

-- The second loop of `ja4_record`.
pub claim_slot : List ℕ → List TopJa4 → List TopJa4
claim_slot hash [] = []
claim_slot hash (e ∷ es) =
    let rest = claim_slot hash es in
    if e.count == 0 then record { hash = hash; count = 1 } ∷ es else e ∷ rest

pub ja4_record : List ℕ → List TopJa4 → List TopJa4
unfolding count_hash claim_slot
ja4_record hash table = elim (count_hash hash table) [
  | some counted ↦ counted
  | none ↦ claim_slot hash table
]

-- `ja4_snapshot`: the entries in use, at most `max`.
pub ja4_snapshot : ℕ → List TopJa4 → List TopJa4
ja4_snapshot zero table = []
ja4_snapshot (suc max) [] = []
ja4_snapshot (suc max) (e ∷ es) =
    let with = e ∷ ja4_snapshot max es in
    let without = ja4_snapshot (suc max) es in if e.count == 0 then without else with

-- The inner loop of `ja4_master_merge`.
pub add_count : List ℕ → ℕ → List TopJa4 → Option (List TopJa4)
add_count hash n [] = none
add_count hash n (e ∷ es) =
    let later = add_count hash n es in
    if same_bytes e.hash hash
    then some (one_more n e ∷ es)
    else elim later [ none ↦ none | some rest ↦ some (e ∷ rest) ]

-- One entry of a worker.
pub merge_one : TopJa4 → List TopJa4 → List TopJa4
unfolding add_count
merge_one slot master =
    if slot.count == 0 || length slot.hash == 0
    then master
    else elim (add_count slot.hash slot.count master) [
      | some merged ↦ merged
      | none ↦ if ltb (length master) master_top_ja4_max then master ++ (slot ∷ []) else master
    ]

pub ja4_master_merge : List TopJa4 → List TopJa4 → List TopJa4
ja4_master_merge [] master = master
ja4_master_merge (slot ∷ slots) master = ja4_master_merge slots (merge_one slot master)

pub ja4_master_prepare_local : List TopJa4 → List TopJa4
unfolding ja4_master_merge
ja4_master_prepare_local table = ja4_master_merge (ja4_snapshot worker_top_ja4_max table) []
