-- ===== src/Timers.antt =====
-- src/net/net-timers.c: the heap of timers of a thread. A timer is a name, `h_idx` and `wakeup_time`
-- are fields of the timer it names, and the heap's entries are pointers, so that a write through
-- one is seen by all. A time is a number of ticks.
pub mod Wf
pub mod Adjust
pub mod Heap
pub mod Alarms
mod Tests
use teleproxy.Base.{
  ℕ, zero, suc, ◌+◌, ◌-◌, ◌*◌, ◌/◌, ◌^◌, Bool, true, false, not, ◌&&◌, ◌||◌, arith, ltb, leb, ◌==◌,
  if◌then◌else◌, Option, none, some,
}

abbrev pub max_event_timers : ℕ
max_event_timers = 2 ^ 19

-- The thread's variables, the fields of all timers, and the counters of the statistics.
pub record Timers : Type 0 where
  pub et_heap : ℕ → ℕ
  pub et_heap_size : ℕ
  pub h_idx : ℕ → ℕ
  pub wakeup_time : ℕ → ℕ
  pub insert_ops : ℕ
  pub remove_ops : ℕ
  pub alarms : ℕ
  pub total_timers : ℕ

-- `aborted` is a failed assertion, `overrun` a write outside an array, and `stuck` no C outcome: the
-- fuel of a loop ran out.
pub data Outcome {ℓ} (A : Type ℓ) : Type ℓ where
  returned : A → Outcome A
  aborted : Outcome A
  overrun : Outcome A
  stuck : Outcome A

infixl 5 ◌>>=◌
abbrev pub ◌>>=◌ {ℓ κ} : {A : Type ℓ} {B : Type κ} → Outcome A → (A → Outcome B) → Outcome B
returned a >>= f = f a
aborted >>= f = aborted
overrun >>= f = overrun
stuck >>= f = stuck

abbrev pub update : (ℕ → ℕ) → ℕ → ℕ → ℕ → ℕ
update f i v k = if k == i then v else f k

-- `et_heap[i] = et; et_heap[i]->h_idx = i`
abbrev pub place : Timers → ℕ → ℕ → Timers
place s i et = record s { et_heap = update s.et_heap i et; h_idx = update s.h_idx et i }

abbrev pub time_at : Timers → ℕ → ℕ
time_at s i = s.wakeup_time (s.et_heap i)

-- The loop towards the root.
pub up_loop : ℕ → Timers → ℕ → ℕ → Outcome (Timers × ℕ)
up_loop zero s et i = stuck
up_loop (suc fuel) s et i =
    let j = i / 2 in
    let moved = up_loop fuel (place s i (s.et_heap j)) et j in
    if ltb 1 i
    then (if leb (time_at s j) (s.wakeup_time et) then returned (s, i) else moved)
    else returned (s, i)

-- The child of `i` that the loop towards the leaves looks at.
pub smaller_child : Timers → ℕ → ℕ
smaller_child s j =
    if ltb j s.et_heap_size && ltb (time_at s (j + 1)) (time_at s j) then j + 1 else j

pub down_loop : ℕ → Timers → ℕ → ℕ → Outcome (Timers × ℕ)
unfolding smaller_child
down_loop zero s et i = stuck
down_loop (suc fuel) s et i =
    let j = smaller_child s (2 * i) in
    let moved = down_loop fuel (place s i (s.et_heap j)) et j in
    if leb (2 * i) s.et_heap_size
    then (if leb (s.wakeup_time et) (time_at s j) then returned (s, i) else moved)
    else returned (s, i)

-- `basic_et_adjust`: the index is returned.
pub basic_et_adjust : Timers → ℕ → ℕ → Outcome (Timers × ℕ)
unfolding up_loop down_loop
basic_et_adjust s et i = do
  (s1, i1) ← up_loop i s et i
  (s2, i2) ← down_loop (s1.et_heap_size + 1) s1 et i1
  returned (place s2 i2 et, i2)

-- The heap starts at index 1 of an array of `max_event_timers` elements: the last timer that the
-- assertion lets in would be written behind the array.
pub insert_event_timer : Timers → ℕ → Outcome (Timers × ℕ)
unfolding basic_et_adjust
insert_event_timer s et =
    let s0 : Timers = record s { insert_ops = s.insert_ops + 1 } in
    let i = s.h_idx et in
    if not (i == 0)
    then (if leb i s.et_heap_size && s.et_heap i == et then basic_et_adjust s0 et i else aborted)
    else if ltb s.et_heap_size max_event_timers
    then (if ltb (s.et_heap_size + 1) max_event_timers
        then basic_et_adjust
            (record s0 { total_timers = s.total_timers + 1; et_heap_size = s.et_heap_size + 1 }) et
            (s.et_heap_size + 1)
        else overrun)
    else aborted

pub remove_event_timer : Timers → ℕ → Outcome (Timers × ℕ)
unfolding basic_et_adjust
remove_event_timer s et =
    let i = s.h_idx et in
    let s0 : Timers = record s {
      total_timers = s.total_timers - 1;
      remove_ops = s.remove_ops + 1;
      h_idx = update s.h_idx et 0;
      et_heap_size = s.et_heap_size - 1;
    } in
    let last = s.et_heap s.et_heap_size in
    if i == 0
    then returned (s, 0)
    else if leb i s.et_heap_size && s.et_heap i == et
    then (if ltb s0.et_heap_size i
        then returned (s0, 1)
        else (basic_et_adjust s0 last i >>= λ r. returned (r.0, 1)))
    else aborted

-- The callbacks of the timers, and how long a wait of so many ticks is in milliseconds.
module _ (wakeup : ℕ → Timers → Timers) (milliseconds : ℕ → ℕ) (precise_now : ℕ) where
  -- The loop of `thread_run_timers`.
  pub run_loop : ℕ → Timers → Outcome Timers
  run_loop zero s = stuck
  run_loop (suc fuel) s =
      let et = s.et_heap 1 in
      let woken : Outcome Timers =
        if s.h_idx et == 1
        then (remove_event_timer s et >>= λ r.
            let s' = wakeup et r.0 in run_loop fuel (record s' { alarms = s'.alarms + 1 }))
        else aborted in
      if ltb 0 s.et_heap_size && leb (time_at s 1) precise_now then woken else returned s

  -- What `thread_run_timers` returns: the milliseconds to wait.
  pub next_wait : Timers → Option ℕ
  next_wait s =
      if s.et_heap_size == 0
      then some 100000
      else if ltb precise_now (time_at s 1)
      then some (milliseconds (time_at s 1 - precise_now) + 1)
      else none

  -- After the loop, when a timer that is due is an assertion that fails.
  pub last_wait : Timers → Outcome (Timers × ℕ)
  last_wait s = elim (next_wait s) [ some wait ↦ returned (s, wait) | none ↦ aborted ]

  pub thread_run_timers : ℕ → Timers → Outcome (Timers × ℕ)
  thread_run_timers fuel s = elim (next_wait s) [
    | some wait ↦ returned (s, wait)
    | none ↦ run_loop fuel s >>= last_wait
  ]

pub timers_get_first : Timers → ℕ
timers_get_first s = if s.et_heap_size == 0 then 0 else time_at s 1
