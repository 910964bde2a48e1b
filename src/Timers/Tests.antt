-- ===== src/Timers/Tests.antt =====
-- src/net/net-timers.c: the heap on three timers.
use teleproxy.Base.{ℕ, ◌+◌, ◌-◌, ◌^◌, ◌==◌, if◌then◌else◌, none, some, arith, ◌≡◌, refl, inr}
use teleproxy.Timers.{
  Timers, returned, overrun, insert_event_timer, remove_event_timer, thread_run_timers, next_wait,
  last_wait, run_loop,
}
use teleproxy.Timers.Wf.{IsTimers}
use teleproxy.Timers.Heap.{view, set_time, insert-view, remove-view}
use teleproxy.Timers.Alarms.{later, IsQuiet, wait_of, thread_run_timers-view}

-- Timers 5 and 6, due at 20 and 30.
abbrev two_timers : Timers
two_timers = record {
  et_heap = λ i. i + 4;
  et_heap_size = 2;
  h_idx = λ t. if t == 5 then 1 else if t == 6 then 2 else 0;
  wakeup_time = λ t. if t == 5 then 20 else if t == 6 then 30 else 0;
  insert_ops = 2;
  remove_ops = 0;
  alarms = 0;
  total_timers = 2;
}

two_timers-IsTimers : IsTimers two_timers
two_timers-IsTimers = record {
  heap_idx = λ k p q. ground arith;
  idx_heap = λ t n. ground arith;
  order = λ c p q. ground arith;
  bound = omega arith;
  counted = refl;
}

abbrev quiet : ℕ → Timers → Timers
quiet t s = s

quiet-IsQuiet : IsQuiet quiet
quiet-IsQuiet = record { keeps = λ t s w. w; size = λ t s. refl; same = λ t s u. refl }

insert-view_example :
    (s' : Timers) × (insert_event_timer (set_time two_timers 7 10) 7 ≡ returned (s', s'.h_idx 7))
    × IsTimers s'
    × ((t : ℕ) → view s' t ≡ (if t == 7 then some 10 else view two_timers t))
insert-view_example = insert-view two_timers 7 10 two_timers-IsTimers (inr (omega arith))

remove-view_example :
    (s' : Timers) × (remove_event_timer two_timers 5
      ≡ returned (s', if two_timers.h_idx 5 == 0 then 0 else 1))
    × IsTimers s'
    × ((t : ℕ) → view s' t ≡ (if t == 5 then none else view two_timers t))
    × (s'.et_heap_size ≡ (
        if two_timers.h_idx 5 == 0 then two_timers.et_heap_size else two_timers.et_heap_size - 1))
remove-view_example = remove-view two_timers 5 two_timers-IsTimers

thread_run_timers-view_example :
    (s' : Timers) × (wait : ℕ) × (thread_run_timers quiet (λ n. n) 25 3 two_timers
      ≡ returned (s', wait))
    × IsTimers s'
    × ((t : ℕ) → view s' t ≡ later 25 (view two_timers t))
    × (wait ≡ wait_of quiet (λ n. n) 25 s')
thread_run_timers-view_example =
    thread_run_timers-view quiet (λ n. n) 25 3 two_timers quiet-IsQuiet two_timers-IsTimers
      (omega arith)

-- A timer that is due first rises to the root.
risen : elim (insert_event_timer (set_time two_timers 7 10) 7) as (λ r. Type 0) [
  | returned (s, i) ↦ (i ≡ 1) × (s.et_heap 1 ≡ 7) × (s.h_idx 5 ≡ 3)
  | _ ↦ ⊥
]
unfolding insert_event_timer
risen = (refl, refl, refl)

-- The timer that is due is gone, and the wait is for the other.
one_left : elim (thread_run_timers quiet (λ n. n) 25 3 two_timers) as (λ r. Type 0) [
  | returned (s, wait) ↦ (s.et_heap_size ≡ 1) × (s.et_heap 1 ≡ 6) × (wait ≡ 6)
  | _ ↦ ⊥
]
unfolding thread_run_timers next_wait last_wait run_loop remove_event_timer
one_left = (refl, refl, refl)

-- The last timer that the assertion lets in does not fit the array.
no_room : insert_event_timer (record two_timers { et_heap_size = 2 ^ 19 - 1 }) 9 ≡ overrun
unfolding insert_event_timer
no_room = refl
