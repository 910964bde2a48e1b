-- ===== src/Timers/Alarms.antt =====
-- src/net/net-timers.c: thread_run_timers wakes the timers that are due.
use teleproxy.Base.{
  ℕ, zero, suc, ◌+◌, ◌-◌, ◌≤◌, ◌<◌, ◌&&◌, arith, ltb, leb, ◌==◌, if◌then◌else◌, ◌≡◌, refl,
  Bool-cases, Option-cases, inl, inr, Option, none, some, ◌⊎◌, ◌∙◌,
}
use teleproxy.Timers.{
  Timers, Outcome, returned, time_at, run_loop, next_wait, last_wait, thread_run_timers,
  timers_get_first,
}
use teleproxy.Timers.Wf.{IsTimers}
use teleproxy.Timers.Heap.{view, remove-view, timers_get_first-view}

-- What is left of a timer's entry at a time.
abbrev pub later : ℕ → Option ℕ → Option ℕ
later now none = none
later now (some time) = if leb time now then none else some time

-- A callback that leaves the timers as they are.
pub record IsQuiet (wakeup : ℕ → Timers → Timers) : Type 0 where
  pub keeps : (t : ℕ) (s : Timers) → IsTimers s → IsTimers (wakeup t s)
  pub size : (t : ℕ) (s : Timers) → (wakeup t s).et_heap_size ≡ s.et_heap_size
  pub same : (t : ℕ) (s : Timers) (u : ℕ) → view (wakeup t s) u ≡ view s u

-- Nothing is due.
abbrev IsIdle : ℕ → Timers → Type 0
IsIdle now s = (s.et_heap_size ≡ 0) ⊎ ((0 < s.et_heap_size) × (now < time_at s 1))

module _ (wakeup : ℕ → Timers → Timers) (milliseconds : ℕ → ℕ) (precise_now : ℕ) where
  abbrev loop : ℕ → Timers → Outcome Timers
  loop = run_loop wakeup milliseconds precise_now

  abbrev Expired : Timers → Outcome Timers → Type 0
  Expired s result =
      (s' : Timers) × (result ≡ returned s')
      × IsTimers s'
      × IsIdle precise_now s'
      × ((t : ℕ) → view s' t ≡ later precise_now (view s t))

  idle-Expired :
      (s : Timers)
      → IsTimers s
      → IsIdle precise_now s
      → (t : ℕ) → view s t ≡ later precise_now (view s t)
  unfolding timers_get_first
  idle-Expired s w idle t = elim (timers_get_first-view s w) [
    | inl (z, empty) ↦ rw (empty t) refl
    | inr (pos, _, least) ↦ elim (Option-cases (view s t)) [
      | inl e ↦ rw e refl
      | inr (time, e) ↦ rw e (ground (arith, least t time e, idle))
    ]
  ]

  -- The root, when it is due, has an entry that is not left.
  due_root :
      (s : Timers)
      → IsTimers s
      → 0 < s.et_heap_size
      → time_at s 1 ≤ precise_now
      → later precise_now (view s (s.et_heap 1)) ≡ none
  unfolding view
  due_root s w pos due = ground (arith, w.heap_idx 1 (omega arith) pos)

  counted-IsTimers : (s : Timers) (n : ℕ) → IsTimers s → IsTimers (record s { alarms = n })
  counted-IsTimers s n w = record {
    heap_idx = w.heap_idx;
    idx_heap = w.idx_heap;
    order = w.order;
    bound = w.bound;
    counted = w.counted;
  }

  counted-view : (s : Timers) (n t : ℕ) → view (record s { alarms = n }) t ≡ view s t
  unfolding view
  counted-view s n t = refl

  run_loop-Expired :
      (fuel : ℕ) (s : Timers)
      → IsQuiet wakeup
      → IsTimers s
      → s.et_heap_size < fuel
      → Expired s (loop fuel s)
  unfolding run_loop
  run_loop-Expired zero s q w f = absurd (omega arith)
  run_loop-Expired (suc fuel) s q w f =
      elim (Bool-cases (ltb 0 s.et_heap_size && leb (time_at s 1) precise_now)) [
        | inr n ↦
            let idle : IsIdle precise_now s = ground (arith, n) in
            rw n (s, refl, w, idle, idle-Expired s w idle)
        | inl y ↦
            let et = s.et_heap 1 in
            let pos : 0 < s.et_heap_size = ground (arith, y) in
            let first : s.h_idx et ≡ 1 = w.heap_idx 1 (omega arith) pos in
            let (s1, p, w1, seen, size) = remove-view s et w in
            let s2 = wakeup et s1 in
            let s3 : Timers = record s2 { alarms = s2.alarms + 1 } in
            let w3 = counted-IsTimers s2 (s2.alarms + 1) (q.keeps et s1 w1) in
            let less : s3.et_heap_size < fuel = ground (arith, q.size et s1, size, first, f, pos) in
            let (s4, r, w4, idle, left) = run_loop-Expired fuel s3 q w3 less in
            let due = due_root s w pos (ground (arith, y)) in
            let seen3 : (t : ℕ) → view s3 t ≡ (if t == et then none else view s t) =
              λ t. counted-view s2 (s2.alarms + 1) t ∙ q.same et s1 t ∙ seen t in
            rw (y, first, p, r) (s4, refl, w4, idle, λ t. ground (arith, left t, seen3 t, due))
      ]

  -- The wait for the first timer.
  abbrev pub wait_of : Timers → ℕ
  wait_of s =
      if s.et_heap_size == 0 then 100000 else milliseconds (timers_get_first s - precise_now) + 1

  next_wait-idle :
      (s : Timers)
      → IsIdle precise_now s
      → next_wait wakeup milliseconds precise_now s ≡ some (wait_of s)
  unfolding next_wait timers_get_first
  next_wait-idle s (inl z) = ground (arith, z)
  next_wait-idle s (inr (pos, l)) = ground (arith, pos, l)

  next_wait-none :
      (s : Timers) → (next_wait wakeup milliseconds precise_now s ≡ none) ⊎ IsIdle precise_now s
  unfolding next_wait
  next_wait-none s = elim (Bool-cases (s.et_heap_size == 0)) [
    | inl z ↦ inr (inl (ground (arith, z)))
    | inr n ↦ elim (Bool-cases (ltb precise_now (time_at s 1))) [
      | inl l ↦ inr (inr (ground (arith, n), ground (arith, l)))
      | inr g ↦ inl (rw (n, g) refl)
    ]
  ]

  last_wait-idle :
      (s : Timers)
      → IsIdle precise_now s
      → last_wait wakeup milliseconds precise_now s ≡ returned (s, wait_of s)
  unfolding last_wait
  last_wait-idle s idle = rw (next_wait-idle s idle, last_wait) refl

  run_ends :
      (fuel : ℕ) (s s' : Timers)
      → next_wait wakeup milliseconds precise_now s ≡ none
      → loop fuel s ≡ returned s'
      → IsIdle precise_now s'
      → thread_run_timers wakeup milliseconds precise_now fuel s ≡ returned (s', wait_of s')
  unfolding thread_run_timers
  run_ends fuel s s' n r idle = rw (n, thread_run_timers, r) (last_wait-idle s' idle)

  -- With callbacks that leave the timers as they are, a call of `thread_run_timers` returns after
  -- at most as many rounds as there are timers, and no assertion fails. The heap is whole, exactly
  -- the timers that were due are gone from the view, and what is returned is the wait for the first
  -- timer that is left, or 100000 without one.
  pub thread_run_timers-view :
      (fuel : ℕ) (s : Timers)
      → IsQuiet wakeup
      → IsTimers s
      → s.et_heap_size < fuel
      → (s' : Timers) × (wait : ℕ) × (thread_run_timers wakeup milliseconds precise_now fuel s
          ≡ returned (s', wait))
        × IsTimers s'
        × ((t : ℕ) → view s' t ≡ later precise_now (view s t))
        × (wait ≡ wait_of s')
  unfolding thread_run_timers
  thread_run_timers-view fuel s q w f = elim (next_wait-none s) [
    | inr idle ↦
        rw (next_wait-idle s idle, thread_run_timers)
          (s, wait_of s, refl, w, idle-Expired s w idle, refl)
    | inl n ↦
        let (s', r, w', idle, left) = run_loop-Expired fuel s q w f in
        (s', wait_of s', run_ends fuel s s' n r idle, w', left, refl)
  ]
