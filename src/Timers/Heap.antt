-- ===== src/Timers/Heap.antt =====
-- src/net/net-timers.c: the heap against its abstract view, the map from active timers to times.
use teleproxy.Base.{
  ℕ, zero, suc, ◌+◌, ◌-◌, ◌/◌, ◌≤◌, ◌<◌, true, ◌&&◌, arith, ltb, leb, ◌==◌, if◌then◌else◌, ◌≡◌,
  refl, ◌≢◌, Bool-cases, inl, inr, Option, none, some, ◌⊎◌,
}
use teleproxy.Timers.{
  Timers, returned, time_at, update, max_event_timers, insert_event_timer, remove_event_timer,
  timers_get_first,
}
use teleproxy.Timers.Wf.{IsTimers, IsHole}
use teleproxy.Timers.Adjust.{basic_et_adjust-Placed}

-- What a client sees: the time of a timer that is active.
unfoldable pub view : Timers → ℕ → Option ℕ
view s t = if s.h_idx t == 0 then none else some (s.wakeup_time t)

-- A timer's time is changed by its owner, before the call.
abbrev pub set_time : Timers → ℕ → ℕ → Timers
set_time s et time = record s { wakeup_time = update s.wakeup_time et time }

-- The timer is in the heap and its time has changed.
retimed-IsHole :
    (s : Timers) (et time ops : ℕ)
    → IsTimers s
    → s.h_idx et ≢ 0
    → IsHole (record (set_time s et time) { insert_ops = ops }) et (s.h_idx et)
retimed-IsHole s et time ops w n =
    let i = s.h_idx et in
    let (l, e) = w.idx_heap et n in
    record {
      positive = omega arith;
      inside = l;
      heap_idx = λ k p q m. ground (arith, w.heap_idx k p q, e);
      idx_heap = λ t m o. ground (arith, w.idx_heap t o, e);
      order = λ c p q m o. ground (arith, w.order c p q, w.heap_idx c, w.heap_idx (c / 2), e);
      bridge =
          λ c p q m. ground (arith, w.order c, w.order i, w.heap_idx c, w.heap_idx (i / 2), l, e);
      bound = w.bound;
      counted = w.counted;
    }

-- The timer is new, and the hole is behind the last entry.
fresh-IsHole :
    (s : Timers) (et time ops : ℕ)
    → IsTimers s
    → s.h_idx et ≡ 0
    → s.et_heap_size + 1 < max_event_timers
    → IsHole
        (record (set_time s et time) {
          insert_ops = ops;
          total_timers = s.total_timers + 1;
          et_heap_size = s.et_heap_size + 1;
        })
        et
        (s.et_heap_size + 1)
fresh-IsHole s et time ops w n room = record {
  positive = omega arith;
  inside = omega arith;
  heap_idx = λ k p q m. ground (arith, w.heap_idx k p, n);
  idx_heap = λ t m o. ground (arith, w.idx_heap t o);
  order = λ c p q m o. ground (arith, w.order c p, w.heap_idx c, w.heap_idx (c / 2), n);
  bridge = λ c p q m. absurd (omega arith);
  bound = omega arith;
  counted = ground (arith, w.counted);
}

-- A call that sets a timer's time and inserts it, whether it was active or not, returns the
-- timer's index in a heap that is whole and inside its array, unless the timer is new and the array
-- has no element left for it. The view has the timer with its time, and else is what it was.
pub insert-view :
    (s : Timers) (et time : ℕ)
    → IsTimers s
    → (s.h_idx et ≢ 0) ⊎ (s.et_heap_size + 1 < max_event_timers)
    → (s' : Timers) × (insert_event_timer (set_time s et time) et ≡ returned (s', s'.h_idx et))
      × IsTimers s'
      × ((t : ℕ) → view s' t ≡ (if t == et then some time else view s t))
unfolding insert_event_timer view
insert-view s et time w room = elim (Bool-cases (s.h_idx et == 0)) [
  | inl z ↦
      let m : s.h_idx et ≡ 0 = ground (arith, z) in
      let free : s.et_heap_size + 1 < max_event_timers = ground (arith, room, m) in
      let there : ltb s.et_heap_size max_event_timers ≡ true = ground (arith, free) in
      let fits : ltb (s.et_heap_size + 1) max_event_timers ≡ true = ground (arith, free) in
      let (s', i', p, w', same, idx, pos) =
        basic_et_adjust-Placed _ et (s.et_heap_size + 1)
          (fresh-IsHole s et time (s.insert_ops + 1) w m free) in
      (
        s',
        rw (z, there, fits, p, idx) refl,
        w',
        λ t. ground (arith, same.active t, same.times t, idx, pos),
      )
  | inr n ↦
      let ops = s.insert_ops + 1 in
      let m : s.h_idx et ≢ 0 = ground (arith, n) in
      let (l, e) = w.idx_heap et m in
      let there : (leb (s.h_idx et) s.et_heap_size && s.et_heap (s.h_idx et) == et) ≡ true =
        ground (arith, l, e) in
      let (s', i', p, w', same, idx, pos) =
        basic_et_adjust-Placed (record (set_time s et time) { insert_ops = ops }) et (s.h_idx et)
          (retimed-IsHole s et time ops w m) in
      (
        s',
        rw (n, there, p, idx) refl,
        w',
        λ t. ground (arith, same.active t, same.times t, idx, pos),
      )
]

-- The heap without the timer `et`, whose index is the last one.
last-IsTimers :
    (s : Timers) (et ops : ℕ)
    → IsTimers s
    → s.h_idx et ≢ 0
    → s.h_idx et ≡ s.et_heap_size
    → IsTimers (record s {
      total_timers = s.total_timers - 1;
      remove_ops = ops;
      h_idx = update s.h_idx et 0;
      et_heap_size = s.et_heap_size - 1;
    })
last-IsTimers s et ops w n e = record {
  heap_idx = λ k p q. ground (arith, w.heap_idx k p);
  idx_heap = λ t m. ground (arith, w.idx_heap t, w.idx_heap et n);
  order = λ c p q. w.order c p (omega arith);
  bound = omega (arith, w.bound);
  counted = omega (arith, w.counted);
}

-- The heap without the timer `et`, whose place the last one is to fill.
removed-IsHole :
    (s : Timers) (et ops : ℕ)
    → IsTimers s
    → s.h_idx et ≢ 0
    → s.h_idx et < s.et_heap_size
    → IsHole
        (record s {
          total_timers = s.total_timers - 1;
          remove_ops = ops;
          h_idx = update s.h_idx et 0;
          et_heap_size = s.et_heap_size - 1;
        })
        (s.et_heap s.et_heap_size)
        (s.h_idx et)
removed-IsHole s et ops w n l =
    let (x, e) = w.idx_heap et n in
    let last = w.heap_idx s.et_heap_size (omega arith) (omega arith) in
    let i = s.h_idx et in
    record {
      positive = omega arith;
      inside = omega arith;
      heap_idx = λ k p q m. ground (arith, w.heap_idx k p, last);
      idx_heap = λ t m o. ground (arith, w.idx_heap t, e);
      order = λ c p q m o. w.order c p (omega arith);
      bridge = λ c p q m. ground (arith, w.order c, w.order i);
      bound = omega (arith, w.bound);
      counted = omega (arith, w.counted);
    }

-- A call that removes a timer returns 1 if it was active and else 0. The heap is whole, the view
-- has lost the timer and nothing else, and the heap is one entry shorter if the timer was active.
pub remove-view :
    (s : Timers) (et : ℕ)
    → IsTimers s
    → (s' : Timers) × (remove_event_timer s et ≡ returned (s', if s.h_idx et == 0 then 0 else 1))
      × IsTimers s'
      × ((t : ℕ) → view s' t ≡ (if t == et then none else view s t))
      × (s'.et_heap_size ≡ (if s.h_idx et == 0 then s.et_heap_size else s.et_heap_size - 1))
unfolding remove_event_timer view
remove-view s et w = elim (Bool-cases (s.h_idx et == 0)) [
  | inl z ↦ rw z (s, refl, w, λ t. ground (arith, z), refl)
  | inr n ↦
      let m : s.h_idx et ≢ 0 = ground (arith, n) in
      let (l, e) = w.idx_heap et m in
      let there : (leb (s.h_idx et) s.et_heap_size && s.et_heap (s.h_idx et) == et) ≡ true =
        ground (arith, l, e) in
      elim (Bool-cases (ltb (s.et_heap_size - 1) (s.h_idx et))) [
        | inl y ↦
            rw (n, there, y)
              (
                _,
                refl,
                last-IsTimers s et (s.remove_ops + 1) w m (ground (arith, y, l)),
                λ t. ground arith,
                refl,
              )
        | inr y ↦
            let less : s.h_idx et < s.et_heap_size = ground (arith, y, l, m) in
            let (s', i', p, w', same, idx, pos) =
              basic_et_adjust-Placed _ (s.et_heap s.et_heap_size) (s.h_idx et)
                (removed-IsHole s et (s.remove_ops + 1) w m less) in
            let last = w.heap_idx s.et_heap_size (omega arith) (omega arith) in
            rw (n, there, y, p)
              (
                s',
                refl,
                w',
                λ t. ground (arith, same.active t, same.times t, idx, pos, last),
                same.size,
              )
      ]
]

root_first_below :
    (fuel : ℕ) (s : Timers) (k : ℕ)
    → IsTimers s
    → k < fuel
    → 0 < k
    → k ≤ s.et_heap_size
    → time_at s 1 ≤ time_at s k
root_first_below zero s k w f p q = absurd (omega arith)
root_first_below (suc fuel) s k w f p q =
    ground (arith, w.order k, root_first_below fuel s (k / 2) w)

-- The root is the first timer that is due, and the answer of `timers_get_first`: it is in the view,
-- and no timer of the view is before it.
pub timers_get_first-view :
    (s : Timers)
    → IsTimers s
    → ((s.et_heap_size ≡ 0) × ((t : ℕ) → view s t ≡ none))
      ⊎ ((0 < s.et_heap_size)
          × (view s (s.et_heap 1) ≡ some (timers_get_first s))
          × ((t time : ℕ) → view s t ≡ some time → timers_get_first s ≤ time))
unfolding view timers_get_first
timers_get_first-view s w = elim (Bool-cases (s.et_heap_size == 0)) [
  | inl z ↦ inl (ground (arith, z), λ t. ground (arith, w.idx_heap t, z))
  | inr n ↦
      let pos : 0 < s.et_heap_size = ground (arith, n) in
      inr (
        pos,
        rw n (ground (arith, w.heap_idx 1 (omega arith) pos)),
        λ t time e. rw n (
            ground (
              arith,
              e,
              w.idx_heap t,
              root_first_below (s.h_idx t + 1) s (s.h_idx t) w (omega arith),
            )),
      )
]
