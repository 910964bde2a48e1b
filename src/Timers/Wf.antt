-- ===== src/Timers/Wf.antt =====
-- src/net/net-timers.c: what holds of the heap between two calls, and while a timer is on its way
-- to its place.
use teleproxy.Base.{ℕ, ◌/◌, ◌≤◌, ◌<◌, arith, ◌≡◌, refl, ◌≢◌, ◌↔◌}
use teleproxy.Timers.{Timers, max_event_timers, place, time_at}

-- The heap's pointers and the timers' indices agree, a timer is never before its parent, the heap is
-- inside its array, which it fills from index 1 on, and the statistics count the heap's entries.
pub record IsTimers (s : Timers) : Type 0 where
  pub heap_idx : (k : ℕ) → 0 < k → k ≤ s.et_heap_size → s.h_idx (s.et_heap k) ≡ k
  pub idx_heap :
      (t : ℕ) → s.h_idx t ≢ 0 → (s.h_idx t ≤ s.et_heap_size) × (s.et_heap (s.h_idx t) ≡ t)
  pub order : (c : ℕ) → 2 ≤ c → c ≤ s.et_heap_size → time_at s (c / 2) ≤ time_at s c
  pub bound : s.et_heap_size < max_event_timers
  pub counted : s.total_timers ≡ s.et_heap_size

-- The same with a hole at `i`, which waits for the timer `et`.
pub record IsHole (s : Timers) (et i : ℕ) : Type 0 where
  pub positive : 0 < i
  pub inside : i ≤ s.et_heap_size
  pub heap_idx :
      (k : ℕ)
      → 0 < k
      → k ≤ s.et_heap_size
      → k ≢ i
      → (s.h_idx (s.et_heap k) ≡ k) × (s.et_heap k ≢ et)
  pub idx_heap :
      (t : ℕ)
      → t ≢ et
      → s.h_idx t ≢ 0
      → (s.h_idx t ≤ s.et_heap_size) × ((s.h_idx t ≢ i) × (s.et_heap (s.h_idx t) ≡ t))
  pub order :
      (c : ℕ) → 2 ≤ c → c ≤ s.et_heap_size → c ≢ i → c / 2 ≢ i → time_at s (c / 2) ≤ time_at s c
  pub bridge : (c : ℕ) → 2 ≤ i → c ≤ s.et_heap_size → c / 2 ≡ i → time_at s (i / 2) ≤ time_at s c
  pub bound : s.et_heap_size < max_event_timers
  pub counted : s.total_timers ≡ s.et_heap_size

-- The timers but `et` are the same and as active as before.
pub record Same (et : ℕ) (s s' : Timers) : Type 0 where
  pub size : s'.et_heap_size ≡ s.et_heap_size
  pub times : (t : ℕ) → s'.wakeup_time t ≡ s.wakeup_time t
  pub active : (t : ℕ) → t ≢ et → (s'.h_idx t ≡ 0) ↔ (s.h_idx t ≡ 0)

-- The entry next to the hole moves into it.
pub place-Same :
    (s : Timers) (et i j : ℕ)
    → IsHole s et i
    → 0 < j
    → j ≤ s.et_heap_size
    → j ≢ i
    → Same et s (place s i (s.et_heap j))
place-Same s et i j h pos inside other = record {
  size = refl;
  times = λ t. refl;
  active = λ t n. ground (arith, h.heap_idx j pos inside other, h.positive);
}

pub place-up :
    (s : Timers) (et i : ℕ)
    → IsHole s et i
    → 2 ≤ i
    → IsHole (place s i (s.et_heap (i / 2))) et (i / 2)
place-up s et i h two =
    let j = i / 2 in
    let (a, b) = h.heap_idx j (omega arith) (omega (arith, h.inside)) (omega arith) in
    record {
      positive = omega arith;
      inside = omega (arith, h.inside);
      heap_idx = λ k p q n. ground (arith, h.heap_idx k p q, a, b);
      idx_heap = λ t n m. ground (arith, h.idx_heap t n, a, b, h.positive, h.inside);
      order = λ c p q n m. ground (arith, h.bridge c two q, h.order c p q);
      bridge = λ c p q e. ground (arith, h.order j, h.order c);
      bound = h.bound;
      counted = h.counted;
    }

-- The child `m` of `i` that is due first.
pub record IsFirstChild (s : Timers) (i m : ℕ) : Type 0 where
  pub inside : m ≤ s.et_heap_size
  pub child : m / 2 ≡ i
  pub first : (c : ℕ) → c ≤ s.et_heap_size → c / 2 ≡ i → time_at s m ≤ time_at s c

pub place-down :
    (s : Timers) (et i m : ℕ)
    → IsHole s et i
    → IsFirstChild s i m
    → IsHole (place s i (s.et_heap m)) et m
place-down s et i m h f =
    let pos : 0 < i = h.positive in
    let e : m / 2 ≡ i = f.child in
    let (a, b) = h.heap_idx m (omega arith) f.inside (omega arith) in
    record {
      positive = omega arith;
      inside = f.inside;
      heap_idx = λ k p q n. ground (arith, h.heap_idx k p q, a, b);
      idx_heap = λ t n x. ground (arith, h.idx_heap t n, a, b, h.positive, h.inside);
      order = λ c p q n x. ground (arith, h.bridge m, f.inside, f.first c q, h.order c p q, e);
      bridge = λ c p q x. ground (arith, h.order c, e);
      bound = h.bound;
      counted = h.counted;
    }

-- The timer fits into the hole.
pub place-IsTimers :
    (s : Timers) (et i : ℕ)
    → IsHole s et i
    → (2 ≤ i → time_at s (i / 2) ≤ s.wakeup_time et)
    → ((c : ℕ) → c ≤ s.et_heap_size → c / 2 ≡ i → s.wakeup_time et ≤ time_at s c)
    → IsTimers (place s i et)
place-IsTimers s et i h above below =
    let pos = h.positive in
    record {
      heap_idx = λ k p q. ground (arith, h.heap_idx k p q);
      idx_heap = λ t n. ground (arith, h.idx_heap t, h.inside);
      order = λ c p q. ground (arith, above, below c q, h.order c p q, pos);
      bound = h.bound;
      counted = h.counted;
    }
