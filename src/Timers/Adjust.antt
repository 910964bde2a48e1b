-- ===== src/Timers/Adjust.antt =====
-- src/net/net-timers.c: basic_et_adjust puts a timer into its place.
use teleproxy.Base.{
  ℕ, zero, suc, ◌+◌, ◌-◌, ◌*◌, ◌/◌, ◌≤◌, ◌<◌, arith, ltb, leb, ◌≡◌, refl, Bool-cases, inl, inr,
}
use teleproxy.Timers.{
  Timers, Outcome, returned, place, time_at, up_loop, smaller_child, down_loop, basic_et_adjust,
}
use teleproxy.Timers.Wf.{
  IsTimers, IsHole, Same, IsFirstChild, place-Same, place-up, place-down, place-IsTimers,
}

-- The parent is due no later than the timer.
abbrev IsAbove : Timers → ℕ → ℕ → Type 0
IsAbove s et i = 2 ≤ i → time_at s (i / 2) ≤ s.wakeup_time et

-- A loop's outcome: the hole is elsewhere, and the timer may go below its parent.
abbrev Lifted : Timers → ℕ → Outcome (Timers × ℕ) → Type 0
Lifted s et result =
    (s' : Timers) × (i' : ℕ) × (result ≡ returned (s', i'))
    × IsHole s' et i'
    × Same et s s'
    × IsAbove s' et i'

Same-refl : (s : Timers) (et : ℕ) → Same et s s
Same-refl s et = record { size = refl; times = λ t. refl; active = λ t n. (λ e. e, λ e. e) }

Same-trans : {s s' s'' : Timers} {et : ℕ} → Same et s s' → Same et s' s'' → Same et s s''
Same-trans a b = record {
  size = ground (arith, a.size, b.size);
  times = λ t. ground (arith, a.times t, b.times t);
  active = λ t n. ground (arith, a.active t n, b.active t n);
}

up_loop-Lifted :
    (fuel : ℕ) (s : Timers) (et i : ℕ)
    → i ≤ fuel
    → IsHole s et i
    → Lifted s et (up_loop fuel s et i)
unfolding up_loop
up_loop-Lifted zero s et i f h = let pos = h.positive in absurd (omega arith)
up_loop-Lifted (suc fuel) s et i f h = elim (Bool-cases (ltb 1 i)) [
  | inr n ↦ rw n (s, i, refl, h, Same-refl s et, λ two. absurd (ground (arith, n)))
  | inl t ↦ elim (Bool-cases (leb (time_at s (i / 2)) (s.wakeup_time et))) [
    | inl e ↦ rw (t, e) (s, i, refl, h, Same-refl s et, λ two. ground (arith, e))
    | inr e ↦
        let j = i / 2 in
        let two : 2 ≤ i = ground (arith, t) in
        let (s', i', p, h', same, above) =
          up_loop-Lifted fuel (place s i (s.et_heap j)) et j (omega arith)
            (place-up s et i h two) in
        let moved = place-Same s et i j h (omega arith) (omega (arith, h.inside)) (omega arith) in
        rw (t, e) (s', i', p, h', Same-trans moved same, above)
  ]
]

smaller_child-IsFirstChild :
    (s : Timers) (i : ℕ)
    → 0 < i
    → 2 * i ≤ s.et_heap_size
    → IsFirstChild s i (smaller_child s (2 * i))
unfolding smaller_child
smaller_child-IsFirstChild s i pos h = record {
  inside = ground arith;
  child = ground arith;
  first = λ c p e. grind arith;
}

-- The children are due no earlier than the timer.
abbrev IsBelow : Timers → ℕ → ℕ → Type 0
IsBelow s et i = (c : ℕ) → c ≤ s.et_heap_size → c / 2 ≡ i → s.wakeup_time et ≤ time_at s c

abbrev Settled : Timers → ℕ → Outcome (Timers × ℕ) → Type 0
Settled s et result =
    (s' : Timers) × (i' : ℕ) × (result ≡ returned (s', i'))
    × IsHole s' et i'
    × Same et s s'
    × IsAbove s' et i'
    × IsBelow s' et i'

down_loop-Settled :
    (fuel : ℕ) (s : Timers) (et i : ℕ)
    → s.et_heap_size - i < fuel
    → IsHole s et i
    → IsAbove s et i
    → Settled s et (down_loop fuel s et i)
unfolding down_loop
down_loop-Settled zero s et i f h above = absurd (omega arith)
down_loop-Settled (suc fuel) s et i f h above = elim (Bool-cases (leb (2 * i) s.et_heap_size)) [
  | inr n ↦ rw n (s, i, refl, h, Same-refl s et, above, λ c p e. absurd (ground (arith, n, p, e)))
  | inl t ↦
      let pos = h.positive in
      let m = smaller_child s (2 * i) in
      let first = smaller_child-IsFirstChild s i pos (ground (arith, t)) in
      elim (Bool-cases (leb (s.wakeup_time et) (time_at s m))) [
        | inl e ↦
            rw (t, e)
              (s, i, refl, h, Same-refl s et, above, λ c p q. ground (arith, e, first.first c p q))
        | inr e ↦
            let q : m / 2 ≡ i = first.child in
            let moved = place-Same s et i m h (omega arith) first.inside (omega arith) in
            let above' : IsAbove (place s i (s.et_heap m)) et m = λ two. ground (arith, q, e) in
            let (s', i', p, h', same, a, b) =
              down_loop-Settled fuel (place s i (s.et_heap m)) et m (omega (arith, first.inside))
                (place-down s et i m h first) above' in
            rw (t, e) (s', i', p, h', Same-trans moved same, a, b)
      ]
]

-- A timer with a hole in the heap gets its place: the heap is whole again, and the index that is
-- returned is the timer's.
abbrev pub Placed : Timers → ℕ → Outcome (Timers × ℕ) → Type 0
Placed s et result =
    (s' : Timers) × (i' : ℕ) × (result ≡ returned (s', i'))
    × IsTimers s'
    × Same et s s'
    × (s'.h_idx et ≡ i')
    × (0 < i')

pub basic_et_adjust-Placed :
    (s : Timers) (et i : ℕ) → IsHole s et i → Placed s et (basic_et_adjust s et i)
unfolding basic_et_adjust
basic_et_adjust-Placed s et i h =
    let (s1, i1, p, h1, same1, above1) = up_loop-Lifted i s et i (omega arith) h in
    let (s2, i2, q, h2, same2, above2, below2) =
      down_loop-Settled (s1.et_heap_size + 1) s1 et i1 (omega arith) h1 above1 in
    let kept : Same et s2 (place s2 i2 et) = record {
      size = refl;
      times = λ t. refl;
      active = λ t n. ground (arith, n);
    } in
    rw (p, q)
      (
        place s2 i2 et,
        i2,
        refl,
        place-IsTimers s2 et i2 h2 above2 below2,
        Same-trans same1 (Same-trans same2 kept),
        ground arith,
        h2.positive,
      )
