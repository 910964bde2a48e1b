-- ===== src/ExtConn/Calls/Search.antt =====
-- src/mtproto/mtproto-proxy.c: the search for a free slot, and its next number.
use teleproxy.Base.{
  ℕ, zero, suc, ◌+◌, ◌*◌, ◌^◌, ◌≤◌, ◌<◌, arith, ◌==◌, ◌≡◌, ◌≢◌, refl, ap, ◌∙◌, Bool-cases, inl, inr,
}
use teleproxy.Timers.{returned}
use teleproxy.ExtConn.{slot_of, ext_conn_table_size, next_id, free_slot}

-- The slot of the `n`th try.
unfoldable pub tried : (ℕ → ℕ) → ℕ → ℕ → ℕ → ℕ
tried lrand48 h draws zero = h
tried lrand48 h draws (suc n) = slot_of (lrand48 (draws + n))

tried-suc :
    (lrand48 : ℕ → ℕ) (h draws n : ℕ)
    → tried lrand48 (slot_of (lrand48 draws)) (draws + 1) n ≡ tried lrand48 h draws (suc n)
unfolding tried
tried-suc lrand48 h draws zero = ap (λ d. slot_of (lrand48 d)) (omega arith)
tried-suc lrand48 h draws (suc n) = ap (λ d. slot_of (lrand48 d)) (omega arith)

-- The search ends with a free slot when one is tried before the fuel is out.
pub free_slot-returned :
    (lrand48 : ℕ → ℕ) (refs : ℕ → ℕ) (fuel n h draws : ℕ)
    → n < fuel
    → h < ext_conn_table_size
    → refs (tried lrand48 h draws n) ≡ 0
    → (r : ℕ × ℕ) × (free_slot lrand48 fuel refs h draws ≡ returned r)
      × (refs r.0 ≡ 0)
      × (r.0 < ext_conn_table_size)
unfolding free_slot tried
free_slot-returned lrand48 refs zero n h draws l b e = absurd (ground (arith, l))
free_slot-returned lrand48 refs (suc fuel) zero h draws l b e = ((h, draws), rw e refl, e, b)
free_slot-returned lrand48 refs (suc fuel) (suc n) h draws l b e = elim (Bool-cases (refs h == 0)) [
  | inl s ↦ ((h, draws), rw s refl, ground (arith, s), b)
  | inr s ↦
      let r =
        free_slot-returned lrand48 refs fuel n (slot_of (lrand48 draws)) (draws + 1)
          (ground (arith, l)) (omega arith) (ap refs (tried-suc lrand48 h draws n) ∙ e) in
      (r.0, rw s r.1, r.2, r.3)
]

pub slot-next_id : (old s : ℕ) → s < ext_conn_table_size → slot_of (next_id old s) ≡ s
unfolding next_id
slot-next_id old s l = omega arith

pub next_id-ne_zero :
    (old s : ℕ)
    → s < ext_conn_table_size
    → old + 2 * ext_conn_table_size ≤ 2 ^ 64
    → next_id old s ≢ 0
unfolding next_id
next_id-ne_zero old s b w = omega arith

-- The numbers of a slot grow.
pub next_id-gt :
    (old s : ℕ)
    → s < ext_conn_table_size
    → old + 2 * ext_conn_table_size ≤ 2 ^ 64
    → old < next_id old s
unfolding next_id
next_id-gt old s b w = omega arith
