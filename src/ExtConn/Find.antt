-- ===== src/ExtConn/Find.antt =====
-- src/mtproto/mtproto-proxy.c: `find_ext_connection_by_out_conn_id`.
use teleproxy.Base.{
  ℕ, not, ◌||◌, arith, ◌==◌, ◌≡◌, ◌≢◌, refl, sym, ap, ◌∙◌, Bool-cases, inl, inr, ◌⊎◌,
}
use teleproxy.Timers.{returned}
use teleproxy.ExtConn.{Table, slot_of, find_ext_connection_by_out_conn_id}
use teleproxy.ExtConn.Wf.{IsLive, SlotsAgree}

pub IsLive-ne_zero : (t : Table) → SlotsAgree t → (k : ℕ) → IsLive t k → k ≢ 0
IsLive-ne_zero t w k l e = l (rw e w.null)

-- A live block is found under its number.
pub find-IsLive :
    (t : Table)
    → SlotsAgree t
    → (k : ℕ) → IsLive t k
    → find_ext_connection_by_out_conn_id (t.ext k).out_conn_id t ≡ returned k
unfolding find_ext_connection_by_out_conn_id
find-IsLive t w k l =
    let r = w.slot_ref k l in
    let s = w.slot_same k l in let z = IsLive-ne_zero t w k l in rw (r, s) (ground (arith, z))

-- Nothing is found under the number of no live block.
pub find-absent :
    (t : Table)
    → SlotsAgree t
    → (id : ℕ) → ((k : ℕ) → IsLive t k → (t.ext k).out_conn_id ≢ id)
    → find_ext_connection_by_out_conn_id id t ≡ returned 0
unfolding find_ext_connection_by_out_conn_id
find-absent t w id none_has =
    elim (Bool-cases (t.ref (slot_of id) == 0 || not (t.slot_id (slot_of id) == id))) [
      | inl s ↦ rw s refl
      | inr n ↦
          let z : t.ref (slot_of id) ≢ 0 = ground (arith, n) in
          let l = w.ref_live (slot_of id) z in
          let p = w.ref_slot (slot_of id) z in
          let q = w.slot_same (t.ref (slot_of id)) l in
          let o : t.slot_id (slot_of id) ≡ id = ground (arith, n) in
          absurd (none_has _ l (sym q ∙ ap t.slot_id p ∙ o))
    ]

-- What is found is a live block of that number, or no live block has it.
pub find-cases :
    (t : Table)
    → SlotsAgree t
    → (id : ℕ)
    → ((k : ℕ) × IsLive t k × ((t.ext k).out_conn_id ≡ id))
      ⊎ ((k : ℕ) → IsLive t k → (t.ext k).out_conn_id ≢ id)
find-cases t w id =
    elim (Bool-cases (t.ref (slot_of id) == 0 || not (t.slot_id (slot_of id) == id))) [
      | inl s ↦ inr (λ k l e.
          let r = ap t.ref (ap slot_of (sym e)) ∙ w.slot_ref k l in
          let q = ap t.slot_id (ap slot_of (sym e)) ∙ w.slot_same k l in
          let z = IsLive-ne_zero t w k l in ground (arith, s, r, q, z, e))
      | inr n ↦
          let z : t.ref (slot_of id) ≢ 0 = ground (arith, n) in
          let l = w.ref_live (slot_of id) z in
          let p = w.ref_slot (slot_of id) z in
          let q = w.slot_same (t.ref (slot_of id)) l in
          let o : t.slot_id (slot_of id) ≡ id = ground (arith, n) in
          inl (t.ref (slot_of id), l, sym q ∙ ap t.slot_id p ∙ o)
    ]

-- One number leads to one block.
pub number-one :
    (t : Table)
    → SlotsAgree t
    → (j k : ℕ) → IsLive t j
    → IsLive t k
    → (t.ext j).out_conn_id ≡ (t.ext k).out_conn_id
    → j ≡ k
number-one t w j k l m e = sym (w.slot_ref j l) ∙ (ap (λ id. t.ref (slot_of id)) e ∙ w.slot_ref k m)
