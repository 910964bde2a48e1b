-- ===== src/ExtConn/Calls/Pruned.antt =====
-- src/mtproto/mtproto-proxy.c: the table without the connections of a list.
use teleproxy.Base.{
  ℕ, Bool, true, false, List, [], ◌∷◌, arith, if◌then◌else◌, ◌≡◌, ◌≢◌, refl, sym, ap, subst, ◌∙◌,
  Bool-cases, inl, inr,
}
use teleproxy.Timers.{returned, ◌>>=◌}
use teleproxy.ExtConn.{
  Table, ExtConnection, mem, is_nil, cleared, ext_conn_hash, find_ext_connection_by_out_conn_id,
}
use teleproxy.ExtConn.Lists.{mem-cons, mem-nil, List-cases, distinct, cons-distinct, upd-other}
use teleproxy.ExtConn.Wf.{IsLive, IsTable}
use teleproxy.ExtConn.Find.{find-IsLive, find-absent, find-cases, number-one}
use teleproxy.ExtConn.Calls.Freed.{without, freed-IsLive, IsLive-freed}

-- `u` is `t` without the blocks of the list.
pub record IsPruned (xs : List ℕ) (t u : Table) : Type 0 where
  pub table : IsTable u
  pub left : (k : ℕ) → IsLive u k → (mem k xs ≡ false) × IsLive t k
  pub ids : (s : ℕ) → u.slot_id s ≡ t.slot_id s
  pub same : (k : ℕ) → mem k xs ≡ false → u.ext k ≡ t.ext k

pub IsPruned-nil : (t : Table) → IsTable t → IsPruned [] t t
IsPruned-nil t w = record {
  table = w;
  left = λ k l. (mem-nil k, l);
  ids = λ s. refl;
  same = λ k m. refl;
}

pub IsPruned-cons :
    (x : ℕ) (xs : List ℕ) (t u : Table) → IsPruned xs (without x t) u → IsPruned (x ∷ xs) t u
IsPruned-cons x xs t u p =
    let h = ext_conn_hash (t.ext x).in_fd 0 in
    record {
      table = p.table;
      left = λ k l.
          let q = p.left k l in
          let r = freed-IsLive h x t k q.1 in
          let m = q.0 in let n = r.0 in (rw (mem-cons k x xs, m) (ground (arith, n)), r.1);
      ids = p.ids;
      same = λ k m.
          let m' = rw (mem-cons k x xs) at m in
          p.same k (ground (arith, m')) ∙ upd-other t.ext x cleared (ground (arith, m'));
    }

-- What is left in the list is live, once its head is removed.
pub rest-IsLive :
    (x : ℕ) (xs : List ℕ) (t : Table)
    → distinct (x ∷ xs) ≡ true
    → ((k : ℕ) → mem k (x ∷ xs) ≡ true → IsLive t k)
    → (k : ℕ) → mem k xs ≡ true
    → ((k ≢ x) × IsLive (without x t) k)
rest-IsLive x xs t d live k m =
    let h = ext_conn_hash (t.ext x).in_fd 0 in
    let o = (cons-distinct x xs d).0 in
    let n : k ≢ x = λ e. let m' = ap (λ j. mem j xs) (sym e) ∙ m in ground (arith, m', o) in
    (n, IsLive-freed h x t k n (live k (rw (mem-cons k x xs, m) (ground arith))))

if-same : (b : Bool) (n : ℕ) → n ≡ (if b then n else n)
if-same true n = refl
if-same false n = refl

-- The search under a number, once the connections that `b` picks are gone.
pub find-pruned :
    (b : ExtConnection → Bool) (xs : List ℕ) (t u : Table) (id : ℕ)
    → IsTable t
    → IsPruned xs t u
    → ((k : ℕ) → IsLive t k → mem k xs ≡ b (t.ext k))
    → find_ext_connection_by_out_conn_id id u
      ≡ (find_ext_connection_by_out_conn_id id t >>= λ k. returned (if b (t.ext k) then 0 else k))
find-pruned b xs t u id w p picks =
    let absent_now : ((k : ℕ) → IsLive u k → (t.ext k).out_conn_id ≢ id)
        → find_ext_connection_by_out_conn_id id u ≡ returned 0 =
      λ n.
        find-absent u p.table.slots id
          (λ k l e. n k l (ap (λ c. c.out_conn_id) (sym (p.same k (p.left k l).0)) ∙ e)) in
    elim (find-cases t w.slots id) [
      | inr n ↦
          rw (find-absent t w.slots id n, absent_now (λ k l. n k (p.left k l).1))
            (ap returned (if-same (b (t.ext 0)) 0))
      | inl f ↦
          let old : find_ext_connection_by_out_conn_id id t ≡ returned f.0 =
            ap (λ i. find_ext_connection_by_out_conn_id i t) (sym f.2)
            ∙ find-IsLive t w.slots f.0 f.1 in
          elim (Bool-cases (b (t.ext f.0))) [
            | inl y ↦
                rw (old, y)
                  (absent_now (λ k l e.
                    let q = number-one t w.slots k f.0 (p.left k l).1 f.1 (e ∙ sym f.2) in
                    let m = sym (p.left k l).0 ∙ (ap (λ j. mem j xs) q ∙ (picks f.0 f.1 ∙ y)) in
                    ground (arith, m)))
            | inr n ↦
                let m = p.same f.0 (picks f.0 f.1 ∙ n) in
                rw (old, n)
                  (ap (λ i. find_ext_connection_by_out_conn_id i u)
                      (sym (ap (λ c. c.out_conn_id) m ∙ f.2))
                    ∙ find-IsLive u p.table.slots f.0 (subst (λ c. c.out_conn_id ≢ 0) (sym m) f.1))
          ]
    ]

-- A list whose blocks are those that `b` picks is empty once they are gone.
pub pruned-is_nil :
    (b : ExtConnection → Bool) (l xs : List ℕ) (t u : Table)
    → IsPruned xs t u
    → ((k : ℕ) → IsLive t k → mem k xs ≡ b (t.ext k))
    → ((k : ℕ) → mem k l ≡ true → IsLive u k × (b (u.ext k) ≡ true))
    → is_nil l ≡ true
pruned-is_nil b l xs t u p picks listed = elim (List-cases l) [
  | inl e ↦ rw e refl
  | inr c ↦
      let k = c.0 in
      let here : mem k l ≡ true = ap (mem k) c.2 ∙ rw (mem-cons k k c.1) (ground arith) in
      let o = listed k here in
      let q = p.left k o.0 in
      let m = sym q.0 ∙ (picks k q.1 ∙ (ap b (sym (p.same k q.0)) ∙ o.1)) in
      absurd (ground (arith, m))
]
