-- ===== src/ExtConn/Calls/Loops.antt =====
-- src/mtproto/mtproto-proxy.c: the loops that remove the connections of a server or of a client.
use teleproxy.Base.{
  ℕ, Bool, true, false, not, List, [], ◌∷◌, ◌++◌, arith, ◌==◌, ◌≡◌, ◌≢◌, refl, sym, ap, ◌∙◌,
  Bool-cases, inl, inr,
}
use teleproxy.Timers.{returned}
use teleproxy.ExtConn.{Table, Conn, mem}
use teleproxy.ExtConn.Lists.{is_false, mem-cons, distinct, cons-distinct, upd-other}
use teleproxy.ExtConn.Wf.{IsLive, ListsAgree, IsTable}
use teleproxy.ExtConn.Calls.{Notice, notices, close_out, close_in}
use teleproxy.ExtConn.Calls.Freed.{without, without-IsTable}
use teleproxy.ExtConn.Calls.Remove.{remove_ext_connection-returned}
use teleproxy.ExtConn.Calls.Pruned.{IsPruned, IsPruned-nil, IsPruned-cons, rest-IsLive}

-- What is sent for all connections of a list.
pub all_notices : (Conn → Bool) → ℕ → Table → List ℕ → List Notice
all_notices is_open send t [] = []
all_notices is_open send t (x ∷ xs) =
    notices is_open (t.ext x) send ++ all_notices is_open send t xs

all_notices-same :
    (is_open : Conn → Bool) (send : ℕ) (t u : Table) (xs : List ℕ)
    → ((k : ℕ) → mem k xs ≡ true → u.ext k ≡ t.ext k)
    → all_notices is_open send u xs ≡ all_notices is_open send t xs
unfolding all_notices
all_notices-same is_open send t u [] e = refl
all_notices-same is_open send t u (x ∷ xs) e =
    let here = e x (rw (mem-cons x x xs) (ground arith)) in
    let later =
      all_notices-same is_open send t u xs (λ k m. e k (rw (mem-cons k x xs, m) (ground arith))) in
    ap (λ c. notices is_open c send ++ all_notices is_open send u xs) here
    ∙ ap (λ l. notices is_open (t.ext x) send ++ l) later

without-same : (x k : ℕ) (t : Table) → k ≢ x → (without x t).ext k ≡ t.ext k
without-same x k t n = upd-other t.ext x _ n

module _ (lrand48 : ℕ → ℕ) (is_open : Conn → Bool) (fd : ℕ) where
  pub close_out-returned :
      (xs : List ℕ) (t : Table)
      → IsTable t
      → distinct xs ≡ true
      → ((k : ℕ) → mem k xs ≡ true → IsLive t k × ((t.ext k).out_fd ≡ fd))
      → (u : Table) × (close_out lrand48 is_open fd xs t ≡ returned (u, all_notices is_open 2 t xs))
        × IsPruned xs t u
  unfolding close_out all_notices
  close_out-returned [] t w d live = (t, refl, IsPruned-nil t w)
  close_out-returned (x ∷ xs) t w d live =
      let head = live x (rw (mem-cons x x xs) (ground arith)) in
      let own = head.1 in
      let checked : not ((t.ext x).out_fd == fd) ≡ false = ground (arith, own) in
      let rest = rest-IsLive x xs t d (λ k m. (live k m).0) in
      let r =
        close_out-returned xs (without x t) (without-IsTable x t w head.0) (cons-distinct x xs d).1
          (λ k m. (
            (rest k m).1,
            ap (λ c. c.out_fd) (without-same x k t (rest k m).0)
                ∙ (live k (rw (mem-cons k x xs, m) (ground arith))).1,
          )) in
      let same =
        all_notices-same is_open 2 t (without x t) xs (λ k m. without-same x k t (rest k m).0) in
      (
        r.0,
        rw (checked, remove_ext_connection-returned lrand48 is_open x 2 t w head.0, r.1)
            (ap (λ l. returned (r.0, notices is_open (t.ext x) 2 ++ l)) same),
        IsPruned-cons x xs t r.0 r.2,
      )

  pub close_in-returned :
      (xs : List ℕ) (t : Table)
      → IsTable t
      → distinct xs ≡ true
      → ((k : ℕ) → mem k xs ≡ true → IsLive t k × ((t.ext k).in_fd ≡ fd))
      → (u : Table) × (close_in lrand48 is_open fd xs t ≡ returned (u, all_notices is_open 1 t xs))
        × IsPruned xs t u
  unfolding close_in all_notices
  close_in-returned [] t w d live = (t, refl, IsPruned-nil t w)
  close_in-returned (x ∷ xs) t w d live =
      let head = live x (rw (mem-cons x x xs) (ground arith)) in
      let own = head.1 in
      let checked : not ((t.ext x).in_fd == fd) ≡ false = ground (arith, own) in
      let rest = rest-IsLive x xs t d (λ k m. (live k m).0) in
      let r =
        close_in-returned xs (without x t) (without-IsTable x t w head.0) (cons-distinct x xs d).1
          (λ k m. (
            (rest k m).1,
            ap (λ c. c.in_fd) (without-same x k t (rest k m).0)
                ∙ (live k (rw (mem-cons k x xs, m) (ground arith))).1,
          )) in
      let same =
        all_notices-same is_open 1 t (without x t) xs (λ k m. without-same x k t (rest k m).0) in
      (
        r.0,
        rw (checked, remove_ext_connection-returned lrand48 is_open x 1 t w head.0, r.1)
            (ap (λ l. returned (r.0, notices is_open (t.ext x) 1 ++ l)) same),
        IsPruned-cons x xs t r.0 r.2,
      )

-- The blocks of a server's list are those that are tied to the server, and likewise for a client.
pub out_list-picks :
    (fd : ℕ) (t : Table)
    → ListsAgree t
    → (k : ℕ) → IsLive t k
    → mem k (t.out_list fd) ≡ ((t.ext k).out_fd == fd)
out_list-picks fd t w k l = elim (Bool-cases ((t.ext k).out_fd == fd)) [
  | inl e ↦
      let q : (t.ext k).out_fd ≡ fd = ground (arith, e) in
      rw e (ap (λ i. mem k (t.out_list i)) (sym q) ∙ w.out_linked k l)
  | inr n ↦ rw n (is_false _ (λ m. let q = w.out_same fd k m in ground (arith, q, n)))
]

pub in_list-picks :
    (fd : ℕ) (t : Table)
    → ListsAgree t
    → (k : ℕ) → IsLive t k
    → mem k (t.in_list fd) ≡ ((t.ext k).in_fd == fd)
in_list-picks fd t w k l = elim (Bool-cases ((t.ext k).in_fd == fd)) [
  | inl e ↦
      let q : (t.ext k).in_fd ≡ fd = ground (arith, e) in
      rw e (ap (λ i. mem k (t.in_list i)) (sym q) ∙ w.in_linked k l)
  | inr n ↦ rw n (is_false _ (λ m. let q = w.in_same fd k m in ground (arith, q, n)))
]
