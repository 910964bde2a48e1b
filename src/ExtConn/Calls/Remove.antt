-- ===== src/ExtConn/Calls/Remove.antt =====
-- src/mtproto/mtproto-proxy.c: `remove_ext_connection`.
use teleproxy.Base.{
  ℕ, [], ◌∷◌, not, ◌&&◌, ◌⊎◌, List, ◌≤◌, Bool, true, false, ◌||◌, arith, ◌==◌, if◌then◌else◌, some,
  ◌≡◌, ◌≢◌, refl, sym, ap, subst, ◌∙◌, Bool-cases, Option-cases, inl, inr,
}
use teleproxy.Timers.{returned}
use teleproxy.ExtConn.{
  Table, ExtConnection, Conn, deleted, cleared, ext_conn_hash, find_in_chain, delete_found,
  get_ext_connection_by_in_conn_id, find_ext_connection_by_out_conn_id,
}
use teleproxy.ExtConn.Lists.{upd-other, find_in_chain-some, find_in_chain-none}
use teleproxy.ExtConn.Wf.{IsLive, SlotsAgree, ChainsAgree, IsTable, Grows}
use teleproxy.ExtConn.Find.{IsLive-ne_zero, find-IsLive, find-absent, find-cases, number-one}
use teleproxy.ExtConn.Calls.{Notice, fail_client, notices, may_remove, remove_ext_connection}
use teleproxy.ExtConn.Calls.Freed.{
  without, without-IsTable, freed-IsLive, IsLive-freed, freed-SlotsAgree,
}

-- The search along the client's chain finds the block.
chain-IsLive :
    (k : ℕ) (t : Table)
    → ChainsAgree t
    → IsLive t k
    → find_in_chain t (t.ext k).in_fd 0 (t.hash_chain (ext_conn_hash (t.ext k).in_fd 0)) ≡ some k
chain-IsLive k t w l =
    let chain = t.hash_chain (ext_conn_hash (t.ext k).in_fd 0) in
    elim (Option-cases (find_in_chain t (t.ext k).in_fd 0 chain)) [
      | inl n ↦
          let q = find_in_chain-none t (t.ext k).in_fd 0 chain k n (w.chained k l) in
          let p = w.plain k l in absurd (ground (arith, q, p))
      | inr s ↦
          let q = find_in_chain-some t (t.ext k).in_fd 0 chain s.1 in
          s.1 ∙ ap some (w.unique _ k (w.chain_live _ _ q.0) l q.1)
    ]

-- The search under a number, once a connection is gone.
absent-without :
    (k : ℕ) (t : Table) (id : ℕ)
    → SlotsAgree t
    → IsLive t k
    → ((j : ℕ) → IsLive t j → (t.ext j).out_conn_id ≡ id → j ≡ k)
    → find_ext_connection_by_out_conn_id id (without k t) ≡ returned 0
absent-without k t id w l only =
    let h = ext_conn_hash (t.ext k).in_fd 0 in
    find-absent (without k t) (freed-SlotsAgree h k t w l) id (λ j m e.
      let o = freed-IsLive h k t j m in o.0 (only j o.1 (rw (upd-other t.ext k cleared o.0) at e)))

pub find-without :
    (k : ℕ) (t : Table) (id : ℕ)
    → IsTable t
    → IsLive t k
    → find_ext_connection_by_out_conn_id id (without k t) ≡ (
        if id == (t.ext k).out_conn_id then returned 0 else find_ext_connection_by_out_conn_id id t)
find-without k t id w l = elim (find-cases t w.slots id) [
  | inr n ↦
      let b : (id == (t.ext k).out_conn_id) ≡ false = let z = n k l in ground (arith, z) in
      rw (b, find-absent t w.slots id n)
        (absent-without k t id w.slots l (λ j m e. absurd (n j m e)))
  | inl f ↦ elim (Bool-cases (id == (t.ext k).out_conn_id)) [
    | inl s ↦
        let q : id ≡ (t.ext k).out_conn_id = ground (arith, s) in
        rw s (absent-without k t id w.slots l (λ j m e. number-one t w.slots j k m l (e ∙ q)))
    | inr s ↦
        let n : f.0 ≢ k =
          λ e. let q = ap (λ j. (t.ext j).out_conn_id) (sym e) ∙ f.2 in ground (arith, s, q) in
        let h = ext_conn_hash (t.ext k).in_fd 0 in
        let u = upd-other t.ext k cleared n in
        let r =
          find-IsLive (without k t) (freed-SlotsAgree h k t w.slots l) f.0
            (IsLive-freed h k t f.0 n f.1) in
        let r' = find-IsLive t w.slots f.0 f.1 in
        rw s (
          subst
            (λ i.
              find_ext_connection_by_out_conn_id i (without k t)
              ≡ find_ext_connection_by_out_conn_id i t)
            f.2
            (subst (λ i. find_ext_connection_by_out_conn_id i (without k t) ≡ returned f.0)
                (ap (λ c. c.out_conn_id) u) r
              ∙ sym r'))
  ]
]

may_remove-IsLive : (k send : ℕ) (t : Table) → IsTable t → IsLive t k → may_remove k send t ≡ true
unfolding may_remove
may_remove-IsLive k send t w l =
    let a = w.lists.out_linked k l in
    let b = w.lists.out_range k l in
    let c = w.lists.in_linked k l in
    let d = w.lists.in_range k l in let e = w.chains.plain k l in ground (arith, a, b, c, d, e)

-- What a client is told when only clients are to be told.
pub notices-client :
    (is_open : Conn → Bool) (b : ExtConnection)
    → (notices is_open b 2 ≡ [])
      ⊎ (notices is_open b 2 ≡ fail_client (record { fd = b.in_fd; generation = b.in_gen }) ∷ [])
unfolding notices
notices-client is_open b =
    let client : Conn = record { fd = b.in_fd; generation = b.in_gen } in
    let s : (not (b.out_fd == 0)
          && (false && is_open (record { fd = b.out_fd; generation = b.out_gen })))
        ≡ false =
      ground arith in
    elim (Bool-cases (not (b.in_fd == 0) && is_open client)) [
      | inl h ↦ inr (rw (s, h) refl)
      | inr h ↦ inl (rw (s, h) refl)
    ]

grows_same : (t : Table) (s : ℕ) → t.slot_id s ≤ t.slot_id s
grows_same t s = omega arith

module _ (lrand48 : ℕ → ℕ) (is_open : Conn → Bool) where
  deleted-without :
      (k : ℕ) (t : Table)
      → IsTable t
      → IsLive t k
      → get_ext_connection_by_in_conn_id lrand48 0
          (record { fd = (t.ext k).in_fd; generation = (t.ext k).in_gen })
          (t.ext k).in_conn_id
          1
          t
        ≡ returned (without k t, deleted)
  unfolding get_ext_connection_by_in_conn_id delete_found
  deleted-without k t w l =
      let p = w.chains.plain k l in
      let r = w.slots.slot_ref k l in
      let q = w.slots.slot_same k l in
      let f = chain-IsLive k t w.chains l in ground (arith, p, r, q, f, l)

  pub remove_ext_connection-returned :
      (k send : ℕ) (t : Table)
      → IsTable t
      → IsLive t k
      → remove_ext_connection lrand48 is_open k send t
        ≡ returned (without k t, notices is_open (t.ext k) send)
  unfolding remove_ext_connection
  remove_ext_connection-returned k send t w l =
      let f = find-IsLive t w.slots k l in
      let z = IsLive-ne_zero t w.slots k l in
      let zk : (k == 0 || (t.ext k).out_conn_id == 0) ≡ false = ground (arith, z, l) in
      let k_k : (k == k) ≡ true = ground arith in
      let m = may_remove-IsLive k send t w l in rw (zk, f, k_k, m, deleted-without k t w l) refl

  -- A live external connection is removed, and no assertion fails. The two sides that are still open are
  -- told as the caller asks. The table stays well-formed, no slot's counter goes back, the removed connection's number leads to no
  -- connection, and every other number leads where it led.
  pub remove_ext_connection-IsTable :
      (k send : ℕ) (t : Table)
      → IsTable t
      → IsLive t k
      → (u : Table) × (remove_ext_connection lrand48 is_open k send t
          ≡ returned (u, notices is_open (t.ext k) send))
        × IsTable u
        × Grows t u
        × ((id : ℕ)
            → find_ext_connection_by_out_conn_id id u ≡ (
                if id == (t.ext k).out_conn_id
                then returned 0
                else find_ext_connection_by_out_conn_id id t))
  remove_ext_connection-IsTable k send t w l = (
    without k t,
    remove_ext_connection-returned k send t w l,
    without-IsTable k t w l,
    λ s. grows_same t s,
    λ id. find-without k t id w l,
  )

  -- What it took to return.
  pub remove_ext_connection-IsLive :
      (k send : ℕ) (t u : Table) (notes : List Notice)
      → remove_ext_connection lrand48 is_open k send t ≡ returned (u, notes)
      → IsLive t k
  unfolding remove_ext_connection
  remove_ext_connection-IsLive k send t u notes e z =
      let g : (k == 0 || (t.ext k).out_conn_id == 0) ≡ true = rw z (ground arith) in
      let e' = rw g at e in absurd (ground (arith, e'))
