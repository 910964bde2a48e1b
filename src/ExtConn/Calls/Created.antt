-- ===== src/ExtConn/Calls/Created.antt =====
-- src/mtproto/mtproto-proxy.c: the table with a new external connection.
use teleproxy.Base.{
  ℕ, ◌+◌, ◌<◌, true, [], ◌∷◌, ◌++◌, arith, ◌==◌, ◌≡◌, ◌≢◌, sym, ap, subst, ◌∙◌, Bool-cases, inl,
  inr, ◌⊎◌,
}
use teleproxy.ExtConn.{
  Table, ExtConnection, Conn, upd, max_connections, slot_of, ext_conn_table_size, ext_conn_hash,
  next_id,
}
use teleproxy.ExtConn.Lists.{upd-same, upd-other}
use teleproxy.ExtConn.Wf.{IsLive, SlotsAgree}
use teleproxy.ExtConn.Calls.Search.{slot-next_id}
use teleproxy.ExtConn.Find.{IsLive-ne_zero}

-- The new block.
abbrev pub new_block : Conn → Conn → ℕ → ℕ → ExtConnection
new_block client server auth_key_id id = record {
  in_fd = client.fd;
  in_gen = client.generation;
  out_fd = server.fd;
  out_gen = server.generation;
  in_conn_id = 0;
  out_conn_id = id;
  auth_key_id = auth_key_id;
}

-- What is required of the new connection.
pub record CanCreate (client server : Conn) (s : ℕ) (t : Table) : Type 0 where
  pub client_fd : (0 < client.fd) × (client.fd < max_connections)
  pub server_fd : (0 < server.fd) × (server.fd < max_connections)
  pub server_ready : t.out_ready server.fd ≡ true
  pub no_other : (k : ℕ) → IsLive t k → (t.ext k).in_fd ≢ client.fd
  pub slot_bound : s < ext_conn_table_size
  pub slot_free : t.ref s ≡ 0
  pub id_ne_zero : next_id (t.slot_id s) s ≢ 0

-- `u` is the table `t` with the new block in the slot `s`.
pub record IsAdded (client server : Conn) (auth_key_id s : ℕ) (t u : Table) : Type 0 where
  pub next : u.next_block ≡ t.next_block + 1
  pub ext_new : u.ext t.next_block ≡ new_block client server auth_key_id (next_id (t.slot_id s) s)
  pub ext_old : (k : ℕ) → k ≢ t.next_block → u.ext k ≡ t.ext k
  pub refs : (i : ℕ) → u.ref i ≡ upd t.ref s t.next_block i
  pub ids : (i : ℕ) → u.slot_id i ≡ upd t.slot_id s (next_id (t.slot_id s) s) i
  pub chain :
      (h : ℕ)
      → u.hash_chain h
        ≡ upd t.hash_chain
            (ext_conn_hash client.fd 0)
            (t.next_block ∷ t.hash_chain (ext_conn_hash client.fd 0))
            h
  pub in_heads : (fd : ℕ) → t.in_ready fd ≡ true → u.in_ready fd ≡ true
  pub in_head_new : u.in_ready client.fd ≡ true
  pub out_heads : (fd : ℕ) → u.out_ready fd ≡ t.out_ready fd
  pub ins : (fd : ℕ) → u.in_list fd ≡ upd t.in_list client.fd (t.next_block ∷ []) fd
  pub outs :
      (fd : ℕ)
      → u.out_list fd ≡ upd t.out_list server.fd (t.out_list server.fd ++ (t.next_block ∷ [])) fd

module _ (client server : Conn) (auth_key_id s : ℕ) (t u : Table)
    (a : IsAdded client server auth_key_id s t u) (c : CanCreate client server s t) where
  -- What is live is the new block or was so before.
  pub new-IsLive : (k : ℕ) → IsLive u k → (k ≡ t.next_block) ⊎ ((k ≢ t.next_block) × IsLive t k)
  new-IsLive k l = elim (Bool-cases (k == t.next_block)) [
    | inl e ↦ inl (ground (arith, e))
    | inr e ↦
        let n : k ≢ t.next_block = ground (arith, e) in
        inr (n, subst (λ c. c.out_conn_id ≢ 0) (a.ext_old k n) l)
  ]

  pub IsLive-ne_new : (k : ℕ) → SlotsAgree t → IsLive t k → k ≢ t.next_block
  IsLive-ne_new k w l e = l (w.unused k (ground (arith, e)))

  pub old-IsLive : (k : ℕ) → SlotsAgree t → IsLive t k → IsLive u k
  old-IsLive k w l = subst (λ c. c.out_conn_id ≢ 0) (sym (a.ext_old k (IsLive-ne_new k w l))) l

  pub new_block-IsLive : IsLive u t.next_block
  new_block-IsLive = subst (λ c. c.out_conn_id ≢ 0) (sym a.ext_new) c.id_ne_zero

  pub slot_new : slot_of (u.ext t.next_block).out_conn_id ≡ s
  slot_new = ap (λ b. slot_of b.out_conn_id) a.ext_new ∙ slot-next_id (t.slot_id s) s c.slot_bound

  pub slot_old :
      (k : ℕ)
      → SlotsAgree t
      → IsLive t k
      → (slot_of (u.ext k).out_conn_id ≡ slot_of (t.ext k).out_conn_id)
        × (slot_of (t.ext k).out_conn_id ≢ s)
  slot_old k w l = (
    ap (λ b. slot_of b.out_conn_id) (a.ext_old k (IsLive-ne_new k w l)),
    λ e. IsLive-ne_zero t w k l (sym (w.slot_ref k l) ∙ (ap t.ref e ∙ c.slot_free)),
  )

  -- A slot in use holds the new block, or was in use.
  new-ref :
      (i : ℕ)
      → u.ref i ≢ 0
      → ((i ≡ s) × (u.ref i ≡ t.next_block)) ⊎ ((u.ref i ≡ t.ref i) × (t.ref i ≢ 0))
  new-ref i n = elim (Bool-cases (i == s)) [
    | inl e ↦
        let q : i ≡ s = ground (arith, e) in
        inl (q, a.refs i ∙ (ap (upd t.ref s t.next_block) q ∙ upd-same t.ref s t.next_block))
    | inr e ↦
        let q = a.refs i ∙ upd-other t.ref s t.next_block (ground (arith, e)) in
        inr (q, λ z. n (q ∙ z))
  ]

  pub added-slot_ref :
      SlotsAgree t → (k : ℕ) → IsLive u k → u.ref (slot_of (u.ext k).out_conn_id) ≡ k
  added-slot_ref w k l = elim (new-IsLive k l) [
    | inl e ↦
        ap (λ j. u.ref (slot_of (u.ext j).out_conn_id)) e
        ∙ (ap u.ref slot_new ∙ (a.refs s ∙ (upd-same t.ref s t.next_block ∙ sym e)))
    | inr o ↦
        let q = slot_old k w o.1 in
        ap u.ref q.0 ∙ (a.refs _ ∙ (upd-other t.ref s t.next_block q.1 ∙ w.slot_ref k o.1))
  ]

  pub added-slot_same :
      SlotsAgree t
      → (k : ℕ) → IsLive u k
      → u.slot_id (slot_of (u.ext k).out_conn_id) ≡ (u.ext k).out_conn_id
  added-slot_same w k l = elim (new-IsLive k l) [
    | inl e ↦
        let x = t.next_block in
        ap (λ j. u.slot_id (slot_of (u.ext j).out_conn_id)) e
        ∙ (ap u.slot_id slot_new
            ∙ (a.ids s
                ∙ (upd-same t.slot_id s (next_id (t.slot_id s) s)
                    ∙ (ap (λ b. b.out_conn_id) (sym a.ext_new)
                        ∙ ap (λ j. (u.ext j).out_conn_id) (sym e)))))
    | inr o ↦
        let q = slot_old k w o.1 in
        ap u.slot_id q.0
        ∙ (a.ids _
            ∙ (upd-other t.slot_id s (next_id (t.slot_id s) s) q.1
                ∙ (w.slot_same k o.1 ∙ ap (λ b. b.out_conn_id) (sym (a.ext_old k o.0)))))
  ]

  pub added-SlotsAgree : SlotsAgree t → SlotsAgree u
  added-SlotsAgree w = record {
    null =
        let p = w.some_block in
        ap (λ b. b.out_conn_id) (a.ext_old 0 (λ e. ground (arith, e, p))) ∙ w.null;
    unused = λ k n.
        let q = a.next in
        ap (λ b. b.out_conn_id) (a.ext_old k (λ e. ground (arith, n, q, e)))
        ∙ w.unused k (ground (arith, n, q));
    some_block = let q = a.next in ground (arith, q);
    slot_ref = added-slot_ref w;
    slot_same = added-slot_same w;
    ref_live = λ i n. elim (new-ref i n) [
      | inl e ↦ subst (IsLive u) (sym e.1) new_block-IsLive
      | inr o ↦ subst (IsLive u) (sym o.0) (old-IsLive _ w (w.ref_live i o.1))
    ];
    ref_slot = λ i n. elim (new-ref i n) [
      | inl e ↦ ap (λ j. slot_of (u.ext j).out_conn_id) e.1 ∙ (slot_new ∙ sym e.0)
      | inr o ↦
          ap (λ j. slot_of (u.ext j).out_conn_id) o.0
          ∙ ((slot_old _ w (w.ref_live i o.1)).0 ∙ w.ref_slot i o.1)
    ];
  }
