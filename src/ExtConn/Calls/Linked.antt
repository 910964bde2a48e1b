-- ===== src/ExtConn/Calls/Linked.antt =====
-- src/mtproto/mtproto-proxy.c: the lists that a new external connection is linked in.
use teleproxy.Base.{
  ℕ, ◌<◌, true, [], ◌∷◌, ◌++◌, arith, ◌==◌, ◌≡◌, refl, sym, ap, subst, ◌∙◌, Bool-cases, inl, inr,
}
use teleproxy.ExtConn.{Table, ExtConnection, Conn, mem, max_connections, ext_conn_hash, next_id}
use teleproxy.ExtConn.Lists.{
  mem-append, mem-cons, mem-nil, is_false, IsLinked, linked_new, linked_old, linked_only, distinct,
  distinct-nil, distinct-cons, distinct-append, distinct-upd,
}
use teleproxy.ExtConn.Wf.{IsLive, ChainsAgree, ListsAgree, HeadsAgree, IsTable}
use teleproxy.ExtConn.Calls.Created.{
  new_block, CanCreate, IsAdded, new-IsLive, IsLive-ne_new, old-IsLive, new_block-IsLive,
  added-SlotsAgree,
}

module _ (client server : Conn) (auth_key_id s : ℕ) (t u : Table)
    (a : IsAdded client server auth_key_id s t u) (c : CanCreate client server s t)
    (w : IsTable t) where
  chain-IsLinked :
      IsLinked t.hash_chain u.hash_chain
        (ext_conn_hash client.fd 0)
        t.next_block
        (t.next_block ∷ t.hash_chain (ext_conn_hash client.fd 0))
  chain-IsLinked =
      let x = t.next_block in
      let l = t.hash_chain (ext_conn_hash client.fd 0) in
      record {
        at_list = a.chain;
        has_new = rw (mem-cons x x l) (ground arith);
        has_old = λ j m. rw (mem-cons j x l, m) (ground arith);
        only = λ j m. elim (Bool-cases (j == x)) [
          | inl e ↦ inl (ground (arith, e))
          | inr n ↦ let m' = rw (mem-cons j x l, n) at m in inr m'
        ];
      }

  in-IsLinked : IsLinked t.in_list u.in_list client.fd t.next_block (t.next_block ∷ [])
  in-IsLinked =
      let x = t.next_block in
      record {
        at_list = a.ins;
        has_new = rw (mem-cons x x []) (ground arith);
        has_old = λ j m.
            absurd (c.no_other j (w.lists.in_live client.fd j m) (w.lists.in_same client.fd j m));
        only = λ j m. elim (Bool-cases (j == x)) [
          | inl e ↦ inl (ground (arith, e))
          | inr n ↦ let m' = rw (mem-cons j x [], n, mem-nil j) at m in absurd (ground (arith, m'))
        ];
      }

  out-IsLinked :
      IsLinked t.out_list u.out_list server.fd t.next_block
        (t.out_list server.fd ++ (t.next_block ∷ []))
  out-IsLinked =
      let x = t.next_block in
      let l = t.out_list server.fd in
      record {
        at_list = a.outs;
        has_new = rw (mem-append x x l) (ground arith);
        has_old = λ j m. rw (mem-append j x l, m) refl;
        only = λ j m. elim (Bool-cases (j == x)) [
          | inl e ↦ inl (ground (arith, e))
          | inr n ↦ let m' = rw (mem-append j x l, n) at m in inr (ground (arith, m'))
        ];
      }

  in_fd_new : (u.ext t.next_block).in_fd ≡ client.fd
  in_fd_new = ap (λ b. b.in_fd) a.ext_new

  out_fd_new : (u.ext t.next_block).out_fd ≡ server.fd
  out_fd_new = ap (λ b. b.out_fd) a.ext_new

  -- A block is the new one or as it was.
  block-cases :
      (P : ℕ → ExtConnection → Type 0)
      → P t.next_block (new_block client server auth_key_id (next_id (t.slot_id s) s))
      → ((k : ℕ) → IsLive t k → P k (t.ext k))
      → (k : ℕ) → IsLive u k
      → P k (u.ext k)
  block-cases P new old k l = elim (new-IsLive client server auth_key_id s t u a c k l) [
    | inl e ↦ subst (λ j. P j (u.ext j)) (sym e) (subst (P t.next_block) (sym a.ext_new) new)
    | inr o ↦ subst (P k) (sym (a.ext_old k o.0)) (old k o.1)
  ]

  -- What is live was live, and its block is as it was.
  still : (P : ExtConnection → Type 0) → (k : ℕ) → IsLive t k → P (t.ext k) → P (u.ext k)
  still P k l p =
      subst P (sym (a.ext_old k (IsLive-ne_new client server auth_key_id s t u a c k w.slots l))) p

  not-IsLive : ¬ IsLive t t.next_block
  not-IsLive l = IsLive-ne_new client server auth_key_id s t u a c t.next_block w.slots l refl

  distinct_chain : distinct (t.next_block ∷ t.hash_chain (ext_conn_hash client.fd 0)) ≡ true
  distinct_chain =
      let h = ext_conn_hash client.fd 0 in
      distinct-cons t.next_block (t.hash_chain h) (w.chains.chain_distinct h)
        (is_false _ (λ m. not-IsLive (w.chains.chain_live h t.next_block m)))

  distinct_one : distinct (t.next_block ∷ []) ≡ true
  distinct_one = distinct-cons t.next_block [] distinct-nil (mem-nil t.next_block)

  added-ChainsAgree : ChainsAgree u
  added-ChainsAgree = record {
    chained =
        block-cases (λ k b. mem k (u.hash_chain (ext_conn_hash b.in_fd 0)) ≡ true)
          (linked_new _ _ _ _ _ chain-IsLinked)
          (λ k l. linked_old _ _ _ _ _ chain-IsLinked _ k (w.chains.chained k l));
    chain_live = λ h k m. elim (linked_only _ _ _ _ _ chain-IsLinked h k m) [
      | inl e ↦ subst (IsLive u) (sym e.1) (new_block-IsLive client server auth_key_id s t u a c)
      | inr o ↦ old-IsLive client server auth_key_id s t u a c k w.slots (w.chains.chain_live h k o)
    ];
    chain_hash = λ h k m. elim (linked_only _ _ _ _ _ chain-IsLinked h k m) [
      | inl e ↦
          ap (λ j. ext_conn_hash (u.ext j).in_fd 0) e.1
          ∙ (ap (λ d. ext_conn_hash d 0) in_fd_new ∙ sym e.0)
      | inr o ↦
          still (λ b. ext_conn_hash b.in_fd 0 ≡ h) k (w.chains.chain_live h k o)
            (w.chains.chain_hash h k o)
    ];
    plain = block-cases (λ k b. b.in_conn_id ≡ 0) refl w.chains.plain;
    unique = λ j k l m.
        block-cases (λ j b. b.in_fd ≡ (u.ext k).in_fd → j ≡ k)
          (block-cases (λ k b. client.fd ≡ b.in_fd → t.next_block ≡ k) (λ e. refl)
            (λ k l e. absurd (c.no_other k l (sym e))) k m)
          (λ j l.
            block-cases (λ k b. (t.ext j).in_fd ≡ b.in_fd → j ≡ k) (λ e. absurd (c.no_other j l e))
              (λ k m e. w.chains.unique j k l m e) k m)
          j l;
    chain_distinct = λ i.
        ap distinct (a.chain i)
        ∙ distinct-upd t.hash_chain _ _ i distinct_chain (w.chains.chain_distinct i);
  }

  added-ListsAgree : ListsAgree u
  added-ListsAgree = record {
    in_linked =
        block-cases (λ k b. mem k (u.in_list b.in_fd) ≡ true) (linked_new _ _ _ _ _ in-IsLinked)
          (λ k l. linked_old _ _ _ _ _ in-IsLinked _ k (w.lists.in_linked k l));
    in_live = λ i k m. elim (linked_only _ _ _ _ _ in-IsLinked i k m) [
      | inl e ↦ subst (IsLive u) (sym e.1) (new_block-IsLive client server auth_key_id s t u a c)
      | inr o ↦ old-IsLive client server auth_key_id s t u a c k w.slots (w.lists.in_live i k o)
    ];
    in_same = λ i k m. elim (linked_only _ _ _ _ _ in-IsLinked i k m) [
      | inl e ↦ ap (λ j. (u.ext j).in_fd) e.1 ∙ (in_fd_new ∙ sym e.0)
      | inr o ↦ still (λ b. b.in_fd ≡ i) k (w.lists.in_live i k o) (w.lists.in_same i k o)
    ];
    in_distinct = λ i.
        ap distinct (a.ins i) ∙ distinct-upd t.in_list _ _ i distinct_one (w.lists.in_distinct i);
    in_range =
        block-cases (λ k b. (0 < b.in_fd) × (b.in_fd < max_connections)) c.client_fd
          w.lists.in_range;
    out_linked =
        block-cases (λ k b. mem k (u.out_list b.out_fd) ≡ true) (linked_new _ _ _ _ _ out-IsLinked)
          (λ k l. linked_old _ _ _ _ _ out-IsLinked _ k (w.lists.out_linked k l));
    out_live = λ i k m. elim (linked_only _ _ _ _ _ out-IsLinked i k m) [
      | inl e ↦ subst (IsLive u) (sym e.1) (new_block-IsLive client server auth_key_id s t u a c)
      | inr o ↦ old-IsLive client server auth_key_id s t u a c k w.slots (w.lists.out_live i k o)
    ];
    out_same = λ i k m. elim (linked_only _ _ _ _ _ out-IsLinked i k m) [
      | inl e ↦ ap (λ j. (u.ext j).out_fd) e.1 ∙ (out_fd_new ∙ sym e.0)
      | inr o ↦ still (λ b. b.out_fd ≡ i) k (w.lists.out_live i k o) (w.lists.out_same i k o)
    ];
    out_distinct = λ i.
        ap distinct (a.outs i)
        ∙ distinct-upd t.out_list _ _ i
            (distinct-append t.next_block _ (w.lists.out_distinct server.fd)
              (is_false _ (λ m. not-IsLive (w.lists.out_live server.fd t.next_block m))))
            (w.lists.out_distinct i);
    out_range =
        block-cases (λ k b. (0 < b.out_fd) × (b.out_fd < max_connections)) c.server_fd
          w.lists.out_range;
  }

  added-HeadsAgree : HeadsAgree u
  added-HeadsAgree = record {
    in_open =
        block-cases (λ k b. u.in_ready b.in_fd ≡ true) a.in_head_new
          (λ k l. a.in_heads (t.ext k).in_fd (w.heads.in_open k l));
    out_open =
        block-cases (λ k b. u.out_ready b.out_fd ≡ true) (a.out_heads server.fd ∙ c.server_ready)
          (λ k l. a.out_heads (t.ext k).out_fd ∙ w.heads.out_open k l);
  }

  pub added-IsTable : IsTable u
  added-IsTable = record {
    slots = added-SlotsAgree client server auth_key_id s t u a c w.slots;
    chains = added-ChainsAgree;
    lists = added-ListsAgree;
    heads = added-HeadsAgree;
  }
