-- ===== src/ExtConn/Calls/Freed.antt =====
-- src/mtproto/mtproto-proxy.c: the table without an external connection.
use teleproxy.Base.{ℕ, true, arith, ◌==◌, ◌≡◌, ◌≢◌, refl, sym, ap, ◌∙◌, Bool-cases, inl, inr}
use teleproxy.ExtConn.{Table, mem, cleared, freed, slot_of, ext_conn_hash}
use teleproxy.ExtConn.Lists.{upd-other, unlinked, still_linked, distinct-erase, distinct-upd}
use teleproxy.ExtConn.Wf.{IsLive, SlotsAgree, ChainsAgree, ListsAgree, HeadsAgree, IsTable}

-- The table without the block `k`.
abbrev pub without : ℕ → Table → Table
without k t = freed (ext_conn_hash (t.ext k).in_fd 0) k t

module _ (h k : ℕ) (t : Table) where
  -- What is live afterwards was so before, and is another block.
  pub freed-IsLive : (j : ℕ) → IsLive (freed h k t) j → (j ≢ k) × IsLive t j
  freed-IsLive j l = elim (Bool-cases (j == k)) [
    | inl s ↦ absurd (l (rw s refl))
    | inr n ↦ (ground (arith, n), λ e. l (rw n e))
  ]

  pub IsLive-freed : (j : ℕ) → j ≢ k → IsLive t j → IsLive (freed h k t) j
  IsLive-freed j n l = λ e. l (rw (upd-other t.ext k cleared n) at e)

  -- A slot in use afterwards was so before, by another block.
  ref-freed :
      SlotsAgree t
      → (s : ℕ) → (freed h k t).ref s ≢ 0
      → (t.ref s ≢ 0) × ((freed h k t).ref s ≡ t.ref s) × (t.ref s ≢ k) × IsLive t (t.ref s)
  ref-freed w s n = elim (Bool-cases (s == slot_of (t.ext k).out_conn_id)) [
    | inl e ↦ absurd (n (rw e refl))
    | inr e ↦
        let same : (freed h k t).ref s ≡ t.ref s = rw e refl in
        let u : t.ref s ≢ 0 = λ z. n (same ∙ z) in
        let g = w.ref_slot s u in
        (u, same, λ z. let g' = rw z at g in ground (arith, g', e), w.ref_live s u)
  ]

  pub freed-SlotsAgree : SlotsAgree t → IsLive t k → SlotsAgree (freed h k t)
  freed-SlotsAgree w l = record {
    null = ground (arith, w.null);
    unused = λ j n. ground (arith, w.unused j n);
    some_block = w.some_block;
    slot_ref = λ j n.
        let m = freed-IsLive j n in
        let r = w.slot_ref j m.1 in
        let q = w.slot_ref k l in
        rw (upd-other t.ext k cleared m.0)
          (upd-other t.ref _ 0 (λ e. m.0 (sym r ∙ (ap t.ref e ∙ q))) ∙ r);
    slot_same =
        λ j n. let m = freed-IsLive j n in rw (upd-other t.ext k cleared m.0) (w.slot_same j m.1);
    ref_live = λ s n. let m = ref-freed w s n in rw m.1 (IsLive-freed _ m.2 m.3);
    ref_slot = λ s n.
        let m = ref-freed w s n in rw (m.1, upd-other t.ext k cleared m.2) (w.ref_slot s m.0);
  }

  in_chain :
      ChainsAgree t
      → h ≡ ext_conn_hash (t.ext k).in_fd 0
      → (a j : ℕ) → mem j ((freed h k t).hash_chain a) ≡ true
      → (j ≢ k) × (mem j (t.hash_chain a) ≡ true)
  in_chain w e a j = unlinked t.hash_chain h a j k (λ m. sym (w.chain_hash a k m) ∙ sym e)

  pub freed-ChainsAgree :
      ChainsAgree t → IsLive t k → h ≡ ext_conn_hash (t.ext k).in_fd 0 → ChainsAgree (freed h k t)
  freed-ChainsAgree w l e = record {
    chained = λ j n.
        let m = freed-IsLive j n in
        rw (upd-other t.ext k cleared m.0)
          (still_linked t.hash_chain h _ j k m.0 (w.chained j m.1));
    chain_live = λ a j n. let u = in_chain w e a j n in IsLive-freed j u.0 (w.chain_live a j u.1);
    chain_hash = λ a j n.
        let u = in_chain w e a j n in rw (upd-other t.ext k cleared u.0) (w.chain_hash a j u.1);
    plain = λ j n. let m = freed-IsLive j n in rw (upd-other t.ext k cleared m.0) (w.plain j m.1);
    unique = λ i j n o.
        let m = freed-IsLive i n in
        let m' = freed-IsLive j o in
        rw (upd-other t.ext k cleared m.0, upd-other t.ext k cleared m'.0) (w.unique i j m.1 m'.1);
    chain_distinct = λ i.
        distinct-upd t.hash_chain h _ i (distinct-erase k _ (w.chain_distinct h))
          (w.chain_distinct i);
  }

  in_in :
      ListsAgree t
      → (a j : ℕ) → mem j ((freed h k t).in_list a) ≡ true
      → (j ≢ k) × (mem j (t.in_list a) ≡ true)
  in_in w a j = unlinked t.in_list (t.ext k).in_fd a j k (λ m. sym (w.in_same a k m))

  in_out :
      ListsAgree t
      → (a j : ℕ) → mem j ((freed h k t).out_list a) ≡ true
      → (j ≢ k) × (mem j (t.out_list a) ≡ true)
  in_out w a j = unlinked t.out_list (t.ext k).out_fd a j k (λ m. sym (w.out_same a k m))

  pub freed-ListsAgree : ListsAgree t → IsLive t k → ListsAgree (freed h k t)
  freed-ListsAgree w l = record {
    in_linked = λ j n.
        let m = freed-IsLive j n in
        rw (upd-other t.ext k cleared m.0) (still_linked t.in_list _ _ j k m.0 (w.in_linked j m.1));
    in_live = λ a j n. let u = in_in w a j n in IsLive-freed j u.0 (w.in_live a j u.1);
    in_same =
        λ a j n. let u = in_in w a j n in rw (upd-other t.ext k cleared u.0) (w.in_same a j u.1);
    in_distinct =
        λ i. distinct-upd t.in_list _ _ i (distinct-erase k _ (w.in_distinct _)) (w.in_distinct i);
    in_range =
        λ j n. let m = freed-IsLive j n in rw (upd-other t.ext k cleared m.0) (w.in_range j m.1);
    out_linked = λ j n.
        let m = freed-IsLive j n in
        rw (upd-other t.ext k cleared m.0)
          (still_linked t.out_list _ _ j k m.0 (w.out_linked j m.1));
    out_live = λ a j n. let u = in_out w a j n in IsLive-freed j u.0 (w.out_live a j u.1);
    out_same =
        λ a j n. let u = in_out w a j n in rw (upd-other t.ext k cleared u.0) (w.out_same a j u.1);
    out_distinct = λ i.
        distinct-upd t.out_list _ _ i (distinct-erase k _ (w.out_distinct _)) (w.out_distinct i);
    out_range =
        λ j n. let m = freed-IsLive j n in rw (upd-other t.ext k cleared m.0) (w.out_range j m.1);
  }

pub freed-HeadsAgree : (h k : ℕ) (t : Table) → HeadsAgree t → HeadsAgree (freed h k t)
freed-HeadsAgree h k t w = record {
  in_open =
      λ j n. let m = freed-IsLive h k t j n in rw (upd-other t.ext k cleared m.0) (w.in_open j m.1);
  out_open = λ j n.
      let m = freed-IsLive h k t j n in rw (upd-other t.ext k cleared m.0) (w.out_open j m.1);
}

pub without-IsTable : (k : ℕ) (t : Table) → IsTable t → IsLive t k → IsTable (without k t)
without-IsTable k t w l =
    let h = ext_conn_hash (t.ext k).in_fd 0 in
    record {
      slots = freed-SlotsAgree h k t w.slots l;
      chains = freed-ChainsAgree h k t w.chains l refl;
      lists = freed-ListsAgree h k t w.lists l;
      heads = freed-HeadsAgree h k t w.heads;
    }
