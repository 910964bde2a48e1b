-- ===== src/ExtConn/Forward/Rekeyed.antt =====
-- src/mtproto/mtproto-proxy.c: the table, when an external connection's key changes.
use teleproxy.Base.{
  ℕ, arith, ◌==◌, if◌then◌else◌, ◌≡◌, refl, sym, ap, subst, ◌∙◌, Bool-cases, inl, inr,
}
use teleproxy.ExtConn.{Table, find_ext_connection_by_out_conn_id}
use teleproxy.ExtConn.Wf.{IsTable}
use teleproxy.ExtConn.Forward.{rekey}

-- Every block with a key of its own.
abbrev rekeyed : (ℕ → ℕ) → Table → Table
rekeyed keys t = record t { ext = λ k. record (t.ext k) { auth_key_id = keys k } }

rekeyed-IsTable : (keys : ℕ → ℕ) (t : Table) → IsTable t → IsTable (rekeyed keys t)
rekeyed-IsTable keys t w =
    let s = w.slots in
    let c = w.chains in
    let l = w.lists in
    record {
      slots = record {
        null = s.null;
        unused = s.unused;
        some_block = s.some_block;
        slot_ref = s.slot_ref;
        slot_same = s.slot_same;
        ref_live = s.ref_live;
        ref_slot = s.ref_slot;
      };
      chains = record {
        chained = c.chained;
        chain_live = c.chain_live;
        chain_hash = c.chain_hash;
        plain = c.plain;
        unique = c.unique;
        chain_distinct = c.chain_distinct;
      };
      lists = record {
        in_linked = l.in_linked;
        in_live = l.in_live;
        in_same = l.in_same;
        in_distinct = l.in_distinct;
        in_range = l.in_range;
        out_linked = l.out_linked;
        out_live = l.out_live;
        out_same = l.out_same;
        out_distinct = l.out_distinct;
        out_range = l.out_range;
      };
      heads = record { in_open = w.heads.in_open; out_open = w.heads.out_open };
    }

rekeyed-find :
    (keys : ℕ → ℕ) (t : Table) (id : ℕ)
    → find_ext_connection_by_out_conn_id id (rekeyed keys t)
      ≡ find_ext_connection_by_out_conn_id id t
unfolding find_ext_connection_by_out_conn_id
rekeyed-find keys t id = refl

module _ (x auth_key_id : ℕ) (t : Table) where
  abbrev keys : ℕ → ℕ
  keys k = if k == x then auth_key_id else (t.ext k).auth_key_id

  rekey-block : (k : ℕ) → (rekeyed keys t).ext k ≡ (rekey x auth_key_id t).ext k
  rekey-block k = elim (Bool-cases (k == x)) [
    | inl e ↦
        let q : k ≡ x = ground (arith, e) in
        rw e (ap (λ j. record (t.ext j) { auth_key_id = auth_key_id }) q)
    | inr e ↦ rw e refl
  ]

  rekey-same : rekeyed keys t ≡ rekey x auth_key_id t
  rekey-same = ap (λ blocks. record t { ext = blocks }) (λ i k. rekey-block k i)

  -- The table stays well-formed, and every number leads where it led.
  pub rekey-IsTable : IsTable t → IsTable (rekey x auth_key_id t)
  rekey-IsTable w = subst IsTable rekey-same (rekeyed-IsTable keys t w)

  pub rekey-find :
      (id : ℕ)
      → find_ext_connection_by_out_conn_id id (rekey x auth_key_id t)
        ≡ find_ext_connection_by_out_conn_id id t
  rekey-find id =
      ap (find_ext_connection_by_out_conn_id id) (sym rekey-same) ∙ rekeyed-find keys t id
