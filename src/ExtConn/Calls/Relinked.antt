-- ===== src/ExtConn/Calls/Relinked.antt =====
-- src/mtproto/mtproto-proxy.c: the slots and the chains, when heads, lists and tags change.
use teleproxy.Base.{ℕ, Bool, List, ◌≡◌, refl}
use teleproxy.Base.Int.{ℤ}
use teleproxy.ExtConn.{Table, find_ext_connection_by_out_conn_id}
use teleproxy.ExtConn.Wf.{SlotsAgree, ChainsAgree}

module _ (t : Table) (in_heads : ℕ → Bool) (ins : ℕ → List ℕ) (out_heads : ℕ → Bool)
    (outs : ℕ → List ℕ) (tags : ℕ → ℤ) where
  abbrev pub relinked : Table
  relinked = record t {
    in_ready = in_heads;
    in_list = ins;
    out_ready = out_heads;
    out_list = outs;
    extra_int = tags;
  }

  pub relinked-SlotsAgree : SlotsAgree t → SlotsAgree relinked
  relinked-SlotsAgree w = record {
    null = w.null;
    unused = w.unused;
    some_block = w.some_block;
    slot_ref = w.slot_ref;
    slot_same = w.slot_same;
    ref_live = w.ref_live;
    ref_slot = w.ref_slot;
  }

  pub relinked-ChainsAgree : ChainsAgree t → ChainsAgree relinked
  relinked-ChainsAgree w = record {
    chained = w.chained;
    chain_live = w.chain_live;
    chain_hash = w.chain_hash;
    plain = w.plain;
    unique = w.unique;
    chain_distinct = w.chain_distinct;
  }

  pub relinked-find :
      (id : ℕ)
      → find_ext_connection_by_out_conn_id id relinked ≡ find_ext_connection_by_out_conn_id id t
  unfolding find_ext_connection_by_out_conn_id
  relinked-find id = refl
