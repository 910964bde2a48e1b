-- ===== src/ExtConn/Run/Safety.antt =====
-- src/mtproto/mtproto-proxy.c: what holds after any sequence of events.
use teleproxy.Base.{ℕ, Bool, true, List, [], arith, ◌==◌, ◌≡◌, refl, sym, ap, ◌∙◌}
use teleproxy.Timers.{returned}
use teleproxy.ExtConn.{Table, Conn, mem, slot_of, find_ext_connection_by_out_conn_id}
use teleproxy.ExtConn.Lists.{mem-nil, distinct-nil}
use teleproxy.ExtConn.Wf.{IsTable}
use teleproxy.ExtConn.Calls.{Notice, remove_ext_connection}
use teleproxy.ExtConn.Calls.Remove.{remove_ext_connection-IsTable, remove_ext_connection-IsLive}
use teleproxy.ExtConn.Outcomes.{returned-injective}
use teleproxy.ExtConn.Run.{Steps, done, next, remove, empty_table}
use teleproxy.ExtConn.Run.Effects.{Keeps, Step-Keeps}

in_nil : (k : ℕ) → mem k [] ≡ true → ⊥
in_nil k m = let m' = rw (mem-nil k) at m in ground (arith, m')

empty_table-IsTable : IsTable empty_table
empty_table-IsTable = record {
  slots = record {
    null = refl;
    unused = λ k n. refl;
    some_block = ground arith;
    slot_ref = λ k l. absurd (l refl);
    slot_same = λ k l. absurd (l refl);
    ref_live = λ s n. absurd (n refl);
    ref_slot = λ s n. absurd (n refl);
  };
  chains = record {
    chained = λ k l. absurd (l refl);
    chain_live = λ h k m. absurd (in_nil k m);
    chain_hash = λ h k m. absurd (in_nil k m);
    plain = λ k l. refl;
    unique = λ j k l. absurd (l refl);
    chain_distinct = λ h. distinct-nil;
  };
  lists = record {
    in_linked = λ k l. absurd (l refl);
    in_live = λ h k m. absurd (in_nil k m);
    in_same = λ h k m. absurd (in_nil k m);
    in_distinct = λ h. distinct-nil;
    in_range = λ k l. absurd (l refl);
    out_linked = λ k l. absurd (l refl);
    out_live = λ h k m. absurd (in_nil k m);
    out_same = λ h k m. absurd (in_nil k m);
    out_distinct = λ h. distinct-nil;
    out_range = λ k l. absurd (l refl);
  };
  heads = record { in_open = λ k l. absurd (l refl); out_open = λ k l. absurd (l refl) };
}

module _ (lrand48 : ℕ → ℕ) (is_open : Conn → Bool) where
  -- Whatever events are handled, in whatever order, a well-formed table stays well-formed, and a number of
  -- a slot's past that leads nowhere never leads to a connection again.
  pub Steps-Keeps : (t u : Table) → Steps lrand48 is_open t u → IsTable t → Keeps t u
  Steps-Keeps t u (done x) w = record { table = w; grows = λ s. ground arith; retired = λ id r. r }
  Steps-Keeps t v (next {u = u} s ss) w =
      let k = Step-Keeps lrand48 is_open t u s w in
      let r = Steps-Keeps u v ss k.table in
      record {
        table = r.table;
        grows = λ i. let a = k.grows i in let b = r.grows i in ground (arith, a, b);
        retired = λ id x. r.retired id (k.retired id x);
      }

  -- From the start of the program, whatever events are handled and in whatever order, the table is
  -- well-formed: the slots, the chains of the hash table and the lists of clients and servers agree.
  -- Every connection is created while no slot's counter is within two rounds of its wrap-around.
  pub Steps-IsTable : (t : Table) → Steps lrand48 is_open empty_table t → IsTable t
  Steps-IsTable t ss = (Steps-Keeps empty_table t ss empty_table-IsTable).table

  -- After an external connection was removed, whatever events are handled and in whatever order, its number
  -- leads to no connection: an answer for it that is still under way reaches no other client. Every
  -- connection is created while no slot's counter is within two rounds of its wrap-around.
  pub removed_number-absent :
      (t u v : Table) (k send : ℕ) (notes : List Notice)
      → Steps lrand48 is_open empty_table t
      → remove_ext_connection lrand48 is_open k send t ≡ returned (u, notes)
      → Steps lrand48 is_open u v
      → find_ext_connection_by_out_conn_id (t.ext k).out_conn_id v ≡ returned 0
  removed_number-absent t u v k send notes before e after =
      let w = Steps-IsTable t before in
      let l = remove_ext_connection-IsLive lrand48 is_open k send t u notes e in
      let h = remove_ext_connection-IsTable lrand48 is_open k send t w l in
      let q : h.0 ≡ u = ap (λ p. p.0) (returned-injective _ _ (sym h.1 ∙ e)) in
      let same : ((t.ext k).out_conn_id == (t.ext k).out_conn_id) ≡ true = ground arith in
      let gone : find_ext_connection_by_out_conn_id (t.ext k).out_conn_id u ≡ returned 0 =
        ap (find_ext_connection_by_out_conn_id (t.ext k).out_conn_id) (sym q)
        ∙ (h.4 (t.ext k).out_conn_id ∙ rw same refl) in
      let grown = h.3 (slot_of (t.ext k).out_conn_id) in
      let id = w.slots.slot_same k l in
      let past = ap (λ x. x.slot_id (slot_of (t.ext k).out_conn_id)) q in
      ((Steps-Keeps u v after
          (Step-Keeps lrand48 is_open t u (remove k send notes e) w).table).retired
        (t.ext k).out_conn_id
        (record { past = ground (arith, grown, id, past); absent = gone })).absent
