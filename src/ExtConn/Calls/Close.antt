-- ===== src/ExtConn/Calls/Close.antt =====
-- src/mtproto/mtproto-proxy.c: `mtfront_client_close` and `mtproto_proxy_rpc_close`.
use teleproxy.Base.{
  ℕ, ◌+◌, ◌-◌, ◌<◌, Bool, true, false, not, List, arith, ltb, ◌==◌, if◌then◌else◌, ◌≡◌, ◌≢◌, refl,
  sym, ap, ◌∙◌,
}
use teleproxy.Base.Int.{ℤ, pos, negsuc}
use teleproxy.Timers.{returned, ◌>>=◌}
use teleproxy.ExtConn.{
  Table, Conn, upd, is_nil, max_connections, find_ext_connection_by_out_conn_id,
}
use teleproxy.ExtConn.Lists.{upd-same, upd-other}
use teleproxy.ExtConn.Wf.{HeadsAgree, IsLive, IsTable, Grows}
use teleproxy.ExtConn.Calls.{
  Notice, get_conn_tag, close_out, mtfront_client_close, close_in, mtproto_proxy_rpc_close,
}
use teleproxy.ExtConn.Calls.Pruned.{find-pruned, pruned-is_nil}
use teleproxy.ExtConn.Calls.Relinked.{relinked-SlotsAgree, relinked-ChainsAgree, relinked-find}
use teleproxy.ExtConn.Calls.Loops.{
  all_notices, close_out-returned, close_in-returned, out_list-picks, in_list-picks,
}

-- The heads and the connections' tags are no part of what is required of a table.
with_heads-IsTable :
    (u : Table) (ins outs : ℕ → Bool) (tags : ℕ → ℤ)
    → IsTable u
    → HeadsAgree (record u { in_ready = ins; out_ready = outs; extra_int = tags })
    → IsTable (record u { in_ready = ins; out_ready = outs; extra_int = tags })
with_heads-IsTable u ins outs tags w heads =
    let l = w.lists in
    record {
      slots = relinked-SlotsAgree u ins u.in_list outs u.out_list tags w.slots;
      chains = relinked-ChainsAgree u ins u.in_list outs u.out_list tags w.chains;
      lists = record {
        in_linked = l.in_linked;
        in_live = l.in_live;
        in_same = l.in_same;
        in_distinct = l.in_distinct;
        in_range = l.in_range;
        out_linked = l.out_linked;
        out_live = l.out_live;
        out_same = l.out_same;
        out_distinct = l.out_distinct;
        out_range = l.out_range;
      };
      heads = heads;
    }

-- A head is unlinked that no live block hangs on.
out_closed-HeadsAgree :
    (u : Table) (fd : ℕ) (tags : ℕ → ℤ)
    → HeadsAgree u
    → ((k : ℕ) → IsLive u k → (u.ext k).out_fd ≢ fd)
    → HeadsAgree
        (record u { in_ready = u.in_ready; out_ready = upd u.out_ready fd false; extra_int = tags })
out_closed-HeadsAgree u fd tags w none_left = record {
  in_open = w.in_open;
  out_open = λ k l. upd-other u.out_ready fd false (none_left k l) ∙ w.out_open k l;
}

in_closed-HeadsAgree :
    (u : Table) (fd : ℕ) (tags : ℕ → ℤ)
    → HeadsAgree u
    → ((k : ℕ) → IsLive u k → (u.ext k).in_fd ≢ fd)
    → HeadsAgree
        (record u { in_ready = upd u.in_ready fd false; out_ready = u.out_ready; extra_int = tags })
in_closed-HeadsAgree u fd tags w none_left = record {
  in_open = λ k l. upd-other u.in_ready fd false (none_left k l) ∙ w.in_open k l;
  out_open = w.out_open;
}

module _ (lrand48 : ℕ → ℕ) (is_open : Conn → Bool) (c : Conn) (t : Table) (w : IsTable t)
    (range : c.fd < max_connections) where
  in_range : not (ltb c.fd max_connections) ≡ false
  in_range = ground (arith, range)

  tag_ne_zero : (get_conn_tag c == 0) ≡ false
  tag_ne_zero = ground arith

  same_tag : (get_conn_tag c == get_conn_tag c) ≡ true
  same_tag = ground arith

  out_closed :
      (v : Table) (notes : List Notice)
      → t.extra_int c.fd ≡ pos (get_conn_tag c)
      → t.out_ready c.fd ≡ true
      → close_out lrand48 is_open c.fd (t.out_list c.fd) t ≡ returned (v, notes)
      → is_nil (v.out_list c.fd) ≡ true
      → mtfront_client_close lrand48 is_open c t
        ≡ returned (
          record v {
            out_ready = upd v.out_ready c.fd false;
            extra_int = upd v.extra_int c.fd (pos 0);
          },
          notes,
        )
  unfolding mtfront_client_close
  out_closed v notes tag ready e nil = rw (in_range, tag, tag_ne_zero, same_tag, ready, e, nil) refl

  in_closed :
      (v : Table) (notes : List Notice)
      → t.extra_int c.fd ≡ negsuc (get_conn_tag c - 1)
      → t.in_ready c.fd ≡ true
      → close_in lrand48 is_open c.fd (t.in_list c.fd) t ≡ returned (v, notes)
      → is_nil (v.in_list c.fd) ≡ true
      → mtproto_proxy_rpc_close lrand48 is_open c t
        ≡ returned (
          record v {
            in_ready = upd v.in_ready c.fd false;
            extra_int = upd v.extra_int c.fd (pos 0);
          },
          notes,
        )
  unfolding mtproto_proxy_rpc_close
  in_closed v notes tag ready e nil =
      let same : (get_conn_tag c - 1 + 1 == get_conn_tag c) ≡ true = ground arith in
      rw (in_range, tag, same, ready, e, nil) refl

  -- When a connection to a server is lost, no assertion fails. The table stays well-formed, no slot's counter goes back, the numbers
  -- of the external connections tied to the server lead nowhere, every other number leads where it
  -- led, and the clients of the removed connections whose own connections are open are failed.
  pub mtfront_client_close-IsTable :
      t.extra_int c.fd ≡ pos (get_conn_tag c)
      → t.out_ready c.fd ≡ true
      → (u : Table) × (mtfront_client_close lrand48 is_open c t
          ≡ returned (u, all_notices is_open 2 t (t.out_list c.fd)))
        × IsTable u
        × Grows t u
        × (u.out_ready c.fd ≡ false)
        × (u.extra_int c.fd ≡ pos 0)
        × ((id : ℕ)
            → find_ext_connection_by_out_conn_id id u ≡ (
                find_ext_connection_by_out_conn_id id t >>= λ k.
                returned (if (t.ext k).out_fd == c.fd then 0 else k)))
  mtfront_client_close-IsTable tag ready =
      let l = w.lists in
      let r =
        close_out-returned lrand48 is_open c.fd (t.out_list c.fd) t w (l.out_distinct c.fd)
          (λ k m. (l.out_live c.fd k m, l.out_same c.fd k m)) in
      let v = r.0 in
      let picks = out_list-picks c.fd t l in
      let empty =
        pruned-is_nil (λ b. b.out_fd == c.fd) (v.out_list c.fd) (t.out_list c.fd) t v r.2 picks
          (λ k m. (
            r.2.table.lists.out_live c.fd k m,
            let q = r.2.table.lists.out_same c.fd k m in ground (arith, q),
          )) in
      let none_left : (k : ℕ) → IsLive v k → (v.ext k).out_fd ≢ c.fd = λ k m e.
        let q = sym (r.2.left k m).0 ∙ picks k (r.2.left k m).1 in
        let o = ap (λ b. b.out_fd) (sym (r.2.same k (r.2.left k m).0)) ∙ e in
        ground (arith, q, o) in
      let u : Table = record v {
        out_ready = upd v.out_ready c.fd false;
        extra_int = upd v.extra_int c.fd (pos 0);
      } in
      (
        u,
        out_closed v _ tag ready r.1 empty,
        with_heads-IsTable v v.in_ready u.out_ready u.extra_int r.2.table
            (out_closed-HeadsAgree v c.fd u.extra_int r.2.table.heads none_left),
        λ s. let q = r.2.ids s in ground (arith, q),
        upd-same v.out_ready c.fd false,
        upd-same v.extra_int c.fd (pos 0),
        λ id.
            relinked-find v v.in_ready v.in_list u.out_ready v.out_list u.extra_int id
            ∙ find-pruned (λ b. b.out_fd == c.fd) (t.out_list c.fd) t v id w r.2 picks,
      )

  -- When a client's connection is lost, no assertion fails. The table stays well-formed, no slot's counter goes back, the number of the
  -- client's external connection leads nowhere, every other number leads where it led, and the server
  -- of the removed connection is told so if its connection is open.
  pub mtproto_proxy_rpc_close-IsTable :
      t.extra_int c.fd ≡ negsuc (get_conn_tag c - 1)
      → t.in_ready c.fd ≡ true
      → (u : Table) × (mtproto_proxy_rpc_close lrand48 is_open c t
          ≡ returned (u, all_notices is_open 1 t (t.in_list c.fd)))
        × IsTable u
        × Grows t u
        × (u.in_ready c.fd ≡ false)
        × (u.extra_int c.fd ≡ pos 0)
        × ((id : ℕ)
            → find_ext_connection_by_out_conn_id id u ≡ (
                find_ext_connection_by_out_conn_id id t >>= λ k.
                returned (if (t.ext k).in_fd == c.fd then 0 else k)))
  mtproto_proxy_rpc_close-IsTable tag ready =
      let l = w.lists in
      let r =
        close_in-returned lrand48 is_open c.fd (t.in_list c.fd) t w (l.in_distinct c.fd)
          (λ k m. (l.in_live c.fd k m, l.in_same c.fd k m)) in
      let v = r.0 in
      let picks = in_list-picks c.fd t l in
      let empty =
        pruned-is_nil (λ b. b.in_fd == c.fd) (v.in_list c.fd) (t.in_list c.fd) t v r.2 picks
          (λ k m. (
            r.2.table.lists.in_live c.fd k m,
            let q = r.2.table.lists.in_same c.fd k m in ground (arith, q),
          )) in
      let none_left : (k : ℕ) → IsLive v k → (v.ext k).in_fd ≢ c.fd = λ k m e.
        let q = sym (r.2.left k m).0 ∙ picks k (r.2.left k m).1 in
        let o = ap (λ b. b.in_fd) (sym (r.2.same k (r.2.left k m).0)) ∙ e in ground (arith, q, o) in
      let u : Table = record v {
        in_ready = upd v.in_ready c.fd false;
        extra_int = upd v.extra_int c.fd (pos 0);
      } in
      (
        u,
        in_closed v _ tag ready r.1 empty,
        with_heads-IsTable v u.in_ready v.out_ready u.extra_int r.2.table
            (in_closed-HeadsAgree v c.fd u.extra_int r.2.table.heads none_left),
        λ s. let q = r.2.ids s in ground (arith, q),
        upd-same v.in_ready c.fd false,
        upd-same v.extra_int c.fd (pos 0),
        λ id.
            relinked-find v u.in_ready v.in_list v.out_ready v.out_list u.extra_int id
            ∙ find-pruned (λ b. b.in_fd == c.fd) (t.in_list c.fd) t v id w r.2 picks,
      )
