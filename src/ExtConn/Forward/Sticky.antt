-- ===== src/ExtConn/Forward/Sticky.antt =====
-- src/mtproto/mtproto-proxy.c: a client's queries stay on the connection of its external connection.
use teleproxy.Base.{
  ℕ, ◌+◌, ◌≤◌, Bool, true, false, not, ◌||◌, List, [], ◌∷◌, arith, ltb, ◌==◌, Option, some, ◌≡◌,
  ◌≢◌, refl, sym, ap, subst, ◌∙◌, inl, inr, length, drop,
}
use teleproxy.Timers.{returned}
use teleproxy.ExtConn.{Table, Conn, mem, max_connections, get_ext_connection_by_in_fd}
use teleproxy.ExtConn.Lists.{mem-nil, mem-cons, distinct, List-cases, cons-distinct, upd-same}
use teleproxy.ExtConn.Wf.{IsLive, IsTable}
use teleproxy.ExtConn.Find.{IsLive-ne_zero}
use teleproxy.ExtConn.Calls.{send_message}
use teleproxy.ExtConn.Serve.{
  Proxy, Served, int_at, long_at, client_of, process_client_packet, rpc_proxy_ans,
}
use teleproxy.ExtConn.Serve.Answers.{process_client_packet-answer}
use teleproxy.ExtConn.Forward.{
  Queries, server_of, rekey, continue_query, query_connection, query_flags,
}
use teleproxy.ExtConn.Forward.Rekeyed.{rekey-IsTable}

-- The only block of a client's list.
only_block : (t : Table) → IsTable t → (k : ℕ) → IsLive t k → t.in_list (t.ext k).in_fd ≡ k ∷ []
only_block t w k l =
    let fd = (t.ext k).in_fd in
    let same : (j : ℕ) → mem j (t.in_list fd) ≡ true → j ≡ k =
      λ j m. w.chains.unique j k (w.lists.in_live fd j m) l (w.lists.in_same fd j m) in
    elim (List-cases (t.in_list fd)) [
      | inl e ↦
          let m = sym (mem-nil k) ∙ (ap (mem k) (sym e) ∙ w.lists.in_linked k l) in
          absurd (ground (arith, m))
      | inr c ↦
          let head = same c.0 (ap (mem c.0) c.2 ∙ rw (mem-cons c.0 c.0 c.1) (ground arith)) in
          elim (List-cases c.1) [
            | inl e ↦ c.2 ∙ (ap (λ xs. c.0 ∷ xs) e ∙ ap (λ j. j ∷ []) head)
            | inr d ↦
                let in_rest : mem d.0 c.1 ≡ true =
                  ap (mem d.0) d.2 ∙ rw (mem-cons d.0 d.0 d.1) (ground arith) in
                let m : mem d.0 (c.0 ∷ c.1) ≡ true =
                  rw (mem-cons d.0 c.0 c.1, in_rest) (ground arith) in
                let second = same d.0 (ap (mem d.0) c.2 ∙ m) in
                let twice = sym (ap (λ j. mem j c.1) (second ∙ sym head)) ∙ in_rest in
                let once =
                  (cons-distinct c.0 c.1 (sym (ap distinct c.2) ∙ w.lists.in_distinct fd)).0 in
                absurd (ground (arith, once, twice))
          ]
    ]

found-in_fd :
    (t : Table)
    → IsTable t
    → (k : ℕ) → IsLive t k
    → get_ext_connection_by_in_fd (t.ext k).in_fd t ≡ returned k
unfolding get_ext_connection_by_in_fd
found-in_fd t w k l =
    let r = w.lists.in_range k l in
    let o = w.heads.in_open k l in
    let range : not (ltb (t.ext k).in_fd max_connections) ≡ false = ground (arith, r) in
    let same : ((t.ext k).in_fd == (t.ext k).in_fd) ≡ true = ground arith in
    rw (range, o, only_block t w k l, same) refl

module _ (lrand48 : ℕ → ℕ) (is_open has_target is_mtfront is_http is_compact : Conn → Bool)
    (choose : ℕ → Option Conn) (fuel flags auth_key_id k : ℕ) (target : Bool) (c : Conn)
    (q : Queries) (w : IsTable q.table) (l : IsLive q.table k) where
  continued :
      (all_flags : ℕ)
      → is_open (server_of (q.table.ext k)) ≡ true
      → has_target (server_of (q.table.ext k)) ≡ true
      → continue_query lrand48 is_open has_target is_mtfront is_http choose fuel c target all_flags
          auth_key_id k q
        ≡ returned (
          record q {
            table = rekey k auth_key_id q.table;
            tot_forwarded_queries = q.tot_forwarded_queries + 1;
          },
          [],
          some (server_of (q.table.ext k), k),
        )
  unfolding continue_query
  continued all_flags o h =
      let r = w.lists.out_range k l in
      let range : ((q.table.ext k).out_fd == 0 || not (ltb (q.table.ext k).out_fd max_connections))
          ≡ false =
        ground (arith, r) in
      let same : (k == k) ≡ true = ground arith in rw (same, range, o, h) refl

  -- What is chosen for a client that has an external connection to a server with a target.
  queried :
      c.fd ≡ (q.table.ext k).in_fd
      → is_open (server_of (q.table.ext k)) ≡ true
      → has_target (server_of (q.table.ext k)) ≡ true
      → query_connection lrand48 is_open has_target is_mtfront is_http choose fuel c target flags
          auth_key_id q
        ≡ returned (
          record q {
            table = rekey k auth_key_id q.table;
            tot_forwarded_queries = q.tot_forwarded_queries + 1;
          },
          [],
          some (server_of (q.table.ext k), k),
        )
  unfolding query_connection
  queried e o h =
      let f : get_ext_connection_by_in_fd c.fd q.table ≡ returned k =
        ap (λ fd. get_ext_connection_by_in_fd fd q.table) e ∙ found-in_fd q.table w k l in
      let z = IsLive-ne_zero q.table w.slots k l in
      let n : (k == 0) ≡ false = ground (arith, z) in
      rw (f, n)
        (continued (query_flags lrand48 is_open has_target is_mtfront is_http choose flags c q) o h)

  -- A client's query goes to the server that its external connection is tied to, as long as that server's
  -- connection is open and has a target, and the table stays well-formed. The server's answer under
  -- the external connection's number then goes to that client, if its connection is open, and nothing
  -- else is sent.
  pub query_connection-process_client_packet :
      (body : List ℕ) (p : Proxy)
      → c ≡ client_of (q.table.ext k)
      → is_open c ≡ true
      → is_open (server_of (q.table.ext k)) ≡ true
      → has_target (server_of (q.table.ext k)) ≡ true
      → p.table ≡ rekey k auth_key_id q.table
      → 12 ≤ length body
      → long_at 4 body ≡ (q.table.ext k).out_conn_id
      → (query_connection lrand48 is_open has_target is_mtfront is_http choose fuel c target flags
            auth_key_id q
          ≡ returned (
            record q { table = p.table; tot_forwarded_queries = q.tot_forwarded_queries + 1 },
            [],
            some (server_of (q.table.ext k), k),
          ))
        × IsTable p.table
        × (process_client_packet lrand48 is_open is_compact rpc_proxy_ans body
              (server_of (q.table.ext k))
              p
            ≡ returned (
              record p { tot_forwarded_responses = p.tot_forwarded_responses + 1 },
              send_message c 0 (drop 12 body) (int_at 0 body) ∷ [],
              true,
            ))
  query_connection-process_client_packet body p e alive o h table long id =
      let w' : IsTable p.table =
        subst IsTable (sym table) (rekey-IsTable k auth_key_id q.table w) in
      let block : p.table.ext k ≡ record (q.table.ext k) { auth_key_id = auth_key_id } =
        ap (λ t. t.ext k) table ∙ upd-same q.table.ext k _ in
      let l' : IsLive p.table k = subst (λ b. b.out_conn_id ≢ 0) (sym block) l in
      let to_c : client_of (p.table.ext k) ≡ c = ap client_of block ∙ sym e in
      let plain = ap (λ b. b.in_conn_id) block ∙ w.chains.plain k l in
      let a =
        process_client_packet-answer lrand48 is_open is_compact (server_of (q.table.ext k)) body p
          w' k l' (ap (λ b. b.out_fd) block) (ap (λ b. b.out_gen) block) (ap is_open to_c ∙ alive)
          long (id ∙ ap (λ b. b.out_conn_id) (sym block)) in
      let sent : (x : Conn) (i : ℕ) → Served = λ x i. returned (
        record p { tot_forwarded_responses = p.tot_forwarded_responses + 1 },
        send_message x i (drop 12 body) (int_at 0 body) ∷ [],
        true,
      ) in
      (
        subst
            (λ t.
              query_connection lrand48 is_open has_target is_mtfront is_http choose fuel c target
                flags auth_key_id q
              ≡ returned (
                record q { table = t; tot_forwarded_queries = q.tot_forwarded_queries + 1 },
                [],
                some (server_of (q.table.ext k), k),
              ))
            (sym table) (queried (ap (λ d. d.fd) e) o h),
        w',
        a ∙ (ap (λ x. sent x (p.table.ext k).in_conn_id) to_c ∙ ap (sent c) plain),
      )
