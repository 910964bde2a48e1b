-- ===== src/ExtConn/Calls/Create.antt =====
-- src/mtproto/mtproto-proxy.c: `create_ext_connection`.
use teleproxy.Base.{
  ℕ, ◌+◌, ◌/◌, ◌*◌, ◌^◌, ◌≤◌, ◌<◌, Bool, true, false, not, ◌&&◌, arith, ltb, ◌==◌, if◌then◌else◌,
  none, ◌≡◌, ◌≢◌, refl, sym, ap, ◌∙◌, Bool-cases, Option-cases, inl, inr,
}
use teleproxy.Timers.{returned}
use teleproxy.ExtConn.{
  Table, Conn, found, upd, mem, is_nil, max_connections, slot_of, ext_conn_table_size,
  ext_conn_hash, find_in_chain, linked, placed, next_id, free_slot, create_new,
  get_ext_connection_by_in_conn_id, find_ext_connection_by_out_conn_id,
}
use teleproxy.ExtConn.Lists.{mem-cons, List-cases, upd-same, upd-other, find_in_chain-some}
use teleproxy.ExtConn.Wf.{IsLive, IsTable, Grows}
use teleproxy.ExtConn.Find.{find-IsLive, find-absent, find-cases}
use teleproxy.ExtConn.Calls.{tie, create_ext_connection}
use teleproxy.ExtConn.Calls.Created.{
  new_block, CanCreate, IsAdded, new-IsLive, IsLive-ne_new, old-IsLive, new_block-IsLive, slot_old,
  added-SlotsAgree,
}
use teleproxy.ExtConn.Calls.Linked.{added-IsTable}
use teleproxy.ExtConn.Calls.Search.{
  tried, slot-next_id, free_slot-returned, next_id-ne_zero, next_id-gt,
}

module _ (client server : Conn) (auth_key_id s : ℕ) (t u : Table)
    (a : IsAdded client server auth_key_id s t u) (c : CanCreate client server s t)
    (w : IsTable t) where
  -- The new number leads to no block yet.
  pub new_id-absent : find_ext_connection_by_out_conn_id (next_id (t.slot_id s) s) t ≡ returned 0
  new_id-absent = find-absent t w.slots _ (λ k l e.
      (slot_old client server auth_key_id s t u a c k w.slots l).1
        (ap slot_of e ∙ slot-next_id (t.slot_id s) s c.slot_bound))

  new_id-gt :
      t.slot_id s + 2 * ext_conn_table_size ≤ 2 ^ 64
      → t.slot_id (slot_of (next_id (t.slot_id s) s)) < next_id (t.slot_id s) s
  new_id-gt b =
      rw (slot-next_id (t.slot_id s) s c.slot_bound) (next_id-gt (t.slot_id s) s c.slot_bound b)

  grown : t.slot_id s + 2 * ext_conn_table_size ≤ 2 ^ 64 → Grows t u
  grown b i = elim (Bool-cases (i == s)) [
    | inl e ↦
        let q : i ≡ s = ground (arith, e) in
        let g = next_id-gt (t.slot_id s) s c.slot_bound b in
        let n = ap u.slot_id q ∙ (a.ids s ∙ upd-same t.slot_id s (next_id (t.slot_id s) s)) in
        let o = ap t.slot_id q in ground (arith, g, n, o)
    | inr e ↦
        let n = a.ids i ∙ upd-other t.slot_id s (next_id (t.slot_id s) s) (ground (arith, e)) in
        ground (arith, n)
  ]

  pub find-added :
      (id : ℕ)
      → find_ext_connection_by_out_conn_id id u ≡ (
          if id == next_id (t.slot_id s) s
          then returned t.next_block
          else find_ext_connection_by_out_conn_id id t)
  find-added id =
      let x = t.next_block in
      let w' = added-SlotsAgree client server auth_key_id s t u a c w.slots in
      let new = next_id (t.slot_id s) s in
      let of_new = ap (λ b. b.out_conn_id) a.ext_new in
      elim (Bool-cases (id == new)) [
        | inl e ↦
            let q : id ≡ new = ground (arith, e) in
            rw e (
              ap (λ i. find_ext_connection_by_out_conn_id i u) (q ∙ sym of_new)
              ∙ find-IsLive u w' x (new_block-IsLive client server auth_key_id s t u a c))
        | inr n ↦ elim (find-cases t w.slots id) [
          | inl f ↦
              let same =
                ap (λ b. b.out_conn_id)
                  (a.ext_old f.0
                    (IsLive-ne_new client server auth_key_id s t u a c f.0 w.slots f.1)) in
              rw n (
                ap (λ i. find_ext_connection_by_out_conn_id i u) (sym (same ∙ f.2))
                ∙ (find-IsLive u w' f.0
                      (old-IsLive client server auth_key_id s t u a c f.0 w.slots f.1)
                    ∙ sym (
                        ap (λ i. find_ext_connection_by_out_conn_id i t) (sym f.2)
                        ∙ find-IsLive t w.slots f.0 f.1)))
          | inr o ↦ rw n (
              find-absent u w' id (λ k l e.
                elim (new-IsLive client server auth_key_id s t u a c k l) [
                  | inl z ↦
                      let q = sym e ∙ (ap (λ j. (u.ext j).out_conn_id) z ∙ of_new) in
                      ground (arith, q, n)
                  | inr z ↦ o k z.1 (ap (λ b. b.out_conn_id) (sym (a.ext_old k z.0)) ∙ e)
                ])
              ∙ sym (find-absent t w.slots id o))
        ]
      ]

upd-true : (f : ℕ → Bool) (p i : ℕ) → f i ≡ true → upd f p true i ≡ true
upd-true f p i e = ground (arith, e)

-- A connection of the client to the server can be created: the `n`th slot that is tried is free.
pub record Admits (lrand48 : ℕ → ℕ) (fuel n : ℕ) (client server : Conn) (t : Table) : Type 0 where
  pub client_fd : (0 < client.fd) × (client.fd < max_connections)
  pub server_fd : (0 < server.fd) × (server.fd < max_connections)
  pub distinct : server.fd ≢ client.fd
  pub server_ready : t.out_ready server.fd ≡ true
  pub room : t.ext_connections < ext_conn_table_size / 2
  pub no_other : (k : ℕ) → IsLive t k → (t.ext k).in_fd ≢ client.fd
  pub enough_fuel : n < fuel
  pub try_free : t.ref (tried lrand48 (slot_of client.fd) t.draws n) ≡ 0
  pub no_wrap : (s : ℕ) → s < ext_conn_table_size → t.slot_id s + 2 * ext_conn_table_size ≤ 2 ^ 64

module _ (lrand48 : ℕ → ℕ) (is_open : Conn → Bool) (fuel n : ℕ) (client server : Conn)
    (auth_key_id : ℕ) (t : Table) (w : IsTable t) (m : Admits lrand48 fuel n client server t) where
  none_found : find_in_chain t client.fd 0 (t.hash_chain (ext_conn_hash client.fd 0)) ≡ none
  none_found =
      let chain = t.hash_chain (ext_conn_hash client.fd 0) in
      elim (Option-cases (find_in_chain t client.fd 0 chain)) [
        | inl e ↦ e
        | inr f ↦
            let q = find_in_chain-some t client.fd 0 chain f.1 in
            absurd (m.no_other f.0 (w.chains.chain_live _ f.0 q.0) q.1)
      ]

  no_list : is_nil (t.in_list client.fd) ≡ true
  no_list = elim (List-cases (t.in_list client.fd)) [
    | inl e ↦ rw e refl
    | inr c ↦
        let k : mem c.0 (t.in_list client.fd) ≡ true =
          ap (mem c.0) c.2 ∙ rw (mem-cons c.0 c.0 c.1) (ground arith) in
        absurd (m.no_other c.0 (w.lists.in_live client.fd c.0 k) (w.lists.in_same client.fd c.0 k))
  ]

  created-IsAdded :
      (s draws : ℕ)
      → IsAdded client server auth_key_id s t (
          tie t.next_block server auth_key_id
            (placed t.next_block s draws (linked (ext_conn_hash client.fd 0) client 0 t)))
  created-IsAdded s draws =
      let same : (t.next_block == t.next_block) ≡ true = ground arith in
      let z = m.client_fd in
      let z' : (client.fd == 0) ≡ false = ground (arith, z) in
      record {
        next = refl;
        ext_new = rw same refl;
        ext_old = λ k n. let e : (k == t.next_block) ≡ false = ground (arith, n) in rw e refl;
        refs = λ i. refl;
        ids = λ i. refl;
        chain = λ i. refl;
        in_heads = λ i r. rw z' (upd-true t.in_ready client.fd i r);
        in_head_new = rw z' (upd-same t.in_ready client.fd true);
        out_heads = λ i. refl;
        ins = λ i. rw z' refl;
        outs = λ i. refl;
      }

  created :
      (r : ℕ × ℕ)
      → free_slot lrand48 fuel t.ref (slot_of client.fd) t.draws ≡ returned r
      → r.0 < ext_conn_table_size
      → create_new lrand48 fuel (ext_conn_hash client.fd 0) client 0 t
        ≡ returned (
          placed t.next_block r.0 r.1 (linked (ext_conn_hash client.fd 0) client 0 t),
          found t.next_block,
        )
  unfolding create_new
  created r e b =
      let z = m.client_fd in
      let no_wrap = next_id-ne_zero (t.slot_id r.0) r.0 b (m.no_wrap r.0 b) in
      let l = no_list in
      let room = m.room in
      let full : not (ltb t.ext_connections (ext_conn_table_size / 2)) ≡ false =
        ground (arith, room) in
      let range : not (ltb client.fd max_connections) ≡ false = ground (arith, z) in
      let linked_before : (not (client.fd == 0) && not (is_nil (t.in_list client.fd))) ≡ false =
        ground (arith, l) in
      let wrapped : (next_id (t.slot_id r.0) r.0 == 0) ≡ false = ground (arith, no_wrap) in
      rw (full, range, linked_before, e, wrapped) refl

  got :
      (r : ℕ × ℕ)
      → free_slot lrand48 fuel t.ref (slot_of client.fd) t.draws ≡ returned r
      → r.0 < ext_conn_table_size
      → get_ext_connection_by_in_conn_id lrand48 fuel client 0 2 t
        ≡ returned (
          placed t.next_block r.0 r.1 (linked (ext_conn_hash client.fd 0) client 0 t),
          found t.next_block,
        )
  unfolding get_ext_connection_by_in_conn_id
  got r e b = let f = none_found in rw (get_ext_connection_by_in_conn_id, f) (created r e b)

  create_ext_connection-returned :
      (r : ℕ × ℕ)
      → free_slot lrand48 fuel t.ref (slot_of client.fd) t.draws ≡ returned r
      → r.0 < ext_conn_table_size
      → create_ext_connection lrand48 is_open fuel client 0 server auth_key_id t
        ≡ returned (
          tie t.next_block server auth_key_id
              (placed t.next_block r.0 r.1 (linked (ext_conn_hash client.fd 0) client 0 t)),
          t.next_block,
        )
  unfolding create_ext_connection
  create_ext_connection-returned r e b =
      let s = m.server_fd in
      let d = m.distinct in
      let range : not (ltb server.fd max_connections) ≡ false = ground (arith, s) in
      let other : (server.fd == client.fd) ≡ false = ground (arith, d) in
      let ready = m.server_ready in rw (got r e b, range, other, ready) refl

  -- A client without an external connection gets one to a server that is ready, and no assertion fails,
  -- when fewer than half the slots are taken, the search for a slot reaches a free one within its fuel and
  -- no slot's counter is within two rounds of its wrap-around. The table stays well-formed, the new block ties the client
  -- to the server under a number that led nowhere and is greater than all earlier ones of its slot, no
  -- slot's counter goes back, and every other number leads where it led.
  pub create_ext_connection-IsTable :
      (u : Table) × (id : ℕ) × (create_ext_connection lrand48 is_open fuel client 0 server
          auth_key_id t
        ≡ returned (u, t.next_block))
      × IsTable u
      × Grows t u
      × (u.ext t.next_block ≡ new_block client server auth_key_id id)
      × (t.slot_id (slot_of id) < id)
      × (find_ext_connection_by_out_conn_id id t ≡ returned 0)
      × ((other : ℕ)
          → find_ext_connection_by_out_conn_id other u ≡ (
              if other == id
              then returned t.next_block
              else find_ext_connection_by_out_conn_id other t))
  create_ext_connection-IsTable =
      let f =
        free_slot-returned lrand48 t.ref fuel n (slot_of client.fd) t.draws m.enough_fuel
          (omega arith) m.try_free in
      let s = f.0.0 in
      let u =
        tie t.next_block server auth_key_id
          (placed t.next_block s f.0.1 (linked (ext_conn_hash client.fd 0) client 0 t)) in
      let a = created-IsAdded s f.0.1 in
      let c : CanCreate client server s t = record {
        client_fd = m.client_fd;
        server_fd = m.server_fd;
        no_other = m.no_other;
        server_ready = m.server_ready;
        slot_bound = f.3;
        slot_free = f.2;
        id_ne_zero = next_id-ne_zero (t.slot_id s) s f.3 (m.no_wrap s f.3);
      } in
      (
        u,
        next_id (t.slot_id s) s,
        create_ext_connection-returned f.0 f.1 f.3,
        added-IsTable client server auth_key_id s t u a c w,
        grown client server auth_key_id s t u a c w (m.no_wrap s f.3),
        a.ext_new,
        new_id-gt client server auth_key_id s t u a c w (m.no_wrap s f.3),
        new_id-absent client server auth_key_id s t u a c w,
        find-added client server auth_key_id s t u a c w,
      )
