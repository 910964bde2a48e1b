-- ===== src/ExtConn/Serve/Answers.antt =====
-- src/mtproto/mtproto-proxy.c: whom a middle-end server's packet reaches.
use teleproxy.Base.{
  ℕ, ◌+◌, ◌≤◌, Bool, true, false, not, ◌&&◌, List, [], ◌∷◌, arith, leb, ◌==◌, Option, none, some,
  length, drop, ◌≡◌, ◌≢◌, refl, sym, ap, subst, ◌∙◌, Bool-cases, inl, inr, All,
}
use teleproxy.Timers.{returned}
use teleproxy.ExtConn.{Table, ExtConnection, Conn, find_ext_connection_by_out_conn_id}
use teleproxy.ExtConn.Wf.{IsLive, IsTable}
use teleproxy.ExtConn.Find.{find-cases, find-IsLive, find-absent, IsLive-ne_zero}
use teleproxy.ExtConn.Calls.{
  Notice, remote_closed, fail_client, send_message, send_confirmation, notices,
}
use teleproxy.ExtConn.Calls.Remove.{notices-client, remove_ext_connection-IsTable}
use teleproxy.ExtConn.Serve.{
  Proxy, Served, int_at, long_at, client_of, receiver, answer_found, ack_found, serve_answer,
  serve_ack, serve_close, process_client_packet, rpc_pong, rpc_proxy_ans, rpc_simple_ack,
  rpc_close_ext,
}

-- A live external connection of the client, and one that ties it to the server.
abbrev pub IsClient : Table → Conn → Type 0
IsClient t client = (k : ℕ) × IsLive t k × (client ≡ client_of (t.ext k))

abbrev pub IsTied : Table → Conn → Conn → Type 0
IsTied t server client =
    (k : ℕ) × IsLive t k
    × (client ≡ client_of (t.ext k))
    × ((t.ext k).out_fd ≡ server.fd)
    × ((t.ext k).out_gen ≡ server.generation)

-- What a packet of the server may lead to.
pub MaySend : Table → Conn → Notice → Type 0
MaySend t server (remote_closed to id) = to ≡ server
MaySend t server (fail_client client) = IsClient t client
MaySend t server (send_message client in_conn_id payload flags) = IsTied t server client
MaySend t server (send_confirmation client confirm) = IsTied t server client

-- The packet is handled to its end, within what is allowed.
abbrev pub IsServed : Table → Conn → Served → Type 0
IsServed t server s =
    (p : Proxy) × (notes : List Notice) × (taken : Bool) × (s ≡ returned (p, notes, taken))
    × IsTable p.table
    × All (MaySend t server) notes

receiver-some :
    (is_open : Conn → Bool) (server : Conn) (b : ExtConnection) (k : ℕ) {c : Conn}
    → receiver is_open server b k ≡ some c
    → (c ≡ client_of b) × (b.out_fd ≡ server.fd) × (b.out_gen ≡ server.generation) × (k ≢ 0)
unfolding receiver
receiver-some is_open server b k {c} e =
    elim (Bool-cases (
      not (k == 0)
      && (b.out_fd == server.fd && (b.out_gen == server.generation && is_open (client_of b))))) [
        | inl h ↦
            let e' = rw h at e in
            (
              sym (ap (λ o. elim o [ some x ↦ x | none ↦ c ]) e'),
              ground (arith, h),
              ground (arith, h),
              ground (arith, h),
            )
        | inr h ↦ let e' = rw h at e in absurd (ground (arith, e'))
      ]

-- What a number leads to.
find-result :
    (t : Table) (id : ℕ)
    → IsTable t
    → (k : ℕ) × (find_ext_connection_by_out_conn_id id t ≡ returned k) × (k ≢ 0 → IsLive t k)
find-result t id w = elim (find-cases t w.slots id) [
  | inl f ↦ (
    f.0,
    ap (λ i. find_ext_connection_by_out_conn_id i t) (sym f.2) ∙ find-IsLive t w.slots f.0 f.1,
    λ z. f.1,
  )
  | inr n ↦ (0, find-absent t w.slots id n, λ z. absurd (z refl))
]

notices-MaySend :
    (is_open : Conn → Bool) (t : Table) (server : Conn) (k : ℕ)
    → IsLive t k
    → All (MaySend t server) (notices is_open (t.ext k) 2)
unfolding MaySend
notices-MaySend is_open t server k l = elim (notices-client is_open (t.ext k)) [
  | inl e ↦ subst (All (MaySend t server)) (sym e) tt
  | inr e ↦ subst (All (MaySend t server)) (sym e) ((k, l, refl), tt)
]

module _ (lrand48 : ℕ → ℕ) (is_open : Conn → Bool) (is_compact : Conn → Bool) (server : Conn)
    (body : List ℕ) (p : Proxy) (w : IsTable p.table) where
  answered :
      (k : ℕ) (o : Option Conn)
      → receiver is_open server (p.table.ext k) k ≡ o
      → (k ≢ 0 → IsLive p.table k)
      → IsServed p.table server (answer_found body server p k o)
  unfolding answer_found MaySend
  answered k none e l = (_, _, _, refl, w, (refl, tt))
  answered k (some c) e l =
      let r = receiver-some is_open server (p.table.ext k) k e in
      (_, _, _, refl, w, ((k, l r.3, r.0, r.1, r.2), tt))

  acknowledged :
      (k : ℕ) (o : Option Conn)
      → receiver is_open server (p.table.ext k) k ≡ o
      → (k ≢ 0 → IsLive p.table k)
      → IsServed p.table server (ack_found is_compact body server p k o)
  unfolding ack_found MaySend
  acknowledged k none e l = (_, _, _, refl, w, (refl, tt))
  acknowledged k (some c) e l =
      let r = receiver-some is_open server (p.table.ext k) k e in
      let plain = w.chains.plain k (l r.3) in
      let checked : not ((p.table.ext k).in_conn_id == 0) ≡ false = ground (arith, plain) in
      rw checked (_, _, _, refl, w, ((k, l r.3, r.0, r.1, r.2), tt))

  answer-IsServed : IsServed p.table server (serve_answer lrand48 is_open is_compact body server p)
  unfolding serve_answer
  answer-IsServed =
      let f = find-result p.table (long_at 4 body) w in
      rw f.1 (answered f.0 (receiver is_open server (p.table.ext f.0) f.0) refl f.2)

  ack-IsServed : IsServed p.table server (serve_ack lrand48 is_open is_compact body server p)
  unfolding serve_ack
  ack-IsServed =
      let f = find-result p.table (long_at 0 body) w in
      rw f.1 (acknowledged f.0 (receiver is_open server (p.table.ext f.0) f.0) refl f.2)

  close-IsServed : IsServed p.table server (serve_close lrand48 is_open is_compact body p)
  unfolding serve_close
  close-IsServed =
      let t = p.table in
      let f = find-result t (long_at 0 body) w in
      elim (Bool-cases (f.0 == 0)) [
        | inl z ↦ rw (serve_close, f.1, z) (_, _, _, refl, w, tt)
        | inr n ↦
            let l = f.2 (ground (arith, n)) in
            let r = remove_ext_connection-IsTable lrand48 is_open f.0 2 t w l in
            rw (serve_close, f.1, n, r.1)
              (_, _, _, refl, r.2, notices-MaySend is_open t server f.0 l)
      ]

  -- Whatever packet a middle-end server sends, no assertion fails and the table stays well-formed. Answers
  -- and acknowledgements are passed on only to a client that a live external connection ties to this
  -- server, by descriptor and generation; connections are reported closed only to this server; and a
  -- client is failed only if it has a live external connection.
  pub process_client_packet-IsServed :
      (op : ℕ)
      → IsServed p.table server (process_client_packet lrand48 is_open is_compact op body server p)
  unfolding process_client_packet
  process_client_packet-IsServed op =
      let len = length body + 4 in
      elim (Bool-cases (op == rpc_pong)) [
        | inl h ↦ rw h (p, [], true, refl, w, tt)
        | inr h ↦ elim (Bool-cases (op == rpc_proxy_ans && leb 16 len)) [
          | inl a ↦ rw (h, a) answer-IsServed
          | inr a ↦ elim (Bool-cases (op == rpc_simple_ack && len == 16)) [
            | inl b ↦ rw (h, a, b) ack-IsServed
            | inr b ↦ elim (Bool-cases (op == rpc_close_ext && len == 12)) [
              | inl c ↦ rw (h, a, b, c) close-IsServed
              | inr c ↦ rw (h, a, b, c) (p, [], false, refl, w, tt)
            ]
          ]
        ]
      ]

  -- An answer of the server that an external connection is tied to.
  pub process_client_packet-answer :
      (k : ℕ)
      → IsLive p.table k
      → (p.table.ext k).out_fd ≡ server.fd
      → (p.table.ext k).out_gen ≡ server.generation
      → is_open (client_of (p.table.ext k)) ≡ true
      → 12 ≤ length body
      → long_at 4 body ≡ (p.table.ext k).out_conn_id
      → process_client_packet lrand48 is_open is_compact rpc_proxy_ans body server p
        ≡ returned (
          record p { tot_forwarded_responses = p.tot_forwarded_responses + 1 },
          send_message
                (client_of (p.table.ext k))
                (p.table.ext k).in_conn_id
                (drop 12 body)
                (int_at 0 body)
              ∷ [],
          true,
        )
  unfolding process_client_packet serve_answer receiver answer_found
  process_client_packet-answer k l fd gen alive long id =
      let f : find_ext_connection_by_out_conn_id (long_at 4 body) p.table ≡ returned k =
        ap (λ i. find_ext_connection_by_out_conn_id i p.table) id
        ∙ find-IsLive p.table w.slots k l in
      let z = IsLive-ne_zero p.table w.slots k l in
      let n : (k == 0) ≡ false = ground (arith, z) in
      let same_fd : ((p.table.ext k).out_fd == server.fd) ≡ true = ground (arith, fd) in
      let same_gen : ((p.table.ext k).out_gen == server.generation) ≡ true = ground (arith, gen) in
      let enough : leb 16 (length body + 4) ≡ true = ground (arith, long) in
      rw (enough, f, n, same_fd, same_gen, alive) refl
