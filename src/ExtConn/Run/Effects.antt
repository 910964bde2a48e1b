-- ===== src/ExtConn/Run/Effects.antt =====
-- src/mtproto/mtproto-proxy.c: what one event does to the table.
use teleproxy.Base.{
  ℕ, ◌≤◌, Bool, false, List, arith, ◌==◌, if◌then◌else◌, ◌≡◌, refl, sym, ap, subst, ◌∙◌, Bool-cases,
  inl, inr,
}
use teleproxy.Timers.{returned, ◌>>=◌}
use teleproxy.ExtConn.{Table, Conn, slot_of, find_ext_connection_by_out_conn_id}
use teleproxy.ExtConn.Lists.{is_false}
use teleproxy.ExtConn.Wf.{IsTable, Grows}
use teleproxy.ExtConn.Calls.{
  Notice, create_ext_connection, remove_ext_connection, mtfront_client_ready,
  mtproto_proxy_rpc_ready, mtfront_client_close, mtproto_proxy_rpc_close,
}
use teleproxy.ExtConn.Calls.Create.{Admits, create_ext_connection-IsTable}
use teleproxy.ExtConn.Calls.Remove.{remove_ext_connection-IsTable, remove_ext_connection-IsLive}
use teleproxy.ExtConn.Calls.Close.{mtfront_client_close-IsTable, mtproto_proxy_rpc_close-IsTable}
use teleproxy.ExtConn.Calls.Relinked.{relinked-find}
use teleproxy.ExtConn.Calls.Ready.{
  out_opened, in_opened, out_opened-IsTable, in_opened-IsTable, mtfront_client_ready-returned,
  mtproto_proxy_rpc_ready-returned,
}
use teleproxy.ExtConn.Calls.Closed.{mtfront_client_close-returned, mtproto_proxy_rpc_close-returned}
use teleproxy.ExtConn.Outcomes.{returned-injective}
use teleproxy.ExtConn.Run.{
  Step, server_ready, client_ready, create, remove, server_lost, client_lost,
}

-- A number that leads nowhere and is not yet to come.
pub record IsRetired (id : ℕ) (t : Table) : Type 0 where
  pub past : id ≤ t.slot_id (slot_of id)
  pub absent : find_ext_connection_by_out_conn_id id t ≡ returned 0

-- What every event keeps.
pub record Keeps (t u : Table) : Type 0 where
  pub table : IsTable u
  pub grows : Grows t u
  pub retired : (id : ℕ) → IsRetired id t → IsRetired id u

Keeps-absent :
    (t u : Table)
    → IsTable u
    → Grows t u
    → ((id : ℕ)
        → find_ext_connection_by_out_conn_id id t ≡ returned 0
        → find_ext_connection_by_out_conn_id id u ≡ returned 0)
    → Keeps t u
Keeps-absent t u w g same = record {
  table = w;
  grows = g;
  retired = λ id r.
      let p = r.past in
      let q = g (slot_of id) in record { past = ground (arith, p, q); absent = same id r.absent };
}

Keeps-same : (t : Table) → IsTable t → Keeps t t
Keeps-same t w = Keeps-absent t t w (λ s. ground arith) (λ id e. e)

-- Nothing is picked out of nothing.
picked :
    (b : ℕ → Bool) (id : ℕ) (t u : Table)
    → find_ext_connection_by_out_conn_id id u
      ≡ (find_ext_connection_by_out_conn_id id t >>= λ k. returned (if b k then 0 else k))
    → find_ext_connection_by_out_conn_id id t ≡ returned 0
    → find_ext_connection_by_out_conn_id id u ≡ returned 0
picked b id t u e a =
    let zero : (if b 0 then 0 else 0) ≡ (let z : ℕ = 0 in z) = ground arith in
    e ∙ (ap (λ o. o >>= λ k. returned (if b k then 0 else k)) a ∙ ap returned zero)

server_ready-Keeps :
    (c : Conn) (t u : Table) → IsTable t → mtfront_client_ready c t ≡ returned u → Keeps t u
server_ready-Keeps c t u w e =
    let r = mtfront_client_ready-returned c t u e in
    let o = out_opened c t in
    subst (Keeps t) r.1 (
      Keeps-absent t o (out_opened-IsTable c t w r.0) (λ s. ground arith)
        (λ id n. relinked-find t t.in_ready t.in_list o.out_ready o.out_list o.extra_int id ∙ n))

client_ready-Keeps :
    (c : Conn) (t u : Table) → IsTable t → mtproto_proxy_rpc_ready c t ≡ returned u → Keeps t u
client_ready-Keeps c t u w e =
    let r = mtproto_proxy_rpc_ready-returned c t u e in
    let o = in_opened c t in
    subst (Keeps t) r.1 (
      Keeps-absent t o (in_opened-IsTable c t w r.0) (λ s. ground arith)
        (λ id n. relinked-find t o.in_ready o.in_list t.out_ready t.out_list o.extra_int id ∙ n))

module _ (lrand48 : ℕ → ℕ) (is_open : Conn → Bool) (t u : Table) (w : IsTable t) where
  server_lost-Keeps :
      (c : Conn) (notes : List Notice)
      → mtfront_client_close lrand48 is_open c t ≡ returned (u, notes)
      → Keeps t u
  server_lost-Keeps c notes e = elim (mtfront_client_close-returned lrand48 is_open c t u notes e) [
    | inl s ↦ subst (Keeps t) s (Keeps-same t w)
    | inr r ↦
        let h = mtfront_client_close-IsTable lrand48 is_open c t w r.0 r.1 r.2 in
        let q = ap (λ p. p.0) (returned-injective _ _ (sym h.1 ∙ e)) in
        subst (Keeps t) q (
          Keeps-absent t h.0 h.2 h.3
            (λ id. picked (λ k. (t.ext k).out_fd == c.fd) id t h.0 (h.6 id)))
  ]

  client_lost-Keeps :
      (c : Conn) (notes : List Notice)
      → mtproto_proxy_rpc_close lrand48 is_open c t ≡ returned (u, notes)
      → Keeps t u
  client_lost-Keeps c notes e =
      elim (mtproto_proxy_rpc_close-returned lrand48 is_open c t u notes e) [
        | inl s ↦ subst (Keeps t) s (Keeps-same t w)
        | inr r ↦
            let h = mtproto_proxy_rpc_close-IsTable lrand48 is_open c t w r.0 r.1 r.2 in
            let q = ap (λ p. p.0) (returned-injective _ _ (sym h.1 ∙ e)) in
            subst (Keeps t) q (
              Keeps-absent t h.0 h.2 h.3
                (λ id. picked (λ k. (t.ext k).in_fd == c.fd) id t h.0 (h.6 id)))
      ]

  remove-Keeps :
      (k send : ℕ) (notes : List Notice)
      → remove_ext_connection lrand48 is_open k send t ≡ returned (u, notes)
      → Keeps t u
  remove-Keeps k send notes e =
      let h =
        remove_ext_connection-IsTable lrand48 is_open k send t w
          (remove_ext_connection-IsLive lrand48 is_open k send t u notes e) in
      let q = ap (λ p. p.0) (returned-injective _ _ (sym h.1 ∙ e)) in
      subst (Keeps t) q (
        Keeps-absent t h.0 h.2 h.3 (λ id a. elim (Bool-cases (id == (t.ext k).out_conn_id)) [
          | inl s ↦ h.4 id ∙ rw s refl
          | inr n ↦ h.4 id ∙ rw n a
        ]))

  create-Keeps :
      (fuel n : ℕ) (client server : Conn) (auth_key_id x : ℕ)
      → Admits lrand48 fuel n client server t
      → create_ext_connection lrand48 is_open fuel client 0 server auth_key_id t ≡ returned (u, x)
      → Keeps t u
  create-Keeps fuel n client server auth_key_id x m e =
      let h =
        create_ext_connection-IsTable lrand48 is_open fuel n client server auth_key_id t w m in
      let q = ap (λ p. p.0) (returned-injective _ _ (sym h.2 ∙ e)) in
      subst (Keeps t) q (record {
        table = h.3;
        grows = h.4;
        retired = λ id r.
            let p = r.past in
            let g = h.4 (slot_of id) in
            let other : (id == h.1) ≡ false = is_false _ (λ s.
              let i : id ≡ h.1 = ground (arith, s) in
              let p' = ap (λ j. t.slot_id (slot_of j)) i in
              let after = h.6 in ground (arith, p, i, p', after)) in
            record { past = ground (arith, p, g); absent = h.8 id ∙ rw other r.absent };
      })

pub Step-Keeps :
    (lrand48 : ℕ → ℕ) (is_open : Conn → Bool) (t u : Table)
    → Step lrand48 is_open t u
    → IsTable t
    → Keeps t u
Step-Keeps lrand48 is_open t u (server_ready c e) w = server_ready-Keeps c t u w e
Step-Keeps lrand48 is_open t u (client_ready c e) w = client_ready-Keeps c t u w e
Step-Keeps lrand48 is_open t u (create fuel n client server key x m e) w =
    create-Keeps lrand48 is_open t u w fuel n client server key x m e
Step-Keeps lrand48 is_open t u (remove k send notes e) w =
    remove-Keeps lrand48 is_open t u w k send notes e
Step-Keeps lrand48 is_open t u (server_lost c notes e) w =
    server_lost-Keeps lrand48 is_open t u w c notes e
Step-Keeps lrand48 is_open t u (client_lost c notes e) w =
    client_lost-Keeps lrand48 is_open t u w c notes e
