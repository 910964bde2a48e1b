-- ===== src/ExtConn/Calls/Closed.antt =====
-- src/mtproto/mtproto-proxy.c: when the close handlers return.
use teleproxy.Base.{
  ℕ, ◌+◌, ◌-◌, ◌<◌, Bool, true, not, ◌||◌, List, arith, ltb, ◌==◌, ◌≡◌, refl, ap, ◌∙◌, Bool-cases,
  inl, inr, ◌⊎◌,
}
use teleproxy.Base.Int.{ℤ, pos, negsuc}
use teleproxy.Timers.{returned}
use teleproxy.ExtConn.{Table, Conn, max_connections}
use teleproxy.ExtConn.Calls.{Notice, get_conn_tag, mtfront_client_close, mtproto_proxy_rpc_close}
use teleproxy.ExtConn.Outcomes.{returned-injective}

ℤ-cases : (z : ℤ) → ((n : ℕ) × (z ≡ pos n)) ⊎ ((n : ℕ) × (z ≡ negsuc n))
ℤ-cases (pos n) = inl (n, refl)
ℤ-cases (negsuc n) = inr (n, refl)

-- What it took to return.
pub mtfront_client_close-returned :
    (lrand48 : ℕ → ℕ) (is_open : Conn → Bool) (c : Conn) (t u : Table) (notes : List Notice)
    → mtfront_client_close lrand48 is_open c t ≡ returned (u, notes)
    → (t ≡ u)
      ⊎ ((c.fd < max_connections)
          × (t.extra_int c.fd ≡ pos (get_conn_tag c))
          × (t.out_ready c.fd ≡ true))
unfolding mtfront_client_close
mtfront_client_close-returned lrand48 is_open c t u notes e =
    elim (Bool-cases (not (ltb c.fd max_connections))) [
      | inl h ↦ let e' = rw h at e in absurd (ground (arith, e'))
      | inr h ↦ elim (ℤ-cases (t.extra_int c.fd)) [
        | inr z ↦ let e' = rw (h, z.1) at e in absurd (ground (arith, e'))
        | inl z ↦ elim (Bool-cases (z.0 == 0)) [
          | inl o ↦ let e' = rw (h, z.1, o) at e in inl (ap (λ r. r.0) (returned-injective _ _ e'))
          | inr o ↦ elim (Bool-cases (not (z.0 == get_conn_tag c) || not (t.out_ready c.fd))) [
            | inl b ↦ let e' = rw (h, z.1, o, b) at e in absurd (ground (arith, e'))
            | inr b ↦
                let q : z.0 ≡ get_conn_tag c = ground (arith, b) in
                inr (ground (arith, h), z.1 ∙ ap pos q, ground (arith, b))
          ]
        ]
      ]
    ]

pub mtproto_proxy_rpc_close-returned :
    (lrand48 : ℕ → ℕ) (is_open : Conn → Bool) (c : Conn) (t u : Table) (notes : List Notice)
    → mtproto_proxy_rpc_close lrand48 is_open c t ≡ returned (u, notes)
    → (t ≡ u)
      ⊎ ((c.fd < max_connections)
          × (t.extra_int c.fd ≡ negsuc (get_conn_tag c - 1))
          × (t.in_ready c.fd ≡ true))
unfolding mtproto_proxy_rpc_close
mtproto_proxy_rpc_close-returned lrand48 is_open c t u notes e =
    elim (Bool-cases (not (ltb c.fd max_connections))) [
      | inl h ↦ let e' = rw h at e in absurd (ground (arith, e'))
      | inr h ↦ elim (ℤ-cases (t.extra_int c.fd)) [
        | inl z ↦ elim (Bool-cases (z.0 == 0)) [
          | inl o ↦ let e' = rw (h, z.1, o) at e in inl (ap (λ r. r.0) (returned-injective _ _ e'))
          | inr o ↦ let e' = rw (h, z.1, o) at e in absurd (ground (arith, e'))
        ]
        | inr z ↦ elim (Bool-cases (not (z.0 + 1 == get_conn_tag c) || not (t.in_ready c.fd))) [
          | inl b ↦ let e' = rw (h, z.1, b) at e in absurd (ground (arith, e'))
          | inr b ↦
              let q : z.0 ≡ get_conn_tag c - 1 = ground (arith, b) in
              inr (ground (arith, h), z.1 ∙ ap negsuc q, ground (arith, b))
        ]
      ]
    ]
