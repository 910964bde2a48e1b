-- ===== src/ExtConn/Calls/Ready.antt =====
-- src/mtproto/mtproto-proxy.c: `mtfront_client_ready` and `mtproto_proxy_rpc_ready`.
use teleproxy.Base.{
  ℕ, ◌-◌, Bool, true, false, not, ◌||◌, List, [], arith, ltb, ◌==◌, ◌≡◌, ◌≢◌, sym, ap, ◌∙◌,
  Bool-cases, inl, inr,
}
use teleproxy.Base.Int.{pos, negsuc}
use teleproxy.Timers.{returned}
use teleproxy.ExtConn.{Table, Conn, upd, mem, max_connections}
use teleproxy.ExtConn.Outcomes.{returned-injective}
use teleproxy.ExtConn.Lists.{mem-nil, upd-other, distinct-nil, distinct-upd}
use teleproxy.ExtConn.Wf.{IsLive, IsTable}
use teleproxy.ExtConn.Calls.Relinked.{relinked-SlotsAgree, relinked-ChainsAgree}
use teleproxy.ExtConn.Calls.{get_conn_tag, mtfront_client_ready, mtproto_proxy_rpc_ready}

-- The table with the empty list of a server that is ready, and likewise of a client.
abbrev pub out_opened : Conn → Table → Table
out_opened c t = record t {
  extra_int = upd t.extra_int c.fd (pos (get_conn_tag c));
  out_ready = upd t.out_ready c.fd true;
  out_list = upd t.out_list c.fd [];
}

abbrev pub in_opened : Conn → Table → Table
in_opened c t = record t {
  extra_int = upd t.extra_int c.fd (negsuc (get_conn_tag c - 1));
  in_ready = upd t.in_ready c.fd true;
  in_list = upd t.in_list c.fd [];
}

-- A member of a list stays one unless the list is the emptied one, and only members stay.
kept : (f : ℕ → List ℕ) (p i k : ℕ) → i ≢ p → mem k (f i) ≡ true → mem k (upd f p [] i) ≡ true
kept f p i k n m = ap (mem k) (upd-other f p [] n) ∙ m

was : (f : ℕ → List ℕ) (p i k : ℕ) → mem k (upd f p [] i) ≡ true → mem k (f i) ≡ true
was f p i k m = elim (Bool-cases (i == p)) [
  | inl e ↦ let m' = rw (e, mem-nil k) at m in absurd (ground (arith, m'))
  | inr e ↦ rw e at m
]

stays_ready : (f : ℕ → Bool) (p i : ℕ) → f i ≡ true → upd f p true i ≡ true
stays_ready f p i e = ground (arith, e)

module _ (c : Conn) (t : Table) (w : IsTable t) where
  out_other : t.out_ready c.fd ≡ false → (k : ℕ) → IsLive t k → (t.ext k).out_fd ≢ c.fd
  out_other closed k l e =
      let o = sym (w.heads.out_open k l) ∙ (ap t.out_ready e ∙ closed) in ground (arith, o)

  in_other : t.in_ready c.fd ≡ false → (k : ℕ) → IsLive t k → (t.ext k).in_fd ≢ c.fd
  in_other closed k l e =
      let o = sym (w.heads.in_open k l) ∙ (ap t.in_ready e ∙ closed) in ground (arith, o)

  pub out_opened-IsTable : t.out_ready c.fd ≡ false → IsTable (out_opened c t)
  out_opened-IsTable closed =
      let l = w.lists in
      let u = out_opened c t in
      record {
        slots =
            relinked-SlotsAgree t t.in_ready t.in_list u.out_ready u.out_list u.extra_int w.slots;
        chains =
            relinked-ChainsAgree t t.in_ready t.in_list u.out_ready u.out_list u.extra_int w.chains;
        lists = record {
          in_linked = l.in_linked;
          in_live = l.in_live;
          in_same = l.in_same;
          in_distinct = l.in_distinct;
          in_range = l.in_range;
          out_linked = λ k n.
              kept t.out_list c.fd (t.ext k).out_fd k (out_other closed k n) (l.out_linked k n);
          out_live = λ i k m. l.out_live i k (was t.out_list c.fd i k m);
          out_same = λ i k m. l.out_same i k (was t.out_list c.fd i k m);
          out_distinct = λ i. distinct-upd t.out_list c.fd [] i distinct-nil (l.out_distinct i);
          out_range = l.out_range;
        };
        heads = record {
          in_open = w.heads.in_open;
          out_open = λ k n. stays_ready t.out_ready c.fd (t.ext k).out_fd (w.heads.out_open k n);
        };
      }

  pub in_opened-IsTable : t.in_ready c.fd ≡ false → IsTable (in_opened c t)
  in_opened-IsTable closed =
      let l = w.lists in
      let u = in_opened c t in
      record {
        slots =
            relinked-SlotsAgree t u.in_ready u.in_list t.out_ready t.out_list u.extra_int w.slots;
        chains =
            relinked-ChainsAgree t u.in_ready u.in_list t.out_ready t.out_list u.extra_int w.chains;
        lists = record {
          in_linked =
              λ k n. kept t.in_list c.fd (t.ext k).in_fd k (in_other closed k n) (l.in_linked k n);
          in_live = λ i k m. l.in_live i k (was t.in_list c.fd i k m);
          in_same = λ i k m. l.in_same i k (was t.in_list c.fd i k m);
          in_distinct = λ i. distinct-upd t.in_list c.fd [] i distinct-nil (l.in_distinct i);
          in_range = l.in_range;
          out_linked = l.out_linked;
          out_live = l.out_live;
          out_same = l.out_same;
          out_distinct = l.out_distinct;
          out_range = l.out_range;
        };
        heads = record {
          in_open = λ k n. stays_ready t.in_ready c.fd (t.ext k).in_fd (w.heads.in_open k n);
          out_open = w.heads.out_open;
        };
      }

-- What it took to return.
pub mtfront_client_ready-returned :
    (c : Conn) (t u : Table)
    → mtfront_client_ready c t ≡ returned u
    → (t.out_ready c.fd ≡ false) × (out_opened c t ≡ u)
unfolding mtfront_client_ready
mtfront_client_ready-returned c t u e =
    elim (Bool-cases (
      not (ltb c.fd max_connections)
      || not (elim (t.extra_int c.fd) [ pos n ↦ n == 0 | negsuc n ↦ false ]))) [
        | inl h ↦ let e' = rw h at e in absurd (ground (arith, e'))
        | inr h ↦ elim (Bool-cases (t.out_ready c.fd)) [
          | inl o ↦ let e' = rw (h, o) at e in absurd (ground (arith, e'))
          | inr o ↦ let e' = rw (h, o) at e in (o, returned-injective _ _ e')
        ]
      ]

pub mtproto_proxy_rpc_ready-returned :
    (c : Conn) (t u : Table)
    → mtproto_proxy_rpc_ready c t ≡ returned u
    → (t.in_ready c.fd ≡ false) × (in_opened c t ≡ u)
unfolding mtproto_proxy_rpc_ready
mtproto_proxy_rpc_ready-returned c t u e =
    elim (Bool-cases (not (ltb c.fd max_connections) || t.in_ready c.fd)) [
      | inl h ↦ let e' = rw h at e in absurd (ground (arith, e'))
      | inr h ↦
          elim (Bool-cases (not (elim (t.extra_int c.fd) [ pos n ↦ n == 0 | negsuc n ↦ false ]))) [
            | inl o ↦ let e' = rw (h, o) at e in absurd (ground (arith, e'))
            | inr o ↦ let e' = rw (h, o) at e in (ground (arith, h), returned-injective _ _ e')
          ]
    ]
