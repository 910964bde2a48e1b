-- ===== src/Drs/Framing.antt =====
-- src/net/net-tcp-drs.c: what the loop writes.
use teleproxy.Base.{
  ℕ, zero, suc, ◌+◌, ◌≤◌, ◌<◌, Bool, true, false, not, ◌&&◌, ◌||◌, List, [], ◌∷◌, ◌++◌, arith, ltb,
  ◌==◌, length, take, ◌≡◌, refl, sym, ap, ◌∙◌, inl, inr, ◌⊎◌, Bool-cases, All, take-append-drop,
  length-take, length-append, append-nil, append_assoc,
}
use mathlib.Core.Path.{subst}
use teleproxy.Drs.{
  Sender, Outcome, sent, failed, record_header, is_negative, encrypt_from, encrypt_to, start_record,
  pace, drs_loop, encrypt_output_drs, drs_record_size, next_length, after_pause, drs_size_max,
  drs_phase2_end,
}
use teleproxy.Ws.{lt_i32}

-- The bytes of all records.
pub joined : List (List ℕ) → List ℕ
joined [] = []
joined (c ∷ cs) = c ++ joined cs

-- A record is never empty, and in TLS never above the limit of 2 ^ 14 bytes.
abbrev pub Fits : Bool → List ℕ → Type 0
Fits is_tls c = (0 < length c) × (is_tls ≡ true → length c ≤ 16244)

abbrev header_of : Bool → ℕ → List ℕ
header_of true len = record_header len
header_of false len = []

record_size_bounds :
    (random record_index : ℕ)
    → (64 ≤ drs_record_size random record_index) × (drs_record_size random record_index ≤ 16244)
unfolding drs_record_size
record_size_bounds random record_index = (ground arith, ground arith)

next_length_bounds :
    (random record_index total : ℕ)
    → 0 < total
    → (0 < next_length random record_index total)
      × (next_length random record_index total ≤ total)
      × (next_length random record_index total ≤ 16244)
unfolding next_length
next_length_bounds random record_index total filled =
    let (a, b) = record_size_bounds random record_index in
    (ground arith, ground arith, ground arith)

module _ (cipher : ℕ → ℕ → ℕ) where
  -- Records as the client sees them, from a place of the key stream on.
  pub sealed : Bool → ℕ → List (List ℕ) → List ℕ
  sealed is_tls place [] = []
  sealed is_tls place (c ∷ cs) =
      header_of is_tls (length c)
      ++ (encrypt_from cipher place c ++ sealed is_tls (place + length c) cs)

  -- What is taken from the output is written as records.
  pub record Sent (s r : Sender) : Type 0 where
    pub chunks : List (List ℕ)
    pub taken : s.out ≡ joined chunks ++ r.out
    pub wire : r.out_p ≡ s.out_p ++ sealed s.is_tls s.written chunks
    pub sizes : All (Fits s.is_tls) chunks
    pub rest : (r.out ≡ []) ⊎ ((s.is_tls ≡ true) × (r.drs.delay_pending ≡ true))

  -- One record.
  record Step (s t : Sender) (chunk : List ℕ) : Type 0 where
    taken : s.out ≡ chunk ++ t.out
    wire :
        t.out_p
        ≡ s.out_p ++ (header_of s.is_tls (length chunk) ++ encrypt_from cipher s.written chunk)
    place : t.written ≡ s.written + length chunk
    tls : t.is_tls ≡ s.is_tls
    left : t.left_tls_packet_length ≡ s.left_tls_packet_length
    fits : Fits s.is_tls chunk

  sealed_cons :
      (out_p : List ℕ) (is_tls : Bool) (place : ℕ) (c : List ℕ) (cs : List (List ℕ))
      → (out_p ++ (header_of is_tls (length c) ++ encrypt_from cipher place c))
          ++ sealed is_tls (place + length c) cs
        ≡ out_p ++ sealed is_tls place (c ∷ cs)
  unfolding sealed
  sealed_cons out_p is_tls place c cs = simp (append_assoc)

  Step-Sent : (s t r : Sender) (chunk : List ℕ) → Step s t chunk → Sent t r → Sent s r
  unfolding joined
  Step-Sent s t r chunk a b = record {
    chunks = chunk ∷ b.chunks;
    taken =
        a.taken ∙ ap (λ l. chunk ++ l) b.taken ∙ sym (append_assoc chunk (joined b.chunks) r.out);
    wire =
        b.wire
        ∙ rw (a.wire, a.tls, a.place) (sealed_cons s.out_p s.is_tls s.written chunk b.chunks);
    sizes = (a.fits, subst (λ x. All (Fits x) b.chunks) a.tls b.sizes);
    rest = subst (λ x. (r.out ≡ []) ⊎ ((x ≡ true) × (r.drs.delay_pending ≡ true))) a.tls b.rest;
  }

  -- What the start of a record changes, when there is something to send.
  record Started (s t : Sender) (len : ℕ) : Type 0 where
    out : t.out ≡ s.out
    out_p : t.out_p ≡ s.out_p ++ header_of s.is_tls len
    written : t.written ≡ s.written
    tls : t.is_tls ≡ s.is_tls
    left : t.left_tls_packet_length ≡ s.left_tls_packet_length
    some_bytes : 0 < len
    no_more : len ≤ length s.out
    small : s.is_tls ≡ true → len ≤ 16244

  module _ (lrand48_j : ℕ → ℕ) (precise_now : ℕ) where
    started_lem :
        (s : Sender)
        → 0 < length s.out
        → Started s
            (start_record cipher lrand48_j precise_now s).0
            (start_record cipher lrand48_j precise_now s).1
    unfolding start_record
    started_lem s filled = elim (Bool-cases s.is_tls) [
      | inl t ↦
          let (a, b, c) =
            next_length_bounds (lrand48_j s.draws) (after_pause precise_now s.drs).record_index
              (length s.out) filled in
          rw t (record {
            out = refl;
            out_p = refl;
            written = refl;
            tls = refl;
            left = refl;
            some_bytes = a;
            no_more = b;
            small = λ e. c;
          })
      | inr f ↦ rw f (record {
        out = refl;
        out_p = sym (append-nil s.out_p);
        written = refl;
        tls = refl;
        left = refl;
        some_bytes = filled;
        no_more = omega arith;
        small = λ e. ground (arith, e);
      })
    ]

    module _ (drs_sample_delay : ℕ → ℕ) (memory : List ℕ → ℕ → Bool) where
      record Paced (s t : Sender) (goes_on : Bool) : Type 0 where
        out : t.out ≡ s.out
        out_p : t.out_p ≡ s.out_p
        written : t.written ≡ s.written
        tls : t.is_tls ≡ s.is_tls
        left : t.left_tls_packet_length ≡ s.left_tls_packet_length
        goes : (goes_on ≡ true) ⊎ ((t.is_tls ≡ true) × (t.drs.delay_pending ≡ true))

      paced_lem :
          (s : Sender)
          → Paced s
              (pace cipher lrand48_j precise_now drs_sample_delay memory s).0
              (pace cipher lrand48_j precise_now drs_sample_delay memory s).1
      unfolding pace
      paced_lem s = elim (Bool-cases (s.delays_enabled && (s.is_tls && ltb 0 (length s.out)))) [
        | inl t ↦
            let tls : s.is_tls ≡ true = ground (arith, t) in
            elim (Bool-cases (
              ltb drs_size_max (length s.out)
              || (not (lt_i32 s.drs.total_records drs_phase2_end)
                  || lt_i32 1 s.drs.record_index))) [
                    | inl skip ↦
                        rw (t, skip)
                          (record {
                            out = refl;
                            out_p = refl;
                            written = refl;
                            tls = refl;
                            left = refl;
                            goes = inl refl;
                          })
                    | inr wait ↦
                        rw (t, wait)
                          (record {
                            out = refl;
                            out_p = refl;
                            written = refl;
                            tls = refl;
                            left = refl;
                            goes = inr (tls, refl);
                          })
                  ]
        | inr f ↦ rw f (record {
          out = refl;
          out_p = refl;
          written = refl;
          tls = refl;
          left = refl;
          goes = inl refl;
        })
      ]

      abbrev started : Sender → Sender
      started s = (start_record cipher lrand48_j precise_now s).0

      abbrev next_len : Sender → ℕ
      next_len s = (start_record cipher lrand48_j precise_now s).1

      abbrev one_record : Sender → Sender
      one_record s = encrypt_to cipher (next_len s) (started s)

      abbrev paced : Sender → Sender × Bool
      paced s = pace cipher lrand48_j precise_now drs_sample_delay memory s

      abbrev loop : ℕ → Sender → Outcome
      loop fuel s = drs_loop cipher lrand48_j precise_now drs_sample_delay memory fuel s

      -- The whole record is there to be taken.
      taken_length : (s : Sender) → 0 < length s.out → length (take (next_len s) s.out) ≡ next_len s
      taken_length s filled =
          let b = (started_lem s filled).no_more in
          length-take (next_len s) s.out ∙ omega (arith, b)

      whole_record :
          (s : Sender) → 0 < length s.out → length (take (next_len s) (started s).out) ≡ next_len s
      whole_record s filled =
          let a = started_lem s filled in
          ap (λ l. length (take (next_len s) l)) a.out ∙ taken_length s filled

      step_lem :
          (s : Sender)
          → 0 < length s.out
          → Step s (paced (one_record s)).0 (take (next_len s) s.out)
      step_lem s filled =
          let a = started_lem s filled in
          let b = paced_lem (one_record s) in
          let x = a.some_bytes in
          let len : length (take (next_len s) s.out) ≡ next_len s = taken_length s filled in
          record {
            taken = rw (b.out, a.out) (sym (take-append-drop (next_len s) s.out));
            wire =
                b.out_p
                ∙ rw (a.out, a.out_p, a.written, len)
                    (append_assoc s.out_p (header_of s.is_tls (next_len s))
                      (encrypt_from cipher s.written (take (next_len s) s.out)));
            place = b.written ∙ rw (a.out, a.written) refl;
            tls = b.tls ∙ a.tls;
            left = b.left ∙ a.left;
            fits = (omega (arith, x, len), λ e. let y = a.small e in omega (arith, y, len));
          }

      -- Everything is sent, or there was no memory for a record.
      abbrev pub Goes : Sender → Outcome → Type 0
      Goes s o =
          ((r : Sender) × (o ≡ sent r) × Sent s r)
          ⊎ ((f : Sender) × (len : ℕ) × (o ≡ failed f) × (memory f.out_p len ≡ false))

      Goes-Step :
          (s t : Sender) (chunk : List ℕ) (o : Outcome) → Step s t chunk → Goes t o → Goes s o
      Goes-Step s t chunk o a (inl (r, e, b)) = inl (r, e, Step-Sent s t r chunk a b)
      Goes-Step s t chunk o a (inr f) = inr f

      Sent-none :
          (s : Sender)
          → (s.out ≡ []) ⊎ ((s.is_tls ≡ true) × (s.drs.delay_pending ≡ true))
          → Sent s s
      unfolding joined sealed
      Sent-none s rest = record {
        chunks = [];
        taken = refl;
        wire = sym (append-nil s.out_p);
        sizes = tt;
        rest = rest;
      }

      is_empty : (xs : List ℕ) → (length xs == 0) ≡ true → xs ≡ []
      is_empty [] e = refl
      is_empty (x ∷ xs) e = absurd (ground (arith, e))

      Step-less : (s t : Sender) (chunk : List ℕ) → Step s t chunk → length t.out < length s.out
      Step-less s t chunk a =
          let f = a.fits.0 in
          let e = ap length a.taken ∙ length-append chunk t.out in omega (arith, e, f)

      -- A loop that stops waits for the timer.
      stops :
          (s t : Sender) {goes_on : Bool}
          → Paced s t goes_on
          → goes_on ≡ false
          → (t.is_tls ≡ true) × (t.drs.delay_pending ≡ true)
      stops s t p f = elim p.goes [ inl g ↦ absurd (ground (arith, g, f)) | inr r ↦ r ]

      drs_loop_lem :
          (fuel : ℕ) (s : Sender)
          → length s.out < fuel
          → is_negative s.left_tls_packet_length ≡ false
          → Goes s (loop fuel s)
      unfolding drs_loop
      drs_loop_lem zero s enough left = absurd (omega (arith, enough))
      drs_loop_lem (suc fuel) s enough left = elim (Bool-cases (length s.out == 0)) [
        | inl t ↦ rw t (inl (s, refl, Sent-none s (inl (is_empty s.out t))))
        | inr n ↦
            let filled : 0 < length s.out = ground (arith, n) in
            let no_abort : (s.is_tls && is_negative s.left_tls_packet_length) ≡ false =
              ground (arith, left) in
            let whole : (length (take (next_len s) (started s).out) == next_len s) ≡ true =
              let w = whole_record s filled in ground (arith, w) in
            let t = (paced (one_record s)).0 in
            let step = step_lem s filled in
            let again =
              drs_loop_lem fuel t
                (let l = Step-less s t (take (next_len s) s.out) step in omega (arith, l, enough))
                (ap is_negative step.left ∙ left) in
            elim (Bool-cases (memory (started s).out_p (next_len s))) [
              | inr m ↦ rw (n, no_abort, m) (inr (started s, next_len s, refl, m))
              | inl m ↦ elim (Bool-cases (paced (one_record s)).1) [
                | inl g ↦
                    rw (n, no_abort, m, whole, g)
                      (Goes-Step s t (take (next_len s) s.out) (loop fuel t) step again)
                | inr g ↦
                    let rest = stops (one_record s) t (paced_lem (one_record s)) g in
                    rw (n, no_abort, m, whole, g)
                      (inl (
                        t,
                        refl,
                        Step-Sent s t t (take (next_len s) s.out) step (Sent-none t (inr rest)),
                      ))
              ]
            ]
      ]

      -- A call returns 0, unless there was no memory for a record; no assertion fails when the rest
      -- of an input record is not negative. It takes bytes off the front of the output and writes
      -- them, encrypted in their order, as records that are not empty, and with TLS have their
      -- header and at most 16244 bytes. It leaves nothing, unless it uses TLS and a delay is pending.
      pub encrypt_output_drs_lem :
          (s : Sender)
          → is_negative s.left_tls_packet_length ≡ false
          → Goes s (encrypt_output_drs cipher lrand48_j precise_now drs_sample_delay memory s)
      unfolding encrypt_output_drs
      encrypt_output_drs_lem s left = elim (Bool-cases (s.is_tls && s.drs.delay_pending)) [
        | inl t ↦ rw t (inl (s, refl, Sent-none s (inr (ground (arith, t), ground (arith, t)))))
        | inr n ↦ rw n (drs_loop_lem (length s.out + 1) s (omega arith) left)
      ]
