-- ===== src/Ja4/Safe.antt =====
-- src/net/net-ja4.c: the walk over a ClientHello stays inside the buffer and the arrays.
use teleproxy.Base.{
  ℕ, zero, suc, ◌+◌, ◌≤◌, ◌<◌, ◌-◌, ◌%◌, ◌==◌, ◌&&◌, ◌||◌, get_or, ◌≡◌, List, [], ◌∷◌, arith,
  length, ltb, leb, length-append, if◌then◌else◌, Bool-cases, inl, inr,
}
use teleproxy.Tls.{Outcome, done, reject, fault, stuck, ◌>>=◌}
use teleproxy.Tls.Reads.{read_byte_lem, be16}
use teleproxy.Ja4.{
  Inputs, store, u16_be, legacy_version, cipher_loop, version_loop, sigalg_loop, supported_versions,
  signature_algorithms, alpn, extension_data, count_extension, extension, ext_loop, ja4_tail,
  ja4_ciphers, ja4_parse, no_extensions, is_grease_u16,
}

-- An outcome of C, with a result that satisfies a predicate.
abbrev pub Yields : {A : Type 0} → (A → Type 0) → Outcome A → Type 0
Yields P (done a) = P a
Yields P reject = Unit {0}
Yields P fault = ⊥
Yields P stuck = ⊥

store_fits :
    (max v : ℕ) (entries : List ℕ) → length entries ≤ max → length (store max entries v) ≤ max
unfolding store
store_fits max v entries h = let a = length-append entries (v ∷ []) in ground (arith, a, h)

-- The lists fit their arrays.
pub record Fits (cipher_max exts_max sigalgs_max : ℕ) (i : Inputs) : Type 0 where
  pub ciphers_fit : length i.ciphers ≤ cipher_max
  pub exts_fit : length i.exts ≤ exts_max
  pub sigalgs_fit : length i.sigalgs ≤ sigalgs_max

bind-Yields :
    {A B : Type 0} (P : A → Type 0) (Q : B → Type 0) (m : Outcome A) (f : A → Outcome B)
    → Yields P m
    → ((a : A) → P a → Yields Q (f a))
    → Yields Q (m >>= f)
bind-Yields P Q (done a) f p q = q a p
bind-Yields P Q reject f p q = tt
bind-Yields P Q fault f p q = absurd p
bind-Yields P Q stuck f p q = absurd p

module _ (ch : List ℕ) where
  u16_be_lem : (pos : ℕ) → pos + 2 ≤ length ch → u16_be ch pos ≡ done (be16 ch pos)
  unfolding u16_be
  u16_be_lem pos h = ground (arith, read_byte_lem ch pos, read_byte_lem ch (pos + 1))

  cipher_loop-Yields :
      (cipher_max pos n : ℕ) (ciphers : List ℕ)
      → pos + n ≤ length ch
      → length ciphers ≤ cipher_max
      → Yields (λ l. length l ≤ cipher_max) (cipher_loop ch cipher_max pos n ciphers)
  unfolding cipher_loop
  cipher_loop-Yields cipher_max pos (suc (suc n)) ciphers h f =
      rw (u16_be_lem pos (omega (arith, h))) (
        cipher_loop-Yields cipher_max (pos + 2) n
          (if is_grease_u16 (be16 ch pos) then ciphers else store cipher_max ciphers (be16 ch pos))
          (omega (arith, h))
          (elim (Bool-cases (is_grease_u16 (be16 ch pos))) [
            | inl t ↦ rw t f
            | inr n ↦ rw n (store_fits cipher_max (be16 ch pos) ciphers f)
          ]))
  cipher_loop-Yields cipher_max pos (suc zero) ciphers h f = f
  cipher_loop-Yields cipher_max pos zero ciphers h f = f

  version_loop-Yields :
      (pos n best_minor : ℕ)
      → pos + n ≤ length ch
      → Yields (λ k. Unit {0}) (version_loop ch pos n best_minor)
  unfolding version_loop
  version_loop-Yields pos (suc (suc n)) best_minor h =
      rw (u16_be_lem pos (omega (arith, h))) (version_loop-Yields (pos + 2) n _ (omega (arith, h)))
  version_loop-Yields pos (suc zero) best_minor h = tt
  version_loop-Yields pos zero best_minor h = tt

  sigalg_loop-Yields :
      (sigalgs_max pos n : ℕ) (sigalgs : List ℕ)
      → pos + n ≤ length ch
      → length sigalgs ≤ sigalgs_max
      → Yields (λ l. length l ≤ sigalgs_max) (sigalg_loop ch sigalgs_max pos n sigalgs)
  unfolding sigalg_loop
  sigalg_loop-Yields sigalgs_max pos (suc (suc n)) sigalgs h f =
      rw (u16_be_lem pos (omega (arith, h))) (
        sigalg_loop-Yields sigalgs_max (pos + 2) n (store sigalgs_max sigalgs (be16 ch pos))
          (omega (arith, h)) (store_fits sigalgs_max (be16 ch pos) sigalgs f))
  sigalg_loop-Yields sigalgs_max pos (suc zero) sigalgs h f = f
  sigalg_loop-Yields sigalgs_max pos zero sigalgs h f = f

  module _ (cipher_max exts_max sigalgs_max : ℕ) where
    abbrev FitsAll : Inputs → Type 0
    FitsAll i = Fits cipher_max exts_max sigalgs_max i

    supported_versions-Yields :
        (pos ext_len : ℕ) (i : Inputs)
        → pos + ext_len ≤ length ch
        → 0 < ext_len
        → FitsAll i
        → Yields FitsAll (supported_versions ch pos ext_len i)
    unfolding supported_versions
    supported_versions-Yields pos ext_len i h l f =
        let b = get_or ch pos 0 in
        rw (read_byte_lem ch pos (omega (arith, h, l)))
          (elim (Bool-cases (ltb 0 b && (leb (b + 1) ext_len && b % 2 == 0))) [
            | inr n ↦ rw n f
            | inl t ↦
                let room : pos + 1 + b ≤ length ch = ground (arith, t, h) in
                rw t (
                  bind-Yields (λ k. Unit {0}) FitsAll (version_loop ch (pos + 1) b 0) _
                    (version_loop-Yields (pos + 1) b 0 room)
                    (λ k u. elim (Bool-cases (leb 1 k)) [
                      | inr n ↦ rw n f
                      | inl m ↦ rw m (record {
                        ciphers_fit = f.ciphers_fit;
                        exts_fit = f.exts_fit;
                        sigalgs_fit = f.sigalgs_fit;
                      })
                    ]))
          ])

    signature_algorithms-Yields :
        (pos ext_len : ℕ) (i : Inputs)
        → pos + ext_len ≤ length ch
        → 2 ≤ ext_len
        → FitsAll i
        → Yields FitsAll (signature_algorithms ch sigalgs_max pos ext_len i)
    unfolding signature_algorithms
    signature_algorithms-Yields pos ext_len i h l f =
        let b = be16 ch pos in
        rw (u16_be_lem pos (omega (arith, h, l)))
          (elim (Bool-cases (ltb 0 b && (leb (b + 2) ext_len && b % 2 == 0))) [
            | inr n ↦ rw n f
            | inl t ↦
                let room : pos + 2 + b ≤ length ch = ground (arith, t, h) in
                rw t (
                  bind-Yields (λ s. length s ≤ sigalgs_max) FitsAll
                    (sigalg_loop ch sigalgs_max (pos + 2) b i.sigalgs) _
                    (sigalg_loop-Yields sigalgs_max (pos + 2) b i.sigalgs room f.sigalgs_fit)
                    (λ s u. record {
                      ciphers_fit = f.ciphers_fit;
                      exts_fit = f.exts_fit;
                      sigalgs_fit = u;
                    }))
          ])

    alpn-Yields :
        (pos ext_len ext_end : ℕ) (i : Inputs)
        → pos + ext_len ≤ ext_end
        → ext_end ≤ length ch
        → 3 ≤ ext_len
        → FitsAll i
        → Yields FitsAll (alpn ch pos ext_len ext_end i)
    unfolding alpn
    alpn-Yields pos ext_len ext_end i h e l f =
        let b = be16 ch pos in
        rw (u16_be_lem pos (omega (arith, h, e, l)))
          (elim (Bool-cases (ltb 0 b && leb (b + 2) ext_len)) [
            | inr n ↦ rw n f
            | inl t ↦
                let c = get_or ch (pos + 2) 0 in
                rw (t, read_byte_lem ch (pos + 2) (omega (arith, h, e, l)))
                  (elim (Bool-cases (ltb 0 c && leb (pos + 3 + c) ext_end)) [
                    | inr n ↦ rw n f
                    | inl u ↦
                        let first : pos + 3 < length ch = ground (arith, u, e) in
                        let last : pos + 3 + c - 1 < length ch = ground (arith, u, e) in
                        rw
                          (
                            u,
                            read_byte_lem ch (pos + 3) first,
                            read_byte_lem ch (pos + 3 + c - 1) last,
                          )
                          (record {
                            ciphers_fit = f.ciphers_fit;
                            exts_fit = f.exts_fit;
                            sigalgs_fit = f.sigalgs_fit;
                          })
                  ])
          ])

    extension_data-Yields :
        (ext_type ext_len pos ext_end : ℕ) (i : Inputs)
        → pos + ext_len ≤ ext_end
        → ext_end ≤ length ch
        → FitsAll i
        → Yields FitsAll (extension_data ch sigalgs_max ext_type ext_len pos ext_end i)
    unfolding extension_data
    extension_data-Yields ext_type ext_len pos ext_end i h e f =
        let inside : pos + ext_len ≤ length ch = omega (arith, h, e) in
        elim (Bool-cases (ext_type == 0)) [
          | inl t ↦ rw t (record {
            ciphers_fit = f.ciphers_fit;
            exts_fit = f.exts_fit;
            sigalgs_fit = f.sigalgs_fit;
          })
          | inr n ↦ elim (Bool-cases (ext_type == 0x2b && leb 1 ext_len)) [
            | inl t ↦
                let l : 0 < ext_len = ground (arith, t) in
                rw (n, t) (supported_versions-Yields pos ext_len i inside l f)
            | inr n1 ↦ elim (Bool-cases (ext_type == 0x0d && leb 2 ext_len)) [
              | inl t ↦
                  let l : 2 ≤ ext_len = ground (arith, t) in
                  rw (n, n1, t) (signature_algorithms-Yields pos ext_len i inside l f)
              | inr n2 ↦ elim (Bool-cases (ext_type == 0x10 && leb 3 ext_len)) [
                | inl t ↦
                    let l : 3 ≤ ext_len = ground (arith, t) in
                    rw (n, n1, n2, t) (alpn-Yields pos ext_len ext_end i h e l f)
                | inr n3 ↦ rw (n, n1, n2, n3) f
              ]
            ]
          ]
        ]

    count_extension-Fits :
        (ext_type : ℕ) (i : Inputs) → FitsAll i → FitsAll (count_extension ch exts_max ext_type i)
    count_extension-Fits ext_type i f = record {
      ciphers_fit = f.ciphers_fit;
      exts_fit = elim (Bool-cases (ext_type == 0 || ext_type == 0x10)) [
        | inl t ↦ rw t f.exts_fit
        | inr n ↦ rw n (store_fits exts_max ext_type i.exts f.exts_fit)
      ];
      sigalgs_fit = f.sigalgs_fit;
    }

    extension-Yields :
        (ext_type ext_len pos ext_end : ℕ) (i : Inputs)
        → pos + ext_len ≤ ext_end
        → ext_end ≤ length ch
        → FitsAll i
        → Yields FitsAll (extension ch exts_max sigalgs_max ext_type ext_len pos ext_end i)
    unfolding extension
    extension-Yields ext_type ext_len pos ext_end i h e f =
        elim (Bool-cases (is_grease_u16 ext_type)) [
          | inl t ↦ rw t f
          | inr n ↦ rw n (
              bind-Yields FitsAll FitsAll
                (extension_data ch sigalgs_max ext_type ext_len pos ext_end i) _
                (extension_data-Yields ext_type ext_len pos ext_end i h e f)
                (λ j g. count_extension-Fits ext_type j g))
        ]

    ext_loop-Yields :
        (fuel pos ext_end : ℕ) (i : Inputs)
        → pos ≤ ext_end
        → ext_end < fuel + pos
        → ext_end ≤ length ch
        → FitsAll i
        → Yields FitsAll (ext_loop ch fuel exts_max sigalgs_max pos ext_end i)
    unfolding ext_loop
    ext_loop-Yields zero pos ext_end i p h e f = absurd (omega (arith, p, h))
    ext_loop-Yields (suc fuel) pos ext_end i p h e f = elim (Bool-cases (leb (pos + 4) ext_end)) [
      | inr n ↦ rw n f
      | inl t ↦
          let room : pos + 4 ≤ ext_end = ground (arith, t) in
          let ext_len = be16 ch (pos + 2) in
          rw
            (
              t,
              u16_be_lem pos (omega (arith, room, e)),
              u16_be_lem (pos + 2) (omega (arith, room, e)),
            )
            (elim (Bool-cases (leb (pos + 4 + ext_len) ext_end)) [
              | inr n ↦ rw n tt
              | inl u ↦
                  let l : pos + 4 + ext_len ≤ ext_end = ground (arith, u) in
                  rw u (
                    bind-Yields FitsAll FitsAll
                      (extension ch exts_max sigalgs_max (be16 ch pos) ext_len (pos + 4) ext_end i)
                      _ (extension-Yields (be16 ch pos) ext_len (pos + 4) ext_end i l e f)
                      (λ j g.
                        ext_loop-Yields fuel (pos + 4 + ext_len) ext_end j l (omega (arith, h)) e
                          g))
            ])
    ]

    ja4_tail-Yields :
        (pos : ℕ) (i : Inputs) → FitsAll i → Yields FitsAll (ja4_tail ch exts_max sigalgs_max pos i)
    unfolding ja4_tail
    ja4_tail-Yields pos i f = elim (Bool-cases (leb (pos + 1) (length ch))) [
      | inr n ↦ rw n tt
      | inl t ↦
          let inside : pos < length ch = ground (arith, t) in
          let c = get_or ch pos 0 in
          rw (t, read_byte_lem ch pos inside)
            (elim (Bool-cases (leb (pos + 1 + c) (length ch))) [
              | inr n ↦ rw n tt
              | inl u ↦ elim (Bool-cases (ltb (length ch) (pos + 1 + c + 2))) [
                | inl v ↦ rw (u, v) f
                | inr v ↦
                    let room : pos + 1 + c + 2 ≤ length ch = ground (arith, v) in
                    let x = be16 ch (pos + 1 + c) in
                    rw (u, v, u16_be_lem (pos + 1 + c) room)
                      (elim (Bool-cases (leb (pos + 1 + c + 2 + x) (length ch))) [
                        | inr n ↦ rw n tt
                        | inl w ↦
                            let e : pos + 1 + c + 2 + x ≤ length ch = ground (arith, w) in
                            rw w (
                              ext_loop-Yields (length ch) (pos + 1 + c + 2) (pos + 1 + c + 2 + x) i
                                (omega arith) (omega (arith, e)) e f)
                      ])
              ]
            ])
    ]

    legacy_version-Yields : 44 ≤ length ch → Yields (λ v. Unit {0}) (legacy_version ch)
    unfolding legacy_version
    legacy_version-Yields h =
        rw (read_byte_lem ch 9 (omega (arith, h)), read_byte_lem ch 10 (omega (arith, h))) tt

    -- From the cipher suites on.
    ja4_ciphers-Yields :
        (pos : ℕ) (tls_ver : ℕ × ℕ)
        → Yields FitsAll (ja4_ciphers ch cipher_max exts_max sigalgs_max pos tls_ver)
    unfolding ja4_ciphers
    ja4_ciphers-Yields pos tls_ver = elim (Bool-cases (leb (pos + 2) (length ch))) [
      | inr n ↦ rw n tt
      | inl t ↦
          let room : pos + 2 ≤ length ch = ground (arith, t) in
          let n = be16 ch pos in
          rw (t, u16_be_lem pos room)
            (elim (Bool-cases (n % 2 == 0 && leb (pos + 2 + n) (length ch))) [
              | inr m ↦ rw m tt
              | inl m ↦
                  let e : pos + 2 + n ≤ length ch = ground (arith, m) in
                  rw m (
                    bind-Yields (λ l. length l ≤ cipher_max) FitsAll
                      (cipher_loop ch cipher_max (pos + 2) n []) _
                      (cipher_loop-Yields cipher_max (pos + 2) n [] e (omega arith))
                      (λ l g. ja4_tail-Yields (pos + 2 + n) (no_extensions ch tls_ver l) (record {
                        ciphers_fit = g;
                        exts_fit = omega arith;
                        sigalgs_fit = omega arith;
                      })))
            ])
    ]

    -- On every input the walk over a ClientHello reads inside the buffer only and ends, and on
    -- success its lists fit the arrays they are stored in.
    pub ja4_parse-Yields :
        Yields (Fits cipher_max exts_max sigalgs_max) (ja4_parse ch cipher_max exts_max sigalgs_max)
    unfolding ja4_parse
    ja4_parse-Yields = elim (Bool-cases (leb 44 (length ch))) [
      | inr n ↦ rw n tt
      | inl t ↦
          let room : 44 ≤ length ch = ground (arith, t) in
          let c = get_or ch 43 0 in
          rw (t, read_byte_lem ch 43 (omega (arith, room)))
            (elim (Bool-cases (leb (44 + c) (length ch))) [
              | inr n ↦ rw n tt
              | inl u ↦ rw u (
                  bind-Yields (λ v. Unit {0}) FitsAll (legacy_version ch) _
                    (legacy_version-Yields room) (λ v g. ja4_ciphers-Yields (44 + c) v))
            ])
    ]
