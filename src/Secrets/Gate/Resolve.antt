-- ===== src/Secrets/Gate/Resolve.antt =====
-- src/net/net-tcp-rpc-ext-server.c: the slot that a handshake leads to.
use teleproxy.Base.{
  ℕ, zero, suc, ◌+◌, ◌<◌, Bool, true, false, List, [], ◌∷◌, ◌++◌, arith, Option, none, some, length,
  get_elem?, Bool-cases, ◌≡◌, refl, sym, ap, ◌∙◌, inl, inr, ◌⊎◌,
}
use mathlib.Core.List.{map}
use teleproxy.Obfs2.{rounds}
use teleproxy.Obfs2.Handshake.{takes, parse_header_sound}
use teleproxy.Secrets.{Slot, Secrets, is_free}
use teleproxy.Secrets.Gate.{compact, resolve_secret}

some_inj : {A : Type 0} {x y : A} → some x ≡ some y → x ≡ y
some_inj {x} e = ap (λ o. elim o [ none ↦ x | some z ↦ z ]) e

-- An element of the compacted list is a slot in use.
compact_elem :
    (slots : ℕ → Slot) (i n j id : ℕ)
    → get_elem? (compact slots i n) j ≡ some id
    → (id < i + n) × (is_free (slots id).state ≡ false)
unfolding compact
compact_elem slots i zero j id e = absurd (ground (arith, e))
compact_elem slots i (suc n) zero id e = elim (Bool-cases (is_free (slots i).state)) [
  | inl t ↦ let (l, f) = compact_elem slots (suc i) n zero id (rw t at e) in (omega (arith, l), f)
  | inr f ↦
      let same : i ≡ id = some_inj (rw f at e) in
      (omega (arith, same), ap (λ k. is_free (slots k).state) (sym same) ∙ f)
]
compact_elem slots i (suc n) (suc j) id e = elim (Bool-cases (is_free (slots i).state)) [
  | inl t ↦
      let (l, f) = compact_elem slots (suc i) n (suc j) id (rw t at e) in (omega (arith, l), f)
  | inr f ↦ let (l, g) = compact_elem slots (suc i) n j id (rw f at e) in (omega (arith, l), g)
]

-- The rounds of the parser are the secrets, in their order.
rounds_elem :
    (f : ℕ → List ℕ) (u : ℕ) (us : List ℕ) (j : ℕ) (s : Option (List ℕ))
    → get_elem? (rounds (map f (u ∷ us))) j ≡ some s
    → (id : ℕ) × (get_elem? (u ∷ us) j ≡ some id) × (s ≡ some (f id))
unfolding rounds
rounds_elem f u [] zero s e = (u, refl, sym (some_inj e))
rounds_elem f u [] (suc j) s e = absurd (ground (arith, e))
rounds_elem f u (v ∷ us) zero s e = (u, refl, sym (some_inj e))
rounds_elem f u (v ∷ us) (suc j) s e = rounds_elem f v us j s e

get_elem?-append :
    (pre post : List (Option (List ℕ))) (s : Option (List ℕ))
    → get_elem? (pre ++ (s ∷ post)) (length pre) ≡ some s
get_elem?-append [] post s = refl
get_elem?-append (p ∷ pre) post s = get_elem?-append pre post s

only_round :
    (pre : List (Option (List ℕ))) (s : Option (List ℕ))
    → get_elem? (rounds []) (length pre) ≡ some s
    → s ≡ none
unfolding rounds
only_round [] s e = sym (some_inj e)
only_round (p ∷ pre) s e = absurd (ground (arith, e))

module _ (sha256 : List ℕ → List ℕ) (aes_ctr : List ℕ → List ℕ → List ℕ → List ℕ)
    (rand_pad_only : Bool) where
  abbrev pub resolve : Secrets → List ℕ → Option (Option ℕ)
  resolve s header = resolve_secret sha256 aes_ctr rand_pad_only s header

  abbrev pub IsAccepted : List ℕ → Option (List ℕ) → Type 0
  IsAccepted header secret = takes sha256 aes_ctr rand_pad_only header secret ≡ true

  -- The slot that belongs to the round of the parser that was taken.
  resolve_round :
      (s : Secrets) (header : List ℕ) (used : List ℕ) (pre post : List (Option (List ℕ)))
      (secret : Option (List ℕ))
      → rounds (map (λ i. (s.slots i).secret) used) ≡ pre ++ (secret ∷ post)
      → ((used ≡ []) × (get_elem? used (length pre) ≡ none) × (secret ≡ none))
        ⊎ ((id : ℕ) × (get_elem? used (length pre) ≡ some id) × (secret ≡ some (s.slots id).secret))
  resolve_round s header [] pre post secret e = inl (
    refl,
    refl,
    only_round pre secret (ap (λ l. get_elem? l (length pre)) e ∙ get_elem?-append pre post secret),
  )
  resolve_round s header (u ∷ us) pre post secret e = inr (
      rounds_elem (λ i. (s.slots i).secret) u us (length pre) secret
        (ap (λ l. get_elem? l (length pre)) e ∙ get_elem?-append pre post secret))

  -- A handshake that the parser takes leads to a slot that is in use, below the count of slots, and
  -- whose secret decrypts the header to an accepted tag, so that a free slot in between is never
  -- hit. Only without any slot in use, when the header is accepted without a secret, is the slot
  -- read from an element of the table that was never written. All other handshakes are refused.
  pub resolve_secret_lem :
      (s : Secrets) (header : List ℕ)
      → (resolve s header ≡ none)
        ⊎ (((id : ℕ) × (resolve s header ≡ some (some id))
              × (id < s.ext_secret_cnt)
              × (is_free (s.slots id).state ≡ false)
              × IsAccepted header (some (s.slots id).secret))
            ⊎ ((resolve s header ≡ some none)
                × (compact s.slots 0 s.ext_secret_cnt ≡ [])
                × IsAccepted header none))
  unfolding resolve_secret
  resolve_secret_lem s header =
      let used = compact s.slots 0 s.ext_secret_cnt in
      let secrets = map (λ i. (s.slots i).secret) used in
      elim (parse_header_sound sha256 aes_ctr rand_pad_only header secrets) [
        | inl (p, a) ↦ inl (rw (p, resolve_secret) refl)
        | inr (pre, secret, post, e, a, t, p) ↦
            elim (resolve_round s header used pre post secret e) [
              | inl (empty, g, n) ↦ inr (inr (rw (p, g, resolve_secret) refl, empty, rw n at t))
              | inr (id, g, n) ↦
                  let (l, f) = compact_elem s.slots 0 s.ext_secret_cnt (length pre) id g in
                  inr (inl (id, rw (p, g, resolve_secret) refl, omega (arith, l), f, rw n at t))
            ]
      ]
