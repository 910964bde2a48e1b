-- ===== src/Obfs2/Handshake.antt =====
-- The handshake: which secret is taken, and what happens to the header.
use teleproxy.Base.{
  ℕ, suc, ◌+◌, ◌≡◌, refl, Bool, true, false, List, [], ◌∷◌, ◌++◌, arith, Option, none, some, length,
  All, ap, ◌∙◌, Bool-cases, inl, inr, ◌⊎◌,
}
use teleproxy.Obfs2.{
  ParseResult, read_u32, read_i16, accepts, rounds, derive, decrypt, try_secrets, parse_header,
}

module _ (sha256 : List ℕ → List ℕ) (aes_ctr : List ℕ → List ℕ → List ℕ → List ℕ)
    (rand_pad_only : Bool) where
  -- The tag that one round would read, and what it makes of it.
  abbrev pub takes : List ℕ → Option (List ℕ) → Bool
  takes header s = accepts rand_pad_only (read_u32 (decrypt sha256 aes_ctr s header) 56)

  -- The result of the round with secret `s`, numbered `sid`, and the header that it leaves.
  abbrev pub round_result : List ℕ → ℕ → Option (List ℕ) → Option ParseResult × List ℕ
  round_result header sid s =
      let header' = decrypt sha256 aes_ctr s header in
      (
        some (record {
          tag = read_u32 header' 56;
          dc = read_i16 header' 60;
          secret_id = sid;
          keys = derive sha256 aes_ctr s header;
        }),
        header',
      )

  try_secrets_skip :
      (pre post : List (Option (List ℕ))) (s : Option (List ℕ)) (header : List ℕ) (sid : ℕ)
      → All (λ t. takes header t ≡ false) pre
      → takes header s ≡ true
      → try_secrets sha256 aes_ctr rand_pad_only sid header header (pre ++ (s ∷ post))
        ≡ round_result header (sid + length pre) s
  unfolding try_secrets
  try_secrets_skip [] post s header sid h t = let e : sid + 0 ≡ sid = omega arith in rw (t, e)
  try_secrets_skip (p ∷ pre) post s header sid h t =
      let e : sid + suc (length pre) ≡ sid + 1 + length pre = omega arith in
      rw (h.0, e) (try_secrets_skip pre post s header (sid + 1) h.1 t)

  try_secrets_refused :
      (ss : List (Option (List ℕ))) (header : List ℕ) (sid : ℕ)
      → All (λ t. takes header t ≡ false) ss
      → try_secrets sha256 aes_ctr rand_pad_only sid header header ss ≡ (none, header)
  unfolding try_secrets
  try_secrets_refused [] header sid h = refl
  try_secrets_refused (s ∷ ss) header sid h = rw h.0 (try_secrets_refused ss header (sid + 1) h.1)

  -- The first secret whose decryption shows an accepted tag is the one that is taken: the result
  -- carries its number, the tag, the data centre and the keys derived from it, and the header is
  -- left decrypted with it.
  pub parse_header_first :
      (header : List ℕ) (secrets : List (List ℕ)) (pre post : List (Option (List ℕ)))
      (s : Option (List ℕ))
      → rounds secrets ≡ pre ++ (s ∷ post)
      → All (λ t. takes header t ≡ false) pre
      → takes header s ≡ true
      → parse_header sha256 aes_ctr header secrets rand_pad_only
        ≡ round_result header (length pre) s
  unfolding parse_header
  parse_header_first header secrets pre post s e h t =
      rw e
        (try_secrets_skip pre post s header 0 h t ∙ ap (λ n. round_result header n s) (omega arith))

  -- If no secret gives an accepted tag, the parser fails and the header is as it was.
  pub parse_header_refused :
      (header : List ℕ) (secrets : List (List ℕ))
      → All (λ t. takes header t ≡ false) (rounds secrets)
      → parse_header sha256 aes_ctr header secrets rand_pad_only ≡ (none, header)
  unfolding parse_header
  parse_header_refused header secrets h = try_secrets_refused (rounds secrets) header 0 h

  -- A list of rounds either is refused whole or has a first secret that is taken.
  split_rounds :
      (header : List ℕ) (ss : List (Option (List ℕ)))
      → All (λ t. takes header t ≡ false) ss
        ⊎ ((pre : List (Option (List ℕ))) × (s : Option (List ℕ)) × (post : List (Option (List ℕ)))
            × (ss ≡ pre ++ (s ∷ post))
            × All (λ t. takes header t ≡ false) pre
            × (takes header s ≡ true))
  split_rounds header [] = inl tt
  split_rounds header (s ∷ ss) = elim (Bool-cases (takes header s)) [
    | inl t ↦ inr ([], s, ss, refl, tt, t)
    | inr f ↦ elim (split_rounds header ss) [
      | inl a ↦ inl (f, a)
      | inr (pre, u, post, e, a, t) ↦ inr (s ∷ pre, u, post, ap (λ l. s ∷ l) e, (f, a), t)
    ]
  ]

  -- A failure of the parser leaves the header as the client sent it and means that no secret fits;
  -- a success means that the secret of that number fits, and that none before it does.
  pub parse_header_sound :
      (header : List ℕ) (secrets : List (List ℕ))
      → ((parse_header sha256 aes_ctr header secrets rand_pad_only ≡ (none, header))
          × All (λ t. takes header t ≡ false) (rounds secrets))
        ⊎ ((pre : List (Option (List ℕ))) × (s : Option (List ℕ)) × (post : List (Option (List ℕ)))
            × (rounds secrets ≡ pre ++ (s ∷ post))
            × All (λ t. takes header t ≡ false) pre
            × (takes header s ≡ true)
            × (parse_header sha256 aes_ctr header secrets rand_pad_only
                ≡ round_result header (length pre) s))
  parse_header_sound header secrets = elim (split_rounds header (rounds secrets)) [
    | inl a ↦ inl (parse_header_refused header secrets a, a)
    | inr (pre, s, post, e, a, t) ↦
        inr (pre, s, post, e, a, t, parse_header_first header secrets pre post s e a t)
  ]
