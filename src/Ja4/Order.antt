-- ===== src/Ja4/Order.antt =====
-- src/net/net-ja4.c: the fingerprint does not depend on the order of ciphers and extensions.
use teleproxy.Base.{
  ℕ, zero, suc, ◌*◌, ◌≤◌, true, ◌&&◌, List, [], ◌∷◌, ◌++◌, arith, leb, ◌==◌, length, ◌≡◌, refl, sym,
  ap, ◌∙◌, Bool-cases, inl, inr, length-append,
}
use mathlib.Core.List.{foldr, Perm}
use mathlib.Core.List.Perm
use teleproxy.Ja4.{Inputs}
use teleproxy.Ja4.Fingerprint.{
  insert, sort, fingerprint, ja4_b, ja4_c, alpn_chars, sha256_hex12, hex_bytes,
}

insert_comm : (x y : ℕ) (l : List ℕ) → insert x (insert y l) ≡ insert y (insert x l)
unfolding insert
insert_comm x y [] = elim (Bool-cases (leb x y)) [
  | inl t ↦ elim (Bool-cases (leb y x)) [
    | inl u ↦ let e : x ≡ y = ground (arith, t, u) in rw e refl
    | inr u ↦ rw (t, u) refl
  ]
  | inr t ↦ let u : leb y x ≡ true = ground (arith, t) in rw (t, u) refl
]
insert_comm x y (z ∷ l) = let c = insert_comm x y l in ground (arith, c)

lists_set : IsSet (List ℕ)
lists_set = hlevel

sort_perm : {l m : List ℕ} → Perm l m → sort l ≡ sort m
sort_perm p = Perm.foldr-eq lists_set insert insert_comm p []

abbrev tally : List ℕ → ℕ
tally l = foldr (λ x n. suc n) 0 l

tally_lem : (l : List ℕ) → tally l ≡ length l
tally_lem [] = refl
tally_lem (x ∷ l) = ap suc (tally_lem l)

numbers_set : IsSet ℕ
numbers_set = hlevel

length_perm : (l m : List ℕ) → Perm l m → length l ≡ length m
length_perm l m p =
    sym (tally_lem l) ∙ Perm.foldr-eq numbers_set (λ x n. suc n) (λ x y n. refl) p 0 ∙ tally_lem m

length-hex_bytes : (n : ℕ) (bytes : List ℕ) → n ≤ length bytes → length (hex_bytes n bytes) ≡ n * 2
length-hex_bytes zero bytes h = refl
length-hex_bytes (suc n) [] h = absurd (omega (arith, h))
length-hex_bytes (suc n) (b ∷ bytes) h =
    let e = length-hex_bytes n bytes (omega (arith, h)) in omega (arith, e)

length-alpn_chars : (first last : ℕ) → length (alpn_chars first last) ≡ 2
unfolding alpn_chars
length-alpn_chars first last = ground arith

module _ (sha256 : List ℕ → List ℕ) (digest : (m : List ℕ) → length (sha256 m) ≡ 32) where
  hash_length : (text : List ℕ) → length (sha256_hex12 sha256 text) ≡ 12
  hash_length text = let d = digest text in length-hex_bytes 6 (sha256 text) (omega (arith, d))

  length-ja4_b : (ciphers : List ℕ) → length (ja4_b sha256 ciphers) ≡ 12
  unfolding ja4_b
  length-ja4_b ciphers = elim (Bool-cases (length ciphers == 0)) [
    | inl t ↦ rw t refl
    | inr n ↦ rw n (hash_length _)
  ]

  length-ja4_c : (exts sigalgs : List ℕ) → length (ja4_c sha256 exts sigalgs) ≡ 12
  unfolding ja4_c
  length-ja4_c exts sigalgs = elim (Bool-cases (length exts == 0 && length sigalgs == 0)) [
    | inl t ↦ rw t refl
    | inr n ↦ rw n (hash_length _)
  ]

  -- The fingerprint of what the parser kept (at most 64 ciphers and 64 extensions) is the same for
  -- every order of the kept ciphers and of the kept extensions, with the same ALPN and the same
  -- signature algorithms, and it has 36 characters, which fit its buffer of 37 bytes.
  pub fingerprint_lem :
      (i : Inputs) (ciphers exts : List ℕ)
      → Perm i.ciphers ciphers
      → Perm i.exts exts
      → (fingerprint sha256 (record i { ciphers = ciphers; exts = exts }) ≡ fingerprint sha256 i)
        × (length (fingerprint sha256 i) ≡ 36)
  unfolding fingerprint
  fingerprint_lem i ciphers exts p q =
      let a = length-alpn_chars i.alpn0_first i.alpn0_last in
      let b = length-ja4_b (sort i.ciphers) in
      let c = length-ja4_c (sort i.exts) i.sigalgs in
      let u =
        length-append (ja4_b sha256 (sort i.ciphers))
          (b'_' ∷ ja4_c sha256 (sort i.exts) i.sigalgs) in
      let v =
        length-append (alpn_chars i.alpn0_first i.alpn0_last) (
          b'_'
          ∷ (ja4_b sha256 (sort i.ciphers) ++ (b'_' ∷ ja4_c sha256 (sort i.exts) i.sigalgs))) in
      (
        rw (sort_perm p, sort_perm q, length_perm i.ciphers ciphers p) refl,
        omega (arith, a, b, c, u, v),
      )
