-- ===== src/ProxyProtocol/Consume.antt =====
-- What a call takes from the input, and when it asks for more.
use teleproxy.Base.{
  ℕ, ◌+◌, ◌≤◌, ◌<◌, ◌≡◌, refl, true, ◌&&◌, List, [], ◌∷◌, arith, ltb, leb, length, Option, some,
  take, drop, min, length-take, length-drop, All, get_or-lt, Option-cases, Bool-cases, inl, inr,
}
use teleproxy.Base.Int.{ℤ}
use teleproxy.ProxyProtocol.{
  Source, error, more, consumed, Parsed, parse_v1, parse_v2, v1_line, before_crlf, c_string,
  proxy_protocol_parse, bytes_eq, pp1_signature, pp2_signature,
}

-- How the input is left: untouched, or without exactly the bytes that were taken. More bytes are
-- asked for only below `limit` of them.
abbrev pub Took : ℕ → List ℕ → Parsed → Type 0
Took limit raw p = elim p.0 [
  | error ↦ p.2 ≡ raw
  | more ↦ (p.2 ≡ raw) × (length raw < limit)
  | consumed n ↦ (p.2 ≡ drop n raw) × (13 ≤ n) × (n ≤ length raw)
]

length-before_crlf : (s line : List ℕ) → before_crlf s ≡ some line → length line + 2 ≤ length s
unfolding before_crlf
length-before_crlf [] line e = cc
length-before_crlf (a ∷ []) line e = cc
length-before_crlf (a ∷ b ∷ s) line e = elim (Option-cases (before_crlf (b ∷ s))) [
  | inl n ↦ ground (arith, n)
  | inr (l, p) ↦ ground (arith, p, length-before_crlf (b ∷ s) l p)
]

parse_v2-Took :
    (raw : List ℕ) (out : Source) → All (λ b. b < 256) raw → Took 65551 raw (parse_v2 raw out)
unfolding parse_v2
parse_v2-Took raw out bs =
    ground (arith, get_or-lt 256 raw 14 (omega arith) bs, get_or-lt 256 raw 15 (omega arith) bs)

module _ (inet_pton4 : List ℕ → Option ℕ) (inet_pton6 : List ℕ → Option (List ℕ))
    (atoi : List ℕ → ℤ) where
  -- A line that is accepted has five bytes at least behind the signature.
  v1_line-length :
      (text : List ℕ) (s : Source)
      → v1_line inet_pton4 inet_pton6 atoi text ≡ (true, s)
      → 5 ≤ length text
  unfolding v1_line
  v1_line-length [] s e = ground arith
  v1_line-length (a ∷ []) s e = ground arith
  v1_line-length (a ∷ b ∷ []) s e = ground arith
  v1_line-length (a ∷ b ∷ c ∷ []) s e = ground arith
  v1_line-length (a ∷ b ∷ c ∷ d ∷ []) s e = ground arith
  v1_line-length (a ∷ b ∷ c ∷ d ∷ f ∷ text) s e = omega arith

  length-c_string : (s : List ℕ) → length (c_string s) ≤ length s
  unfolding c_string
  length-c_string [] = omega arith
  length-c_string (c ∷ s) = ground (arith, length-c_string s)

  parse_v1-Took :
      (raw : List ℕ) (out : Source) → Took 65551 raw (parse_v1 inet_pton4 inet_pton6 atoi raw out)
  unfolding parse_v1
  parse_v1-Took raw out =
      let n = min (length raw) 108 in
      elim (Option-cases (before_crlf (drop 6 (take n raw)))) [
        | inl e ↦ ground (arith, e)
        | inr (line, e) ↦ ground (
          arith,
          e,
          length-before_crlf (drop 6 (take n raw)) line e,
          length-drop 6 (take n raw),
          length-take n raw,
          length-c_string line,
          v1_line-length (c_string line) (v1_line inet_pton4 inet_pton6 atoi (c_string line)).1,
        )
      ]

  -- The parser takes a whole header or nothing: on an error, and while it waits, the input is as it
  -- was; otherwise exactly the reported number of bytes, which are there, is gone from its front.
  -- It never waits once 65551 bytes are there.
  pub proxy_protocol_parse-Took :
      (raw : List ℕ) (out : Source)
      → All (λ b. b < 256) raw
      → Took 65551 raw (proxy_protocol_parse inet_pton4 inet_pton6 atoi raw out)
  unfolding proxy_protocol_parse
  proxy_protocol_parse-Took raw out bs = elim (Bool-cases (ltb (length raw) 6)) [
    | inl t ↦ rw t (refl, ground arith)
    | inr f ↦ elim (Bool-cases (bytes_eq (take 6 raw) pp1_signature)) [
      | inl t ↦ rw (f, t) (parse_v1-Took raw out)
      | inr g ↦ elim (Bool-cases (leb 12 (length raw) && bytes_eq (take 12 raw) pp2_signature)) [
        | inl t ↦ rw (f, g, t) (parse_v2-Took raw out bs)
        | inr h ↦ elim (Bool-cases (ltb (length raw) 12)) [
          | inl t ↦ rw (f, g, h, t) (refl, ground arith)
          | inr k ↦ rw (f, g, h, k)
        ]
      ]
    ]
  ]
