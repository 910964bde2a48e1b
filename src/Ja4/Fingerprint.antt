-- ===== src/Ja4/Fingerprint.antt =====
-- src/net/net-ja4.c: the fingerprint of a ClientHello. `qsort` on texts of four digits is sorting by
-- number; SHA-256 is a parameter.
use teleproxy.Base.{
  ℕ, zero, suc, ◌+◌, ◌-◌, ◌/◌, ◌%◌, Bool, ◌&&◌, List, [], ◌∷◌, ◌++◌, ltb, leb, ◌==◌, if◌then◌else◌,
  length, replicate,
}
use mathlib.Core.List.{foldr}
use teleproxy.Tls.{Outcome, done, ◌>>=◌}
use teleproxy.Ja4.{Inputs, ja4_parse}

-- `qsort` with `hex4_cmp`
unfoldable pub insert : ℕ → List ℕ → List ℕ
insert x [] = x ∷ []
insert x (y ∷ ys) = let rest = insert x ys in if leb x y then x ∷ y ∷ ys else y ∷ rest

abbrev pub sort : List ℕ → List ℕ
sort l = foldr insert [] l

abbrev pub hex_digit : ℕ → ℕ
hex_digit n = if ltb n 10 then b'0' + n else b'a' + (n - 10)

-- "%04x"
abbrev pub hex4 : ℕ → List ℕ
hex4 v =
    hex_digit (v / 4096 % 16)
    ∷ hex_digit (v / 256 % 16)
    ∷ hex_digit (v / 16 % 16)
    ∷ hex_digit (v % 16)
    ∷ []

-- "%02d", of a number that is cut to 99.
abbrev pub digits2 : ℕ → List ℕ
digits2 n = let m = if ltb 99 n then 99 else n in (b'0' + m / 10) ∷ (b'0' + m % 10) ∷ []

-- The texts with commas between them.
unfoldable pub joined : List ℕ → List ℕ
joined [] = []
joined (v ∷ []) = hex4 v
joined (v ∷ w ∷ vs) = hex4 v ++ (b',' ∷ joined (w ∷ vs))

abbrev pub hex_bytes : ℕ → List ℕ → List ℕ
hex_bytes zero bytes = []
hex_bytes (suc n) [] = []
hex_bytes (suc n) (b ∷ bytes) = hex_digit (b / 16) ∷ hex_digit (b % 16) ∷ hex_bytes n bytes

abbrev pub is_printable : ℕ → Bool
is_printable c = leb 0x20 c && ltb c 0x7f

-- The characters for the protocol.
unfoldable pub alpn_chars : ℕ → ℕ → List ℕ
alpn_chars first last =
    if first == 0 && last == 0
    then b'0' ∷ b'0' ∷ []
    else if is_printable first && is_printable last
    then first ∷ last ∷ []
    else hex_digit (first / 16) ∷ hex_digit (first % 16) ∷ []

module _ (sha256 : List ℕ → List ℕ) where
  abbrev pub sha256_hex12 : List ℕ → List ℕ
  sha256_hex12 text = hex_bytes 6 (sha256 text)

  unfoldable pub ja4_b : List ℕ → List ℕ
  unfolding joined
  ja4_b ciphers = if length ciphers == 0 then replicate 12 b'0' else sha256_hex12 (joined ciphers)

  unfoldable pub ja4_c : List ℕ → List ℕ → List ℕ
  unfolding joined
  ja4_c exts sigalgs =
      if length exts == 0 && length sigalgs == 0
      then replicate 12 b'0'
      else sha256_hex12 (joined exts ++ (if length sigalgs == 0 then [] else b'_' ∷ joined sigalgs))

  -- The fingerprint of what was parsed, with `ciphers` and `exts` sorted.
  unfoldable pub fingerprint : Inputs → List ℕ
  unfolding insert alpn_chars ja4_b ja4_c
  fingerprint i =
      let (major, minor) = i.tls_ver in
      (b't' ∷ major ∷ minor ∷ (if i.has_sni then b'd' else b'i') ∷ digits2 (length i.ciphers))
      ++ (digits2 i.ext_count_total
          ++ (alpn_chars i.alpn0_first i.alpn0_last
              ++ (b'_' ∷ (ja4_b (sort i.ciphers) ++ (b'_' ∷ ja4_c (sort i.exts) i.sigalgs)))))

  -- `ja4_compute`
  unfoldable pub ja4_compute : List ℕ → Outcome (List ℕ)
  unfolding fingerprint
  ja4_compute ch = ja4_parse ch 64 64 64 >>= λ i. done (fingerprint i)
