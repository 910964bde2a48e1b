-- ===== src/Ja4.antt =====
-- src/net/net-ja4.c: what the JA4 fingerprint takes from a ClientHello. A read past the end is the
-- outcome `fault`. The arrays of texts "%04x" are kept as lists of the numbers, cut to the arrays'
-- sizes, whose length is the count that goes with them.
pub mod Safe
pub mod Fingerprint
pub mod Order
pub mod Table
mod Tests
use teleproxy.Base.{
  ℕ, zero, suc, ◌+◌, ◌-◌, ◌*◌, ◌/◌, ◌%◌, Bool, true, false, not, ◌&&◌, ◌||◌, List, [], ◌∷◌, ◌++◌,
  arith, ltb, leb, ◌==◌, if◌then◌else◌, length,
}
use teleproxy.Tls.{Outcome, done, reject, fault, stuck, ◌>>=◌, ◌>>◌, guard, read_byte}

-- The output arguments of `ja4_parse`.
pub record Inputs : Type 0 where
  pub tls_ver : ℕ × ℕ
  pub has_sni : Bool
  pub ciphers : List ℕ
  pub exts : List ℕ
  pub ext_count_total : ℕ
  pub sigalgs : List ℕ
  pub alpn0_first : ℕ
  pub alpn0_last : ℕ

pub is_grease_u16 : ℕ → Bool
is_grease_u16 v = v % 16 == 10 && (v / 256 % 16 == 10 && v / 256 % 256 == v % 256)

-- One more entry, if there is room.
pub store : ℕ → List ℕ → ℕ → List ℕ
store max entries v = if ltb (length entries) max then entries ++ (v ∷ []) else entries

-- The digits of a version `0x03xx`, if it has some.
abbrev pub is_minor : ℕ → Bool
is_minor minor = leb 1 minor && leb minor 4

abbrev pub version_digits : ℕ → ℕ × ℕ
version_digits minor = (b'1', b'0' + (minor - 1))

module _ (ch : List ℕ) where
  pub u16_be : ℕ → Outcome ℕ
  u16_be pos = do hi ← read_byte ch pos; lo ← read_byte ch (pos + 1); done (hi * 256 + lo)

  -- The default version, from `legacy_version`.
  pub legacy_version : Outcome (ℕ × ℕ)
  legacy_version = do
    major ← read_byte ch 9
    minor ← read_byte ch 10
    done (if major == 3 && is_minor minor then version_digits minor else (b'0', b'0'))

  -- The loop over `n` bytes of cipher suites.
  pub cipher_loop : ℕ → ℕ → ℕ → List ℕ → Outcome (List ℕ)
  unfolding u16_be store is_grease_u16
  cipher_loop cipher_max pos (suc (suc n)) ciphers = u16_be pos >>= λ v.
      cipher_loop cipher_max (pos + 2) n
        (if is_grease_u16 v then ciphers else store cipher_max ciphers v)
  cipher_loop cipher_max pos (suc zero) ciphers = done ciphers
  cipher_loop cipher_max pos zero ciphers = done ciphers

  -- The loop over `n` bytes of supported versions: the greatest minor number, or 0.
  pub version_loop : ℕ → ℕ → ℕ → Outcome ℕ
  unfolding u16_be is_grease_u16
  version_loop pos (suc (suc n)) best_minor = u16_be pos >>= λ v. version_loop (pos + 2) n (
      if not (is_grease_u16 v) && (v / 256 == 3 && (is_minor (v % 256) && ltb best_minor (v % 256)))
      then v % 256
      else best_minor)
  version_loop pos (suc zero) best_minor = done best_minor
  version_loop pos zero best_minor = done best_minor

  -- The loop over `n` bytes of signature algorithms.
  pub sigalg_loop : ℕ → ℕ → ℕ → List ℕ → Outcome (List ℕ)
  unfolding u16_be store
  sigalg_loop sigalgs_max pos (suc (suc n)) sigalgs =
      u16_be pos >>= λ v. sigalg_loop sigalgs_max (pos + 2) n (store sigalgs_max sigalgs v)
  sigalg_loop sigalgs_max pos (suc zero) sigalgs = done sigalgs
  sigalg_loop sigalgs_max pos zero sigalgs = done sigalgs

  pub supported_versions : ℕ → ℕ → Inputs → Outcome Inputs
  unfolding version_loop
  supported_versions pos ext_len i = do
    sv_list_len ← read_byte ch pos
    if ltb 0 sv_list_len && (leb (sv_list_len + 1) ext_len && sv_list_len % 2 == 0)
        then (version_loop (pos + 1) sv_list_len 0 >>= λ best_minor.
            done (if leb 1 best_minor then record i { tls_ver = version_digits best_minor } else i))
        else done i

  pub signature_algorithms : ℕ → ℕ → ℕ → Inputs → Outcome Inputs
  unfolding sigalg_loop u16_be
  signature_algorithms sigalgs_max pos ext_len i = do
    sa_list_len ← u16_be pos
    if ltb 0 sa_list_len && (leb (sa_list_len + 2) ext_len && sa_list_len % 2 == 0)
        then (sigalg_loop sigalgs_max (pos + 2) sa_list_len i.sigalgs >>= λ sigalgs.
            done (record i { sigalgs = sigalgs }))
        else done i

  pub alpn : ℕ → ℕ → ℕ → Inputs → Outcome Inputs
  unfolding u16_be
  alpn pos ext_len ext_end i = do
    alpn_list_len ← u16_be pos
    if ltb 0 alpn_list_len && leb (alpn_list_len + 2) ext_len
        then (read_byte ch (pos + 2) >>= λ first_len.
            if ltb 0 first_len && leb (pos + 3 + first_len) ext_end
            then (read_byte ch (pos + 3) >>= λ first.
                read_byte ch (pos + 3 + first_len - 1) >>= λ last.
                done (record i { alpn0_first = first; alpn0_last = last }))
            else done i)
        else done i

  -- What an extension's data gives.
  pub extension_data : ℕ → ℕ → ℕ → ℕ → ℕ → Inputs → Outcome Inputs
  unfolding supported_versions signature_algorithms alpn
  extension_data sigalgs_max ext_type ext_len pos ext_end i =
      if ext_type == 0
      then done (record i { has_sni = true })
      else if ext_type == 0x2b && leb 1 ext_len
      then supported_versions pos ext_len i
      else if ext_type == 0x0d && leb 2 ext_len
      then signature_algorithms sigalgs_max pos ext_len i
      else if ext_type == 0x10 && leb 3 ext_len
      then alpn pos ext_len ext_end i
      else done i

  -- The lists of extensions after one more.
  abbrev pub count_extension : ℕ → ℕ → Inputs → Inputs
  count_extension exts_max ext_type i = record i {
    ext_count_total = i.ext_count_total + 1;
    exts = if ext_type == 0 || ext_type == 0x10 then i.exts else store exts_max i.exts ext_type;
  }

  -- One extension.
  pub extension : ℕ → ℕ → ℕ → ℕ → ℕ → ℕ → Inputs → Outcome Inputs
  unfolding extension_data store is_grease_u16
  extension exts_max sigalgs_max ext_type ext_len pos ext_end i =
      if is_grease_u16 ext_type
      then done i
      else extension_data sigalgs_max ext_type ext_len pos ext_end i >>= λ j.
          done (count_extension exts_max ext_type j)

  -- The loop over the extensions.
  pub ext_loop : ℕ → ℕ → ℕ → ℕ → ℕ → Inputs → Outcome Inputs
  unfolding u16_be extension
  ext_loop zero exts_max sigalgs_max pos ext_end i = stuck
  ext_loop (suc fuel) exts_max sigalgs_max pos ext_end i =
      if leb (pos + 4) ext_end
      then (do
        ext_type ← u16_be pos
        ext_len ← u16_be (pos + 2)
        guard (leb (pos + 4 + ext_len) ext_end)
        j ← extension exts_max sigalgs_max ext_type ext_len (pos + 4) ext_end i
        ext_loop fuel exts_max sigalgs_max (pos + 4 + ext_len) ext_end j)
      else done i

  -- From the compression methods on.
  pub ja4_tail : ℕ → ℕ → ℕ → Inputs → Outcome Inputs
  unfolding ext_loop u16_be
  ja4_tail exts_max sigalgs_max pos i = do
    guard (leb (pos + 1) (length ch))
    comp_len ← read_byte ch pos
    guard (leb (pos + 1 + comp_len) (length ch))
    if ltb (length ch) (pos + 1 + comp_len + 2) then done i else (do
      ext_total_len ← u16_be (pos + 1 + comp_len)
      guard (leb (pos + 1 + comp_len + 2 + ext_total_len) (length ch))
      ext_loop (length ch) exts_max sigalgs_max (pos + 1 + comp_len + 2)
          (pos + 1 + comp_len + 2 + ext_total_len) i)

  abbrev pub no_extensions : ℕ × ℕ → List ℕ → Inputs
  no_extensions tls_ver ciphers = record {
    tls_ver = tls_ver;
    has_sni = false;
    ciphers = ciphers;
    exts = [];
    ext_count_total = 0;
    sigalgs = [];
    alpn0_first = 0;
    alpn0_last = 0;
  }

  -- From the cipher suites on.
  pub ja4_ciphers : ℕ → ℕ → ℕ → ℕ → ℕ × ℕ → Outcome Inputs
  unfolding ja4_tail cipher_loop u16_be
  ja4_ciphers cipher_max exts_max sigalgs_max pos tls_ver = do
    guard (leb (pos + 2) (length ch))
    cs_len ← u16_be pos
    guard (cs_len % 2 == 0 && leb (pos + 2 + cs_len) (length ch))
    ciphers ← cipher_loop cipher_max (pos + 2) cs_len []
    ja4_tail exts_max sigalgs_max (pos + 2 + cs_len) (no_extensions tls_ver ciphers)

  -- `ja4_parse`
  pub ja4_parse : ℕ → ℕ → ℕ → Outcome Inputs
  unfolding ja4_ciphers legacy_version
  ja4_parse cipher_max exts_max sigalgs_max = do
    guard (leb 44 (length ch))
    sid_len ← read_byte ch 43
    guard (leb (44 + sid_len) (length ch))
    tls_ver ← legacy_version
    ja4_ciphers cipher_max exts_max sigalgs_max (44 + sid_len) tls_ver
