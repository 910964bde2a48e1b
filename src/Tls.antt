-- ===== src/Tls.antt =====
-- src/net/net-tls-parse.c: what the proxy reads of TLS hello messages. A buffer is the list of its
-- bytes, `len` its length; a read past the end is the outcome `fault`.
pub mod Reads
pub mod Safe
pub mod Sni
pub mod ServerHello
mod Tests
use teleproxy.Base.{
  ℕ, zero, suc, ◌+◌, ◌-◌, ◌*◌, ◌/◌, ◌%◌, ◌^◌, Bool, true, false, not, ◌&&◌, ◌||◌, List, [], ◌∷◌,
  ◌++◌, arith, ltb, leb, ◌==◌, if◌then◌else◌, length, get_elem?, drop, take, Option, none, some,
}

-- `reject` is the parser's refusal, `fault` a read out of bounds, and `stuck` no C outcome: the
-- fuel of a loop ran out.
pub data Outcome {ℓ} (A : Type ℓ) : Type ℓ where
  done : A → Outcome A
  reject : Outcome A
  fault : Outcome A
  stuck : Outcome A

infixl 5 ◌>>=◌ ◌>>◌
abbrev pub ◌>>=◌ {ℓ κ} : {A : Type ℓ} {B : Type κ} → Outcome A → (A → Outcome B) → Outcome B
done a >>= f = f a
reject >>= f = reject
fault >>= f = fault
stuck >>= f = stuck

abbrev pub ◌>>◌ {ℓ} : {B : Type ℓ} → Outcome (Unit {0}) → Outcome B → Outcome B
m >> k = m >>= λ _. k

-- The code's checks: go on if the test holds, refuse otherwise.
abbrev pub guard : Bool → Outcome (Unit {0})
guard true = done tt
guard false = reject

unfoldable pub read_byte : List ℕ → ℕ → Outcome ℕ
read_byte buf pos = elim (get_elem? buf pos) [ none ↦ fault | some b ↦ done b ]

-- `CHECK_LENGTH (n)`
pub check_length : List ℕ → ℕ → ℕ → Outcome (Unit {0})
check_length buf pos n = guard (leb (pos + n) (length buf))

-- `tls_read_length`: the value and the new position.
pub read_length : List ℕ → ℕ → Outcome (ℕ × ℕ)
unfolding read_byte
read_length buf pos = do
  hi ← read_byte buf pos
  lo ← read_byte buf (pos + 1)
  done (hi * 256 + lo, pos + 2)

-- Equality of two texts of bytes.
pub bytes_eq : List ℕ → List ℕ → Bool
bytes_eq [] [] = true
bytes_eq [] (y ∷ ys) = false
bytes_eq (x ∷ xs) [] = false
bytes_eq (x ∷ xs) (y ∷ ys) = x == y && bytes_eq xs ys

-- `memcmp (buf + pos, str, sizeof (str)) == 0`, which may read all of both.
pub compare_at : List ℕ → ℕ → List ℕ → Outcome Bool
unfolding bytes_eq
compare_at buf pos str =
    if leb (pos + length str) (length buf)
    then done (bytes_eq (take (length str) (drop pos buf)) str)
    else fault

-- `EXPECT_STR (pos, str, error)`
pub expect : List ℕ → ℕ → List ℕ → Outcome (Unit {0})
unfolding compare_at
expect buf pos str = do guard (← compare_at buf pos str)

-- The loop over the `n` bytes of a name from `pos` on, none of which may be 0.
pub no_zeros : List ℕ → ℕ → ℕ → Outcome (Unit {0})
unfolding read_byte
no_zeros buf pos zero = done tt
no_zeros buf pos (suc n) = read_byte buf pos >>= λ b.
    let later = no_zeros buf (pos + 1) n in if b == 0 then reject else later

-- `memcpy (out, buf + pos, n)`
pub copy_bytes : List ℕ → ℕ → ℕ → Outcome (List ℕ)
copy_bytes buf pos n = if leb (pos + n) (length buf) then done (take n (drop pos buf)) else fault

-- The server name in an extension of `extension_length` bytes at `pos`.
pub sni_name : List ℕ → ℕ → ℕ → ℕ → Outcome (List ℕ)
unfolding check_length read_length no_zeros copy_bytes
sni_name hello max_domain_len extension_length pos = do
  check_length hello pos 5
  (inner_length, pos1) ← read_length hello pos
  guard (inner_length + 2 == extension_length)
  kind ← read_byte hello pos1
  guard (kind == 0)
  (domain_length, pos2) ← read_length hello (pos1 + 1)
  guard (domain_length + 5 == extension_length)
  no_zeros hello pos2 domain_length
  guard (ltb domain_length max_domain_len && ltb 0 domain_length)
  copy_bytes hello pos2 domain_length

-- The loop over the extensions; each round takes four bytes at least.
pub sni_loop : ℕ → List ℕ → ℕ → ℕ → Outcome (List ℕ)
unfolding sni_name
sni_loop zero hello max_domain_len pos = stuck
sni_loop (suc fuel) hello max_domain_len pos = do
  check_length hello pos 4
  (extension_id, pos1) ← read_length hello pos
  (extension_length, pos2) ← read_length hello pos1
  check_length hello pos2 extension_length
  let later = sni_loop fuel hello max_domain_len (pos2 + extension_length)
  if extension_id == 0 then sni_name hello max_domain_len extension_length pos2 else later

-- `tls_parse_sni`: the domain that is copied out; `reject` is -1.
pub parse_sni : List ℕ → ℕ → Outcome (List ℕ)
unfolding sni_loop
parse_sni hello max_domain_len = do
  check_length hello 76 2
  (cipher_suites_length, pos) ← read_length hello 76
  check_length hello pos (cipher_suites_length + 4)
  sni_loop (length hello) hello max_domain_len (pos + cipher_suites_length + 4)

-- The cipher suite that is chosen at `pos`, with `left` bytes of suites to come.
pub choose_suite : List ℕ → ℕ → ℕ → Outcome ℕ
unfolding read_byte
choose_suite hello left pos = if leb left 1 then reject else (do
  hi ← read_byte hello pos
  guard (hi == 0x13)
  lo ← read_byte hello (pos + 1)
  guard (leb 1 lo && leb lo 3)
  done lo)

-- The loop that skips GREASE values, two bytes a round.
pub skip_grease : List ℕ → ℕ → ℕ → Outcome ℕ
unfolding choose_suite
skip_grease hello (suc (suc left)) pos =
    let later = skip_grease hello left (pos + 2) in
    let chosen = choose_suite hello (suc (suc left)) pos in
    read_byte hello pos >>= λ hi.
    if hi % 16 == 0x0A
    then (read_byte hello (pos + 1) >>= λ lo. if lo % 16 == 0x0A then later else chosen)
    else chosen
skip_grease hello left pos = choose_suite hello left pos

-- `tls_parse_client_hello_ciphers`: the second byte of the suite; `reject` is -1.
pub parse_client_hello_ciphers : List ℕ → Outcome ℕ
unfolding skip_grease check_length read_length
parse_client_hello_ciphers hello = do
  check_length hello 76 2
  (cipher_suites_length, pos) ← read_length hello 76
  check_length hello pos cipher_suites_length
  skip_grease hello cipher_suites_length pos
