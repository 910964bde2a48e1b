-- ===== src/Tls/Safe.antt =====
-- No parser reads out of bounds or runs for ever, whatever bytes it is given.
use teleproxy.Base.{ℕ, zero, suc, ◌+◌, ◌≤◌, ◌<◌, List, arith, length, ◌≢◌}
use teleproxy.Tls.{
  fault, stuck, check_length, sni_name, sni_loop, parse_sni, choose_suite, skip_grease,
  parse_client_hello_ciphers,
}
use teleproxy.Tls.Reads.{IsSafe, IsSafe_lem, read_byte_lem, be16, read_length_lem, no_zeros-IsSafe}

sni_name-IsSafe :
    (hello : List ℕ) (max_domain_len extension_length pos : ℕ)
    → pos + extension_length ≤ length hello
    → IsSafe (sni_name hello max_domain_len extension_length pos)
unfolding sni_name
sni_name-IsSafe hello max_domain_len extension_length pos h = ground (
  arith,
  read_length_lem hello pos,
  read_byte_lem hello (pos + 2),
  read_length_lem hello (pos + 2 + 1),
  no_zeros-IsSafe hello (pos + 2 + 1 + 2) (be16 hello (pos + 2 + 1)),
)

sni_loop-IsSafe :
    (fuel : ℕ) (hello : List ℕ) (max_domain_len pos : ℕ)
    → pos ≤ length hello
    → length hello < fuel + pos
    → IsSafe (sni_loop fuel hello max_domain_len pos)
unfolding sni_loop check_length
sni_loop-IsSafe zero hello max_domain_len pos hp hf = absurd (omega arith)
sni_loop-IsSafe (suc fuel) hello max_domain_len pos hp hf = ground (
  arith,
  read_length_lem hello pos,
  read_length_lem hello (pos + 2),
  sni_name-IsSafe hello max_domain_len (be16 hello (pos + 2)) (pos + 2 + 2),
  sni_loop-IsSafe fuel hello max_domain_len (pos + 2 + 2 + be16 hello (pos + 2)),
)

parse_sni-IsSafe : (hello : List ℕ) (max_domain_len : ℕ) → IsSafe (parse_sni hello max_domain_len)
unfolding parse_sni check_length
parse_sni-IsSafe hello max_domain_len = ground (
  arith,
  read_length_lem hello 76,
  sni_loop-IsSafe (length hello) hello max_domain_len (76 + 2 + be16 hello 76 + 4),
)

-- On every input, however malformed, the search for the server name reads inside the buffer only,
-- and ends.
pub parse_sni_safe :
    (hello : List ℕ) (max_domain_len : ℕ)
    → (parse_sni hello max_domain_len ≢ fault) × (parse_sni hello max_domain_len ≢ stuck)
parse_sni_safe hello max_domain_len = IsSafe_lem _ (parse_sni-IsSafe hello max_domain_len)

choose_suite-IsSafe :
    (hello : List ℕ) (left pos : ℕ)
    → pos + left ≤ length hello
    → IsSafe (choose_suite hello left pos)
unfolding choose_suite
choose_suite-IsSafe hello left pos h =
    ground (arith, read_byte_lem hello pos, read_byte_lem hello (pos + 1))

skip_grease-IsSafe :
    (hello : List ℕ) (left pos : ℕ)
    → pos + left ≤ length hello
    → IsSafe (skip_grease hello left pos)
unfolding skip_grease
skip_grease-IsSafe hello (suc (suc left)) pos h = ground (
  arith,
  read_byte_lem hello pos,
  read_byte_lem hello (pos + 1),
  skip_grease-IsSafe hello left (pos + 2),
  choose_suite-IsSafe hello (suc (suc left)) pos,
)
skip_grease-IsSafe hello (suc zero) pos h = choose_suite-IsSafe hello 1 pos h
skip_grease-IsSafe hello zero pos h = choose_suite-IsSafe hello 0 pos h

parse_client_hello_ciphers-IsSafe : (hello : List ℕ) → IsSafe (parse_client_hello_ciphers hello)
unfolding parse_client_hello_ciphers
parse_client_hello_ciphers-IsSafe hello =
    ground (arith, read_length_lem hello 76, skip_grease-IsSafe hello (be16 hello 76) (76 + 2))

-- On every input the choice of the cipher suite reads inside the buffer only.
pub parse_client_hello_ciphers_safe :
    (hello : List ℕ)
    → (parse_client_hello_ciphers hello ≢ fault) × (parse_client_hello_ciphers hello ≢ stuck)
parse_client_hello_ciphers_safe hello = IsSafe_lem _ (parse_client_hello_ciphers-IsSafe hello)
