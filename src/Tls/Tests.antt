-- ===== src/Tls/Tests.antt =====
-- Concrete runs, and the theorems at concrete inputs.
use teleproxy.Base.{ℕ, ◌≡◌, ◌≢◌, refl, List, [], ◌∷◌, ◌++◌, arith, ◌⊎◌, true, replicate}
use teleproxy.Tls.{done, reject, fault, stuck, parse_sni, parse_client_hello_ciphers}
use teleproxy.Tls.Safe.{parse_sni_safe, parse_client_hello_ciphers_safe}
use teleproxy.Tls.Sni.{client_hello, parse_sni-client_hello}
use teleproxy.Tls.ServerHello.{Answer, check_server_hello}
use teleproxy.Tls.ServerHello.Records.{IsRead, check_server_hello_total}

-- A hello with the GREASE suite 0x1a1a in front of 0x1302.
grease_skipped :
    parse_client_hello_ciphers (replicate 76 0 ++ (0 ∷ 4 ∷ 0x1a ∷ 0x1a ∷ 0x13 ∷ 0x02 ∷ [])) ≡ done 2
unfolding parse_client_hello_ciphers
grease_skipped = refl

cut_hello_refused : parse_sni (replicate 80 0) 256 ≡ reject
unfolding parse_sni
cut_hello_refused = refl

parse_sni_safe_example :
    (parse_sni (replicate 90 0) 256 ≢ fault) × (parse_sni (replicate 90 0) 256 ≢ stuck)
parse_sni_safe_example = parse_sni_safe (replicate 90 0) 256

parse_client_hello_ciphers_safe_example :
    (parse_client_hello_ciphers (replicate 77 0) ≢ fault)
    × (parse_client_hello_ciphers (replicate 77 0) ≢ stuck)
parse_client_hello_ciphers_safe_example = parse_client_hello_ciphers_safe (replicate 77 0)

parse_sni-client_hello_example :
    parse_sni
      (client_hello
        (replicate 76 1)
        (0x13 ∷ 0x01 ∷ [])
        (1 ∷ 0 ∷ 0 ∷ 30 ∷ [])
        ((0x2b, 2 ∷ 3 ∷ 4 ∷ []) ∷ [])
        (b't' ∷ b'.' ∷ b'm' ∷ b'e' ∷ [])
        (0 ∷ []))
      256
    ≡ done (b't' ∷ b'.' ∷ b'm' ∷ b'e' ∷ [])
parse_sni-client_hello_example =
    parse_sni-client_hello (replicate 76 1) (0x13 ∷ 0x01 ∷ []) (1 ∷ 0 ∷ 0 ∷ 30 ∷ [])
      (b't' ∷ b'.' ∷ b'm' ∷ b'e' ∷ []) (0 ∷ []) ((0x2b, 2 ∷ 3 ∷ 4 ∷ []) ∷ []) 256 refl refl
      (omega arith) (omega arith) (omega arith) (omega arith) (omega arith)

-- A ServerHello with mirrored session, both extensions and one record of two bytes.
abbrev answer : List ℕ
answer =
    (0x16 ∷ 3 ∷ 3 ∷ 0 ∷ 122 ∷ 2 ∷ 0 ∷ 0 ∷ 118 ∷ 3 ∷ 3 ∷ [])
    ++ (replicate 32 7
        ++ ((0x20 ∷ [])
            ++ (replicate 32 9
                ++ ((0x13 ∷ 1 ∷ 0 ∷ 0 ∷ 46 ∷ 0 ∷ 0x2b ∷ 0 ∷ 2 ∷ 3 ∷ 4 ∷ 0 ∷ 0x33 ∷ 0 ∷ 36 ∷ [])
                    ++ (replicate 36 5
                        ++ (0x14 ∷ 3 ∷ 3 ∷ 0 ∷ 1 ∷ 1 ∷ 0x17 ∷ 3 ∷ 3 ∷ 0 ∷ 2 ∷ 8 ∷ 8 ∷ []))))))

answer_accepted :
    check_server_hello answer (replicate 32 9)
    ≡ done (record { reversed = true; sizes = 2 ∷ []; count = 1 })
unfolding check_server_hello
answer_accepted = refl

check_server_hello_total_example :
    (check_server_hello answer (replicate 32 9) ≡ reject)
    ⊎ ((a : Answer) × (check_server_hello answer (replicate 32 9) ≡ done a) × IsRead answer a)
check_server_hello_total_example = check_server_hello_total answer (replicate 32 9) refl
