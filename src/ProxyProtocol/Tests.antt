-- ===== src/ProxyProtocol/Tests.antt =====
-- Concrete headers, and the theorems at concrete inputs.
use teleproxy.Base.{
  ℕ, ◌+◌, ◌*◌, ◌^◌, ◌≡◌, refl, List, [], ◌∷◌, ◌++◌, arith, Option, none, some, replicate,
}
use teleproxy.Base.Int.{ℤ, pos}
use teleproxy.ProxyProtocol.{inet, error, consumed, cleared, proxy_protocol_parse, pp1_signature}
use teleproxy.ProxyProtocol.Binary.{v2_header, parse-v2_inet}
use teleproxy.ProxyProtocol.Consume.{Took, proxy_protocol_parse-Took}

-- Every text is the address 7 and the number 80.
abbrev pton4 : List ℕ → Option ℕ
pton4 s = some 7

abbrev pton6 : List ℕ → Option (List ℕ)
pton6 s = none

abbrev number : List ℕ → ℤ
number s = pos 80

-- "PROXY TCP4 1 2 3 4" and a byte of data behind it.
abbrev line : List ℕ
line =
    pp1_signature
    ++ (b'T' ∷ b'C' ∷ b'P' ∷ b'4' ∷ b' ' ∷ b'1' ∷ b' ' ∷ b'2' ∷ b' ' ∷ b'3' ∷ b' ' ∷ b'4' ∷ 13 ∷ 10
        ∷ 9 ∷ [])

line_accepted :
    proxy_protocol_parse pton4 pton6 number line cleared
    ≡ (consumed 20, record cleared { family = inet; src_ip = 7; src_port = 80 }, 9 ∷ [])
unfolding proxy_protocol_parse
line_accepted = refl

long_line_refused :
    (proxy_protocol_parse pton4 pton6 number (pp1_signature ++ replicate 102 65) cleared).0 ≡ error
unfolding proxy_protocol_parse
long_line_refused = refl

parse-v2_inet_example :
    proxy_protocol_parse pton4 pton6 number
      (v2_header 0x11 (10 ∷ 0 ∷ 0 ∷ 1 ∷ 10 ∷ 0 ∷ 0 ∷ 2 ∷ 1 ∷ 187 ∷ 0 ∷ 80 ∷ (3 ∷ [])) ++ (5 ∷ []))
      cleared
    ≡ (
      consumed 29,
      record {
        family = inet;
        src_ip = 10 * 2 ^ 24 + 0 * 2 ^ 16 + 0 * 2 ^ 8 + 1;
        src_ipv6 = replicate 16 0;
        src_port = 1 * 2 ^ 8 + 187;
      },
      5 ∷ [],
    )
parse-v2_inet_example =
    parse-v2_inet pton4 pton6 number 10 0 0 1 10 0 0 2 1 187 0 80 (3 ∷ []) (5 ∷ []) cleared

proxy_protocol_parse-Took_example :
    Took 65551 line (proxy_protocol_parse pton4 pton6 number line cleared)
proxy_protocol_parse-Took_example =
    proxy_protocol_parse-Took pton4 pton6 number line cleared (omega arith)
