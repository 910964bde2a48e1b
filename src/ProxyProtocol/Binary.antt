-- ===== src/ProxyProtocol/Binary.antt =====
-- Version 2 headers are read back.
use teleproxy.Base.{
  ℕ, ◌+◌, ◌*◌, ◌/◌, ◌%◌, ◌^◌, ◌≡◌, List, ◌∷◌, ◌++◌, arith, length, Option, replicate, drop,
  length-append, drop-append,
}
use teleproxy.Base.Int.{ℤ}
use teleproxy.ProxyProtocol.{
  inet, Source, consumed, pp2_signature, parse_v2, v2_source, proxy_protocol_parse,
}

-- A version 2 header with the PROXY command: family and transport, then the length and the bytes
-- of addresses and extensions.
abbrev pub v2_header : ℕ → List ℕ → List ℕ
v2_header fam_proto body =
    pp2_signature ++ (0x21 ∷ fam_proto ∷ length body / 256 ∷ length body % 256 ∷ body)

drop_body :
    (fam_proto : ℕ) (body rest : List ℕ)
    → drop (16 + length body) (v2_header fam_proto body ++ rest) ≡ rest
drop_body fam_proto body rest =
    let e : 16 + length body ≡ length (v2_header fam_proto body) = omega arith in
    rw e (drop-append (v2_header fam_proto body) rest)

parse_v2_lem :
    (fam_proto : ℕ) (body rest : List ℕ) (out : Source)
    → parse_v2 (v2_header fam_proto body ++ rest) out ≡ (
      consumed (16 + length body),
      v2_source (fam_proto / 16 % 16) (length body) (v2_header fam_proto body ++ rest),
      rest,
    )
unfolding parse_v2
parse_v2_lem fam_proto body rest out =
    ground (arith, length-append body rest, drop_body fam_proto body rest)

module _ (inet_pton4 : List ℕ → Option ℕ) (inet_pton6 : List ℕ → Option (List ℕ))
    (atoi : List ℕ → ℤ) where
  -- A version 2 header for TCP over IPv4, with any extensions, is taken off whole and gives the
  -- source address and port, whatever follows it and whatever the output argument held.
  pub parse-v2_inet :
      (i0 i1 i2 i3 d0 d1 d2 d3 p0 p1 q0 q1 : ℕ) (extensions rest : List ℕ) (out : Source)
      → let body = i0 ∷ i1 ∷ i2 ∷ i3 ∷ d0 ∷ d1 ∷ d2 ∷ d3 ∷ p0 ∷ p1 ∷ q0 ∷ q1 ∷ extensions in
        proxy_protocol_parse inet_pton4 inet_pton6 atoi (v2_header 0x11 body ++ rest) out ≡ (
          consumed (16 + length body),
          record {
            family = inet;
            src_ip = i0 * 2 ^ 24 + i1 * 2 ^ 16 + i2 * 2 ^ 8 + i3;
            src_ipv6 = replicate 16 0;
            src_port = p0 * 2 ^ 8 + p1;
          },
          rest,
        )
  unfolding proxy_protocol_parse v2_source
  parse-v2_inet i0 i1 i2 i3 d0 d1 d2 d3 p0 p1 q0 q1 extensions rest out = ground (
    arith,
    parse_v2_lem 0x11 (i0 ∷ i1 ∷ i2 ∷ i3 ∷ d0 ∷ d1 ∷ d2 ∷ d3 ∷ p0 ∷ p1 ∷ q0 ∷ q1 ∷ extensions) rest
        out,
  )
