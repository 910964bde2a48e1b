-- ===== src/ProxyProtocol.antt =====
-- src/net/net-proxy-protocol.c: the PROXY protocol header, version 1 and 2, in front of a client's
-- data. A raw_message is the list of its bytes. `inet_pton` (with `ntohl`) and `atoi` of the C
-- library are parameters.
pub mod Consume
pub mod Binary
mod Tests
use teleproxy.Base.{
  ℕ, zero, suc, ◌+◌, ◌-◌, ◌*◌, ◌/◌, ◌%◌, ◌^◌, Bool, true, false, not, ◌&&◌, ◌||◌, List, [], ◌∷◌,
  ◌++◌, arith, ltb, leb, ◌==◌, if◌then◌else◌, length, Option, none, some, replicate, take, drop,
  get_or, min,
}
use teleproxy.Base.Int.{ℤ, pos, negsuc}

pub data Family : Type 0 where
  unspec inet inet6 : Family

-- `struct proxy_protocol_result`
pub record Source : Type 0 where
  pub family : Family
  pub src_ip : ℕ
  pub src_ipv6 : List ℕ
  pub src_port : ℕ

-- The return value: -1, 0, or the number of bytes taken.
pub data Ret : Type 0 where
  error : Ret
  more : Ret
  consumed : ℕ → Ret

-- What a call returns, its output argument, and the input after it.
abbrev pub Parsed : Type 0
Parsed = Ret × Source × List ℕ

-- `memset (out, 0, sizeof (*out))`
abbrev pub cleared : Source
cleared = record { family = unspec; src_ip = 0; src_ipv6 = replicate 16 0; src_port = 0 }

pub bytes_eq : List ℕ → List ℕ → Bool
bytes_eq [] [] = true
bytes_eq [] (y ∷ ys) = false
bytes_eq (x ∷ xs) [] = false
bytes_eq (x ∷ xs) (y ∷ ys) = x == y && bytes_eq xs ys

abbrev pub pp2_signature : List ℕ
pp2_signature =
    0x0d ∷ 0x0a ∷ 0x0d ∷ 0x0a ∷ 0x00 ∷ 0x0d ∷ 0x0a ∷ 0x51 ∷ 0x55 ∷ 0x49 ∷ 0x54 ∷ 0x0a ∷ []

abbrev pub pp1_signature : List ℕ
pp1_signature = b'P' ∷ b'R' ∷ b'O' ∷ b'X' ∷ b'Y' ∷ b' ' ∷ []

-- The bytes in front of the first CR LF.
pub before_crlf : List ℕ → Option (List ℕ)
before_crlf [] = none
before_crlf (a ∷ []) = none
before_crlf (a ∷ b ∷ s) =
    let later = before_crlf (b ∷ s) in
    if a == 13 && b == 10 then some [] else elim later [ none ↦ none | some l ↦ some (a ∷ l) ]

-- The C string at the start of a buffer.
unfoldable pub c_string : List ℕ → List ℕ
c_string [] = []
c_string (c ∷ s) = let rest = c_string s in if c == 0 then [] else c ∷ rest

-- `strchr (p, ' ')`: what is in front of the first space, and what is behind it.
pub split_space : List ℕ → Option (List ℕ × List ℕ)
split_space [] = none
split_space (c ∷ s) =
    let later = split_space s in
    if c == 32 then some ([], s) else elim later [ none ↦ none | some (a, b) ↦ some (c ∷ a, b) ]

-- `(unsigned short) x`
abbrev pub to_u16 : ℤ → ℕ
to_u16 (pos n) = n % 2 ^ 16
to_u16 (negsuc n) = 2 ^ 16 - 1 - n % 2 ^ 16

abbrev pub be16 : List ℕ → ℕ → ℕ
be16 buf i = get_or buf i 0 * 2 ^ 8 + get_or buf (i + 1) 0

abbrev pub be32 : List ℕ → ℕ → ℕ
be32 buf i =
    get_or buf i 0 * 2 ^ 24
    + get_or buf (i + 1) 0 * 2 ^ 16
    + get_or buf (i + 2) 0 * 2 ^ 8
    + get_or buf (i + 3) 0

-- What version 2 says of the source.
pub v2_source : ℕ → ℕ → List ℕ → Source
v2_source fam addr_len raw =
    if fam == 1 && leb 12 addr_len
    then record cleared { family = inet; src_ip = be32 raw 16; src_port = be16 raw 24 }
    else if fam == 2 && leb 36 addr_len
    then record cleared { family = inet6; src_ipv6 = take 16 (drop 16 raw); src_port = be16 raw 48 }
    else cleared

pub parse_v2 : List ℕ → Source → Parsed
unfolding v2_source
parse_v2 raw out =
    let ver_cmd = get_or raw 12 0 in
    let addr_len = be16 raw 14 in
    let total_len = 16 + addr_len in
    if ltb (length raw) 16
    then (more, out, raw)
    else if not (ver_cmd / 16 % 16 == 2)
    then (error, out, raw)
    else if ltb 1 (ver_cmd % 16)
    then (error, out, raw)
    else if ltb (length raw) total_len
    then (more, out, raw)
    else if ver_cmd % 16 == 0
    then (consumed total_len, cleared, drop total_len raw)
    else (
      consumed total_len,
      v2_source (get_or raw 13 0 / 16 % 16) addr_len raw,
      drop total_len raw,
    )

module _ (inet_pton4 : List ℕ → Option ℕ) (inet_pton6 : List ℕ → Option (List ℕ))
    (atoi : List ℕ → ℤ) where
  -- The source port, behind the destination address; `none` is the return value -1.
  pub v1_port : List ℕ → Option ℕ
  unfolding split_space
  v1_port text = elim (split_space text) [
    | none ↦ none
    | some (destination, rest) ↦ elim (split_space rest) [
      | none ↦ none
      | some (port, remainder) ↦ some (to_u16 (atoi port))
    ]
  ]

  -- The addresses of a line of version 1: whether it is well formed, and the output argument.
  pub v1_addresses : Family → List ℕ → Bool × Source
  unfolding v1_port
  v1_addresses family text = elim (split_space text) [
    | none ↦ (false, cleared)
    | some (source, rest) ↦
        let named : Option Source = elim family [
          | inet ↦ elim (inet_pton4 source) [
            | none ↦ none
            | some a ↦ some (record cleared { family = inet; src_ip = a })
          ]
          | _ ↦ elim (inet_pton6 source) [
            | none ↦ none
            | some a ↦ some (record cleared { family = inet6; src_ipv6 = a })
          ]
        ] in
        elim named [
          | none ↦ (false, record cleared { family = family })
          | some s ↦ elim (v1_port rest) [
            | none ↦ (false, s)
            | some p ↦ (true, record s { src_port = p })
          ]
        ]
  ]

  -- A line of version 1 behind the signature.
  pub v1_line : List ℕ → Bool × Source
  unfolding bytes_eq v1_addresses
  v1_line text =
      if bytes_eq (take 7 text) (b'U' ∷ b'N' ∷ b'K' ∷ b'N' ∷ b'O' ∷ b'W' ∷ b'N' ∷ [])
      then (true, cleared)
      else if bytes_eq (take 5 text) (b'T' ∷ b'C' ∷ b'P' ∷ b'4' ∷ b' ' ∷ [])
      then v1_addresses inet (drop 5 text)
      else if bytes_eq (take 5 text) (b'T' ∷ b'C' ∷ b'P' ∷ b'6' ∷ b' ' ∷ [])
      then v1_addresses inet6 (drop 5 text)
      else (false, cleared)

  pub parse_v1 : List ℕ → Source → Parsed
  unfolding before_crlf c_string v1_line
  parse_v1 raw out =
      if ltb (length raw) 15
      then (more, out, raw)
      else (let peek_len = min (length raw) 108 in
          elim (before_crlf (drop 6 (take peek_len raw))) [
            | none ↦ if leb 108 peek_len then (error, out, raw) else (more, out, raw)
            | some line ↦
                let header_len = length line + 8 in
                let (fine, source) = v1_line (c_string line) in
                if fine
                then (consumed header_len, source, drop header_len raw)
                else (error, source, raw)
          ])

  -- `proxy_protocol_parse`
  pub proxy_protocol_parse : List ℕ → Source → Parsed
  unfolding bytes_eq parse_v1 parse_v2
  proxy_protocol_parse raw out =
      if ltb (length raw) 6
      then (more, out, raw)
      else if bytes_eq (take 6 raw) pp1_signature
      then parse_v1 raw out
      else if leb 12 (length raw) && bytes_eq (take 12 raw) pp2_signature
      then parse_v2 raw out
      else if ltb (length raw) 12
      then (more, out, raw)
      else (error, out, raw)
