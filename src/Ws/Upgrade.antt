-- ===== src/Ws/Upgrade.antt =====
-- src/net/net-websocket.c and the handshake in src/net/net-tcp-rpc-ext-server.c: the HTTP request that
-- asks for a WebSocket, and its answer. A text is the bytes in front of its NUL. The digest and the
-- base64 text are OpenSSL's.
pub mod Reply
mod Tests
use teleproxy.Base.{
  ℕ, zero, suc, ◌+◌, ◌-◌, Bool, true, false, not, ◌&&◌, ◌||◌, List, [], ◌∷◌, ◌++◌, arith, ltb, leb,
  ◌==◌, if◌then◌else◌, Option, none, some, length, take, drop, get_or,
}
use mathlib.Core.List.{map}
use teleproxy.Http.{lower}
use teleproxy.ProxyProtocol.{c_string}

abbrev pub crlf : List ℕ
crlf = 13 ∷ 10 ∷ []

abbrev pub crlf2 : List ℕ
crlf2 = 13 ∷ 10 ∷ 13 ∷ 10 ∷ []

abbrev pub get_space : List ℕ
get_space = b'G' ∷ b'E' ∷ b'T' ∷ b' ' ∷ []

abbrev pub space_http : List ℕ
space_http = b' ' ∷ b'H' ∷ b'T' ∷ b'T' ∷ b'P' ∷ b'/' ∷ []

abbrev pub upgrade_websocket : List ℕ
upgrade_websocket =
    b'U' ∷ b'p' ∷ b'g' ∷ b'r' ∷ b'a' ∷ b'd' ∷ b'e' ∷ b':' ∷ b' ' ∷ b'w' ∷ b'e' ∷ b'b' ∷ b's' ∷ b'o'
    ∷ b'c' ∷ b'k' ∷ b'e' ∷ b't' ∷ []

abbrev pub key_name : List ℕ
key_name =
    b'S' ∷ b'e' ∷ b'c' ∷ b'-' ∷ b'W' ∷ b'e' ∷ b'b' ∷ b'S' ∷ b'o' ∷ b'c' ∷ b'k' ∷ b'e' ∷ b't' ∷ b'-'
    ∷ b'K' ∷ b'e' ∷ b'y' ∷ b':' ∷ []

abbrev pub ws_magic_guid : List ℕ
ws_magic_guid =
    b'2' ∷ b'5' ∷ b'8' ∷ b'E' ∷ b'A' ∷ b'F' ∷ b'A' ∷ b'5' ∷ b'-' ∷ b'E' ∷ b'9' ∷ b'1' ∷ b'4' ∷ b'-'
    ∷ b'4' ∷ b'7' ∷ b'D' ∷ b'A' ∷ b'-' ∷ b'9' ∷ b'5' ∷ b'C' ∷ b'A' ∷ b'-' ∷ b'C' ∷ b'5' ∷ b'A'
    ∷ b'B' ∷ b'0' ∷ b'D' ∷ b'C' ∷ b'8' ∷ b'5' ∷ b'B' ∷ b'1' ∷ b'1' ∷ []

abbrev pub response_head : List ℕ
response_head =
    b'H' ∷ b'T' ∷ b'T' ∷ b'P' ∷ b'/' ∷ b'1' ∷ b'.' ∷ b'1' ∷ b' ' ∷ b'1' ∷ b'0' ∷ b'1' ∷ b' ' ∷ b'S'
    ∷ b'w' ∷ b'i' ∷ b't' ∷ b'c' ∷ b'h' ∷ b'i' ∷ b'n' ∷ b'g' ∷ b' ' ∷ b'P' ∷ b'r' ∷ b'o' ∷ b't'
    ∷ b'o' ∷ b'c' ∷ b'o' ∷ b'l' ∷ b's' ∷ 13 ∷ 10 ∷ b'U' ∷ b'p' ∷ b'g' ∷ b'r' ∷ b'a' ∷ b'd' ∷ b'e'
    ∷ b':' ∷ b' ' ∷ b'w' ∷ b'e' ∷ b'b' ∷ b's' ∷ b'o' ∷ b'c' ∷ b'k' ∷ b'e' ∷ b't' ∷ 13 ∷ 10 ∷ b'C'
    ∷ b'o' ∷ b'n' ∷ b'n' ∷ b'e' ∷ b'c' ∷ b't' ∷ b'i' ∷ b'o' ∷ b'n' ∷ b':' ∷ b' ' ∷ b'U' ∷ b'p'
    ∷ b'g' ∷ b'r' ∷ b'a' ∷ b'd' ∷ b'e' ∷ 13 ∷ 10 ∷ b'S' ∷ b'e' ∷ b'c' ∷ b'-' ∷ b'W' ∷ b'e' ∷ b'b'
    ∷ b'S' ∷ b'o' ∷ b'c' ∷ b'k' ∷ b'e' ∷ b't' ∷ b'-' ∷ b'A' ∷ b'c' ∷ b'c' ∷ b'e' ∷ b'p' ∷ b't'
    ∷ b':' ∷ b' ' ∷ []

pub starts_with : List ℕ → List ℕ → Bool
starts_with [] text = true
starts_with (n ∷ ns) [] = false
starts_with (n ∷ ns) (c ∷ cs) = n == c && starts_with ns cs

-- `strstr`, for a needle that is not empty: the place of the first occurrence.
pub find : List ℕ → List ℕ → Option ℕ
unfolding starts_with
find needle [] = none
find needle (c ∷ cs) =
    let later = find needle cs in
    if starts_with needle (c ∷ cs)
    then some 0
    else elim later [ none ↦ none | some n ↦ some (suc n) ]

-- `strcasestr`
pub find_case : List ℕ → List ℕ → Option ℕ
unfolding find
find_case needle text = find (map lower needle) (map lower text)

pub skip_spaces : List ℕ → List ℕ
skip_spaces [] = []
skip_spaces (c ∷ cs) = let rest = skip_spaces cs in if c == b' ' then rest else c ∷ cs

-- A length cut to a buffer with its NUL.
abbrev pub clip : ℕ → ℕ → ℕ
clip len n = if leb len n then len - 1 else n

-- Return value 0, -1 or 1, the last with the path and the key that are stored.
pub data Upgrade : Type 0 where
  need_more refused : Upgrade
  upgrade : List ℕ → List ℕ → Upgrade

-- The key, in a request with this path.
pub upgrade_key : ℕ → List ℕ → List ℕ → Upgrade
unfolding find_case skip_spaces
upgrade_key ws_key_len text path = elim (find_case key_name text) [
  | none ↦ refused
  | some k ↦
      let value = skip_spaces (drop (k + 18) text) in
      elim (find crlf value) [
        | none ↦ refused
        | some klen ↦ upgrade path (take (clip ws_key_len klen) value)
      ]
]

-- A request whose headers are there. Without a NUL in its method the text has the same first bytes
-- as the buffer.
pub upgrade_request : ℕ → ℕ → List ℕ → Upgrade
upgrade_request ws_key_len path_len text =
    if not (starts_with get_space text) then refused else elim (find space_http (drop 4 text)) [
      | none ↦ refused
      | some plen ↦ elim (find_case upgrade_websocket text) [
        | none ↦ refused
        | some u ↦ upgrade_key ws_key_len text (take (clip path_len plen) (drop 4 text))
      ]
    ]

-- `ws_parse_upgrade_request`
unfoldable pub ws_parse_upgrade_request : List ℕ → ℕ → ℕ → Upgrade
unfolding c_string
ws_parse_upgrade_request raw ws_key_len path_len =
    if ltb (length raw) 4
    then need_more
    else (let text = c_string (take 4096 raw) in
        elim (find crlf2 text) [
          | none ↦ if leb 4096 (length raw) then refused else need_more
          | some end ↦ upgrade_request ws_key_len path_len text
        ])

pub data WsState : Type 0 where
  ws_state_none ws_state_handshake ws_state_active ws_state_http_stream : WsState

pub record Handshake : Type 0 where
  pub input : List ℕ
  pub output : List ℕ
  pub ws_state : WsState

-- What the caller does next: it waits for bytes, goes on with the input, or fails the connection.
pub data Next : Type 0 where
  waits goes_on fails : Next

-- `ws_build_upgrade_response`: what is stored, and the number that is returned.
pub ws_build_upgrade_response : List ℕ → ℕ → List ℕ × ℕ
ws_build_upgrade_response accept_key buf_len =
    let text = response_head ++ (accept_key ++ crlf2) in (take (buf_len - 1) text, length text)

module _ (sha1 base64 : List ℕ → List ℕ) where
  -- `ws_compute_accept_key`: `none` is the return value -1.
  pub ws_compute_accept_key : List ℕ → ℕ → Option (List ℕ)
  ws_compute_accept_key key out_len =
      if ltb 256 (length key + 37)
      then none
      else (let text = base64 (sha1 (key ++ ws_magic_guid)) in
          if leb out_len (length text) then none else some text)

  -- The answer to a request.
  pub ws_answer : List ℕ → Handshake → Handshake × Next
  ws_answer key c = elim (ws_compute_accept_key key 64) [
    | none ↦ (c, fails)
    | some accept_key ↦
        let (response, resp_len) = ws_build_upgrade_response accept_key 512 in
        let consume : ℕ = elim (find crlf2 (c_string (take 4096 c.input))) [
          | none ↦ length (take 4096 c.input)
          | some end ↦ end + 4
        ] in
        let rest = drop consume c.input in
        (
          record c {
            input = rest;
            output = c.output ++ take resp_len response;
            ws_state = ws_state_active;
          },
          if length rest == 0 then waits else goes_on,
        )
  ]

  -- The probe for an upgrade.
  unfoldable pub ws_handshake : Handshake → Handshake × Next
  ws_handshake c = elim (ws_parse_upgrade_request c.input 128 256) [
    | need_more ↦ (c, waits)
    | refused ↦ (record c { ws_state = ws_state_none }, goes_on)
    | upgrade path key ↦ ws_answer key c
  ]
