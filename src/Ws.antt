-- ===== src/Ws.antt =====
-- src/net/net-websocket.c: WebSocket frame headers (RFC 6455) and the masking of payloads.
-- A raw_message is the list of its bytes. An `int` that the code compares after an addition is its
-- bit pattern, below 2 ^ 32, since the program is built with -fwrapv.
pub mod Header
pub mod Bounds
pub mod Mask
pub mod Upgrade
mod Tests
use Prim.Native.Nat.{bit_or, bit_xor}
use teleproxy.Base.{
  ℕ, zero, suc, ◌+◌, ◌*◌, ◌/◌, ◌%◌, ◌^◌, Bool, true, false, not, ◌&&◌, ◌||◌, List, [], ◌∷◌, ◌++◌,
  arith, ltb, leb, ◌==◌, if◌then◌else◌, length, get_or, drop, take, min,
}

-- The WebSocket fields of `struct connection_info`.
pub record Conn : Type 0 where
  pub ws_mask : List ℕ
  pub ws_mask_offset : ℕ
  pub ws_frame_remaining : ℕ

-- What the parser returns: -1, or a number that is not negative.
pub data Ret : Type 0 where
  fail : Ret
  ret : ℕ → Ret

-- What the length field gives: more bytes are needed, the frame is refused, or the payload's
-- length and the position after the field.
pub data Field : Type 0 where
  short : Field
  too_large : Field
  field : ℕ → ℕ → Field

abbrev pub opcode_close : ℕ
opcode_close = 0x8

abbrev pub opcode_ping : ℕ
opcode_ping = 0x9

abbrev pub opcode_pong : ℕ
opcode_pong = 0xA

-- `a < b` for two `int`s given by their bit patterns.
abbrev pub lt_i32 : ℕ → ℕ → Bool
lt_i32 a b = ltb ((a + 2 ^ 31) % 2 ^ 32) ((b + 2 ^ 31) % 2 ^ 32)

-- `rwm_skip_data`: a count that is not positive skips nothing, one past the end skips all.
abbrev pub skip_data : ℕ → List ℕ → List ℕ
skip_data n raw = if ltb n (2 ^ 31) then drop n raw else raw

-- The 64-bit length field, of which the upper four bytes must be 0.
pub read_length64 : List ℕ → Field
read_length64 h =
    if bit_or (bit_or (bit_or (get_or h 2 0) (get_or h 3 0)) (get_or h 4 0)) (get_or h 5 0) == 0
    then (let n =
          get_or h 6 0 * 2 ^ 24 + get_or h 7 0 * 2 ^ 16 + get_or h 8 0 * 2 ^ 8 + get_or h 9 0 in
        if leb (2 ^ 31) n then too_large else field n 10)
    else too_large

-- The length in byte 1, or in the 2 or 8 bytes that follow it.
pub read_length : ℕ → List ℕ → Field
unfolding read_length64
read_length peek_len h =
    let len7 = get_or h 1 0 % 128 in
    if len7 == 126
    then (if ltb peek_len 4 then short else field (get_or h 2 0 * 2 ^ 8 + get_or h 3 0) 4)
    else if len7 == 127
    then (if ltb peek_len 10 then short else read_length64 h)
    else field len7 2

-- From the end of the header on: control frames are dropped, data frames announced.
pub dispatch : ℕ → ℕ → ℕ → Conn → List ℕ → Ret × Conn × List ℕ
dispatch opcode header_len payload_len c raw =
    let total = length raw in
    let frame_len = (header_len + payload_len) % 2 ^ 32 in
    if opcode == opcode_close
    then (fail, c, raw)
    else if opcode == opcode_ping || opcode == opcode_pong
    then (if lt_i32 total frame_len then (ret 0, c, raw) else (ret 0, c, skip_data frame_len raw))
    else if ltb total header_len
    then (ret 0, c, raw)
    else (ret payload_len, record c { ws_frame_remaining = payload_len }, skip_data header_len raw)

-- Reads the mask, if the frame has one.
pub read_mask : List ℕ → ℕ → ℕ → ℕ → Conn → List ℕ → Ret × Conn × List ℕ
unfolding dispatch
read_mask h peek_len payload_len pos c raw =
    let opcode = get_or h 0 0 % 16 in
    if get_or h 1 0 / 128 % 2 == 1
    then (if ltb peek_len (pos + 4)
        then (ret 0, c, raw)
        else dispatch opcode (pos + 4) payload_len
            (record c { ws_mask = take 4 (drop pos h); ws_mask_offset = 0 }) raw)
    else dispatch opcode pos payload_len c raw

pub with_length : Field → List ℕ → ℕ → Conn → List ℕ → Ret × Conn × List ℕ
unfolding read_mask
with_length short h peek_len c raw = (ret 0, c, raw)
with_length too_large h peek_len c raw = (fail, c, raw)
with_length (field payload_len pos) h peek_len c raw = read_mask h peek_len payload_len pos c raw

-- `ws_parse_frame_header`, from the connection and the input to both after the call.
pub parse_frame_header : Conn → List ℕ → Ret × Conn × List ℕ
unfolding with_length read_length
parse_frame_header c raw =
    if ltb (length raw) 2
    then (ret 0, c, raw)
    else (let peek_len = min (length raw) 14 in
        let header = take peek_len raw in
        with_length (read_length peek_len header) header peek_len c raw)

-- The header that `ws_write_frame_header` pushes, and the output after it.
pub frame_header : ℕ → List ℕ
frame_header payload_len =
    if ltb payload_len 126
    then 0x82 ∷ payload_len ∷ []
    else if ltb payload_len 65536
    then 0x82 ∷ 126 ∷ payload_len / 2 ^ 8 % 256 ∷ payload_len % 256 ∷ []
    else 0x82
      ∷ 127
      ∷ 0
      ∷ 0
      ∷ 0
      ∷ 0
      ∷ payload_len / 2 ^ 24 % 256
      ∷ payload_len / 2 ^ 16 % 256
      ∷ payload_len / 2 ^ 8 % 256
      ∷ payload_len % 256
      ∷ []

pub write_frame_header : List ℕ → ℕ → ℕ × List ℕ
unfolding frame_header
write_frame_header out payload_len =
    (length (frame_header payload_len), out ++ frame_header payload_len)

-- The bytes of the loop of `ws_unmask_data` from the mask's index `k` on.
pub unmask_from : List ℕ → ℕ → List ℕ → List ℕ
unmask_from mask k [] = []
unmask_from mask k (b ∷ bs) = bit_xor b (get_or mask (k % 4) 0) ∷ unmask_from mask (k + 1) bs

pub unmask_data : Conn → List ℕ → Conn × List ℕ
unfolding unmask_from
unmask_data c bytes = (
  record c { ws_mask_offset = (c.ws_mask_offset + length bytes) % 4 },
  unmask_from c.ws_mask c.ws_mask_offset bytes,
)
