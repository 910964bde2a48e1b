-- ===== src/Ws/Bounds.antt =====
-- Frame headers: what the parser may take and change, on every input.
use teleproxy.Base.{
  ℕ, suc, ◌+◌, ◌%◌, ◌^◌, ◌≤◌, ◌<◌, ◌≡◌, refl, List, arith, length, get_or, drop, take, min, All,
  get_or-lt, length-drop, ◌⊎◌,
}
use teleproxy.Ws.{
  Conn, fail, ret, Field, short, too_large, field, read_length64, read_length, dispatch, read_mask,
  with_length, parse_frame_header,
}
use teleproxy.Ws.Header.{parse_frame_header_eq}

-- The field lies in the header, and its value in the range of `int`.
read_length_bounds :
    (raw : List ℕ) (peek_len payload_len pos : ℕ)
    → All (λ b. b < 256) raw
    → 2 ≤ peek_len
    → read_length peek_len raw ≡ field payload_len pos
    → (payload_len < 2 ^ 31) × (2 ≤ pos) × (pos ≤ peek_len) × (pos ≤ 10)
unfolding read_length read_length64
read_length_bounds raw peek_len payload_len pos bs hp e =
    ground (arith, get_or-lt 256 raw 2 (omega arith) bs, get_or-lt 256 raw 3 (omega arith) bs)

-- What one call of `dispatch` does, for a header that lies in the input.
dispatch_data :
    (opcode header_len payload_len n : ℕ) (c c' : Conn) (raw raw' : List ℕ)
    → header_len < 2 ^ 31
    → header_len ≤ length raw
    → dispatch opcode header_len payload_len c raw ≡ (ret (suc n), c', raw')
    → (payload_len ≡ suc n)
      × (c'.ws_frame_remaining ≡ suc n)
      × (length raw' + header_len ≡ length raw)
unfolding dispatch
dispatch_data opcode header_len payload_len n c c' raw raw' hh hr e =
    ground (arith, length-drop header_len raw)

read_mask_data :
    (peek_len payload_len pos n : ℕ) (c c' : Conn) (raw raw' : List ℕ)
    → pos ≤ 10
    → pos ≤ peek_len
    → peek_len ≤ length raw
    → read_mask raw peek_len payload_len pos c raw ≡ (ret (suc n), c', raw')
    → (payload_len ≡ suc n)
      × (c'.ws_frame_remaining ≡ suc n)
      × (length raw' + pos ≤ length raw)
      × (length raw ≤ length raw' + pos + 4)
unfolding read_mask
read_mask_data peek_len payload_len pos n c c' raw raw' h10 hp hr e = ground (
  arith,
  dispatch_data (get_or raw 0 0 % 16) (pos + 4) payload_len n
      (record c { ws_mask = take 4 (drop pos raw); ws_mask_offset = 0 }) c' raw raw',
  dispatch_data (get_or raw 0 0 % 16) pos payload_len n c c' raw raw',
)

with_length_data :
    (f : Field) (peek_len n : ℕ) (c c' : Conn) (raw raw' : List ℕ)
    → All (λ b. b < 256) raw
    → 2 ≤ peek_len
    → peek_len ≤ length raw
    → read_length peek_len raw ≡ f
    → with_length f raw peek_len c raw ≡ (ret (suc n), c', raw')
    → (suc n < 2 ^ 31)
      × (c'.ws_frame_remaining ≡ suc n)
      × (length raw' + 2 ≤ length raw)
      × (length raw ≤ length raw' + 14)
unfolding with_length
with_length_data short peek_len n c c' raw raw' bs h2 hr ef e = cc
with_length_data too_large peek_len n c c' raw raw' bs h2 hr ef e = cc
with_length_data (field len pos) peek_len n c c' raw raw' bs h2 hr ef e = ground (
  arith,
  read_length_bounds raw peek_len len pos bs h2 ef,
  read_mask_data peek_len len pos n c c' raw raw',
)

-- When the parser announces a payload, it fits an `int`, it is stored in the connection, and
-- between 2 and 14 bytes were taken off the input: never more than one header.
pub parse_frame_header_data :
    (c c' : Conn) (raw raw' : List ℕ) (n : ℕ)
    → All (λ b. b < 256) raw
    → parse_frame_header c raw ≡ (ret (suc n), c', raw')
    → (suc n < 2 ^ 31)
      × (c'.ws_frame_remaining ≡ suc n)
      × (length raw' + 2 ≤ length raw)
      × (length raw ≤ length raw' + 14)
parse_frame_header_data c c' raw raw' n bs e = ground (
  arith,
  parse_frame_header_eq c raw,
  short_input,
  with_length_data (read_length (min (length raw) 14) raw) (min (length raw) 14) n c c' raw raw' bs,
)
  where
    short_input : length raw < 2 → parse_frame_header c raw ≡ (ret 0, c, raw)
    short_input h = unfold parse_frame_header in ground arith

dispatch_control :
    (opcode header_len payload_len : ℕ) (c : Conn) (raw : List ℕ)
    → header_len < 2 ^ 31
    → 8 ≤ opcode
    → opcode ≤ 10
    → let (r, c', raw') = dispatch opcode header_len payload_len c raw in
      ((r ≡ fail) ⊎ (r ≡ ret 0)) × (c' ≡ c)
unfolding dispatch
dispatch_control opcode header_len payload_len c raw hh h8 h10 = ground arith

read_mask_control :
    (peek_len payload_len pos : ℕ) (c : Conn) (raw : List ℕ)
    → pos ≤ 10
    → 8 ≤ get_or raw 0 0 % 16
    → get_or raw 0 0 % 16 ≤ 10
    → let (r, c', raw') = read_mask raw peek_len payload_len pos c raw in
      ((r ≡ fail) ⊎ (r ≡ ret 0)) × (c'.ws_frame_remaining ≡ c.ws_frame_remaining)
unfolding read_mask
read_mask_control peek_len payload_len pos c raw hp h8 h10 = ground (
  arith,
  dispatch_control (get_or raw 0 0 % 16) (pos + 4) payload_len
      (record c { ws_mask = take 4 (drop pos raw); ws_mask_offset = 0 }) raw,
  dispatch_control (get_or raw 0 0 % 16) pos payload_len c raw,
)

read_length_pos :
    (raw : List ℕ) (peek_len payload_len pos : ℕ)
    → read_length peek_len raw ≡ field payload_len pos
    → pos ≤ 10
unfolding read_length read_length64
read_length_pos raw peek_len payload_len pos e = ground arith

with_length_control :
    (f : Field) (peek_len : ℕ) (c : Conn) (raw : List ℕ)
    → read_length peek_len raw ≡ f
    → 8 ≤ get_or raw 0 0 % 16
    → get_or raw 0 0 % 16 ≤ 10
    → let (r, c', raw') = with_length f raw peek_len c raw in
      ((r ≡ fail) ⊎ (r ≡ ret 0)) × (c'.ws_frame_remaining ≡ c.ws_frame_remaining)
unfolding with_length
with_length_control short peek_len c raw ef h8 h10 = ground arith
with_length_control too_large peek_len c raw ef h8 h10 = ground arith
with_length_control (field len pos) peek_len c raw ef h8 h10 =
    read_mask_control peek_len len pos c raw (read_length_pos raw peek_len len pos ef) h8 h10

-- A close, ping or pong frame is never taken for data: the parser returns -1 or 0, and the number
-- of payload bytes that the connection still expects is unchanged.
pub parse_frame_header_control :
    (c : Conn) (raw : List ℕ)
    → 2 ≤ length raw
    → 8 ≤ get_or raw 0 0 % 16
    → get_or raw 0 0 % 16 ≤ 10
    → let (r, c', raw') = parse_frame_header c raw in
      ((r ≡ fail) ⊎ (r ≡ ret 0)) × (c'.ws_frame_remaining ≡ c.ws_frame_remaining)
parse_frame_header_control c raw h2 h8 h10 = rw (parse_frame_header_eq c raw h2) (
    with_length_control (read_length (min (length raw) 14) raw) (min (length raw) 14) c raw refl h8
      h10)
