-- ===== src/Ws/Header.antt =====
-- Frame headers: what the parser does on every header that RFC 6455 allows for a data frame.
use teleproxy.Base.{
  ℕ, suc, ◌+◌, ◌*◌, ◌/◌, ◌%◌, ◌^◌, ◌≤◌, ◌<◌, ◌≡◌, List, [], ◌∷◌, ◌++◌, arith, ltb, if◌then◌else◌,
  length, get_or, drop, min, get_or-take, take-drop-take, ◌∙◌, length-append, drop-append,
}
use teleproxy.Ws.{
  Conn, ret, field, opcode_ping, read_length64, read_length, dispatch, read_mask, with_length,
  parse_frame_header, frame_header, write_frame_header,
}

-- The parser looks at the first 14 bytes only, and that is as good as all of them.
pub parse_frame_header_eq :
    (c : Conn) (raw : List ℕ)
    → 2 ≤ length raw
    → parse_frame_header c raw
      ≡ with_length (read_length (min (length raw) 14) raw) raw (min (length raw) 14) c raw
unfolding parse_frame_header
parse_frame_header_eq c raw h = ground (
  arith,
  get_or-take (min (length raw) 14) 0 raw 0,
  get_or-take (min (length raw) 14) 1 raw 0,
  get_or-take (min (length raw) 14) 2 raw 0,
  get_or-take (min (length raw) 14) 3 raw 0,
  get_or-take (min (length raw) 14) 4 raw 0,
  get_or-take (min (length raw) 14) 5 raw 0,
  get_or-take (min (length raw) 14) 6 raw 0,
  get_or-take (min (length raw) 14) 7 raw 0,
  get_or-take (min (length raw) 14) 8 raw 0,
  get_or-take (min (length raw) 14) 9 raw 0,
  take-drop-take 4 2 (min (length raw) 14) raw,
  take-drop-take 4 4 (min (length raw) 14) raw,
  take-drop-take 4 10 (min (length raw) 14) raw,
)

-- RFC 6455 5.2: the mask bit and the length, in one of three forms, of which the shortest is used.
pub length_bytes : ℕ → ℕ → List ℕ
length_bytes mask_bit len =
    if ltb len 126
    then (mask_bit * 128 + len) ∷ []
    else if ltb len 65536
    then (mask_bit * 128 + 126) ∷ len / 2 ^ 8 ∷ len % 2 ^ 8 ∷ []
    else (mask_bit * 128 + 127)
      ∷ 0
      ∷ 0
      ∷ 0
      ∷ 0
      ∷ len / 2 ^ 24
      ∷ len / 2 ^ 16 % 2 ^ 8
      ∷ len / 2 ^ 8 % 2 ^ 8
      ∷ len % 2 ^ 8
      ∷ []

-- A data frame's header with a mask is read back whole: the length is returned, the mask and the
-- length are stored, the offset in the mask starts at 0, and exactly the header is taken off.
pub parse-masked_frame :
    (c : Conn) (b0 m0 m1 m2 m3 len : ℕ) (rest : List ℕ)
    → b0 % 16 < 8
    → len < 2 ^ 31
    → parse_frame_header c ((b0 ∷ length_bytes 1 len) ++ (m0 ∷ m1 ∷ m2 ∷ m3 ∷ rest)) ≡ (
      ret len,
      record { ws_mask = m0 ∷ m1 ∷ m2 ∷ m3 ∷ []; ws_mask_offset = 0; ws_frame_remaining = len },
      rest,
    )
unfolding length_bytes with_length read_length read_length64 read_mask dispatch
parse-masked_frame c b0 m0 m1 m2 m3 len rest ho hl =
    ground
      (arith, parse_frame_header_eq c ((b0 ∷ length_bytes 1 len) ++ (m0 ∷ m1 ∷ m2 ∷ m3 ∷ rest)))

-- What `ws_write_frame_header` writes, the parser reads back: the length is returned and stored,
-- the mask is left alone, and exactly the header is taken off.
pub parse-write_frame_header :
    (c : Conn) (len : ℕ) (rest : List ℕ)
    → len < 2 ^ 31
    → parse_frame_header c ((write_frame_header [] len).1 ++ rest)
      ≡ (ret len, record c { ws_frame_remaining = len }, rest)
unfolding frame_header write_frame_header with_length read_length read_length64 read_mask dispatch
parse-write_frame_header c len rest hl =
    ground (arith, parse_frame_header_eq c (frame_header len ++ rest))

drop-suc_two : (n a b : ℕ) (xs : List ℕ) → drop (2 + n) (a ∷ b ∷ xs) ≡ drop n xs
drop-suc_two n a b xs = let e : 2 + n ≡ suc (suc n) = omega arith in rw e

dispatch_ping :
    (header_len payload_len : ℕ) (c : Conn) (raw : List ℕ)
    → header_len + payload_len ≤ length raw
    → length raw < 2 ^ 31
    → dispatch opcode_ping header_len payload_len c raw
      ≡ (ret 0, c, drop (header_len + payload_len) raw)
unfolding dispatch
dispatch_ping header_len payload_len c raw hf hr = ground arith

read_length_small :
    (peek_len : ℕ) (raw : List ℕ)
    → get_or raw 1 0 < 126
    → read_length peek_len raw ≡ field (get_or raw 1 0) 2
unfolding read_length
read_length_small peek_len raw h = ground arith

read_mask_none :
    (raw : List ℕ) (peek_len len pos : ℕ) (c : Conn)
    → get_or raw 1 0 < 128
    → read_mask raw peek_len len pos c raw ≡ dispatch (get_or raw 0 0 % 16) pos len c raw
unfolding read_mask
read_mask_none raw peek_len len pos c h = ground arith

-- A complete unmasked ping frame of at most 125 bytes is dropped whole, and nothing behind it.
pub parse-ping :
    (c : Conn) (b0 : ℕ) (payload rest : List ℕ)
    → b0 % 16 ≡ opcode_ping
    → length payload < 126
    → length payload + length rest + 2 < 2 ^ 31
    → parse_frame_header c ((b0 ∷ length payload ∷ payload) ++ rest) ≡ (ret 0, c, rest)
unfolding with_length
parse-ping c b0 payload rest ho hl hr =
    let raw : List ℕ = (b0 ∷ length payload ∷ payload) ++ rest in
    parse_frame_header_eq c raw (omega arith)
    ∙ rw (read_length_small (min (length raw) 14) raw hl) (
        read_mask_none raw (min (length raw) 14) (length payload) 2 c (omega arith)
        ∙ rw ho (
            dispatch_ping 2 (length payload) c raw (omega (arith, length-append payload rest))
              (omega (arith, length-append payload rest))
            ∙ rw (drop-suc_two (length payload) b0 (length payload) (payload ++ rest))
                (rw (drop-append payload rest))))
