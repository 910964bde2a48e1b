-- ===== src/Obfs2/Frame.antt =====
-- Frame lengths: what is accepted, and that each length has one encoding.
use teleproxy.Base.{
  ℕ, ◌+◌, ◌-◌, ◌*◌, ◌/◌, ◌%◌, ◌^◌, ◌≤◌, ◌<◌, ◌≡◌, Bool, true, false, arith, ltb, ◌==◌,
  if◌then◌else◌, some, ◌⊎◌, inl, inr, sym, ◌∙◌, Bool-cases,
}
use teleproxy.Obfs2.{
  FrameResult, has_pad, has_medium, check_frame, compact_frame, parse_frame_length,
}

-- What `check_frame` lets through, and what it says of it.
record Checked (flags max_packet_len len bytes : ℕ) (q : Bool) (r : FrameResult) : Type 0 where
  same_len : r.packet_len ≡ len
  same_bytes : r.header_bytes ≡ bytes
  same_ack : r.quickack ≡ q
  positive : 0 < len
  small : len < 2 ^ 30
  aligned : has_pad flags ≡ false → len % 4 ≡ 0
  limited : 0 < max_packet_len → max_packet_len < 2 ^ 31 → len ≤ max_packet_len

check_frame-Checked :
    (flags max_packet_len len bytes : ℕ) (q : Bool) (r : FrameResult)
    → len < 2 ^ 32
    → check_frame flags max_packet_len len bytes q ≡ some r
    → Checked flags max_packet_len len bytes q r
unfolding check_frame
check_frame-Checked flags max_packet_len len bytes q r hl e = ground arith

check_frame_accepts :
    (flags max_packet_len len bytes : ℕ) (q : Bool)
    → 0 < len
    → len < 2 ^ 30
    → (has_pad flags ≡ true) ⊎ (len % 4 ≡ 0)
    → (max_packet_len ≡ 0) ⊎ (len ≤ max_packet_len)
    → check_frame flags max_packet_len len bytes q
      ≡ some (record { packet_len = len; header_bytes = bytes; quickack = q })
unfolding check_frame
check_frame_accepts flags max_packet_len len bytes q h0 h30 hp hm = ground arith

-- The intermediate transport's encoding: the length, with the quickack bit on top.
abbrev pub medium_word : Bool → ℕ → ℕ
medium_word quickack len = len + (if quickack then 2 ^ 31 else 0)

-- A legal length in the intermediate encoding is read back, with its quickack bit.
pub parse-medium_word :
    (quickack : Bool) (len flags max_packet_len : ℕ)
    → has_medium flags ≡ true
    → 0 < len
    → len < 2 ^ 30
    → (has_pad flags ≡ true) ⊎ (len % 4 ≡ 0)
    → (max_packet_len ≡ 0) ⊎ (len ≤ max_packet_len)
    → parse_frame_length (medium_word quickack len) flags max_packet_len
      ≡ some (record { packet_len = len; header_bytes = 4; quickack = quickack })
unfolding parse_frame_length
parse-medium_word true len flags max_packet_len hf h0 h30 hp hm =
    ground (arith, check_frame_accepts flags max_packet_len len 4 true)
parse-medium_word false len flags max_packet_len hf h0 h30 hp hm =
    ground (arith, check_frame_accepts flags max_packet_len len 4 false)

-- The abridged transport's encoding of a length of `words` four-byte words: one byte, or 0x7f and
-- three; `next` stands for the bytes of the stream behind a one-byte header.
abbrev pub compact_word : Bool → ℕ → ℕ → ℕ
compact_word quickack words next =
    (if quickack then 128 else 0)
    + (if ltb words 0x7f then words + next * 256 else 0x7f + words * 256)

compact_frame_word :
    (q : Bool) (words next flags max_packet_len : ℕ)
    → 0 < words
    → words < 2 ^ 24
    → (max_packet_len ≡ 0) ⊎ (words * 4 ≤ max_packet_len)
    → compact_frame flags max_packet_len (compact_word false words next) q
      ≡ some (record {
        packet_len = words * 4;
        header_bytes = if ltb words 0x7f then 1 else 4;
        quickack = q;
      })
unfolding compact_frame
compact_frame_word q words next flags max_packet_len h0 h24 hm = ground (
  arith,
  check_frame_accepts flags max_packet_len (words * 4) 1 q,
  check_frame_accepts flags max_packet_len (words * 4) 4 q,
)

-- The bit for a quick acknowledgement is taken off before the length is read.
parse_ack :
    (raw4 flags max_packet_len : ℕ)
    → has_medium flags ≡ false
    → raw4 / 128 % 2 ≡ 1
    → parse_frame_length raw4 flags max_packet_len
      ≡ compact_frame flags max_packet_len (raw4 - 128) true
unfolding parse_frame_length
parse_ack raw4 flags max_packet_len hf h = rw (hf, h)

parse_no_ack :
    (raw4 flags max_packet_len : ℕ)
    → has_medium flags ≡ false
    → raw4 / 128 % 2 ≡ 0
    → parse_frame_length raw4 flags max_packet_len ≡ compact_frame flags max_packet_len raw4 false
unfolding parse_frame_length
parse_no_ack raw4 flags max_packet_len hf h = rw (hf, h)

compact_word_ack : (words next : ℕ) → compact_word true words next / 128 % 2 ≡ 1
compact_word_ack words next = ground arith

compact_word_no_ack : (words next : ℕ) → compact_word false words next / 128 % 2 ≡ 0
compact_word_no_ack words next = ground arith

compact_word_rest :
    (words next : ℕ) → compact_word true words next - 128 ≡ compact_word false words next
compact_word_rest words next = ground arith

-- A legal length in the abridged encoding is read back, with its quickack bit and the size of its
-- header, whatever follows a one-byte header.
pub parse-compact_word :
    (quickack : Bool) (words next flags max_packet_len : ℕ)
    → has_medium flags ≡ false
    → 0 < words
    → words < 2 ^ 24
    → next < 2 ^ 24
    → (max_packet_len ≡ 0) ⊎ (words * 4 ≤ max_packet_len)
    → parse_frame_length (compact_word quickack words next) flags max_packet_len
      ≡ some (record {
        packet_len = words * 4;
        header_bytes = if ltb words 0x7f then 1 else 4;
        quickack = quickack;
      })
parse-compact_word true words next flags max_packet_len hf h0 h24 hn hm =
    parse_ack _ flags max_packet_len hf (compact_word_ack words next)
    ∙ rw (compact_word_rest words next)
        (compact_frame_word true words next flags max_packet_len h0 h24 hm)
parse-compact_word false words next flags max_packet_len hf h0 h24 hn hm =
    parse_no_ack _ flags max_packet_len hf (compact_word_no_ack words next)
    ∙ compact_frame_word false words next flags max_packet_len h0 h24 hm

mod_two : (n : ℕ) → (n % 2 ≡ 0) ⊎ (n % 2 ≡ 1)
mod_two n = omega arith

compact_frame_canonical :
    (w flags max_packet_len : ℕ) (q : Bool) (r : FrameResult)
    → w < 2 ^ 32
    → w / 128 % 2 ≡ 0
    → compact_frame flags max_packet_len w q ≡ some r
    → (w ≡ compact_word false (r.packet_len / 4) (w / 256)) × (r.quickack ≡ q)
unfolding compact_frame
compact_frame_canonical w flags max_packet_len q r hw hb e = ground (
  arith,
  check_frame-Checked flags max_packet_len (w / 256 * 4 % 2 ^ 32) 4 q r,
  check_frame-Checked flags max_packet_len (w % 128 * 4 % 2 ^ 32) 1 q r,
)

-- In the abridged mode an accepted header is the encoding of its length: overlong forms are
-- refused, so two headers that are read alike agree on the bytes that the header takes.
pub parse_frame_length_canonical :
    (raw4 flags max_packet_len : ℕ) (r : FrameResult)
    → raw4 < 2 ^ 32
    → has_medium flags ≡ false
    → parse_frame_length raw4 flags max_packet_len ≡ some r
    → raw4 ≡ compact_word r.quickack (r.packet_len / 4) (raw4 / 256)
parse_frame_length_canonical raw4 flags max_packet_len r hr hf e = elim (mod_two (raw4 / 128)) [
  | inl z ↦
      let c =
        compact_frame_canonical raw4 flags max_packet_len false r hr z
          (sym (parse_no_ack raw4 flags max_packet_len hf z) ∙ e) in
      rw c.1 c.0
  | inr o ↦
      let c =
        compact_frame_canonical (raw4 - 128) flags max_packet_len true r (omega arith) (omega arith)
          (sym (parse_ack raw4 flags max_packet_len hf o) ∙ e) in
      rw c.1 (ground (arith, c.0))
]

compact_frame_bounds :
    (w flags max_packet_len : ℕ) (q : Bool) (r : FrameResult)
    → max_packet_len < 2 ^ 31
    → compact_frame flags max_packet_len w q ≡ some r
    → (0 < r.packet_len)
      × (r.packet_len < 2 ^ 30)
      × (has_pad flags ≡ false → r.packet_len % 4 ≡ 0)
      × (0 < max_packet_len → r.packet_len ≤ max_packet_len)
      × ((r.header_bytes ≡ 1) ⊎ (r.header_bytes ≡ 4))
unfolding compact_frame
compact_frame_bounds w flags max_packet_len q r hm e = ground (
  arith,
  check_frame-Checked flags max_packet_len (w / 256 * 4 % 2 ^ 32) 4 q r,
  check_frame-Checked flags max_packet_len (w % 128 * 4 % 2 ^ 32) 1 q r,
)

medium_bounds :
    (raw4 flags max_packet_len : ℕ) (r : FrameResult)
    → max_packet_len < 2 ^ 31
    → has_medium flags ≡ true
    → parse_frame_length raw4 flags max_packet_len ≡ some r
    → (0 < r.packet_len)
      × (r.packet_len < 2 ^ 30)
      × (has_pad flags ≡ false → r.packet_len % 4 ≡ 0)
      × (0 < max_packet_len → r.packet_len ≤ max_packet_len)
      × ((r.header_bytes ≡ 1) ⊎ (r.header_bytes ≡ 4))
unfolding parse_frame_length
medium_bounds raw4 flags max_packet_len r hm m e =
    ground
      (arith, check_frame-Checked flags max_packet_len (raw4 % 2 ^ 31) 4 (raw4 / 2 ^ 31 == 1) r)

-- Every accepted length is positive and below 2 ^ 30, a multiple of 4 unless the mode pads, and
-- within the limit where there is one; the header took 1 or 4 bytes.
pub parse_frame_length_bounds :
    (raw4 flags max_packet_len : ℕ) (r : FrameResult)
    → max_packet_len < 2 ^ 31
    → parse_frame_length raw4 flags max_packet_len ≡ some r
    → (0 < r.packet_len)
      × (r.packet_len < 2 ^ 30)
      × (has_pad flags ≡ false → r.packet_len % 4 ≡ 0)
      × (0 < max_packet_len → r.packet_len ≤ max_packet_len)
      × ((r.header_bytes ≡ 1) ⊎ (r.header_bytes ≡ 4))
parse_frame_length_bounds raw4 flags max_packet_len r hm e = elim (Bool-cases (has_medium flags)) [
  | inl m ↦ medium_bounds raw4 flags max_packet_len r hm m e
  | inr m ↦ elim (mod_two (raw4 / 128)) [
    | inl z ↦
        compact_frame_bounds raw4 flags max_packet_len false r hm
          (sym (parse_no_ack raw4 flags max_packet_len m z) ∙ e)
    | inr o ↦
        compact_frame_bounds (raw4 - 128) flags max_packet_len true r hm
          (sym (parse_ack raw4 flags max_packet_len m o) ∙ e)
  ]
]
