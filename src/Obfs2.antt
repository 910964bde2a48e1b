-- ===== src/Obfs2.antt =====
-- src/net/net-obfs2-parse.c: the obfuscated2 handshake header and the frame lengths that follow it.
-- An `int` is its bit pattern, below 2 ^ 32; a buffer is the list of its bytes. `sha256` and the
-- AES-256-CTR cipher of OpenSSL are parameters.
pub mod Frame
pub mod Handshake
mod Tests
use teleproxy.Base.{
  ℕ, zero, suc, ◌+◌, ◌-◌, ◌*◌, ◌/◌, ◌%◌, ◌^◌, Bool, true, false, not, ◌&&◌, ◌||◌, List, [], ◌∷◌,
  ◌++◌, arith, ltb, leb, ◌==◌, if◌then◌else◌, length, get_or, drop, take, Option, none, some,
}
use teleproxy.Base.Int.{ℤ, pos, negsuc}

-- `struct obfs2_frame_result`
pub record FrameResult : Type 0 where
  pub packet_len : ℕ
  pub header_bytes : ℕ
  pub quickack : Bool

-- The bits RPC_F_PAD and RPC_F_MEDIUM of the connection's flags.
pub has_pad : ℕ → Bool
has_pad flags = flags / 0x8000000 % 2 == 1

pub has_medium : ℕ → Bool
has_medium flags = flags / 0x20000000 % 2 == 1

-- The checks that both modes share.
pub check_frame : ℕ → ℕ → ℕ → ℕ → Bool → Option FrameResult
check_frame flags max_packet_len packet_len packet_len_bytes quickack =
    if packet_len == 0 || leb (2 ^ 31) packet_len || not (packet_len / 0x40000000 % 4 == 0)
    then none
    else if not (has_pad flags) && not (packet_len % 4 == 0)
    then none
    else if ltb 0 max_packet_len && ltb max_packet_len (2 ^ 31) && ltb max_packet_len packet_len
    then none
    else some
        (record { packet_len = packet_len; header_bytes = packet_len_bytes; quickack = quickack })

-- Compact mode, once the quickack bit is cleared.
pub compact_frame : ℕ → ℕ → ℕ → Bool → Option FrameResult
unfolding check_frame
compact_frame flags max_packet_len w quickack =
    if w % 256 == 0x7f
    then (if ltb (w / 256) 0x7f
        then none
        else check_frame flags max_packet_len (w / 256 * 4 % 2 ^ 32) 4 quickack)
    else check_frame flags max_packet_len (w % 128 * 4 % 2 ^ 32) 1 quickack

-- `obfs2_parse_frame_length`; `none` is the return value -1.
pub parse_frame_length : ℕ → ℕ → ℕ → Option FrameResult
unfolding compact_frame
parse_frame_length raw4 flags max_packet_len =
    if has_medium flags
    then (if leb (2 ^ 31) raw4 && ltb (2 ^ 32 - 1000) raw4
        then none
        else check_frame flags max_packet_len (raw4 % 2 ^ 31) 4 (raw4 / 2 ^ 31 == 1))
    else if raw4 / 128 % 2 == 1
    then compact_frame flags max_packet_len (raw4 - 128) true
    else compact_frame flags max_packet_len raw4 false

-- `struct aes_key_data`
pub record Keys : Type 0 where
  pub read_key : List ℕ
  pub read_iv : List ℕ
  pub write_key : List ℕ
  pub write_iv : List ℕ

-- `struct obfs2_parse_result`
pub record ParseResult : Type 0 where
  pub tag : ℕ
  pub dc : ℤ
  pub secret_id : ℕ
  pub keys : Keys

abbrev pub tag_pad : ℕ
tag_pad = 0xdddddddd

abbrev pub tag_medium : ℕ
tag_medium = 0xeeeeeeee

abbrev pub tag_compact : ℕ
tag_compact = 0xefefefef

-- The `n` bytes from index `i` downwards.
pub read_down : List ℕ → ℕ → ℕ → List ℕ
read_down h i zero = []
read_down h i (suc n) = get_or h i 0 ∷ read_down h (i - 1) n

-- `*(unsigned *) (h + i)` and `*(short *) (h + i)`, little-endian.
abbrev pub read_u32 : List ℕ → ℕ → ℕ
read_u32 h i =
    get_or h i 0
    + get_or h (i + 1) 0 * 2 ^ 8
    + get_or h (i + 2) 0 * 2 ^ 16
    + get_or h (i + 3) 0 * 2 ^ 24

abbrev pub signed16 : ℕ → ℤ
signed16 w = if ltb w (2 ^ 15) then pos w else negsuc (2 ^ 16 - w - 1)

abbrev pub read_i16 : List ℕ → ℕ → ℤ
read_i16 h i = signed16 (get_or h i 0 + get_or h (i + 1) 0 * 2 ^ 8)

-- The tags that the proxy takes, with and without the restriction to padded mode.
pub accepts : Bool → ℕ → Bool
accepts rand_pad_only tag =
    tag == tag_pad || ((tag == tag_medium || tag == tag_compact) && not rand_pad_only)

-- The rounds of the loop: one for each secret, or one without a secret.
unfoldable pub rounds : List (List ℕ) → List (Option (List ℕ))
rounds [] = none ∷ []
rounds (s ∷ []) = some s ∷ []
rounds (s ∷ t ∷ ss) = some s ∷ rounds (t ∷ ss)

module _ (sha256 : List ℕ → List ℕ) (aes_ctr : List ℕ → List ℕ → List ℕ → List ℕ) where
  -- SHA-256 of the key and the secret, or the key itself.
  pub derive_key : Option (List ℕ) → List ℕ → List ℕ
  derive_key none k = k
  derive_key (some s) k = sha256 (k ++ s)

  pub derive : Option (List ℕ) → List ℕ → Keys
  unfolding derive_key read_down
  derive secret header = record {
    read_key = derive_key secret (take 32 (drop 8 header));
    read_iv = take 16 (drop 40 header);
    write_key = derive_key secret (read_down header 55 32);
    write_iv = read_down header 23 16;
  }

  -- The header after the decryption of one round.
  pub decrypt : Option (List ℕ) → List ℕ → List ℕ
  unfolding derive
  decrypt secret header =
      aes_ctr (derive secret header).read_key (derive secret header).read_iv header

  -- The loop from secret `sid` on: what is returned, and the header array after it.
  pub try_secrets :
      Bool → ℕ → List ℕ → List ℕ → List (Option (List ℕ)) → Option ParseResult × List ℕ
  unfolding decrypt accepts
  try_secrets rand_pad_only sid header saved [] = (none, header)
  try_secrets rand_pad_only sid header saved (s ∷ ss) =
      let header' = decrypt s header in
      let later = try_secrets rand_pad_only (sid + 1) saved saved ss in
      if accepts rand_pad_only (read_u32 header' 56)
      then (
        some (record {
          tag = read_u32 header' 56;
          dc = read_i16 header' 60;
          secret_id = sid;
          keys = derive s header;
        }),
        header',
      )
      else later

  -- `obfs2_parse_header`; `none` is the return value -1.
  unfoldable pub parse_header : List ℕ → List (List ℕ) → Bool → Option ParseResult × List ℕ
  unfolding try_secrets rounds
  parse_header header secrets rand_pad_only =
      try_secrets rand_pad_only 0 header header (rounds secrets)
