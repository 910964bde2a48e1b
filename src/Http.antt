-- ===== src/Http.antt =====
-- src/net/net-http-parse.c: the incremental parser of HTTP request headers. The bytes that a call
-- has not consumed are a list. The flags of `query_flags` that the parser uses are one field each,
-- and of `word` only the bytes below `wlen` are kept. `char` is signed, as on x86-64:
-- a byte from 128 on is negative. Sizes and counters are numbers that do not wrap around.
pub mod Ranks
pub mod Lines
pub mod Words
pub mod Total
mod Tests
use teleproxy.Base.{
  ℕ, zero, suc, ◌+◌, ◌-◌, ◌*◌, ◌/◌, ◌%◌, ◌^◌, Bool, true, false, not, ◌&&◌, ◌||◌, List, [], ◌∷◌,
  ◌++◌, arith, ltb, leb, ◌==◌, if◌then◌else◌, length,
}
use teleproxy.Base.Int.{ℤ, pos, negsuc, ◌+ℤ◌, ◌*ℤ◌}

-- `enum hts_query_type`
pub data QueryType : Type 0 where
  untyped head get post options bad empty : QueryType

-- `enum http_query_parse_state`
pub data ParseState : Type 0 where
  start readtospace readtocolon readint skipspc skiptoeoln skipspctoeoln eoln wantlf wantlastlf
        linestart fatal done :
      ParseState

-- `struct hts_data`
pub record Hts : Type 0 where
  pub query_type : QueryType
  pub qf_error : Bool
  pub qf_host : Bool
  pub qf_datasize : Bool
  pub qf_connection : Bool
  pub qf_keepalive : Bool
  pub query_words : ℕ
  pub header_size : ℕ
  pub first_line_size : ℕ
  pub data_size : ℤ
  pub host_offset : ℕ
  pub host_size : ℕ
  pub uri_offset : ℕ
  pub uri_size : ℕ
  pub http_ver : ℕ
  pub wlen : ℕ
  pub word : List ℕ
  pub parse_state : ParseState
  pub query_seqno : ℕ

-- What one round of the loop gives: the new state and what is left to read, or a failed assertion.
pub data Round : Type 0 where
  next : Hts → List ℕ → Round
  abort : Round

abbrev pub max_http_header_size : ℕ
max_http_header_size = 16384

abbrev pub http_v09 : ℕ
http_v09 = 9

abbrev pub http_v10 : ℕ
http_v10 = 0x100

abbrev pub http_v11 : ℕ
http_v11 = 0x101

pub bytes_eq : List ℕ → List ℕ → Bool
bytes_eq [] [] = true
bytes_eq [] (y ∷ ys) = false
bytes_eq (x ∷ xs) [] = false
bytes_eq (x ∷ xs) (y ∷ ys) = x == y && bytes_eq xs ys

-- `strncasecmp (word, name, strlen (name)) == 0`, for a name in lower case.
unfoldable pub lower : ℕ → ℕ
lower c = if leb b'A' c && leb c b'Z' then c + 32 else c

pub same_name : List ℕ → List ℕ → Bool
unfolding lower
same_name [] [] = true
same_name [] (y ∷ ys) = false
same_name (x ∷ xs) [] = false
same_name (x ∷ xs) (y ∷ ys) = lower x == y && same_name xs ys

-- One more byte of the word.
abbrev pub put_char : Hts → ℕ → Hts
put_char d c = record d {
  word = if ltb d.wlen 15 then d.word ++ (c ∷ []) else d.word;
  wlen = d.wlen + 1;
}

-- The loops that collect a word: up to a space, and up to a colon.
pub read_word : Hts → List ℕ → Hts × List ℕ
read_word d [] = (d, [])
read_word d (c ∷ s) = let rest = read_word (put_char d c) s in if ltb 32 c then rest else (d, c ∷ s)

pub read_name : Hts → List ℕ → Hts × List ℕ
read_name d [] = (d, [])
read_name d (c ∷ s) =
    let rest = read_name (put_char d c) s in
    if not (c == b':') && (ltb 32 c && ltb c 128) then rest else (d, c ∷ s)

-- The loop over spaces; tabs count from the second line on.
pub skip_spaces : Hts → List ℕ → Hts × List ℕ
skip_spaces d [] = (d, [])
skip_spaces d (c ∷ s) =
    let rest = skip_spaces (record d { header_size = d.header_size + 1 }) s in
    if ltb d.header_size max_http_header_size && (c == 32 || (c == 9 && leb 8 d.query_words))
    then rest
    else (d, c ∷ s)

-- The loop to the end of a line.
pub skip_line : Hts → List ℕ → Hts × List ℕ
skip_line d [] = (d, [])
skip_line d (c ∷ s) =
    let rest = skip_line (record d { header_size = d.header_size + 1 }) s in
    if ltb d.header_size max_http_header_size && (not (c == 13) && not (c == 10))
    then rest
    else (d, c ∷ s)

-- `tt >= 0x7fffffff / 10`
abbrev pub too_big : ℤ → Bool
too_big (pos n) = leb 214748364 n
too_big (negsuc n) = false

-- The loop over digits, with `tt` in `data_size`.
pub read_digits : Hts → List ℕ → Hts × List ℕ
unfolding ◌+ℤ◌ ◌*ℤ◌
read_digits d [] = (d, [])
read_digits d (c ∷ s) =
    let rest =
      read_digits
        (record d {
          data_size = d.data_size *ℤ pos 10 +ℤ pos (c - b'0');
          header_size = d.header_size + 1;
          qf_datasize = false;
        })
        s in
    if leb b'0' c && leb c b'9'
    then (if too_big d.data_size
        then (record d { qf_error = true; parse_state = skiptoeoln }, c ∷ s)
        else rest)
    else (d, c ∷ s)

abbrev pub refuse_line : Hts → Hts
refuse_line d = record d { parse_state = skiptoeoln; qf_error = true }

-- The request's method.
pub method : Hts → QueryType
unfolding bytes_eq
method d =
    if d.wlen == 3 && bytes_eq d.word (b'G' ∷ b'E' ∷ b'T' ∷ [])
    then get
    else if d.wlen == 4
    then (if bytes_eq d.word (b'H' ∷ b'E' ∷ b'A' ∷ b'D' ∷ [])
        then head
        else if bytes_eq d.word (b'P' ∷ b'O' ∷ b'S' ∷ b'T' ∷ [])
        then post
        else bad)
    else if d.wlen == 7 && bytes_eq d.word (b'O' ∷ b'P' ∷ b'T' ∷ b'I' ∷ b'O' ∷ b'N' ∷ b'S' ∷ [])
    then options
    else bad

-- The first word: the method.
pub first_word : Hts → Hts
unfolding method
first_word d = elim (method d) [
  | bad ↦ refuse_line (record d { query_type = bad })
  | t ↦ record d { query_type = t }
]

-- The second word: the address.
pub second_word : Hts → Hts
second_word d =
    let d1 : Hts = record d { uri_offset = d.header_size; uri_size = d.wlen } in
    if d.wlen == 0 then refuse_line d1 else d1

-- The third word: the protocol's version.
pub third_word : Hts → Hts
unfolding bytes_eq
third_word d =
    if d.wlen == 0
    then record d { parse_state = skipspctoeoln; http_ver = http_v09 }
    else if not (d.wlen == 8)
    then refuse_line d
    else if bytes_eq d.word (b'H' ∷ b'T' ∷ b'T' ∷ b'P' ∷ b'/' ∷ b'1' ∷ b'.' ∷ b'0' ∷ [])
    then record d { parse_state = skipspctoeoln; http_ver = http_v10 }
    else if bytes_eq d.word (b'H' ∷ b'T' ∷ b'T' ∷ b'P' ∷ b'/' ∷ b'1' ∷ b'.' ∷ b'1' ∷ [])
    then record d { parse_state = skipspctoeoln; http_ver = http_v11 }
    else refuse_line d

abbrev pub keep_alive : List ℕ
keep_alive = b'k' ∷ b'e' ∷ b'e' ∷ b'p' ∷ b'-' ∷ b'a' ∷ b'l' ∷ b'i' ∷ b'v' ∷ b'e' ∷ []

-- The value of a Host or Connection line.
pub value_word : Hts → Hts
unfolding same_name
value_word d =
    let d1 : Hts =
      if d.wlen == 0
      then d
      else if d.qf_host
      then record d { host_offset = d.header_size; host_size = d.wlen }
      else if d.wlen == 10 && same_name d.word keep_alive
      then record d { qf_keepalive = true }
      else d in
    record d1 { qf_host = false; qf_connection = false; parse_state = skipspctoeoln }

abbrev pub add_word : Hts → List ℕ → Round
add_word d s = next (record d { header_size = d.header_size + d.wlen }) s

-- `case htqp_readtospace`, once the word is read.
pub end_word : Hts → List ℕ → Round
end_word d s =
    let d1 : Hts = record d { parse_state = skipspc; query_words = d.query_words + 1 } in
    if d1.query_words == 1
    then add_word (first_word d1) s
    else if d1.query_words == 2
    then add_word (second_word d1) s
    else if d1.query_words == 3
    then add_word (third_word d1) s
    else if d1.qf_host || d1.qf_connection
    then add_word (value_word d1) s
    else abort

-- `case htqp_readtospace`, behind the loop.
pub after_word : Hts → List ℕ → Round
unfolding end_word
after_word d1 rest =
    if ltb 4096 d1.wlen
    then next (record d1 { parse_state = fatal }) rest
    else elim rest [ [] ↦ next d1 [] | c ∷ r ↦ end_word d1 (c ∷ r) ]

pub step_readtospace : Hts → List ℕ → Round
unfolding read_word after_word
step_readtospace d s = let (d1, rest) = read_word d s in after_word d1 rest

-- The structure, cleared but for the number of the request, and the first state.
abbrev pub started : Hts → Hts
started d = record {
  query_type = untyped;
  qf_error = false;
  qf_host = false;
  qf_datasize = false;
  qf_connection = false;
  qf_keepalive = false;
  query_words = 0;
  header_size = 0;
  first_line_size = 0;
  data_size = negsuc 0;
  host_offset = 0;
  host_size = 0;
  uri_offset = 0;
  uri_size = 0;
  http_ver = 0;
  wlen = 0;
  word = [];
  parse_state = readtospace;
  query_seqno = d.query_seqno + 1;
}

-- `case htqp_start`, and on to the first word.
pub step_start : Hts → List ℕ → Round
unfolding step_readtospace
step_start d s = step_readtospace (started d) s

-- `case htqp_skipspc`, behind the spaces.
pub after_spaces : Hts → List ℕ → Round
after_spaces d s =
    if ltb d.query_words 3
    then next (record d { wlen = 0; word = []; parse_state = readtospace }) s
    else if ltb d.query_words 4
    then abort
    else if d.qf_datasize
    then (elim d.data_size [
      | pos n ↦ next (refuse_line d) s
      | negsuc n ↦
          if n == 0
          then next (record d { parse_state = readint; data_size = pos 0 }) s
          else next (refuse_line d) s
    ])
    else if d.qf_host || d.qf_connection
    then next (record d { wlen = 0; word = []; parse_state = readtospace }) s
    else next (record d { parse_state = skiptoeoln }) s

-- The two cases of spaces, behind the loop.
pub after_skip : Bool → Hts → List ℕ → Round
unfolding after_spaces
after_skip to_eoln d1 rest =
    if leb max_http_header_size d1.header_size
    then next (record d1 { parse_state = fatal }) rest
    else elim rest [
      | [] ↦ next d1 []
      | c ∷ r ↦
          if to_eoln
          then next (record d1 { parse_state = eoln }) (c ∷ r)
          else after_spaces d1 (c ∷ r)
    ]

-- `case htqp_skipspc` and `case htqp_skipspctoeoln`, told apart by the flag.
pub step_spaces : Bool → Hts → List ℕ → Round
unfolding skip_spaces after_skip
step_spaces to_eoln d s = let (d1, rest) = skip_spaces d s in after_skip to_eoln d1 rest

-- The flags for a header line's name.
pub name_flags : Hts → Hts
unfolding same_name
name_flags d =
    if d.wlen == 4 && same_name d.word (b'h' ∷ b'o' ∷ b's' ∷ b't' ∷ [])
    then record d { qf_host = true }
    else if d.wlen == 10
        && same_name d.word
            (b'c' ∷ b'o' ∷ b'n' ∷ b'n' ∷ b'e' ∷ b'c' ∷ b't' ∷ b'i' ∷ b'o' ∷ b'n' ∷ [])
    then record d { qf_connection = true }
    else if d.wlen == 14
        && same_name d.word (
            b'c' ∷ b'o' ∷ b'n' ∷ b't' ∷ b'e' ∷ b'n' ∷ b't' ∷ b'-' ∷ b'l' ∷ b'e' ∷ b'n' ∷ b'g' ∷ b't'
            ∷ b'h' ∷ [])
    then record d { qf_datasize = true }
    else record d { qf_host = false; qf_datasize = false; qf_connection = false }

-- `case htqp_readtocolon`, behind the loop.
pub after_name : Hts → List ℕ → Round
after_name d1 rest =
    if ltb 4096 d1.wlen then next (record d1 { parse_state = fatal }) rest else elim rest [
      | [] ↦ next d1 []
      | c ∷ r ↦
          if c == b':'
          then next
              (record (name_flags d1) {
                header_size = d1.header_size + d1.wlen + 1;
                parse_state = skipspc;
              })
              r
          else next (refuse_line (record d1 { header_size = d1.header_size + d1.wlen })) (c ∷ r)
    ]

pub step_readtocolon : Hts → List ℕ → Round
unfolding read_name after_name
step_readtocolon d s = let (d1, rest) = read_name d s in after_name d1 rest

-- `case htqp_readint`, behind the loop.
pub after_digits : Hts → List ℕ → Round
after_digits d1 rest = elim rest [
  | [] ↦ next d1 []
  | c ∷ r ↦
      if d1.qf_datasize
      then next (refuse_line d1) (c ∷ r)
      else next (record d1 { parse_state = skipspctoeoln }) (c ∷ r)
]

pub step_readint : Hts → List ℕ → Round
unfolding read_digits after_digits
step_readint d s = let (d1, rest) = read_digits d s in after_digits d1 rest

-- `case htqp_linestart`
pub step_linestart : Hts → List ℕ → Round
step_linestart d [] = next d []
step_linestart d (c ∷ r) =
    let d1 : Hts =
      if d.first_line_size == 0 then record d { first_line_size = d.header_size } else d in
    if c == 13
    then next (record d1 { header_size = d1.header_size + 1; parse_state = wantlastlf }) r
    else if c == 10
    then next (record d1 { parse_state = wantlastlf }) (c ∷ r)
    else if d1.qf_error
    then next (record d1 { parse_state = skiptoeoln }) (c ∷ r)
    else next (record d1 { wlen = 0; word = []; parse_state = readtocolon }) (c ∷ r)

-- `case htqp_wantlf`, once a byte is there and the line is counted.
pub line_feed : Hts → ℕ → List ℕ → Round
unfolding step_linestart
line_feed d c r =
    if leb d.http_ver http_v09
    then next (record d { parse_state = wantlastlf }) (c ∷ r)
    else if c == 10
    then step_linestart (record d { header_size = d.header_size + 1; parse_state = linestart }) r
    else next (refuse_line d) (c ∷ r)

pub step_wantlf : Hts → List ℕ → Round
unfolding line_feed
step_wantlf d [] = next d []
step_wantlf d (c ∷ r) =
    if ltb (d.query_words + 1) 8
    then (if d.qf_error
        then next (record d { query_words = 8; parse_state = fatal }) (c ∷ r)
        else line_feed (record d { query_words = 8 }) c r)
    else line_feed (record d { query_words = d.query_words + 1 }) c r

-- `case htqp_eoln`, and on to the line feed.
pub step_eoln : Hts → List ℕ → Round
unfolding step_wantlf
step_eoln d [] = next d []
step_eoln d (c ∷ r) =
    if c == 13
    then step_wantlf (record d { header_size = d.header_size + 1; parse_state = wantlf }) r
    else step_wantlf (record d { parse_state = wantlf }) (c ∷ r)

-- `case htqp_skiptoeoln`, behind the loop.
pub after_line : Hts → List ℕ → Round
unfolding step_eoln
after_line d1 rest =
    if leb max_http_header_size d1.header_size
    then next (record d1 { parse_state = fatal }) rest
    else elim rest [
      | [] ↦ next d1 []
      | c ∷ r ↦ step_eoln (record d1 { parse_state = eoln }) (c ∷ r)
    ]

pub step_skiptoeoln : Hts → List ℕ → Round
unfolding skip_line after_line
step_skiptoeoln d s = let (d1, rest) = skip_line d s in after_line d1 rest

pub step_wantlastlf : Hts → List ℕ → Round
step_wantlastlf d [] = next d []
step_wantlastlf d (c ∷ r) =
    if c == 10
    then (let d1 : Hts = record d { header_size = d.header_size + 1 } in
        next
          (record d1 {
            first_line_size =
                if d1.first_line_size == 0 then d1.header_size else d1.first_line_size;
            parse_state = done;
          })
          r)
    else next (record d { parse_state = fatal }) (c ∷ r)

-- The `switch` of one round.
pub step : ParseState → Hts → List ℕ → Round
unfolding step_start step_readtospace step_spaces step_readtocolon step_readint step_skiptoeoln
    step_eoln step_wantlf step_linestart step_wantlastlf
step start d s = step_start d s
step readtospace d s = step_readtospace d s
step skipspc d s = step_spaces false d s
step skipspctoeoln d s = step_spaces true d s
step readtocolon d s = step_readtocolon d s
step readint d s = step_readint d s
step skiptoeoln d s = step_skiptoeoln d s
step eoln d s = step_eoln d s
step wantlf d s = step_wantlf d s
step linestart d s = step_linestart d s
step wantlastlf d s = step_wantlastlf d s
step fatal d s = next (record d { qf_error = true; parse_state = done }) s
step done d s = next d s

-- What a call gives: the state and the bytes that are left, a failed assertion, or no C outcome:
-- the fuel ran out.
pub data Result : Type 0 where
  parsed : Hts → List ℕ → Result
  aborted : Result
  stuck : Result

abbrev pub is_done : ParseState → Bool
is_done done = true
is_done _ = false

pub parse_loop : ℕ → Hts → List ℕ → Result
unfolding step
parse_loop zero d s = stuck
parse_loop (suc fuel) d [] = parsed d []
parse_loop (suc fuel) d (c ∷ s) =
    if is_done d.parse_state then parsed d (c ∷ s) else (elim (step d.parse_state d (c ∷ s)) [
      | abort ↦ aborted
      | next d' rest ↦ parse_loop fuel d' rest
    ])

-- `http_parse_data`: the number of bytes consumed is the difference of the lengths.
pub http_parse_data : Hts → List ℕ → Result
unfolding parse_loop
http_parse_data d s = parse_loop (16 * length s + 13) d s
