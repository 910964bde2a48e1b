-- ===== src/Http/Tests.antt =====
-- src/net/net-http-parse.c: the parser on a concrete request.
use teleproxy.Base.{ℕ, List, [], ◌∷◌, false, ◌≡◌, refl}
use teleproxy.Base.Int.{negsuc}
use teleproxy.Http.{
  Hts, http_parse_data, start, untyped, get, parsed, first_word, second_word, third_word,
}
use teleproxy.Http.Ranks.{allows}
use teleproxy.Http.Total.{http_parse_data_total, Ends}

abbrev new_data : Hts
new_data = record {
  query_type = untyped;
  qf_error = false;
  qf_host = false;
  qf_datasize = false;
  qf_connection = false;
  qf_keepalive = false;
  query_words = 0;
  header_size = 0;
  first_line_size = 0;
  data_size = negsuc 0;
  host_offset = 0;
  host_size = 0;
  uri_offset = 0;
  uri_size = 0;
  http_ver = 0;
  wlen = 0;
  word = [];
  parse_state = start;
  query_seqno = 0;
}

-- "GET / HTTP/1.1", an empty line, and a byte behind it.
abbrev request : List ℕ
request =
    b'G' ∷ b'E' ∷ b'T' ∷ 32 ∷ b'/' ∷ 32 ∷ b'H' ∷ b'T' ∷ b'T' ∷ b'P' ∷ b'/' ∷ b'1' ∷ b'.' ∷ b'1' ∷ 13
    ∷ 10 ∷ 13 ∷ 10 ∷ 1 ∷ []

http_parse_data_total_example : Ends request (http_parse_data new_data request)
unfolding allows
http_parse_data_total_example = http_parse_data_total new_data request refl

-- The request is complete: the byte behind it is left, the method and the version are known.
get_request : elim (http_parse_data new_data request) as (λ r. Type 0) [
  | parsed d rest ↦
      (rest ≡ 1 ∷ []) × (d.query_type ≡ get) × (d.http_ver ≡ 0x101) × (d.header_size ≡ 18)
  | _ ↦ ⊥
]
unfolding http_parse_data first_word second_word third_word
get_request = (refl, refl, refl, refl)
