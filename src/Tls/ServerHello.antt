-- ===== src/Tls/ServerHello.antt =====
-- src/net/net-tls-parse.c: `tls_check_server_hello`, the check of a fronting domain's answer.
-- `reject` is the return value 0. What the output arguments hold after a refusal is not modelled.
pub mod Ends
pub mod Records
use teleproxy.Base.{
  ℕ, zero, suc, ◌+◌, ◌-◌, ◌*◌, ◌/◌, ◌%◌, ◌^◌, Bool, true, false, not, ◌&&◌, ◌||◌, List, [], ◌∷◌,
  ◌++◌, arith, ltb, leb, ◌==◌, if◌then◌else◌, length, get_elem?, drop, take, Option, none, some,
}
use teleproxy.Tls.{
  Outcome, done, reject, fault, stuck, ◌>>=◌, ◌>>◌, guard, read_byte, read_length, check_length,
  compare_at, expect,
}

-- The output arguments on success: the order of the extensions, the sizes that were stored, and
-- the number of records.
pub record Answer : Type 0 where
  pub reversed : Bool
  pub sizes : List ℕ
  pub count : ℕ

abbrev pub max_encrypted_records : ℕ
max_encrypted_records = 8

-- The `random` of a HelloRetryRequest.
abbrev pub retry_random : List ℕ
retry_random =
    0xcf ∷ 0x21 ∷ 0xad ∷ 0x74 ∷ 0xe5 ∷ 0x9a ∷ 0x61 ∷ 0x11 ∷ 0xbe ∷ 0x1d ∷ 0x8c ∷ 0x02 ∷ 0x1e ∷ 0x65
    ∷ 0xb8 ∷ 0x91 ∷ 0xc2 ∷ 0xa2 ∷ 0x11 ∷ 0x16 ∷ 0x7a ∷ 0xbb ∷ 0x8c ∷ 0x5e ∷ 0x07 ∷ 0x9e ∷ 0x09
    ∷ 0xe2 ∷ 0xc8 ∷ 0xa8 ∷ 0x33 ∷ 0x9c ∷ []

-- One extension: its identifier, the position behind the identifier, and the next extension's.
pub read_extension : List ℕ → ℕ → ℕ → Outcome (ℕ × ℕ × ℕ)
unfolding read_length
read_extension response hello_length pos = do
  (id, pos1) ← read_length response pos
  guard (id == 0x33 || id == 0x2b)
  (len, pos2) ← read_length response pos1
  guard (leb (pos2 + len) (5 + hello_length))
  guard (len == (if id == 0x33 then 36 else 2))
  done (id, pos1, pos2 + len)

-- The loop over the extensions: the position, the order flag and the sum of the identifiers.
pub extensions : ℕ → List ℕ → ℕ → ℕ → Bool → ℕ → Outcome (ℕ × Bool × ℕ)
unfolding read_extension
extensions zero response hello_length pos reversed sum = stuck
extensions (suc fuel) response hello_length pos reversed sum =
    let round : Outcome (ℕ × Bool × ℕ) =
      (read_extension response hello_length pos >>= λ (id, pos1, next).
      extensions fuel response hello_length next (if pos1 == 83 then id == 0x2b else reversed)
        (sum + id)) in
    if ltb pos (5 + hello_length - 4) then round else done (pos, reversed, sum)

-- One record of application data at a position: its size and the next position, if it is there.
pub read_record : List ℕ → ℕ → Outcome (Option (ℕ × ℕ))
unfolding read_length compare_at
read_record response pos =
    if leb (pos + 5) (length response)
    then (do
      same ← compare_at response pos (0x17 ∷ 0x03 ∷ 0x03 ∷ [])
      (rec_len, pos1) ← (if same then read_length response (pos + 3) else done (0, 0))
      done (
          if not same || (rec_len == 0 || ltb (length response) (pos1 + rec_len))
          then none
          else some (rec_len, pos1 + rec_len)))
    else done none

-- The loop over the records: the sizes kept and the number of records.
pub records : ℕ → List ℕ → ℕ → List ℕ → ℕ → Outcome (List ℕ × ℕ)
unfolding read_record
records zero response pos sizes count = stuck
records (suc fuel) response pos sizes count = read_record response pos >>= elim [
  | none ↦ done (sizes, count)
  | some (rec_len, next) ↦
      records fuel response next
        (if ltb count max_encrypted_records then sizes ++ (rec_len ∷ []) else sizes) (count + 1)
]

-- The record header and the length of the ServerHello.
pub check_record : List ℕ → Outcome ℕ
unfolding check_length read_length expect compare_at
check_record response = do
  check_length response 0 3
  expect response 0 (0x16 ∷ 0x03 ∷ 0x03 ∷ [])
  check_length response 3 2
  (hello_length, pos) ← read_length response 3
  guard (not (leb hello_length 39))
  check_length response pos hello_length
  done hello_length

-- The fields up to the session identifier's length.
pub check_random : List ℕ → Outcome (Unit {0})
unfolding expect compare_at read_byte
check_random response = do
  expect response 5 (0x02 ∷ 0x00 ∷ [])
  expect response 9 (0x03 ∷ 0x03 ∷ [])
  retry ← compare_at response 11 retry_random
  guard (not retry)
  id_length ← read_byte response 43
  guard (not (id_length == 0))
  expect response 43 (0x20 ∷ [])

-- The session identifier, the cipher suite and the length of the extensions.
pub check_session : List ℕ → List ℕ → ℕ → Outcome (Unit {0})
unfolding expect compare_at read_length
check_session response request_session_id hello_length = do
  guard (not (leb hello_length 75))
  expect response 44 request_session_id
  expect response 76 (0x13 ∷ 0x01 ∷ 0x00 ∷ [])
  (extensions_length, pos) ← read_length response 79
  guard (extensions_length + 76 == hello_length)

-- From the extensions on.
pub check_tail : List ℕ → ℕ → Outcome Answer
unfolding extensions records check_length expect
check_tail response hello_length = do
  (pos, reversed, sum) ← extensions (length response) response hello_length 81 false 0
  guard (sum == 0x33 + 0x2b)
  guard (pos == 5 + hello_length)
  check_length response pos 6
  expect response pos (0x14 ∷ 0x03 ∷ 0x03 ∷ 0x00 ∷ 0x01 ∷ 0x01 ∷ [])
  (sizes, count) ← records (length response) response (pos + 6) [] 0
  guard (not (count == 0))
  done (record { reversed = reversed; sizes = sizes; count = count })

unfoldable pub check_server_hello : List ℕ → List ℕ → Outcome Answer
unfolding check_record check_random check_session check_tail
check_server_hello response request_session_id = do
  hello_length ← check_record response
  check_random response
  check_session response request_session_id hello_length
  check_tail response hello_length
