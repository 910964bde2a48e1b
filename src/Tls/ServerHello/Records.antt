-- ===== src/Tls/ServerHello/Records.antt =====
-- `tls_check_server_hello` on every answer.
use teleproxy.Base.{
  ℕ, zero, suc, ◌+◌, ◌-◌, ◌≤◌, ◌<◌, ◌≡◌, refl, sym, ap, subst, ◌∙◌, Bool, true, false, not, ◌&&◌,
  List, [], ◌∷◌, ◌++◌, arith, ltb, leb, ◌==◌, if◌then◌else◌, length, drop, take, none, some,
  append-nil, append_assoc, Bool-cases, inl, inr, ◌⊎◌,
}
use teleproxy.Tls.{done, reject, ◌>>=◌, guard, check_length, expect, bytes_eq}
use teleproxy.Tls.Reads.{be16, read_byte_lem, read_length_lem}
use teleproxy.Tls.ServerHello.{
  Answer, max_encrypted_records, retry_random, extensions, records, read_extension, read_record,
  check_record, check_random, check_session, check_tail, check_server_hello,
}
use teleproxy.Tls.ServerHello.Ends.{
  compare_at_lem, expect_lem, Ends, bind-Ends, Ends-mono, guard-holds, expect-Ends, Ends-cases,
}

read_extension-Ends :
    (response : List ℕ) (hello_length pos : ℕ)
    → 5 + hello_length ≤ length response
    → pos + 4 ≤ length response
    → Ends
        (read_extension response hello_length pos)
        (λ t. (pos + 4 ≤ t.2) × (t.2 ≤ 5 + hello_length))
unfolding read_extension
read_extension-Ends response hello_length pos hl hp =
    ground (arith, read_length_lem response pos, read_length_lem response (pos + 2))

extensions-Ends :
    (fuel : ℕ) (response : List ℕ) (hello_length pos : ℕ) (reversed : Bool) (sum : ℕ)
    → 5 + hello_length ≤ length response
    → 5 + hello_length < fuel + pos
    → pos ≤ 5 + hello_length
    → Ends (extensions fuel response hello_length pos reversed sum) (λ t. t.0 ≤ 5 + hello_length)
unfolding extensions
extensions-Ends zero response hello_length pos reversed sum hl hf hp = absurd (omega arith)
extensions-Ends (suc fuel) response hello_length pos reversed sum hl hf hp =
    elim (Bool-cases (ltb pos (5 + hello_length - 4))) [
      | inr e ↦ rw e hp
      | inl e ↦ rw e (
          bind-Ends (read_extension response hello_length pos) _ _ _
            (read_extension-Ends response hello_length pos hl (ground arith))
            (λ t h.
              extensions-Ends fuel response hello_length t.2
                (if t.1 == 83 then t.0 == 0x2b else reversed) (sum + t.0) hl (omega arith)
                (omega arith)))
    ]

-- A record of application data stands at a position: its header, and a payload that is not empty and
-- ends inside the buffer.
abbrev pub has_record : List ℕ → ℕ → Bool
has_record response pos =
    leb (pos + 5) (length response)
    && (bytes_eq (take 3 (drop pos response)) (0x17 ∷ 0x03 ∷ 0x03 ∷ [])
        && (not (be16 response (pos + 3) == 0)
            && leb (pos + 5 + be16 response (pos + 3)) (length response)))

-- The records at a position, one behind the other, have these lengths, and no further one follows.
pub Lengths : List ℕ → ℕ → List ℕ → Type 0
Lengths response pos [] = has_record response pos ≡ false
Lengths response pos (n ∷ ns) =
    (has_record response pos ≡ true)
    × (n ≡ be16 response (pos + 3))
    × Lengths response (pos + 5 + n) ns

-- What is read of a record, and when none is.
read_record-Ends :
    (response : List ℕ) (pos : ℕ)
    → Ends (read_record response pos) (elim [
      | none ↦ has_record response pos ≡ false
      | some (rec_len, next) ↦
          (has_record response pos ≡ true)
          × (rec_len ≡ be16 response (pos + 3))
          × (next ≡ pos + 5 + rec_len)
    ])
unfolding read_record
read_record-Ends response pos = elim (Bool-cases (leb (pos + 5) (length response))) [
  | inr e ↦ let h : has_record response pos ≡ false = rw e refl in rw e h
  | inl e ↦
      rw (e, compare_at_lem response pos (0x17 ∷ 0x03 ∷ 0x03 ∷ []) (ground arith))
        (elim (Bool-cases (bytes_eq (take 3 (drop pos response)) (0x17 ∷ 0x03 ∷ 0x03 ∷ []))) [
          | inr f ↦ let h : has_record response pos ≡ false = rw (e, f) refl in rw f h
          | inl t ↦ rw (t, read_length_lem response (pos + 3) (ground arith)) (ground arith)
        ])
]

-- What the record loop gathers from a position on, behind the `count` records before it.
abbrev Gathered : List ℕ → ℕ → List ℕ → ℕ → List ℕ × ℕ → Type 0
Gathered response pos sizes count t =
    (lengths : List ℕ) × Lengths response pos lengths
    × (t.0 ≡ sizes ++ take (max_encrypted_records - count) lengths)
    × (t.1 ≡ count + length lengths)

take-nil : (n : ℕ) → ◌≡◌ {A = List ℕ} (take n []) []
take-nil zero = refl
take-nil (suc n) = refl

kept-sizes :
    (sizes : List ℕ) (count n : ℕ) (ns : List ℕ)
    → (if ltb count max_encrypted_records then sizes ++ (n ∷ []) else sizes)
        ++ take (max_encrypted_records - (count + 1)) ns
      ≡ sizes ++ take (max_encrypted_records - count) (n ∷ ns)
kept-sizes sizes count n ns = elim (Bool-cases (ltb count max_encrypted_records)) [
  | inl e ↦
      let k : max_encrypted_records - count ≡ suc (max_encrypted_records - (count + 1)) =
        ground (arith, e) in
      rw (e, k) (append_assoc sizes (n ∷ []) (take (max_encrypted_records - (count + 1)) ns))
  | inr e ↦
      let k : max_encrypted_records - count ≡ 0 = ground (arith, e) in
      let l : max_encrypted_records - (count + 1) ≡ 0 = ground (arith, e) in rw (e, k, l) refl
]

Gathered-cons :
    (response : List ℕ) (pos : ℕ) (sizes : List ℕ) (count n next : ℕ) (t : List ℕ × ℕ)
    → has_record response pos ≡ true
    → n ≡ be16 response (pos + 3)
    → next ≡ pos + 5 + n
    → Gathered response next
        (if ltb count max_encrypted_records then sizes ++ (n ∷ []) else sizes)
        (count + 1)
        t
    → Gathered response pos sizes count t
unfolding Lengths
Gathered-cons response pos sizes count n next t h e f (ns, l, kept, counted) = (
  n ∷ ns,
  (h, e, subst (λ p. Lengths response p ns) f l),
  kept ∙ kept-sizes sizes count n ns,
  ground (arith, counted),
)

has_record-inside :
    (response : List ℕ) (pos : ℕ)
    → has_record response pos ≡ true
    → pos + 5 + be16 response (pos + 3) ≤ length response
has_record-inside response pos h = ground (arith, h)

records-Ends :
    (fuel : ℕ) (response : List ℕ) (pos : ℕ) (sizes : List ℕ) (count : ℕ)
    → length response < fuel + pos
    → pos ≤ length response
    → Ends (records fuel response pos sizes count) (Gathered response pos sizes count)
unfolding records Lengths
records-Ends zero response pos sizes count hf hp = absurd (omega arith)
records-Ends (suc fuel) response pos sizes count hf hp =
    bind-Ends (read_record response pos) _ _ _ (read_record-Ends response pos) (elim [
      | none ↦ λ h. ([], h, sym (ap (λ l. sizes ++ l) (take-nil _) ∙ append-nil sizes), omega arith)
      | some (rec_len, next) ↦ λ h.
          let e = h.2 in
          let inside = has_record-inside response pos h.0 in
          Ends-mono _ _ _
            (records-Ends fuel response next
              (if ltb count max_encrypted_records then sizes ++ (rec_len ∷ []) else sizes)
              (count + 1) (omega arith) (ground (arith, e, inside, h)))
            (λ t g. Gathered-cons response pos sizes count rec_len next t h.0 h.1 h.2 g)
    ])

check_record-Ends :
    (response : List ℕ)
    → Ends (check_record response) (λ hello_length.
      (5 + hello_length ≤ length response) × (39 < hello_length) × (hello_length ≡ be16 response 3))
unfolding check_record check_length
check_record-Ends response =
    ground (arith, expect_lem response 0 (0x16 ∷ 0x03 ∷ 0x03 ∷ []), read_length_lem response 3)

check_random-Ends :
    (response : List ℕ) → 45 ≤ length response → Ends (check_random response) (λ _. Unit {0})
unfolding check_random
check_random-Ends response h = ground (
  arith,
  expect_lem response 5 (0x02 ∷ 0x00 ∷ []),
  expect_lem response 9 (0x03 ∷ 0x03 ∷ []),
  compare_at_lem response 11 retry_random,
  read_byte_lem response 43,
  expect_lem response 43 (0x20 ∷ []),
)

check_session-Ends :
    (response request_session_id : List ℕ) (hello_length : ℕ)
    → length request_session_id ≡ 32
    → 5 + hello_length ≤ length response
    → Ends (check_session response request_session_id hello_length) (λ _. 76 ≤ hello_length)
unfolding check_session
check_session-Ends response request_session_id hello_length hs h =
    bind-Ends (guard (not (leb hello_length 75))) _ (λ _. 76 ≤ hello_length) _ (ground arith)
      (λ _ big.
        bind-Ends (expect response 44 request_session_id) _ (λ _. Unit {0}) _
          (expect-Ends response 44 request_session_id (omega arith))
          (λ _ _.
            bind-Ends (expect response 76 (0x13 ∷ 0x01 ∷ 0x00 ∷ [])) _ (λ _. Unit {0}) _
              (expect-Ends response 76 (0x13 ∷ 0x01 ∷ 0x00 ∷ []) (omega arith))
              (λ _ _. ground (arith, read_length_lem response 79))))

-- What an accepted answer holds: behind the ServerHello and the ChangeCipherSpec, records of these
-- lengths.
abbrev pub IsRead : List ℕ → Answer → Type 0
IsRead response a =
    (lengths : List ℕ) × Lengths response (11 + be16 response 3) lengths
    × (0 < a.count)
    × (a.count ≡ length lengths)
    × (a.sizes ≡ take max_encrypted_records lengths)

tail-IsRead :
    (response : List ℕ) (hello_length pos : ℕ) (reversed : Bool) (t : List ℕ × ℕ)
    → hello_length ≡ be16 response 3
    → pos ≡ 5 + hello_length
    → Gathered response (pos + 6) [] 0 t
    → not (t.1 == 0) ≡ true
    → IsRead response (record { reversed = reversed; sizes = t.0; count = t.1 })
tail-IsRead response hello_length pos reversed t e f (lengths, l, kept, counted) some_record =
    let p : pos + 6 ≡ 11 + be16 response 3 = ground (arith, e, f) in
    (
      lengths,
      subst (λ i. Lengths response i lengths) p l,
      ground (arith, some_record),
      ground (arith, counted),
      kept,
    )

-- From the ChangeCipherSpec on.
after_extensions :
    (response : List ℕ) (hello_length pos : ℕ) (reversed : Bool)
    → hello_length ≡ be16 response 3
    → pos ≡ 5 + hello_length
    → Ends
        (check_length response pos 6 >>= λ _.
          expect response pos (0x14 ∷ 0x03 ∷ 0x03 ∷ 0x00 ∷ 0x01 ∷ 0x01 ∷ []) >>= λ _.
          records (length response) response (pos + 6) [] 0 >>= λ t. guard (not (t.1 == 0)) >>= λ _.
          done (record { reversed = reversed; sizes = t.0; count = t.1 }))
        (IsRead response)
unfolding check_length
after_extensions response hello_length pos reversed e f =
    bind-Ends (check_length response pos 6) _ (λ _. pos + 6 ≤ length response) _ (ground arith)
      (λ _ room.
        bind-Ends (expect response pos (0x14 ∷ 0x03 ∷ 0x03 ∷ 0x00 ∷ 0x01 ∷ 0x01 ∷ [])) _
          (λ _. Unit {0}) _
          (expect-Ends response pos (0x14 ∷ 0x03 ∷ 0x03 ∷ 0x00 ∷ 0x01 ∷ 0x01 ∷ []) room)
          (λ _ _.
            bind-Ends (records (length response) response (pos + 6) [] 0) _ _ _
              (records-Ends (length response) response (pos + 6) [] 0 (omega arith) room)
              (λ t g.
                bind-Ends (guard (not (t.1 == 0))) _ (λ _. not (t.1 == 0) ≡ true) _ (guard-holds _)
                  (λ _ some_record.
                    tail-IsRead response hello_length pos reversed t e f g some_record))))

check_tail-Ends :
    (response : List ℕ) (hello_length : ℕ)
    → 5 + hello_length ≤ length response
    → hello_length ≡ be16 response 3
    → 76 ≤ hello_length
    → Ends (check_tail response hello_length) (IsRead response)
unfolding check_tail check_length
check_tail-Ends response hello_length h e h76 =
    bind-Ends (extensions (length response) response hello_length 81 false 0) _ _ _
      (extensions-Ends (length response) response hello_length 81 false 0 h (omega arith)
        (omega arith))
      (λ t ht.
        bind-Ends (guard (t.2 == 0x33 + 0x2b)) _ (λ _. Unit {0}) _
          (Ends-mono _ _ _ (guard-holds _) (λ _ _. tt))
          (λ _ _.
            bind-Ends (guard (t.0 == 5 + hello_length)) _ (λ _. (t.0 == 5 + hello_length) ≡ true) _
              (guard-holds _)
              (λ _ place.
                after_extensions response hello_length t.0 t.1 e (ground (arith, place)))))

check_server_hello-Ends :
    (response request_session_id : List ℕ)
    → length request_session_id ≡ 32
    → Ends (check_server_hello response request_session_id) (IsRead response)
unfolding check_server_hello
check_server_hello-Ends response request_session_id hs =
    bind-Ends (check_record response) _ _ _ (check_record-Ends response) (λ hello_length h.
      bind-Ends (check_random response) _ _ _ (check_random-Ends response (omega arith)) (λ _ _.
        bind-Ends (check_session response request_session_id hello_length) _ _ _
          (check_session-Ends response request_session_id hello_length hs h.0)
          (λ _ k. check_tail-Ends response hello_length h.0 h.2 k)))

-- Whatever the upstream server answers, the check reads inside the buffer only and ends: it
-- refuses the answer, or accepts it with at least one record of application data behind the
-- ServerHello and the ChangeCipherSpec. It counts these records, up to the first place where no
-- whole record with a payload stands, and stores the payload lengths of the first eight.
pub check_server_hello_total :
    (response request_session_id : List ℕ)
    → length request_session_id ≡ 32
    → (check_server_hello response request_session_id ≡ reject)
      ⊎ ((a : Answer) × (check_server_hello response request_session_id ≡ done a)
          × IsRead response a)
check_server_hello_total response request_session_id hs =
    Ends-cases _ (IsRead response) (check_server_hello-Ends response request_session_id hs)
