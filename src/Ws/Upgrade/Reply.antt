-- ===== src/Ws/Upgrade/Reply.antt =====
-- src/net/net-websocket.c and src/net/net-tcp-rpc-ext-server.c: what the handshake consumes and
-- answers.
use teleproxy.Base.{
  ℕ, zero, suc, ◌+◌, ◌*◌, ◌/◌, ◌≤◌, ◌<◌, true, false, List, [], ◌∷◌, ◌++◌, arith, ltb, leb, ◌==◌,
  if◌then◌else◌, none, some, length, take, drop, Bool-cases, Option-cases, ◌≡◌, refl, sym, ap, ◌∙◌,
  inl, inr, ◌⊎◌, length-take, length-append, append_assoc, take-append-drop, drop-append,
}
use teleproxy.ProxyProtocol.{c_string}
use teleproxy.Ws.Upgrade.{
  starts_with, find, find_case, skip_spaces, clip, crlf, crlf2, space_http, key_name, get_space,
  upgrade_websocket, Upgrade, need_more, refused, upgrade, upgrade_key, upgrade_request,
  ws_parse_upgrade_request, Handshake, ws_state_none, ws_state_active, Next, waits, goes_on,
  ws_magic_guid, response_head, ws_compute_accept_key, ws_build_upgrade_response, ws_answer,
  ws_handshake,
}

starts_with_split :
    (needle text : List ℕ)
    → starts_with needle text ≡ true
    → (after : List ℕ) × (text ≡ needle ++ after)
unfolding starts_with
starts_with_split [] text e = (text, refl)
starts_with_split (n ∷ ns) [] e = absurd (ground (arith, e))
starts_with_split (n ∷ ns) (c ∷ cs) e =
    let h : n ≡ c = ground (arith, e) in
    let t : starts_with ns cs ≡ true = ground (arith, e) in
    let (after, q) = starts_with_split ns cs t in (after, rw (h, q) refl)

some_inj : {x y : ℕ} → some x ≡ some y → x ≡ y
some_inj {x} e = ap (λ o. elim o [ none ↦ x | some z ↦ z ]) e

-- An occurrence that is found splits the text.
find_split :
    (needle text : List ℕ) (n : ℕ)
    → find needle text ≡ some n
    → (before : List ℕ) × (after : List ℕ) × (text ≡ before ++ (needle ++ after))
      × (length before ≡ n)
unfolding find
find_split needle [] n e = absurd (ground (arith, e))
find_split needle (c ∷ cs) n e = elim (Bool-cases (starts_with needle (c ∷ cs))) [
  | inl t ↦
      let (after, q) = starts_with_split needle (c ∷ cs) t in ([], after, q, some_inj (rw t at e))
  | inr f ↦ elim (Option-cases (find needle cs)) [
    | inl m ↦ absurd (ground (arith, rw (f, m) at e))
    | inr (k, q) ↦
        let (before, after, s, l) = find_split needle cs k q in
        (c ∷ before, after, ap (λ x. c ∷ x) s, ap suc l ∙ some_inj (rw (f, q) at e))
  ]
]

c_string_split : (s : List ℕ) → (more : List ℕ) × (s ≡ c_string s ++ more)
unfolding c_string
c_string_split [] = ([], refl)
c_string_split (c ∷ s) = elim (Bool-cases (c == 0)) [
  | inl t ↦ (c ∷ s, rw t refl)
  | inr f ↦ let (more, q) = c_string_split s in (more, rw f (ap (λ x. c ∷ x) q))
]

-- What is stored in a buffer of `len` bytes leaves room for the NUL.
clip_fits : (len n : ℕ) (s : List ℕ) → 0 < len → length (take (clip len n) s) < len
clip_fits len n s some_room =
    let e = length-take (clip len n) s in
    let c : clip len n < len = ground arith in omega (arith, e, c)

-- The three outcomes of the parser, with room in its buffers.
abbrev pub Stored : ℕ → ℕ → Upgrade → Type 0
Stored ws_key_len path_len u =
    (path : List ℕ) × (key : List ℕ) × (u ≡ upgrade path key)
    × (length key < ws_key_len)
    × (length path < path_len)

upgrade_key_lem :
    (ws_key_len path_len : ℕ) (text path : List ℕ)
    → 0 < ws_key_len
    → length path < path_len
    → (upgrade_key ws_key_len text path ≡ refused)
      ⊎ Stored ws_key_len path_len (upgrade_key ws_key_len text path)
unfolding upgrade_key
upgrade_key_lem ws_key_len path_len text path room fits =
    elim (Option-cases (find_case key_name text)) [
      | inl n ↦ inl (rw (n, upgrade_key) refl)
      | inr (k, e) ↦ elim (Option-cases (find crlf (skip_spaces (drop (k + 18) text)))) [
        | inl n ↦ inl (rw (e, n, upgrade_key) refl)
        | inr (klen, q) ↦ inr (
          path,
          take (clip ws_key_len klen) (skip_spaces (drop (k + 18) text)),
          rw (e, q, upgrade_key) refl,
          clip_fits ws_key_len klen (skip_spaces (drop (k + 18) text)) room,
          fits,
        )
      ]
    ]

upgrade_request_lem :
    (ws_key_len path_len : ℕ) (text : List ℕ)
    → 0 < ws_key_len
    → 0 < path_len
    → (upgrade_request ws_key_len path_len text ≡ refused)
      ⊎ Stored ws_key_len path_len (upgrade_request ws_key_len path_len text)
unfolding upgrade_request
upgrade_request_lem ws_key_len path_len text room room' =
    elim (Bool-cases (starts_with get_space text)) [
      | inr f ↦ inl (rw f refl)
      | inl t ↦ elim (Option-cases (find space_http (drop 4 text))) [
        | inl n ↦ inl (rw (t, n, upgrade_request) refl)
        | inr (plen, e) ↦ elim (Option-cases (find_case upgrade_websocket text)) [
          | inl n ↦ inl (rw (t, e, n, upgrade_request) refl)
          | inr (u, q) ↦
              rw (t, e, q, upgrade_request)
                (upgrade_key_lem ws_key_len path_len text (take (clip path_len plen) (drop 4 text))
                  room (clip_fits path_len plen (drop 4 text) room'))
        ]
      ]
    ]

-- The blank line that is found in the text stands there in the buffer.
blank_line_split :
    (raw : List ℕ) (end : ℕ)
    → find crlf2 (c_string (take 4096 raw)) ≡ some end
    → (before : List ℕ) × (after : List ℕ) × (raw ≡ before ++ (crlf2 ++ after))
      × (length before ≡ end)
blank_line_split raw end e =
    let (before, after, s, l) = find_split crlf2 (c_string (take 4096 raw)) end e in
    let (more, t) = c_string_split (take 4096 raw) in
    let rest = after ++ (more ++ drop 4096 raw) in
    (
      before,
      rest,
      sym (take-append-drop 4096 raw)
          ∙ ap (λ x. x ++ drop 4096 raw) (t ∙ ap (λ x. x ++ more) s)
          ∙ append_assoc (before ++ (crlf2 ++ after)) more (drop 4096 raw)
          ∙ append_assoc before (crlf2 ++ after) (more ++ drop 4096 raw),
      l,
    )

drop_behind :
    (before after raw : List ℕ) (end : ℕ)
    → raw ≡ before ++ (crlf2 ++ after)
    → length before ≡ end
    → drop (end + 4) raw ≡ after
drop_behind before after raw end s l =
    let a = length-append before crlf2 in
    let n : end + 4 ≡ length (before ++ crlf2) = omega (arith, l, a) in
    ap (λ k. drop k raw) n
    ∙ ap (λ x. drop (length (before ++ crlf2)) x) (s ∙ sym (append_assoc before crlf2 after))
    ∙ drop-append (before ++ crlf2) after

leb_below : (k n : ℕ) → leb k n ≡ false → n < k
leb_below k n e = ground (arith, e)

leb-true : (k n : ℕ) → leb k n ≡ true → k ≤ n
leb-true k n e = ground (arith, e)

-- A blank line stands in the first 4096 bytes, in front of any NUL.
abbrev pub HasBlankLine : List ℕ → Type 0
HasBlankLine raw = (end : ℕ) × (find crlf2 (c_string (take 4096 raw)) ≡ some end)

-- The parser waits while less than 4096 bytes are there and no blank line, or less than 4. It
-- accepts only with a blank line, and what it stores fits its buffers.
pub ws_parse_upgrade_request_lem :
    (raw : List ℕ) (ws_key_len path_len : ℕ)
    → 0 < ws_key_len
    → 0 < path_len
    → ((ws_parse_upgrade_request raw ws_key_len path_len ≡ need_more) × (length raw < 4096))
      ⊎ (((ws_parse_upgrade_request raw ws_key_len path_len ≡ refused)
            × (HasBlankLine raw ⊎ (4096 ≤ length raw)))
          ⊎ (Stored ws_key_len path_len (ws_parse_upgrade_request raw ws_key_len path_len)
              × HasBlankLine raw))
unfolding ws_parse_upgrade_request
ws_parse_upgrade_request_lem raw ws_key_len path_len room room' =
    elim (Bool-cases (ltb (length raw) 4)) [
      | inl t ↦ inl (rw t refl, ground (arith, t))
      | inr f ↦ elim (Option-cases (find crlf2 (c_string (take 4096 raw)))) [
        | inl n ↦ elim (Bool-cases (leb 4096 (length raw))) [
          | inl m ↦ inr (
              inl (rw (f, n, m, ws_parse_upgrade_request) refl, inr (leb-true 4096 (length raw) m)))
          | inr m ↦ inl (rw (f, n, m, ws_parse_upgrade_request) refl, leb_below 4096 (length raw) m)
        ]
        | inr (end, e) ↦
            elim (upgrade_request_lem ws_key_len path_len (c_string (take 4096 raw)) room room') [
              | inl r ↦ inr (inl (rw (f, e, ws_parse_upgrade_request) r, inl (end, e)))
              | inr s ↦ inr (inr (rw (f, e, ws_parse_upgrade_request) s, (end, e)))
            ]
      ]
    ]

module _ (sha1 base64 : List ℕ → List ℕ) where
  -- The answer to a key.
  abbrev pub response_for : List ℕ → List ℕ
  response_for key = response_head ++ (base64 (sha1 (key ++ ws_magic_guid)) ++ crlf2)

  -- OpenSSL's digest has 20 bytes, and base64 makes 4 characters of 3 bytes.
  pub record IsOpenssl : Type 0 where
    pub digest : (m : List ℕ) → length (sha1 m) ≡ 20
    pub encoded : (m : List ℕ) → length (base64 m) ≡ (length m + 2) / 3 * 4

  accept_key_some :
      IsOpenssl
      → (key : List ℕ) → length key < 128
      → ws_compute_accept_key sha1 base64 key 64 ≡ some (base64 (sha1 (key ++ ws_magic_guid)))
  unfolding ws_compute_accept_key
  accept_key_some o key small =
      let d = o.digest (key ++ ws_magic_guid) in
      let e = o.encoded (sha1 (key ++ ws_magic_guid)) in
      let f : ltb 256 (length key + 37) ≡ false = ground (arith, small) in
      let g : leb 64 (length (base64 (sha1 (key ++ ws_magic_guid)))) ≡ false =
        ground (arith, d, e) in
      rw (f, g) refl

  take_all : (n : ℕ) (xs : List ℕ) → length xs ≤ n → take n xs ≡ xs
  take_all zero [] l = refl
  take_all zero (x ∷ xs) l = absurd (omega (arith, l))
  take_all (suc n) [] l = refl
  take_all (suc n) (x ∷ xs) l = ap (λ ys. x ∷ ys) (take_all n xs (omega (arith, l)))

  response_whole :
      IsOpenssl
      → (key : List ℕ)
      → let r = ws_build_upgrade_response (base64 (sha1 (key ++ ws_magic_guid))) 512 in
        take r.1 r.0 ≡ response_for key
  unfolding ws_build_upgrade_response
  response_whole o key =
      let d = o.digest (key ++ ws_magic_guid) in
      let e = o.encoded (sha1 (key ++ ws_magic_guid)) in
      let a = length-append (base64 (sha1 (key ++ ws_magic_guid))) crlf2 in
      let l : length (response_for key) ≤ 511 = omega (arith, a, d, e) in
      ap (take (length (response_for key))) (take_all 511 (response_for key) l)
      ∙ take_all (length (response_for key)) (response_for key) (omega arith)

  -- What a call makes of the connection.
  abbrev pub answered : List ℕ → List ℕ → Handshake → Handshake × Next
  answered key rest c = (
    record c { input = rest; output = c.output ++ response_for key; ws_state = ws_state_active },
    if length rest == 0 then waits else goes_on,
  )

  ws_answer_lem :
      IsOpenssl
      → (c : Handshake) (key : List ℕ) (end : ℕ) → length key < 128
      → find crlf2 (c_string (take 4096 c.input)) ≡ some end
      → (before : List ℕ) × (rest : List ℕ) × (c.input ≡ before ++ (crlf2 ++ rest))
        × (ws_answer sha1 base64 key c ≡ answered key rest c)
  unfolding ws_answer
  ws_answer_lem o c key end small e =
      let (before, after, s, l) = blank_line_split c.input end e in
      let d : drop (end + 4) c.input ≡ after = drop_behind before after c.input end s l in
      (
        before,
        after,
        s,
        rw (accept_key_some o key small, e, ws_answer) (rw (d, response_whole o key) refl),
      )

  -- With OpenSSL's lengths the handshake never fails a connection. It waits while less than 4096
  -- bytes are there; it is refused, which leaves the input to the other transports, only once the
  -- input has a blank line or 4096 bytes. Otherwise it takes the request off the input, up to a
  -- blank line and that line, and appends the whole answer to a key to the output.
  pub ws_handshake_lem :
      IsOpenssl
      → (c : Handshake)
      → ((ws_handshake sha1 base64 c ≡ (c, waits)) × (length c.input < 4096))
        ⊎ (((ws_handshake sha1 base64 c ≡ (record c { ws_state = ws_state_none }, goes_on))
              × (HasBlankLine c.input ⊎ (4096 ≤ length c.input)))
            ⊎ ((key : List ℕ) × (before : List ℕ) × (rest : List ℕ) × (length key < 128)
                × (c.input ≡ before ++ (crlf2 ++ rest))
                × (ws_handshake sha1 base64 c ≡ answered key rest c)))
  unfolding ws_handshake
  ws_handshake_lem o c =
      elim (ws_parse_upgrade_request_lem c.input 128 256 (omega arith) (omega arith)) [
        | inl (e, l) ↦ inl (rw (e, ws_handshake) refl, l)
        | inr (inl (e, b)) ↦ inr (inl (rw (e, ws_handshake) refl, b))
        | inr (inr ((path, key, e, k, p), (end, f))) ↦
            let (before, rest, s, a) = ws_answer_lem o c key end k f in
            inr (inr (key, before, rest, k, s, rw (e, ws_handshake) a))
      ]
