-- ===== src/Tls/Sni.antt =====
-- The server name of a well-formed ClientHello is found.
use mathlib.Core.List.{append_assoc, append-nil}
use teleproxy.Base.{
  ℕ, suc, ◌+◌, ◌-◌, ◌/◌, ◌%◌, ◌^◌, ◌≤◌, ◌<◌, ◌≡◌, refl, false, List, [], ◌∷◌, ◌++◌, arith, ◌==◌,
  if◌then◌else◌, length, get_or, drop, ◌≢◌, length-append, All, get_or-append, drop-append,
  take-append, ◌∙◌, ap, sym,
}
use teleproxy.Tls.{
  done, read_length, check_length, copy_bytes, no_zeros, sni_name, sni_loop, parse_sni,
}
use teleproxy.Tls.Reads.{read_byte_lem, be16, read_length_lem}

-- A 16-bit number as TLS writes it.
abbrev pub u16 : ℕ → List ℕ
u16 n = n / 256 ∷ n % 256 ∷ []

-- An extension, and the body of the one that holds the server name.
pub extension : ℕ → List ℕ → List ℕ
extension id body = u16 id ++ (u16 (length body) ++ body)

pub sni_body : List ℕ → List ℕ
sni_body name = u16 (length name + 3) ++ (0 ∷ u16 (length name) ++ name)

-- Other extensions in front of it.
pub extension_list : List (ℕ × List ℕ) → List ℕ
unfolding extension
extension_list [] = []
extension_list ((id, body) ∷ exts) = extension id body ++ extension_list exts

abbrev pub IsOther : ℕ × List ℕ → Type 0
IsOther e = e.0 ≢ 0

-- A read behind a prefix.
be16-append :
    (hello pre xs : List ℕ) (i : ℕ) → hello ≡ pre ++ xs → be16 hello (length pre + i) ≡ be16 xs i
be16-append hello pre xs i e =
    let f : length pre + i + 1 ≡ length pre + (i + 1) = omega arith in
    rw (e, f, get_or-append pre xs i 0, get_or-append pre xs (i + 1) 0)

no_zeros_lem :
    (name hello pre rest : List ℕ)
    → hello ≡ pre ++ (name ++ rest)
    → All (λ b. b ≢ 0) name
    → no_zeros hello (length pre) (length name) ≡ done tt
unfolding no_zeros
no_zeros_lem [] hello pre rest e h = refl
no_zeros_lem (b ∷ name) hello pre rest e h = ground (
  arith,
  read_byte_lem hello (length pre),
  ap length e,
  length-append pre ((b ∷ name) ++ rest),
  length-append pre (b ∷ []),
  ap (λ l. get_or l (length pre + 0) 0) e,
  get_or-append pre ((b ∷ name) ++ rest) 0 0,
  no_zeros_lem name hello (pre ++ (b ∷ [])) rest
      (e ∙ sym (append_assoc pre (b ∷ []) (name ++ rest))) h.1,
)

copy_bytes_lem :
    (name hello pre rest : List ℕ)
    → hello ≡ pre ++ (name ++ rest)
    → copy_bytes hello (length pre) (length name) ≡ done name
unfolding copy_bytes
copy_bytes_lem name hello pre rest e = ground (
  arith,
  ap length e,
  length-append pre (name ++ rest),
  length-append name rest,
  ap (λ l. drop (length pre) l) e,
  drop-append pre (name ++ rest),
  take-append name rest,
)

sni_name_lem :
    (name hello pre rest : List ℕ) (max_domain_len pos : ℕ)
    → hello ≡ pre ++ (sni_body name ++ rest)
    → pos ≡ length pre
    → All (λ b. b ≢ 0) name
    → 0 < length name
    → length name < max_domain_len
    → length name + 3 < 2 ^ 16
    → sni_name hello max_domain_len (length (sni_body name)) pos ≡ done name
unfolding sni_name sni_body check_length
sni_name_lem name hello pre rest max_domain_len pos e ep hz h0 hm hl =
    let n = length name in
    let head : List ℕ = (n + 3) / 256 ∷ (n + 3) % 256 ∷ 0 ∷ n / 256 ∷ n % 256 ∷ [] in
    let e' : hello ≡ (pre ++ head) ++ (name ++ rest) =
      e ∙ sym (append_assoc pre head (name ++ rest)) in
    ground (
      arith,
      ap length e,
      length-append pre (sni_body name ++ rest),
      length-append name rest,
      length-append pre head,
      be16-append hello pre (sni_body name ++ rest) 0 e,
      be16-append hello pre (sni_body name ++ rest) 3 e,
      read_length_lem hello pos,
      read_byte_lem hello (pos + 2),
      ap (λ l. get_or l (length pre + 2) 0) e,
      get_or-append pre (sni_body name ++ rest) 2 0,
      read_length_lem hello (pos + 2 + 1),
      no_zeros_lem name hello (pre ++ head) rest e' hz,
      copy_bytes_lem name hello (pre ++ head) rest e',
    )

check_length_lem :
    (buf : List ℕ) (pos n : ℕ) → pos + n ≤ length buf → check_length buf pos n ≡ done tt
unfolding check_length
check_length_lem buf pos n h = ground arith

-- A 16-bit number behind a prefix is read back.
read_u16 :
    (hello pre xs : List ℕ) (n pos : ℕ)
    → hello ≡ pre ++ (u16 n ++ xs)
    → pos ≡ length pre
    → read_length hello pos ≡ done (n, pos + 2)
read_u16 hello pre xs n pos e ep = ground (
  arith,
  read_length_lem hello pos,
  be16-append hello pre (u16 n ++ xs) 0 e,
  ap length e,
  length-append pre (u16 n ++ xs),
)

-- One round of the loop, at an extension.
sni_loop_round :
    (fuel : ℕ) (hello pre body rest : List ℕ) (id max_domain_len pos : ℕ)
    → hello ≡ pre ++ (extension id body ++ rest)
    → pos ≡ length pre
    → sni_loop (suc fuel) hello max_domain_len pos ≡ (
        if id == 0
        then sni_name hello max_domain_len (length body) (pos + 2 + 2)
        else sni_loop fuel hello max_domain_len (pos + 2 + 2 + length body))
unfolding sni_loop extension
sni_loop_round fuel hello pre body rest id max_domain_len pos e ep =
    let whole = length-append pre (extension id body ++ rest) in
    let tail = length-append body rest in
    let size = ap length e in
    rw (
      check_length_lem hello pos 4 (omega arith),
      read_u16 hello pre (u16 (length body) ++ (body ++ rest)) id pos e ep,
      read_u16 hello (pre ++ u16 id) (body ++ rest) (length body) (pos + 2)
          (e ∙ sym (append_assoc pre (u16 id) (u16 (length body) ++ (body ++ rest))))
          (omega (arith, length-append pre (u16 id))),
      check_length_lem hello (pos + 2 + 2) (length body) (omega arith),
    )

-- The loop passes over extensions of another kind.
sni_loop-extension_list :
    (exts : List (ℕ × List ℕ)) (fuel : ℕ) (hello pre tail : List ℕ) (max_domain_len pos : ℕ)
    → hello ≡ pre ++ (extension_list exts ++ tail)
    → pos ≡ length pre
    → All IsOther exts
    → sni_loop (length exts + fuel) hello max_domain_len pos
      ≡ sni_loop fuel hello max_domain_len (length (pre ++ extension_list exts))
unfolding extension_list
sni_loop-extension_list [] fuel hello pre tail max_domain_len pos e ep h =
    let z : 0 + fuel ≡ fuel = omega arith in rw (z, append-nil, ep)
sni_loop-extension_list ((id, body) ∷ exts) fuel hello pre tail max_domain_len pos e ep h =
    let z : suc (length exts) + fuel ≡ suc (length exts + fuel) = omega arith in
    let e' : hello ≡ pre ++ (extension id body ++ (extension_list exts ++ tail)) =
      e ∙ ap (λ l. pre ++ l) (append_assoc (extension id body) (extension_list exts) tail) in
    let other : (id == 0) ≡ false = ground (arith, h.0) in
    rw
      (
        z,
        sni_loop_round (length exts + fuel) hello pre body (extension_list exts ++ tail) id
            max_domain_len pos e' ep,
        other,
      )
      (sni_loop-extension_list exts fuel hello (pre ++ extension id body) tail max_domain_len
          (pos + 2 + 2 + length body)
          (e' ∙ sym (append_assoc pre (extension id body) (extension_list exts ++ tail)))
          (unfold extension in omega (arith, length-append pre (extension id body))) h.1
        ∙ ap (λ (l : List ℕ). sni_loop fuel hello max_domain_len (length l))
            (append_assoc pre (extension id body) (extension_list exts)))

length-extension_list : (exts : List (ℕ × List ℕ)) → length exts ≤ length (extension_list exts)
unfolding extension_list extension
length-extension_list [] = omega arith
length-extension_list ((id, body) ∷ exts) =
    omega
      (arith, length-extension_list exts, length-append (extension id body) (extension_list exts))

-- A ClientHello whose first 76 bytes, compression and extensions fields are whatever they are.
pub client_hello : List ℕ → List ℕ → List ℕ → List (ℕ × List ℕ) → List ℕ → List ℕ → List ℕ
client_hello start ciphers fields exts name rest =
    start
    ++ (u16 (length ciphers)
        ++ (ciphers ++ (fields ++ (extension_list exts ++ (extension 0 (sni_body name) ++ rest)))))

sni_loop_finds :
    (fuel : ℕ) (hello pre name rest : List ℕ) (max_domain_len : ℕ)
    → hello ≡ pre ++ (extension 0 (sni_body name) ++ rest)
    → All (λ b. b ≢ 0) name
    → 0 < length name
    → length name < max_domain_len
    → length name + 3 < 2 ^ 16
    → sni_loop (suc fuel) hello max_domain_len (length pre) ≡ done name
unfolding extension
sni_loop_finds fuel hello pre name rest max_domain_len e hz h0 hm hl =
    let head : List ℕ = u16 0 ++ u16 (length (sni_body name)) in
    sni_loop_round fuel hello pre (sni_body name) rest 0 max_domain_len (length pre) e refl
    ∙ sni_name_lem name hello (pre ++ head) rest max_domain_len (length pre + 2 + 2)
        (e ∙ sym (append_assoc pre head (sni_body name ++ rest)))
        (omega (arith, length-append pre head)) hz h0 hm hl

-- In a ClientHello with other extensions in front of the server name and anything behind it, the
-- parser finds exactly the name that was put there, if it is not empty, holds no zero byte and
-- fits the caller's buffer with its terminator.
pub parse_sni-client_hello :
    (start ciphers fields name rest : List ℕ) (exts : List (ℕ × List ℕ)) (max_domain_len : ℕ)
    → length start ≡ 76
    → length fields ≡ 4
    → All IsOther exts
    → All (λ b. b ≢ 0) name
    → 0 < length name
    → length name < max_domain_len
    → length name + 3 < 2 ^ 16
    → parse_sni (client_hello start ciphers fields exts name rest) max_domain_len ≡ done name
unfolding parse_sni client_hello
parse_sni-client_hello start ciphers fields name rest exts max_domain_len hs hf ho hz h0 hm hl =
    let last : List ℕ = extension 0 (sni_body name) ++ rest in
    let body : List ℕ = extension_list exts ++ last in
    let hello : List ℕ = start ++ (u16 (length ciphers) ++ (ciphers ++ (fields ++ body))) in
    let pre : List ℕ = start ++ (u16 (length ciphers) ++ (ciphers ++ fields)) in
    let e : hello ≡ pre ++ body = simp append_assoc in
    let l1 = length-append start (u16 (length ciphers) ++ (ciphers ++ (fields ++ body))) in
    let l2 = length-append ciphers (fields ++ body) in
    let l3 = length-append fields body in
    let l4 = length-append (extension_list exts) last in
    let l5 = length-extension_list exts in
    let l6 = length-append start (u16 (length ciphers) ++ (ciphers ++ fields)) in
    let l7 = length-append ciphers fields in
    let left : ℕ = length hello - length exts - 1 in
    let fuel : length hello ≡ length exts + suc left = omega arith in
    rw
      (
        check_length_lem hello 76 2 (omega arith),
        read_u16 hello start (ciphers ++ (fields ++ body)) (length ciphers) 76 refl (sym hs),
        check_length_lem hello (76 + 2) (length ciphers + 4) (omega arith),
        fuel,
      )
      (sni_loop-extension_list exts (suc left) hello pre last max_domain_len
          (76 + 2 + length ciphers + 4) e (omega arith) ho
        ∙ sni_loop_finds left hello (pre ++ extension_list exts) name rest max_domain_len
            (e ∙ sym (append_assoc pre (extension_list exts) last)) hz h0 hm hl)
