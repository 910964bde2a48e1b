-- ===== src/Acl/Networks.antt =====
-- What a rule matches.
use native.Mathlib.Nat.{pow-suc}
use teleproxy.Base.{
  ℕ, zero, suc, ◌+◌, ◌-◌, ◌*◌, ◌/◌, ◌%◌, ◌^◌, ◌≤◌, ◌<◌, ◌≡◌, ◌↔◌, refl, true, List, [], ◌∷◌, arith,
  leb, if◌then◌else◌, length, ==_iff, inl, inr, All, Bool-cases, sym, ◌∙◌, ap,
}
use teleproxy.Base.Bits.{table_lem, table}
use teleproxy.Acl.{
  rule_v4, rule_v6, clear_low, mask_v4, mask_byte, mask_v6, match_v4, match_bytes, match_v6,
}

pow_pos : (k : ℕ) → 0 < 2 ^ k
pow_pos zero = omega arith
pow_pos (suc k) = rw (pow-suc 2 k) (omega (arith, pow_pos k))

clear_low_iff :
    (k x y : ℕ)
    → 0 < k
    → ((x / k * k ≡ y / k * k) → (x / k ≡ y / k)) × ((x / k ≡ y / k) → (x / k * k ≡ y / k * k))
clear_low_iff k x y h = (λ e. grind arith, λ e. rw e)

mask_v4_full : (x p : ℕ) → 32 ≤ p → mask_v4 x p ≡ x
unfolding mask_v4
mask_v4_full x p h = ground arith

mask_v4_part : (x p : ℕ) → 0 < p → p < 32 → mask_v4 x p ≡ clear_low x (32 - p)
unfolding mask_v4
mask_v4_part x p h k = ground arith

mask_v4_iff :
    (x y p : ℕ)
    → x < 2 ^ 32
    → y < 2 ^ 32
    → p ≤ 32
    → (mask_v4 x p ≡ mask_v4 y p) ↔ (x / 2 ^ (32 - p) ≡ y / 2 ^ (32 - p))
mask_v4_iff x y zero hx hy hp = (λ _. omega arith, λ _. unfold mask_v4 in refl)
mask_v4_iff x y (suc p) hx hy hp = elim (Bool-cases (leb 32 (suc p))) [
  | inl t ↦
      let whole : suc p ≡ 32 = ground (arith, t) in
      let e : 2 ^ (32 - suc p) ≡ 1 = ap (λ (k : ℕ). 2 ^ (32 - k)) whole in
      rw (mask_v4_full x (suc p) (ground arith), mask_v4_full y (suc p) (ground arith), e)
        (λ h. omega arith, λ h. omega arith)
  | inr n ↦
      rw
        (
          mask_v4_part x (suc p) (omega arith) (ground arith),
          mask_v4_part y (suc p) (omega arith) (ground arith),
        )
        (clear_low_iff (2 ^ (32 - suc p)) x y (pow_pos (32 - suc p)))
]

-- An IPv4 rule that was made from an address and a prefix length matches exactly the addresses
-- that agree with it in the first `prefix_len` bits.
pub match_v4-mask_v4 :
    (a ip prefix_len : ℕ)
    → a < 2 ^ 32
    → ip < 2 ^ 32
    → prefix_len ≤ 32
    → (match_v4 (rule_v4 prefix_len (mask_v4 a prefix_len)) ip ≡ true)
      ↔ (ip / 2 ^ (32 - prefix_len) ≡ a / 2 ^ (32 - prefix_len))
unfolding match_v4
match_v4-mask_v4 a ip prefix_len ha hi hp =
    let (to, from) = mask_v4_iff ip a prefix_len hi ha hp in
    let (read, write) = ==_iff (mask_v4 ip prefix_len) (mask_v4 a prefix_len) in
    (λ h. to (read h), λ h. write (from h))

-- Masking a byte with more bits first makes no difference.
mask_table :
    table
      (λ r b. if leb (r % 9) (r / 9) then mask_byte (mask_byte b (r / 9)) (r % 9) else 0)
      (λ r b. if leb (r % 9) (r / 9) then mask_byte b (r % 9) else 0)
      81
      256
    ≡ true
unfolding mask_byte table
mask_table = refl

mask_byte_full : (b q : ℕ) → 8 ≤ q → mask_byte b q ≡ b
unfolding mask_byte
mask_byte_full b q h = ground arith

mask_byte_twice : (b p q : ℕ) → b < 256 → p ≤ q → mask_byte (mask_byte b q) p ≡ mask_byte b p
mask_byte_twice b p q hb h = elim (Bool-cases (leb 8 q)) [
  | inl t ↦ rw (mask_byte_full b q (ground arith))
  | inr n ↦
      let quotient : (q * 9 + p) / 9 ≡ q = ground arith in
      let remainder : (q * 9 + p) % 9 ≡ p = ground arith in
      let ordered : leb p q ≡ true = ground arith in
      rw (remainder, quotient, ordered) at
        (table_lem
          (λ r c. if leb (r % 9) (r / 9) then mask_byte (mask_byte c (r / 9)) (r % 9) else 0)
          (λ r c. if leb (r % 9) (r / 9) then mask_byte c (r % 9) else 0) 81 256 (q * 9 + p) b
          (ground arith) hb mask_table)
]

-- The loop of `match_v6` compares the masked bytes.
match_bytes_iff :
    (a ip : List ℕ) (p : ℕ)
    → length ip ≡ length a
    → (match_bytes ip (mask_v6 a p) p ≡ true) ↔ (mask_v6 ip p ≡ mask_v6 a p)
unfolding match_bytes mask_v6
match_bytes_iff [] [] p h = (λ _. refl, λ _. refl)
match_bytes_iff [] (b ∷ ip) p h = absurd (omega arith)
match_bytes_iff (a ∷ as') [] p h = absurd (omega arith)
match_bytes_iff (a ∷ as') (b ∷ ip) p h =
    let (to, from) = match_bytes_iff as' ip (p - 8) (omega arith) in
    (λ e. ground (arith, to), λ e. ground (arith, from))

mask_v6_twice :
    (a : List ℕ) (p q : ℕ) → All (λ b. b < 256) a → p ≤ q → mask_v6 (mask_v6 a q) p ≡ mask_v6 a p
unfolding mask_v6
mask_v6_twice [] p q h k = refl
mask_v6_twice (b ∷ a) p q h k =
    ground (arith, mask_byte_twice b p q h.0 k, mask_v6_twice a (p - 8) (q - 8) h.1 (omega arith))

-- Networks nest: an IPv6 address that lies in the network of `a` with a long prefix lies in the
-- network of `a` with every shorter one.
pub match_v6_mono :
    (a ip : List ℕ) (p q : ℕ)
    → All (λ b. b < 256) a
    → All (λ b. b < 256) ip
    → length ip ≡ length a
    → p ≤ q
    → match_v6 (rule_v6 q (mask_v6 a q)) ip ≡ true
    → match_v6 (rule_v6 p (mask_v6 a p)) ip ≡ true
unfolding match_v6
match_v6_mono a ip p q ha hi hl h e = (match_bytes_iff a ip p hl).1 (
    sym (mask_v6_twice ip p q hi h)
    ∙ ap (λ l. mask_v6 l p) ((match_bytes_iff a ip q hl).0 e)
    ∙ mask_v6_twice a p q ha h)
