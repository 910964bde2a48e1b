-- ===== src/UniqBloom.antt =====
-- src/net/net-tcp-rpc-ext-uniq-bloom.c: the filter that counts a secret's distinct addresses. A
-- filter is its bits, bit `8 * i + j` for bit `j` of byte `i`, which is how the code addresses them.
-- The caller passes a slot below the limit.
pub mod Novelty
mod Tests
use Prim.Native.Nat.{bit_xor}
use teleproxy.Base.{
  ℕ, zero, suc, ◌+◌, ◌*◌, ◌/◌, ◌%◌, ◌^◌, Bool, true, false, not, ◌||◌, List, [], ◌∷◌, arith, leb,
  ◌==◌, if◌then◌else◌, get_or,
}
use teleproxy.Base.Int.{ℤ, pos, negsuc}

abbrev pub ext_secret_max_slots : ℕ
ext_secret_max_slots = 32

abbrev pub bloom_bits : ℕ
bloom_bits = 2 ^ 16

abbrev pub Filter : Type 0
Filter = ℕ → Bool

-- `uniq_bloom`
abbrev pub Filters : Type 0
Filters = ℕ → Filter

unfoldable pub uniq_bloom_clear_slot : ℤ → Filters → Filters
uniq_bloom_clear_slot (negsuc k) filters = filters
uniq_bloom_clear_slot (pos sid) filters =
    if leb ext_secret_max_slots sid
    then filters
    else (λ k. if k == sid then (λ bit. false) else filters k)

-- The product of two `unsigned` numbers.
abbrev mul32 : ℕ → ℕ → ℕ
mul32 x y = x * y % 2 ^ 32

-- Four bytes of an IPv6 address from index `i` on.
abbrev pub word_at : List ℕ → ℕ → ℕ
word_at a i =
    get_or a i 0 * 2 ^ 24
    + get_or a (i + 1) 0 * 2 ^ 16
    + get_or a (i + 2) 0 * 2 ^ 8
    + get_or a (i + 3) 0

pub hashes_v4 : ℕ → List ℕ
hashes_v4 x =
    mul32 x 2654435761 % bloom_bits
    ∷ (mul32 x 40503 + 0x9e3779b9) % 2 ^ 32 % bloom_bits
    ∷ mul32 (bit_xor x (x / 2 ^ 16)) 0x85ebca6b % bloom_bits
    ∷ mul32 (bit_xor x (x / 2 ^ 13)) 0xc2b2ae35 % bloom_bits
    ∷ []

pub hashes_v6 : List ℕ → List ℕ
hashes_v6 address =
    let a = word_at address 0 in
    let b = word_at address 4 in
    let c = word_at address 8 in
    let d = word_at address 12 in
    bit_xor a (mul32 b 2654435761) % bloom_bits
    ∷ bit_xor b (mul32 c 40503) % bloom_bits
    ∷ bit_xor c (mul32 d 0x85ebca6b) % bloom_bits
    ∷ bit_xor d (mul32 a 0xc2b2ae35) % bloom_bits
    ∷ []

pub hashes : ℕ → List ℕ → List ℕ
unfolding hashes_v4 hashes_v6
hashes ip ipv6 = if not (ip == 0) then hashes_v4 ip else hashes_v6 ipv6

-- The loop over the hashes: `novel`, and the filter.
pub test_bits : List ℕ → Bool → Filter → Bool × Filter
test_bits [] novel f = (novel, f)
test_bits (h ∷ hs) novel f =
    let again = test_bits hs novel f in
    let fresh = test_bits hs true (λ bit. bit == h || f bit) in if f h then again else fresh

-- `uniq_bloom_test_and_set`
unfoldable pub uniq_bloom_test_and_set : ℕ → ℕ → List ℕ → Filters → Bool × Filters
unfolding hashes test_bits
uniq_bloom_test_and_set sid ip ipv6 filters =
    let (novel, f) = test_bits (hashes ip ipv6) false (filters sid) in
    (novel, λ k. if k == sid then f else filters k)
