-- ===== src/Tls/Reads.antt =====
-- Reads that stay inside the buffer.
use teleproxy.Base.{
  ℕ, zero, suc, ◌+◌, ◌*◌, ◌≤◌, ◌<◌, ◌≡◌, refl, List, [], ◌∷◌, arith, length, get_elem?, get_or,
  some, ◌≢◌,
}
use teleproxy.Tls.{Outcome, done, reject, fault, stuck, read_byte, read_length, no_zeros}

-- The outcomes that the C code has.
abbrev pub IsSafe {ℓ} : {A : Type ℓ} → Outcome A → Type 0
IsSafe (done a) = Unit {0}
IsSafe reject = Unit {0}
IsSafe fault = ⊥
IsSafe stuck = ⊥

pub IsSafe_lem {ℓ} : {A : Type ℓ} (r : Outcome A) → IsSafe r → (r ≢ fault) × (r ≢ stuck)
IsSafe_lem (done a) h = ground arith
IsSafe_lem reject h = ground arith
IsSafe_lem fault h = absurd h
IsSafe_lem stuck h = absurd h

get_elem?_lem : (buf : List ℕ) (i : ℕ) → i < length buf → get_elem? buf i ≡ some (get_or buf i 0)
get_elem?_lem [] i h = absurd (omega arith)
get_elem?_lem (x ∷ xs) zero h = refl
get_elem?_lem (x ∷ xs) (suc i) h = get_elem?_lem xs i (omega arith)

pub read_byte_lem :
    (buf : List ℕ) (pos : ℕ) → pos < length buf → read_byte buf pos ≡ done (get_or buf pos 0)
unfolding read_byte
read_byte_lem buf pos h = rw (get_elem?_lem buf pos h, read_byte)

-- The big-endian number at a position.
abbrev pub be16 : List ℕ → ℕ → ℕ
be16 buf pos = get_or buf pos 0 * 256 + get_or buf (pos + 1) 0

pub read_length_lem :
    (buf : List ℕ) (pos : ℕ)
    → pos + 2 ≤ length buf
    → read_length buf pos ≡ done (be16 buf pos, pos + 2)
unfolding read_length
read_length_lem buf pos h = ground (arith, read_byte_lem buf pos, read_byte_lem buf (pos + 1))

pub no_zeros-IsSafe :
    (buf : List ℕ) (pos n : ℕ) → pos + n ≤ length buf → IsSafe (no_zeros buf pos n)
unfolding no_zeros
no_zeros-IsSafe buf pos zero h = tt
no_zeros-IsSafe buf pos (suc n) h =
    ground (arith, read_byte_lem buf pos, no_zeros-IsSafe buf (pos + 1) n)
