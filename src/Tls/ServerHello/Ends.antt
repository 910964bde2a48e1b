-- ===== src/Tls/ServerHello/Ends.antt =====
-- Steps of `tls_check_server_hello` that are safe, and what holds of their results.
use teleproxy.Base.{
  ℕ, ◌+◌, ◌≤◌, ◌≡◌, refl, Bool, true, false, List, arith, length, drop, take, inl, inr, ◌⊎◌,
}
use teleproxy.Tls.{Outcome, done, reject, fault, stuck, ◌>>=◌, guard, compare_at, expect, bytes_eq}

pub compare_at_lem :
    (buf : List ℕ) (pos : ℕ) (str : List ℕ)
    → pos + length str ≤ length buf
    → compare_at buf pos str ≡ done (bytes_eq (take (length str) (drop pos buf)) str)
unfolding compare_at
compare_at_lem buf pos str h = ground arith

pub expect_lem :
    (buf : List ℕ) (pos : ℕ) (str : List ℕ)
    → pos + length str ≤ length buf
    → expect buf pos str ≡ guard (bytes_eq (take (length str) (drop pos buf)) str)
unfolding expect
expect_lem buf pos str h = rw (compare_at_lem buf pos str h, ◌>>=◌)

-- A step that is safe, and whose result has a property.
abbrev pub Ends {ℓ} : {A : Type ℓ} → Outcome A → (A → Type 0) → Type 0
Ends (done a) P = P a
Ends reject P = Unit {0}
Ends fault P = ⊥
Ends stuck P = ⊥

pub bind-Ends {ℓ κ} :
    {A : Type ℓ} {B : Type κ} (m : Outcome A) (f : A → Outcome B) (P : A → Type 0) (Q : B → Type 0)
    → Ends m P
    → ((a : A) → P a → Ends (f a) Q)
    → Ends (m >>= f) Q
bind-Ends (done a) f P Q h k = k a h
bind-Ends reject f P Q h k = tt
bind-Ends fault f P Q h k = h
bind-Ends stuck f P Q h k = h

pub Ends-mono {ℓ} :
    {A : Type ℓ} (r : Outcome A) (P Q : A → Type 0) → Ends r P → ((a : A) → P a → Q a) → Ends r Q
Ends-mono (done a) P Q h k = k a h
Ends-mono reject P Q h k = tt
Ends-mono fault P Q h k = h
Ends-mono stuck P Q h k = h

pub expect-Ends :
    (buf : List ℕ) (pos : ℕ) (str : List ℕ)
    → pos + length str ≤ length buf
    → Ends (expect buf pos str) (λ _. Unit {0})
expect-Ends buf pos str h = rw (expect_lem buf pos str h) (guard-Ends _)
  where
    guard-Ends : (b : Bool) → Ends (guard b) (λ _. Unit {0})
    guard-Ends true = tt
    guard-Ends false = tt

pub guard-holds : (b : Bool) → Ends (guard b) (λ _. b ≡ true)
guard-holds true = refl
guard-holds false = tt

pub Ends-cases {ℓ} :
    {A : Type ℓ} (r : Outcome A) (P : A → Type 0)
    → Ends r P
    → (r ≡ reject) ⊎ ((a : A) × (r ≡ done a) × P a)
Ends-cases (done a) P h = inr (a, refl, h)
Ends-cases reject P h = inl refl
Ends-cases fault P h = absurd h
Ends-cases stuck P h = absurd h
