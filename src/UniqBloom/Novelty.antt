-- ===== src/UniqBloom/Novelty.antt =====
-- src/net/net-tcp-rpc-ext-uniq-bloom.c: an address is new to a secret's filter at most once.
use teleproxy.Base.{
  ℕ, Bool, true, false, ◌||◌, List, [], ◌∷◌, arith, ◌==◌, Bool-cases, ◌≡◌, refl, sym, inl, inr, All,
}
use mathlib.Core.Path.{subst}
use teleproxy.UniqBloom.{Filter, Filters, hashes, test_bits, uniq_bloom_test_and_set}

-- Every bit of `f` is a bit of `g`.
abbrev Below : Filter → Filter → Type 0
Below f g = (bit : ℕ) → f bit ≡ true → g bit ≡ true

test_bits-Below : (hs : List ℕ) (novel : Bool) (f : Filter) → Below f (test_bits hs novel f).1
unfolding test_bits
test_bits-Below [] novel f bit e = e
test_bits-Below (h ∷ hs) novel f bit e = elim (Bool-cases (f h)) [
  | inl t ↦ rw t (test_bits-Below hs novel f bit e)
  | inr n ↦ rw n (test_bits-Below hs true (λ b. b == h || f b) bit (ground (arith, e)))
]

test_bits_set :
    (h : ℕ) (hs : List ℕ) (novel : Bool) (f : Filter)
    → f h ≡ true
    → test_bits (h ∷ hs) novel f ≡ test_bits hs novel f
unfolding test_bits
test_bits_set h hs novel f t = rw t refl

test_bits_fresh :
    (h : ℕ) (hs : List ℕ) (novel : Bool) (f : Filter)
    → f h ≡ false
    → test_bits (h ∷ hs) novel f ≡ test_bits hs true (λ b. b == h || f b)
unfolding test_bits
test_bits_fresh h hs novel f n = rw n refl

-- All bits of an address are set afterwards.
abbrev AllSet : List ℕ → Filter → Type 0
AllSet hs f = All (λ h. f h ≡ true) hs

test_bits-AllSet : (hs : List ℕ) (novel : Bool) (f : Filter) → AllSet hs (test_bits hs novel f).1
test_bits-AllSet [] novel f = tt
test_bits-AllSet (h ∷ hs) novel f = elim (Bool-cases (f h)) [
  | inl t ↦
      subst (λ r. AllSet (h ∷ hs) r.1) (sym (test_bits_set h hs novel f t))
        (test_bits-Below hs novel f h t, test_bits-AllSet hs novel f)
  | inr n ↦
      let g : Filter = λ b. b == h || f b in
      subst (λ r. AllSet (h ∷ hs) r.1) (sym (test_bits_fresh h hs novel f n))
        (test_bits-Below hs true g h (ground arith), test_bits-AllSet hs true g)
]

test_bits_known :
    (hs : List ℕ) (f : Filter) → All (λ h. f h ≡ true) hs → (test_bits hs false f).0 ≡ false
unfolding test_bits
test_bits_known [] f a = refl
test_bits_known (h ∷ hs) f a = rw a.0 (test_bits_known hs f a.1)

All-Below :
    (hs : List ℕ) (f g : Filter) → Below f g → All (λ h. f h ≡ true) hs → All (λ h. g h ≡ true) hs
All-Below [] f g b a = tt
All-Below (h ∷ hs) f g b a = (b h a.0, All-Below hs f g b a.1)

-- A sequence of calls, each with its slot and address.
abbrev pub Call : Type 0
Call = ℕ × ℕ × List ℕ

pub run : List Call → Filters → Filters
run [] filters = filters
run ((sid, ip, ipv6) ∷ calls) filters = run calls (uniq_bloom_test_and_set sid ip ipv6 filters).1

test_and_set-Below :
    (sid sid' ip : ℕ) (ipv6 : List ℕ) (filters : Filters)
    → Below (filters sid) ((uniq_bloom_test_and_set sid' ip ipv6 filters).1 sid)
unfolding uniq_bloom_test_and_set
test_and_set-Below sid sid' ip ipv6 filters bit e = elim (Bool-cases (sid == sid')) [
  | inr n ↦ rw n e
  | inl t ↦
      let p : sid ≡ sid' = ground (arith, t) in
      let q : filters sid' bit ≡ true = rw (sym p) e in
      rw t (test_bits-Below (hashes ip ipv6) false (filters sid') bit q)
]

run-Below :
    (sid : ℕ) (calls : List Call) (filters : Filters) → Below (filters sid) (run calls filters sid)
unfolding run
run-Below sid [] filters bit e = e
run-Below sid ((sid', ip, ipv6) ∷ calls) filters bit e =
    run-Below sid calls (uniq_bloom_test_and_set sid' ip ipv6 filters).1 bit
      (test_and_set-Below sid sid' ip ipv6 filters bit e)

-- Once an address was counted for a secret, it is not new again, whatever other addresses are
-- counted in between, for this secret or others, as long as no filter is cleared.
pub test_and_set_again :
    (sid ip : ℕ) (ipv6 : List ℕ) (calls : List Call) (filters : Filters)
    → (uniq_bloom_test_and_set sid ip ipv6
        (run calls (uniq_bloom_test_and_set sid ip ipv6 filters).1)).0
      ≡ false
unfolding uniq_bloom_test_and_set
test_and_set_again sid ip ipv6 calls filters =
    let after = (uniq_bloom_test_and_set sid ip ipv6 filters).1 in
    let set_now : All (λ h. after sid h ≡ true) (hashes ip ipv6) =
      let e : (sid == sid) ≡ true = ground arith in
      rw e (test_bits-AllSet (hashes ip ipv6) false (filters sid)) in
    test_bits_known (hashes ip ipv6) (run calls after sid) (
      All-Below (hashes ip ipv6) (after sid) (run calls after sid) (run-Below sid calls after)
        set_now)
