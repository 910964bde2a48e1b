-- ===== src/Ws/Mask.antt =====
-- Masking of payloads: what makes it safe to unmask a payload as it comes in, piece by piece.
use teleproxy.Base.{
  ℕ, suc, ◌+◌, ◌%◌, ◌<◌, ◌≡◌, refl, List, [], ◌∷◌, ◌++◌, arith, length, get_or, All, get_or-lt,
  length-append, ap,
}
use teleproxy.Base.Bits.{xor_twice}
use teleproxy.Ws.{Conn, unmask_from, unmask_data}

length-unmask_from :
    (mask : List ℕ) (k : ℕ) (bs : List ℕ) → length (unmask_from mask k bs) ≡ length bs
unfolding unmask_from
length-unmask_from mask k [] = refl
length-unmask_from mask k (b ∷ bs) = ap suc (length-unmask_from mask (k + 1) bs)

-- Only the index modulo 4 matters.
unmask_from_mod :
    (mask : List ℕ) (j k : ℕ) (bs : List ℕ)
    → j % 4 ≡ k % 4
    → unmask_from mask j bs ≡ unmask_from mask k bs
unfolding unmask_from
unmask_from_mod mask j k [] h = refl
unmask_from_mod mask j k (b ∷ bs) h = ground (arith, unmask_from_mod mask (j + 1) (k + 1) bs)

unmask_from-append :
    (mask : List ℕ) (k : ℕ) (xs ys : List ℕ)
    → unmask_from mask k (xs ++ ys) ≡ unmask_from mask k xs ++ unmask_from mask (k + length xs) ys
unfolding unmask_from
unmask_from-append mask k [] ys = unmask_from_mod mask k (k + 0) ys (omega arith)
unmask_from-append mask k (x ∷ xs) ys = ground (
  arith,
  unmask_from-append mask (k + 1) xs ys,
  unmask_from_mod mask (k + 1 + length xs) (k + suc (length xs)) ys,
)

-- Unmasking in two calls is unmasking in one: the connection carries the place in the mask, and
-- neither the bytes nor the final state depend on where the input was cut.
pub unmask_data-append :
    (c : Conn) (first second : List ℕ)
    → let (c1, out1) = unmask_data c first in
      let (c2, out2) = unmask_data c1 second in unmask_data c (first ++ second) ≡ (c2, out1 ++ out2)
unfolding unmask_data
unmask_data-append c first second = ground (
  arith,
  length-append first second,
  unmask_from-append c.ws_mask c.ws_mask_offset first second,
  unmask_from_mod c.ws_mask (c.ws_mask_offset + length first)
      ((c.ws_mask_offset + length first) % 4) second,
)

unmask_from_twice :
    (mask : List ℕ) (k : ℕ) (bs : List ℕ)
    → All (λ b. b < 256) mask
    → All (λ b. b < 256) bs
    → unmask_from mask k (unmask_from mask k bs) ≡ bs
unfolding unmask_from
unmask_from_twice mask k [] hm hb = refl
unmask_from_twice mask k (b ∷ bs) hm hb = ground (
  arith,
  unmask_from_twice mask (k + 1) bs hm hb.1,
  xor_twice b (get_or mask (k % 4) 0) hb.0 (get_or-lt 256 mask (k % 4) (omega arith) hm),
)

-- Masking is its own inverse on bytes: from the same state, unmasking what was masked gives the
-- payload back, and the state after it is the same.
pub unmask_data_twice :
    (c : Conn) (payload : List ℕ)
    → All (λ b. b < 256) c.ws_mask
    → All (λ b. b < 256) payload
    → unmask_data c (unmask_data c payload).1 ≡ ((unmask_data c payload).0, payload)
unfolding unmask_data
unmask_data_twice c payload hm hb = ground (
  arith,
  unmask_from_twice c.ws_mask c.ws_mask_offset payload hm hb,
  length-unmask_from c.ws_mask c.ws_mask_offset payload,
)
