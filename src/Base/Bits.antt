-- ===== src/Base/Bits.antt =====
-- Facts on bit operations over bytes, each a table checked by evaluation.
use Prim.Native.Nat.{ℕ, zero, suc, ◌<◌, bit_xor}
use mathlib.Core.Path.{◌≡◌, refl}
use mathlib.Core.Bool.{Bool, true, false}
use native.Mathlib.Omega.{arith}
use teleproxy.Base.Tests.{◌==◌, if◌then◌else◌}

-- A table of `rows` rows and `columns` columns in which two functions agree.
module _ (f g : ℕ → ℕ → ℕ) where
  row : ℕ → ℕ → Bool
  row x zero = true
  row x (suc y) = let before = row x y in if f x y == g x y then before else false

  unfoldable pub table : ℕ → ℕ → Bool
  unfolding row
  table zero columns = true
  table (suc x) columns = let before = table x columns in if row x columns then before else false

  row_lem : (x columns y : ℕ) → y < columns → row x columns ≡ true → f x y ≡ g x y
  unfolding row
  row_lem x zero y h e = elim h [ ]
  row_lem x (suc n) y h e = ground (arith, row_lem x n y)

  pub table_lem :
      (rows columns x y : ℕ) → x < rows → y < columns → table rows columns ≡ true → f x y ≡ g x y
  unfolding table
  table_lem zero columns x y hx hy e = elim hx [ ]
  table_lem (suc n) columns x y hx hy e =
      ground (arith, table_lem n columns x y, row_lem x columns y)

-- On bytes, exclusive or by the same byte twice changes nothing.
pub xor_twice : (x y : ℕ) → x < 256 → y < 256 → bit_xor (bit_xor x y) y ≡ x
unfolding table
xor_twice x y hx hy = table_lem (λ a b. bit_xor (bit_xor a b) b) (λ a b. a) 256 256 x y hx hy refl
