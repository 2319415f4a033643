-- ===== src/Base/Bits/Digits.antt =====
-- The lowest digit of `|` and `&`. The library defines both by one recursion on binary digits
-- whose fuel is the first argument.
use Prim.Native.Nat.{ℕ, zero, suc, ◌+◌, ◌*◌, ◌/◌, ◌%◌, ◌≤◌, min, max}
use Prim.Native.Nat.{bit_and, bit_or, digits, bitwise, bit_and-bitwise, bit_or-bitwise}
use mathlib.Core.Path.{◌≡◌, refl, ap}
use native.Mathlib.Omega.{arith}

module _ (base : ℕ → ℕ) (op : ℕ → ℕ → ℕ) where
  -- Any fuel that covers the first number gives the same digits.
  enough_fuel : (f g x y : ℕ) → x ≤ f → x ≤ g → digits base op f x y ≡ digits base op g x y
  enough_fuel zero zero x y hf hg = refl
  enough_fuel zero (suc g) zero y hf hg = refl
  enough_fuel zero (suc g) (suc x) y hf hg = absurd (omega arith)
  enough_fuel (suc f) zero zero y hf hg = refl
  enough_fuel (suc f) zero (suc x) y hf hg = absurd (omega arith)
  enough_fuel (suc f) (suc g) zero y hf hg = refl
  enough_fuel (suc f) (suc g) (suc x) y hf hg =
      ap (λ (t : ℕ). t * 2 + op (suc x % 2) (y % 2))
        (enough_fuel f g (suc x / 2) (y / 2) (omega arith) (omega arith))

  bitwise_step :
      (x y : ℕ)
      → bitwise base op (suc x) y ≡ bitwise base op (suc x / 2) (y / 2) * 2 + op (suc x % 2) (y % 2)
  bitwise_step x y =
      ap (λ (t : ℕ). t * 2 + op (suc x % 2) (y % 2))
        (enough_fuel x (suc x / 2) (suc x / 2) (y / 2) (omega arith) (omega arith))

pub bit_or_step : (x y : ℕ) → bit_or x y ≡ bit_or (x / 2) (y / 2) * 2 + max (x % 2) (y % 2)
bit_or_step zero y = simp bit_or-bitwise (omega arith)
bit_or_step (suc x) y = simp bit_or-bitwise (bitwise_step (λ n. n) max x y)

pub bit_and_step : (x y : ℕ) → bit_and x y ≡ bit_and (x / 2) (y / 2) * 2 + min (x % 2) (y % 2)
bit_and_step zero y = simp bit_and-bitwise (omega arith)
bit_and_step (suc x) y = simp bit_and-bitwise (bitwise_step (λ n. 0) min x y)
