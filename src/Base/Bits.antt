-- ===== src/Base/Bits.antt =====
-- The bits of a number, and what `&`, `|`, `~`, a single-bit mask and a cast do to them.
mod Digits
use Digits.{bit_or_step, bit_and_step}
use Prim.Native.Nat.{
  ℕ, zero, suc, ◌+◌, ◌-◌, ◌*◌, ◌/◌, ◌%◌, ◌^◌, ◌≤◌, ◌<◌, min, max, bit_and, bit_or,
}
use mathlib.Core.Path.{◌≡◌, refl, sym, ap, ◌∙◌}
use mathlib.Core.Logic.{◌≢◌}
use native.Mathlib.Nat.{pow-suc, one-le-pow, div-add-mod'}
use native.Mathlib.Omega.{arith}
use cro_os.Base.Tests.{◌==◌, if◌then◌else◌}

-- Bit `k` of `n`, as 0 or 1.
abbrev pub test_bit : ℕ → ℕ → ℕ
test_bit n zero = n % 2
test_bit n (suc k) = test_bit (n / 2) k

-- `1 << k` and `~x` on 32 bits.
abbrev pub bit : ℕ → ℕ
bit k = 2 ^ k

abbrev pub not32 : ℕ → ℕ
not32 x = 2 ^ 32 - 1 - x

pub test_bit-le : (n k : ℕ) → test_bit n k ≤ 1
test_bit-le n zero = omega arith
test_bit-le n (suc k) = test_bit-le (n / 2) k

pub test_bit_zero : (k : ℕ) → test_bit 0 k ≡ 0
test_bit_zero zero = refl
test_bit_zero (suc k) = test_bit_zero k

pub test_bit-or : (a b k : ℕ) → test_bit (bit_or a b) k ≡ max (test_bit a k) (test_bit b k)
test_bit-or a b zero = omega (arith, bit_or_step a b)
test_bit-or a b (suc k) =
    let e : bit_or a b / 2 ≡ bit_or (a / 2) (b / 2) = omega (arith, bit_or_step a b) in
    rw e (test_bit-or (a / 2) (b / 2) k)

pub test_bit-and : (a b k : ℕ) → test_bit (bit_and a b) k ≡ min (test_bit a k) (test_bit b k)
test_bit-and a b zero = omega (arith, bit_and_step a b)
test_bit-and a b (suc k) =
    let e : bit_and a b / 2 ≡ bit_and (a / 2) (b / 2) = omega (arith, bit_and_step a b) in
    rw e (test_bit-and (a / 2) (b / 2) k)

-- The mask `1 << j` has bit `j` alone.
pub test_bit-bit : (j k : ℕ) → test_bit (bit j) k ≡ (if j == k then 1 else 0)
test_bit-bit zero zero = refl
test_bit-bit zero (suc k) = ground (arith, test_bit_zero k)
test_bit-bit (suc j) zero = ground (arith, pow-suc 2 j)
test_bit-bit (suc j) (suc k) =
    let e : 2 ^ suc j / 2 ≡ 2 ^ j = omega (arith, pow-suc 2 j) in
    rw e (ground (arith, test_bit-bit j k))

-- The complement on `w` bits flips each of them.
pub test_bit-not : (w x k : ℕ) → x < 2 ^ w → k < w → test_bit (2 ^ w - 1 - x) k ≡ 1 - test_bit x k
test_bit-not zero x k hx hk = elim hk [ ]
test_bit-not (suc w) x zero hx hk = omega (arith, pow-suc 2 w)
test_bit-not (suc w) x (suc k) hx hk =
    let e : (2 ^ suc w - 1 - x) / 2 ≡ 2 ^ w - 1 - x / 2 = omega (arith, pow-suc 2 w) in
    rw e (test_bit-not w (x / 2) k (omega (arith, pow-suc 2 w)) (omega arith))

two_pow_suc : (q w : ℕ) → q * 2 ^ suc w ≡ 2 * (q * 2 ^ w)
two_pow_suc q w = omega (arith, ap (λ (t : ℕ). q * t) (pow-suc 2 w))

-- The bits above `w` do not show below it.
pub test_bit-add_high : (w q r k : ℕ) → k < w → test_bit (q * 2 ^ w + r) k ≡ test_bit r k
test_bit-add_high zero q r k hk = elim hk [ ]
test_bit-add_high (suc w) q r zero hk = omega (arith, two_pow_suc q w)
test_bit-add_high (suc w) q r (suc k) hk =
    let e : (q * 2 ^ suc w + r) / 2 ≡ q * 2 ^ w + r / 2 = omega (arith, two_pow_suc q w) in
    rw e (test_bit-add_high w q (r / 2) k (omega arith))

-- A cast to `w` bits keeps them.
pub test_bit-mod : (w x k : ℕ) → k < w → test_bit (x % 2 ^ w) k ≡ test_bit x k
test_bit-mod w x k hk =
    sym (test_bit-add_high w (x / 2 ^ w) (x % 2 ^ w) k hk)
    ∙ ap (λ (t : ℕ). test_bit t k) (div-add-mod' x (2 ^ w))

bit_and-zero_fuel : (f x : ℕ) → x ≤ f → bit_and x 0 ≡ 0
bit_and-zero_fuel zero x h = let e : x ≡ 0 = omega arith in rw e
bit_and-zero_fuel (suc f) zero h = refl
bit_and-zero_fuel (suc f) (suc x) h =
    omega (arith, bit_and_step (suc x) 0, bit_and-zero_fuel f (suc x / 2) (omega arith))

-- `x & (1 << k)` is the bit at its place, so it is 0 exactly when the bit is.
pub bit_and-bit : (x k : ℕ) → bit_and x (bit k) ≡ test_bit x k * 2 ^ k
bit_and-bit x zero =
    let e : bit_and (x / 2) 0 ≡ 0 = bit_and-zero_fuel (x / 2) (x / 2) (omega arith) in
    omega (arith, bit_and_step x 1)
bit_and-bit x (suc k) =
    let e : 2 ^ suc k / 2 ≡ 2 ^ k = omega (arith, pow-suc 2 k) in
    let step : bit_and x (2 ^ suc k)
        ≡ bit_and (x / 2) (2 ^ suc k / 2) * 2 + min (x % 2) (2 ^ suc k % 2) =
      bit_and_step x (2 ^ suc k) in
    let low : min (x % 2) (2 ^ suc k % 2) ≡ 0 = omega (arith, pow-suc 2 k) in
    let ih : bit_and (x / 2) (2 ^ k) ≡ test_bit (x / 2) k * 2 ^ k = bit_and-bit (x / 2) k in
    let step' : bit_and x (2 ^ suc k) ≡ bit_and (x / 2) (2 ^ k) * 2 + min (x % 2) (2 ^ suc k % 2) =
      rw e at step in
    omega (arith, step', low, ih, two_pow_suc (test_bit (x / 2) k) k)

-- Numbers of `w` bits with the same bits are equal.
pub test_bit_ext :
    (w x y : ℕ) → x < 2 ^ w → y < 2 ^ w → ((k : ℕ) → k < w → test_bit x k ≡ test_bit y k) → x ≡ y
test_bit_ext zero x y hx hy h = omega arith
test_bit_ext (suc w) x y hx hy h = omega (
  arith,
  h 0 (omega arith),
  test_bit_ext w (x / 2) (y / 2) (omega (arith, pow-suc 2 w)) (omega (arith, pow-suc 2 w))
      (λ k p. h (suc k) (omega arith)),
)

pub bit-lt : (k w : ℕ) → k < w → bit k < 2 ^ w
bit-lt k zero h = elim h [ ]
bit-lt zero (suc w) h = omega (arith, pow-suc 2 w, one-le-pow w 2)
bit-lt (suc k) (suc w) h = omega (arith, pow-suc 2 w, pow-suc 2 k, bit-lt k w (omega arith))

bit_or-zero_fuel : (f x : ℕ) → x ≤ f → bit_or x 0 ≡ x
bit_or-zero_fuel zero x h = let e : x ≡ 0 = omega arith in rw e refl
bit_or-zero_fuel (suc f) zero h = refl
bit_or-zero_fuel (suc f) (suc x) h =
    omega (arith, bit_or_step (suc x) 0, bit_or-zero_fuel f (suc x / 2) (omega arith))

-- `|` of a number whose `k` low bits are 0 and one of `k` bits is their sum.
pub bit_or-add : (k q r : ℕ) → r < 2 ^ k → bit_or (q * 2 ^ k) r ≡ q * 2 ^ k + r
bit_or-add zero q r h =
    let e : r ≡ 0 = omega arith in
    let e' : q * 1 ≡ q = omega arith in rw (e, e', bit_or-zero_fuel q q (omega arith)) (omega arith)
bit_or-add (suc k) q r h =
    let e : q * 2 ^ suc k / 2 ≡ q * 2 ^ k = omega (arith, two_pow_suc q k) in
    let step : bit_or (q * 2 ^ suc k) r
        ≡ bit_or (q * 2 ^ suc k / 2) (r / 2) * 2 + max (q * 2 ^ suc k % 2) (r % 2) =
      bit_or_step (q * 2 ^ suc k) r in
    let ih = bit_or-add k q (r / 2) (omega (arith, pow-suc 2 k)) in
    omega (arith, rw e at step, ih, two_pow_suc q k)
