-- ===== src/Libc/Math/Gcd.antt =====
-- src/libc/math.c: `gcd` is the greatest common divisor.
use cro_os.Base.{
  ℕ, zero, suc, ◌%◌, ◌^◌, ◌<◌, ◌≡◌, refl, sym, subst, ◌↔◌, ◌==◌, ==→eq, ==→ne, Bool-cases, inl, inr,
  ℤ, pos, negsuc, arith,
}
use Prim.Native.Nat.{◌∣◌}
use native.Mathlib.Nat.{dvd-zero, dvd-mod_iff, mod-lt}
use cro_os.Libc.Math.{magnitude, abs, gcd_from, gcd}

-- The divisors of `g` are the common divisors of `a` and `b`.
pub record IsGcd (a b : ℕ) (z : ℤ) : Type 0 where
  pub value : ℕ
  pub is_value : z ≡ pos value
  pub divisors : (d : ℕ) → (d ∣ value) ↔ ((d ∣ a) × (d ∣ b))

gcd_from-IsGcd : (fuel a b : ℕ) → b < fuel → IsGcd a b (gcd_from fuel (pos a) (pos b))
unfolding gcd_from
gcd_from-IsGcd zero a b h = absurd (omega arith)
gcd_from-IsGcd (suc fuel) a b h = elim (Bool-cases (b == 0)) [
  | inl e ↦ rw e (record {
    value = a;
    is_value = refl;
    divisors = λ d. (λ h. (h, subst (λ q. d ∣ q) (sym (==→eq b 0 e)) (dvd-zero d)), λ h. h.0);
  })
  | inr e ↦
      let g = gcd_from-IsGcd fuel b (a % b) (omega (arith, ==→ne b 0 e, mod-lt a {m = b})) in
      rw e (record {
        value = g.value;
        is_value = g.is_value;
        divisors = λ d. (
          λ h. let (l, r) = (g.divisors d).0 h in ((dvd-mod_iff d {m = a} {n = b} l).0 r, l),
          λ h. (g.divisors d).1 (h.1, (dvd-mod_iff d {m = a} {n = b} h.1).1 h.0),
        );
      })
]

abs-magnitude : (a : ℤ) → magnitude a < 2 ^ 31 → abs a ≡ pos (magnitude a)
unfolding abs
abs-magnitude (pos n) h = refl
abs-magnitude (negsuc n) h = ground arith

-- For two integers above -2^31 and below 2^31, the loop ends with a number that is not negative and
-- whose divisors are the common divisors of the two, so that it is the greatest of them.
pub gcd-IsGcd :
    (a b : ℤ)
    → magnitude a < 2 ^ 31
    → magnitude b < 2 ^ 31
    → IsGcd (magnitude a) (magnitude b) (gcd a b)
unfolding gcd
gcd-IsGcd a b h k =
    rw (abs-magnitude a h, abs-magnitude b k)
      (gcd_from-IsGcd (suc (magnitude b)) (magnitude a) (magnitude b) (omega arith))
