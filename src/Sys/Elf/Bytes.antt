-- ===== src/Sys/Elf/Bytes.antt =====
-- src/sys/elf.c: the bytes of the words of memory.
use cro_os.Base.{
  ℕ, zero, suc, ◌+◌, ◌*◌, ◌/◌, ◌%◌, ◌^◌, ◌<◌, ◌≡◌, ap, ◌∙◌, Bool-cases, inl, inr, ◌==◌,
  if◌then◌else◌, ==→eq, ==→ne, arith,
}
use cro_os.Sys.Elf.{byte_in, byte_at, words_of}

byte_in-cases :
    (n a b c d : ℕ)
    → n < 4
    → a < 256
    → b < 256
    → c < 256
    → d < 256
    → byte_in n (a + 256 * b + 2 ^ 16 * (c + 256 * d))
      ≡ (if n == 0 then a else if n == 1 then b else if n == 2 then c else d)
unfolding byte_in
byte_in-cases zero a b c d h ha hb hc hd = omega arith
byte_in-cases (suc zero) a b c d h ha hb hc hd = omega arith
byte_in-cases (suc (suc zero)) a b c d h ha hb hc hd = omega arith
byte_in-cases (suc (suc (suc n))) a b c d h ha hb hc hd = ground arith

-- The bytes of the words that are made of bytes.
pub byte_at-words_of :
    (bytes : ℕ → ℕ) (x : ℕ)
    → ((y : ℕ) → bytes y < 256)
    → byte_at (λ a. words_of bytes a) x ≡ bytes x
byte_at-words_of bytes x h =
    let a = x / 4 * 4 in
    let cases =
      byte_in-cases (x % 4) (bytes a) (bytes (a + 1)) (bytes (a + 2)) (bytes (a + 2 + 1))
        (omega arith) (h a) (h (a + 1)) (h (a + 2)) (h (a + 2 + 1)) in
    cases ∙ picked
  where
    picked :
        (if x % 4 == 0
          then bytes (x / 4 * 4)
          else if x % 4 == 1
          then bytes (x / 4 * 4 + 1)
          else if x % 4 == 2
          then bytes (x / 4 * 4 + 2)
          else bytes (x / 4 * 4 + 2 + 1))
        ≡ bytes x
    picked = elim (Bool-cases (x % 4 == 0)) [
      | inl e ↦ rw e (ap bytes (omega (arith, ==→eq (x % 4) 0 e)))
      | inr n₀ ↦ elim (Bool-cases (x % 4 == 1)) [
        | inl e ↦ rw (n₀, e) (ap bytes (omega (arith, ==→eq (x % 4) 1 e)))
        | inr n₁ ↦ elim (Bool-cases (x % 4 == 2)) [
          | inl e ↦ rw (n₀, n₁, e) (ap bytes (omega (arith, ==→eq (x % 4) 2 e)))
          | inr n₂ ↦
              rw (n₀, n₁, n₂)
                (ap bytes
                  (omega (arith, ==→ne (x % 4) 0 n₀, ==→ne (x % 4) 1 n₁, ==→ne (x % 4) 2 n₂)))
        ]
      ]
    ]

pub byte_in-lt : (n w : ℕ) → byte_in n w < 256
unfolding byte_in
byte_in-lt zero w = omega arith
byte_in-lt (suc zero) w = omega arith
byte_in-lt (suc (suc zero)) w = omega arith
byte_in-lt (suc (suc (suc n))) w = omega arith
