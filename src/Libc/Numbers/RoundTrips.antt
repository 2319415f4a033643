-- ===== src/Libc/Numbers/RoundTrips.antt =====
-- src/libc/string.c and src/libc/stdlib.c: the text that `itoa` writes, read by `strtol` and `atoi`.
use cro_os.Base.{
  ℕ, zero, suc, ◌+◌, ◌-◌, ◌*◌, ◌/◌, ◌%◌, ◌^◌, ◌≤◌, ◌<◌, false, ◌==◌, List, [], ◌∷◌, Bool-cases, inl,
  inr, ◌≡◌, refl, subst, ◌∙◌, arith, ℤ, pos, negsuc, signed32, ==→eq, pow-suc, some,
}
use native.Mathlib.Nat.{mod-lt, div-add-mod', mul-le-mul_left, mod-eq_of_lt}
use cro_os.Base.Digits.{digits}
use cro_os.Libc.Numbers.{
  digit_char, put_digits, unsigned_text, unsigned32, itoa, skip_spaces, read_sign, read_decimal,
  atoi, skip_blanks, choose_base, digit_value, read_digits, strtol,
}

-- Texts of digits, in bases up to 16.
data IsDigitText : List ℕ → Type 0 where
  end : IsDigitText []
  digit : (d : ℕ) (cs : List ℕ) → d < 16 → IsDigitText cs → IsDigitText (digit_char d ∷ cs)

put_digits-IsDigitText :
    (f b n : ℕ) (out : List ℕ)
    → 0 < b
    → b ≤ 16
    → IsDigitText out
    → IsDigitText (put_digits (digits f b n) out)
unfolding put_digits digits
put_digits-IsDigitText zero b n out z h v = v
put_digits-IsDigitText (suc f) b n out z h v =
    let w : IsDigitText (digit_char (n % b) ∷ out) =
      digit (n % b) out (omega (arith, mod-lt n {m = b} z)) v in
    elim (Bool-cases (n / b == 0)) [
      | inl e ↦ rw e w
      | inr e ↦ rw e (put_digits-IsDigitText f b (n / b) (digit_char (n % b) ∷ out) z h w)
    ]

digit_value-digit_char : (d : ℕ) → d < 16 → digit_value (digit_char d) ≡ some d
unfolding digit_value
digit_value-digit_char d h = ground arith

read_digits-digit :
    (b n d : ℕ) (cs : List ℕ)
    → d < b
    → b ≤ 16
    → n * b + d < 2 ^ 32
    → read_digits b n (digit_char d ∷ cs) ≡ read_digits b (n * b + d) cs
unfolding read_digits
read_digits-digit b n d cs h k w =
    let e : digit_value (digit_char d) ≡ some d = digit_value-digit_char d (omega arith) in
    ground (arith, e, mod-eq_of_lt w)

skip_blanks-IsDigitText : (cs : List ℕ) → IsDigitText cs → skip_blanks cs ≡ cs
unfolding skip_blanks
skip_blanks-IsDigitText cs end = refl
skip_blanks-IsDigitText cs (digit d ds h v) = ground arith

skip_spaces-IsDigitText : (cs : List ℕ) → IsDigitText cs → skip_spaces cs ≡ cs
unfolding skip_spaces
skip_spaces-IsDigitText cs end = refl
skip_spaces-IsDigitText cs (digit d ds h v) = ground arith

read_sign-IsDigitText : (cs : List ℕ) → IsDigitText cs → read_sign cs ≡ (false, cs)
unfolding read_sign
read_sign-IsDigitText cs end = refl
read_sign-IsDigitText cs (digit d ds h v) = ground arith

choose_base-IsDigitText :
    (b : ℕ) (cs : List ℕ) → 0 < b → IsDigitText cs → choose_base b cs ≡ (b, cs)
unfolding choose_base
choose_base-IsDigitText b cs z end = ground arith
choose_base-IsDigitText b cs z (digit d ds h end) = ground arith
choose_base-IsDigitText b cs z (digit d ds h (digit d' ds' h' v)) = ground arith

div_pow : (f b n : ℕ) → 2 ≤ b → n < 2 ^ suc f → n / b < 2 ^ f
div_pow f b n h k =
    let m : n / b * 2 ≤ n / b * b = mul-le-mul_left (n / b) h in
    omega (arith, pow-suc 2 f, div-add-mod' n b)

div_small : (b n : ℕ) → 2 ≤ b → n < 2 ^ 32 → n / b < 2 ^ 32
div_small b n h k =
    let m : n / b * 2 ≤ n / b * b = mul-le-mul_left (n / b) h in omega (arith, div-add-mod' n b)

-- Reading the digits of `n` in front of a text takes up the text with the value `n`.
read_digits-digits :
    (f b n : ℕ) (out : List ℕ)
    → 2 ≤ b
    → b ≤ 16
    → n < 2 ^ f
    → n < 2 ^ 32
    → read_digits b 0 (put_digits (digits f b n) out) ≡ read_digits b n out
unfolding put_digits digits
read_digits-digits zero b n out l h k w = let e : n ≡ 0 = omega arith in rw e refl
read_digits-digits (suc f) b n out l h k w =
    let step : read_digits b (n / b) (digit_char (n % b) ∷ out) ≡ read_digits b n out =
      subst (λ m. read_digits b (n / b) (digit_char (n % b) ∷ out) ≡ read_digits b m out)
        (div-add-mod' n b)
        (read_digits-digit b (n / b) (n % b) out (mod-lt n {m = b} (omega arith)) h
          (omega (arith, div-add-mod' n b))) in
    elim (Bool-cases (n / b == 0)) [
      | inl e ↦ rw e (
          subst (λ q. read_digits b q (digit_char (n % b) ∷ out) ≡ read_digits b n out)
            (==→eq (n / b) 0 e) step)
      | inr e ↦ rw e (
          read_digits-digits f b (n / b) (digit_char (n % b) ∷ out) l h (div_pow f b n l k)
            (div_small b n l w)
          ∙ step)
    ]

-- `atoi` reads the same digits as `strtol` in base 10.
read_decimal-read_digits : (n : ℕ) (cs : List ℕ) → read_decimal n cs ≡ (read_digits 10 n cs).0
unfolding read_decimal read_digits digit_value
read_decimal-read_digits n [] = refl
read_decimal-read_digits n (c ∷ cs) =
    ground (arith, read_decimal-read_digits ((n * 10 + (c - 48)) % 2 ^ 32) cs)

unsigned_text-IsDigitText : (b u : ℕ) → 0 < b → b ≤ 16 → IsDigitText (unsigned_text b u)
unfolding unsigned_text
unsigned_text-IsDigitText b u z h = put_digits-IsDigitText 32 b u [] z h end

read_digits-end : (b n : ℕ) → read_digits b n [] ≡ (n, [])
unfolding read_digits
read_digits-end b n = refl

read_digits-unsigned_text :
    (b u : ℕ) → 2 ≤ b → b ≤ 16 → u < 2 ^ 32 → read_digits b 0 (unsigned_text b u) ≡ (u, [])
unfolding unsigned_text
read_digits-unsigned_text b u l h k = read_digits-digits 32 b u [] l h k k ∙ read_digits-end b u

strtol-unsigned_text :
    (b u : ℕ) → 2 ≤ b → b ≤ 16 → u < 2 ^ 32 → strtol (unsigned_text b u) b ≡ (signed32 u, [])
unfolding strtol
strtol-unsigned_text b u l h k =
    let v = unsigned_text-IsDigitText b u (omega arith) h in
    let e₁ = skip_blanks-IsDigitText (unsigned_text b u) v in
    let e₂ = read_sign-IsDigitText (unsigned_text b u) v in
    let e₃ = choose_base-IsDigitText b (unsigned_text b u) (omega arith) v in
    let e₄ = read_digits-unsigned_text b u l h k in ground (arith, e₁, e₂, e₃, e₄)

strtol-minus :
    (b u : ℕ)
    → 2 ≤ b
    → b ≤ 16
    → u < 2 ^ 32
    → strtol (45 ∷ unsigned_text b u) b ≡ (signed32 ((2 ^ 32 - u) % 2 ^ 32), [])
unfolding strtol skip_blanks read_sign
strtol-minus b u l h k =
    let v = unsigned_text-IsDigitText b u (omega arith) h in
    let e₃ = choose_base-IsDigitText b (unsigned_text b u) (omega arith) v in
    let e₄ = read_digits-unsigned_text b u l h k in ground (arith, e₃, e₄)

atoi-unsigned_text : (u : ℕ) → u < 2 ^ 32 → atoi (unsigned_text 10 u) ≡ signed32 u
unfolding atoi
atoi-unsigned_text u k =
    let v = unsigned_text-IsDigitText 10 u (omega arith) (omega arith) in
    let e₁ = skip_spaces-IsDigitText (unsigned_text 10 u) v in
    let e₂ = read_sign-IsDigitText (unsigned_text 10 u) v in
    let e₃ = read_decimal-read_digits 0 (unsigned_text 10 u) in
    let e₄ = read_digits-unsigned_text 10 u (omega arith) (omega arith) k in
    ground (arith, e₁, e₂, e₃, e₄)

atoi-minus :
    (u : ℕ) → u < 2 ^ 32 → atoi (45 ∷ unsigned_text 10 u) ≡ signed32 ((2 ^ 32 - u) % 2 ^ 32)
unfolding atoi skip_spaces read_sign
atoi-minus u k =
    let e₃ = read_decimal-read_digits 0 (unsigned_text 10 u) in
    let e₄ = read_digits-unsigned_text 10 u (omega arith) (omega arith) k in ground (arith, e₃, e₄)

-- The values of an `int`.
abbrev pub IsInt : ℤ → Type 0
IsInt (pos n) = n < 2 ^ 31
IsInt (negsuc n) = n < 2 ^ 31

-- The text that `itoa` writes for an `int`, in a base from 2 to 16, is read back by `strtol` in that
-- base, up to its end; in base 10 `atoi` reads it back as well.
pub strtol-itoa :
    (v : ℤ) (b : ℕ)
    → 2 ≤ b
    → b ≤ 16
    → IsInt v
    → (strtol (itoa v b) b ≡ (v, [])) × (atoi (itoa v 10) ≡ v)
unfolding itoa
strtol-itoa (pos n) b l h k = (
  ground (arith, strtol-unsigned_text b (n % 2 ^ 32) l h (omega arith)),
  ground (arith, atoi-unsigned_text (n % 2 ^ 32)),
)
strtol-itoa (negsuc n) b l h k = (
  ground
      (arith, strtol-unsigned_text b (unsigned32 (negsuc n)) l h, strtol-minus 10 (suc n % 2 ^ 32)),
  ground (arith, atoi-minus (suc n % 2 ^ 32)),
)
