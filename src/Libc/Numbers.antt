-- ===== src/Libc/Numbers.antt =====
-- src/libc/string.c and src/libc/stdlib.c: numbers to text and back, and formatted text. A text is
-- its bytes before the zero byte; `long`, `int` and `size_t` have 32 bits, and what overflows
-- wraps, as the compiled code does. The words of a variable argument list are a function, and so
-- are the texts that pointers stand for: they come from the caller.
pub mod RoundTrips
pub mod Formats
mod Tests
use cro_os.Base.{
  ℕ, zero, suc, ◌+◌, ◌-◌, ◌*◌, ◌/◌, ◌%◌, ◌^◌, Bool, true, false, ltb, leb, ◌==◌, ◌!=◌, ◌&&◌, ◌||◌,
  not, if◌then◌else◌, List, [], ◌∷◌, ◌++◌, Option, none, some, ℤ, pos, negsuc, signed32, length,
  take,
}
use cro_os.Base.Digits.{digits}

-- `(unsigned int)value`
abbrev pub unsigned32 : ℤ → ℕ
unsigned32 (pos n) = n % 2 ^ 32
unsigned32 (negsuc n) = 2 ^ 32 - 1 - n % 2 ^ 32

abbrev pub digit_char : ℕ → ℕ
digit_char d = if ltb d 10 then 48 + d else 65 + d - 10

-- `while (i > 0) buf[j++] = tmp[--i]`, in front of `out`.
unfoldable pub put_digits : List ℕ → List ℕ → List ℕ
put_digits [] out = out
put_digits (d ∷ ds) out = put_digits ds (digit_char d ∷ out)

-- The text of `u` in a base from 2 on: 32 digits are enough.
unfoldable pub unsigned_text : ℕ → ℕ → List ℕ
unfolding put_digits digits
unsigned_text base u = put_digits (digits 32 base u) []

-- The buffer's text; what is returned is its length.
unfoldable pub itoa : ℤ → ℕ → List ℕ
itoa (pos n) base = unsigned_text base (unsigned32 (pos n))
itoa (negsuc n) base =
    if base == 10
    then 45 ∷ unsigned_text 10 (suc n % 2 ^ 32)
    else unsigned_text base (unsigned32 (negsuc n))

unfoldable pub skip_spaces : List ℕ → List ℕ
skip_spaces [] = []
skip_spaces (c ∷ cs) = let rest = skip_spaces cs in if c == 32 then rest else c ∷ cs

-- Whether there is a minus sign, and what stands behind a sign.
unfoldable pub read_sign : List ℕ → Bool × List ℕ
read_sign [] = (false, [])
read_sign (c ∷ cs) =
    if c == 45 then (true, cs) else if c == 43 then (false, cs) else (false, c ∷ cs)

-- `neg ? -n : n` on the pattern of `n`
abbrev pub with_sign : Bool → ℕ → ℤ
with_sign neg n = if neg then signed32 ((2 ^ 32 - n) % 2 ^ 32) else signed32 n

unfoldable pub read_decimal : ℕ → List ℕ → ℕ
read_decimal n [] = n
read_decimal n (c ∷ cs) =
    let rest = read_decimal ((n * 10 + (c - 48)) % 2 ^ 32) cs in
    if leb 48 c && leb c 57 then rest else n

unfoldable pub atoi : List ℕ → ℤ
unfolding skip_spaces read_sign read_decimal
atoi s = let (neg, cs) = read_sign (skip_spaces s) in with_sign neg (read_decimal 0 cs)

unfoldable pub skip_blanks : List ℕ → List ℕ
skip_blanks [] = []
skip_blanks (c ∷ cs) = let rest = skip_blanks cs in if (c == 32) || (c == 9) then rest else c ∷ cs

-- `*nptr == '0' && (nptr[1] == 'x' || nptr[1] == 'X')`
abbrev pub has_hex_prefix : List ℕ → Bool
has_hex_prefix [] = false
has_hex_prefix (c ∷ []) = false
has_hex_prefix (c ∷ d ∷ cs) = (c == 48) && ((d == 120) || (d == 88))

abbrev pub behind_two : List ℕ → List ℕ
behind_two [] = []
behind_two (c ∷ []) = []
behind_two (c ∷ d ∷ cs) = cs

abbrev pub has_zero : List ℕ → Bool
has_zero [] = false
has_zero (c ∷ cs) = c == 48

-- The base that is used, and the text behind a prefix.
unfoldable pub choose_base : ℕ → List ℕ → ℕ × List ℕ
choose_base base s =
    if base == 0
    then (if has_hex_prefix s then (16, behind_two s) else if has_zero s then (8, s) else (10, s))
    else if (base == 16) && has_hex_prefix s
    then (16, behind_two s)
    else (base, s)

-- The value of a digit, letters of both cases included.
unfoldable pub digit_value : ℕ → Option ℕ
digit_value c =
    if leb 48 c && leb c 57
    then some (c - 48)
    else if leb 97 c && leb c 102
    then some (10 + c - 97)
    else if leb 65 c && leb c 70
    then some (10 + c - 65)
    else none

-- The pattern read, and the text at `*endptr`.
unfoldable pub read_digits : ℕ → ℕ → List ℕ → ℕ × List ℕ
unfolding digit_value
read_digits base n [] = (n, [])
read_digits base n (c ∷ cs) =
    let rest = λ (d : ℕ). read_digits base ((n * base + d) % 2 ^ 32) cs in
    elim (digit_value c) [
      | none ↦ (n, c ∷ cs)
      | some d ↦ if leb base d then (n, c ∷ cs) else rest d
    ]

unfoldable pub strtol : List ℕ → ℕ → ℤ × List ℕ
unfolding skip_blanks read_sign choose_base read_digits
strtol s base =
    let (neg, cs) = read_sign (skip_blanks s) in
    let (b, ds) = choose_base base cs in
    let (n, rest) = read_digits b 0 ds in (with_sign neg n, rest)

unfoldable pub strtoul : List ℕ → ℕ → ℕ × List ℕ
unfolding strtol
strtoul s base = let (v, rest) = strtol s base in (unsigned32 v, rest)

unfoldable pub labs : ℤ → ℤ
labs (pos n) = pos n
labs (negsuc n) = signed32 (suc n % 2 ^ 32)

-- Where the loop of `vsnprintf` is: between conversions, behind a `%` and its flags, or behind a
-- `*` that is skipped.
pub data Place : Type 0 where
  between : Place
  in_flags : Place
  behind_star : Place

abbrev pub is_flag : ℕ → Bool
is_flag c = (c == 45) || (c == 43) || (c == 32) || (c == 48) || (leb 49 c && leb c 57)

-- The digits of `%x`, in lower case for `%X` too.
abbrev pub hex_char : ℕ → ℕ
hex_char d = if ltb d 10 then 48 + d else 97 + d - 10

unfoldable pub put_hex : List ℕ → List ℕ → List ℕ
put_hex [] out = out
put_hex (d ∷ ds) out = put_hex ds (hex_char d ∷ out)

-- The `len` bytes of `tmp` for a conversion, and how many arguments it takes.
unfoldable pub conversion : ℕ → ℕ → (ℕ → List ℕ) → List ℕ × ℕ
unfolding itoa put_hex digits
conversion c arg text =
    if (c == 100) || (c == 105)
    then (itoa (signed32 arg) 10, 1)
    else if c == 117
    then (itoa (signed32 arg) 10, 1)
    else if (c == 120) || (c == 88)
    then (put_hex (digits 8 16 arg) [], 1)
    else if c == 115
    then ((if arg == 0 then 40 ∷ 110 ∷ 117 ∷ 108 ∷ 108 ∷ 41 ∷ [] else take 31 (text arg)), 1)
    else if c == 99
    then ((arg % 256) ∷ [], 1)
    else (c ∷ [], 0)

-- What is in the buffer behind each byte of the format; `none` where the format ends inside a
-- conversion and the code reads on behind it. `limit` is `size - 1`.
unfoldable pub format_from :
    ℕ → Place → List ℕ → List ℕ → ℕ → (ℕ → ℕ) → (ℕ → List ℕ) → Option (List ℕ)
unfolding conversion
format_from limit between [] out k args text = some out
format_from limit in_flags [] out k args text = none
format_from limit behind_star [] out k args text = none
format_from limit between (c ∷ cs) out k args text =
    let rest = λ (p : Place) (o : List ℕ). format_from limit p cs o k args text in
    if ltb (length out) limit
    then (if (c == 37) && not (leb (length cs) 0)
        then rest in_flags out
        else rest between (out ++ (c ∷ [])))
    else some out
format_from limit in_flags (c ∷ cs) out k args text =
    let rest = λ (p : Place) (o : List ℕ) (n : ℕ). format_from limit p cs o n args text in
    if is_flag c
    then rest in_flags out k
    else if c == 42
    then rest behind_star out k
    else let (tmp, n) = conversion c (args k) text in
      rest between (out ++ take (limit - length out) tmp) (k + n)
format_from limit behind_star (c ∷ cs) out k args text =
    let (tmp, n) = conversion c (args k) text in
    format_from limit between cs (out ++ take (limit - length out) tmp) (k + n) args text

-- The text in the buffer before the zero byte that is written behind it, and its length.
unfoldable pub vsnprintf : ℕ → List ℕ → (ℕ → ℕ) → (ℕ → List ℕ) → Option (List ℕ × ℤ)
unfolding format_from
vsnprintf size fmt args text =
    elim (format_from ((size + 2 ^ 32 - 1) % 2 ^ 32) between fmt [] 0 args text) [
      | none ↦ none
      | some out ↦ some (out, signed32 (length out))
    ]

unfoldable pub snprintf : ℕ → List ℕ → (ℕ → ℕ) → (ℕ → List ℕ) → Option (List ℕ × ℤ)
unfolding vsnprintf
snprintf size fmt args text = vsnprintf size fmt args text
