-- ===== src/Libc/Numbers/Tests.antt =====
-- Runs of the number conversions of src/libc.
use cro_os.Base.{
  ℕ, ◌<◌, ◌≡◌, refl, arith, List, [], ◌∷◌, some, none, pos, negsuc, signed32, length, length,
}
use cro_os.Base.Digits.{digits}
use cro_os.Libc.Numbers.{
  itoa, unsigned_text, put_digits, atoi, strtol, read_sign, skip_blanks, choose_base, digit_value,
  read_digits, snprintf, vsnprintf, format_from, conversion,
}
use cro_os.Libc.Numbers.RoundTrips.{strtol-itoa}
use cro_os.Libc.Numbers.Formats.{snprintf_lem}

minus_42 : itoa (negsuc 41) 10 ≡ 45 ∷ 52 ∷ 50 ∷ []
unfolding itoa unsigned_text put_digits digits
minus_42 = refl

hex_2b : strtol (32 ∷ 48 ∷ 120 ∷ 50 ∷ 98 ∷ 103 ∷ []) 0 ≡ (pos 43, 103 ∷ [])
unfolding strtol read_sign skip_blanks choose_base digit_value read_digits
hex_2b = refl

strtol-itoa_example :
    (strtol (itoa (negsuc 41) 10) 10 ≡ (negsuc 41, [])) × (atoi (itoa (negsuc 41) 10) ≡ negsuc 41)
strtol-itoa_example = strtol-itoa (negsuc 41) 10 (omega arith) (omega arith) (omega arith)

abbrev no_text : ℕ → List ℕ
no_text p = []

-- "a%dbc" with 42, in 4 bytes.
cut : snprintf 4 (97 ∷ 37 ∷ 100 ∷ 98 ∷ 99 ∷ []) (λ k. 42) no_text ≡ some (97 ∷ 52 ∷ 50 ∷ [], pos 3)
unfolding snprintf vsnprintf format_from conversion itoa unsigned_text put_digits digits
cut = refl

-- "%5" ends inside of a conversion.
runs_on : snprintf 16 (37 ∷ 53 ∷ []) (λ k. 0) no_text ≡ none
unfolding snprintf vsnprintf format_from
runs_on = refl

snprintf_lem_example :
    (out : List ℕ) × (snprintf 4 (97 ∷ 37 ∷ 100 ∷ 98 ∷ 99 ∷ []) (λ k. 42) no_text
      ≡ some (out, signed32 (length out)))
    × (length out < 4)
snprintf_lem_example =
    snprintf_lem 4 (97 ∷ 37 ∷ 100 ∷ 98 ∷ []) 99 (λ k. 42) no_text (omega arith) (omega arith) refl
      (omega arith)
