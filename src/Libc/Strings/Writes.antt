-- ===== src/Libc/Strings/Writes.antt =====
-- The writing functions of src/libc/string.c on strings, and how many bytes they write.
use cro_os.Base.{
  ℕ, zero, suc, ◌-◌, ◌≤◌, ◌<◌, ◌≡◌, ◌≢◌, refl, ap, ltb, if◌then◌else◌, arith, List, [], ◌∷◌, ◌++◌,
  none, some, length, take, drop, replicate, ne→==, Bool-cases, inl, inr, ltb→lt, ltb→le,
}
use cro_os.Libc.Strings.{strlen, strcpy, pad, strncpy, strcat}

-- No byte of the list is zero: what a C string holds before its end.
unfoldable pub IsText : List ℕ → Type 0
IsText [] = Unit
IsText (c ∷ cs) = (c ≢ 0) × IsText cs

pub strlen_lem : (xs rest : List ℕ) → IsText xs → strlen (xs ++ 0 ∷ rest) ≡ some (length xs)
unfolding strlen IsText
strlen_lem [] rest t = refl
strlen_lem (c ∷ cs) rest (ne, t) =
    rw (ne→== c 0 ne, strlen_lem cs rest t) (ap (λ n. some n) (omega arith))

strcpy_fits :
    (dst xs rest : List ℕ)
    → IsText xs
    → length xs < length dst
    → strcpy dst (xs ++ 0 ∷ rest) ≡ some (xs ++ 0 ∷ drop (suc (length xs)) dst)
unfolding strcpy IsText
strcpy_fits [] xs rest t h = absurd (omega arith)
strcpy_fits (d ∷ dst) [] rest t h = refl
strcpy_fits (d ∷ dst) (c ∷ cs) rest (ne, t) h =
    rw (ne→== c 0 ne, strcpy_fits dst cs rest t (omega arith)) refl

strcpy_beyond :
    (dst xs rest : List ℕ) → IsText xs → length dst ≤ length xs → strcpy dst (xs ++ 0 ∷ rest) ≡ none
unfolding strcpy IsText
strcpy_beyond [] xs rest t h = refl
strcpy_beyond (d ∷ dst) [] rest t h = absurd (omega arith)
strcpy_beyond (d ∷ dst) (c ∷ cs) rest (ne, t) h =
    rw (ne→== c 0 ne, strcpy_beyond dst cs rest t (omega arith)) refl

-- `strcpy` of a string into an object that has room for it and its zero byte writes just those
-- bytes; into a smaller object it writes beyond the end.
pub strcpy_lem :
    (dst xs rest : List ℕ)
    → IsText xs
    → strcpy dst (xs ++ 0 ∷ rest)
      ≡ (if ltb (length xs) (length dst) then some (xs ++ 0 ∷ drop (suc (length xs)) dst) else none)
strcpy_lem dst xs rest t = elim (Bool-cases (ltb (length xs) (length dst))) [
  | inl h ↦ rw h (strcpy_fits dst xs rest t (ltb→lt (length xs) (length dst) h))
  | inr h ↦ rw h (strcpy_beyond dst xs rest t (ltb→le (length xs) (length dst) h))
]

-- `strcat` puts the second string where the first one's zero byte was, when there is room.
pub strcat_lem :
    (xs ys old rest : List ℕ)
    → IsText xs
    → IsText ys
    → length ys ≤ length old
    → strcat (xs ++ 0 ∷ old) (ys ++ 0 ∷ rest) ≡ some (xs ++ ys ++ 0 ∷ drop (length ys) old)
unfolding strcat IsText
strcat_lem [] ys old rest tx ty h = strcpy_fits (0 ∷ old) ys rest ty (omega arith)
strcat_lem (c ∷ cs) ys old rest (ne, tx) ty h =
    rw (ne→== c 0 ne, strcat_lem cs ys old rest tx ty h) refl

pad_fits : (n : ℕ) (dst : List ℕ) → n ≤ length dst → pad n dst ≡ some (replicate n 0 ++ drop n dst)
unfolding pad
pad_fits zero dst h = refl
pad_fits (suc n) [] h = absurd (omega arith)
pad_fits (suc n) (d ∷ dst) h = rw (pad_fits n dst (omega arith)) refl

-- `strncpy` of a string shorter than `n` writes the string and then zero bytes up to `n + 1`
-- bytes in all, one more than it is given.
pub strncpy_overruns :
    (n : ℕ) (dst xs rest : List ℕ)
    → IsText xs
    → length xs < n
    → n < length dst
    → strncpy n dst (xs ++ 0 ∷ rest)
      ≡ some (xs ++ replicate (suc n - length xs) 0 ++ drop (suc n) dst)
unfolding strncpy IsText
strncpy_overruns zero dst xs rest t h k = absurd (omega arith)
strncpy_overruns (suc n) [] xs rest t h k = absurd (omega arith)
strncpy_overruns (suc n) (d ∷ dst) [] rest t h k =
    rw (pad_fits (suc n) dst (omega arith))
      (let e : suc (suc n) - 0 ≡ suc (suc n) = omega arith in rw e refl)
strncpy_overruns (suc n) (d ∷ dst) (c ∷ cs) rest (ne, t) h k =
    rw (ne→== c 0 ne, strncpy_overruns n dst cs rest t (omega arith) (omega arith))
      (let e : suc (suc n) - suc (length cs) ≡ suc n - length cs = omega arith in rw e refl)

-- Of a string of at least `n` bytes it writes the first `n`, and no zero byte.
pub strncpy_cuts :
    (n : ℕ) (dst xs rest : List ℕ)
    → IsText xs
    → n ≤ length xs
    → n ≤ length dst
    → strncpy n dst (xs ++ 0 ∷ rest) ≡ some (take n xs ++ drop n dst)
unfolding strncpy IsText
strncpy_cuts zero dst xs rest t h k = refl
strncpy_cuts (suc n) [] xs rest t h k = absurd (omega arith)
strncpy_cuts (suc n) (d ∷ dst) [] rest t h k = absurd (omega arith)
strncpy_cuts (suc n) (d ∷ dst) (c ∷ cs) rest (ne, t) h k =
    rw (ne→== c 0 ne, strncpy_cuts n dst cs rest t (omega arith) (omega arith)) refl
