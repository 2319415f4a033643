-- ===== src/Libc/Numbers/Formats.antt =====
-- src/libc/string.c: `vsnprintf` stays within its buffer.
use cro_os.Base.{
  ℕ, ◌+◌, ◌-◌, ◌%◌, ◌^◌, ◌≤◌, ◌<◌, Bool, true, false, ltb, ne→==, leb, not, ◌&&◌, ◌≢◌, ◌==◌,
  if◌then◌else◌, List, [], ◌∷◌, ◌++◌, Bool-cases, inl, inr, ◌≡◌, arith, Option, none, some,
  Option-cases, length, take, length-append, length-take, signed32,
}
use cro_os.Libc.Numbers.{
  Place, between, in_flags, behind_star, is_flag, conversion, format_from, vsnprintf, snprintf,
}

-- A conversion's text, cut to the room that is left.
room :
    (limit : ℕ) (out tmp : List ℕ)
    → length out ≤ limit
    → length (out ++ take (limit - length out) tmp) ≤ limit
room limit out tmp h =
    omega (
      arith,
      length-append out (take (limit - length out) tmp),
      length-take (limit - length out) tmp,
    )

-- What a run has left in the buffer: at most `limit` bytes.
abbrev IsWithin : ℕ → Option (List ℕ) → Type 0
IsWithin limit none = Unit
IsWithin limit (some out) = length out ≤ limit

if-IsWithin :
    (limit : ℕ) (b : Bool) (x y : Option (List ℕ))
    → IsWithin limit x
    → IsWithin limit y
    → IsWithin limit (if b then x else y)
if-IsWithin limit true x y h k = h
if-IsWithin limit false x y h k = k

format_from-IsWithin :
    (limit : ℕ) (p : Place) (fmt out : List ℕ) (k : ℕ) (args : ℕ → ℕ) (text : ℕ → List ℕ)
    → length out ≤ limit
    → IsWithin limit (format_from limit p fmt out k args text)
unfolding format_from
format_from-IsWithin limit between [] out k args text h = h
format_from-IsWithin limit in_flags [] out k args text h = tt
format_from-IsWithin limit behind_star [] out k args text h = tt
format_from-IsWithin limit between (c ∷ cs) out k args text h =
    elim (Bool-cases (ltb (length out) limit)) [
      | inr b ↦ rw b h
      | inl b ↦ rw b (
          if-IsWithin limit _ _ _ (format_from-IsWithin limit in_flags cs out k args text h) (
            format_from-IsWithin limit between cs (out ++ (c ∷ [])) k args text
              (ground (arith, length-append out (c ∷ [])))))
    ]
format_from-IsWithin limit in_flags (c ∷ cs) out k args text h =
    if-IsWithin limit (is_flag c) _ _ (format_from-IsWithin limit in_flags cs out k args text h) (
      if-IsWithin limit (c == 42) _ _ (format_from-IsWithin limit behind_star cs out k args text h)
        (format_from-IsWithin limit between cs
          (out ++ take (limit - length out) (conversion c (args k) text).0)
          (k + (conversion c (args k) text).1) args text
          (room limit out (conversion c (args k) text).0 h)))
format_from-IsWithin limit behind_star (c ∷ cs) out k args text h =
    format_from-IsWithin limit between cs
      (out ++ take (limit - length out) (conversion c (args k) text).0)
      (k + (conversion c (args k) text).1) args text
      (room limit out (conversion c (args k) text).0 h)

if-some : (b : Bool) (x y : Option (List ℕ)) → x ≢ none → y ≢ none → (if b then x else y) ≢ none
if-some true x y h k = h
if-some false x y h k = k

-- A format whose last character ends no conversion early is gone through to its end.
format_from-some :
    (limit : ℕ) (p : Place) (xs : List ℕ) (c : ℕ) (out : List ℕ) (k : ℕ) (args : ℕ → ℕ)
    (text : ℕ → List ℕ)
    → is_flag c ≡ false
    → c ≢ 42
    → format_from limit p (xs ++ (c ∷ [])) out k args text ≢ none
unfolding format_from
format_from-some limit between [] c out k args text h n = λ e. ground (arith, e)
format_from-some limit in_flags [] c out k args text h n = rw (h, ne→== c 42 n) (λ e. cc)
format_from-some limit behind_star [] c out k args text h n = λ e. cc
format_from-some limit between (x ∷ xs) c out k args text h n =
    if-some (ltb (length out) limit) _ _
      (if-some ((x == 37) && not (leb (length (xs ++ (c ∷ []))) 0)) _ _
        (format_from-some limit in_flags xs c out k args text h n)
        (format_from-some limit between xs c (out ++ (x ∷ [])) k args text h n))
      (λ e. cc)
format_from-some limit in_flags (x ∷ xs) c out k args text h n =
    if-some (is_flag x) _ _ (format_from-some limit in_flags xs c out k args text h n) (
      if-some (x == 42) _ _ (format_from-some limit behind_star xs c out k args text h n)
        (format_from-some limit between xs c _ _ args text h n))
format_from-some limit behind_star (x ∷ xs) c out k args text h n =
    format_from-some limit between xs c _ _ args text h n

-- For a buffer of `size` bytes, at least one, and a format whose last character is no flag, digit or
-- star, whatever the arguments and the texts are: `snprintf` returns; the zero byte behind the text
-- is in the buffer too, and the value is the text's length.
pub snprintf_lem :
    (size : ℕ) (xs : List ℕ) (c : ℕ) (args : ℕ → ℕ) (text : ℕ → List ℕ)
    → 0 < size
    → size < 2 ^ 32
    → is_flag c ≡ false
    → c ≢ 42
    → (out : List ℕ) × (snprintf size (xs ++ (c ∷ [])) args text
        ≡ some (out, signed32 (length out)))
      × (length out < size)
unfolding vsnprintf snprintf
snprintf_lem size xs c args text z w g n =
    let limit = (size + 2 ^ 32 - 1) % 2 ^ 32 in
    let h = format_from-IsWithin limit between (xs ++ (c ∷ [])) [] 0 args text (omega arith) in
    elim (Option-cases (format_from limit between (xs ++ (c ∷ [])) [] 0 args text)) [
      | inl e ↦ absurd (format_from-some limit between xs c [] 0 args text g n e)
      | inr (o, s) ↦
          let k : length o ≤ (size + 2 ^ 32 - 1) % 2 ^ 32 = rw s at h in
          (o, ground (arith, s), omega (arith, k))
    ]
