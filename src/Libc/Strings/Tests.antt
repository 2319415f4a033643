-- ===== src/Libc/Strings/Tests.antt =====
-- Runs of src/libc/string.c, and its theorems at small strings.
use cro_os.Base.{ℕ, ◌≡◌, refl, List, [], ◌∷◌, none, some, arith}
use cro_os.Libc.Strings.{strlen, strrchr, strstr, rchr_from, str_from, strncmp, memmove}
use cro_os.Libc.Strings.Writes.{IsText}
use cro_os.Libc.Strings.Moves.{memmove_lem}

abbrev ab : List ℕ
ab = 97 ∷ 98 ∷ []

abbrev room : List ℕ
room = 1 ∷ 2 ∷ 3 ∷ 4 ∷ 5 ∷ []

ab-IsText : IsText ab
unfolding IsText
ab-IsText = ((λ e. ground (arith, e)), ((λ e. ground (arith, e)), tt))

search_str : strstr (97 ∷ 97 ∷ 98 ∷ 0 ∷ []) (97 ∷ 98 ∷ 0 ∷ []) ≡ some (some 1)
unfolding strstr strlen str_from strncmp
search_str = refl

search_chr : strrchr (97 ∷ 97 ∷ 98 ∷ 0 ∷ []) 97 ≡ some (some 1)
unfolding strrchr rchr_from
search_chr = refl

no_end : strlen ab ≡ none
unfolding strlen
no_end = refl

memmove_lem_example : memmove 3 2 4 (λ x. x) 5 ≡ 4
memmove_lem_example = memmove_lem 3 2 4 (λ x. x) 5
