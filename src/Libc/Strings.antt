-- ===== src/Libc/Strings.antt =====
-- src/libc/string.c, up to `memcmp`. A pointer to bytes is the list of the bytes from it to the
-- end of its object; a function returns `none` where the C code reads or writes past that end. A
-- pointer into the string is its index, or `none` for NULL. The functions that write take distinct
-- objects, but `memmove`, which is on the bytes of the memory by their addresses.
pub mod Reads
pub mod Writes
pub mod Moves
mod Tests
use cro_os.Base.{
  ℕ, zero, suc, ◌+◌, ◌-◌, ◌*◌, ◌/◌, ◌%◌, ◌^◌, Bool, true, false, ltb, leb, ◌==◌, ◌!=◌, ◌&&◌, ◌||◌,
  not, if◌then◌else◌, List, [], ◌∷◌, ◌++◌, Option, none, some, ℤ, pos, negsuc, sub_ℕ, length, set,
  get_or, drop, take,
}

-- The recursive call of a loop that moves one byte on.
abbrev pub or_none {ℓ κ} : {A : Type ℓ} {B : Type κ} → Option A → (A → B) → Option B
or_none none f = none
or_none (some a) f = some (f a)

unfoldable pub strlen : List ℕ → Option ℕ
strlen [] = none
strlen (c ∷ cs) = let rest = strlen cs in if c == 0 then some 0 else or_none rest (λ n. n + 1)

-- The bytes of `dst` after the copy.
unfoldable pub strcpy : List ℕ → List ℕ → Option (List ℕ)
strcpy [] src = none
strcpy (d ∷ dst) [] = none
strcpy (d ∷ dst) (c ∷ src) =
    let rest = strcpy dst src in if c == 0 then some (c ∷ dst) else or_none rest (λ r. c ∷ r)

-- The second loop of `strncpy`: `while (n--) *d++ = 0`.
unfoldable pub pad : ℕ → List ℕ → Option (List ℕ)
pad zero dst = some dst
pad (suc n) [] = none
pad (suc n) (d ∷ dst) = or_none (pad n dst) (λ r. 0 ∷ r)

-- The first loop ends at the zero byte before it counts it.
unfoldable pub strncpy : ℕ → List ℕ → List ℕ → Option (List ℕ)
strncpy zero dst src = some dst
strncpy (suc n) [] src = none
strncpy (suc n) (d ∷ dst) [] = none
strncpy (suc n) (d ∷ dst) (c ∷ src) =
    let rest = strncpy n dst src in
    if c == 0 then or_none (pad (suc n) dst) (λ r. 0 ∷ r) else or_none rest (λ r. c ∷ r)

unfoldable pub strcmp : List ℕ → List ℕ → Option ℤ
strcmp [] b = none
strcmp (x ∷ a) [] = none
strcmp (x ∷ a) (y ∷ b) =
    let rest = strcmp a b in if x != 0 && (x == y) then rest else some (sub_ℕ x y)

unfoldable pub strncmp : ℕ → List ℕ → List ℕ → Option ℤ
strncmp zero a b = some (pos 0)
strncmp (suc n) [] b = none
strncmp (suc n) (x ∷ a) [] = none
strncmp (suc n) (x ∷ a) (y ∷ b) =
    let rest = strncmp n a b in if x != 0 && (x == y) then rest else some (sub_ℕ x y)

unfoldable pub strcat : List ℕ → List ℕ → Option (List ℕ)
unfolding strcpy
strcat [] src = none
strcat (d ∷ dst) src =
    let rest = strcat dst src in if d == 0 then strcpy (d ∷ dst) src else or_none rest (λ r. d ∷ r)

-- The loop of `strchr` from the index `i` on: the pointer that it returns.
unfoldable pub chr_from : ℕ → ℕ → List ℕ → Option (Option ℕ)
chr_from c i [] = none
chr_from c i (x ∷ xs) =
    let rest = chr_from c (i + 1) xs in
    if x == 0
    then some (if c == 0 then some i else none)
    else if x == c % 256
    then some (some i)
    else rest

unfoldable pub strchr : List ℕ → ℕ → Option (Option ℕ)
unfolding chr_from
strchr s c = chr_from c 0 s

-- The loop of `strrchr`, with its `last`.
unfoldable pub rchr_from : ℕ → ℕ → Option ℕ → List ℕ → Option (Option ℕ)
rchr_from c i last [] = none
rchr_from c i last (x ∷ xs) =
    let rest = rchr_from c (i + 1) (if x == c % 256 then some i else last) xs in
    if x == 0 then some (if c == 0 then some i else last) else rest

unfoldable pub strrchr : List ℕ → ℕ → Option (Option ℕ)
unfolding rchr_from
strrchr s c = rchr_from c 0 none s

-- The loop of `strstr`, for a needle of `nlen` bytes.
unfoldable pub str_from : List ℕ → ℕ → ℕ → List ℕ → Option (Option ℕ)
unfolding strncmp
str_from needle nlen i [] = none
str_from needle nlen i (x ∷ xs) =
    let rest = str_from needle nlen (i + 1) xs in
    if x == 0 then some none else elim (strncmp nlen (x ∷ xs) needle) [
      | none ↦ none
      | some (pos zero) ↦ some (some i)
      | some (pos (suc n)) ↦ rest
      | some (negsuc n) ↦ rest
    ]

unfoldable pub strstr : List ℕ → List ℕ → Option (Option ℕ)
unfolding strlen str_from
strstr haystack [] = none
strstr haystack (c ∷ needle) = if c == 0 then some (some 0) else elim (strlen (c ∷ needle)) [
  | none ↦ none
  | some nlen ↦ str_from (c ∷ needle) nlen 0 haystack
]

unfoldable pub memcpy : ℕ → List ℕ → List ℕ → Option (List ℕ)
memcpy zero dst src = some dst
memcpy (suc n) [] src = none
memcpy (suc n) (d ∷ dst) [] = none
memcpy (suc n) (d ∷ dst) (c ∷ src) = or_none (memcpy n dst src) (λ r. c ∷ r)

unfoldable pub memset : ℕ → ℕ → List ℕ → Option (List ℕ)
memset zero c dst = some dst
memset (suc n) c [] = none
memset (suc n) c (d ∷ dst) = or_none (memset n c dst) (λ r. c % 256 ∷ r)

unfoldable pub memcmp : ℕ → List ℕ → List ℕ → Option ℤ
memcmp zero a b = some (pos 0)
memcmp (suc n) [] b = none
memcmp (suc n) (x ∷ a) [] = none
memcmp (suc n) (x ∷ a) (y ∷ b) =
    let rest = memcmp n a b in if x != y then some (sub_ℕ x y) else rest

-- `*d = *s` on the memory.
unfoldable pub copy_byte : ℕ → ℕ → (ℕ → ℕ) → ℕ → ℕ
copy_byte d s mem x = if x == d then mem s else mem x

-- The two loops of `memmove`, upwards and downwards.
unfoldable pub move_up : ℕ → ℕ → ℕ → (ℕ → ℕ) → ℕ → ℕ
move_up zero d s mem = mem
move_up (suc n) d s mem = move_up n (d + 1) (s + 1) (copy_byte d s mem)

unfoldable pub move_down : ℕ → ℕ → ℕ → (ℕ → ℕ) → ℕ → ℕ
move_down zero d s mem = mem
move_down (suc n) d s mem = move_down n d s (copy_byte (d + n) (s + n) mem)

unfoldable pub memmove : ℕ → ℕ → ℕ → (ℕ → ℕ) → ℕ → ℕ
memmove dst src n mem = if ltb dst src then move_up n dst src mem else move_down n dst src mem
