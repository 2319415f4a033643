-- ===== src/Libc/Strings/Moves.antt =====
-- `memmove` of src/libc/string.c, on objects that may overlap.
use cro_os.Base.{
  ℕ, zero, suc, ◌+◌, ◌-◌, ◌≤◌, ◌<◌, ◌≡◌, ◌∙◌, ltb, leb, ◌&&◌, if◌then◌else◌, arith, Bool-cases, inl,
  inr, ltb→lt, ltb→le,
}
use cro_os.Libc.Strings.{copy_byte, move_up, move_down, memmove}

-- The byte at `x` behind a move of `n` bytes from `s` to `d`.
abbrev pub moved : ℕ → ℕ → ℕ → (ℕ → ℕ) → ℕ → ℕ
moved d s n mem x = if leb d x && ltb x (d + n) then mem (s + (x - d)) else mem x

step_up :
    (n d s : ℕ) (mem : ℕ → ℕ)
    → d < s
    → (x : ℕ) → moved (d + 1) (s + 1) n (copy_byte d s mem) x ≡ moved d s (suc n) mem x
unfolding copy_byte
step_up n d s mem h x = grind arith

step_down :
    (n d s : ℕ) (mem : ℕ → ℕ)
    → s ≤ d
    → (x : ℕ) → moved d s n (copy_byte (d + n) (s + n) mem) x ≡ moved d s (suc n) mem x
unfolding copy_byte
step_down n d s mem h x = grind arith

move_up_lem : (n d s : ℕ) (mem : ℕ → ℕ) → d < s → (x : ℕ) → move_up n d s mem x ≡ moved d s n mem x
unfolding move_up
move_up_lem zero d s mem h x = ground arith
move_up_lem (suc n) d s mem h x =
    move_up_lem n (d + 1) (s + 1) (copy_byte d s mem) (omega arith) x ∙ step_up n d s mem h x

move_down_lem :
    (n d s : ℕ) (mem : ℕ → ℕ) → s ≤ d → (x : ℕ) → move_down n d s mem x ≡ moved d s n mem x
unfolding move_down
move_down_lem zero d s mem h x = ground arith
move_down_lem (suc n) d s mem h x =
    move_down_lem n d s (copy_byte (d + n) (s + n) mem) h x ∙ step_down n d s mem h x

-- `memmove` moves the bytes that stood in the source before the call, also when the objects
-- overlap, and changes no byte outside of the destination.
pub memmove_lem :
    (dst src n : ℕ) (mem : ℕ → ℕ) (x : ℕ) → memmove dst src n mem x ≡ moved dst src n mem x
unfolding memmove
memmove_lem dst src n mem x = elim (Bool-cases (ltb dst src)) [
  | inl up ↦ rw up (move_up_lem n dst src mem (ltb→lt dst src up) x)
  | inr down ↦ rw down (move_down_lem n dst src mem (ltb→le dst src down) x)
]
