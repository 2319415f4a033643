-- ===== src/Drivers/Keyboard.antt =====
-- src/drivers/keyboard.c: scan codes to characters, and the ring of typed characters. The scan
-- code that the interrupt reads from port 0x60 is an argument; waiting for a character is `none`.
pub mod Queue
mod Tests
use cro_os.Base.{
  ℕ, zero, suc, ◌+◌, ◌-◌, ◌*◌, ◌/◌, ◌%◌, ◌^◌, bit_or, bit_and, Bool, true, false, ltb, leb, ◌==◌,
  ◌!=◌, ◌&&◌, ◌||◌, not, if◌then◌else◌, List, [], ◌∷◌, ◌++◌, Option, none, some, get_or, set,
  replicate,
}

abbrev pub kb_buffer_size : ℕ
kb_buffer_size = 256

pub record Keyboard : Type 0 where
  pub kb_buffer : List ℕ
  pub kb_head : ℕ
  pub kb_tail : ℕ
  pub modifiers : ℕ

-- The tables of scan code set 1, up to their trailing zeros.
unfoldable pub sc1_normal : List ℕ
sc1_normal =
    0 ∷ 27 ∷ 49 ∷ 50 ∷ 51 ∷ 52 ∷ 53 ∷ 54 ∷ 55 ∷ 56 ∷ 57 ∷ 48 ∷ 45 ∷ 61 ∷ 8 ∷ 9 ∷ 113 ∷ 119 ∷ 101
    ∷ 114 ∷ 116 ∷ 121 ∷ 117 ∷ 105 ∷ 111 ∷ 112 ∷ 91 ∷ 93 ∷ 10 ∷ 0 ∷ 97 ∷ 115 ∷ 100 ∷ 102 ∷ 103 ∷ 104
    ∷ 106 ∷ 107 ∷ 108 ∷ 59 ∷ 39 ∷ 96 ∷ 0 ∷ 92 ∷ 122 ∷ 120 ∷ 99 ∷ 118 ∷ 98 ∷ 110 ∷ 109 ∷ 44 ∷ 46 ∷ 47
    ∷ 0 ∷ 42 ∷ 0 ∷ 32 ∷ 0 ∷ 0 ∷ 0 ∷ 0 ∷ 0 ∷ 0 ∷ 0 ∷ 0 ∷ 0 ∷ 0 ∷ 0 ∷ 0 ∷ 0 ∷ 55 ∷ 56 ∷ 57 ∷ 45 ∷ 52
    ∷ 53 ∷ 54 ∷ 43 ∷ 49 ∷ 50 ∷ 51 ∷ 48 ∷ 46 ∷ []

unfoldable pub sc1_shifted : List ℕ
sc1_shifted =
    0 ∷ 27 ∷ 33 ∷ 64 ∷ 35 ∷ 36 ∷ 37 ∷ 94 ∷ 38 ∷ 42 ∷ 40 ∷ 41 ∷ 95 ∷ 43 ∷ 8 ∷ 9 ∷ 81 ∷ 87 ∷ 69 ∷ 82
    ∷ 84 ∷ 89 ∷ 85 ∷ 73 ∷ 79 ∷ 80 ∷ 123 ∷ 125 ∷ 10 ∷ 0 ∷ 65 ∷ 83 ∷ 68 ∷ 70 ∷ 71 ∷ 72 ∷ 74 ∷ 75 ∷ 76
    ∷ 58 ∷ 34 ∷ 126 ∷ 0 ∷ 124 ∷ 90 ∷ 88 ∷ 67 ∷ 86 ∷ 66 ∷ 78 ∷ 77 ∷ 60 ∷ 62 ∷ 63 ∷ 0 ∷ 42 ∷ 0 ∷ 32
    ∷ 0 ∷ 0 ∷ 0 ∷ 0 ∷ 0 ∷ 0 ∷ 0 ∷ 0 ∷ 0 ∷ 0 ∷ 0 ∷ 0 ∷ 0 ∷ 55 ∷ 56 ∷ 57 ∷ 45 ∷ 52 ∷ 53 ∷ 54 ∷ 43 ∷ 49
    ∷ 50 ∷ 51 ∷ 48 ∷ 46 ∷ []

unfoldable pub kb_push : ℕ → Keyboard → Keyboard
kb_push c s =
    let next = (s.kb_head + 1) % kb_buffer_size in
    if next != s.kb_tail
    then record s { kb_buffer = set s.kb_buffer s.kb_head c; kb_head = next }
    else s

-- The bits of `modifiers`: shift, ctrl and alt.
abbrev pub is_shift : ℕ → Bool
is_shift key = (key == 42) || (key == 54)

abbrev pub is_ctrl : ℕ → Bool
is_ctrl key = (key == 29) || (key == 157)

abbrev pub is_alt : ℕ → Bool
is_alt key = (key == 56) || (key == 184)

abbrev pub clear_bits : ℕ → ℕ → ℕ
clear_bits m bits = bit_and m (255 - bits)

unfoldable pub released : ℕ → Keyboard → Keyboard
released key s =
    if is_shift key
    then record s { modifiers = clear_bits s.modifiers 1 }
    else if is_ctrl key
    then record s { modifiers = clear_bits s.modifiers 2 }
    else if is_alt key
    then record s { modifiers = clear_bits s.modifiers 4 }
    else s

-- The character that is put into the ring for `c`, under the modifiers.
abbrev pub typed : ℕ → ℕ → ℕ
typed m c =
    if (bit_and m 2 != 0) && ((c == 99) || (c == 67))
    then 3
    else if (bit_and m 2 != 0) && ((c == 100) || (c == 68))
    then 4
    else c

unfoldable pub pressed : ℕ → Keyboard → Keyboard
unfolding kb_push sc1_normal sc1_shifted
pressed key s =
    let c =
      if bit_and s.modifiers 1 != 0 then get_or sc1_shifted key 0 else get_or sc1_normal key 0 in
    if is_shift key
    then record s { modifiers = bit_or s.modifiers 1 }
    else if is_ctrl key
    then record s { modifiers = bit_or s.modifiers 2 }
    else if is_alt key
    then record s { modifiers = bit_or s.modifiers 4 }
    else if key == 58
    then s
    else if c != 0
    then kb_push (typed s.modifiers c) s
    else s

unfoldable pub kb_irq : ℕ → Keyboard → Keyboard
unfolding released pressed
kb_irq sc s = if leb 128 sc then released (sc % 128) s else pressed sc s

unfoldable pub kb_init : Keyboard → Keyboard
kb_init s = record s { modifiers = 0; kb_head = 0; kb_tail = 0 }

unfoldable pub kb_getchar : Keyboard → Option (ℕ × Keyboard)
kb_getchar s =
    if s.kb_head == s.kb_tail
    then none
    else some
        (get_or s.kb_buffer s.kb_tail 0, record s { kb_tail = (s.kb_tail + 1) % kb_buffer_size })

unfoldable pub kb_has_input : Keyboard → Bool
kb_has_input s = s.kb_head != s.kb_tail

unfoldable pub kb_get_modifiers : Keyboard → ℕ
kb_get_modifiers s = s.modifiers

unfoldable pub kb_clear_buffer : Keyboard → Keyboard
kb_clear_buffer s = record s { kb_head = 0; kb_tail = 0 }
