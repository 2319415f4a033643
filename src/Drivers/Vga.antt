-- ===== src/Drivers/Vga.antt =====
-- src/drivers/vga.c: the 80 by 25 cells of the text screen, the cursor and the colour. A cell is
-- the 16-bit pattern of a character and its attribute; a character is its byte, and a `char` from
-- 128 on is negative. `hardware_cursor` is the position last sent to the controller's ports.
pub mod Fills
pub mod Cursor
mod Tests
use cro_os.Base.{
  ℕ, zero, suc, ◌+◌, ◌-◌, ◌*◌, ◌/◌, ◌%◌, ◌^◌, bit_or, Bool, true, false, ltb, leb, ◌==◌, ◌&&◌,
  if◌then◌else◌, List, [], ◌∷◌, Option, none, some, ℤ, pos, negsuc, slot, get_or, set, pos_part,
  neg_ℤ, ltb_ℤ, ◌+ℤ◌,
}
use cro_os.Base.Digits.{digits}

abbrev pub vga_width : ℕ
vga_width = 80

abbrev pub vga_height : ℕ
vga_height = 25

abbrev pub vga_white : ℕ
vga_white = 15

abbrev pub vga_black : ℕ
vga_black = 0

pub record Vga : Type 0 where
  pub vga_buffer : List ℕ
  pub cursor_row : ℕ
  pub cursor_col : ℕ
  pub current_color : ℕ
  pub hardware_cursor : ℕ

unfoldable pub make_color : ℕ → ℕ → ℕ
make_color fg bg = bit_or fg (bg * 16) % 256

-- `(uint16_t)c | ((uint16_t)color << 8)`
unfoldable pub make_entry : ℕ → ℕ → ℕ
make_entry c color = bit_or (if leb 128 c then c + 0xff00 else c) (color * 256)

-- ' ' in the current colour
abbrev pub blank : Vga → ℕ
blank s = make_entry 32 s.current_color

unfoldable pub vga_cursor : ℕ → ℕ → Vga → Vga
vga_cursor row col s = record s { hardware_cursor = (row * vga_width + col) % 2 ^ 16 }

-- `for (i = from; i < from + left; i++) vga_buffer[i] = v`
unfoldable pub fill_from : ℕ → ℕ → ℕ → List ℕ → List ℕ
fill_from zero i v buf = buf
fill_from (suc left) i v buf = fill_from left (i + 1) v (set buf i v)

unfoldable pub vga_clear : Vga → Vga
unfolding vga_cursor
vga_clear s = vga_cursor 0 0 (record s {
  vga_buffer = fill_from (vga_width * vga_height) 0 (blank s) s.vga_buffer;
  cursor_row = 0;
  cursor_col = 0;
})

unfoldable pub vga_init : Vga → Vga
unfolding make_color
vga_init s = record s { current_color = make_color vga_white vga_black }

unfoldable pub vga_set_color : ℕ → ℕ → Vga → Vga
unfolding make_color
vga_set_color fg bg s = record s { current_color = make_color fg bg }

-- The first loop of `vga_scroll`: each cell from `i` on takes the one a row below.
unfoldable pub move_up : ℕ → ℕ → List ℕ → List ℕ
move_up zero i buf = buf
move_up (suc left) i buf = move_up left (i + 1) (set buf i (get_or buf (i + vga_width) 0))

unfoldable pub vga_scroll : Vga → Vga
vga_scroll s = record s {
  vga_buffer =
      fill_from vga_width (vga_width * (vga_height - 1)) (blank s)
        (move_up (vga_width * (vga_height - 1)) 0 s.vga_buffer);
}

-- A cell of the cursor's row.
unfoldable pub put_cell : ℕ → ℕ → Vga → Vga
put_cell col v s = record s { vga_buffer = set s.vga_buffer (s.cursor_row * vga_width + col) v }

-- The branches of `vga_putchar` on the character.
unfoldable pub place : ℕ → Vga → Vga
unfolding put_cell
place c s =
    if c == 10
    then record s { cursor_col = 0; cursor_row = s.cursor_row + 1 }
    else if c == 13
    then record s { cursor_col = 0 }
    else if c == 9
    then record s { cursor_col = (s.cursor_col + 8) / 8 * 8 }
    else if c == 8
    then (if ltb 0 s.cursor_col
        then record (put_cell (s.cursor_col - 1) (blank s) s) { cursor_col = s.cursor_col - 1 }
        else s)
    else record (put_cell s.cursor_col (make_entry c s.current_color) s) {
      cursor_col = s.cursor_col + 1;
    }

-- Past the last column, and past the last row.
unfoldable pub wrap_col : Vga → Vga
wrap_col s =
    if leb vga_width s.cursor_col
    then record s { cursor_col = 0; cursor_row = s.cursor_row + 1 }
    else s

unfoldable pub wrap_row : Vga → Vga
unfolding vga_scroll
wrap_row s =
    if leb vga_height s.cursor_row then record (vga_scroll s) { cursor_row = vga_height - 1 } else s

unfoldable pub vga_putchar : ℕ → Vga → Vga
unfolding place wrap_col wrap_row vga_cursor
vga_putchar c s =
    let s' = wrap_row (wrap_col (place c s)) in vga_cursor s'.cursor_row s'.cursor_col s'

-- The characters of a text, one after another.
unfoldable pub vga_puts : List ℕ → Vga → Vga
unfolding vga_putchar
vga_puts [] s = s
vga_puts (c ∷ cs) s = vga_puts cs (vga_putchar c s)

-- `while (i > 0) vga_putchar(buf[--i])`, for digits stored lowest first.
unfoldable pub put_reversed : List ℕ → Vga → Vga
unfolding vga_putchar
put_reversed [] s = s
put_reversed (d ∷ ds) s = vga_putchar (48 + d) (put_reversed ds s)

unfoldable pub vga_put_dec : ℕ → Vga → Vga
unfolding put_reversed digits
vga_put_dec n s = put_reversed (digits 10 10 n) s

-- `nibble < 10 ? '0' + nibble : 'A' + nibble - 10`
abbrev pub hex_digit : ℕ → ℕ
hex_digit d = if ltb d 10 then 48 + d else 55 + d

-- The loop of `vga_put_hex`: the `left` low digits of `n`, the highest first.
unfoldable pub put_nibbles : ℕ → ℕ → Vga → Vga
unfolding vga_putchar
put_nibbles zero n s = s
put_nibbles (suc left) n s = put_nibbles left n (vga_putchar (hex_digit (n / 16 ^ left % 16)) s)

unfoldable pub vga_put_hex : ℕ → Vga → Vga
unfolding put_nibbles vga_puts
vga_put_hex n s = put_nibbles 8 n (vga_puts (48 ∷ 120 ∷ []) s)

unfoldable pub vga_put_dec_signed : ℤ → Vga → Vga
unfolding vga_put_dec vga_putchar
vga_put_dec_signed (pos n) s = vga_put_dec n s
vga_put_dec_signed (negsuc n) s = vga_put_dec (suc n) (vga_putchar 45 s)

-- Nothing is written off the screen.
unfoldable pub vga_put_at : ℤ → ℤ → ℕ → ℕ → List ℕ → List ℕ
unfolding make_entry
vga_put_at row col c color buf = elim (slot vga_height row) [
  | none ↦ buf
  | some r ↦ elim (slot vga_width col) [
    | none ↦ buf
    | some k ↦ set buf (r * vga_width + k) (make_entry c color)
  ]
]

-- The rounds of `for (y = lo; y < lo + len && y < limit; y++)`.
abbrev pub span : ℤ → ℤ → ℕ → ℕ
span lo len limit =
    if ltb_ℤ (lo +ℤ len) (pos limit) then pos_part len else pos_part (pos limit +ℤ neg_ℤ lo)

unfoldable pub fill_row : ℕ → ℤ → ℤ → ℕ → ℕ → List ℕ → List ℕ
unfolding vga_put_at
fill_row zero row col c color buf = buf
fill_row (suc left) row col c color buf =
    fill_row left row (col +ℤ pos 1) c color (vga_put_at row col c color buf)

unfoldable pub fill_rows : ℕ → ℤ → ℤ → ℕ → ℕ → ℕ → List ℕ → List ℕ
unfolding fill_row
fill_rows zero row col w c color buf = buf
fill_rows (suc left) row col w c color buf =
    fill_rows left (row +ℤ pos 1) col w c color (fill_row w row col c color buf)

unfoldable pub vga_fill_rect : ℤ → ℤ → ℤ → ℤ → ℕ → ℕ → Vga → Vga
unfolding fill_rows ◌+ℤ◌
vga_fill_rect r c w h ch color s = record s {
  vga_buffer = fill_rows (span r h vga_height) r c (span c w vga_width) ch color s.vga_buffer;
}
