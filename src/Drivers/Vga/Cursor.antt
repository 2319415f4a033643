-- ===== src/Drivers/Vga/Cursor.antt =====
-- Where src/drivers/vga.c writes: always on the screen.
use cro_os.Base.{
  ℕ, ◌+◌, ◌-◌, ◌*◌, ◌≤◌, ◌<◌, ◌≡◌, refl, ap, ◌∙◌, false, leb, ◌==◌, if◌then◌else◌, List, [], ◌∷◌,
  get_or, length, length-set, get_or-set, arith, ◌⊎◌,
}
use cro_os.Drivers.Vga.{
  Vga, vga_width, vga_height, make_entry, place, put_cell, wrap_col, wrap_row, vga_cursor,
  vga_scroll, vga_putchar, vga_puts, blank, move_up,
}
use cro_os.Drivers.Vga.Fills.{length-fill_from, length-move_up}

-- The buffer has its 25 rows of 80 cells, and the cursor stands on one of them.
pub record IsScreen (s : Vga) : Type 0 where
  pub cells : length s.vga_buffer ≡ vga_width * vga_height
  pub row_inside : s.cursor_row < vga_height
  pub col_inside : s.cursor_col < vga_width

-- Before the wraps the cursor may be one row or some columns too far.
record IsNear (s : Vga) : Type 0 where
  pub cells : length s.vga_buffer ≡ vga_width * vga_height
  pub row_near : s.cursor_row ≤ vga_height
  pub col_near : (s.cursor_col < vga_width) ⊎ (s.cursor_row < vga_height)

place-IsNear : (c : ℕ) (s : Vga) → IsScreen s → IsNear (place c s)
unfolding place
place-IsNear c s v = ground (
  arith,
  length-set s.vga_buffer (s.cursor_row * vga_width + s.cursor_col) (make_entry c s.current_color),
  length-set s.vga_buffer (s.cursor_row * vga_width + (s.cursor_col - 1)) (blank s),
)

-- Behind the wrap of the columns only the row may be too far.
record IsAlmost (s : Vga) : Type 0 where
  pub cells : length s.vga_buffer ≡ vga_width * vga_height
  pub row_near : s.cursor_row ≤ vga_height
  pub col_inside : s.cursor_col < vga_width

wrap_col-IsAlmost : (s : Vga) → IsNear s → IsAlmost (wrap_col s)
unfolding wrap_col
wrap_col-IsAlmost s v = ground arith

length-vga_scroll : (s : Vga) → length (vga_scroll s).vga_buffer ≡ length s.vga_buffer
unfolding vga_scroll
length-vga_scroll s =
    length-fill_from vga_width (vga_width * (vga_height - 1)) (blank s)
      (move_up (vga_width * (vga_height - 1)) 0 s.vga_buffer)
    ∙ length-move_up (vga_width * (vga_height - 1)) 0 s.vga_buffer

cursor_col-vga_scroll : (s : Vga) → (vga_scroll s).cursor_col ≡ s.cursor_col
unfolding vga_scroll
cursor_col-vga_scroll s = refl

wrap_row-IsScreen : (s : Vga) → IsAlmost s → IsScreen (wrap_row s)
unfolding wrap_row
wrap_row-IsScreen s v = ground (arith, length-vga_scroll s, cursor_col-vga_scroll s)

pub vga_putchar-IsScreen : (c : ℕ) (s : Vga) → IsScreen s → IsScreen (vga_putchar c s)
unfolding vga_putchar vga_cursor
vga_putchar-IsScreen c s v =
    let w =
      wrap_row-IsScreen (wrap_col (place c s))
        (wrap_col-IsAlmost (place c s) (place-IsNear c s v)) in
    record { cells = w.cells; row_inside = w.row_inside; col_inside = w.col_inside }

-- The cell of the cursor.
abbrev pub cursor_cell : Vga → ℕ
cursor_cell s = s.cursor_row * vga_width + s.cursor_col

sent :
    (c : ℕ) (s : Vga)
    → IsScreen s
    → (vga_putchar c s).hardware_cursor ≡ cursor_cell (vga_putchar c s)
unfolding vga_putchar vga_cursor
sent c s v =
    let w =
      wrap_row-IsScreen (wrap_col (place c s))
        (wrap_col-IsAlmost (place c s) (place-IsNear c s v)) in
    omega (arith, w.row_inside, w.col_inside)

-- A text of any characters, written on a screen with its 25 rows and the cursor on one of them,
-- leaves such a screen; so each of its characters is written, and each scroll made, on the screen.
-- At the end of a text that is not empty the controller has the cursor's position.
pub vga_puts-IsScreen :
    (c : ℕ) (cs : List ℕ) (s : Vga)
    → IsScreen s
    → IsScreen (vga_puts (c ∷ cs) s)
      × ((vga_puts (c ∷ cs) s).hardware_cursor ≡ cursor_cell (vga_puts (c ∷ cs) s))
unfolding vga_puts
vga_puts-IsScreen c [] s v = (vga_putchar-IsScreen c s v, sent c s v)
vga_puts-IsScreen c (d ∷ ds) s v =
    vga_puts-IsScreen d ds (vga_putchar c s) (vga_putchar-IsScreen c s v)

-- What `vga_putchar` does where neither wrap applies.
abbrev printed : ℕ → Vga → Vga
printed c s = record (put_cell s.cursor_col (make_entry c s.current_color) s) {
  cursor_col = s.cursor_col + 1;
}

place_prints : (c : ℕ) (s : Vga) → 32 ≤ c → place c s ≡ printed c s
unfolding place
place_prints c s h = ground arith

no_wrap_col : (s : Vga) → s.cursor_col < vga_width → wrap_col s ≡ s
unfolding wrap_col
no_wrap_col s h = ground arith

no_wrap_row : (s : Vga) → s.cursor_row < vga_height → wrap_row s ≡ s
unfolding wrap_row
no_wrap_row s h = let e : leb vga_height s.cursor_row ≡ false = ground arith in rw e refl

vga_putchar-printed :
    (c : ℕ) (s : Vga)
    → IsScreen s
    → 32 ≤ c
    → s.cursor_col + 1 < vga_width
    → vga_putchar c s ≡ vga_cursor s.cursor_row (s.cursor_col + 1) (printed c s)
unfolding vga_putchar put_cell
vga_putchar-printed c s v printable room =
    ap (λ t. let s' = wrap_row (wrap_col t) in vga_cursor s'.cursor_row s'.cursor_col s')
      (place_prints c s printable)
    ∙ ap (λ t. let s' = wrap_row t in vga_cursor s'.cursor_row s'.cursor_col s')
        (no_wrap_col (printed c s) room)
    ∙ ap (λ s'. vga_cursor s'.cursor_row s'.cursor_col s') (no_wrap_row (printed c s) v.row_inside)

-- A character that is no control character is put into the cursor's cell in the current colour;
-- short of the last column no other cell changes and the cursor goes on by one.
pub vga_putchar_prints :
    (c k : ℕ) (s : Vga)
    → IsScreen s
    → 32 ≤ c
    → s.cursor_col + 1 < vga_width
    → (get_or (vga_putchar c s).vga_buffer k 0
        ≡ (if cursor_cell s == k then make_entry c s.current_color else get_or s.vga_buffer k 0))
      × (cursor_cell (vga_putchar c s) ≡ cursor_cell s + 1)
unfolding vga_cursor put_cell
vga_putchar_prints c k s v printable room =
    rw (vga_putchar-printed c s v printable room) (cell, omega arith)
  where
    cell :
        get_or (vga_cursor s.cursor_row (s.cursor_col + 1) (printed c s)).vga_buffer k 0
        ≡ (if cursor_cell s == k then make_entry c s.current_color else get_or s.vga_buffer k 0)
    cell =
        get_or-set s.vga_buffer (cursor_cell s) k (make_entry c s.current_color) 0
          (omega (arith, v.cells, v.row_inside, v.col_inside))
