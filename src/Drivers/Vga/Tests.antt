-- ===== src/Drivers/Vga/Tests.antt =====
-- Runs of src/drivers/vga.c, with the cursor in the last cell.
use cro_os.Base.{ℕ, ◌≡◌, refl, arith, [], ◌∷◌, length-replicate, replicate}
use cro_os.Drivers.Vga.{Vga, make_entry, vga_puts, vga_put_dec}
use cro_os.Drivers.Vga.Cursor.{IsScreen, cursor_cell, vga_puts-IsScreen}

unfoldable last_cell : Vga
last_cell = record {
  vga_buffer = replicate 2000 0;
  cursor_row = 24;
  cursor_col = 79;
  current_color = 15;
  hardware_cursor = 0;
}

abbrev top : Vga
top = record {
  vga_buffer = 0 ∷ 0 ∷ 0 ∷ [];
  cursor_row = 0;
  cursor_col = 0;
  current_color = 1;
  hardware_cursor = 0;
}

prints_forty_two : (vga_put_dec 42 top).vga_buffer ≡ 0x134 ∷ 0x132 ∷ 0 ∷ []
unfolding vga_put_dec make_entry
prints_forty_two = refl

last_cell-IsScreen : IsScreen last_cell
unfolding last_cell
last_cell-IsScreen = record {
  cells = length-replicate {A = ℕ} 2000 0;
  row_inside = omega arith;
  col_inside = omega arith;
}

vga_puts-IsScreen_example :
    IsScreen (vga_puts (97 ∷ 98 ∷ []) last_cell)
    × ((vga_puts (97 ∷ 98 ∷ []) last_cell).hardware_cursor
        ≡ cursor_cell (vga_puts (97 ∷ 98 ∷ []) last_cell))
vga_puts-IsScreen_example = vga_puts-IsScreen 97 (98 ∷ []) last_cell last_cell-IsScreen
