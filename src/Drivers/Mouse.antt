-- ===== src/Drivers/Mouse.antt =====
-- src/drivers/mouse.c: the packets of a mouse, its position and the cursor on the text screen. The
-- byte that the interrupt reads from the port is an argument. The set-up of the device is left out,
-- but for the variables that it sets.
pub mod Packets
mod Tests
use cro_os.Base.{
  ℕ, zero, suc, ◌+◌, ◌-◌, ◌%◌, bit_and, Bool, true, false, ltb, ◌==◌, ◌!=◌, ◌&&◌, if◌then◌else◌,
  List, ℤ, pos, negsuc, ltb_ℤ, ◌+ℤ◌, get_or, set,
}
use cro_os.Drivers.Vga.{vga_width, vga_height, vga_put_at}

pub record Mouse : Type 0 where
  pub x : ℤ
  pub y : ℤ
  pub buttons : ℕ
  pub dx : ℤ
  pub dy : ℤ
  pub mouse_cycle : ℕ
  pub mouse_buf : List ℕ
  pub enabled : Bool
  pub cursor_x : ℤ
  pub cursor_y : ℤ
  pub cursor_visible : Bool
  pub screen : List ℕ

-- `(int8_t)b`
abbrev pub int8 : ℕ → ℤ
int8 b = if ltb b 128 then pos b else negsuc (255 - b)

-- The two tests that keep a coordinate below a limit.
abbrev pub on_screen : ℕ → ℤ → ℤ
on_screen limit v =
    let low = if ltb_ℤ v (pos 0) then pos 0 else v in
    if ltb_ℤ low (pos limit) then low else pos (limit - 1)

-- The fields of the state that a full packet sets; `-(int8_t)b` is kept in an `int8_t`.
unfoldable pub take_packet : List ℕ → Mouse → Mouse
unfolding ◌+ℤ◌
take_packet buf s =
    let dx = int8 (get_or buf 1 0) in
    let dy = int8 ((256 - get_or buf 2 0) % 256) in
    record s {
      buttons = bit_and (get_or buf 0 0) 0x07;
      dx = dx;
      dy = dy;
      x = on_screen vga_width (s.x +ℤ dx);
      y = on_screen vga_height (s.y +ℤ dy);
    }

unfoldable pub draw_cursor : Mouse → Mouse
draw_cursor s =
    if s.cursor_visible && s.enabled
    then record s {
      cursor_x = s.x;
      cursor_y = s.y;
      screen = vga_put_at s.y s.x 42 0x0C (vga_put_at s.cursor_y s.cursor_x 32 0x0F s.screen);
    }
    else s

unfoldable pub mouse_irq : ℕ → Mouse → Mouse
mouse_irq byte s =
    let buf = set s.mouse_buf s.mouse_cycle byte in
    let cycle = (s.mouse_cycle + 1) % 3 in
    let s' = record s { mouse_buf = buf; mouse_cycle = cycle } in
    if cycle == 0 then draw_cursor (take_packet buf s') else s'

unfoldable pub mouse_init : Mouse → Mouse
mouse_init s = record s {
  x = pos 40;
  y = pos 12;
  buttons = 0;
  dx = pos 0;
  dy = pos 0;
  mouse_cycle = 0;
}

unfoldable pub mouse_set_cursor : ℤ → ℤ → Mouse → Mouse
mouse_set_cursor x y s = record s { cursor_x = x; cursor_y = y; x = x; y = y }

-- `cursor_visible` has eight bits of the argument.
unfoldable pub mouse_show : ℕ → Mouse → Mouse
mouse_show show s =
    let s' = record s { cursor_visible = show % 256 != 0 } in
    if show == 0
    then record s' { screen = vga_put_at s.cursor_y s.cursor_x 32 0x0F s.screen }
    else s'
