-- ===== src/Drivers/Mouse/Tests.antt =====
-- Runs of src/drivers/mouse.c, near the corner of the screen.
use cro_os.Base.{◌≡◌, refl, [], ◌∷◌, replicate, true, pos, negsuc}
use cro_os.Drivers.Mouse.{Mouse, mouse_irq, take_packet, draw_cursor, mouse_set_cursor}

unfoldable near_corner : Mouse
near_corner = record {
  x = pos 78;
  y = pos 1;
  buttons = 0;
  dx = pos 0;
  dy = pos 0;
  mouse_cycle = 0;
  mouse_buf = 0 ∷ 0 ∷ 0 ∷ [];
  enabled = true;
  cursor_x = pos 78;
  cursor_y = pos 1;
  cursor_visible = true;
  screen = replicate 2000 0;
}

stops_at_the_edge : (mouse_irq 3 (mouse_irq 5 (mouse_irq 9 near_corner))).x ≡ pos 79
unfolding near_corner mouse_irq take_packet draw_cursor
stops_at_the_edge = refl

-- A position set from outside is not kept on the screen.
set_outside : (mouse_set_cursor (pos 200) (negsuc 4) near_corner).x ≡ pos 200
unfolding near_corner mouse_set_cursor
set_outside = refl
