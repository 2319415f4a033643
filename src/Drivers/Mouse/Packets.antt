-- ===== src/Drivers/Mouse/Packets.antt =====
-- src/drivers/mouse.c: what a packet of three bytes does.
use cro_os.Base.{
  ℕ, ◌-◌, ◌%◌, ◌<◌, bit_and, ◌≡◌, refl, ap, Bool-cases, inl, inr, ltb, [], ◌∷◌, ℤ, pos, negsuc,
  ◌+ℤ◌, set, length, arith,
}
use cro_os.Drivers.Mouse.{Mouse, int8, on_screen, take_packet}

-- The position is on the screen.
pub record IsInside (v : ℤ) (limit : ℕ) : Type 0 where
  pub place : ℕ
  pub is_place : v ≡ pos place
  pub below : place < limit

on_screen-IsInside : (limit : ℕ) (v : ℤ) → 0 < limit → IsInside (on_screen limit v) limit
on_screen-IsInside limit (pos n) h = elim (Bool-cases (ltb n limit)) [
  | inl e ↦ record { place = n; is_place = ground (arith, e); below = ground (arith, e) }
  | inr e ↦ record { place = limit - 1; is_place = ground (arith, e); below = ground (arith, e, h) }
]
on_screen-IsInside limit (negsuc n) h = record {
  place = 0;
  is_place = ground (arith, h);
  below = h;
}

-- Three bytes, from the start of a packet, on a screen of 2000 cells.
pub record Moves (b₀ b₁ b₂ : ℕ) (s t : Mouse) : Type 0 where
  pub at_start : t.mouse_cycle ≡ 0
  pub pressed : t.buttons ≡ bit_and b₀ 0x07
  pub moved_x : t.x ≡ on_screen 80 (s.x +ℤ int8 b₁)
  pub moved_y : t.y ≡ on_screen 25 (s.y +ℤ int8 ((256 - b₂) % 256))
  pub inside_x : IsInside t.x 80
  pub inside_y : IsInside t.y 25
  pub cells : length t.screen ≡ 2000

completed : ℕ → Mouse → Mouse
completed b s =
    take_packet (set s.mouse_buf 2 b)
      (record s { mouse_buf = set s.mouse_buf 2 b; mouse_cycle = 0 })

-- Drawing the cursor keeps where the mouse is, its buttons and the place in the packet.
record SameMouse (s t : Mouse) : Type 0 where
  same_x : t.x ≡ s.x
  same_y : t.y ≡ s.y
  same_buttons : t.buttons ≡ s.buttons
  same_cycle : t.mouse_cycle ≡ s.mouse_cycle

taken :
    (b₀ b₁ b₂ : ℕ) (s u : Mouse)
    → u.mouse_cycle ≡ 0
    → u.x ≡ s.x
    → u.y ≡ s.y
    → length u.screen ≡ 2000
    → Moves b₀ b₁ b₂ s (take_packet (b₀ ∷ b₁ ∷ b₂ ∷ []) u)
unfolding take_packet
taken b₀ b₁ b₂ s u c p q m = record {
  at_start = c;
  pressed = refl;
  moved_x = ap (λ v. on_screen 80 (v +ℤ int8 b₁)) p;
  moved_y = ap (λ v. on_screen 25 (v +ℤ int8 ((256 - b₂) % 256))) q;
  inside_x = on_screen-IsInside 80 (u.x +ℤ int8 b₁) (omega arith);
  inside_y = on_screen-IsInside 25 (u.y +ℤ int8 ((256 - b₂) % 256)) (omega arith);
  cells = m;
}
