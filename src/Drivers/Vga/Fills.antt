-- ===== src/Drivers/Vga/Fills.antt =====
-- The loops over the cells in src/drivers/vga.c, cell by cell.
use cro_os.Base.{
  ℕ, zero, suc, ◌+◌, ◌-◌, ◌*◌, ◌≤◌, ◌<◌, ◌≡◌, refl, ◌∙◌, ltb, leb, ◌&&◌, if◌then◌else◌, List,
  get_or, set, length, length-set, Bool-cases, inl, inr, arith, get_or-set,
}
use cro_os.Drivers.Vga.{Vga, vga_width, vga_height, fill_from, move_up, vga_scroll, blank}

pub length-fill_from : (n i v : ℕ) (buf : List ℕ) → length (fill_from n i v buf) ≡ length buf
unfolding fill_from
length-fill_from zero i v buf = refl
length-fill_from (suc n) i v buf = length-fill_from n (i + 1) v (set buf i v) ∙ length-set buf i v

pub length-move_up : (n i : ℕ) (buf : List ℕ) → length (move_up n i buf) ≡ length buf
unfolding move_up
length-move_up zero i buf = refl
length-move_up (suc n) i buf =
    length-move_up n (i + 1) (set buf i (get_or buf (i + vga_width) 0))
    ∙ length-set buf i (get_or buf (i + vga_width) 0)

fill_from_at :
    (n i v : ℕ) (buf : List ℕ) (k : ℕ)
    → i + n ≤ length buf
    → get_or (fill_from n i v buf) k 0 ≡ (if leb i k && ltb k (i + n) then v else get_or buf k 0)
unfolding fill_from
fill_from_at zero i v buf k h = ground arith
fill_from_at (suc n) i v buf k h =
    ground
      (arith, fill_from_at n (i + 1) v (set buf i v) k, get_or-set buf i k v 0, length-set buf i v)

move_up_at :
    (n i : ℕ) (buf : List ℕ) (k : ℕ)
    → i + n ≤ length buf
    → get_or (move_up n i buf) k 0
      ≡ (if leb i k && ltb k (i + n) then get_or buf (k + vga_width) 0 else get_or buf k 0)
unfolding move_up
move_up_at zero i buf k h = ground arith
move_up_at (suc n) i buf k h =
    let v : ℕ = get_or buf (i + vga_width) 0 in
    ground (
      arith,
      move_up_at n (i + 1) (set buf i v) k,
      get_or-set buf i k v 0,
      get_or-set buf i (k + vga_width) v 0,
      length-set buf i v,
    )

-- On a buffer of 25 rows, `vga_scroll` moves each row to the one above and makes the last blank
-- in the current colour.
pub vga_scroll_lem :
    (s : Vga) (row col : ℕ)
    → length s.vga_buffer ≡ vga_width * vga_height
    → row < vga_height
    → col < vga_width
    → get_or (vga_scroll s).vga_buffer (row * vga_width + col) 0 ≡ (
        if ltb (row + 1) vga_height
        then get_or s.vga_buffer ((row + 1) * vga_width + col) 0
        else blank s)
unfolding vga_scroll
vga_scroll_lem s row col h hr hc =
    let k : ℕ = row * vga_width + col in
    let next : (row + 1) * vga_width + col ≡ k + vga_width = omega arith in
    let moved = move_up_at (vga_width * (vga_height - 1)) 0 s.vga_buffer k (omega (arith, h)) in
    let filled =
      fill_from_at vga_width (vga_width * (vga_height - 1)) (blank s)
        (move_up (vga_width * (vga_height - 1)) 0 s.vga_buffer) k
        (omega (arith, h, length-move_up (vga_width * (vga_height - 1)) 0 s.vga_buffer)) in
    elim (Bool-cases (ltb (row + 1) vga_height)) [
      | inl above ↦ rw (above, next) (filled ∙ ground (arith, moved, above))
      | inr last ↦ rw last (filled ∙ ground (arith, last))
    ]
