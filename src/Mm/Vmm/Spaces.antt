-- ===== src/Mm/Vmm/Spaces.antt =====
-- An address space of src/mm/vmm.c: a directory whose tables stand in frames of their own.
use cro_os.Base.{
  ℕ, ◌+◌, ◌*◌, ◌/◌, ◌%◌, ◌^◌, ◌≤◌, ◌<◌, ◌≡◌, ◌≢◌, refl, true, false, if◌then◌else◌, bit_or, arith,
}
use cro_os.Base.Bits.{bit_or-add}
use cro_os.Mm.Pmm.{Pmm, page_size}
use cro_os.Mm.Pmm.Bitmap.{used}
use cro_os.Mm.Pmm.Alloc as PmmAlloc
use cro_os.Mm.Vmm.{Vmm, page_dir_index, page_tab_index, is_present, frame_of, entry, vmm_get_phys}

-- The frame at the address `a` is page aligned and marked as used.
pub record IsFrame (m : Pmm) (a : ℕ) : Type 0 where
  pub aligned : a % page_size ≡ 0
  pub marked : used m.bitmap (a / page_size) ≡ 1

pub record IsSpace (dir : ℕ) (s : Vmm) : Type 0 where
  pub dir_frame : IsFrame s.pmm dir
  pub tables :
      (i : ℕ)
      → i < 1024
      → is_present (entry s dir i) ≡ true
      → IsFrame s.pmm (frame_of (entry s dir i)) × (frame_of (entry s dir i) ≢ dir)
  pub distinct :
      (i j : ℕ)
      → i < 1024
      → j < 1024
      → is_present (entry s dir i) ≡ true
      → is_present (entry s dir j) ≡ true
      → i ≢ j
      → frame_of (entry s dir i) ≢ frame_of (entry s dir j)
  pub pmm_valid : PmmAlloc.IsValid s.pmm

-- Words of different frames have different addresses.
pub apart :
    (a b i j : ℕ)
    → a % page_size ≡ 0
    → b % page_size ≡ 0
    → i < 1024
    → j < 1024
    → a ≢ b
    → a + 4 * i ≢ b + 4 * j
apart a b i j ha hb hi hj ne e = ne (omega arith)

pub frame_of-lt :
    (a i : ℕ) → i < 1024 → a % page_size ≡ 0 → (a ≤ a + 4 * i) × (a + 4 * i < a + page_size)
frame_of-lt a i h al = (omega arith, omega arith)

-- What `entries[i] = frame | flags` stores.
pub frame_of-bit_or :
    (f flags : ℕ)
    → f % page_size ≡ 0
    → flags < 4096
    → (frame_of (bit_or f flags) ≡ f) × (bit_or f flags % 2 ≡ flags % 2)
frame_of-bit_or f flags al h =
    let e : f / 4096 * 2 ^ 12 ≡ f = omega arith in
    let b = bit_or-add 12 (f / 4096) flags h in
    let b' : bit_or f flags ≡ f + flags = (rw e at b) in rw b' (omega arith)

-- What a word of a table translates to.
abbrev pub resolve : ℕ → ℕ
resolve w = if is_present w then frame_of w else 0

pub vmm_get_phys_absent :
    (dir virt : ℕ) (s : Vmm)
    → is_present (entry s dir (page_dir_index virt)) ≡ false
    → vmm_get_phys dir virt s ≡ 0
unfolding vmm_get_phys
vmm_get_phys_absent dir virt s h = rw h refl

pub vmm_get_phys_table :
    (dir virt f : ℕ) (s : Vmm)
    → is_present (entry s dir (page_dir_index virt)) ≡ true
    → frame_of (entry s dir (page_dir_index virt)) ≡ f
    → vmm_get_phys dir virt s ≡ resolve (entry s f (page_tab_index virt))
unfolding vmm_get_phys
vmm_get_phys_table dir virt f s h e = rw (h, e) refl
