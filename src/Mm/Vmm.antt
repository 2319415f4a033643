-- ===== src/Mm/Vmm.antt =====
-- src/mm/vmm.c: two-level page tables. The state holds the words of physical memory, by their
-- addresses, so a page table lives in the frame that the page allocator handed out; a directory
-- is its frame's address, and 0 is NULL. Loading CR3 and CR0 is kept as the registers' values;
-- flushing the TLB changes nothing that the model holds.
pub mod Spaces
pub mod Tables
pub mod Stores
pub mod Map
pub mod Create
mod Tests
use cro_os.Base.{
  ℕ, zero, suc, ◌+◌, ◌-◌, ◌*◌, ◌/◌, ◌%◌, ◌^◌, bit_or, Bool, true, false, ltb, leb, ◌==◌, ◌&&◌,
  if◌then◌else◌,
}
use cro_os.Mm.Pmm.{Pmm, page_size, pmm_alloc_page}

pub record Vmm : Type 0 where
  pub words : ℕ → ℕ
  pub kernel_dir : ℕ
  pub cr3 : ℕ
  pub cr0 : ℕ
  pub pmm : Pmm

-- PAGE_PRESENT | PAGE_WRITE and the same with PAGE_USER
abbrev pub page_present_write : ℕ
page_present_write = 3

abbrev pub page_present_write_user : ℕ
page_present_write_user = 7

-- `(virt >> 22) & 0x3FF` and `(virt >> 12) & 0x3FF`
abbrev pub page_dir_index : ℕ → ℕ
page_dir_index virt = virt / 2 ^ 22 % 1024

abbrev pub page_tab_index : ℕ → ℕ
page_tab_index virt = virt / 2 ^ 12 % 1024

-- `entry & PAGE_PRESENT`, and `entry & 0xFFFFF000` on 32 bits
abbrev pub is_present : ℕ → Bool
is_present entry = entry % 2 == 1

abbrev pub frame_of : ℕ → ℕ
frame_of entry = entry / 4096 * 4096

unfoldable pub store : ℕ → ℕ → (ℕ → ℕ) → ℕ → ℕ
store a v words x = if x == a then v else words x

-- `memset(frame, 0, PAGE_SIZE)`
unfoldable pub zero_frame : ℕ → (ℕ → ℕ) → ℕ → ℕ
zero_frame a words x = if leb a x && ltb x (a + page_size) then 0 else words x

-- `entries[i]` of a directory or of a table
abbrev pub entry : Vmm → ℕ → ℕ → ℕ
entry s a i = s.words (a + 4 * i)

unfoldable pub get_or_create_table : ℕ → ℕ → ℕ → Vmm → ℕ × Vmm
get_or_create_table dir dir_idx flags s =
    let (frame, pmm') = pmm_alloc_page s.pmm in
    if is_present (entry s dir dir_idx)
    then (frame_of (entry s dir dir_idx), s)
    else if frame == 0
    then (0, record s { pmm = pmm' })
    else (
      frame,
      record s {
        words = store (dir + 4 * dir_idx) (bit_or frame flags) (zero_frame frame s.words);
        pmm = pmm';
      },
    )

unfoldable pub vmm_map_page : ℕ → ℕ → ℕ → ℕ → Vmm → Vmm
vmm_map_page dir virt phys flags s =
    let (table, s') = get_or_create_table dir (page_dir_index virt) page_present_write_user s in
    if table == 0 then s' else record s' {
      words =
          store (table + 4 * page_tab_index virt) (bit_or (frame_of phys) (flags % 4096)) s'.words;
    }

unfoldable pub vmm_unmap_page : ℕ → ℕ → Vmm → Vmm
vmm_unmap_page dir virt s =
    let e = entry s dir (page_dir_index virt) in
    if is_present e
    then record s { words = store (frame_of e + 4 * page_tab_index virt) 0 s.words }
    else s

unfoldable pub vmm_get_phys : ℕ → ℕ → Vmm → ℕ
vmm_get_phys dir virt s =
    let e = entry s dir (page_dir_index virt) in
    let t = entry s (frame_of e) (page_tab_index virt) in
    if is_present e then if is_present t then frame_of t else 0 else 0

-- The loop of `vmm_init`: identity mapping from `addr` on, a page in each round.
unfoldable pub identity_map : ℕ → ℕ → Vmm → Vmm
identity_map zero addr s = s
identity_map (suc left) addr s =
    identity_map left (addr + page_size) (vmm_map_page s.kernel_dir addr addr page_present_write s)

unfoldable pub vmm_init : Vmm → Vmm
vmm_init s =
    let (frame, pmm') = pmm_alloc_page s.pmm in
    let s₁ = record s { kernel_dir = frame; words = zero_frame frame s.words; pmm = pmm' } in
    let s₂ = identity_map 1024 0 s₁ in
    record s₂ { cr3 = s₂.kernel_dir; cr0 = bit_or s₂.cr0 0x8000_0000 }

-- The loop of `vmm_create_dir`, with the rounds left and its `i`.
unfoldable pub share_entries : ℕ → ℕ → ℕ → Vmm → Vmm
share_entries zero i dir s = s
share_entries (suc left) i dir s =
    let e = entry s s.kernel_dir i in
    share_entries left (i + 1) dir
      (if is_present e then record s { words = store (dir + 4 * i) e s.words } else s)

unfoldable pub vmm_create_dir : Vmm → ℕ × Vmm
vmm_create_dir s =
    let (dir, pmm') = pmm_alloc_page s.pmm in
    if dir == 0
    then (0, record s { pmm = pmm' })
    else (dir, share_entries 1024 0 dir (record s { words = zero_frame dir s.words; pmm = pmm' }))

unfoldable pub vmm_switch_dir : ℕ → Vmm → Vmm
vmm_switch_dir dir s = record s { cr3 = dir }
