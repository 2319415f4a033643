-- ===== src/Mm/Pmm.antt =====
-- src/mm/pmm.c: the physical page allocator over a bitmap. The file's static variables are the
-- record; the linker's `_kernel_end` is an argument.
pub mod Bitmap
pub mod Alloc
pub mod Init
mod Tests
use cro_os.Base.{
  ℕ, zero, suc, ◌+◌, ◌-◌, ◌*◌, ◌/◌, ◌%◌, ◌^◌, bit_and, bit_or, Bool, true, false, List, ltb, ◌==◌,
  ◌!=◌, ◌&&◌, if◌then◌else◌, get_or, set, replicate,
}
use cro_os.Base.Bits.{bit, not32}

pub record Pmm : Type 0 where
  pub bitmap : List ℕ
  pub total_pages : ℕ
  pub used_pages : ℕ

abbrev pub page_size : ℕ
page_size = 4096

-- 128 * 1024 / 8 bytes, a bit for each page
abbrev pub bitmap_size : ℕ
bitmap_size = 16384

unfoldable pub bitmap_set : List ℕ → ℕ → List ℕ
bitmap_set bm page = set bm (page / 8) (bit_or (get_or bm (page / 8) 0) (bit (page % 8)) % 2 ^ 8)

unfoldable pub bitmap_clear : List ℕ → ℕ → List ℕ
bitmap_clear bm page =
    set bm (page / 8) (bit_and (get_or bm (page / 8) 0) (not32 (bit (page % 8))) % 2 ^ 8)

unfoldable pub bitmap_test : List ℕ → ℕ → ℕ
bitmap_test bm page = bit_and (get_or bm (page / 8) 0) (bit (page % 8))

-- The two loops of `pmm_init`, with the rounds left and the loop's `i`.
pub set_pages : ℕ → ℕ → List ℕ → List ℕ
set_pages zero i bm = bm
set_pages (suc left) i bm = set_pages left (i + 1) (bitmap_set bm i)

pub clear_pages : ℕ → ℕ → List ℕ → List ℕ
clear_pages zero i bm = bm
clear_pages (suc left) i bm = clear_pages left (i + 1) (bitmap_clear bm i)

-- `total_pages` of a machine with `mem_size_bytes` of memory.
unfoldable pub pages_of : ℕ → ℕ
pages_of mem_size_bytes =
    let total = mem_size_bytes / page_size in
    if ltb (bitmap_size * 8) total then bitmap_size * 8 else total

-- The first page behind the kernel, in 32 bits.
unfoldable pub start_page : ℕ → ℕ
start_page kernel_end = (kernel_end + page_size - 1) % 2 ^ 32 / page_size

unfoldable pub pmm_init : ℕ → ℕ → Pmm
pmm_init kernel_end mem_size_bytes =
    let total = pages_of mem_size_bytes in
    let start = start_page kernel_end in
    record {
      bitmap = clear_pages (total - start) start (set_pages 256 0 (replicate bitmap_size 255));
      total_pages = total;
      used_pages = start;
    }

-- The loop of `pmm_alloc_page`. The address 0 is C's NULL.
unfoldable pub alloc_from : ℕ → ℕ → Pmm → ℕ × Pmm
alloc_from zero i m = (0, m)
alloc_from (suc left) i m = elim (bitmap_test m.bitmap i == 0) [
  | true ↦ (
    i * page_size % 2 ^ 32,
    record m { bitmap = bitmap_set m.bitmap i; used_pages = (m.used_pages + 1) % 2 ^ 32 },
  )
  | false ↦ alloc_from left (i + 1) m
]

unfoldable pub pmm_alloc_page : Pmm → ℕ × Pmm
pmm_alloc_page m = alloc_from m.total_pages 0 m

unfoldable pub pmm_free_page : ℕ → Pmm → Pmm
pmm_free_page addr m =
    let page = addr / page_size in
    if ltb page m.total_pages && (bitmap_test m.bitmap page != 0)
    then record m {
      bitmap = bitmap_clear m.bitmap page;
      used_pages = (m.used_pages + 2 ^ 32 - 1) % 2 ^ 32;
    }
    else m

unfoldable pub pmm_get_free_pages : Pmm → ℕ
pmm_get_free_pages m = (m.total_pages + 2 ^ 32 - m.used_pages) % 2 ^ 32

unfoldable pub pmm_get_total_pages : Pmm → ℕ
pmm_get_total_pages m = m.total_pages
