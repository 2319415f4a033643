-- ===== src/Mm/Pmm/Tests.antt =====
-- Runs of src/mm/pmm.c, and its theorems at a machine of 2 MB whose kernel ends at 0x102345.
use cro_os.Base.{ℕ, ◌≤◌, ◌<◌, ◌/◌, ◌*◌, ◌≡◌, refl, List, [], ◌∷◌, ◌⊎◌, arith}
use cro_os.Mm.Pmm.{
  Pmm, bitmap_size, bitmap_set, bitmap_clear, bitmap_test, alloc_from, pmm_alloc_page,
  pmm_free_page, pages_of, start_page, pmm_init,
}
use cro_os.Mm.Pmm.Bitmap.{used}
use cro_os.Mm.Pmm.Alloc.{
  IsValid, Takes, Exhausted, IsFreeable, Freed, pmm_alloc_page_lem, pmm_free_page_lem,
}
use cro_os.Mm.Pmm.Init.{outside, pmm_init_lem}

abbrev two_bytes : List ℕ
two_bytes = 0xff ∷ 0x0b ∷ []

set_tenth : bitmap_set two_bytes 10 ≡ 0xff ∷ 0x0f ∷ []
unfolding bitmap_set
set_tenth = refl

clear_tenth : bitmap_clear (0xff ∷ 0x0f ∷ []) 10 ≡ two_bytes
unfolding bitmap_clear
clear_tenth = refl

alloc_tenth :
    pmm_alloc_page (record { bitmap = two_bytes; total_pages = 16; used_pages = 11 })
    ≡ (10 * 4096, record { bitmap = 0xff ∷ 0x0f ∷ []; total_pages = 16; used_pages = 12 })
unfolding pmm_alloc_page alloc_from bitmap_test bitmap_set
alloc_tenth = refl

abbrev machine : Pmm
machine = pmm_init 0x102345 0x200000

kernel_fits : start_page 0x102345 ≤ pages_of 0x200000
unfolding start_page pages_of
kernel_fits = omega arith

pmm_init_lem_example :
    IsValid machine
    × ((q : ℕ)
        → q < 8 * bitmap_size
        → used machine.bitmap q ≡ outside (start_page 0x102345) (pages_of 0x200000) q)
    × (machine.used_pages ≡ start_page 0x102345)
    × (machine.total_pages ≡ pages_of 0x200000)
pmm_init_lem_example = pmm_init_lem 0x102345 0x200000 kernel_fits

machine-IsValid : IsValid machine
machine-IsValid = (pmm_init_lem 0x102345 0x200000 kernel_fits).0

pmm_alloc_page_lem_example :
    ((p : ℕ) × Takes machine p (pmm_alloc_page machine))
    ⊎ Exhausted machine (pmm_alloc_page machine)
pmm_alloc_page_lem_example = pmm_alloc_page_lem machine machine-IsValid

pmm_free_page_lem_example :
    (IsFreeable 0x1000 machine × Freed machine (0x1000 / 4096) (pmm_free_page 0x1000 machine))
    ⊎ ((¬ IsFreeable 0x1000 machine) × (pmm_free_page 0x1000 machine ≡ machine))
pmm_free_page_lem_example = pmm_free_page_lem 0x1000 machine machine-IsValid
