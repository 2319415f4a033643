-- ===== src/Mm/Kmalloc/Tests.antt =====
-- Runs of src/mm/kmalloc.c, and its theorems on a machine of 2 MB.
use cro_os.Base.{◌+◌, ◌≤◌, ◌≡◌, refl, true, false, some, [], ◌∷◌, ◌⊎◌, arith}
use cro_os.Mm.Pmm.{
  Pmm, pages_of, start_page, pmm_init, pmm_alloc_page, alloc_from, bitmap_set, bitmap_test,
}
use cro_os.Mm.Pmm.Init.{pmm_init_lem}
use cro_os.Mm.Pmm.Alloc as PmmAlloc
use cro_os.Mm.Kmalloc.{
  Block, Heap, kheap_start, find_block, kmalloc, krealloc, find_free, expand_heap, new_block,
  take_pages, claim, split_block,
}
use cro_os.Mm.Kmalloc.Apart.{IsAllocated, kmalloc_apart}
use cro_os.Mm.Kmalloc.Valid.{IsValid, Grants, Refuses}
use cro_os.Mm.Kmalloc.Alloc.{kmalloc_lem}
use cro_os.Mm.Kmalloc.Release.{Frees, Undoes, kfree_lem, kfree-kmalloc}
use cro_os.Mm.Kmalloc.Realloc.{Moves, krealloc_grow}

abbrev tiny : Pmm
tiny = record { bitmap = 1 ∷ []; total_pages = 8; used_pages = 1 }

abbrev tiny_heap : Heap
tiny_heap = record { blocks = []; heap_current = kheap_start; memory = λ x. 0; pmm = tiny }

first_split :
    (kmalloc 100 tiny_heap).1.blocks
    ≡ record { addr = kheap_start; size = 100; free = false }
      ∷ record { addr = kheap_start + 112; size = 3972; free = true }
      ∷ []
unfolding kmalloc find_free expand_heap new_block take_pages claim split_block pmm_alloc_page
    alloc_from bitmap_test bitmap_set
first_split = refl

abbrev machine : Pmm
machine = pmm_init 0x102345 0x200000

kernel_fits : start_page 0x102345 ≤ pages_of 0x200000
unfolding start_page pages_of
kernel_fits = omega arith

machine-IsValid : PmmAlloc.IsValid machine
machine-IsValid = (pmm_init_lem 0x102345 0x200000 kernel_fits).0

machine_used : machine.used_pages ≡ 259
unfolding start_page
machine_used = (pmm_init_lem 0x102345 0x200000 kernel_fits).2

abbrev one_block : Block
one_block = record { addr = kheap_start; size = 4084; free = false }

abbrev heap : Heap
heap = record {
  blocks = one_block ∷ [];
  heap_current = kheap_start + 4096;
  memory = λ x. 7;
  pmm = machine;
}

heap-IsValid : IsValid heap
heap-IsValid = record {
  tiled = (refl, refl);
  grown = omega (arith, machine_used);
  pmm_valid = machine-IsValid;
}

one_block_found : find_block kheap_start (one_block ∷ []) ≡ some one_block
unfolding find_block
one_block_found = refl

kmalloc_lem_example : Grants 100 heap (kmalloc 100 heap) ⊎ Refuses heap (kmalloc 100 heap)
kmalloc_lem_example = kmalloc_lem 100 heap (omega arith) heap-IsValid

-- One allocated block, and a free one behind it.
abbrev two_blocks : Heap
two_blocks = record {
  blocks = one_block ∷ record { addr = kheap_start + 4096; size = 4084; free = true } ∷ [];
  heap_current = kheap_start + 8192;
  memory = λ x. 7;
  pmm = machine;
}

two_blocks-IsValid : IsValid two_blocks
two_blocks-IsValid = record {
  tiled = (refl, (refl, refl));
  grown = omega (arith, machine_used);
  pmm_valid = machine-IsValid;
}

two_blocks-IsAllocated : IsAllocated two_blocks (kheap_start + 12) one_block
unfolding find_block
two_blocks-IsAllocated = record { behind_header = omega arith; found = refl; taken = refl }

second_block : (kmalloc 100 two_blocks).0 ≡ kheap_start + 4108
unfolding kmalloc find_free claim split_block
second_block = refl

kmalloc_apart_example :
    ((kmalloc 100 two_blocks).0 + 100 ≤ kheap_start + 12)
    ⊎ (kheap_start + 12 + 4084 ≤ (kmalloc 100 two_blocks).0)
kmalloc_apart_example =
    kmalloc_apart 100 two_blocks (kheap_start + 12) one_block (omega arith) two_blocks-IsValid
      two_blocks-IsAllocated (omega (arith, second_block))

kfree_lem_example : (h' : Heap) × Frees (kheap_start + 12) one_block heap h'
kfree_lem_example = kfree_lem (kheap_start + 12) heap heap-IsValid (omega arith) one_block_found

kfree-kmalloc_example :
    ((h' : Heap) × Undoes heap (kmalloc 100 heap) h') ⊎ Refuses heap (kmalloc 100 heap)
kfree-kmalloc_example = kfree-kmalloc 100 heap (omega arith) heap-IsValid

krealloc_grow_example :
    ((h' : Heap) × Moves (kheap_start + 12) 5000 one_block heap (kmalloc 5000 heap) h')
    ⊎ ((krealloc (kheap_start + 12) 5000 heap ≡ some (kmalloc 5000 heap))
        × Refuses heap (kmalloc 5000 heap))
krealloc_grow_example =
    krealloc_grow (kheap_start + 12) 5000 heap heap-IsValid (omega arith) (omega arith)
      one_block_found refl (omega arith)

tiny_page : (take_pages 1 tiny).0 ≡ true
unfolding take_pages pmm_alloc_page alloc_from bitmap_test
tiny_page = refl
