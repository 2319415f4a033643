-- ===== src/Mm/Kmalloc/Overflow.antt =====
-- The sizes that wrap in `expand_heap` of src/mm/kmalloc.c.
use cro_os.Base.{
  ℕ, ◌+◌, ◌-◌, ◌%◌, ◌^◌, ◌<◌, ◌≡◌, refl, true, false, some, [], ◌∷◌, ltb, ◌==◌, arith, ne→==,
  lt→ltb,
}
use cro_os.Mm.Kmalloc.{
  Block, Heap, kheap_start, header, expand_heap, find_block, kmalloc, find_free, pages_needed,
  take_pages, new_block, claim, split_block,
}

-- One page is taken, and the block in it claims 4084 bytes, less than `size`.
expand_wrapped :
    (size : ℕ) (h : Heap)
    → 2 ^ 32 - header < size
    → size < 2 ^ 32
    → h.blocks ≡ []
    → h.heap_current ≡ kheap_start
    → (take_pages 1 h.pmm).0 ≡ true
    → let b : Block = record { addr = kheap_start; size = 4084; free = true } in
      ((expand_heap size h).0 ≡ some b)
      × ((expand_heap size h).1.blocks ≡ b ∷ [])
      × ((expand_heap size h).1.heap_current ≡ kheap_start + 4096)
unfolding expand_heap new_block
expand_wrapped size h low high empty start page =
    let pages : pages_needed size ≡ 1 = unfold pages_needed in omega arith in
    rw (pages, page, empty, start) (refl, refl, refl)

-- The sum `sizeof(block_t) + size` wraps for the eleven largest sizes: on an empty heap with a
-- free page, `kmalloc` returns a pointer as if it had granted `size` bytes, almost 4 GB, although
-- the heap has grown by one page of 4096 bytes.
pub kmalloc_wraps :
    (size : ℕ) (h : Heap)
    → 2 ^ 32 - header < size
    → size < 2 ^ 32
    → h.blocks ≡ []
    → h.heap_current ≡ kheap_start
    → (take_pages 1 h.pmm).0 ≡ true
    → ((kmalloc size h).0 ≡ kheap_start + header)
      × (find_block kheap_start (kmalloc size h).1.blocks
          ≡ some (record { addr = kheap_start; size = size; free = false }))
      × ((kmalloc size h).1.heap_current ≡ kheap_start + 4096)
unfolding kmalloc find_free claim split_block find_block
kmalloc_wraps size h low high empty start page =
    let e : (size == 0) ≡ false = ne→== size 0 (omega arith) in
    let (found, blocks, end) = expand_wrapped size h low high empty start page in
    let splits : ltb ((size + header + 16) % 2 ^ 32) 4084 ≡ true = lt→ltb _ _ (omega arith) in
    rw (e, empty, found, blocks, splits) (refl, refl, end)
