-- ===== src/Mm/Kmalloc.antt =====
-- src/mm/kmalloc.c: the kernel heap. A block is its address and its header without `next`; the
-- list holds the blocks in the order of the `next` pointers from `heap_head`. The payloads'
-- bytes are the function `memory`. Pointers are addresses, and 0 is NULL.
pub mod Tiles
pub mod Claim
pub mod Valid
pub mod Expand
pub mod Alloc
pub mod Apart
pub mod Release
pub mod Realloc
pub mod Overflow
mod Tests
use cro_os.Base.{
  ℕ, zero, suc, ◌+◌, ◌-◌, ◌*◌, ◌/◌, ◌%◌, ◌^◌, bit_and, Bool, true, false, Option, none, some, List,
  [], ◌∷◌, ◌++◌, ltb, leb, ◌==◌, ◌&&◌, if◌then◌else◌,
}
use cro_os.Base.Bits.{not32}
use cro_os.Mm.Pmm.{Pmm, page_size, pmm_alloc_page}

pub record Block : Type 0 where
  pub addr : ℕ
  pub size : ℕ
  pub free : Bool

pub record Heap : Type 0 where
  pub blocks : List Block
  pub heap_current : ℕ
  pub memory : ℕ → ℕ
  pub pmm : Pmm

abbrev pub kheap_start : ℕ
kheap_start = 0x0040_0000

-- `sizeof(block_t)` with 32-bit pointers: 4 + 1, padded to 8, + 4
abbrev pub header : ℕ
header = 12

unfoldable pub find_free : ℕ → List Block → Option Block
find_free size [] = none
find_free size (b ∷ bs) = if b.free && leb size b.size then some b else find_free size bs

-- The loop of `expand_heap` over the pages still to be taken; `false` when one is NULL.
unfoldable pub take_pages : ℕ → Pmm → Bool × Pmm
take_pages zero m = (true, m)
take_pages (suc left) m =
    let (page, m') = pmm_alloc_page m in
    let rest = take_pages left m' in if page == 0 then (false, m') else rest

unfoldable pub pages_needed : ℕ → ℕ
pages_needed size = ((header + size) % 2 ^ 32 + page_size - 1) % 2 ^ 32 / page_size

unfoldable pub new_block : ℕ → Heap → Block
unfolding pages_needed
new_block size h = record {
  addr = h.heap_current;
  size = (pages_needed size * page_size + 2 ^ 32 - header) % 2 ^ 32;
  free = true;
}

unfoldable pub expand_heap : ℕ → Heap → Option Block × Heap
expand_heap size h =
    let (got, pmm') = take_pages (pages_needed size) h.pmm in
    if got
    then (
      some (new_block size h),
      record h {
        blocks = h.blocks ++ (new_block size h ∷ []);
        heap_current = (h.heap_current + pages_needed size * page_size) % 2 ^ 32;
        pmm = pmm';
      },
    )
    else (none, record h { pmm = pmm' })

unfoldable pub kmalloc_init : Heap → Heap
kmalloc_init h = record h { heap_current = kheap_start; blocks = [] }

-- The split of the block `b`, followed by `bs`, and `blk->free = 0`.
unfoldable pub split_block : ℕ → Block → List Block → List Block
split_block size b bs =
    if ltb ((size + header + 16) % 2 ^ 32) b.size
    then record b { size = size; free = false }
      ∷ record {
        addr = (b.addr + header + size) % 2 ^ 32;
        size = (b.size + 2 ^ 32 + 2 ^ 32 - size - header) % 2 ^ 32;
        free = true;
      }
      ∷ bs
    else record b { free = false } ∷ bs

-- The write through `blk`, the pointer to the block at the address `a`.
unfoldable pub claim : ℕ → ℕ → List Block → List Block
claim a size [] = []
claim a size (b ∷ bs) = if b.addr == a then split_block size b bs else b ∷ claim a size bs

unfoldable pub kmalloc : ℕ → Heap → ℕ × Heap
kmalloc size h = if size == 0 then (0, h) else elim (find_free size h.blocks) [
  | some b ↦ ((b.addr + header) % 2 ^ 32, record h { blocks = claim b.addr size h.blocks })
  | none ↦
      let (found, h') = expand_heap size h in
      elim found [
        | none ↦ (0, h')
        | some b ↦ ((b.addr + header) % 2 ^ 32, record h' { blocks = claim b.addr size h'.blocks })
      ]
]

unfoldable pub kmalloc_aligned : ℕ → Heap → ℕ × Heap
kmalloc_aligned size h = kmalloc (bit_and ((size + 15) % 2 ^ 32) (not32 15)) h

-- `memset` and a `memcpy` between regions that do not overlap.
unfoldable pub fill : ℕ → ℕ → ℕ → (ℕ → ℕ) → ℕ → ℕ
fill a n v mem x = if leb a x && ltb x (a + n) then v else mem x

unfoldable pub copy : ℕ → ℕ → ℕ → (ℕ → ℕ) → ℕ → ℕ
copy dst src n mem x = if leb dst x && ltb x (dst + n) then mem (src + (x - dst)) else mem x

unfoldable pub kcalloc : ℕ → ℕ → Heap → ℕ × Heap
kcalloc count size h =
    let total = count * size % 2 ^ 32 in
    let (ptr, h') = kmalloc total h in
    if ptr == 0 then (ptr, h') else (ptr, record h' { memory = fill ptr total 0 h'.memory })

-- `blk->free = 1`, and the coalescing of `b` with the block behind it.
unfoldable pub merge_next : Block → List Block → List Block
merge_next b [] = record b { free = true } ∷ []
merge_next b (c ∷ bs) =
    if c.free
    then record b { size = (b.size + (header + c.size)) % 2 ^ 32; free = true } ∷ bs
    else record b { free = true } ∷ c ∷ bs

-- `none`: the address is no block's, and the write goes astray.
unfoldable pub release : ℕ → List Block → Option (List Block)
release a [] = none
release a (b ∷ bs) =
    if b.addr == a
    then some (merge_next b bs)
    else elim (release a bs) [ none ↦ none | some bs' ↦ some (b ∷ bs') ]

unfoldable pub kfree : ℕ → Heap → Option Heap
kfree ptr h =
    if ptr == 0 then some h else elim (release ((ptr + 2 ^ 32 - header) % 2 ^ 32) h.blocks) [
      | none ↦ none
      | some bs ↦ some (record h { blocks = bs })
    ]

-- The block at an address, for `krealloc` and for statements about the heap.
unfoldable pub find_block : ℕ → List Block → Option Block
find_block a [] = none
find_block a (b ∷ bs) = if b.addr == a then some b else find_block a bs

-- The part of `krealloc` behind the test that the block is large enough. `blk->size` is read
-- again behind the call of `kmalloc`.
unfoldable pub move_block : ℕ → ℕ → Heap → Option (ℕ × Heap)
move_block ptr size h =
    let (new_ptr, h') = kmalloc size h in
    if new_ptr == 0
    then some (new_ptr, h')
    else elim (find_block ((ptr + 2 ^ 32 - header) % 2 ^ 32) h'.blocks) [
      | none ↦ none
      | some b ↦ elim (kfree ptr (record h' { memory = copy new_ptr ptr b.size h'.memory })) [
        | none ↦ none
        | some h'' ↦ some (new_ptr, h'')
      ]
    ]

unfoldable pub krealloc : ℕ → ℕ → Heap → Option (ℕ × Heap)
krealloc ptr size h =
    if ptr == 0
    then some (kmalloc size h)
    else if size == 0
    then elim (kfree ptr h) [ none ↦ none | some h' ↦ some (0, h') ]
    else elim (find_block ((ptr + 2 ^ 32 - header) % 2 ^ 32) h.blocks) [
      | none ↦ none
      | some b ↦ if leb size b.size then some (ptr, h) else move_block ptr size h
    ]
