-- ===== src/Mm/Kmalloc/Valid.antt =====
-- The invariant of the heap of src/mm/kmalloc.c, and what a call of `kmalloc` may return.
use cro_os.Base.{ℕ, ◌+◌, ◌-◌, ◌*◌, ◌%◌, ◌^◌, ◌≤◌, ◌≡◌, true, false, some, arith}
use cro_os.Mm.Pmm.{page_size, bitmap_size}
use cro_os.Mm.Pmm.Bitmap.{count_used-le}
use cro_os.Mm.Pmm.Alloc as PmmAlloc
use cro_os.Mm.Pmm.Alloc.{Takes, Exhausted, pmm_alloc_page_lem}
use cro_os.Mm.Kmalloc.{Block, Heap, kheap_start, header, claim, find_block}
use cro_os.Mm.Kmalloc.Tiles.{Tiles, find_block_bounds}
use cro_os.Mm.Kmalloc.Claim.{claim-Tiles, claim_self, claim_other}

-- The blocks fill the heap from its start to `heap_current`, which has passed one page at most
-- for each page that is used.
pub record IsValid (h : Heap) : Type 0 where
  pub tiled : Tiles kheap_start h.blocks h.heap_current
  pub grown : h.heap_current ≤ kheap_start + h.pmm.used_pages * page_size
  pub pmm_valid : PmmAlloc.IsValid h.pmm

pub heap_current-lt :
    (h : Heap) → IsValid h → h.heap_current ≤ kheap_start + 8 * bitmap_size * page_size
heap_current-lt h v = omega (
  arith,
  v.grown,
  v.pmm_valid.counted,
  v.pmm_valid.small,
  count_used-le h.pmm.bitmap h.pmm.total_pages,
)

-- Every block that `h` has allocated is the same in `h'`.
abbrev pub Keeps : Heap → Heap → Type 0
Keeps h h' =
    (c : ℕ) (d : Block)
    → find_block c h.blocks ≡ some d
    → d.free ≡ false
    → find_block c h'.blocks ≡ some d

-- `r` is the grant of a block of at least `size` bytes that was not allocated in `h`.
pub record Grants (size : ℕ) (h : Heap) (r : ℕ × Heap) : Type 0 where
  pub block : Block
  pub found : find_block (r.0 - header) (r.1).blocks ≡ some block
  pub taken : block.free ≡ false
  pub room : size ≤ block.size
  pub inside : (kheap_start + header ≤ r.0) × (r.0 + block.size ≤ (r.1).heap_current)
  pub fresh : (d : Block) → find_block (r.0 - header) h.blocks ≡ some d → d.free ≡ true
  pub kept : Keeps h r.1
  pub valid : IsValid r.1

-- `r` is a refusal: NULL, and a heap with the same blocks.
pub record Refuses (h : Heap) (r : ℕ × Heap) : Type 0 where
  pub null : r.0 ≡ 0
  pub same_blocks : (r.1).blocks ≡ h.blocks
  pub same_end : (r.1).heap_current ≡ h.heap_current
  pub valid : IsValid r.1

abbrev pub claimed : ℕ → Block → Heap → ℕ × Heap
claimed size b h = ((b.addr + header) % 2 ^ 32, record h { blocks = claim b.addr size h.blocks })

pub claimed-Grants :
    (size : ℕ) (b : Block) (h : Heap)
    → IsValid h
    → find_block b.addr h.blocks ≡ some b
    → b.free ≡ true
    → size ≤ b.size
    → Grants size h (claimed size b h)
claimed-Grants size b h v f free fits =
    let small = heap_current-lt h v in
    let bounds = find_block_bounds h.blocks kheap_start h.heap_current b.addr v.tiled f in
    let at : (b.addr + header) % 2 ^ 32 - header ≡ b.addr = omega arith in
    let tiled =
      claim-Tiles size b.addr h.blocks kheap_start h.heap_current (omega arith) (omega arith)
        v.tiled f fits in
    let (r, found, taken, room) = claim_self size b.addr h.blocks f fits in
    let new =
      find_block_bounds (claim b.addr size h.blocks) kheap_start h.heap_current b.addr tiled
        found in
    record {
      block = r;
      found = rw at found;
      taken = taken;
      room = room;
      inside = (omega arith, omega arith);
      fresh = λ d g. let g' : find_block b.addr h.blocks ≡ some d = rw at at g in ground arith;
      kept = λ c d g busy.
          claim_other size b.addr h.blocks kheap_start h.heap_current c (omega arith) (omega arith)
            v.tiled f free fits g busy;
      valid = record { tiled = tiled; grown = v.grown; pmm_valid = v.pmm_valid };
    }
