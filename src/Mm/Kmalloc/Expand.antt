-- ===== src/Mm/Kmalloc/Expand.antt =====
-- `expand_heap` of src/mm/kmalloc.c: a new block at the end of the heap, or no more pages.
use cro_os.Base.{
  ℕ, zero, suc, ◌+◌, ◌-◌, ◌*◌, ◌%◌, ◌^◌, ◌≤◌, ◌≡◌, refl, ◌∙◌, true, none, some, [], ◌∷◌, ◌++◌, ◌==◌,
  arith, Bool-cases, inl, inr, ◌⊎◌,
}
use cro_os.Mm.Pmm.{Pmm, page_size, pmm_alloc_page}
use cro_os.Mm.Pmm.Bitmap.{count_used-le}
use cro_os.Mm.Pmm.Alloc as PmmAlloc
use cro_os.Mm.Pmm.Alloc.{Takes, Exhausted, pmm_alloc_page_lem}
use cro_os.Mm.Kmalloc.{
  Heap, kheap_start, header, take_pages, pages_needed, new_block, expand_heap, find_block,
}
use cro_os.Mm.Kmalloc.Tiles.{
  Tiles-append, find_block_end, find_block-append, find_block-append_none,
}
use cro_os.Mm.Kmalloc.Valid.{IsValid, Grants, Refuses}

-- Pages taken in vain stay taken: the count of used pages never falls.
pub take_pages_lem :
    (n : ℕ) (m : Pmm)
    → PmmAlloc.IsValid m
    → PmmAlloc.IsValid (take_pages n m).1
      × (m.used_pages ≤ (take_pages n m).1.used_pages)
      × ((take_pages n m).0 ≡ true → m.used_pages + n ≤ (take_pages n m).1.used_pages)
unfolding take_pages
take_pages_lem zero m v = (v, omega arith, λ h. omega arith)
take_pages_lem (suc n) m v = elim (pmm_alloc_page_lem m v) [
  | inl (p, t) ↦
      let (v', le, took) = take_pages_lem n (pmm_alloc_page m).1 t.valid in
      elim (Bool-cases ((pmm_alloc_page m).0 == 0)) [
        | inl null ↦ rw null (t.valid, omega (arith, t.one_more), λ h. cc)
        | inr page ↦ rw page (v', omega (arith, t.one_more), λ h. omega (arith, t.one_more, took h))
      ]
  | inr full ↦ rw full.unchanged (v, omega arith, λ h. cc)
]

-- `size` is small enough for the sizes of `expand_heap` not to wrap.
abbrev pub IsSmall : ℕ → Type 0
IsSmall size = size + header + page_size ≤ 2 ^ 32

pub record Expands (size : ℕ) (h : Heap) (h' : Heap) : Type 0 where
  pub added : h'.blocks ≡ h.blocks ++ (new_block size h ∷ [])
  pub large : size ≤ (new_block size h).size
  pub valid : IsValid h'

pub pages_needed_enough : (size : ℕ) → IsSmall size → header + size ≤ pages_needed size * page_size
unfolding pages_needed
pages_needed_enough size small = omega arith

-- The heap behind a successful `expand_heap`.
abbrev pub expanded : ℕ → Heap → Heap
expanded size h = record h {
  blocks = h.blocks ++ (new_block size h ∷ []);
  heap_current = (h.heap_current + pages_needed size * page_size) % 2 ^ 32;
  pmm = (take_pages (pages_needed size) h.pmm).1;
}

expanded-Expands :
    (size : ℕ) (h : Heap)
    → IsSmall size
    → IsValid h
    → (take_pages (pages_needed size) h.pmm).0 ≡ true
    → Expands size h (expanded size h)
unfolding new_block
expanded-Expands size h small v got =
    let (pv, le, took) = take_pages_lem (pages_needed size) h.pmm v.pmm_valid in
    let pmm' : Pmm = (take_pages (pages_needed size) h.pmm).1 in
    let count = count_used-le pmm'.bitmap pmm'.total_pages in
    let enough = pages_needed_enough size small in
    let more = took got in
    let e : (h.heap_current + pages_needed size * page_size) % 2 ^ 32
        ≡ h.heap_current + pages_needed size * page_size =
      omega (arith, v.grown, pv.counted, pv.small) in
    let e' : header + (pages_needed size * page_size + 2 ^ 32 - header) % 2 ^ 32
        ≡ pages_needed size * page_size =
      omega (arith, e, v.grown, pv.counted, pv.small) in
    record {
      added = refl;
      large = omega (arith, e', enough);
      valid = record {
        tiled =
            Tiles-append h.blocks (new_block size h ∷ []) kheap_start h.heap_current
              ((h.heap_current + pages_needed size * page_size) % 2 ^ 32) v.tiled
              (refl, omega (arith, e, e'));
        grown = omega (arith, e, more, v.grown);
        pmm_valid = pv;
      };
    }

pub expand_heap-cases :
    (size : ℕ) (h : Heap)
    → IsSmall size
    → IsValid h
    → (((expand_heap size h).0 ≡ some (new_block size h))
        × ((expand_heap size h).1 ≡ expanded size h)
        × Expands size h (expanded size h))
      ⊎ (((expand_heap size h).0 ≡ none) × Refuses h (0, (expand_heap size h).1))
unfolding expand_heap
expand_heap-cases size h small v = elim (Bool-cases (take_pages (pages_needed size) h.pmm).0) [
  | inl got ↦ inl (rw got refl, rw got refl, expanded-Expands size h small v got)
  | inr failed ↦
      let (pv, le, took) = take_pages_lem (pages_needed size) h.pmm v.pmm_valid in
      inr (
        rw failed refl,
        rw failed (record {
          null = refl;
          same_blocks = refl;
          same_end = refl;
          valid = record { tiled = v.tiled; grown = omega (arith, le, v.grown); pmm_valid = pv };
        }),
      )
]

-- A grant in a heap that was just expanded is one in the heap before.
pub Expands-Grants :
    (size : ℕ) (h : Heap) (r : ℕ × Heap)
    → Expands size h (expanded size h)
    → Grants size (expanded size h) r
    → Grants size h r
Expands-Grants size h r x g = record {
  block = g.block;
  found = g.found;
  taken = g.taken;
  room = g.room;
  inside = g.inside;
  fresh = λ d f. g.fresh d (find_block-append h.blocks (new_block size h ∷ []) (r.0 - header) f);
  kept = λ c d f busy. g.kept c d (find_block-append h.blocks (new_block size h ∷ []) c f) busy;
  valid = g.valid;
}

pub find_new_block :
    (size : ℕ) (h : Heap)
    → IsValid h
    → find_block h.heap_current (h.blocks ++ (new_block size h ∷ [])) ≡ some (new_block size h)
unfolding find_block new_block
find_new_block size h v =
    find_block-append_none h.blocks (new_block size h ∷ []) h.heap_current
      (find_block_end h.blocks kheap_start h.heap_current h.heap_current v.tiled (omega arith))
    ∙ ground arith
