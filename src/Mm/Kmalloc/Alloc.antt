-- ===== src/Mm/Kmalloc/Alloc.antt =====
-- `kmalloc` of src/mm/kmalloc.c: what an allocation returns and what it leaves alone.
use cro_os.Base.{ℕ, ◌≡◌, refl, false, none, ◌==◌, Bool-cases, Option-cases, inl, inr, ◌⊎◌}
use cro_os.Mm.Kmalloc.{Heap, kheap_start, find_free, new_block, kmalloc}
use cro_os.Mm.Kmalloc.Tiles.{find_free_lem}
use cro_os.Mm.Kmalloc.Valid.{IsValid, Grants, Refuses, claimed, claimed-Grants}
use cro_os.Mm.Kmalloc.Expand.{IsSmall, expanded, expand_heap-cases, Expands-Grants, find_new_block}

kmalloc_expanding :
    (size : ℕ) (h : Heap)
    → IsSmall size
    → IsValid h
    → (size == 0) ≡ false
    → find_free size h.blocks ≡ none
    → Grants size h (kmalloc size h) ⊎ Refuses h (kmalloc size h)
unfolding kmalloc
kmalloc_expanding size h small v pos none_free = elim (expand_heap-cases size h small v) [
  | inl (e, e', x) ↦
      rw (pos, none_free, e, e')
        (inl (
          Expands-Grants size h (claimed size (new_block size h) (expanded size h)) x (
            claimed-Grants size (new_block size h) (expanded size h) x.valid
              (unfold new_block in find_new_block size h v) (unfold new_block in refl) x.large)))
  | inr (e, x) ↦ rw (pos, none_free, e) (inr x)
]

-- A call of `kmalloc` for a size that does not wrap either grants a block, at least as large as
-- asked for, inside the heap and not allocated before, or returns NULL with the same blocks. Both
-- ways every allocated block stays as it was and the heap stays valid.
pub kmalloc_lem :
    (size : ℕ) (h : Heap)
    → IsSmall size
    → IsValid h
    → Grants size h (kmalloc size h) ⊎ Refuses h (kmalloc size h)
unfolding kmalloc
kmalloc_lem size h small v = elim (Bool-cases (size == 0)) [
  | inl zero_size ↦
      rw zero_size (inr (record { null = refl; same_blocks = refl; same_end = refl; valid = v }))
  | inr pos ↦ elim (Option-cases (find_free size h.blocks)) [
    | inl none_free ↦ unfold kmalloc in kmalloc_expanding size h small v pos none_free
    | inr (b, found) ↦
        let (f, free, fits) =
          find_free_lem h.blocks kheap_start h.heap_current size v.tiled found in
        rw (pos, found) (inl (claimed-Grants size b h v f free fits))
  ]
]
