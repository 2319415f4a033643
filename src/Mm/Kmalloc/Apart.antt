-- ===== src/Mm/Kmalloc/Apart.antt =====
-- `kmalloc` of src/mm/kmalloc.c: the bytes that it hands out belong to nobody else.
use cro_os.Base.{
  ℕ, ◌+◌, ◌-◌, ◌≤◌, ◌<◌, ◌≡◌, ◌≢◌, sym, ◌∙◌, subst, true, false, some, inl, inr, ◌⊎◌, arith,
}
use cro_os.Mm.Kmalloc.{Block, Heap, header, kheap_start, find_block, kmalloc}
use cro_os.Mm.Kmalloc.Tiles.{find_block_disjoint}
use cro_os.Mm.Kmalloc.Valid.{IsValid, Grants}
use cro_os.Mm.Kmalloc.Expand.{IsSmall}
use cro_os.Mm.Kmalloc.Alloc.{kmalloc_lem}

-- The heap has an allocated block `d` whose data is at `q`.
pub record IsAllocated (h : Heap) (q : ℕ) (d : Block) : Type 0 where
  pub behind_header : header ≤ q
  pub found : find_block (q - header) h.blocks ≡ some d
  pub taken : d.free ≡ false

Grants-apart :
    (size : ℕ) (h : Heap) (r : ℕ × Heap) (q : ℕ) (d : Block)
    → Grants size h r
    → IsAllocated h q d
    → (r.0 + size ≤ q) ⊎ (q + d.size ≤ r.0)
Grants-apart size h r q d g a =
    let kept = g.kept (q - header) d a.found a.taken in
    let differ : r.0 - header ≢ q - header = λ e.
      let free : d.free ≡ true =
        g.fresh d (subst (λ x. find_block x h.blocks ≡ some d) (sym e) a.found) in
      let bad : false ≡ true = sym a.taken ∙ free in cc in
    elim (order (r.0 - header) (q - header) differ) [
      | inl less ↦
          let b =
            find_block_disjoint (r.1).blocks kheap_start (r.1).heap_current (r.0 - header)
              (q - header) g.valid.tiled g.found kept less in
          inl (omega (arith, b, g.room, g.inside, a.behind_header))
      | inr more ↦
          let b =
            find_block_disjoint (r.1).blocks kheap_start (r.1).heap_current (q - header)
              (r.0 - header) g.valid.tiled kept g.found more in
          inr (omega (arith, b, g.inside, a.behind_header))
    ]
  where
    order : (x y : ℕ) → x ≢ y → (x < y) ⊎ (y < x)
    order x y ne = ground arith

-- In a valid heap, what `kmalloc` returns for a size that does not wrap, if it is not NULL, begins that
-- many bytes at least before the data of every allocated block, or behind its end: the bytes handed out
-- are nobody else's.
pub kmalloc_apart :
    (size : ℕ) (h : Heap) (q : ℕ) (d : Block)
    → IsSmall size
    → IsValid h
    → IsAllocated h q d
    → (kmalloc size h).0 ≢ 0
    → ((kmalloc size h).0 + size ≤ q) ⊎ (q + d.size ≤ (kmalloc size h).0)
kmalloc_apart size h q d small v a ne = elim (kmalloc_lem size h small v) [
  | inl g ↦ Grants-apart size h (kmalloc size h) q d g a
  | inr no_block ↦ absurd (ne no_block.null)
]
