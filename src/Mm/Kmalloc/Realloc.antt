-- ===== src/Mm/Kmalloc/Realloc.antt =====
-- `kcalloc` and `krealloc` of src/mm/kmalloc.c: the bytes of the payloads.
use cro_os.Base.{
  ℕ, ◌+◌, ◌-◌, ◌*◌, ◌%◌, ◌^◌, ◌≤◌, ◌<◌, ◌≡◌, ◌≢◌, refl, sym, ◌∙◌, ap, subst, true, false, some, leb,
  ◌==◌, arith, inl, inr, ◌⊎◌, eq→==, ne→==,
}
use cro_os.Mm.Kmalloc.{
  Block, Heap, kheap_start, header, expand_heap, find_block, kmalloc, kfree, kcalloc, krealloc,
  move_block, fill, copy,
}
use cro_os.Mm.Kmalloc.Tiles.{find_block_bounds}
use cro_os.Mm.Kmalloc.Valid.{IsValid, heap_current-lt, Grants, Refuses}
use cro_os.Mm.Kmalloc.Expand.{IsSmall}
use cro_os.Mm.Kmalloc.Alloc.{kmalloc_lem}
use cro_os.Mm.Kmalloc.Release.{kfree_lem}

memory-expand_heap : (size : ℕ) (h : Heap) → (expand_heap size h).1.memory ≡ h.memory
unfolding expand_heap
memory-expand_heap size h = ground arith

-- An allocation changes no payload.
pub memory-kmalloc : (size : ℕ) (h : Heap) → (kmalloc size h).1.memory ≡ h.memory
unfolding kmalloc
memory-kmalloc size h = ground (arith, memory-expand_heap size h)

memory-kfree : (ptr : ℕ) (h : Heap) {h' : Heap} → kfree ptr h ≡ some h' → h'.memory ≡ h.memory
unfolding kfree
memory-kfree ptr h e = ground arith

-- What `kcalloc` returns beside the grant of `total` bytes.
pub record Zeroed (total : ℕ) (h : Heap) (r : ℕ × Heap) : Type 0 where
  pub grants : Grants total h r
  pub zero_inside : (i : ℕ) → i < total → (r.1).memory (r.0 + i) ≡ 0
  pub same_outside : (x : ℕ) → (x < r.0) ⊎ (r.0 + total ≤ x) → (r.1).memory x ≡ h.memory x

-- When the product does not wrap, `kcalloc` grants that many bytes, all zero, and changes no byte
-- outside of them; or it refuses as `kmalloc` does.
pub kcalloc_lem :
    (count size : ℕ) (h : Heap)
    → IsSmall (count * size)
    → IsValid h
    → Zeroed (count * size) h (kcalloc count size h) ⊎ Refuses h (kcalloc count size h)
unfolding kcalloc fill
kcalloc_lem count size h small v =
    let e : count * size % 2 ^ 32 ≡ count * size = omega arith in
    elim (kmalloc_lem (count * size) h small v) [
      | inl g ↦
          let nonnull : ((kmalloc (count * size) h).0 == 0) ≡ false =
            ne→== (kmalloc (count * size) h).0 0 (omega (arith, g.inside)) in
          rw (e, nonnull)
            (inl (record {
              grants = record {
                block = g.block;
                found = g.found;
                taken = g.taken;
                room = g.room;
                inside = g.inside;
                fresh = g.fresh;
                kept = g.kept;
                valid = record {
                  tiled = g.valid.tiled;
                  grown = g.valid.grown;
                  pmm_valid = g.valid.pmm_valid;
                };
              };
              zero_inside = λ i hi. ground arith;
              same_outside =
                  λ x hx. ground (arith, ap (λ m. m x) (memory-kmalloc (count * size) h));
            }))
      | inr n ↦ rw (e, eq→== (kmalloc (count * size) h).0 0 n.null) (inr n)
    ]

-- The block `b` behind `ptr` moved to the larger block that `kmalloc` granted as `r`.
pub record Moves (ptr size : ℕ) (b : Block) (h : Heap) (r : ℕ × Heap) (h' : Heap) : Type 0 where
  pub returns : krealloc ptr size h ≡ some (r.0, h')
  pub grants : Grants size h r
  pub contents : (i : ℕ) → i < b.size → h'.memory (r.0 + i) ≡ h.memory (ptr + i)
  pub new_block : find_block (r.0 - header) h'.blocks ≡ some grants.block
  pub old_free : (d : Block) → find_block (ptr - header) h'.blocks ≡ some d → d.free ≡ true
  pub valid : IsValid h'

copy_inside :
    (dst src n : ℕ) (mem : ℕ → ℕ) (i : ℕ) → i < n → copy dst src n mem (dst + i) ≡ mem (src + i)
unfolding copy
copy_inside dst src n mem i h = ground arith

move_block_refused :
    (ptr size : ℕ) (h : Heap)
    → (kmalloc size h).0 ≡ 0
    → move_block ptr size h ≡ some (kmalloc size h)
unfolding move_block
move_block_refused ptr size h null = rw (eq→== (kmalloc size h).0 0 null) refl

-- `krealloc` up to the test of the pointer that `kmalloc` returned.
krealloc-move_block :
    (ptr size : ℕ) (h : Heap) {b : Block}
    → IsValid h
    → header ≤ ptr
    → find_block (ptr - header) h.blocks ≡ some b
    → b.size < size
    → ((ptr + 2 ^ 32 - header) % 2 ^ 32 ≡ ptr - header)
      × (krealloc ptr size h ≡ move_block ptr size h)
unfolding krealloc
krealloc-move_block ptr size h {b} v low f grow =
    let small = heap_current-lt h v in
    let bounds = find_block_bounds h.blocks kheap_start h.heap_current (ptr - header) v.tiled f in
    let at : (ptr + 2 ^ 32 - header) % 2 ^ 32 ≡ ptr - header = omega arith in
    let e₁ : (ptr == 0) ≡ false = ne→== ptr 0 (omega arith) in
    let e₂ : (size == 0) ≡ false = ne→== size 0 (omega arith) in
    let e₃ : leb size b.size ≡ false = ground arith in (at, rw (e₁, e₂, at, f, e₃) refl)

grant-Moves :
    (ptr size : ℕ) (h : Heap) {b : Block}
    → IsValid h
    → header ≤ ptr
    → find_block (ptr - header) h.blocks ≡ some b
    → b.free ≡ false
    → b.size < size
    → Grants size h (kmalloc size h)
    → (h' : Heap) × Moves ptr size b h (kmalloc size h) h'
unfolding move_block
grant-Moves ptr size h {b} v low f busy grow g =
    let r : ℕ × Heap = kmalloc size h in
    let (at, enters) = krealloc-move_block ptr size h v low f grow in
    let h₁ : Heap = record r.1 { memory = copy r.0 ptr b.size (r.1).memory } in
    let v₁ : IsValid h₁ = record {
      tiled = g.valid.tiled;
      grown = g.valid.grown;
      pmm_valid = g.valid.pmm_valid;
    } in
    let still : find_block (ptr - header) (r.1).blocks ≡ some b = g.kept (ptr - header) b f busy in
    let (h', fr) = kfree_lem ptr h₁ v₁ low still in
    let nonnull : (r.0 == 0) ≡ false = ne→== r.0 0 (omega (arith, g.inside)) in
    let apart : r.0 - header ≢ ptr - header = λ same.
      let was_free : b.free ≡ true =
        g.fresh b (subst (λ x. find_block x h.blocks ≡ some b) (sym same) f) in
      cc in
    let bytes : h'.memory ≡ copy r.0 ptr b.size (r.1).memory = memory-kfree ptr h₁ fr.returns in
    (
      h',
      record {
        returns = enters ∙ rw (nonnull, at, still, fr.returns) refl;
        grants = g;
        contents = λ i hi.
            ap (λ m. m (r.0 + i)) bytes
            ∙ copy_inside r.0 ptr b.size (r.1).memory i hi
            ∙ ap (λ m. m (ptr + i)) (memory-kmalloc size h);
        new_block = fr.kept (r.0 - header) g.block apart g.found g.taken;
        old_free = λ d found. ground (arith, found, fr.found, fr.free);
        valid = fr.valid;
      },
    )

-- Growing an allocated block beyond its size gives a block that was not allocated before, holds
-- at least `size` bytes and begins with the old block's bytes, and frees the old block; if
-- `kmalloc` refuses, `krealloc` returns NULL and the blocks, the old one too, are the same.
pub krealloc_grow :
    (ptr size : ℕ) (h : Heap) {b : Block}
    → IsValid h
    → IsSmall size
    → header ≤ ptr
    → find_block (ptr - header) h.blocks ≡ some b
    → b.free ≡ false
    → b.size < size
    → ((h' : Heap) × Moves ptr size b h (kmalloc size h) h')
      ⊎ ((krealloc ptr size h ≡ some (kmalloc size h)) × Refuses h (kmalloc size h))
krealloc_grow ptr size h {b} v small low f busy grow = elim (kmalloc_lem size h small v) [
  | inl g ↦ inl (grant-Moves ptr size h v low f busy grow g)
  | inr n ↦ inr (refused n, n)
]
  where
    refused : Refuses h (kmalloc size h) → krealloc ptr size h ≡ some (kmalloc size h)
    refused =
        λ n. (krealloc-move_block ptr size h v low f grow).1 ∙ move_block_refused ptr size h n.null
