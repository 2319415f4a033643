-- ===== src/Mm/Kmalloc/Release.antt =====
-- `kfree` of src/mm/kmalloc.c: the block becomes free, grows over a free neighbour behind it, and
-- no other allocation changes.
use cro_os.Base.{
  ℕ, ◌+◌, ◌-◌, ◌%◌, ◌^◌, ◌≤◌, ◌<◌, ◌≡◌, ◌≢◌, refl, subst, true, false, some, List, [], ◌∷◌, ◌==◌,
  arith, Bool-cases, inl, inr, ◌⊎◌, ==→eq, eq→==, ne→==,
}
use cro_os.Mm.Kmalloc.{
  Block, Heap, kheap_start, header, merge_next, release, find_block, kmalloc, kfree,
}
use cro_os.Mm.Kmalloc.Tiles.{Tiles, Tiles-le, find_block_bounds}
use cro_os.Mm.Kmalloc.Valid.{IsValid, heap_current-lt, Keeps, Grants, Refuses}
use cro_os.Mm.Kmalloc.Expand.{IsSmall}
use cro_os.Mm.Kmalloc.Alloc.{kmalloc_lem}

-- `bs'` is `bs` with the block `b` at `a` free and every other allocated block as it was.
record Releases (s e a : ℕ) (b : Block) (bs bs' : List Block) : Type 0 where
  block : Block
  returns : release a bs ≡ some bs'
  tiled : Tiles s bs' e
  found : find_block a bs' ≡ some block
  free : block.free ≡ true
  no_less : b.size ≤ block.size
  kept :
      (c : ℕ) (d : Block)
      → c ≢ a
      → find_block c bs ≡ some d
      → d.free ≡ false
      → find_block c bs' ≡ some d

merge_next-Releases :
    (s e a : ℕ) (b : Block) (bs : List Block)
    → e < 2 ^ 32
    → Tiles s (b ∷ bs) e
    → b.addr ≡ a
    → Releases s e a b (b ∷ bs) (merge_next b bs)
unfolding release merge_next find_block
merge_next-Releases s e a b [] hi t at = record {
  block = record b { free = true };
  returns = rw (eq→== b.addr a at) refl;
  tiled = t;
  found = rw (eq→== b.addr a at) refl;
  free = refl;
  no_less = omega arith;
  kept = λ c d ne f busy. ground arith;
}
merge_next-Releases s e a b (x ∷ bs) hi t at =
    let le = Tiles-le bs (s + header + b.size + header + x.size) e t.1.1 in
    let e₁ : (b.size + (header + x.size)) % 2 ^ 32 ≡ b.size + (header + x.size) = omega arith in
    let e₂ : s + header + (b.size + (header + x.size)) ≡ s + header + b.size + header + x.size =
      omega arith in
    elim (Bool-cases x.free) [
      | inl free ↦ record {
        block = record b { size = (b.size + (header + x.size)) % 2 ^ 32; free = true };
        returns = rw (eq→== b.addr a at) refl;
        tiled = rw (free, e₁) (t.0, rw e₂ t.1.1);
        found = rw (free, eq→== b.addr a at) refl;
        free = refl;
        no_less = omega (arith, e₁);
        kept = λ c d ne f busy. ground arith;
      }
      | inr busy ↦ record {
        block = record b { free = true };
        returns = rw (eq→== b.addr a at) refl;
        tiled = rw busy t;
        found = rw (busy, eq→== b.addr a at) refl;
        free = refl;
        no_less = omega arith;
        kept = λ c d ne f taken. ground arith;
      }
    ]

release-Releases :
    (s e a : ℕ) (bs : List Block) {b : Block}
    → e < 2 ^ 32
    → Tiles s bs e
    → find_block a bs ≡ some b
    → (bs' : List Block) × Releases s e a b bs bs'
unfolding release find_block
release-Releases s e a [] hi t f = cc
release-Releases s e a (x ∷ bs) {b} hi t f = elim (Bool-cases (x.addr == a)) [
  | inl same ↦
      let f' : x ≡ b = ground arith in
      (
        merge_next x bs,
        subst (λ y. Releases s e a y (x ∷ bs) (merge_next x bs)) f'
            (merge_next-Releases s e a x bs hi t (==→eq _ _ same)),
      )
  | inr other ↦
      let f' : find_block a bs ≡ some b = rw other at f in
      let (bs', r) = release-Releases (s + header + x.size) e a bs hi t.1 f' in
      (
        x ∷ bs',
        record {
          block = r.block;
          returns = rw (other, r.returns) refl;
          tiled = (t.0, r.tiled);
          found = rw other r.found;
          free = r.free;
          no_less = r.no_less;
          kept = λ c d ne g busy. elim (Bool-cases (x.addr == c)) [
            | inl same ↦ ground arith
            | inr differs ↦
                let g' : find_block c bs ≡ some d = rw differs at g in
                rw differs (r.kept c d ne g' busy)
          ];
        },
      )
]

-- What freeing the pointer `ptr` to the block `b` of `h` makes of the heap.
pub record Frees (ptr : ℕ) (b : Block) (h h' : Heap) : Type 0 where
  pub block : Block
  pub returns : kfree ptr h ≡ some h'
  pub found : find_block (ptr - header) h'.blocks ≡ some block
  pub free : block.free ≡ true
  pub no_less : b.size ≤ block.size
  pub kept :
      (c : ℕ) (d : Block)
      → c ≢ ptr - header
      → find_block c h.blocks ≡ some d
      → d.free ≡ false
      → find_block c h'.blocks ≡ some d
  pub valid : IsValid h'

-- `kfree` of a pointer to a block of a valid heap returns with a valid heap, in which that block
-- is free and at least as large as it was, and every other allocated block is unchanged.
pub kfree_lem :
    (ptr : ℕ) (h : Heap) {b : Block}
    → IsValid h
    → header ≤ ptr
    → find_block (ptr - header) h.blocks ≡ some b
    → (h' : Heap) × Frees ptr b h h'
unfolding kfree
kfree_lem ptr h {b} v low f =
    let small = heap_current-lt h v in
    let bounds = find_block_bounds h.blocks kheap_start h.heap_current (ptr - header) v.tiled f in
    let at : (ptr + 2 ^ 32 - header) % 2 ^ 32 ≡ ptr - header = omega arith in
    let nonnull : (ptr == 0) ≡ false = ne→== ptr 0 (omega arith) in
    let (bs', r) =
      release-Releases kheap_start h.heap_current (ptr - header) h.blocks (omega arith) v.tiled f in
    (
      record h { blocks = bs' },
      record {
        block = r.block;
        returns = rw (nonnull, at, r.returns) refl;
        found = r.found;
        free = r.free;
        no_less = r.no_less;
        kept = r.kept;
        valid = record { tiled = r.tiled; grown = v.grown; pmm_valid = v.pmm_valid };
      },
    )

-- The heap `h'` behind a call of `kmalloc` in `h` that returned `r` and the `kfree` of what it
-- returned.
pub record Undoes (h : Heap) (r : ℕ × Heap) (h' : Heap) : Type 0 where
  pub returns : kfree r.0 r.1 ≡ some h'
  pub kept : Keeps h h'
  pub free : (b : Block) → find_block (r.0 - header) h'.blocks ≡ some b → b.free ≡ true
  pub valid : IsValid h'

Grants-Undoes : (size : ℕ) (h : Heap) (r : ℕ × Heap) → Grants size h r → (h' : Heap) × Undoes h r h'
Grants-Undoes size h r g =
    let (h', f) = kfree_lem r.0 r.1 g.valid (omega arith) g.found in
    (
      h',
      record {
        returns = f.returns;
        kept = λ c d found busy.
            let moved : c ≡ r.0 - header → d.free ≡ true =
              λ at. g.fresh d (subst (λ x. find_block x h.blocks ≡ some d) at found) in
            f.kept c d (λ at. cc (moved at)) (g.kept c d found busy) busy;
        free = λ b found. ground (arith, found, f.found, f.free);
        valid = f.valid;
      },
    )

-- What `kmalloc` grants in a valid heap can be freed: the heap is valid again, the block is free,
-- and all that was allocated before the call of `kmalloc` is as it was. When it grants nothing,
-- the blocks are the same.
pub kfree-kmalloc :
    (size : ℕ) (h : Heap)
    → IsSmall size
    → IsValid h
    → ((h' : Heap) × Undoes h (kmalloc size h) h') ⊎ Refuses h (kmalloc size h)
kfree-kmalloc size h small v = elim (kmalloc_lem size h small v) [
  | inl g ↦ inl (Grants-Undoes size h (kmalloc size h) g)
  | inr n ↦ inr n
]
