-- ===== src/Mm/Kmalloc/Claim.antt =====
-- Taking a free block of src/mm/kmalloc.c's list, with the split of a block that is larger.
use cro_os.Base.{
  ℕ, ◌+◌, ◌-◌, ◌%◌, ◌^◌, ◌≤◌, ◌<◌, ◌≡◌, refl, true, false, some, List, [], ◌∷◌, ltb, ◌==◌, arith,
  Bool-cases, inl, inr,
}
use cro_os.Mm.Kmalloc.{Block, kheap_start, header, split_block, claim, find_block}
use cro_os.Mm.Kmalloc.Tiles.{Tiles, Tiles-le, find_block_bounds}

-- What a call that looks for `size` bytes makes of the free block `b` at `a`.
module _ (size a : ℕ) where
  pub claim-Tiles :
      (bs : List Block) (s e : ℕ) {b : Block}
      → kheap_start ≤ s
      → e < 2 ^ 32
      → Tiles s bs e
      → find_block a bs ≡ some b
      → size ≤ b.size
      → Tiles s (claim a size bs) e
  unfolding claim find_block split_block
  claim-Tiles [] s e lo hi t f fits = cc
  claim-Tiles (c ∷ bs) s e {b} lo hi t f fits = elim (Bool-cases (c.addr == a)) [
    | inl same ↦
        let f' : some c ≡ some b = rw same at f in
        let le = Tiles-le bs (s + header + c.size) e t.1 in
        rw same (elim (Bool-cases (ltb ((size + header + 16) % 2 ^ 32) c.size)) [
          | inl split ↦
              let e₁ : (c.addr + header + size) % 2 ^ 32 ≡ s + header + size = ground arith in
              let e₂ : s
                    + header
                    + size
                    + header
                    + (c.size + 2 ^ 32 + 2 ^ 32 - size - header) % 2 ^ 32
                  ≡ s + header + c.size =
                ground arith in
              rw split (t.0, (e₁, rw e₂ t.1))
          | inr whole ↦ rw whole t
        ])
    | inr other ↦
        let f' : find_block a bs ≡ some b = rw other at f in
        rw other (t.0, claim-Tiles bs (s + header + c.size) e (omega arith) hi t.1 f' fits)
  ]

  -- The block is found where it was, allocated and large enough.
  pub claim_self :
      (bs : List Block) {b : Block}
      → find_block a bs ≡ some b
      → size ≤ b.size
      → (r : Block) × (find_block a (claim a size bs) ≡ some r) × (r.free ≡ false) × (size ≤ r.size)
  unfolding claim find_block split_block
  claim_self [] f fits = cc
  claim_self (c ∷ bs) {b} f fits = elim (Bool-cases (c.addr == a)) [
    | inl same ↦
        let f' : some c ≡ some b = rw same at f in
        elim (Bool-cases (ltb ((size + header + 16) % 2 ^ 32) c.size)) [
          | inl split ↦ (record c { size = size; free = false }, ground arith, refl, omega arith)
          | inr whole ↦ (record c { free = false }, ground arith, refl, ground arith)
        ]
    | inr other ↦
        let f' : find_block a bs ≡ some b = rw other at f in
        let (r, found, taken, room) = claim_self bs f' fits in (r, ground arith, taken, room)
  ]

  -- A block that is allocated stays as it is.
  pub claim_other :
      (bs : List Block) (s e c : ℕ) {b d : Block}
      → kheap_start ≤ s
      → e < 2 ^ 32
      → Tiles s bs e
      → find_block a bs ≡ some b
      → b.free ≡ true
      → size ≤ b.size
      → find_block c bs ≡ some d
      → d.free ≡ false
      → find_block c (claim a size bs) ≡ some d
  unfolding claim find_block split_block
  claim_other [] s e c lo hi t f free fits g busy = cc
  claim_other (x ∷ bs) s e c {b} {d} lo hi t f free fits g busy = elim (Bool-cases (x.addr == a)) [
    | inl same ↦
        let f' : some x ≡ some b = rw same at f in
        elim (Bool-cases (x.addr == c)) [
          | inl same' ↦ let g' : some x ≡ some d = rw same' at g in absurd (ground arith)
          | inr other' ↦
              let g' : find_block c bs ≡ some d = rw other' at g in
              let behind = find_block_bounds bs (s + header + x.size) e c t.1 g' in
              elim (Bool-cases (ltb ((size + header + 16) % 2 ^ 32) x.size)) [
                | inl split ↦ ground arith
                | inr whole ↦ ground arith
              ]
        ]
    | inr other ↦
        let f' : find_block a bs ≡ some b = rw other at f in
        elim (Bool-cases (x.addr == c)) [
          | inl same' ↦ ground arith
          | inr other' ↦
              let g' : find_block c bs ≡ some d = rw other' at g in
              let ih =
                claim_other bs (s + header + x.size) e c {b = b} {d = d} (omega arith) hi t.1 f'
                  free fits g' busy in
              ground arith
        ]
  ]
