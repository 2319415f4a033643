-- ===== src/Mm/Kmalloc/Tiles.antt =====
-- The blocks of the heap of src/mm/kmalloc.c lie one behind the other, with no gap.
use cro_os.Base.{
  ℕ, ◌+◌, ◌≤◌, ◌<◌, ◌≡◌, refl, true, none, some, List, [], ◌∷◌, ◌++◌, leb, ◌==◌, ◌&&◌, arith,
  Bool-cases, inl, inr,
}
use cro_os.Mm.Kmalloc.{Block, header, find_free, find_block}

-- `bs` fills the addresses from `s` up to `e`.
abbrev pub Tiles : ℕ → List Block → ℕ → Type 0
Tiles s [] e = s ≡ e
Tiles s (b ∷ bs) e = (b.addr ≡ s) × Tiles (s + header + b.size) bs e

pub Tiles-le : (bs : List Block) (s e : ℕ) → Tiles s bs e → s ≤ e
Tiles-le [] s e t = omega arith
Tiles-le (b ∷ bs) s e t = omega (arith, Tiles-le bs (s + header + b.size) e t.1)

pub Tiles-append :
    (bs cs : List Block) (s m e : ℕ) → Tiles s bs m → Tiles m cs e → Tiles s (bs ++ cs) e
Tiles-append [] cs s m e t u = rw t u
Tiles-append (b ∷ bs) cs s m e t u = (t.0, Tiles-append bs cs (s + header + b.size) m e t.1 u)

-- A block that is found has the address asked for, and lies between the ends.
pub find_block_bounds :
    (bs : List Block) (s e a : ℕ) {b : Block}
    → Tiles s bs e
    → find_block a bs ≡ some b
    → (b.addr ≡ a) × (s ≤ a) × (a + header + b.size ≤ e)
unfolding find_block
find_block_bounds [] s e a t h = cc
find_block_bounds (c ∷ bs) s e a {b} t h = elim (Bool-cases (c.addr == a)) [
  | inl same ↦
      let h' : some c ≡ some b = rw same at h in
      let le = Tiles-le bs (s + header + c.size) e t.1 in ground arith
  | inr other ↦
      let h' : find_block a bs ≡ some b = rw other at h in
      let ih = find_block_bounds bs (s + header + c.size) e a t.1 h' in omega arith
]

-- Nothing is found from the end of the blocks on.
pub find_block_end : (bs : List Block) (s e a : ℕ) → Tiles s bs e → e ≤ a → find_block a bs ≡ none
unfolding find_block
find_block_end [] s e a t h = refl
find_block_end (c ∷ bs) s e a t h =
    let le = Tiles-le bs (s + header + c.size) e t.1 in
    ground (arith, find_block_end bs (s + header + c.size) e a t.1 h)

pub find_block_below : (bs : List Block) (s e a : ℕ) → Tiles s bs e → a < s → find_block a bs ≡ none
unfolding find_block
find_block_below [] s e a t h = refl
find_block_below (c ∷ bs) s e a t h =
    ground (arith, find_block_below bs (s + header + c.size) e a t.1 (omega arith))

pub find_block-append :
    (bs cs : List Block) (a : ℕ) {b : Block}
    → find_block a bs ≡ some b
    → find_block a (bs ++ cs) ≡ some b
unfolding find_block
find_block-append [] cs a h = cc
find_block-append (c ∷ bs) cs a {b} h = ground (arith, find_block-append bs cs a {b = b})

pub find_block-append_none :
    (bs cs : List Block) (a : ℕ)
    → find_block a bs ≡ none
    → find_block a (bs ++ cs) ≡ find_block a cs
unfolding find_block
find_block-append_none [] cs a h = refl
find_block-append_none (c ∷ bs) cs a h = ground (arith, find_block-append_none bs cs a)

-- Two blocks at different addresses do not overlap: neither begins inside the other.
pub find_block_disjoint :
    (bs : List Block) (s e a c : ℕ) {b d : Block}
    → Tiles s bs e
    → find_block a bs ≡ some b
    → find_block c bs ≡ some d
    → a < c
    → a + header + b.size ≤ c
unfolding find_block
find_block_disjoint [] s e a c t ha hc lt = cc
find_block_disjoint (x ∷ bs) s e a c {b} {d} t ha hc lt = elim (Bool-cases (x.addr == a)) [
  | inl same ↦
      let ha' : some x ≡ some b = rw same at ha in
      elim (Bool-cases (x.addr == c)) [
        | inl same' ↦ absurd (ground arith)
        | inr other' ↦
            let hc' : find_block c bs ≡ some d = rw other' at hc in
            let in_rest = find_block_bounds bs (s + header + x.size) e c t.1 hc' in ground arith
      ]
  | inr other ↦
      let ha' : find_block a bs ≡ some b = rw other at ha in
      elim (Bool-cases (x.addr == c)) [
        | inl same' ↦
            let in_rest = find_block_bounds bs (s + header + x.size) e a t.1 ha' in
            absurd (ground arith)
        | inr other' ↦
            let hc' : find_block c bs ≡ some d = rw other' at hc in
            find_block_disjoint bs (s + header + x.size) e a c t.1 ha' hc' lt
      ]
]

-- `find_free` finds a free block of the heap that is large enough.
pub find_free_lem :
    (bs : List Block) (s e size : ℕ) {b : Block}
    → Tiles s bs e
    → find_free size bs ≡ some b
    → (find_block b.addr bs ≡ some b) × (b.free ≡ true) × (size ≤ b.size)
unfolding find_free find_block
find_free_lem [] s e size t h = cc
find_free_lem (c ∷ bs) s e size {b} t h = elim (Bool-cases (c.free && leb size c.size)) [
  | inl fits ↦ let h' : some c ≡ some b = rw fits at h in ground arith
  | inr passes ↦
      let h' : find_free size bs ≡ some b = rw passes at h in
      let ih = find_free_lem bs (s + header + c.size) e size t.1 h' in
      let bounds = find_block_bounds bs (s + header + c.size) e b.addr t.1 ih.0 in ground arith
]
