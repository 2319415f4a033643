-- ===== src/Mm/Pmm/Alloc.antt =====
-- `pmm_alloc_page` and `pmm_free_page` of src/mm/pmm.c: the accounts of the allocator, which page
-- is handed out, and what a page that is given back restores.
use cro_os.Base.{
  ℕ, zero, suc, ◌+◌, ◌-◌, ◌*◌, ◌/◌, ◌%◌, ◌^◌, ◌≤◌, ◌<◌, ◌≡◌, refl, ◌∙◌, arith, ◌==◌, ltb, get_or,
  sym, get_or_ext, if◌then◌else◌, ==→eq, ==→ne, ltb→lt, ltb→le, length, Bool-cases, inl, inr, ◌⊎◌,
}
use cro_os.Base.Bits.{test_bit, test_bit_ext}
use cro_os.Mm.Pmm.{
  Pmm, page_size, bitmap_size, bitmap_set, bitmap_clear, bitmap_test, alloc_from, pmm_alloc_page,
  pmm_free_page, pmm_get_free_pages,
}
use cro_os.Mm.Pmm.Bitmap.{
  used, IsBytes, bitmap_test-eq-zero, bitmap_test-ne-zero, used-bitmap_set, used-bitmap_clear,
  length-bitmap_set, length-bitmap_clear, bitmap_set-IsBytes, bitmap_clear-IsBytes, count_used,
  count_used-le, count_used-change,
}

-- The bitmap covers the pages, and `used_pages` counts the pages that it marks.
pub record IsValid (m : Pmm) : Type 0 where
  pub covers : length m.bitmap ≡ bitmap_size
  pub small : m.total_pages ≤ 8 * bitmap_size
  pub bytes : IsBytes m.bitmap
  pub counted : m.used_pages ≡ count_used m.bitmap m.total_pages

-- `r` is what an allocation in `m` returns if it takes page `p`, the first free one.
pub record Takes (m : Pmm) (p : ℕ) (r : ℕ × Pmm) : Type 0 where
  pub inside : p < m.total_pages
  pub was_free : used m.bitmap p ≡ 0
  pub first : (q : ℕ) → q < p → used m.bitmap q ≡ 1
  pub address : r.0 ≡ p * page_size
  pub marked : (q : ℕ) → used (r.1).bitmap q ≡ (if p == q then 1 else used m.bitmap q)
  pub same_total : (r.1).total_pages ≡ m.total_pages
  pub one_more : (r.1).used_pages ≡ m.used_pages + 1
  pub valid : IsValid r.1

-- The memory is full: the allocation returns NULL and changes nothing.
pub record Exhausted (m : Pmm) (r : ℕ × Pmm) : Type 0 where
  pub all_used : (q : ℕ) → q < m.total_pages → used m.bitmap q ≡ 1
  pub unchanged : r ≡ (0, m)

taken : Pmm → ℕ → ℕ × Pmm
taken m i = (
  i * page_size % 2 ^ 32,
  record m { bitmap = bitmap_set m.bitmap i; used_pages = (m.used_pages + 1) % 2 ^ 32 },
)

taken-Takes :
    (m : Pmm) (p : ℕ)
    → IsValid m
    → p < m.total_pages
    → used m.bitmap p ≡ 0
    → ((q : ℕ) → q < p → used m.bitmap q ≡ 1)
    → Takes m p (taken m p)
unfolding taken
taken-Takes m p v inside free first = record {
  inside = inside;
  was_free = free;
  first = first;
  address = omega arith;
  marked = mark;
  same_total = refl;
  one_more = wraps_not;
  valid = record {
    covers = length-bitmap_set m.bitmap p ∙ v.covers;
    small = v.small;
    bytes = bitmap_set-IsBytes m.bitmap p v.bytes;
    counted = wraps_not ∙ counts;
  };
}
  where
    mark : (q : ℕ) → used (bitmap_set m.bitmap p) q ≡ (if p == q then 1 else used m.bitmap q)
    mark = λ q. used-bitmap_set m.bitmap p q (omega arith)

    wraps_not : (m.used_pages + 1) % 2 ^ 32 ≡ m.used_pages + 1
    wraps_not = omega (arith, count_used-le m.bitmap m.total_pages)

    counts : m.used_pages + 1 ≡ count_used (bitmap_set m.bitmap p) m.total_pages
    counts =
        ground (arith, count_used-change m.bitmap (bitmap_set m.bitmap p) p 1 m.total_pages mark)

alloc_from-cases :
    (left i : ℕ) (m : Pmm)
    → IsValid m
    → i + left ≡ m.total_pages
    → ((q : ℕ) → q < i → used m.bitmap q ≡ 1)
    → ((p : ℕ) × Takes m p (alloc_from left i m)) ⊎ Exhausted m (alloc_from left i m)
unfolding alloc_from
alloc_from-cases zero i m v e before =
    inr (record { all_used = λ q h. before q (omega arith); unchanged = refl })
alloc_from-cases (suc left) i m v e before = elim (Bool-cases (bitmap_test m.bitmap i == 0)) [
  | inl free ↦
      rw (free, alloc_from)
        (inl (
          i,
          unfold taken in
              taken-Takes m i v (omega arith) (bitmap_test-eq-zero m.bitmap i (ground arith))
                before,
        ))
  | inr busy ↦
      rw (busy, alloc_from)
        (alloc_from-cases left (i + 1) m v (omega arith) λ q h. elim (Bool-cases (q == i)) [
          | inl eq ↦
              let eq' : q ≡ i = ground arith in
              rw eq' (bitmap_test-ne-zero m.bitmap i (ground arith))
          | inr ne ↦ before q (ground arith)
        ])
]

-- On a valid allocator `pmm_alloc_page` takes the first free page: it returns that page's address,
-- marks the page and no other, counts it, and leaves a valid allocator; if every page is used it
-- returns NULL and changes nothing.
pub pmm_alloc_page_lem :
    (m : Pmm)
    → IsValid m
    → ((p : ℕ) × Takes m p (pmm_alloc_page m)) ⊎ Exhausted m (pmm_alloc_page m)
unfolding pmm_alloc_page
pmm_alloc_page_lem m v = alloc_from-cases m.total_pages 0 m v (omega arith) (λ q h. elim h [ ])

-- A page address that `pmm_free_page` takes back: inside the memory, and marked.
abbrev pub IsFreeable : ℕ → Pmm → Type 0
IsFreeable addr m = (addr / page_size < m.total_pages) × (used m.bitmap (addr / page_size) ≡ 1)

pub record Freed (m : Pmm) (p : ℕ) (m' : Pmm) : Type 0 where
  pub cleared : (q : ℕ) → used m'.bitmap q ≡ (if p == q then 0 else used m.bitmap q)
  pub same_total : m'.total_pages ≡ m.total_pages
  pub one_less : m'.used_pages + 1 ≡ m.used_pages
  pub valid : IsValid m'

freed : Pmm → ℕ → Pmm
freed m p = record m {
  bitmap = bitmap_clear m.bitmap p;
  used_pages = (m.used_pages + 2 ^ 32 - 1) % 2 ^ 32;
}

freed-Freed :
    (m : Pmm) (p : ℕ) → IsValid m → p < m.total_pages → used m.bitmap p ≡ 1 → Freed m p (freed m p)
unfolding freed
freed-Freed m p v inside marked = record {
  cleared = clear;
  same_total = refl;
  one_less = omega (arith, counts, count_used-le m.bitmap m.total_pages, v.counted);
  valid = record {
    covers = length-bitmap_clear m.bitmap p ∙ v.covers;
    small = v.small;
    bytes = bitmap_clear-IsBytes m.bitmap p v.bytes;
    counted = omega (arith, counts, count_used-le m.bitmap m.total_pages, v.counted);
  };
}
  where
    clear : (q : ℕ) → used (bitmap_clear m.bitmap p) q ≡ (if p == q then 0 else used m.bitmap q)
    clear = λ q. used-bitmap_clear m.bitmap p q (omega arith)

    counts :
        count_used (bitmap_clear m.bitmap p) m.total_pages + 1 ≡ count_used m.bitmap m.total_pages
    counts =
        ground (arith, count_used-change m.bitmap (bitmap_clear m.bitmap p) p 0 m.total_pages clear)

-- `pmm_free_page` of a used page of the memory clears that page's bit and no other, counts one
-- page less and keeps the allocator valid. Any other address, such as one that is freed a second
-- time, changes nothing.
pub pmm_free_page_lem :
    (addr : ℕ) (m : Pmm)
    → IsValid m
    → (IsFreeable addr m × Freed m (addr / page_size) (pmm_free_page addr m))
      ⊎ ((¬ IsFreeable addr m) × (pmm_free_page addr m ≡ m))
unfolding pmm_free_page
pmm_free_page_lem addr m v = elim (Bool-cases (ltb (addr / page_size) m.total_pages)) [
  | inl inside ↦ elim (Bool-cases (bitmap_test m.bitmap (addr / page_size) == 0)) [
    | inl free ↦
        rw (inside, free)
          (inr (
            λ h. omega (arith, bitmap_test-eq-zero m.bitmap (addr / page_size) (==→eq _ _ free)),
            refl,
          ))
    | inr busy ↦
        let marked = bitmap_test-ne-zero m.bitmap (addr / page_size) (==→ne _ _ busy) in
        rw (inside, busy)
          (inl (
            (ltb→lt _ _ inside, marked),
            unfold freed in freed-Freed m (addr / page_size) v (ltb→lt _ _ inside) marked,
          ))
  ]
  | inr outside ↦ rw outside (inr (λ h. omega (arith, ltb→le _ _ outside), refl))
]

same_used :
    (m m' : Pmm)
    → IsValid m
    → IsValid m'
    → m'.total_pages ≡ m.total_pages
    → m'.used_pages ≡ m.used_pages
    → ((q : ℕ) → used m'.bitmap q ≡ used m.bitmap q)
    → m' ≡ m
same_used m m' v v' total count h =
    λ i. record { bitmap = same i; total_pages = total i; used_pages = count i }
  where
    bit_at :
        (i k : ℕ) → k < 8 → test_bit (get_or m'.bitmap i 0) k ≡ test_bit (get_or m.bitmap i 0) k
    bit_at = λ i k hk.
        let e : (i * 8 + k) / 8 ≡ i = omega arith in
        let e' : (i * 8 + k) % 8 ≡ k = omega arith in
        let u : used m'.bitmap (i * 8 + k) ≡ used m.bitmap (i * 8 + k) = h (i * 8 + k) in
        rw (e, e') at u

    same : m'.bitmap ≡ m.bitmap
    same = get_or_ext 0 m'.bitmap m.bitmap (v'.covers ∙ sym v.covers) λ i hi.
        test_bit_ext 8 (get_or m'.bitmap i 0) (get_or m.bitmap i 0) (v'.bytes i) (v.bytes i)
          (bit_at i)

freed_after : (m : Pmm) (p : ℕ) (r : ℕ × Pmm) → IsValid m → Takes m p r → pmm_free_page r.0 r.1 ≡ m
freed_after m p r v t =
    let e : r.0 / page_size ≡ p = omega (arith, t.address) in
    elim (pmm_free_page_lem r.0 r.1 t.valid) [
      | inl (h, f) ↦
          same_used m (pmm_free_page r.0 r.1) v f.valid (f.same_total ∙ t.same_total)
            (omega (arith, f.one_less, t.one_more))
            λ q. ground (arith, f.cleared q, t.marked q, t.was_free, e)
      | inr (h, f) ↦
          absurd (h (omega (arith, e, t.inside, t.same_total), ground (arith, t.marked p, e)))
    ]

-- A page just allocated and given back leaves the allocator as it was, bit for bit; the only
-- allocation for which there is no such page is that of a full memory.
pub pmm_free_page-pmm_alloc_page :
    (m : Pmm)
    → IsValid m
    → (let (a, m') = pmm_alloc_page m in pmm_free_page a m' ≡ m) ⊎ Exhausted m (pmm_alloc_page m)
pmm_free_page-pmm_alloc_page m v = elim (pmm_alloc_page_lem m v) [
  | inl (p, t) ↦ inl (freed_after m p (pmm_alloc_page m) v t)
  | inr full ↦ inr full
]

-- The free pages and the used pages make up the memory, with no wrap.
pub pmm_get_free_pages_lem :
    (m : Pmm) → IsValid m → pmm_get_free_pages m + count_used m.bitmap m.total_pages ≡ m.total_pages
unfolding pmm_get_free_pages
pmm_get_free_pages_lem m v = omega (arith, v.counted, count_used-le m.bitmap m.total_pages)
