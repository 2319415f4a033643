-- ===== src/Mm/Pmm/Init.antt =====
-- `pmm_init` of src/mm/pmm.c.
use cro_os.Base.{
  ℕ, zero, suc, ◌+◌, ◌-◌, ◌*◌, ◌/◌, ◌%◌, ◌≤◌, ◌<◌, ◌≡◌, refl, ◌∙◌, List, arith, ltb, leb, ◌&&◌,
  if◌then◌else◌, length, get_or, replicate, length-replicate, sym,
}
use cro_os.Base.Bits.{test_bit}
use cro_os.Mm.Pmm.{
  bitmap_size, bitmap_set, bitmap_clear, set_pages, clear_pages, pages_of, start_page, pmm_init,
}
use cro_os.Mm.Pmm.Bitmap.{
  used, IsBytes, used-bitmap_set, used-bitmap_clear, length-bitmap_set, length-bitmap_clear,
  bitmap_set-IsBytes, bitmap_clear-IsBytes, count_used,
}
use cro_os.Mm.Pmm.Alloc.{IsValid}

-- Page `q` is used exactly if it lies outside `[lo, hi)`.
abbrev pub outside : ℕ → ℕ → ℕ → ℕ
outside lo hi q = if leb lo q && ltb q hi then 0 else 1

length-set_pages : (left i : ℕ) (bm : List ℕ) → length (set_pages left i bm) ≡ length bm
unfolding set_pages
length-set_pages zero i bm = refl
length-set_pages (suc left) i bm =
    length-set_pages left (i + 1) (bitmap_set bm i) ∙ length-bitmap_set bm i

length-clear_pages : (left i : ℕ) (bm : List ℕ) → length (clear_pages left i bm) ≡ length bm
unfolding clear_pages
length-clear_pages zero i bm = refl
length-clear_pages (suc left) i bm =
    length-clear_pages left (i + 1) (bitmap_clear bm i) ∙ length-bitmap_clear bm i

set_pages-IsBytes : (left i : ℕ) (bm : List ℕ) → IsBytes bm → IsBytes (set_pages left i bm)
unfolding set_pages
set_pages-IsBytes zero i bm h = h
set_pages-IsBytes (suc left) i bm h =
    set_pages-IsBytes left (i + 1) (bitmap_set bm i) (bitmap_set-IsBytes bm i h)

clear_pages-IsBytes : (left i : ℕ) (bm : List ℕ) → IsBytes bm → IsBytes (clear_pages left i bm)
unfolding clear_pages
clear_pages-IsBytes zero i bm h = h
clear_pages-IsBytes (suc left) i bm h =
    clear_pages-IsBytes left (i + 1) (bitmap_clear bm i) (bitmap_clear-IsBytes bm i h)

-- Marking pages of a memory that is all marked changes no page.
used-set_pages :
    (left i : ℕ) (bm : List ℕ) (q : ℕ)
    → i + left ≤ 8 * length bm
    → used bm q ≡ 1
    → used (set_pages left i bm) q ≡ 1
unfolding set_pages
used-set_pages zero i bm q h e = e
used-set_pages (suc left) i bm q h e =
    used-set_pages left (i + 1) (bitmap_set bm i) q (omega (arith, length-bitmap_set bm i))
      (ground (arith, used-bitmap_set bm i q (omega arith)))

used-clear_pages :
    (left i : ℕ) (bm : List ℕ) (q : ℕ)
    → i + left ≤ 8 * length bm
    → used (clear_pages left i bm) q ≡ (if leb i q && ltb q (i + left) then 0 else used bm q)
unfolding clear_pages
used-clear_pages zero i bm q h = ground arith
used-clear_pages (suc left) i bm q h = ground (
  arith,
  used-clear_pages left (i + 1) (bitmap_clear bm i) q (omega (arith, length-bitmap_clear bm i)),
  used-bitmap_clear bm i q (omega arith),
)

test_bit-byte : (k : ℕ) → k < 8 → test_bit 255 k ≡ 1
test_bit-byte zero h = refl
test_bit-byte (suc zero) h = refl
test_bit-byte (suc (suc zero)) h = refl
test_bit-byte (suc (suc (suc zero))) h = refl
test_bit-byte (suc (suc (suc (suc zero)))) h = refl
test_bit-byte (suc (suc (suc (suc (suc zero))))) h = refl
test_bit-byte (suc (suc (suc (suc (suc (suc zero)))))) h = refl
test_bit-byte (suc (suc (suc (suc (suc (suc (suc zero))))))) h = refl
test_bit-byte (suc (suc (suc (suc (suc (suc (suc (suc k)))))))) h = absurd (omega arith)

-- `memset(bitmap, 0xFF, n)`
abbrev filled : ℕ → List ℕ
filled n = replicate n 255

byte_at-filled : (n i : ℕ) → get_or (filled n) i 0 ≡ (if ltb i n then 255 else 0)
byte_at-filled zero i = ground arith
byte_at-filled (suc n) zero = ground arith
byte_at-filled (suc n) (suc i) = ground (arith, byte_at-filled n i)

filled-IsBytes : (n : ℕ) → IsBytes (filled n)
filled-IsBytes n i = ground (arith, byte_at-filled n i)

used-filled : (n q : ℕ) → q < 8 * n → used (filled n) q ≡ 1
used-filled n q h =
    let full : ℕ = 255 in
    let e : get_or (filled n) (q / 8) 0 ≡ full = ground (arith, byte_at-filled n (q / 8)) in
    rw e (test_bit-byte (q % 8) (omega arith))

count_used-outside :
    (bm : List ℕ) (lo hi n : ℕ)
    → n ≤ hi
    → lo ≤ hi
    → ((q : ℕ) → q < n → used bm q ≡ outside lo hi q)
    → count_used bm n + (n - lo) ≡ n
unfolding count_used
count_used-outside bm lo hi zero h k e = omega arith
count_used-outside bm lo hi (suc n) h k e = ground (
  arith,
  e n (omega arith),
  count_used-outside bm lo hi n (omega arith) k (λ q p. e q (omega arith)),
)

-- The bitmap that `pmm_init` builds, for an array of `n` bytes.
module _ (n start total : ℕ) (covers : total ≤ 8 * n) (low : 256 ≤ 8 * n) where
  abbrev built : List ℕ
  built = clear_pages (total - start) start (set_pages 256 0 (filled n))

  length-built : length built ≡ n
  length-built =
      length-clear_pages (total - start) start (set_pages 256 0 (filled n))
      ∙ length-set_pages 256 0 (filled n)
      ∙ length-replicate n 255

  built-IsBytes : IsBytes built
  built-IsBytes =
      clear_pages-IsBytes (total - start) start (set_pages 256 0 (filled n))
        (set_pages-IsBytes 256 0 (filled n) (filled-IsBytes n))

  used-built : start ≤ total → (q : ℕ) → q < 8 * n → used built q ≡ outside start total q
  used-built h q hq =
      let size : length (set_pages 256 0 (filled n)) ≡ n =
        length-set_pages 256 0 (filled n) ∙ length-replicate n 255 in
      let size' : length (filled n) ≡ n = length-replicate n 255 in
      let e : start + (total - start) ≡ total = omega arith in
      let cleared =
        used-clear_pages (total - start) start (set_pages 256 0 (filled n)) q (omega arith) in
      let marked = used-set_pages 256 0 (filled n) q (omega arith) (used-filled n q hq) in
      ground (arith, cleared, marked, e)

  count_used-built : start ≤ total → count_used built total ≡ start
  count_used-built h = omega (
    arith,
    count_used-outside built start total total (omega arith) h
        (λ q p. used-built h q (omega arith)),
  )

pages_of-le : (mem : ℕ) → pages_of mem ≤ 8 * bitmap_size
unfolding pages_of
pages_of-le mem = ground arith

-- When the kernel ends inside the memory, `pmm_init` gives a valid allocator over the pages of
-- the memory, at most those that the bitmap has bits for, in which exactly the pages from the end
-- of the kernel to the end of the memory are free, and the pages before them are counted as used.
pub pmm_init_lem :
    (kernel_end mem : ℕ)
    → start_page kernel_end ≤ pages_of mem
    → let m = pmm_init kernel_end mem in
      IsValid m
      × ((q : ℕ)
          → q < 8 * bitmap_size
          → used m.bitmap q ≡ outside (start_page kernel_end) (pages_of mem) q)
      × (m.used_pages ≡ start_page kernel_end)
      × (m.total_pages ≡ pages_of mem)
unfolding pmm_init
pmm_init_lem kernel_end mem fits =
    let small : pages_of mem ≤ 8 * bitmap_size = pages_of-le mem in
    let low : 256 ≤ 8 * bitmap_size = omega arith in
    (
      record {
        covers = length-built bitmap_size (start_page kernel_end) (pages_of mem) small low;
        small = small;
        bytes = built-IsBytes bitmap_size (start_page kernel_end) (pages_of mem) small low;
        counted =
            sym
              (count_used-built bitmap_size (start_page kernel_end) (pages_of mem) small low fits);
      },
      used-built bitmap_size (start_page kernel_end) (pages_of mem) small low fits,
      refl,
      refl,
    )
