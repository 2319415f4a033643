-- ===== src/Sys/Elf/Image.antt =====
-- src/sys/elf.c: what a program sees of its file once it is loaded.
use cro_os.Base.{
  ℕ, zero, suc, ◌+◌, ◌*◌, ◌/◌, ◌%◌, ◌^◌, ◌≤◌, ◌<◌, ◌≡◌, ◌⊎◌, refl, ap, ◌∙◌, sym, subst, Bool, true,
  false, Bool-cases, inl, inr, ltb, ◌==◌, ◌!=◌, ◌&&◌, if◌then◌else◌, ℤ, pos, negsuc, minus_one,
  ==→eq, ==→ne, arith,
}
use cro_os.Sys.Elf.{
  File, Loader, p_type, p_offset, p_vaddr, p_filesz, p_memsz, distance, copy_data, clear_bss,
  byte_at, map_pages, num_pages, page_floor, segment_flags, p_flags, load_segment, load_from,
  elf_load, elf_validate, elf_get_entry, e_phnum,
}
use cro_os.Sys.Elf.Bytes.{byte_at-words_of, byte_in-lt}

-- The segment `i` is one that is loaded.
abbrev pub is_loaded : File → ℕ → Bool
is_loaded f i = (p_type f i == 1) && (p_memsz f i != 0)

-- No segment from `lo` up to `hi` is loaded.
abbrev pub NoneLoaded : File → ℕ → ℕ → Type 0
NoneLoaded f lo hi = (j : ℕ) → lo ≤ j → j < hi → is_loaded f j ≡ false

-- The byte that the segment's data and the zeros behind it have for an address.
abbrev pub segment_byte : File → ℕ → ℕ → ℕ
segment_byte f i x =
    if ltb (distance x (p_vaddr f i)) (p_filesz f i)
    then f (p_offset f i + distance x (p_vaddr f i))
    else 0

-- A byte of the memory that the loader leaves.
abbrev pub loaded_byte : Loader → ℕ → ℕ
loaded_byte s x = byte_at s.vmm.words x

-- The bytes that a segment writes are bytes.
written-lt :
    (f : File) (size i : ℕ) (bytes : ℕ → ℕ) (x : ℕ)
    → ((y : ℕ) → f y < 256)
    → ((y : ℕ) → bytes y < 256)
    → clear_bss f i (copy_data f size i bytes) x < 256
unfolding copy_data clear_bss
written-lt f size i bytes x h k = ground (arith, h (p_offset f i + distance x (p_vaddr f i)), k x)

written-segment_byte :
    (f : File) (size i : ℕ) (bytes : ℕ → ℕ) (x : ℕ)
    → distance x (p_vaddr f i) < p_memsz f i
    → p_filesz f i ≤ p_memsz f i
    → (p_offset f i + p_filesz f i) % 2 ^ 32 ≤ size
    → clear_bss f i (copy_data f size i bytes) x ≡ segment_byte f i x
unfolding copy_data clear_bss
written-segment_byte f size i bytes x h le inside = ground (arith, h, le, inside)

load_segment-skips :
    (f : File) (size i : ℕ) (s : Loader)
    → is_loaded f i ≡ false
    → load_segment f size i s ≡ (true, s)
unfolding load_segment
load_segment-skips f size i s h = elim (Bool-cases (p_type f i != 1)) [
  | inl e ↦ rw (e, load_segment) refl
  | inr e ↦ let z : p_memsz f i == 0 ≡ true = ground (arith, h, e) in rw (e, z, load_segment) refl
]

load_segment-loaded :
    (f : File) (size i x : ℕ) (s : Loader)
    → ((y : ℕ) → f y < 256)
    → is_loaded f i ≡ true
    → distance x (p_vaddr f i) < p_memsz f i
    → p_filesz f i ≤ p_memsz f i
    → (p_offset f i + p_filesz f i) % 2 ^ 32 ≤ size
    → (load_segment f size i s).0 ≡ true
    → loaded_byte (load_segment f size i s).1 x ≡ segment_byte f i x
unfolding load_segment
load_segment-loaded f size i x s h loaded at le inside ok =
    let t : p_type f i != 1 ≡ false = ground (arith, loaded) in
    let z : p_memsz f i == 0 ≡ false = ground (arith, loaded) in
    let r =
      map_pages (num_pages (p_vaddr f i) (p_memsz f i)) (page_floor (p_vaddr f i))
        (segment_flags (p_flags f i)) s.vmm in
    let old = λ (y : ℕ). byte_at r.1.words y in
    let new = clear_bss f i (copy_data f size i old) in
    elim (Bool-cases r.0) [
      | inl e ↦
          rw (t, z, e, load_segment)
            (byte_at-words_of new x
                (λ y. written-lt f size i old y h (λ a. byte_in-lt (a % 4) (r.1.words (a / 4 * 4))))
              ∙ written-segment_byte f size i old x at le inside)
      | inr e ↦ let bad : false ≡ true = rw (t, z, e, load_segment) at ok in cc
    ]

load_from-skips :
    (left i : ℕ) (f : File) (size : ℕ) (s : Loader)
    → NoneLoaded f i (i + left)
    → load_from left i f size s ≡ (pos 0, s)
unfolding load_from
load_from-skips zero i f size s h = refl
load_from-skips (suc left) i f size s h =
    rw (load_segment-skips f size i s (h i (omega arith) (omega arith)), load_from)
      (load_from-skips left (i + 1) f size s (λ j a b. h j (omega arith) (omega arith)))

load_from-loaded :
    (left i : ℕ) (f : File) (size k x : ℕ) (s : Loader)
    → ((y : ℕ) → f y < 256)
    → i ≤ k
    → k < i + left
    → is_loaded f k ≡ true
    → distance x (p_vaddr f k) < p_memsz f k
    → p_filesz f k ≤ p_memsz f k
    → (p_offset f k + p_filesz f k) % 2 ^ 32 ≤ size
    → NoneLoaded f (k + 1) (i + left)
    → (load_from left i f size s).0 ≡ pos 0
    → loaded_byte (load_from left i f size s).1 x ≡ segment_byte f k x
unfolding load_from
load_from-loaded zero i f size k x s w a b c at le inside later e = absurd (omega arith)
load_from-loaded (suc left) i f size k x s w a b c at le inside later e =
    elim (Bool-cases (load_segment f size i s).0) [
      | inr no_memory ↦ let bad : minus_one ≡ pos 0 = rw no_memory at e in cc
      | inl ok ↦ elim (Bool-cases (i == k)) [
        | inl same ↦
            let q : k ≡ i = sym (==→eq i k same) in
            let s' = (load_segment f size i s).1 in
            let here =
              load_segment-loaded f size i x s w (subst (λ j. is_loaded f j ≡ true) q c)
                (subst (λ j. distance x (p_vaddr f j) < p_memsz f j) q at)
                (subst (λ j. p_filesz f j ≤ p_memsz f j) q le)
                (subst (λ j. (p_offset f j + p_filesz f j) % 2 ^ 32 ≤ size) q inside) ok in
            let rest =
              load_from-skips left (i + 1) f size s'
                (λ j l h. later j (omega (arith, q)) (omega arith)) in
            rw ok (
              ap (λ p. loaded_byte p.1 x) rest
              ∙ subst (λ j. loaded_byte s' x ≡ segment_byte f j x) (sym q) here)
        | inr other ↦ rw ok (
            load_from-loaded left (i + 1) f size k x (load_segment f size i s).1 w
              (omega (arith, ==→ne i k other)) (omega arith) c at le inside
              (λ j l h. later j l (omega arith)) (rw ok at e))
      ]
    ]

elf_validate-pos : (f : File) (size n : ℕ) → elf_validate f size ≡ pos n → n ≡ 0
unfolding elf_validate
elf_validate-pos f size n e = ground (arith, e)

ℤ-cases : (z : ℤ) → ((n : ℕ) × (z ≡ pos n)) ⊎ ((n : ℕ) × (z ≡ negsuc n))
ℤ-cases (pos n) = inl (n, refl)
ℤ-cases (negsuc n) = inr (n, refl)

elf_load-valid :
    (f : File) (size n : ℕ) (s : Loader)
    → elf_validate f size ≡ pos n
    → elf_load f size s ≡ load_from (e_phnum f) 0 f size (record s { entry_out = elf_get_entry f })
unfolding elf_load
elf_load-valid f size n s v = rw (v, elf_load) refl

elf_load-invalid :
    (f : File) (size n : ℕ) (s : Loader)
    → elf_validate f size ≡ negsuc n
    → elf_load f size s ≡ (minus_one, s)
unfolding elf_load
elf_load-invalid f size n s v = rw (v, elf_load) refl

-- When the loader of a file of bytes returns 0, the file has passed the validation, and every byte of the
-- memory of the last segment that is loaded is the segment's byte of the file, or 0 behind its data, if
-- its data is in the file and no longer than its memory.
pub elf_load-segment_byte :
    (f : File) (size k x : ℕ) (s : Loader)
    → ((y : ℕ) → f y < 256)
    → k < e_phnum f
    → is_loaded f k ≡ true
    → NoneLoaded f (k + 1) (e_phnum f)
    → distance x (p_vaddr f k) < p_memsz f k
    → p_filesz f k ≤ p_memsz f k
    → (p_offset f k + p_filesz f k) % 2 ^ 32 ≤ size
    → (elf_load f size s).0 ≡ pos 0
    → (elf_validate f size ≡ pos 0) × (loaded_byte (elf_load f size s).1 x ≡ segment_byte f k x)
elf_load-segment_byte f size k x s w h c later at le inside e =
    elim (ℤ-cases (elf_validate f size)) [
      | inl (n, v) ↦ (
        v ∙ ap pos (elf_validate-pos f size n v),
        rw (elf_load-valid f size n s v) (
            load_from-loaded (e_phnum f) 0 f size k x (record s { entry_out = elf_get_entry f }) w
              (omega arith) (omega arith) c at le inside (λ j l b. later j l (omega arith))
              (rw (elf_load-valid f size n s v) at e)),
      )
      | inr (n, v) ↦ let bad : minus_one ≡ pos 0 = rw (elf_load-invalid f size n s v) at e in cc
    ]
