-- ===== src/Sys/Elf.antt =====
-- src/sys/elf.c and src/sys/elf.h: the ELF loader. The page tables, the page allocator and the words of
-- physical memory are those of Mm/Vmm.antt. The loader runs with the kernel's directory, which maps the
-- first 4 MB to themselves, so the bytes that it writes at a segment's address are bytes of the same
-- words, in which the frames that it clears and the page tables stand too; the fault behind 4 MB is left
-- out. The file is a function from offsets to bytes, with its size, in memory that the loader does not
-- write. The messages on the screen are left out.
pub mod Bytes
pub mod Image
mod Tests
use cro_os.Base.{
  ℕ, zero, suc, ◌+◌, ◌-◌, ◌*◌, ◌/◌, ◌%◌, ◌^◌, bit_and, bit_or, Bool, true, false, ltb, leb, ◌==◌,
  ◌!=◌, ◌&&◌, ◌||◌, not, if◌then◌else◌, ℤ, pos, negsuc, minus_one,
}
use cro_os.Mm.Pmm.{page_size, pmm_alloc_page}
use cro_os.Mm.Vmm.{Vmm, zero_frame, vmm_map_page}

-- The bytes of the file.
abbrev pub File : Type 0
File = ℕ → ℕ

abbrev pub half : File → ℕ → ℕ
half f i = f i + 256 * f (i + 1)

abbrev pub word : File → ℕ → ℕ
word f i = half f i + 2 ^ 16 * half f (i + 2)

-- The fields of the header, at their offsets.
abbrev pub e_type : File → ℕ
e_type f = half f 16

abbrev pub e_machine : File → ℕ
e_machine f = half f 18

abbrev pub e_version : File → ℕ
e_version f = word f 20

abbrev pub e_phoff : File → ℕ
e_phoff f = word f 28

abbrev pub e_ehsize : File → ℕ
e_ehsize f = half f 40

abbrev pub e_phentsize : File → ℕ
e_phentsize f = half f 42

abbrev pub e_phnum : File → ℕ
e_phnum f = half f 44

-- The fields of `phdr[i]`: an element of the array has 32 bytes.
abbrev pub phdr : File → ℕ → ℕ
phdr f i = e_phoff f + 32 * i

unfoldable pub p_type : File → ℕ → ℕ
p_type f i = word f (phdr f i)

unfoldable pub p_offset : File → ℕ → ℕ
p_offset f i = word f (phdr f i + 4)

unfoldable pub p_vaddr : File → ℕ → ℕ
p_vaddr f i = word f (phdr f i + 8)

unfoldable pub p_filesz : File → ℕ → ℕ
p_filesz f i = word f (phdr f i + 16)

unfoldable pub p_memsz : File → ℕ → ℕ
p_memsz f i = word f (phdr f i + 20)

unfoldable pub p_flags : File → ℕ → ℕ
p_flags f i = word f (phdr f i + 24)

unfoldable pub elf_check_magic : File → Bool
elf_check_magic f = (f 0 == 0x7f) && ((f 1 == 69) && ((f 2 == 76) && (f 3 == 70)))

unfoldable pub elf_validate : File → ℕ → ℤ
unfolding elf_check_magic
elf_validate f size =
    if ltb size 52
    then minus_one
    else if not (elf_check_magic f)
    then minus_one
    else if f 4 != 1
    then minus_one
    else if f 5 != 1
    then minus_one
    else if (e_type f != 2) && (e_type f != 3)
    then minus_one
    else if e_machine f != 3
    then minus_one
    else if e_version f != 1
    then minus_one
    else if ltb (e_ehsize f) 52
    then minus_one
    else if ltb size ((e_phoff f + e_phnum f * e_phentsize f) % 2 ^ 32)
    then minus_one
    else pos 0

unfoldable pub elf_get_entry : File → ℕ
elf_get_entry f = word f 24

unfoldable pub elf_is_executable : File → Bool
elf_is_executable f = e_type f == 2

unfoldable pub elf_get_phdr_count : File → ℕ
elf_get_phdr_count f = e_phnum f

pub record Loader : Type 0 where
  pub vmm : Vmm
  pub entry_out : ℕ

-- The byte at an address of the memory, in the word that holds it: the lowest byte comes first.
unfoldable pub byte_in : ℕ → ℕ → ℕ
byte_in zero w = w % 256
byte_in (suc zero) w = w / 2 ^ 8 % 256
byte_in (suc (suc zero)) w = w / 2 ^ 16 % 256
byte_in (suc (suc (suc n))) w = w / 2 ^ 24 % 256

abbrev pub byte_at : (ℕ → ℕ) → ℕ → ℕ
byte_at words x = byte_in (x % 4) (words (x / 4 * 4))

-- The words of a memory with these bytes.
abbrev pub words_of : (ℕ → ℕ) → ℕ → ℕ
words_of bytes a = word bytes a

-- PAGE_PRESENT | PAGE_USER, and PAGE_WRITE for a segment with PF_W.
abbrev pub segment_flags : ℕ → ℕ
segment_flags flags = if bit_and flags 2 != 0 then bit_or 5 2 else 5

-- The pages of a segment from `addr` on: whether there was memory for all of them.
unfoldable pub map_pages : ℕ → ℕ → ℕ → Vmm → Bool × Vmm
map_pages zero addr flags v = (true, v)
map_pages (suc left) addr flags v =
    let (page, pmm') = pmm_alloc_page v.pmm in
    let cleared = record v { words = zero_frame page v.words; pmm = pmm' } in
    let rest =
      map_pages left ((addr + page_size) % 2 ^ 32) flags (vmm_map_page 0 addr page flags cleared) in
    if page == 0 then (false, record v { pmm = pmm' }) else rest

-- `vaddr & ~(PAGE_SIZE - 1)`, and the number of pages.
abbrev pub page_floor : ℕ → ℕ
page_floor a = a / page_size * page_size

abbrev pub num_pages : ℕ → ℕ → ℕ
num_pages vaddr memsz =
    (page_floor ((vaddr + memsz + page_size - 1) % 2 ^ 32) + 2 ^ 32 - page_floor vaddr)
    % 2 ^ 32
    / page_size

-- How far the address `x` is behind another one, on 32 bits.
abbrev pub distance : ℕ → ℕ → ℕ
distance x vaddr = (x + 2 ^ 32 - vaddr) % 2 ^ 32

-- The copy of the segment's data, and the zero bytes behind it, on the bytes of the memory.
unfoldable pub copy_data : File → ℕ → ℕ → (ℕ → ℕ) → ℕ → ℕ
copy_data f size i bytes x =
    let d = distance x (p_vaddr f i) in
    if ltb 0 (p_filesz f i)
      && leb ((p_offset f i + p_filesz f i) % 2 ^ 32) size
      && ltb d (p_filesz f i)
    then f (p_offset f i + d)
    else bytes x

unfoldable pub clear_bss : File → ℕ → (ℕ → ℕ) → ℕ → ℕ
clear_bss f i bytes x =
    let d = distance x (p_vaddr f i) in
    if leb (p_filesz f i) d && ltb d (p_memsz f i) then 0 else bytes x

-- One round of the loop: whether it goes on.
unfoldable pub load_segment : File → ℕ → ℕ → Loader → Bool × Loader
unfolding map_pages copy_data clear_bss byte_in
load_segment f size i s =
    let (ok, v) =
      map_pages (num_pages (p_vaddr f i) (p_memsz f i)) (page_floor (p_vaddr f i))
        (segment_flags (p_flags f i)) s.vmm in
    let bytes = clear_bss f i (copy_data f size i (λ x. byte_at v.words x)) in
    if p_type f i != 1
    then (true, s)
    else if p_memsz f i == 0
    then (true, s)
    else if ok
    then (true, record s { vmm = record v { words = λ a. words_of bytes a } })
    else (false, record s { vmm = v })

unfoldable pub load_from : ℕ → ℕ → File → ℕ → Loader → ℤ × Loader
unfolding load_segment
load_from zero i f size s = (pos 0, s)
load_from (suc left) i f size s =
    let (ok, s') = load_segment f size i s in
    let rest = load_from left (i + 1) f size s' in if ok then rest else (minus_one, s')

unfoldable pub elf_load : File → ℕ → Loader → ℤ × Loader
elf_load f size s = elim (elf_validate f size) [
  | pos n ↦ load_from (e_phnum f) 0 f size (record s { entry_out = elf_get_entry f })
  | negsuc n ↦ (minus_one, s)
]
