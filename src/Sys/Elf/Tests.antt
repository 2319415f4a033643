-- ===== src/Sys/Elf/Tests.antt =====
-- A file of one segment, loaded by src/sys/elf.c.
use cro_os.Base.{
  ◌≡◌, refl, arith, List, [], ◌∷◌, get_or, pos, minus_one, ℕ, zero, suc, ◌<◌, Bool, true, ltb, ◌&&◌,
}
use cro_os.Mm.Pmm.{pmm_alloc_page, alloc_from, bitmap_test, bitmap_set}
use cro_os.Mm.Vmm.{vmm_map_page, get_or_create_table}
use cro_os.Sys.Elf.{
  File, Loader, elf_validate, elf_check_magic, elf_load, load_from, load_segment, map_pages, p_type,
  p_offset, p_vaddr, p_filesz, p_memsz, p_flags, elf_get_entry,
}
use cro_os.Sys.Elf.Image.{loaded_byte, segment_byte, elf_load-segment_byte}

-- Two bytes of data at the address 4096, in a memory of 8 bytes.
abbrev file_bytes : List ℕ
file_bytes =
    0x7f ∷ 69 ∷ 76 ∷ 70 ∷ 1 ∷ 1 ∷ 1 ∷ 0 ∷ 0 ∷ 0 ∷ 0 ∷ 0 ∷ 0 ∷ 0 ∷ 0 ∷ 0 ∷ 2 ∷ 0 ∷ 3 ∷ 0 ∷ 1 ∷ 0 ∷ 0
    ∷ 0 ∷ 0 ∷ 16 ∷ 0 ∷ 0 ∷ 52 ∷ 0 ∷ 0 ∷ 0 ∷ 0 ∷ 0 ∷ 0 ∷ 0 ∷ 0 ∷ 0 ∷ 0 ∷ 0 ∷ 52 ∷ 0 ∷ 32 ∷ 0 ∷ 1 ∷ 0
    ∷ 0 ∷ 0 ∷ 0 ∷ 0 ∷ 0 ∷ 0 ∷ 1 ∷ 0 ∷ 0 ∷ 0 ∷ 84 ∷ 0 ∷ 0 ∷ 0 ∷ 0 ∷ 16 ∷ 0 ∷ 0 ∷ 0 ∷ 0 ∷ 0 ∷ 0 ∷ 2
    ∷ 0 ∷ 0 ∷ 0 ∷ 8 ∷ 0 ∷ 0 ∷ 0 ∷ 7 ∷ 0 ∷ 0 ∷ 0 ∷ 0 ∷ 0 ∷ 0 ∷ 0 ∷ 0x90 ∷ 0xc3 ∷ []

abbrev file : File
file i = get_or file_bytes i 0

abbrev all_bytes : List ℕ → Bool
all_bytes [] = true
all_bytes (x ∷ xs) = ltb x 256 && all_bytes xs

get_or-byte : (xs : List ℕ) (i : ℕ) → all_bytes xs ≡ true → get_or xs i 0 < 256
get_or-byte [] i h = omega arith
get_or-byte (x ∷ xs) zero h = ground (arith, h)
get_or-byte (x ∷ xs) (suc i) h = get_or-byte xs i (ground (arith, h))

abbrev loader : Loader
loader = record {
  vmm = record {
    words = λ x. 0;
    kernel_dir = 4096;
    cr3 = 0;
    cr0 = 0;
    pmm = record { bitmap = 1 ∷ []; total_pages = 8; used_pages = 1 };
  };
  entry_out = 0;
}

loads : (elf_load file 86 loader).0 ≡ pos 0
unfolding elf_load elf_validate elf_check_magic load_from load_segment map_pages p_type p_memsz
    p_vaddr p_flags elf_get_entry pmm_alloc_page alloc_from bitmap_test bitmap_set vmm_map_page
    get_or_create_table
loads = refl

-- A file that is cut short is refused.
refuses : elf_load file 51 loader ≡ (minus_one, loader)
unfolding elf_load elf_validate
refuses = refl

data_bytes : (y : ℕ) → file y < 256
data_bytes y = get_or-byte file_bytes y refl

elf_load-segment_byte_example :
    (elf_validate file 86 ≡ pos 0)
    × (loaded_byte (elf_load file 86 loader).1 4097 ≡ segment_byte file 0 4097)
unfolding p_type p_memsz p_vaddr p_filesz p_offset
elf_load-segment_byte_example =
    elf_load-segment_byte file 86 0 4097 loader data_bytes (omega arith) refl
      (λ j l h. absurd (omega arith)) (omega arith) (omega arith) (omega arith) loads
