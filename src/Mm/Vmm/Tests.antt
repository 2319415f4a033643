-- ===== src/Mm/Vmm/Tests.antt =====
-- Runs of src/mm/vmm.c, on a machine of 2 MB with an empty directory in the frame at 0x5000.
use cro_os.Base.{ℕ, ◌/◌, ◌≤◌, ◌≡◌, refl, ◌∙◌, ◌⊎◌, arith}
use cro_os.Mm.Pmm.{page_size, pages_of, start_page, pmm_init}
use cro_os.Mm.Pmm.Bitmap.{used}
use cro_os.Mm.Pmm.Init.{outside, pmm_init_lem}
use cro_os.Mm.Vmm.{Vmm, page_dir_index, vmm_get_phys, vmm_map_page, vmm_create_dir}
use cro_os.Mm.Vmm.Spaces.{IsSpace}
use cro_os.Mm.Vmm.Map.{NoTable, vmm_map_page_lem}
use cro_os.Mm.Vmm.Stores.{Retargets, SameTranslations}
use cro_os.Mm.Vmm.Create.{vmm_create_dir_lem}

abbrev empty_space : Vmm
empty_space = record {
  words = λ x. 0;
  kernel_dir = 0x5000;
  cr3 = 0;
  cr0 = 0;
  pmm = pmm_init 0x102345 0x200000;
}

kernel_fits : start_page 0x102345 ≤ pages_of 0x200000
unfolding start_page pages_of
kernel_fits = omega arith

dir_marked : outside (start_page 0x102345) (pages_of 0x200000) (0x5000 / page_size) ≡ 1
unfolding start_page pages_of
dir_marked = refl

empty_space-IsSpace : IsSpace 0x5000 empty_space
empty_space-IsSpace =
    let facts = pmm_init_lem 0x102345 0x200000 kernel_fits in
    record {
      dir_frame = record {
        aligned = refl;
        marked = facts.1 (0x5000 / page_size) (omega arith) ∙ dir_marked;
      };
      tables = λ i h here. ground arith;
      distinct = λ i j hi hj pi pj ne. ground arith;
      pmm_valid = facts.0;
    }

vmm_map_page_lem_example :
    Retargets 0x5000 0x40_1000 0x7000 empty_space
      (vmm_map_page 0x5000 0x40_1000 0x7000 3 empty_space)
    ⊎ (NoTable 0x5000 (page_dir_index 0x40_1000) empty_space
        × SameTranslations 0x5000 empty_space (vmm_map_page 0x5000 0x40_1000 0x7000 3 empty_space))
vmm_map_page_lem_example =
    vmm_map_page_lem 0x5000 0x40_1000 0x7000 3 empty_space empty_space-IsSpace

vmm_create_dir_lem_example :
    ((vmm_create_dir empty_space).0 ≡ 0)
    ⊎ (((virt : ℕ)
          → vmm_get_phys (vmm_create_dir empty_space).0 virt (vmm_create_dir empty_space).1
            ≡ vmm_get_phys empty_space.kernel_dir virt empty_space)
        × (used empty_space.pmm.bitmap ((vmm_create_dir empty_space).0 / page_size) ≡ 0))
vmm_create_dir_lem_example = vmm_create_dir_lem empty_space empty_space-IsSpace
