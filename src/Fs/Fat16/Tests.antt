-- ===== src/Fs/Fat16/Tests.antt =====
-- Runs of src/fs/fat16.c, on a disk whose FAT has a cycle.
use cro_os.Base.{ℕ, ◌≡◌, refl, arith, List, [], ◌∷◌, some, pos, minus_one, true, true}
use cro_os.Mm.Kmalloc.{Heap}
use cro_os.Fs.Fat16.{Fat16, done, fat16_get_next_cluster, fat16_read_cluster_chain}
use cro_os.Fs.Fat16.Dirs.{
  fat16_string_to_name, base_part, extension, upper_all, fat16_read_file, fat16_list_dir,
}
use cro_os.Fs.Fat16.Chains.{IsRead, fat16_read_cluster_chain-IsRead}
use cro_os.Fs.Fat16.Root.{fat16_root_lem}

abbrev heap : Heap
heap = record {
  blocks = record { addr = 0x40_0000; size = 512; free = true } ∷ [];
  heap_current = 0x40_1000;
  memory = λ x. 0;
  pmm = record { bitmap = []; total_pages = 0; used_pages = 0 };
}

-- Cluster 2 is followed by cluster 2.
abbrev disk : Fat16
disk = record {
  bytes_per_sector = 512;
  sectors_per_cluster = 1;
  reserved_sectors = 1;
  num_fats = 1;
  root_entry_count = 16;
  fat_size_16 = 1;
  fat_start = 1;
  data_start = 3;
  root_dir_start = 2;
  fat_cache = some (512, λ x. 2);
  disk = some (λ lba. some (λ i. lba));
}

next_of_2 : fat16_get_next_cluster 2 disk ≡ done 514
unfolding fat16_get_next_cluster
next_of_2 = refl

abbrev name : List ℕ
name = 97 ∷ 46 ∷ 99 ∷ []

raw_name : fat16_string_to_name name ≡ 65 ∷ 32 ∷ 32 ∷ 32 ∷ 32 ∷ 32 ∷ 32 ∷ 32 ∷ 67 ∷ 32 ∷ 32 ∷ []
unfolding fat16_string_to_name base_part extension upper_all
raw_name = refl

-- The digit 1 becomes the byte 0x11.
raw_digit :
    fat16_string_to_name (97 ∷ 49 ∷ []) ≡ 65 ∷ 17 ∷ 32 ∷ 32 ∷ 32 ∷ 32 ∷ 32 ∷ 32 ∷ 32 ∷ 32 ∷ 32 ∷ []
unfolding fat16_string_to_name base_part extension upper_all
raw_digit = refl

fat16_read_cluster_chain-IsRead_example : IsRead 600 (fat16_read_cluster_chain 601 2 600 heap disk)
fat16_read_cluster_chain-IsRead_example =
    fat16_read_cluster_chain-IsRead 600 2 heap disk (omega arith)

fat16_root_lem_example :
    (fat16_read_file 1 name 100 heap disk ≡ done ((minus_one, []), heap))
    × (fat16_list_dir 1 name 100 heap disk ≡ done ((minus_one, []), heap))
    × (fat16_list_dir 1 [] 100 heap disk ≡ done ((pos 0, []), heap))
fat16_root_lem_example = fat16_root_lem 0 97 (46 ∷ 99 ∷ []) 100 heap disk
