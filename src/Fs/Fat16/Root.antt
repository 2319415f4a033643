-- ===== src/Fs/Fat16/Root.antt =====
-- What the functions of src/fs/fat16.c that take a path come to: a search from cluster 0, the root
-- directory, looks at no sector.
use cro_os.Base.{ℕ, suc, ◌∷◌, List, [], minus_one, ◌≡◌, refl, none, pos}
use cro_os.Mm.Kmalloc.{Heap}
use cro_os.Fs.Fat16.{Fat16, done}
use cro_os.Fs.Fat16.Dirs.{
  fat16_find_entry, fat16_read_file, fat16_list_dir, read_entry, list_dir_at, list_from, find_from,
}

find_from-root :
    (fuel : ℕ) (target : List ℕ) (h : Heap) (s : Fat16)
    → find_from (suc fuel) 0 target h s ≡ done (none, h)
unfolding find_from
find_from-root fuel target h s = refl

list_from-root :
    (fuel buf_size : ℕ) (out : List ℕ) (h : Heap) (s : Fat16)
    → list_from (suc fuel) 0 buf_size out h s ≡ done (out, h)
unfolding list_from
list_from-root fuel buf_size out h s = refl

-- On every disk, with any heap: no path is found, so reading a file is -1 and copies nothing;
-- listing a path is -1, and listing the root directory is 0 with no text. The heap stays as it is.
pub fat16_root_lem :
    (fuel : ℕ) (c : ℕ) (path : List ℕ) (n : ℕ) (h : Heap) (s : Fat16)
    → (fat16_read_file (suc fuel) (c ∷ path) n h s ≡ done ((minus_one, []), h))
      × (fat16_list_dir (suc fuel) (c ∷ path) n h s ≡ done ((minus_one, []), h))
      × (fat16_list_dir (suc fuel) [] n h s ≡ done ((pos 0, []), h))
unfolding fat16_read_file fat16_find_entry fat16_list_dir read_entry list_dir_at
fat16_root_lem fuel c path n h s = (refl, refl, refl)
