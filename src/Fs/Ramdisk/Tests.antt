-- ===== src/Fs/Ramdisk/Tests.antt =====
-- Runs of src/fs/ramdisk.c, on a disk with one file open.
use cro_os.Base.{ℕ, ◌≡◌, refl, arith, List, [], ◌∷◌, none, some, pos, minus_one, true}
use cro_os.Fs.Ramdisk.{
  Ramdisk, zero_entry, rd_find, find_from, rd_create, opened, ramdisk_open, open_index, free_fd,
}
use cro_os.Fs.Ramdisk.Io.{ramdisk_read, ramdisk_write, ramdisk_seek}
use cro_os.Fs.Ramdisk.Dirs.{ramdisk_readdir, readdir_from}
use cro_os.Fs.Ramdisk.Bytes.{ramdisk_read-ramdisk_write}

abbrev text : List ℕ
text = 104 ∷ 105 ∷ []

-- The file "a" has a block of a page, and the descriptor 0 is at its start.
unfoldable disk : Ramdisk
unfolding zero_entry
disk = record {
  rd_files =
      record zero_entry { name = 97 ∷ []; in_use = true; contents = 0x40_000c; capacity = 4096 }
      ∷ [];
  rd_count = 1;
  rd_root = pos 0;
  rd_open_fds = some 0 ∷ none ∷ [];
  rd_open_pos = 0 ∷ 0 ∷ [];
  rd_open_modes = 3 ∷ 0 ∷ [];
  heap = record {
    blocks = [];
    heap_current = 0;
    memory = λ x. 0;
    pmm = record { bitmap = []; total_pages = 0; used_pages = 0 };
  };
}

opens_second : (ramdisk_open (47 ∷ 97 ∷ []) 1 disk).0 ≡ pos 1
unfolding ramdisk_open disk rd_find find_from open_index free_fd
opens_second = refl

misses : (ramdisk_open (98 ∷ []) 1 disk).0 ≡ minus_one
unfolding ramdisk_open disk rd_find find_from open_index free_fd rd_create
misses = refl

lists_a : ramdisk_readdir 0 disk ≡ some (97 ∷ [])
unfolding ramdisk_readdir readdir_from disk
lists_a = refl

disk-opened : opened (pos 0) disk ≡ some (0, 0)
unfolding opened disk
disk-opened = refl

ramdisk_read-ramdisk_write_example :
    (s' : Ramdisk) × ((ramdisk_write (pos 0) text disk ≡ some (pos 2, s'))
      × ((ramdisk_seek (pos 0) 0 0 s').0 ≡ pos 0)
      × (let r = ramdisk_read (pos 0) 2 (ramdisk_seek (pos 0) 0 0 s').1 in
          (r.0 ≡ pos 2) × (r.1 ≡ text)))
unfolding disk zero_entry
ramdisk_read-ramdisk_write_example =
    ramdisk_read-ramdisk_write (pos 0) 0 0 text disk disk-opened (omega arith) (omega arith) refl
      (omega arith) (omega arith) (omega arith)
