-- ===== src/Fs/Ramdisk/Dirs.antt =====
-- Directories, removal and listing of src/fs/ramdisk.c.
use cro_os.Base.{
  ℕ, ◌+◌, true, false, ◌==◌, ◌&&◌, if◌then◌else◌, List, [], ◌∷◌, Option, none, some, ℤ, pos,
  minus_one, set, take,
}
use cro_os.Mm.Kmalloc.{Heap, kfree}
use cro_os.Fs.Ramdisk.{RdEntry, Ramdisk, zero_entry, rd_find, rd_create, skip_slashes, file}

abbrev pub index : Option ℕ → ℤ
index none = minus_one
index (some i) = pos i

unfoldable pub ramdisk_mkdir : List ℕ → Ramdisk → ℤ × Ramdisk
unfolding rd_create
ramdisk_mkdir path s = let (i, s') = rd_create (skip_slashes path) true s in (index i, s')

unfoldable pub ramdisk_rmdir : List ℕ → Ramdisk → ℤ × Ramdisk
unfolding rd_find zero_entry
ramdisk_rmdir path s = elim (rd_find (skip_slashes path) s) [
  | none ↦ (minus_one, s)
  | some idx ↦
      if (file idx s).is_dir
      then (
        pos 0,
        record s { rd_files = set s.rd_files idx (record (file idx s) { in_use = false }) },
      )
      else (minus_one, s)
]

unfoldable pub drop_entry : ℕ → Heap → Ramdisk → ℤ × Ramdisk
unfolding zero_entry
drop_entry idx h s = (
  pos 0,
  record s { rd_files = set s.rd_files idx (record (file idx s) { in_use = false }); heap = h },
)

unfoldable pub ramdisk_unlink : List ℕ → Ramdisk → Option (ℤ × Ramdisk)
unfolding rd_find drop_entry zero_entry
ramdisk_unlink path s = elim (rd_find (skip_slashes path) s) [
  | none ↦ some (minus_one, s)
  | some idx ↦
      if (file idx s).contents == 0
      then some (drop_entry idx s.heap s)
      else elim (kfree (file idx s).contents s.heap) [
        | none ↦ none
        | some h ↦ some (drop_entry idx h s)
      ]
]

-- The name, the size and the type that `ramdisk_stat` fills in; `none` for -1.
unfoldable pub ramdisk_stat : List ℕ → Ramdisk → Option (List ℕ × ℕ × ℕ)
unfolding rd_find zero_entry
ramdisk_stat path s = elim (rd_find (skip_slashes path) s) [
  | none ↦ none
  | some idx ↦
      some (take 63 (file idx s).name, (file idx s).size, if (file idx s).is_dir then 2 else 1)
]

-- The name of the `nth` entry among those in use, `count` of them passed.
unfoldable pub readdir_from : ℕ → ℕ → List RdEntry → Option (List ℕ)
readdir_from nth count [] = none
readdir_from nth count (f ∷ fs) =
    let next = readdir_from nth (if f.in_use then count + 1 else count) fs in
    if f.in_use && (count == nth) then some f.name else next

unfoldable pub ramdisk_readdir : ℕ → Ramdisk → Option (List ℕ)
unfolding readdir_from
ramdisk_readdir nth s = readdir_from nth 0 s.rd_files
