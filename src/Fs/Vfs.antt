-- ===== src/Fs/Vfs.antt =====
-- src/fs/vfs.c: mounts, descriptors, and the calls of the file system behind them. A file system
-- is an interface: a record of the operations of `vfs_ops_t` on a state of its own, `none` for a
-- null pointer. A path is its text, the bytes before the zero byte; an operation that fills a
-- buffer returns what it puts there.
pub mod Ops
pub mod Resolve
mod Tests
use cro_os.Base.{
  ℕ, zero, suc, ◌+◌, ◌-◌, ◌%◌, ◌^◌, Bool, true, false, ltb, leb, ◌==◌, ◌!=◌, ◌&&◌, not,
  if◌then◌else◌, List, [], ◌∷◌, ◌++◌, Option, none, some, ℤ, pos, negsuc, minus_one, slot, get_or,
  set, take, drop, replicate, length, ltb_ℤ, pos_part,
}

abbrev pub max_mounts : ℕ
max_mounts = 8

abbrev pub vfs_max_open : ℕ
vfs_max_open = 64

pub record VfsOps (F : Type 0) : Type 0 where
  pub open_op : Option (List ℕ → ℕ → F → ℤ × F)
  pub close_op : Option (ℤ → F → ℤ × F)
  pub read_op : Option (ℤ → ℕ → F → ℤ × (List ℕ × F))
  pub write_op : Option (ℤ → List ℕ → F → ℤ × F)
  pub seek_op : Option (ℤ → ℕ → ℕ → F → ℤ × F)
  pub stat_op : Option (List ℕ → F → ℤ × (List ℕ × F))
  pub mkdir_op : Option (List ℕ → F → ℤ × F)
  pub rmdir_op : Option (List ℕ → F → ℤ × F)
  pub unlink_op : Option (List ℕ → F → ℤ × F)
  pub readdir_op : Option (List ℕ → ℤ → F → ℤ × (List ℕ × F))
  pub rename_op : Option (List ℕ → List ℕ → F → ℤ × F)
  pub truncate_op : Option (ℤ → ℕ → F → ℤ × F)

pub record Mount (F : Type 0) : Type 0 where
  pub path : List ℕ
  pub ops : VfsOps F

-- The fields of `vfs_file_t` that the descriptors use; `file_fd` is its `data`.
pub record VfsFile : Type 0 where
  pub name : List ℕ
  pub pos : ℕ
  pub mode : ℕ
  pub in_use : Bool
  pub file_fd : ℤ

-- `mount_count` is the length of `mounts`.
pub record Vfs (F : Type 0) : Type 0 where
  pub mounts : List (Mount F)
  pub fd_table : List VfsFile
  pub fs_state : F

abbrev pub zero_file : VfsFile
zero_file = record { name = []; pos = 0; mode = 0; in_use = false; file_fd = ℤ.pos 0 }

-- `strncmp(path, mount_path, len) == 0`
abbrev pub is_prefix : List ℕ → List ℕ → Bool
is_prefix [] path = true
is_prefix (m ∷ ms) [] = false
is_prefix (m ∷ ms) (c ∷ cs) = (m == c) && is_prefix ms cs

-- The loop of `resolve_mount`, with its `best` and `best_len`.
unfoldable pub best_from :
    {F : Type 0} → List ℕ → Option (Mount F) → ℕ → List (Mount F) → Option (Mount F) × ℕ
best_from path best n [] = (best, n)
best_from path best n (m ∷ ms) =
    let taken = best_from path (some m) (length m.path) ms in
    let passed = best_from path best n ms in
    if is_prefix m.path path && ltb n (length m.path) then taken else passed

-- A slash before a further character is skipped.
abbrev pub without_slash : List ℕ → List ℕ
without_slash [] = []
without_slash (c ∷ []) = c ∷ []
without_slash (c ∷ d ∷ cs) = if c == 47 then d ∷ cs else c ∷ d ∷ cs
