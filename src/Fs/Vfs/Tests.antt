-- ===== src/Fs/Vfs/Tests.antt =====
-- Runs of src/fs/vfs.c, over two mounts of a file system that counts its opened files.
use cro_os.Base.{
  ℕ, suc, ◌≡◌, refl, List, [], ◌∷◌, none, some, pos, true, replicate, length, drop, ◌⊎◌,
}
use cro_os.Fs.Vfs.{VfsOps, Mount, Vfs, zero_file, vfs_max_open, is_prefix, best_from, without_slash}
use cro_os.Fs.Vfs.Ops.{resolve_mount, vfs_open, vfs_get_free_fd, free_from, open_with}
use cro_os.Fs.Vfs.Resolve.{NoLonger, IsIn, resolve_mount_lem}

abbrev counting : VfsOps ℕ
counting = record {
  open_op = some (λ path mode n. (pos n, suc n));
  close_op = none;
  read_op = none;
  write_op = none;
  seek_op = none;
  stat_op = none;
  mkdir_op = none;
  rmdir_op = none;
  unlink_op = none;
  readdir_op = none;
  rename_op = none;
  truncate_op = none;
}

-- "/dev"
abbrev dev : List ℕ
dev = 47 ∷ 100 ∷ 101 ∷ 118 ∷ []

-- "/dev/a"
abbrev dev_a : List ℕ
dev_a = 47 ∷ 100 ∷ 101 ∷ 118 ∷ 47 ∷ 97 ∷ []

abbrev two_mounts : Vfs ℕ
two_mounts = record {
  mounts = record { path = 47 ∷ []; ops = counting } ∷ record { path = dev; ops = counting } ∷ [];
  fd_table = replicate vfs_max_open zero_file;
  fs_state = 5;
}

resolves_dev : resolve_mount dev_a two_mounts ≡ some (counting, 97 ∷ [])
unfolding resolve_mount best_from
resolves_dev = refl

opens_first : (vfs_open dev_a 1 two_mounts).0 ≡ pos 0
unfolding vfs_open resolve_mount best_from vfs_get_free_fd free_from open_with
opens_first = refl

resolve_mount_lem_example :
    ((resolve_mount dev_a two_mounts ≡ none) × NoLonger dev_a 0 two_mounts.mounts)
    ⊎ ((m : Mount ℕ) × (IsIn m two_mounts.mounts
          × (is_prefix m.path dev_a ≡ true)
          × NoLonger dev_a (length m.path) two_mounts.mounts
          × (resolve_mount dev_a two_mounts
              ≡ some (m.ops, without_slash (drop (length m.path) dev_a)))))
resolve_mount_lem_example = resolve_mount_lem dev_a two_mounts
