-- ===== src/Fs/Vfs/Ops.antt =====
-- The operations of src/fs/vfs.c, over file systems with the state `F`.
use cro_os.Base.{
  ℕ, ◌+◌, ◌%◌, ◌^◌, true, false, leb, if◌then◌else◌, List, [], ◌∷◌, ◌++◌, Option, none, some, ℤ,
  minus_one, slot, get_or, set, take, drop, replicate, length, ltb_ℤ, pos_part,
}
use cro_os.Fs.Vfs.{
  VfsOps, VfsFile, Vfs, max_mounts, vfs_max_open, zero_file, best_from, without_slash,
}

unfoldable pub free_from : ℕ → List VfsFile → Option ℕ
free_from i [] = none
free_from i (f ∷ fs) = let rest = free_from (i + 1) fs in if f.in_use then rest else some i

-- `if (r > 0) fd_table[fd].pos += r`
unfoldable pub advance : ℕ → ℤ → List VfsFile → List VfsFile
advance i r fds =
    let f = get_or fds i zero_file in
    if ltb_ℤ (ℤ.pos 0) r then set fds i (record f { pos = (f.pos + pos_part r) % 2 ^ 32 }) else fds

module _ {F : Type 0} where
  unfoldable pub resolve_mount : List ℕ → Vfs F → Option (VfsOps F × List ℕ)
  unfolding best_from
  resolve_mount path s =
      let (best, n) = best_from path none 0 s.mounts in
      elim best [ none ↦ none | some m ↦ some (m.ops, without_slash (drop n path)) ]

  unfoldable pub vfs_get_free_fd : Vfs F → Option ℕ
  unfolding free_from
  vfs_get_free_fd s = free_from 0 s.fd_table

  unfoldable pub vfs_init : Vfs F → Vfs F
  vfs_init s = record s { mounts = []; fd_table = replicate vfs_max_open zero_file }

  unfoldable pub vfs_mount : List ℕ → VfsOps F → Vfs F → Vfs F
  vfs_mount path ops s =
      if leb max_mounts (length s.mounts)
      then s
      else record s { mounts = s.mounts ++ (record { path = take 255 path; ops = ops } ∷ []) }

  -- A call of an operation that takes a path, when it is there.
  abbrev on_path : List ℕ → (VfsOps F → Option (List ℕ → F → ℤ × F)) → Vfs F → ℤ × Vfs F
  on_path path op s = elim (resolve_mount path s) [
    | none ↦ (minus_one, s)
    | some (ops, sub) ↦ elim (op ops) [
      | none ↦ (minus_one, s)
      | some f ↦ let (r, fs) = f sub s.fs_state in (r, record s { fs_state = fs })
    ]
  ]

  unfoldable pub open_with : ℕ → List ℕ → List ℕ → ℕ → (List ℕ → ℕ → F → ℤ × F) → Vfs F → ℤ × Vfs F
  open_with fd path sub mode f s =
      let (file_fd, fs) = f sub mode s.fs_state in
      let s' = record s { fs_state = fs } in
      if ltb_ℤ file_fd (ℤ.pos 0) then (minus_one, s') else (
        ℤ.pos fd,
        record s' {
          fd_table = set s.fd_table fd (record {
            name = take 63 path;
            pos = 0;
            mode = mode;
            in_use = true;
            file_fd = file_fd;
          });
        },
      )

  unfoldable pub vfs_open : List ℕ → ℕ → Vfs F → ℤ × Vfs F
  unfolding resolve_mount vfs_get_free_fd open_with
  vfs_open path mode s = elim (resolve_mount path s) [
    | none ↦ (minus_one, s)
    | some (ops, sub) ↦ elim (ops.open_op) [
      | none ↦ (minus_one, s)
      | some f ↦ elim (vfs_get_free_fd s) [
        | none ↦ (minus_one, s)
        | some fd ↦ open_with fd path sub mode f s
      ]
    ]
  ]

  -- The open descriptor's slot.
  unfoldable pub open_slot : ℤ → Vfs F → Option ℕ
  open_slot fd s = elim (slot vfs_max_open fd) [
    | none ↦ none
    | some i ↦ if (get_or s.fd_table i zero_file).in_use then some i else none
  ]

  unfoldable pub vfs_close : ℤ → Vfs F → ℤ × Vfs F
  unfolding open_slot
  vfs_close fd s = elim (open_slot fd s) [
    | none ↦ (minus_one, s)
    | some i ↦ (
      ℤ.pos 0,
      record s {
        fd_table = set s.fd_table i (record (get_or s.fd_table i zero_file) { in_use = false });
      },
    )
  ]

  -- The open descriptor's slot and its file system, found again by the name.
  unfoldable pub routed : ℤ → Vfs F → Option (ℕ × VfsOps F)
  unfolding open_slot resolve_mount
  routed fd s = elim (open_slot fd s) [
    | none ↦ none
    | some i ↦ elim (resolve_mount (get_or s.fd_table i zero_file).name s) [
      | none ↦ none
      | some (ops, sub) ↦ some (i, ops)
    ]
  ]

  unfoldable pub vfs_read : ℤ → ℕ → Vfs F → ℤ × (List ℕ × Vfs F)
  unfolding routed advance
  vfs_read fd size s = elim (routed fd s) [
    | none ↦ (minus_one, ([], s))
    | some (i, ops) ↦ elim (ops.read_op) [
      | none ↦ (minus_one, ([], s))
      | some f ↦
          let (r, (out, fs)) = f (get_or s.fd_table i zero_file).file_fd size s.fs_state in
          (r, (out, record s { fs_state = fs; fd_table = advance i r s.fd_table }))
    ]
  ]

  unfoldable pub vfs_write : ℤ → List ℕ → Vfs F → ℤ × Vfs F
  unfolding routed advance
  vfs_write fd buf s = elim (routed fd s) [
    | none ↦ (minus_one, s)
    | some (i, ops) ↦ elim (ops.write_op) [
      | none ↦ (minus_one, s)
      | some f ↦
          let (w, fs) = f (get_or s.fd_table i zero_file).file_fd buf s.fs_state in
          (w, record s { fs_state = fs; fd_table = advance i w s.fd_table })
    ]
  ]

  unfoldable pub vfs_seek : ℤ → ℕ → ℕ → Vfs F → ℤ × Vfs F
  unfolding routed
  vfs_seek fd offset whence s = elim (routed fd s) [
    | none ↦ (minus_one, s)
    | some (i, ops) ↦ elim (ops.seek_op) [
      | none ↦ (minus_one, s)
      | some f ↦
          let (r, fs) = f (get_or s.fd_table i zero_file).file_fd offset whence s.fs_state in
          (r, record s { fs_state = fs })
    ]
  ]

  unfoldable pub vfs_truncate : ℤ → ℕ → Vfs F → ℤ × Vfs F
  unfolding routed
  vfs_truncate fd size s = elim (routed fd s) [
    | none ↦ (minus_one, s)
    | some (i, ops) ↦ elim (ops.truncate_op) [
      | none ↦ (minus_one, s)
      | some f ↦
          let (r, fs) = f (get_or s.fd_table i zero_file).file_fd size s.fs_state in
          (r, record s { fs_state = fs })
    ]
  ]

  unfoldable pub vfs_mkdir : List ℕ → Vfs F → ℤ × Vfs F
  unfolding resolve_mount
  vfs_mkdir path s = on_path path (λ ops. ops.mkdir_op) s

  unfoldable pub vfs_rmdir : List ℕ → Vfs F → ℤ × Vfs F
  unfolding resolve_mount
  vfs_rmdir path s = on_path path (λ ops. ops.rmdir_op) s

  unfoldable pub vfs_unlink : List ℕ → Vfs F → ℤ × Vfs F
  unfolding resolve_mount
  vfs_unlink path s = on_path path (λ ops. ops.unlink_op) s

  unfoldable pub vfs_stat : List ℕ → Vfs F → ℤ × (List ℕ × Vfs F)
  unfolding resolve_mount
  vfs_stat path s = elim (resolve_mount path s) [
    | none ↦ (minus_one, ([], s))
    | some (ops, sub) ↦ elim (ops.stat_op) [
      | none ↦ (minus_one, ([], s))
      | some f ↦ let (r, (st, fs)) = f sub s.fs_state in (r, (st, record s { fs_state = fs }))
    ]
  ]

  unfoldable pub vfs_readdir : List ℕ → ℤ → Vfs F → ℤ × (List ℕ × Vfs F)
  unfolding resolve_mount
  vfs_readdir path index s = elim (resolve_mount path s) [
    | none ↦ (minus_one, ([], s))
    | some (ops, sub) ↦ elim (ops.readdir_op) [
      | none ↦ (minus_one, ([], s))
      | some f ↦
          let (r, (name, fs)) = f sub index s.fs_state in (r, (name, record s { fs_state = fs }))
    ]
  ]

  -- The new path is passed on as it is.
  unfoldable pub vfs_rename : List ℕ → List ℕ → Vfs F → ℤ × Vfs F
  unfolding resolve_mount
  vfs_rename old_path new_path s =
      on_path old_path
        (λ ops. elim (ops.rename_op) [ none ↦ none | some f ↦ some (λ sub. f sub new_path) ]) s
