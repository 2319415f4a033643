-- ===== src/Fs/Ramdisk.antt =====
-- src/fs/ramdisk.c: files as an array of entries whose data lie in the kernel heap. A name or a
-- path is its text, the bytes before the zero byte. Sizes and positions are 32-bit patterns, read
-- as an int by `signed32`. The descriptor -1 of `rd_open_fds` is `none`. An operation that frees a
-- pointer which is no block of the heap has no result.
pub mod Io
pub mod Dirs
pub mod Bytes
mod Tests
use cro_os.Base.{
  ℕ, zero, suc, ◌+◌, ◌-◌, ◌*◌, ◌/◌, ◌%◌, ◌^◌, Bool, true, false, ltb, leb, ◌==◌, ◌!=◌, ◌&&◌, ◌||◌,
  not, min, if◌then◌else◌, List, [], ◌∷◌, Option, none, some, ℤ, pos, negsuc, minus_one, signed32,
  ltb_ℤ, slot, get_or, set, take, replicate, length,
}
use cro_os.Mm.Kmalloc.{Heap, kmalloc, kfree, copy}

abbrev pub rd_max_name : ℕ
rd_max_name = 64

abbrev pub ramdisk_max_files : ℕ
ramdisk_max_files = 256

pub record RdEntry : Type 0 where
  pub name : List ℕ
  pub size : ℕ
  pub capacity : ℕ
  pub in_use : Bool
  pub is_dir : Bool
  pub contents : ℕ
  pub parent : ℤ

-- `memset` to 0
unfoldable pub zero_entry : RdEntry
zero_entry = record {
  name = [];
  size = 0;
  capacity = 0;
  in_use = false;
  is_dir = false;
  contents = 0;
  parent = pos 0;
}

pub record Ramdisk : Type 0 where
  pub rd_files : List RdEntry
  pub rd_count : ℕ
  pub rd_root : ℤ
  pub rd_open_fds : List (Option ℕ)
  pub rd_open_pos : List ℕ
  pub rd_open_modes : List ℕ
  pub heap : Heap

-- `strcmp(a, b) == 0`
abbrev pub same_text : List ℕ → List ℕ → Bool
same_text [] [] = true
same_text [] (y ∷ ys) = false
same_text (x ∷ xs) [] = false
same_text (x ∷ xs) (y ∷ ys) = (x == y) && same_text xs ys

unfoldable pub find_from : List ℕ → ℕ → List RdEntry → Option ℕ
find_from name i [] = none
find_from name i (f ∷ fs) =
    let rest = find_from name (i + 1) fs in
    if f.in_use && same_text f.name name then some i else rest

unfoldable pub rd_find : List ℕ → Ramdisk → Option ℕ
unfolding find_from
rd_find name s = find_from name 0 (take s.rd_count s.rd_files)

-- The index of the new entry, or `none` for -1.
unfoldable pub rd_create : List ℕ → Bool → Ramdisk → Option ℕ × Ramdisk
unfolding zero_entry
rd_create name is_dir s = if leb ramdisk_max_files s.rd_count then (none, s) else (
  some s.rd_count,
  record s {
    rd_files = set s.rd_files s.rd_count (record zero_entry {
      name = take (rd_max_name - 1) name;
      in_use = true;
      is_dir = is_dir;
      parent = s.rd_root;
    });
    rd_count = s.rd_count + 1;
  },
)

-- `while (*path == '/') path++`
abbrev pub skip_slashes : List ℕ → List ℕ
skip_slashes [] = []
skip_slashes (c ∷ cs) = if c == 47 then skip_slashes cs else c ∷ cs

-- The path that `ramdisk_open` looks for: "." for an empty one.
abbrev pub or_dot : List ℕ → List ℕ
or_dot [] = 46 ∷ []
or_dot (c ∷ cs) = c ∷ cs

-- The first descriptor that is -1.
unfoldable pub free_fd : ℕ → List (Option ℕ) → Option ℕ
free_fd i [] = none
free_fd i (none ∷ fds) = some i
free_fd i (some f ∷ fds) = free_fd (i + 1) fds

unfoldable pub open_index : Option ℕ → ℕ → Ramdisk → ℤ × Ramdisk
unfolding free_fd
open_index none mode s = (minus_one, s)
open_index (some idx) mode s = elim (free_fd 0 s.rd_open_fds) [
  | none ↦ (minus_one, s)
  | some fd ↦ (
    pos fd,
    record s {
      rd_open_fds = set s.rd_open_fds fd (some idx);
      rd_open_pos = set s.rd_open_pos fd 0;
      rd_open_modes = set s.rd_open_modes fd mode;
    },
  )
]

unfoldable pub ramdisk_open : List ℕ → ℕ → Ramdisk → ℤ × Ramdisk
unfolding rd_find rd_create open_index
ramdisk_open path mode s =
    let name = or_dot (skip_slashes path) in
    elim (rd_find name s) [
      | some idx ↦ open_index (some idx) mode s
      | none ↦
          let (idx, s') = rd_create name false s in
          if mode / 8 % 2 == 1 then open_index idx mode s' else (minus_one, s)
    ]

-- The descriptor's slot and its file, behind the guard of each operation.
unfoldable pub opened : ℤ → Ramdisk → Option (ℕ × ℕ)
opened fd s = elim (slot 64 fd) [
  | none ↦ none
  | some i ↦ elim (get_or s.rd_open_fds i none) [ none ↦ none | some idx ↦ some (i, idx) ]
]

abbrev pub file : ℕ → Ramdisk → RdEntry
file idx s = get_or s.rd_files idx zero_entry

unfoldable pub ramdisk_close : ℤ → Ramdisk → ℤ × Ramdisk
unfolding opened
ramdisk_close fd s = elim (opened fd s) [
  | none ↦ (minus_one, s)
  | some (i, idx) ↦ (pos 0, record s { rd_open_fds = set s.rd_open_fds i none })
]
