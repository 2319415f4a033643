-- ===== src/Fs/Fat16.antt =====
-- src/fs/fat16.c: the layout of a FAT16 disk, its cluster chains and file names. A sector is a
-- function from offsets to bytes. What the ATA driver reads from a device is a parameter: a
-- sector, or `none` for an error. The buffers come from the kernel heap, which is threaded through;
-- what stands in a sector's buffer is kept apart from it.
pub mod Dirs
pub mod Chains
pub mod Root
mod Tests
use cro_os.Base.{
  ℕ, zero, suc, ◌+◌, ◌-◌, ◌*◌, ◌/◌, ◌%◌, ◌^◌, bit_or, bit_and, min, Bool, true, false, ltb, leb,
  ◌==◌, ◌!=◌, ◌&&◌, ◌||◌, not, if◌then◌else◌, List, [], ◌∷◌, ◌++◌, Option, none, some, ℤ, pos,
  negsuc, minus_one, signed32, length, get_or, set,
}
use cro_os.Mm.Kmalloc.{Heap, kmalloc, kfree}

abbrev pub fat16_sector_size : ℕ
fat16_sector_size = 512

abbrev pub Sector : Type 0
Sector = ℕ → ℕ

-- What a run comes to: a result, an access outside of a block, or rounds that are left when the
-- fuel is used up.
pub data Run (A : Type 0) : Type 0 where
  done : A → Run A
  fault : Run A
  unfinished : Run A

-- The fields of the boot sector that are used, and the variables of the file.
pub record Fat16 : Type 0 where
  pub bytes_per_sector : ℕ
  pub sectors_per_cluster : ℕ
  pub reserved_sectors : ℕ
  pub num_fats : ℕ
  pub root_entry_count : ℕ
  pub fat_size_16 : ℕ
  pub fat_start : ℕ
  pub data_start : ℕ
  pub root_dir_start : ℕ
  pub fat_cache : Option (ℕ × Sector)
  pub disk : Option (ℕ → Option Sector)

-- Little-endian words of a sector.
abbrev pub word16 : Sector → ℕ → ℕ
word16 f i = f i + 256 * f (i + 1)

abbrev pub word32 : Sector → ℕ → ℕ
word32 f i = word16 f i + 2 ^ 16 * word16 f (i + 2)

-- The `n` bytes from the offset `i` on.
unfoldable pub bytes_at : Sector → ℕ → ℕ → List ℕ
bytes_at f i zero = []
bytes_at f i (suc n) = f i ∷ bytes_at f (i + 1) n

-- 0xFFFF without a cache; `fault` beyond the cache's end.
unfoldable pub fat16_get_next_cluster : ℕ → Fat16 → Run ℕ
fat16_get_next_cluster cluster s = elim s.fat_cache [
  | none ↦ done 0xffff
  | some (size, cache) ↦
      if ltb (cluster * 2 + 1) size then done (word16 cache (cluster * 2)) else fault
]

unfoldable pub fat16_read_sector : ℕ → Fat16 → Option Sector
fat16_read_sector lba s = elim s.disk [ none ↦ none | some read ↦ read (lba % 2 ^ 32) ]

-- `cluster >= 2 && cluster < 0xFFF8`
abbrev pub in_chain : ℕ → Bool
in_chain cluster = leb 2 cluster && ltb cluster 0xfff8

abbrev pub lba_of : ℕ → Fat16 → ℕ
lba_of cluster s = s.data_start + (cluster - 2) * s.sectors_per_cluster

-- The sectors of one cluster behind the bytes `out`; `none` for a sector that cannot be read.
unfoldable pub read_cluster : ℕ → ℕ → ℕ → List ℕ → Fat16 → Option (List ℕ)
unfolding fat16_read_sector bytes_at
read_cluster zero lba max_bytes out s = some out
read_cluster (suc left) lba max_bytes out s =
    let rest = λ (f : Sector).
      read_cluster left (lba + 1) max_bytes
        (out ++ bytes_at f 0 (min (max_bytes - length out) fat16_sector_size)) s in
    if ltb (length out) max_bytes
    then elim (fat16_read_sector lba s) [ none ↦ none | some f ↦ rest f ]
    else some out

-- `kfree(p)`, and then the result.
unfoldable pub freed : {A : Type 0} → ℕ → A → Heap → Run (A × Heap)
freed p a h = elim (kfree p h) [ none ↦ fault | some h' ↦ done (a, h') ]

-- The loop over the clusters, with the buffer `p`: the value returned, and the bytes copied.
unfoldable pub chain_from : ℕ → ℕ → ℕ → ℕ → List ℕ → Heap → Fat16 → Run ((ℤ × List ℕ) × Heap)
unfolding read_cluster freed fat16_get_next_cluster
chain_from zero p cluster max_bytes out h s = unfinished
chain_from (suc fuel) p cluster max_bytes out h s =
    let rest = λ (next : ℕ) (out' : List ℕ). chain_from fuel p next max_bytes out' h s in
    if in_chain cluster && ltb (length out) max_bytes
    then elim (read_cluster s.sectors_per_cluster (lba_of cluster s) max_bytes out s) [
      | none ↦ freed p (minus_one, out) h
      | some out' ↦ elim (fat16_get_next_cluster cluster s) [
        | done next ↦ rest next out'
        | fault ↦ fault
        | unfinished ↦ unfinished
      ]
    ]
    else freed p (signed32 (length out), out) h

unfoldable pub fat16_read_cluster_chain : ℕ → ℕ → ℕ → Heap → Fat16 → Run ((ℤ × List ℕ) × Heap)
unfolding chain_from
fat16_read_cluster_chain fuel first_cluster max_bytes h s =
    let (p, h') = kmalloc fat16_sector_size h in
    if p == 0 then done ((minus_one, []), h') else chain_from fuel p first_cluster max_bytes [] h' s

-- The first of the four devices that is there.
unfoldable pub find_disk : ℕ → ℕ → (ℕ → Option (ℕ → Option Sector)) → Option (ℕ → Option Sector)
find_disk zero i devices = none
find_disk (suc left) i devices =
    let rest = find_disk left (i + 1) devices in elim (devices i) [ none ↦ rest | some d ↦ some d ]

-- `memcpy(&bpb, boot, sizeof(bpb))`
unfoldable pub with_bpb : Sector → Fat16 → Fat16
with_bpb f s = record s {
  bytes_per_sector = word16 f 11;
  sectors_per_cluster = f 13;
  reserved_sectors = word16 f 14;
  num_fats = f 16;
  root_entry_count = word16 f 17;
  fat_size_16 = word16 f 22;
}

unfoldable pub with_layout : Fat16 → Fat16
with_layout s =
    let root = s.reserved_sectors + s.num_fats * s.fat_size_16 in
    record s {
      fat_start = s.reserved_sectors;
      root_dir_start = root;
      data_start = root + (s.root_entry_count * 32 + fat16_sector_size - 1) / fat16_sector_size;
    }

-- The FAT's sectors from `i` on, read over what the block holds; an error leaves it.
unfoldable pub load_fat : ℕ → ℕ → Sector → Fat16 → Sector
unfolding fat16_read_sector
load_fat zero i cache s x = cache x
load_fat (suc left) i cache s x =
    let rest = λ (c : Sector). load_fat left (i + 1) c s x in
    elim (fat16_read_sector (s.fat_start + i) s) [
      | none ↦ rest cache
      | some f ↦ rest (λ y.
          if leb (i * fat16_sector_size) y && ltb y ((i + 1) * fat16_sector_size)
          then f (y - i * fat16_sector_size)
          else cache y)
    ]

unfoldable pub with_fat : Fat16 → Heap → Fat16 × Heap
unfolding load_fat
with_fat s h =
    let size = s.fat_size_16 * fat16_sector_size in
    let (p, h') = kmalloc size h in
    if p == 0 then (record s { fat_cache = none }, h') else (
      record s { fat_cache = some (size, load_fat s.fat_size_16 0 (λ x. h'.memory (p + x)) s) },
      h',
    )

-- `fat16_init` behind the boot sector, and as a whole.
unfoldable pub mount_boot : Fat16 → Heap → Fat16 × Heap
unfolding with_layout with_fat
mount_boot s h =
    if s.bytes_per_sector != fat16_sector_size
    then (s, h)
    else if s.fat_size_16 == 0
    then (s, h)
    else with_fat (with_layout s) h

unfoldable pub fat16_init : (ℕ → Option (ℕ → Option Sector)) → Fat16 → Heap → Run (Fat16 × Heap)
unfolding find_disk with_bpb mount_boot fat16_read_sector freed
fat16_init devices s h =
    let s₁ = record s { disk = find_disk 4 0 devices } in
    let (boot, h') = kmalloc fat16_sector_size h in
    elim (find_disk 4 0 devices) [
      | none ↦ done (s₁, h)
      | some d ↦ if boot == 0 then done (s₁, h') else elim (fat16_read_sector 0 s₁) [
        | none ↦ freed boot s₁ h'
        | some f ↦ elim (kfree boot h') [
          | none ↦ fault
          | some h'' ↦ done (mount_boot (with_bpb f s₁) h'')
        ]
      ]
    ]
