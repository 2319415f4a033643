-- ===== src/Fs/Ramdisk/Io.antt =====
-- Reading, writing and positions of src/fs/ramdisk.c.
use cro_os.Base.{
  ℕ, zero, suc, ◌+◌, ◌-◌, ◌*◌, ◌/◌, ◌%◌, ◌^◌, Bool, ltb, leb, ◌==◌, ◌&&◌, not, if◌then◌else◌, List,
  [], ◌∷◌, Option, none, some, ℤ, pos, minus_one, signed32, ltb_ℤ, get_or, set, length,
}
use cro_os.Mm.Kmalloc.{Heap, kmalloc, kfree, copy}
use cro_os.Fs.Ramdisk.{Ramdisk, zero_entry, opened, file}

-- The `n` bytes at an address, and a copy of bytes to it.
abbrev pub bytes : (ℕ → ℕ) → ℕ → ℕ → List ℕ
bytes mem a zero = []
bytes mem a (suc n) = mem a ∷ bytes mem (a + 1) n

unfoldable pub put_bytes : ℕ → List ℕ → (ℕ → ℕ) → ℕ → ℕ
put_bytes a xs mem x = if leb a x && ltb x (a + length xs) then get_or xs (x - a) 0 else mem x

-- The value returned, the bytes put into the caller's buffer, and the state.
unfoldable pub read_open : ℕ → ℕ → ℕ → Ramdisk → ℤ × List ℕ × Ramdisk
read_open i idx size s =
    let p = get_or s.rd_open_pos i 0 in
    let f = file idx s in
    let avail = (f.size + 2 ^ 32 - p) % 2 ^ 32 in
    let to_read = if ltb size avail then size else avail in
    if not (ltb_ℤ (signed32 p) (signed32 f.size)) then (pos 0, [], s) else (
      signed32 to_read,
      bytes s.heap.memory (f.contents + p) to_read,
      record s { rd_open_pos = set s.rd_open_pos i ((p + to_read) % 2 ^ 32) },
    )

unfoldable pub ramdisk_read : ℤ → ℕ → Ramdisk → ℤ × List ℕ × Ramdisk
unfolding opened read_open
ramdisk_read fd size s = elim (opened fd s) [
  | none ↦ (minus_one, [], s)
  | some (i, idx) ↦ read_open i idx size s
]

-- The file `idx` with the larger block `new_data`, the old one copied and freed.
unfoldable pub grow : ℕ → ℕ → ℕ → Heap → Ramdisk → Option Ramdisk
unfolding zero_entry
grow idx new_cap new_data h s =
    let f = file idx s in
    let files = set s.rd_files idx (record f { contents = new_data; capacity = new_cap }) in
    if f.contents == 0
    then some (record s { rd_files = files; heap = h })
    else elim (kfree f.contents (record h { memory = copy new_data f.contents f.size h.memory })) [
      | none ↦ none
      | some h' ↦ some (record s { rd_files = files; heap = h' })
    ]

-- The bytes copied behind the position, which moves on; the size grows with it.
unfoldable pub write_open : ℕ → ℕ → List ℕ → Ramdisk → ℤ × Ramdisk
unfolding put_bytes zero_entry
write_open i idx buf s =
    let p = get_or s.rd_open_pos i 0 in
    let f = file idx s in
    let p' = (p + length buf) % 2 ^ 32 in
    (
      signed32 (length buf),
      record s {
        rd_open_pos = set s.rd_open_pos i p';
        rd_files = set s.rd_files idx (record f { size = if ltb f.size p' then p' else f.size });
        heap = record (s.heap) { memory = put_bytes (f.contents + p) buf s.heap.memory };
      },
    )

abbrev pub new_capacity : ℕ → ℕ → ℕ
new_capacity p size = (p + size + 4095) % 2 ^ 32 / 4096 * 4096

unfoldable pub write_grown : ℕ → ℕ → List ℕ → Ramdisk → Option (ℤ × Ramdisk)
unfolding grow write_open
write_grown i idx buf s =
    let new_cap = new_capacity (get_or s.rd_open_pos i 0) (length buf) in
    let (new_data, h) = kmalloc new_cap s.heap in
    if new_data == 0
    then some (minus_one, record s { heap = h })
    else elim (grow idx new_cap new_data h s) [
      | none ↦ none
      | some s' ↦ some (write_open i idx buf s')
    ]

-- `pos + (int)size > (int)capacity`
abbrev pub needs_room : ℕ → ℕ → ℕ → Bool
needs_room p size capacity = ltb_ℤ (signed32 capacity) (signed32 ((p + size) % 2 ^ 32))

unfoldable pub ramdisk_write : ℤ → List ℕ → Ramdisk → Option (ℤ × Ramdisk)
unfolding opened write_open write_grown zero_entry
ramdisk_write fd buf s = elim (opened fd s) [
  | none ↦ some (minus_one, s)
  | some (i, idx) ↦
      if needs_room (get_or s.rd_open_pos i 0) (length buf) (file idx s).capacity
      then write_grown i idx buf s
      else some (write_open i idx buf s)
]

-- The position asked for, by `whence`; `none` for another one.
abbrev pub sought : ℕ → ℕ → ℕ → ℕ → Option ℕ
sought whence offset p size =
    if whence == 0
    then some (offset % 2 ^ 32)
    else if whence == 1
    then some ((p + offset) % 2 ^ 32)
    else if whence == 2
    then some ((size + offset) % 2 ^ 32)
    else none

-- Not below 0, nor beyond the size.
abbrev pub clamped : ℕ → ℕ → ℕ
clamped new_pos size =
    let p = if leb (2 ^ 31) new_pos then 0 else new_pos in if ltb size p then size else p

unfoldable pub seek_open : ℕ → ℕ → Option ℕ → Ramdisk → ℤ × Ramdisk
seek_open i idx none s = (minus_one, s)
seek_open i idx (some p) s = (
  signed32 (clamped p (file idx s).size),
  record s { rd_open_pos = set s.rd_open_pos i (clamped p (file idx s).size) },
)

unfoldable pub ramdisk_seek : ℤ → ℕ → ℕ → Ramdisk → ℤ × Ramdisk
unfolding opened seek_open
ramdisk_seek fd offset whence s = elim (opened fd s) [
  | none ↦ (minus_one, s)
  | some (i, idx) ↦
      seek_open i idx (sought whence offset (get_or s.rd_open_pos i 0) (file idx s).size) s
]

unfoldable pub ramdisk_truncate : ℤ → ℕ → Ramdisk → ℤ × Ramdisk
unfolding opened zero_entry
ramdisk_truncate fd size s = elim (opened fd s) [
  | none ↦ (minus_one, s)
  | some (i, idx) ↦
      (pos 0, record s { rd_files = set s.rd_files idx (record (file idx s) { size = size }) })
]
