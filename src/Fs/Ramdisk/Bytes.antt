-- ===== src/Fs/Ramdisk/Bytes.antt =====
-- What src/fs/ramdisk.c reads back of what it has written.
use cro_os.Base.{
  ℕ, suc, ◌+◌, ◌-◌, ◌%◌, ◌^◌, ◌≤◌, ◌<◌, ◌≡◌, refl, ap, ap₂, sym, ◌∙◌, subst, arith, true, false,
  ltb, if◌then◌else◌, List, [], ◌∷◌, some, ℤ, pos, signed32, ltb_ℤ, get_or, set, length,
  get_or-set_self, length-set,
}
use cro_os.Fs.Ramdisk.{Ramdisk, zero_entry, opened, file}
use cro_os.Fs.Ramdisk.Io.{
  bytes, put_bytes, read_open, ramdisk_read, write_open, ramdisk_write, needs_room, clamped,
  seek_open, ramdisk_seek,
}

bytes_ext :
    (f : ℕ → ℕ) (a : ℕ) (xs : List ℕ)
    → ((k : ℕ) → k < length xs → f (a + k) ≡ get_or xs k 0)
    → bytes f a (length xs) ≡ xs
bytes_ext f a [] h = refl
bytes_ext f a (x ∷ xs) h =
    ap₂ (λ y ys. y ∷ ys) (ap (λ b. f b) (omega arith) ∙ h 0 (omega arith))
      (bytes_ext f (a + 1) xs (λ k u. ap (λ b. f b) (omega arith) ∙ h (suc k) (omega arith)))

put_at :
    (a k : ℕ) (xs : List ℕ) (mem : ℕ → ℕ)
    → k < length xs
    → put_bytes a xs mem (a + k) ≡ get_or xs k 0
unfolding put_bytes
put_at a k xs mem h = let e : a + k - a ≡ k = omega arith in rw e (ground arith)

pub bytes-put_bytes :
    (a : ℕ) (xs : List ℕ) (mem : ℕ → ℕ) → bytes (put_bytes a xs mem) a (length xs) ≡ xs
bytes-put_bytes a xs mem = bytes_ext (put_bytes a xs mem) a xs (λ k h. put_at a k xs mem h)

before_end : (p z : ℕ) → p < z → z < 2 ^ 31 → ltb_ℤ (signed32 p) (signed32 z) ≡ true
before_end p z h k = ground arith

all_there :
    (p z n : ℕ)
    → p + n ≤ z
    → z < 2 ^ 31
    → (if ltb n ((z + 2 ^ 32 - p) % 2 ^ 32) then n else (z + 2 ^ 32 - p) % 2 ^ 32) ≡ n
all_there p z n h k = ground arith

signed_small : (n : ℕ) → n < 2 ^ 31 → signed32 n ≡ pos n
signed_small n h = ground arith

-- A read of `n` bytes that the file has behind its position.
read_open_lem :
    (i idx n p z : ℕ) (s : Ramdisk)
    → get_or s.rd_open_pos i 0 ≡ p
    → (file idx s).size ≡ z
    → p < z
    → z < 2 ^ 31
    → p + n ≤ z
    → ((read_open i idx n s).0 ≡ pos n)
      × ((read_open i idx n s).1 ≡ bytes s.heap.memory ((file idx s).contents + p) n)
unfolding read_open
read_open_lem i idx n p z s ep ez less small fits =
    rw (ep, ez, before_end p z less small, all_there p z n fits small, signed_small n (omega arith))
      (refl, refl)

abbrev position : ℕ → Ramdisk → ℕ
position i s = get_or s.rd_open_pos i 0

-- What a write that fits leaves at the descriptor `i` and in the file `idx`.
module _ (i idx : ℕ) (buf : List ℕ) (s : Ramdisk) (hi : i < length s.rd_open_pos)
    (hidx : idx < length s.rd_files) (hp : position i s + length buf < 2 ^ 31) where
  abbrev written : Ramdisk
  written = (write_open i idx buf s).1

  new_size : (file idx written).size ≡ (
      if ltb (file idx s).size (position i s + length buf)
      then position i s + length buf
      else (file idx s).size)
  unfolding write_open
  new_size =
      let e : (position i s + length buf) % 2 ^ 32 ≡ position i s + length buf = omega arith in
      ap (λ f. f.size) (get_or-set_self s.rd_files idx _ zero_entry hidx) ∙ rw e refl

  same_contents : (file idx written).contents ≡ (file idx s).contents
  unfolding write_open
  same_contents = ap (λ f. f.contents) (get_or-set_self s.rd_files idx _ zero_entry hidx)

  abbrev back : Ramdisk
  back = record written { rd_open_pos = set written.rd_open_pos i (position i s) }

  position-back : position i back ≡ position i s
  unfolding write_open
  position-back =
      get_or-set_self written.rd_open_pos i (position i s) 0
        (omega (arith, hi, length-set s.rd_open_pos i ((position i s + length buf) % 2 ^ 32)))

  seek_back :
      (file idx s).size < 2 ^ 31
      → seek_open i idx (some (position i s)) written ≡ (pos (position i s), back)
  unfolding seek_open
  seek_back hz =
      let e : clamped (position i s) (file idx written).size ≡ position i s =
        ground (arith, new_size) in
      rw (e, signed_small (position i s) (omega arith)) refl

  read_back :
      0 < length buf
      → (file idx s).size < 2 ^ 31
      → ((read_open i idx (length buf) back).0 ≡ pos (length buf))
        × ((read_open i idx (length buf) back).1 ≡ buf)
  unfolding write_open
  read_back some_bytes hz =
      let (n, b) =
        read_open_lem i idx (length buf) (position i s) (file idx written).size back position-back
          refl (ground (arith, new_size)) (ground (arith, new_size)) (ground (arith, new_size)) in
      (
        n,
        b
            ∙ ap (λ a. bytes written.heap.memory (a + position i s) (length buf)) same_contents
            ∙ bytes-put_bytes ((file idx s).contents + position i s) buf s.heap.memory,
      )

write_dispatch :
    (fd : ℤ) (i idx : ℕ) (buf : List ℕ) (s : Ramdisk)
    → opened fd s ≡ some (i, idx)
    → needs_room (position i s) (length buf) (file idx s).capacity ≡ false
    → ramdisk_write fd buf s ≡ some (write_open i idx buf s)
unfolding ramdisk_write
write_dispatch fd i idx buf s o room = rw (o, room, ramdisk_write) refl

seek_dispatch :
    (fd : ℤ) (i idx off : ℕ) (s : Ramdisk)
    → opened fd s ≡ some (i, idx)
    → off < 2 ^ 31
    → ramdisk_seek fd off 0 s ≡ seek_open i idx (some off) s
unfolding ramdisk_seek
seek_dispatch fd i idx off s o h =
    let e : off % 2 ^ 32 ≡ off = omega arith in rw (o, e, ramdisk_seek) refl

read_dispatch :
    (fd : ℤ) (i idx n : ℕ) (s : Ramdisk)
    → opened fd s ≡ some (i, idx)
    → ramdisk_read fd n s ≡ read_open i idx n s
unfolding ramdisk_read
read_dispatch fd i idx n s o = rw (o, ramdisk_read) refl

wrote :
    (i idx : ℕ) (buf : List ℕ) (s : Ramdisk)
    → length buf < 2 ^ 31
    → (write_open i idx buf s).0 ≡ pos (length buf)
unfolding write_open
wrote i idx buf s h = signed_small (length buf) h

opened_written :
    (fd : ℤ) (i idx : ℕ) (buf : List ℕ) (s : Ramdisk)
    → opened fd (write_open i idx buf s).1 ≡ opened fd s
unfolding opened write_open
opened_written fd i idx buf s = refl

opened_sought :
    (fd : ℤ) (s : Ramdisk) (ps : List ℕ) → opened fd (record s { rd_open_pos = ps }) ≡ opened fd s
unfolding opened
opened_sought fd s ps = refl

-- A write that fits the file's block returns the number of bytes; behind a seek back to where it
-- began, a read of as many bytes returns that number and just the bytes written.
pub ramdisk_read-ramdisk_write :
    (fd : ℤ) (i idx : ℕ) (buf : List ℕ) (s : Ramdisk)
    → opened fd s ≡ some (i, idx)
    → i < length s.rd_open_pos
    → idx < length s.rd_files
    → needs_room (position i s) (length buf) (file idx s).capacity ≡ false
    → 0 < length buf
    → position i s + length buf < 2 ^ 31
    → (file idx s).size < 2 ^ 31
    → (s' : Ramdisk) × ((ramdisk_write fd buf s ≡ some (pos (length buf), s'))
        × ((ramdisk_seek fd (position i s) 0 s').0 ≡ pos (position i s))
        × (let r = ramdisk_read fd (length buf) (ramdisk_seek fd (position i s) 0 s').1 in
            (r.0 ≡ pos (length buf)) × (r.1 ≡ buf)))
ramdisk_read-ramdisk_write fd i idx buf s o hi hidx room some_bytes hp hz =
    let w : Ramdisk = written i idx buf s hi hidx hp in
    let b : Ramdisk = back i idx buf s hi hidx hp in
    let ow : opened fd w ≡ some (i, idx) = opened_written fd i idx buf s ∙ o in
    let ob : opened fd b ≡ some (i, idx) =
      opened_sought fd w (set w.rd_open_pos i (position i s)) ∙ ow in
    let sk : ramdisk_seek fd (position i s) 0 w ≡ (pos (position i s), b) =
      seek_dispatch fd i idx (position i s) w ow (omega arith)
      ∙ seek_back i idx buf s hi hidx hp hz in
    (
      w,
      (
        write_dispatch fd i idx buf s o room
            ∙ ap (λ z. some (z, w)) (wrote i idx buf s (omega arith)),
        ap (λ t. t.0) sk,
        subst
            (λ t.
              ((ramdisk_read fd (length buf) (t.1)).0 ≡ pos (length buf))
              × ((ramdisk_read fd (length buf) (t.1)).1 ≡ buf))
            (sym sk)
            (subst (λ r. (r.0 ≡ pos (length buf)) × (r.1 ≡ buf))
              (sym (read_dispatch fd i idx (length buf) b ob))
              (read_back i idx buf s hi hidx hp some_bytes hz)),
      ),
    )
