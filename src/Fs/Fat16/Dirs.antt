-- ===== src/Fs/Fat16/Dirs.antt =====
-- Names, directories and files of src/fs/fat16.c. A path is its text, the bytes before the zero
-- byte. A directory entry is the sector that it stands in, from its first byte on.
use cro_os.Base.{
  ℕ, zero, suc, ◌+◌, ◌-◌, ◌%◌, ◌^◌, bit_or, bit_and, Bool, true, false, ltb, ◌==◌, ◌!=◌, ◌&&◌, ◌||◌,
  if◌then◌else◌, List, [], ◌∷◌, ◌++◌, Option, none, some, ℤ, minus_one, signed32, length, take,
  replicate,
}
use cro_os.Mm.Kmalloc.{Heap, kmalloc, kfree}
use cro_os.Fs.Fat16.{
  Fat16, Sector, Run, done, fault, unfinished, fat16_sector_size, word16, word32, bytes_at,
  in_chain, lba_of, fat16_read_sector, fat16_get_next_cluster, fat16_read_cluster_chain, freed,
}

-- The characters of a padded part, up to its first space, in lower case.
unfoldable pub lower_part : ℕ → Sector → ℕ → List ℕ
lower_part zero raw i = []
lower_part (suc left) raw i =
    let rest = lower_part left raw (i + 1) in if raw i == 32 then [] else bit_or (raw i) 0x20 ∷ rest

unfoldable pub fat16_name_to_string : Sector → List ℕ
unfolding lower_part
fat16_name_to_string raw =
    lower_part 8 raw 0 ++ (if raw 8 != 32 then 46 ∷ lower_part 3 raw 8 else [])

-- `c & ~0x20`
abbrev pub upper : ℕ → ℕ
upper c = bit_and c 0xdf

-- The characters before the point, at most `left`, and what is left of the name.
unfoldable pub base_part : ℕ → List ℕ → List ℕ × List ℕ
base_part zero cs = ([], cs)
base_part (suc left) [] = ([], [])
base_part (suc left) (c ∷ cs) =
    let (out, rest) = base_part left cs in if c == 46 then ([], c ∷ cs) else (upper c ∷ out, rest)

unfoldable pub upper_all : List ℕ → List ℕ
upper_all [] = []
upper_all (c ∷ cs) = upper c ∷ upper_all cs

unfoldable pub extension : List ℕ → List ℕ
unfolding upper_all
extension [] = []
extension (c ∷ cs) = if c == 46 then upper_all (take 3 cs) else []

-- What `memset` to spaces leaves behind the characters.
abbrev pub padded : ℕ → List ℕ → List ℕ
padded n cs = cs ++ replicate (n - length cs) 32

unfoldable pub fat16_string_to_name : List ℕ → List ℕ
unfolding base_part extension
fat16_string_to_name name =
    let (out, rest) = base_part 8 name in padded 8 out ++ padded 3 (extension rest)

-- `memcmp(a, b, 11) == 0`
abbrev pub same_bytes : List ℕ → List ℕ → Bool
same_bytes [] ys = true
same_bytes (x ∷ xs) [] = false
same_bytes (x ∷ xs) (y ∷ ys) = (x == y) && same_bytes xs ys

abbrev pub at_offset : Sector → ℕ → Sector
at_offset f off x = f (off + x)

-- Deleted, or with an attribute of a long name or a volume label.
abbrev pub skipped : Sector → Bool
skipped de = (de 0 == 0xe5) || (bit_and (de 11) 0x0f != 0) || (bit_and (de 11) 0x08 != 0)

-- What the entries of a sector say: the entry asked for, the end of the directory, or neither.
pub data Scan : Type 0 where
  entry : Sector → Scan
  end_of_dir : Scan
  not_here : Scan

unfoldable pub scan_sector : ℕ → ℕ → List ℕ → Sector → Scan
unfolding bytes_at
scan_sector zero off target f = not_here
scan_sector (suc left) off target f =
    let rest = scan_sector left (off + 32) target f in
    let de = at_offset f off in
    if de 0 == 0
    then end_of_dir
    else if skipped de
    then rest
    else if same_bytes (bytes_at de 0 11) target
    then entry de
    else rest

-- The sectors of one cluster: the answer with the heap then, or `none` to go on. The buffer is
-- freed behind each sector.
unfoldable pub scan_cluster :
    ℕ → ℕ → ℕ → List ℕ → Heap → Fat16 → Run (Option (Option Sector) × Heap)
unfolding scan_sector freed
scan_cluster zero p lba target h s = done (none, h)
scan_cluster (suc left) p lba target h s =
    let rest = λ (h' : Heap). scan_cluster left p (lba + 1) target h' s in
    elim (fat16_read_sector lba s) [
      | none ↦ freed p (some none) h
      | some f ↦ elim (scan_sector 16 0 target f) [
        | entry de ↦ freed p (some (some de)) h
        | end_of_dir ↦ freed p (some none) h
        | not_here ↦ elim (kfree p h) [ none ↦ fault | some h' ↦ rest h' ]
      ]
    ]

-- The search along a directory's clusters; the answer `none` is -1.
unfoldable pub find_from : ℕ → ℕ → List ℕ → Heap → Fat16 → Run (Option Sector × Heap)
unfolding scan_cluster fat16_get_next_cluster
find_from zero cluster target h s = unfinished
find_from (suc fuel) cluster target h s =
    let rest = λ (next : ℕ) (h' : Heap). find_from fuel next target h' s in
    let (p, h₁) = kmalloc fat16_sector_size h in
    if in_chain cluster
    then (if p == 0
        then done (none, h₁)
        else elim (scan_cluster s.sectors_per_cluster p (lba_of cluster s) target h₁ s) [
          | fault ↦ fault
          | unfinished ↦ unfinished
          | done (some found, h₂) ↦ done (found, h₂)
          | done (none, h₂) ↦ elim (fat16_get_next_cluster cluster s) [
            | done next ↦ rest next h₂
            | fault ↦ fault
            | unfinished ↦ unfinished
          ]
        ])
    else done (none, h)

unfoldable pub fat16_find_entry : ℕ → ℕ → List ℕ → Heap → Fat16 → Run (Option Sector × Heap)
unfolding find_from fat16_string_to_name
fat16_find_entry fuel dir_cluster name h s =
    find_from fuel dir_cluster (fat16_string_to_name name) h s

unfoldable pub read_entry : ℕ → ℕ → Option Sector → Heap → Fat16 → Run ((ℤ × List ℕ) × Heap)
unfolding fat16_read_cluster_chain
read_entry fuel max_size none h s = done ((minus_one, []), h)
read_entry fuel max_size (some de) h s =
    let size = word32 de 28 in
    if bit_and (de 11) 0x10 != 0
    then done ((minus_one, []), h)
    else fat16_read_cluster_chain fuel (word16 de 26) (if ltb max_size size then max_size else size)
        h s

unfoldable pub fat16_read_file : ℕ → List ℕ → ℕ → Heap → Fat16 → Run ((ℤ × List ℕ) × Heap)
unfolding fat16_find_entry read_entry
fat16_read_file fuel path max_size h s = elim (fat16_find_entry fuel 0 path h s) [
  | fault ↦ fault
  | unfinished ↦ unfinished
  | done (found, h') ↦ read_entry fuel max_size found h' s
]

unfoldable pub fat16_write_file : List ℕ → List ℕ → ℤ
fat16_write_file path buf = minus_one

-- The line of an entry in a listing.
unfoldable pub listed : Sector → List ℕ
unfolding fat16_name_to_string
listed de = fat16_name_to_string de ++ (if bit_and (de 11) 0x10 != 0 then 47 ∷ 10 ∷ [] else 10 ∷ [])

-- The lines of a sector's entries behind `out`, and whether the directory ends in it.
unfoldable pub list_sector : ℕ → ℕ → List ℕ → Sector → Bool × List ℕ
unfolding listed
list_sector zero off out f = (false, out)
list_sector (suc left) off out f =
    let de = at_offset f off in
    let rest = list_sector left (off + 32) (if skipped de then out else out ++ listed de) f in
    if de 0 == 0 then (true, out) else rest

-- The sectors of one cluster: whether the listing ends there, and the text.
unfoldable pub list_cluster : ℕ → ℕ → List ℕ → Fat16 → Bool × List ℕ
unfolding list_sector
list_cluster zero lba out s = (false, out)
list_cluster (suc left) lba out s =
    let rest = λ (o : List ℕ). list_cluster left (lba + 1) o s in
    elim (fat16_read_sector lba s) [
      | none ↦ (true, out)
      | some f ↦
          let (ended, o) = list_sector 16 0 out f in
          elim ended [ true ↦ (true, o) | false ↦ rest o ]
    ]

unfoldable pub list_from : ℕ → ℕ → ℕ → List ℕ → Heap → Fat16 → Run (List ℕ × Heap)
unfolding list_cluster freed fat16_get_next_cluster
list_from zero cluster buf_size out h s = unfinished
list_from (suc fuel) cluster buf_size out h s =
    let rest = λ (next : ℕ) (o : List ℕ) (h' : Heap). list_from fuel next buf_size o h' s in
    let (p, h₁) = kmalloc fat16_sector_size h in
    if in_chain cluster && ltb (length out) ((buf_size + 2 ^ 32 - 64) % 2 ^ 32)
    then (if p == 0
        then done (out, h₁)
        else let (ended, o) = list_cluster s.sectors_per_cluster (lba_of cluster s) out s in
          elim ended [
            | true ↦ freed p o h₁
            | false ↦ elim (kfree p h₁) [
              | none ↦ fault
              | some h₂ ↦ elim (fat16_get_next_cluster cluster s) [
                | done next ↦ rest next o h₂
                | fault ↦ fault
                | unfinished ↦ unfinished
              ]
            ]
          ])
    else done (out, h)

-- The text's length and the text; the value -1 for a path that is not found.
unfoldable pub list_dir_at : ℕ → ℕ → ℕ → Heap → Fat16 → Run ((ℤ × List ℕ) × Heap)
unfolding list_from
list_dir_at fuel cluster buf_size h s = elim (list_from fuel cluster buf_size [] h s) [
  | fault ↦ fault
  | unfinished ↦ unfinished
  | done (out, h') ↦ done ((signed32 (length out), out), h')
]

unfoldable pub fat16_list_dir : ℕ → List ℕ → ℕ → Heap → Fat16 → Run ((ℤ × List ℕ) × Heap)
unfolding list_dir_at fat16_find_entry
fat16_list_dir fuel [] buf_size h s = list_dir_at fuel 0 buf_size h s
fat16_list_dir fuel (c ∷ path) buf_size h s = elim (fat16_find_entry fuel 0 (c ∷ path) h s) [
  | fault ↦ fault
  | unfinished ↦ unfinished
  | done (none, h') ↦ done ((minus_one, []), h')
  | done (some de, h') ↦ list_dir_at fuel (word16 de 26) buf_size h' s
]
