-- ===== src/Fs/Fat16/Chains.antt =====
-- The cluster chains of src/fs/fat16.c: a read ends, whatever the FAT says.
use cro_os.Base.{
  ℕ, zero, suc, ◌+◌, ◌-◌, ◌*◌, ◌≤◌, ◌<◌, min, ltb, ◌==◌, ◌&&◌, List, [], ◌++◌, some, Bool-cases,
  Option-cases, inl, inr, ◌≡◌, refl, subst, arith, ℤ, minus_one, signed32, length, length-append,
  ltb→lt, ◌⊎◌,
}
use cro_os.Mm.Kmalloc.{Heap, kmalloc, kfree}
use cro_os.Fs.Fat16.{
  Fat16, Sector, Run, done, fault, word16, fat16_sector_size, bytes_at, in_chain, lba_of,
  fat16_read_sector, fat16_get_next_cluster, read_cluster, freed, chain_from,
  fat16_read_cluster_chain,
}

-- A read of at most `n` bytes that has ended: with the bytes' number, with -1, or by a cluster
-- that the FAT does not have.
pub data IsRead (n : ℕ) : Run ((ℤ × List ℕ) × Heap) → Type 0 where
  copied :
      (out : List ℕ) (h : Heap) → length out ≤ n → IsRead n (done ((signed32 (length out), out), h))
  failed : (out : List ℕ) (h : Heap) → length out ≤ n → IsRead n (done ((minus_one, out), h))
  outside : IsRead n fault

length-bytes_at : (f : Sector) (i n : ℕ) → length (bytes_at f i n) ≡ n
unfolding bytes_at
length-bytes_at f i zero = refl
length-bytes_at f i (suc n) = ground (arith, length-bytes_at f (i + 1) n)

grown : List ℕ → Sector → ℕ → List ℕ
grown out f n = out ++ bytes_at f 0 (min (n - length out) fat16_sector_size)

length-grown :
    (out : List ℕ) (f : Sector) (n : ℕ)
    → length (grown out f n) ≡ length out + min (n - length out) 512
unfolding grown
length-grown out f n = ground (
  arith,
  length-append out (bytes_at f 0 (min (n - length out) 512)),
  length-bytes_at f 0 (min (n - length out) 512),
)

-- The rest of a cluster's sectors, behind one more.
Later : ℕ → ℕ → ℕ → List ℕ → Fat16 → List ℕ → Type 0
Later left lba n out s out' =
    (f : Sector) × (read_cluster left (lba + 1) n (grown out f n) s ≡ some out')

read_cluster-suc :
    (left lba n : ℕ) (out : List ℕ) (s : Fat16) (out' : List ℕ)
    → read_cluster (suc left) lba n out s ≡ some out'
    → (out ≡ out') × (n ≤ length out) ⊎ (length out < n) × Later left lba n out s out'
unfolding read_cluster grown Later
read_cluster-suc left lba n out s out' e = elim (Bool-cases (ltb (length out) n)) [
  | inl h ↦ elim (Option-cases (fat16_read_sector lba s)) [
    | inl r ↦ ground (arith, h, r, e)
    | inr (f, r) ↦ inr (ltb→lt (length out) n h, (f, ground (arith, h, r, e)))
  ]
  | inr h ↦ inl (ground (arith, h, e), ground (arith, h, e))
]

-- A cluster's bytes stay within the buffer, and nothing is taken away.
read_cluster-le :
    (left lba n : ℕ) (out : List ℕ) (s : Fat16) (out' : List ℕ)
    → length out ≤ n
    → read_cluster left lba n out s ≡ some out'
    → (length out ≤ length out') × (length out' ≤ n)
unfolding read_cluster Later
read_cluster-le zero lba n out s out' h e =
    let e' : out ≡ out' = cc in
    subst (λ o. (length out ≤ length o) × (length o ≤ n)) e' (omega arith, h)
read_cluster-le (suc left) lba n out s out' h e = elim (read_cluster-suc left lba n out s out' e) [
  | inl (e', _) ↦ subst (λ o. (length out ≤ length o) × (length o ≤ n)) e' (omega arith, h)
  | inr (lt, (f, r)) ↦
      let (a, b) =
        read_cluster-le left (lba + 1) n (grown out f n) s out'
          (omega (arith, length-grown out f n)) r in
      (omega (arith, length-grown out f n), b)
]

-- A cluster of at least one sector brings a byte while there is room.
read_cluster-lt :
    (left lba n : ℕ) (out : List ℕ) (s : Fat16) (out' : List ℕ)
    → 0 < left
    → length out < n
    → read_cluster left lba n out s ≡ some out'
    → (length out < length out') × (length out' ≤ n)
unfolding Later
read_cluster-lt zero lba n out s out' z h e = elim z [ ]
read_cluster-lt (suc left) lba n out s out' z h e =
    elim (read_cluster-suc left lba n out s out' e) [
      | inl (e', le) ↦ (omega arith, omega arith)
      | inr (lt, (f, r)) ↦
          let (a, b) =
            read_cluster-le left (lba + 1) n (grown out f n) s out'
              (omega (arith, length-grown out f n)) r in
          (omega (arith, length-grown out f n), b)
    ]

fat16_get_next_cluster-cases :
    (cluster : ℕ) (s : Fat16)
    → (fat16_get_next_cluster cluster s ≡ fault)
      ⊎ ((next : ℕ) × (fat16_get_next_cluster cluster s ≡ done next))
unfolding fat16_get_next_cluster
fat16_get_next_cluster-cases cluster s = elim (Option-cases s.fat_cache) [
  | inl e ↦ inr (0xffff, ground (arith, e))
  | inr ((size, cache), e) ↦ elim (Bool-cases (ltb (cluster * 2 + 1) size)) [
    | inl h ↦ inr (word16 cache (cluster * 2), ground (arith, e, h))
    | inr h ↦ inl (ground (arith, e, h))
  ]
]

freed-cases :
    (p : ℕ) (r : ℤ × List ℕ) (h : Heap)
    → (freed p r h ≡ fault) ⊎ ((h' : Heap) × (freed p r h ≡ done (r, h')))
unfolding freed
freed-cases p r h = elim (Option-cases (kfree p h)) [
  | inl e ↦ inl (ground (arith, e))
  | inr (h', e) ↦ inr (h', ground (arith, e))
]

freed-copied :
    (p n : ℕ) (out : List ℕ) (h : Heap)
    → length out ≤ n
    → IsRead n (freed p (signed32 (length out), out) h)
freed-copied p n out h le = elim (freed-cases p (signed32 (length out), out) h) [
  | inl e ↦ rw e outside
  | inr (h', e) ↦ rw e (copied out h' le)
]

freed-failed :
    (p n : ℕ) (out : List ℕ) (h : Heap) → length out ≤ n → IsRead n (freed p (minus_one, out) h)
freed-failed p n out h le = elim (freed-cases p (minus_one, out) h) [
  | inl e ↦ rw e outside
  | inr (h', e) ↦ rw e (failed out h' le)
]

-- Each of the steps that a round of the loop may take.
data Round (fuel p cluster n : ℕ) (out : List ℕ) (h : Heap) (s : Fat16) : Type 0 where
  ends :
      chain_from (suc fuel) p cluster n out h s ≡ freed p (signed32 (length out), out) h
      → Round fuel p cluster n out h s
  stops :
      chain_from (suc fuel) p cluster n out h s ≡ freed p (minus_one, out) h
      → Round fuel p cluster n out h s
  leaves : chain_from (suc fuel) p cluster n out h s ≡ fault → Round fuel p cluster n out h s
  goes_on :
      length out < n
      → (out' : List ℕ) (next : ℕ)
      → read_cluster s.sectors_per_cluster (lba_of cluster s) n out s ≡ some out'
      → chain_from (suc fuel) p cluster n out h s ≡ chain_from fuel p next n out' h s
      → Round fuel p cluster n out h s

chain_from-Round :
    (fuel p cluster n : ℕ) (out : List ℕ) (h : Heap) (s : Fat16) → Round fuel p cluster n out h s
unfolding chain_from
chain_from-Round fuel p cluster n out h s =
    elim (Bool-cases (in_chain cluster && ltb (length out) n)) [
      | inr b ↦ ends (ground (arith, b))
      | inl b ↦
          elim (Option-cases (read_cluster s.sectors_per_cluster (lba_of cluster s) n out s)) [
            | inl r ↦ stops (ground (arith, b, r))
            | inr (out', r) ↦ elim (fat16_get_next_cluster-cases cluster s) [
              | inl f ↦ leaves (ground (arith, b, r, f))
              | inr (next, f) ↦ goes_on (ground (arith, b)) out' next r (ground (arith, b, r, f))
            ]
          ]
    ]

-- Each round brings a byte, so that there are at most as many as there is room.
chain_from-IsRead :
    (fuel p cluster n : ℕ) (out : List ℕ) (h : Heap) (s : Fat16)
    → 0 < s.sectors_per_cluster
    → length out ≤ n
    → n < fuel + length out
    → IsRead n (chain_from fuel p cluster n out h s)
chain_from-IsRead zero p cluster n out h s z le lt = let f : ⊥ = omega arith in elim f [ ]
chain_from-IsRead (suc fuel) p cluster n out h s z le lt =
    elim (chain_from-Round fuel p cluster n out h s) [
      | ends e ↦ rw e (freed-copied p n out h le)
      | stops e ↦ rw e (freed-failed p n out h le)
      | leaves e ↦ rw e outside
      | goes_on l out' next r e ↦
          let (a, b) =
            read_cluster-lt s.sectors_per_cluster (lba_of cluster s) n out s out' z l r in
          rw e (chain_from-IsRead fuel p next n out' h s z b (omega arith))
    ]

-- On a disk with at least one sector per cluster and for every FAT, cyclic or not, a read of at
-- most `n` bytes ends within `n + 1` clusters, and copies no more than `n` bytes.
pub fat16_read_cluster_chain-IsRead :
    (n first : ℕ) (h : Heap) (s : Fat16)
    → 0 < s.sectors_per_cluster
    → IsRead n (fat16_read_cluster_chain (suc n) first n h s)
unfolding fat16_read_cluster_chain
fat16_read_cluster_chain-IsRead n first h s z =
    elim (Bool-cases ((kmalloc fat16_sector_size h).0 == 0)) [
      | inl e ↦ rw e (failed [] (kmalloc fat16_sector_size h).1 (omega arith))
      | inr e ↦ rw e (
          chain_from-IsRead (suc n) (kmalloc fat16_sector_size h).0 first n []
            (kmalloc fat16_sector_size h).1 s z (omega arith) (omega arith))
    ]
