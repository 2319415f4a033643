-- ===== src/Mm/Vmm/Create.antt =====
-- `vmm_create_dir` of src/mm/vmm.c: a new directory over the kernel's tables.
use cro_os.Base.{
  ℕ, zero, suc, ◌+◌, ◌*◌, ◌/◌, ◌%◌, ◌≤◌, ◌<◌, ◌≡◌, ◌≢◌, refl, sym, ap, subst, ◌∙◌, ltb, leb, ◌==◌,
  ◌&&◌, if◌then◌else◌, arith, Bool-cases, inl, inr, ◌⊎◌,
}
use cro_os.Mm.Pmm.{Pmm, page_size, pmm_alloc_page}
use cro_os.Mm.Pmm.Bitmap.{used}
use cro_os.Mm.Pmm.Alloc.{Takes, pmm_alloc_page_lem}
use cro_os.Mm.Vmm.{
  Vmm, page_dir_index, page_tab_index, is_present, frame_of, store, zero_frame, entry, vmm_get_phys,
  share_entries, vmm_create_dir,
}
use cro_os.Mm.Vmm.Spaces.{IsFrame, IsSpace, apart, resolve, vmm_get_phys_absent, vmm_get_phys_table}
use cro_os.Mm.Vmm.Tables.{store_ne, zero_inside, zero_outside}

-- The loop writes into the new directory alone, and takes over the entries that are present.
module _ (dir : ℕ) (aligned : dir % page_size ≡ 0) where
  step : ℕ → Vmm → Vmm
  step i s =
      let e = entry s s.kernel_dir i in
      if is_present e then record s { words = store (dir + 4 * i) e s.words } else s

  step_elsewhere :
      (i a k : ℕ) (s : Vmm)
      → i < 1024
      → k < 1024
      → a % page_size ≡ 0
      → a ≢ dir
      → entry (step i s) a k ≡ entry s a k
  unfolding step
  step_elsewhere i a k s hi hk al ne = elim (Bool-cases (is_present (entry s s.kernel_dir i))) [
    | inl here ↦
        rw here (store_ne (dir + 4 * i) _ s.words (a + 4 * k) (apart a dir k i al aligned hk hi ne))
    | inr gone ↦ rw gone refl
  ]

  step_here :
      (i j : ℕ) (s : Vmm)
      → entry (step i s) dir j ≡ (
          if (i == j) && is_present (entry s s.kernel_dir i)
          then entry s s.kernel_dir i
          else entry s dir j)
  unfolding step store
  step_here i j s = ground arith

  kernel_dir-step : (i : ℕ) (s : Vmm) → (step i s).kernel_dir ≡ s.kernel_dir
  unfolding step
  kernel_dir-step i s = ground arith

  share_step :
      (left i j k : ℕ) (s : Vmm)
      → entry (share_entries left (i + 1) dir (step i s)) dir j ≡ (
          if (leb (i + 1) j && ltb j (i + 1 + left)) && is_present (entry (step i s) k j)
          then entry (step i s) k j
          else entry (step i s) dir j)
      → entry (step i s) k j ≡ entry s k j
      → entry (step i s) dir j
        ≡ (if (i == j) && is_present (entry s k i) then entry s k i else entry s dir j)
      → entry (share_entries left (i + 1) dir (step i s)) dir j ≡ (
          if (leb i j && ltb j (i + suc left)) && is_present (entry s k j)
          then entry s k j
          else entry s dir j)
  share_step left i j k s ih old new = ground arith

  shared_elsewhere :
      (left i a k : ℕ) (s : Vmm)
      → i + left ≤ 1024
      → k < 1024
      → a % page_size ≡ 0
      → a ≢ dir
      → entry (share_entries left i dir s) a k ≡ entry s a k
  unfolding share_entries step
  shared_elsewhere zero i a k s h hk al ne = refl
  shared_elsewhere (suc left) i a k s h hk al ne =
      shared_elsewhere left (i + 1) a k (step i s) (omega arith) hk al ne
      ∙ step_elsewhere i a k s (omega arith) hk al ne

  -- `k` is the kernel's directory, which the loop leaves alone.
  shared_here :
      (left i j k : ℕ) (s : Vmm)
      → i + left ≤ 1024
      → j < 1024
      → k % page_size ≡ 0
      → k ≢ dir
      → s.kernel_dir ≡ k
      → entry (share_entries left i dir s) dir j ≡ (
          if (leb i j && ltb j (i + left)) && is_present (entry s k j)
          then entry s k j
          else entry s dir j)
  unfolding share_entries step
  shared_here zero i j k s h hj al ne e = ground arith
  shared_here (suc left) i j k s h hj al ne e =
      let ih =
        shared_here left (i + 1) j k (step i s) (omega arith) hj al ne (kernel_dir-step i s ∙ e) in
      let old = step_elsewhere i k j s (omega arith) hj al ne in
      let new =
        subst
          (λ x.
            entry (step i s) dir j
            ≡ (if (i == j) && is_present (entry s x i) then entry s x i else entry s dir j))
          e (step_here i j s) in
      share_step left i j k s ih old new

  shared_kernel : (left i : ℕ) (s : Vmm) → (share_entries left i dir s).kernel_dir ≡ s.kernel_dir
  unfolding share_entries step
  shared_kernel zero i s = refl
  shared_kernel (suc left) i s = shared_kernel left (i + 1) (step i s) ∙ kernel_dir-step i s

-- What the loop leaves, for the new directory `dir` over the state `s`, in which it is zeroed.
module _ (k p : ℕ) (s : Vmm) (r : ℕ × Pmm) (space : IsSpace k s) (e : s.kernel_dir ≡ k)
    (t : Takes s.pmm p r) where
  abbrev zeroed : Vmm
  zeroed = record s { words = zero_frame r.0 s.words; pmm = r.1 }

  abbrev shared : Vmm
  shared = share_entries 1024 0 r.0 zeroed

  fresh : r.0 % page_size ≡ 0
  fresh = omega (arith, t.address)

  fresh_ne : (a : ℕ) → IsFrame s.pmm a → a ≢ r.0
  fresh_ne a fr eq =
      let at : a / page_size ≡ p = omega (arith, t.address) in
      let m : used s.pmm.bitmap p ≡ 1 = subst (λ q. used s.pmm.bitmap q ≡ 1) at fr.marked in
      omega (arith, m, t.was_free)

  shared_word : (a i : ℕ) → i < 1024 → IsFrame s.pmm a → entry shared a i ≡ entry s a i
  shared_word a i hi fr =
      shared_elsewhere r.0 fresh 1024 0 a i zeroed (omega arith) hi fr.aligned (fresh_ne a fr)
      ∙ zero_outside a r.0 i s.words fr.aligned fresh hi (fresh_ne a fr)

  shared-entry :
      (j : ℕ)
      → j < 1024
      → entry shared r.0 j ≡ (if is_present (entry s k j) then entry s k j else 0)
  shared-entry j hj =
      let here =
        shared_here r.0 fresh 1024 0 j k zeroed (omega arith) hj space.dir_frame.aligned
          (fresh_ne k space.dir_frame) e in
      let old : entry zeroed k j ≡ entry s k j =
        zero_outside k r.0 j s.words space.dir_frame.aligned fresh hj
          (fresh_ne k space.dir_frame) in
      let new : entry zeroed r.0 j ≡ 0 = zero_inside r.0 j s.words hj in
      ground (arith, here, old, new)

  shared_translation : (virt : ℕ) → vmm_get_phys r.0 virt shared ≡ vmm_get_phys k virt s
  shared_translation virt =
      let di : ℕ = page_dir_index virt in
      let ti : ℕ = page_tab_index virt in
      let w = shared-entry di (omega arith) in
      elim (Bool-cases (is_present (entry s k di))) [
        | inl here ↦
            let same : entry shared r.0 di ≡ entry s k di = rw here at w in
            vmm_get_phys_table r.0 virt (frame_of (entry s k di)) shared
              (ap (λ x. is_present x) same ∙ here) (ap (λ x. frame_of x) same)
            ∙ ap (λ x. resolve x)
                (shared_word (frame_of (entry s k di)) ti (omega arith)
                  ((space.tables di (omega arith) here).0))
            ∙ sym (vmm_get_phys_table k virt (frame_of (entry s k di)) s here refl)
        | inr gone ↦
            let none : entry shared r.0 di ≡ 0 = rw gone at w in
            vmm_get_phys_absent r.0 virt shared (ap (λ x. is_present x) none)
            ∙ sym (vmm_get_phys_absent k virt s gone)
      ]

  fresh_free : used s.pmm.bitmap (r.0 / page_size) ≡ 0
  fresh_free =
      let at : r.0 / page_size ≡ p = omega (arith, t.address) in
      subst (λ q. used s.pmm.bitmap q ≡ 0) (sym at) t.was_free

-- In an address space of the kernel's directory, `vmm_create_dir` returns NULL, or the address
-- of a frame that was free, and that frame is a directory which translates every address as
-- the kernel's directory did.
pub vmm_create_dir_lem :
    (s : Vmm)
    → IsSpace s.kernel_dir s
    → ((vmm_create_dir s).0 ≡ 0)
      ⊎ (((virt : ℕ)
            → vmm_get_phys (vmm_create_dir s).0 virt (vmm_create_dir s).1
              ≡ vmm_get_phys s.kernel_dir virt s)
          × (used s.pmm.bitmap ((vmm_create_dir s).0 / page_size) ≡ 0))
unfolding vmm_create_dir
vmm_create_dir_lem s space = elim (pmm_alloc_page_lem s.pmm space.pmm_valid) [
  | inl (p, t) ↦ elim (Bool-cases ((pmm_alloc_page s.pmm).0 == 0)) [
    | inl null ↦ rw null (inl refl)
    | inr some_frame ↦ rw some_frame (
        inr (
          shared_translation s.kernel_dir p s (pmm_alloc_page s.pmm) space refl t,
          fresh_free s.kernel_dir p s (pmm_alloc_page s.pmm) space refl t,
        ))
  ]
  | inr full ↦ rw full.unchanged (inl refl)
]
