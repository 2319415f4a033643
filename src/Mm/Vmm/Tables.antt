-- ===== src/Mm/Vmm/Tables.antt =====
-- `get_or_create_table` of src/mm/vmm.c: a new table changes no translation.
use cro_os.Base.{
  ℕ, ◌+◌, ◌*◌, ◌/◌, ◌%◌, ◌<◌, ◌≡◌, ◌≢◌, refl, sym, ap, subst, ◌∙◌, true, false, bit_or, arith,
  Bool-cases, inl, inr, ◌⊎◌, eq→==,
}
use native.Mathlib.Decide.{ℕ_discrete}
use cro_os.Mm.Pmm.{Pmm, page_size}
use cro_os.Mm.Pmm.Bitmap.{used}
use cro_os.Mm.Pmm.Alloc.{Takes}
use cro_os.Mm.Vmm.{
  Vmm, page_dir_index, page_tab_index, is_present, frame_of, store, zero_frame, entry, vmm_get_phys,
  page_present_write_user,
}
use cro_os.Mm.Vmm.Spaces.{
  IsFrame, IsSpace, apart, frame_of-bit_or, resolve, vmm_get_phys_absent, vmm_get_phys_table,
}

pub store_self : (a v : ℕ) (words : ℕ → ℕ) → store a v words a ≡ v
unfolding store
store_self a v words = ground arith

pub store_ne : (a v : ℕ) (words : ℕ → ℕ) (x : ℕ) → x ≢ a → store a v words x ≡ words x
unfolding store
store_ne a v words x h = ground arith

pub zero_inside : (a i : ℕ) (words : ℕ → ℕ) → i < 1024 → zero_frame a words (a + 4 * i) ≡ 0
unfolding zero_frame
zero_inside a i words h = ground arith

pub zero_outside :
    (a b i : ℕ) (words : ℕ → ℕ)
    → a % page_size ≡ 0
    → b % page_size ≡ 0
    → i < 1024
    → a ≢ b
    → zero_frame b words (a + 4 * i) ≡ words (a + 4 * i)
unfolding zero_frame
zero_outside a b i words ha hb hi ne = ground arith

-- Behind a call for the entry `idx` of `dir` that returned the table `t`.
pub record Got (dir idx t : ℕ) (s s' : Vmm) : Type 0 where
  pub space : IsSpace dir s'
  pub present : is_present (entry s' dir idx) ≡ true
  pub table : frame_of (entry s' dir idx) ≡ t
  pub same_translations : (virt : ℕ) → vmm_get_phys dir virt s' ≡ vmm_get_phys dir virt s

-- The frame `f` was free, and the state `s'` has it as the table of the entry `idx`.
module _ (dir idx p : ℕ) (s : Vmm) (r : ℕ × Pmm) (space : IsSpace dir s) (small : idx < 1024)
    (absent : is_present (entry s dir idx) ≡ false) (t : Takes s.pmm p r) where
  abbrev created : Vmm
  created = record s {
    words = store (dir + 4 * idx) (bit_or r.0 page_present_write_user) (zero_frame r.0 s.words);
    pmm = r.1;
  }

  aligned : r.0 % page_size ≡ 0
  aligned = omega (arith, t.address)

  frame_ne : (a : ℕ) → IsFrame s.pmm a → a ≢ r.0
  frame_ne a fr e =
      let at : a / page_size ≡ p = omega (arith, t.address) in
      let m : used s.pmm.bitmap p ≡ 1 = subst (λ q. used s.pmm.bitmap q ≡ 1) at fr.marked in
      omega (arith, m, t.was_free)

  pub IsFrame-kept : (a : ℕ) → IsFrame s.pmm a → IsFrame (r.1) a
  IsFrame-kept a fr = record {
    aligned = fr.aligned;
    marked = ground (arith, t.marked (a / page_size), fr.marked);
  }

  new_entry : entry created dir idx ≡ bit_or r.0 page_present_write_user
  new_entry = store_self (dir + 4 * idx) _ _

  new_parts : (frame_of (entry created dir idx) ≡ r.0) × (is_present (entry created dir idx) ≡ true)
  new_parts =
      let (f, low) = frame_of-bit_or r.0 page_present_write_user aligned (omega arith) in
      rw new_entry (f, eq→== _ _ low)

  old_entry : (i : ℕ) → i < 1024 → i ≢ idx → entry created dir i ≡ entry s dir i
  old_entry i hi ne =
      store_ne (dir + 4 * idx) _ (zero_frame r.0 s.words) (dir + 4 * i) (omega arith)
      ∙ zero_outside dir r.0 i s.words space.dir_frame.aligned aligned hi
          (frame_ne dir space.dir_frame)

  old_word :
      (i k : ℕ)
      → i < 1024
      → k < 1024
      → is_present (entry s dir i) ≡ true
      → entry created (frame_of (entry s dir i)) k ≡ entry s (frame_of (entry s dir i)) k
  old_word i k hi hk here =
      let (fr, ne) = space.tables i hi here in
      store_ne (dir + 4 * idx) _ (zero_frame r.0 s.words) (frame_of (entry s dir i) + 4 * k)
        (apart (frame_of (entry s dir i)) dir k idx fr.aligned space.dir_frame.aligned hk small ne)
      ∙ zero_outside (frame_of (entry s dir i)) r.0 k s.words fr.aligned aligned hk
          (frame_ne (frame_of (entry s dir i)) fr)

  new_word : (k : ℕ) → k < 1024 → entry created r.0 k ≡ 0
  new_word k hk =
      store_ne (dir + 4 * idx) _ (zero_frame r.0 s.words) (r.0 + 4 * k) (
        apart r.0 dir k idx aligned space.dir_frame.aligned hk small
          (λ e. frame_ne dir space.dir_frame (sym e)))
      ∙ zero_inside r.0 k s.words hk

  new-IsFrame : IsFrame (r.1) r.0 × (r.0 ≢ dir)
  new-IsFrame =
      let at : r.0 / page_size ≡ p = omega (arith, t.address) in
      (
        record { aligned = aligned; marked = rw at (ground (arith, t.marked p)) },
        λ e. frame_ne dir space.dir_frame (sym e),
      )

  -- An entry of the directory is the new one, or as it was.
  created-entry :
      (i : ℕ)
      → i < 1024
      → ((i ≡ idx)
          × (frame_of (entry created dir i) ≡ r.0)
          × (is_present (entry created dir i) ≡ true))
        ⊎ ((i ≢ idx) × (entry created dir i ≡ entry s dir i))
  created-entry i hi = elim (ℕ_discrete i idx) [
    | yes e ↦
        let (f, here) = new_parts in
        let at : entry created dir i ≡ entry created dir idx = ap (λ k. entry created dir k) e in
        inl (e, ap (λ w. frame_of w) at ∙ f, ap (λ w. is_present w) at ∙ here)
    | no ne ↦ inr (ne, old_entry i hi ne)
  ]

  created_table :
      (i : ℕ)
      → i < 1024
      → is_present (entry created dir i) ≡ true
      → IsFrame (r.1) (frame_of (entry created dir i)) × (frame_of (entry created dir i) ≢ dir)
  created_table i hi here = elim (created-entry i hi) [
    | inl (e, f, new) ↦ subst (λ a. IsFrame (r.1) a × (a ≢ dir)) (sym f) new-IsFrame
    | inr (ne, same) ↦
        let (fr, apart_dir) = space.tables i hi (sym (ap (λ w. is_present w) same) ∙ here) in
        subst (λ w. IsFrame (r.1) (frame_of w) × (frame_of w ≢ dir)) (sym same)
          (IsFrame-kept (frame_of (entry s dir i)) fr, apart_dir)
  ]

  old_frame_ne :
      (i : ℕ)
      → i < 1024
      → entry created dir i ≡ entry s dir i
      → is_present (entry created dir i) ≡ true
      → frame_of (entry created dir i) ≢ r.0
  old_frame_ne i hi same here e =
      frame_ne (frame_of (entry s dir i))
        ((space.tables i hi (sym (ap (λ w. is_present w) same) ∙ here)).0)
        (sym (ap (λ w. frame_of w) same) ∙ e)

  created_distinct :
      (i j : ℕ)
      → i < 1024
      → j < 1024
      → is_present (entry created dir i) ≡ true
      → is_present (entry created dir j) ≡ true
      → i ≢ j
      → frame_of (entry created dir i) ≢ frame_of (entry created dir j)
  created_distinct i j hi hj pi pj ne e = elim (created-entry i hi) [
    | inl (ei, fi, ni) ↦ elim (created-entry j hj) [
      | inl (ej, fj, nj) ↦ ne (ei ∙ sym ej)
      | inr (nj, sj) ↦ old_frame_ne j hj sj pj (sym e ∙ fi)
    ]
    | inr (ni, si) ↦ elim (created-entry j hj) [
      | inl (ej, fj, nj) ↦ old_frame_ne i hi si pi (e ∙ fj)
      | inr (nj, sj) ↦
          space.distinct i j hi hj (sym (ap (λ w. is_present w) si) ∙ pi)
            (sym (ap (λ w. is_present w) sj) ∙ pj) ne
            (sym (ap (λ w. frame_of w) si) ∙ e ∙ ap (λ w. frame_of w) sj)
    ]
  ]

  created_translation : (virt : ℕ) → vmm_get_phys dir virt created ≡ vmm_get_phys dir virt s
  created_translation virt =
      let di : ℕ = page_dir_index virt in
      let ti : ℕ = page_tab_index virt in
      elim (created-entry di (omega arith)) [
        | inl (e, f, here) ↦
            vmm_get_phys_table dir virt r.0 created here f
            ∙ ap (λ w. resolve w) (new_word ti (omega arith))
            ∙ sym (vmm_get_phys_absent dir virt s (ap (λ k. is_present (entry s dir k)) e ∙ absent))
        | inr (ne, same) ↦ elim (Bool-cases (is_present (entry s dir di))) [
          | inl here ↦
              vmm_get_phys_table dir virt (frame_of (entry s dir di)) created
                (ap (λ w. is_present w) same ∙ here) (ap (λ w. frame_of w) same)
              ∙ ap (λ w. resolve w) (old_word di ti (omega arith) (omega arith) here)
              ∙ sym (vmm_get_phys_table dir virt (frame_of (entry s dir di)) s here refl)
          | inr gone ↦
              vmm_get_phys_absent dir virt created (ap (λ w. is_present w) same ∙ gone)
              ∙ sym (vmm_get_phys_absent dir virt s gone)
        ]
      ]

  pub created-Got : Got dir idx r.0 s created
  created-Got = record {
    space = record {
      dir_frame = IsFrame-kept dir space.dir_frame;
      tables = created_table;
      distinct = created_distinct;
      pmm_valid = t.valid;
    };
    present = new_parts.1;
    table = new_parts.0;
    same_translations = created_translation;
  }
