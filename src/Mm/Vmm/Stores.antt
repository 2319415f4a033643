-- ===== src/Mm/Vmm/Stores.antt =====
-- src/mm/vmm.c: what a store into a page table does to the translations.
use cro_os.Base.{
  ℕ, ◌+◌, ◌*◌, ◌/◌, ◌%◌, ◌^◌, ◌<◌, ◌≡◌, ◌≢◌, refl, sym, ap, subst, ◌∙◌, true, arith, Bool-cases,
  inl, inr, ◌⊎◌,
}
use native.Mathlib.Decide.{ℕ_discrete}
use cro_os.Mm.Vmm.{
  Vmm, page_dir_index, page_tab_index, is_present, frame_of, store, entry, vmm_get_phys,
}
use cro_os.Mm.Vmm.Spaces.{IsFrame, IsSpace, apart, resolve, vmm_get_phys_absent, vmm_get_phys_table}
use cro_os.Mm.Vmm.Tables.{store_self, store_ne}

-- `s'` translates as `s` does, in a valid space.
pub record SameTranslations (dir : ℕ) (s s' : Vmm) : Type 0 where
  pub space : IsSpace dir s'
  pub same : (virt : ℕ) → vmm_get_phys dir virt s' ≡ vmm_get_phys dir virt s

-- The virtual addresses of one page.
abbrev pub page_of : ℕ → ℕ
page_of virt = virt / 4096 % 2 ^ 20

-- `s'` translates the page of `virt` to the frame `to`, and every other page as `s` does.
pub record Retargets (dir virt to : ℕ) (s s' : Vmm) : Type 0 where
  pub space : IsSpace dir s'
  pub target : vmm_get_phys dir virt s' ≡ to
  pub others : (v : ℕ) → page_of v ≢ page_of virt → vmm_get_phys dir v s' ≡ vmm_get_phys dir v s

same_page :
    (v w : ℕ)
    → page_dir_index v ≡ page_dir_index w
    → page_tab_index v ≡ page_tab_index w
    → page_of v ≡ page_of w
same_page v w e e' = omega arith

-- A store of `w` at the place of `virt` in its table.
module _ (dir virt w : ℕ) (s : Vmm) (space : IsSpace dir s)
    (here : is_present (entry s dir (page_dir_index virt)) ≡ true) where
  abbrev table : ℕ
  table = frame_of (entry s dir (page_dir_index virt))

  abbrev written : Vmm
  written = record s { words = store (table + 4 * page_tab_index virt) w s.words }

  same_entry : (i : ℕ) → i < 1024 → entry written dir i ≡ entry s dir i
  same_entry i hi =
      let (fr, ne) = space.tables (page_dir_index virt) (omega arith) here in
      store_ne (table + 4 * page_tab_index virt) w s.words (dir + 4 * i) (
        apart dir table i (page_tab_index virt) space.dir_frame.aligned fr.aligned hi (omega arith)
          (λ e. ne (sym e)))

  same_word :
      (i k : ℕ)
      → i < 1024
      → k < 1024
      → is_present (entry s dir i) ≡ true
      → (i ≢ page_dir_index virt) ⊎ (k ≢ page_tab_index virt)
      → entry written (frame_of (entry s dir i)) k ≡ entry s (frame_of (entry s dir i)) k
  same_word i k hi hk there ne =
      let (fr, _) = space.tables (page_dir_index virt) (omega arith) here in
      let (fr', _) = space.tables i hi there in
      store_ne (table + 4 * page_tab_index virt) w s.words (frame_of (entry s dir i) + 4 * k)
        (elim (ℕ_discrete i (page_dir_index virt)) [
          | yes e ↦ elim ne [
            | inl differ ↦ absurd (differ e)
            | inr differ ↦ λ same.
                let f : frame_of (entry s dir i) ≡ table = ap (λ x. frame_of (entry s dir x)) e in
                differ (omega arith)
          ]
          | no differ ↦
              apart (frame_of (entry s dir i)) table k (page_tab_index virt) fr'.aligned fr.aligned
                hk (omega arith)
                (space.distinct i (page_dir_index virt) hi (omega arith) there here differ)
        ])

  written-IsSpace : IsSpace dir written
  written-IsSpace = record {
    dir_frame = space.dir_frame;
    tables = λ i hi p.
        subst (λ e. IsFrame s.pmm (frame_of e) × (frame_of e ≢ dir)) (sym (same_entry i hi))
          (space.tables i hi (sym (ap (λ e. is_present e) (same_entry i hi)) ∙ p));
    distinct = λ i j hi hj pi pj ne e.
        space.distinct i j hi hj (sym (ap (λ e. is_present e) (same_entry i hi)) ∙ pi)
          (sym (ap (λ e. is_present e) (same_entry j hj)) ∙ pj) ne
          (sym (ap (λ e. frame_of e) (same_entry i hi))
            ∙ e
            ∙ ap (λ e. frame_of e) (same_entry j hj));
    pmm_valid = space.pmm_valid;
  }

  other_translation :
      (v : ℕ) → page_of v ≢ page_of virt → vmm_get_phys dir v written ≡ vmm_get_phys dir v s
  other_translation v ne =
      let di : ℕ = page_dir_index v in
      let ti : ℕ = page_tab_index v in
      let same = same_entry di (omega arith) in
      elim (Bool-cases (is_present (entry s dir di))) [
        | inl there ↦
            vmm_get_phys_table dir v (frame_of (entry s dir di)) written
              (ap (λ e. is_present e) same ∙ there) (ap (λ e. frame_of e) same)
            ∙ ap (λ x. resolve x)
                (same_word di ti (omega arith) (omega arith) there
                  (elim (ℕ_discrete di (page_dir_index virt)) [
                    | yes e ↦ inr (λ e'. ne (same_page v virt e e'))
                    | no differ ↦ inl differ
                  ]))
            ∙ sym (vmm_get_phys_table dir v (frame_of (entry s dir di)) s there refl)
        | inr gone ↦
            vmm_get_phys_absent dir v written (ap (λ e. is_present e) same ∙ gone)
            ∙ sym (vmm_get_phys_absent dir v s gone)
      ]

  pub written-Retargets : Retargets dir virt (resolve w) s written
  written-Retargets = record {
    space = written-IsSpace;
    target =
        let same = same_entry (page_dir_index virt) (omega arith) in
        vmm_get_phys_table dir virt table written (ap (λ e. is_present e) same ∙ here)
          (ap (λ e. frame_of e) same)
        ∙ ap (λ x. resolve x) (store_self (table + 4 * page_tab_index virt) w s.words);
    others = other_translation;
  }
