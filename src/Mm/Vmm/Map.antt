-- ===== src/Mm/Vmm/Map.antt =====
-- `vmm_map_page` and `vmm_unmap_page` of src/mm/vmm.c, as translations see them.
use cro_os.Base.{
  ℕ, ◌+◌, ◌*◌, ◌%◌, ◌<◌, ◌≡◌, ◌≢◌, refl, subst, ◌∙◌, true, false, ◌==◌, if◌then◌else◌, bit_or,
  arith, Bool-cases, inl, inr, ◌⊎◌, eq→==, ==→eq, ==→ne, false,
}
use cro_os.Mm.Pmm.{Pmm, pmm_alloc_page}
use cro_os.Mm.Pmm.Alloc.{Takes, pmm_alloc_page_lem}
use cro_os.Mm.Vmm.{
  Vmm, page_dir_index, page_tab_index, is_present, frame_of, store, entry, vmm_get_phys,
  get_or_create_table, page_present_write_user, vmm_map_page, vmm_unmap_page,
}
use cro_os.Mm.Vmm.Spaces.{IsSpace, frame_of-bit_or, resolve, vmm_get_phys_absent}
use cro_os.Mm.Vmm.Tables.{Got, created-Got, IsFrame-kept}
use cro_os.Mm.Vmm.Stores.{written-Retargets, SameTranslations, Retargets}

-- A page that is taken for something else leaves the space as it is.
kept-IsSpace :
    (dir idx p : ℕ) (s : Vmm) (r : ℕ × Pmm)
    → IsSpace dir s
    → idx < 1024
    → is_present (entry s dir idx) ≡ false
    → Takes s.pmm p r
    → IsSpace dir (record s { pmm = r.1 })
kept-IsSpace dir idx p s r space small absent t = record {
  dir_frame = IsFrame-kept dir idx p s r space small absent t dir space.dir_frame;
  tables = λ i hi here.
      let (fr, ne) = space.tables i hi here in
      (IsFrame-kept dir idx p s r space small absent t (frame_of (entry s dir i)) fr, ne);
  distinct = space.distinct;
  pmm_valid = t.valid;
}

-- No page can be had for a table.
abbrev pub NoMemory : ℕ → ℕ → Vmm → Type 0
NoMemory dir idx s = (is_present (entry s dir idx) ≡ false) × ((pmm_alloc_page s.pmm).0 ≡ 0)

-- There is no table for the directory's entry `idx`: the entry is not present and no page can be had for
-- a table, or the entry gives the table the address 0, which counts as NULL.
abbrev pub NoTable : ℕ → ℕ → Vmm → Type 0
NoTable dir idx s =
    NoMemory dir idx s ⊎ ((is_present (entry s dir idx) ≡ true) × (frame_of (entry s dir idx) ≡ 0))

get_or_create_table-cases :
    (dir idx : ℕ) (s : Vmm)
    → IsSpace dir s
    → idx < 1024
    → let (t, s') = get_or_create_table dir idx page_present_write_user s in
      (Got dir idx t s s'
        × ((t ≢ 0) ⊎ (is_present (entry s dir idx) ≡ true × (frame_of (entry s dir idx) ≡ t))))
      ⊎ (NoMemory dir idx s × (t ≡ 0) × SameTranslations dir s s')
unfolding get_or_create_table vmm_get_phys
get_or_create_table-cases dir idx s space small = elim (Bool-cases (is_present (entry s dir idx))) [
  | inl here ↦ rw here (
      inl (
        record { space = space; present = here; table = refl; same_translations = λ v. refl },
        inr (refl, refl),
      ))
  | inr absent ↦ elim (pmm_alloc_page_lem s.pmm space.pmm_valid) [
    | inl (p, t) ↦ elim (Bool-cases ((pmm_alloc_page s.pmm).0 == 0)) [
      | inl null ↦
          rw (absent, null)
            (inr (
              (refl, ==→eq (pmm_alloc_page s.pmm).0 0 null),
              refl,
              record {
                space = kept-IsSpace dir idx p s (pmm_alloc_page s.pmm) space small absent t;
                same = λ v. refl;
              },
            ))
      | inr page ↦
          rw (absent, page)
            (inl (
              created-Got dir idx p s (pmm_alloc_page s.pmm) space small absent t,
              inl (==→ne (pmm_alloc_page s.pmm).0 0 page),
            ))
    ]
    | inr full ↦
        rw (absent, full.unchanged)
          (inr ((refl, refl), refl, record { space = space; same = λ v. refl }))
  ]
]

-- The last store of `vmm_map_page`, into the table `t` of the state `s'`.
mapped :
    (dir virt phys flags t : ℕ) (s s' : Vmm)
    → Got dir (page_dir_index virt) t s s'
    → Retargets dir virt (if is_present flags then frame_of phys else 0) s (record s' {
      words = store (t + 4 * page_tab_index virt) (bit_or (frame_of phys) (flags % 4096)) s'.words;
    })
mapped dir virt phys flags t s s' g =
    let w : ℕ = bit_or (frame_of phys) (flags % 4096) in
    let (f, low) = frame_of-bit_or (frame_of phys) (flags % 4096) (omega arith) (omega arith) in
    let means : resolve w ≡ (if is_present flags then frame_of phys else 0) =
      ground (arith, f, low) in
    let r = written-Retargets dir virt w s' g.space g.present in
    subst
      (λ a.
        Retargets dir virt (if is_present flags then frame_of phys else 0) s
          (record s' { words = store (a + 4 * page_tab_index virt) w s'.words }))
      g.table
      (record {
        space = r.space;
        target = r.target ∙ means;
        others = λ v ne. r.others v ne ∙ g.same_translations v;
      })

-- In an address space of a valid page allocator, `vmm_map_page` makes exactly the page of `virt`
-- translate to the frame of `phys`, or to 0 if the flags lack PAGE_PRESENT, and keeps the translation of
-- every other page. The one exception is a page for which there is no table, because the directory's
-- entry is not present and the page allocator returns NULL, or because the entry gives the table the
-- address 0: then every translation is kept. Both ways the directory and its tables stay in frames of
-- their own.
pub vmm_map_page_lem :
    (dir virt phys flags : ℕ) (s : Vmm)
    → IsSpace dir s
    → Retargets dir virt
        (if is_present flags then frame_of phys else 0)
        s
        (vmm_map_page dir virt phys flags s)
      ⊎ (NoTable dir (page_dir_index virt) s
          × SameTranslations dir s (vmm_map_page dir virt phys flags s))
unfolding vmm_map_page
vmm_map_page_lem dir virt phys flags s space =
    let idx : ℕ = page_dir_index virt in
    let r : ℕ × Vmm = get_or_create_table dir idx page_present_write_user s in
    elim (get_or_create_table-cases dir idx s space (omega arith)) [
      | inl (g, source) ↦ elim (Bool-cases (r.0 == 0)) [
        | inl null ↦
            let zero_table : NoTable dir idx s = elim source [
              | inl ne ↦ absurd (ne (==→eq r.0 0 null))
              | inr (here, at) ↦ inr (here, at ∙ ==→eq r.0 0 null)
            ] in
            rw null (inr (zero_table, record { space = g.space; same = g.same_translations }))
        | inr table ↦ rw table (inl (mapped dir virt phys flags r.0 s r.1 g))
      ]
      | inr (no_memory, null, same) ↦ rw (eq→== r.0 0 null) (inr (inl no_memory, same))
    ]

-- `vmm_unmap_page` makes the page of `virt` translate to nothing, and keeps every other page's
-- translation.
pub vmm_unmap_page_lem :
    (dir virt : ℕ) (s : Vmm) → IsSpace dir s → Retargets dir virt 0 s (vmm_unmap_page dir virt s)
unfolding vmm_unmap_page
vmm_unmap_page_lem dir virt s space =
    elim (Bool-cases (is_present (entry s dir (page_dir_index virt)))) [
      | inl here ↦ rw here (written-Retargets dir virt 0 s space here)
      | inr absent ↦ rw absent (record {
        space = space;
        target = vmm_get_phys_absent dir virt s absent;
        others = λ v ne. refl;
      })
    ]
