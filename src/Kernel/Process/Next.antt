-- ===== src/Kernel/Process/Next.antt =====
-- What `process_scheduler` of src/kernel/process.c leaves.
use cro_os.Base.{
  ℕ, ◌<◌, ◌≡◌, refl, ap, sym, ◌∙◌, subst, false, arith, inl, inr, ◌⊎◌, ◌≢◌, length, if◌then◌else◌,
  ◌==◌, eq→==,
}
use cro_os.Mm.Vmm.{Vmm, vmm_switch_dir}
use cro_os.Kernel.Process.Slots.{at}
use cro_os.Kernel.Process.Saves.{
  Carries, IsSaved, copy_regs-Carries, copy_regs-back, save_self, save_ne, save_page_dir, save_next,
  save_current-IsSaved, length-save_current,
}
use cro_os.Kernel.Process.{Kernel, Regs, max_procs}
use cro_os.Kernel.Process.Schedule.{next_from, save_current, process_scheduler, is_zero, copy_regs}
use cro_os.Kernel.Process.Rounds.{Found, NoneFound, next_from_lem}

-- What a switch leaves of the kernel `k` and of the interrupted registers `r`.
pub record Switches (r : Regs) (k : Kernel) (r' : Regs) (k' : Kernel) : Type 0 where
  pub picked :
      ((j : ℕ) × Found max_procs k.procs k.current_proc_idx k'.current_proc_idx j)
      ⊎ (NoneFound max_procs k.procs k.current_proc_idx k'.current_proc_idx
          × (k'.current_proc_idx ≡ k.current_proc_idx))
  pub saved : IsSaved r (at k.procs k.current_proc_idx) (at k'.procs k.current_proc_idx)
  pub others : (j : ℕ) → j ≢ k.current_proc_idx → at k'.procs j ≡ at k.procs j
  pub slots : length k'.procs ≡ length k.procs
  pub resumed :
      k'.current_proc_idx ≢ k.current_proc_idx
      → Carries (at k.procs k'.current_proc_idx).saved_regs r'
  pub stays : k'.current_proc_idx ≡ k.current_proc_idx → r' ≡ r
  pub new_directory :
      (at k.procs k'.current_proc_idx).page_dir ≢ (at k.procs k.current_proc_idx).page_dir
      → k'.vmm.cr3 ≡ (at k.procs k'.current_proc_idx).page_dir
  pub same_directory :
      (at k.procs k'.current_proc_idx).page_dir ≡ (at k.procs k.current_proc_idx).page_dir
      → k'.vmm ≡ k.vmm

-- `process_scheduler` behind its first test, for the slot `t` that the search finds.
abbrev resumed_regs : Regs → Kernel → ℕ → Regs
resumed_regs r k t = copy_regs (at (save_current r k) t).saved_regs r

abbrev entered : Kernel → ℕ → ℕ → ℕ → Vmm
entered k t to from = if to == from then k.vmm else vmm_switch_dir to k.vmm

abbrev switched : Regs → Kernel → ℕ → Kernel
switched r k t = record k {
  procs = save_current r k;
  current_proc_idx = t;
  vmm =
      entered k t (at (save_current r k) t).page_dir
        (at (save_current r k) k.current_proc_idx).page_dir;
}

entered-ne : (k : Kernel) (t to from : ℕ) → to ≢ from → (entered k t to from).cr3 ≡ to
unfolding vmm_switch_dir
entered-ne k t to from ne = ground (arith, ne)

entered-same : (k : Kernel) (t to from : ℕ) → to ≡ from → entered k t to from ≡ k.vmm
entered-same k t to from e = rw (eq→== to from e) refl

switched-Switches :
    (r : Regs) (k : Kernel) (t : ℕ)
    → k.current_proc_idx < length k.procs
    → ((j : ℕ) × Found max_procs k.procs k.current_proc_idx t j)
      ⊎ (NoneFound max_procs k.procs k.current_proc_idx t × (t ≡ k.current_proc_idx))
    → Switches r k (resumed_regs r k t) (switched r k t)
switched-Switches r k t h picked =
    let i = k.current_proc_idx in
    let dir_t = save_page_dir r k h t in
    let dir_i = save_page_dir r k h i in
    record {
      picked = picked;
      saved = save_current-IsSaved r k h;
      others = save_ne r k h;
      slots = length-save_current r k;
      resumed = λ ne.
          subst (λ p. Carries p.saved_regs (resumed_regs r k t)) (save_ne r k h t ne)
            (copy_regs-Carries (at (save_current r k) t).saved_regs r);
      stays = λ e.
          ap (λ x. resumed_regs r k x) e
          ∙ ap (λ p. copy_regs p.saved_regs r) (save_self r k h)
          ∙ copy_regs-back r (at k.procs i).saved_regs;
      new_directory = λ ne.
          entered-ne k t (at (save_current r k) t).page_dir (at (save_current r k) i).page_dir
            (λ e. ne (sym dir_t ∙ e ∙ dir_i))
          ∙ dir_t;
      same_directory = λ e.
          entered-same k t (at (save_current r k) t).page_dir (at (save_current r k) i).page_dir
            (dir_t ∙ e ∙ sym dir_i);
    }

process_scheduler-switched :
    (r : Regs) (k : Kernel)
    → is_zero k.proc_count ≡ false
    → process_scheduler r k ≡ (
      resumed_regs r k (next_from max_procs (save_current r k) k.current_proc_idx),
      switched r k (next_from max_procs (save_current r k) k.current_proc_idx),
    )
unfolding process_scheduler
process_scheduler-switched r k e = rw (e, process_scheduler) refl

-- With all slots in the table, the current one among them, and a process in it, the scheduler switches
-- to the first runnable slot behind the current one, round the table and the current slot last, or stays
-- if none is runnable. The interrupted process gets the thirteen registers and one tick more and keeps
-- its other fields, and the other processes are as before. The registers on return are those that the
-- chosen process had saved, or are unchanged if it is the interrupted one. The page directory becomes
-- that of the chosen process where the two differ.
pub process_scheduler_lem :
    (r : Regs) (k : Kernel)
    → length k.procs ≡ max_procs
    → k.current_proc_idx < max_procs
    → is_zero k.proc_count ≡ false
    → Switches r k (process_scheduler r k).0 (process_scheduler r k).1
process_scheduler_lem r k slots h some_process =
    let i = k.current_proc_idx in
    let same : next_from max_procs (save_current r k) i ≡ next_from max_procs k.procs i =
      save_next r k (omega (arith, slots, h)) max_procs i in
    let picked : ((j : ℕ) × Found max_procs k.procs i (next_from max_procs k.procs i) j)
        ⊎ (NoneFound max_procs k.procs i (next_from max_procs k.procs i)
            × (next_from max_procs k.procs i ≡ i)) =
      elim (next_from_lem max_procs k.procs i h) [
        | inl found ↦ inl found
        | inr f ↦ inr (f, omega (arith, f.at))
      ] in
    subst (λ p. Switches r k p.0 p.1) (sym (process_scheduler-switched r k some_process))
      (switched-Switches r k (next_from max_procs (save_current r k) i) (omega (arith, slots, h)) (
        subst
          (λ t.
            ((j : ℕ) × Found max_procs k.procs i t j) ⊎ (NoneFound max_procs k.procs i t × (t ≡ i)))
          (sym same) picked))
