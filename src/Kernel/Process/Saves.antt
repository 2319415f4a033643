-- ===== src/Kernel/Process/Saves.antt =====
-- What `process_scheduler` of src/kernel/process.c saves for the interrupted process.
use cro_os.Base.{ℕ, zero, suc, ◌+◌, ◌%◌, ◌^◌, ◌<◌, ◌≡◌, ◌≢◌, refl, ap, sym, subst, length}
use native.Mathlib.Decide.{ℕ_discrete}
use cro_os.Kernel.Process.{Process, Kernel, Regs, max_procs, is_runnable}
use cro_os.Kernel.Process.Schedule.{slot_runnable, next_from, save_current, copy_regs}
use cro_os.Kernel.Process.Slots.{at, update_self, update_ne, length-update}

-- The thirteen registers that a switch saves and restores are those of `r`.
pub record Carries (r to : Regs) : Type 0 where
  pub eax : to.eax ≡ r.eax
  pub ebx : to.ebx ≡ r.ebx
  pub ecx : to.ecx ≡ r.ecx
  pub edx : to.edx ≡ r.edx
  pub esi : to.esi ≡ r.esi
  pub edi : to.edi ≡ r.edi
  pub ebp : to.ebp ≡ r.ebp
  pub esp : to.esp ≡ r.esp
  pub eip : to.eip ≡ r.eip
  pub eflags : to.eflags ≡ r.eflags
  pub cs : to.cs ≡ r.cs
  pub ss : to.ss ≡ r.ss
  pub ds : to.ds ≡ r.ds

pub copy_regs-Carries : (r to : Regs) → Carries r (copy_regs r to)
unfolding copy_regs
copy_regs-Carries r to = record {
  eax = refl;
  ebx = refl;
  ecx = refl;
  edx = refl;
  esi = refl;
  edi = refl;
  ebp = refl;
  esp = refl;
  eip = refl;
  eflags = refl;
  cs = refl;
  ss = refl;
  ds = refl;
}

-- Registers that were saved and are restored are as they were.
pub copy_regs-back : (r p : Regs) → copy_regs (copy_regs r p) r ≡ r
unfolding copy_regs
copy_regs-back r p = refl

-- `p'` is `p` with the registers of `r` and one tick more.
pub record IsSaved (r : Regs) (p p' : Process) : Type 0 where
  pub registers : Carries r p'.saved_regs
  pub ticks : p'.total_ticks ≡ (p.total_ticks + 1) % 2 ^ 32
  pub rest : p' ≡ record p { saved_regs = p'.saved_regs; total_ticks = p'.total_ticks }

abbrev pub saved : Regs → Process → Process
saved r p = record p {
  saved_regs = copy_regs r p.saved_regs;
  total_ticks = (p.total_ticks + 1) % 2 ^ 32;
}

saved-IsSaved : (r : Regs) (p : Process) → IsSaved r p (saved r p)
saved-IsSaved r p = record {
  registers = copy_regs-Carries r p.saved_regs;
  ticks = refl;
  rest = refl;
}

module _ (r : Regs) (k : Kernel) (h : k.current_proc_idx < length k.procs) where
  pub save_self : at (save_current r k) k.current_proc_idx ≡ saved r (at k.procs k.current_proc_idx)
  unfolding save_current
  save_self = update_self k.procs k.current_proc_idx (saved r) h

  pub save_current-IsSaved :
      IsSaved r (at k.procs k.current_proc_idx) (at (save_current r k) k.current_proc_idx)
  save_current-IsSaved =
      subst (λ p. IsSaved r (at k.procs k.current_proc_idx) p) (sym save_self)
        (saved-IsSaved r (at k.procs k.current_proc_idx))

  pub save_ne : (j : ℕ) → j ≢ k.current_proc_idx → at (save_current r k) j ≡ at k.procs j
  unfolding save_current
  save_ne j ne = update_ne k.procs k.current_proc_idx j (saved r) ne

  -- Saving keeps the directory and the state of every process.
  pub save_page_dir : (j : ℕ) → (at (save_current r k) j).page_dir ≡ (at k.procs j).page_dir
  save_page_dir j = elim (ℕ_discrete j k.current_proc_idx) [
    | yes e ↦
        subst (λ i. (at (save_current r k) i).page_dir ≡ (at k.procs i).page_dir) (sym e)
          (ap (λ p. p.page_dir) save_self)
    | no ne ↦ ap (λ p. p.page_dir) (save_ne j ne)
  ]

  save_runnable : (j : ℕ) → slot_runnable (save_current r k) j ≡ slot_runnable k.procs j
  unfolding slot_runnable
  save_runnable j = elim (ℕ_discrete j k.current_proc_idx) [
    | yes e ↦
        subst (λ i. is_runnable (at (save_current r k) i).state ≡ is_runnable (at k.procs i).state)
          (sym e) (ap (λ p. is_runnable p.state) save_self)
    | no ne ↦ ap (λ p. is_runnable p.state) (save_ne j ne)
  ]

  pub save_next : (n i : ℕ) → next_from n (save_current r k) i ≡ next_from n k.procs i
  unfolding next_from
  save_next zero i = refl
  save_next (suc n) i =
      rw (save_runnable ((i + 1) % max_procs), save_next n ((i + 1) % max_procs)) refl

pub length-save_current : (r : Regs) (k : Kernel) → length (save_current r k) ≡ length k.procs
unfolding save_current
length-save_current r k = length-update k.procs k.current_proc_idx (saved r)
