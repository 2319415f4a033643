-- ===== src/Kernel/Process/Schedule.antt =====
-- `process_scheduler` of src/kernel/process.c.
use cro_os.Base.{
  ℕ, zero, suc, ◌+◌, ◌%◌, ◌^◌, Bool, false, ◌==◌, if◌then◌else◌, List, ℤ, pos, negsuc, get_or,
}
use cro_os.Mm.Vmm.{vmm_switch_dir}
use cro_os.Kernel.Process.{Regs, Process, Kernel, max_procs, is_runnable, zero_process, update}

-- The thirteen registers that a switch saves and restores.
unfoldable pub copy_regs : Regs → Regs → Regs
copy_regs r to = record to {
  eax = r.eax;
  ebx = r.ebx;
  ecx = r.ecx;
  edx = r.edx;
  esi = r.esi;
  edi = r.edi;
  ebp = r.ebp;
  esp = r.esp;
  eip = r.eip;
  eflags = r.eflags;
  cs = r.cs;
  ss = r.ss;
  ds = r.ds;
}

unfoldable pub slot_runnable : List Process → ℕ → Bool
unfolding zero_process
slot_runnable ps i = is_runnable (get_or ps i zero_process).state

-- The search of the scheduler, with its rounds left and its `next`.
unfoldable pub next_from : ℕ → List Process → ℕ → ℕ
unfolding slot_runnable
next_from zero ps next = next
next_from (suc left) ps next =
    let rest = next_from left ps ((next + 1) % max_procs) in
    if slot_runnable ps ((next + 1) % max_procs) then (next + 1) % max_procs else rest

unfoldable pub save_current : Regs → Kernel → List Process
unfolding copy_regs
save_current r k =
    update k.current_proc_idx
      (λ p. record p {
        saved_regs = copy_regs r p.saved_regs;
        total_ticks = (p.total_ticks + 1) % 2 ^ 32;
      })
      k.procs

abbrev pub is_zero : ℤ → Bool
is_zero (pos n) = n == 0
is_zero (negsuc n) = false

-- The interrupted program's registers on entry and on return.
unfoldable pub process_scheduler : Regs → Kernel → Regs × Kernel
unfolding save_current next_from copy_regs zero_process vmm_switch_dir
process_scheduler r k =
    let ps = save_current r k in
    let next = next_from max_procs ps k.current_proc_idx in
    let to = get_or ps next zero_process in
    let from = get_or ps k.current_proc_idx zero_process in
    if is_zero k.proc_count then (r, k) else (
      copy_regs to.saved_regs r,
      record k {
        procs = ps;
        current_proc_idx = next;
        vmm = if to.page_dir == from.page_dir then k.vmm else vmm_switch_dir to.page_dir k.vmm;
      },
    )
