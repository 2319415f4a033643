-- ===== src/Kernel/Process/Fork.antt =====
-- `process_fork` and `process_exec` of src/kernel/process.c.
use cro_os.Base.{ℕ, none, some, ℤ, pos, negsuc, minus_one, signed32, get_or}
use cro_os.Mm.Vmm.{vmm_create_dir}
use cro_os.Kernel.Process.{
  Process, Kernel, running, zero_process, entry_regs, find_pid, update, process_create, child,
}

-- What `process_fork` writes to the child.
unfoldable pub fork_child : ℕ → ℕ → Process → Process → Process
fork_child parent_pid dir parent p = record p {
  ppid = parent_pid;
  saved_regs = record (parent.saved_regs) { eax = 0 };
  page_dir = dir;
  brk = parent.brk;
}

unfoldable pub fork_into : ℕ → ℕ → Process → Kernel → ℤ × Kernel
unfolding find_pid fork_child
fork_into child_pid parent_pid parent k = elim (find_pid child_pid 0 k.procs) [
  | none ↦ (minus_one, k)
  | some i ↦
      let (dir, v) = vmm_create_dir k.vmm in
      (
        signed32 child_pid,
        record k { procs = update i (fork_child parent_pid dir parent) k.procs; vmm = v },
      )
]

-- The parent is read again behind the child's creation, from its slot.
unfoldable pub process_fork : ℕ → Kernel → ℤ × Kernel
unfolding find_pid process_create fork_into zero_process
process_fork parent_pid k = elim (find_pid parent_pid 0 k.procs) [
  | none ↦ (minus_one, k)
  | some i ↦
      let (child_pid, k') = process_create child 0 (get_or k.procs i zero_process).priority k in
      elim child_pid [
        | pos n ↦ fork_into n parent_pid (get_or k'.procs i zero_process) k'
        | negsuc n ↦ (minus_one, k')
      ]
]

unfoldable pub process_exec : ℕ → ℕ → Kernel → ℤ × Kernel
unfolding find_pid entry_regs
process_exec pid entry k = elim (find_pid pid 0 k.procs) [
  | none ↦ (minus_one, k)
  | some i ↦ (
    pos 0,
    record k {
      procs =
          update i (λ p. record p { saved_regs = entry_regs entry p.user_stack; state = running })
            k.procs;
    },
  )
]
