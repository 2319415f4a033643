-- ===== src/Kernel/Process/Tests.antt =====
-- Runs of src/kernel/process.c, on a table with one process in the slot 2.
use cro_os.Base.{
  ℕ, ◌<◌, ◌≡◌, refl, ◌⊎◌, arith, List, [], ◌∷◌, some, set, replicate, pos, minus_one, false, length,
}
use cro_os.Kernel.Process.{
  Process, Kernel, max_procs, running, zero_regs, zero_process, process_get, process_create,
  process_exit, find_used, idle,
}
use cro_os.Kernel.Process.Schedule.{process_scheduler, next_from, slot_runnable, is_zero}
use cro_os.Kernel.Process.Next.{Switches, process_scheduler_lem}
use cro_os.Kernel.Process.Counts.{
  Created, HasPid, FirstWith, Left, process_create_lem, process_exit_lem,
}
use cro_os.Kernel.Process.Slots.{IsTable, at, count_used}

unfoldable one_process : List Process
unfolding zero_process
one_process =
    set (replicate max_procs zero_process) 2 (record zero_process { pid = 7; state = running })

unfoldable machine : Kernel
machine = record {
  procs = one_process;
  next_pid = 8;
  current_proc_idx = 5;
  proc_count = pos 1;
  ticks = 0;
  vmm = record {
    words = λ x. 0;
    kernel_dir = 0;
    cr3 = 0;
    cr0 = 0;
    pmm = record { bitmap = 0xff ∷ 0x0b ∷ []; total_pages = 16; used_pages = 11 };
  };
}

found_seven : process_get 7 machine ≡ some 2
unfolding process_get find_used machine one_process zero_process
found_seven = refl

next_is_two : next_from max_procs one_process 5 ≡ 2
unfolding next_from slot_runnable one_process zero_process
next_is_two = refl

machine-IsTable : IsTable machine
unfolding machine one_process zero_process
machine-IsTable = record { slots = refl; counted = refl }

process_create_lem_example :
    ((count_used machine.procs ≡ max_procs)
      × ((process_create idle 0x1000 3 machine).0 ≡ minus_one)
      × ((process_create idle 0x1000 3 machine).1 ≡ machine))
    ⊎ ((i : ℕ) × Created machine i (process_create idle 0x1000 3 machine))
process_create_lem_example = process_create_lem machine idle 0x1000 3 machine-IsTable

process_exit_lem_example :
    (((m : ℕ) → m < length machine.procs → ¬ HasPid 7 (at machine.procs m))
      × (process_exit 7 machine ≡ machine))
    ⊎ ((i : ℕ) × (FirstWith 7 machine.procs i × Left machine i (process_exit 7 machine)))
process_exit_lem_example = process_exit_lem 7 machine machine-IsTable

small : machine.current_proc_idx < max_procs
unfolding machine
small = omega arith

some_process : is_zero machine.proc_count ≡ false
unfolding machine
some_process = refl

all_slots : length machine.procs ≡ max_procs
unfolding machine one_process
all_slots = refl

process_scheduler_lem_example :
    Switches zero_regs machine
      (process_scheduler zero_regs machine).0
      (process_scheduler zero_regs machine).1
process_scheduler_lem_example = process_scheduler_lem zero_regs machine all_slots small some_process
