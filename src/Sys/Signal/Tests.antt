-- ===== src/Sys/Signal/Tests.antt =====
-- Runs of src/sys/signal.c, for the process in the slot 2.
use cro_os.Base.{
  ℕ, ◌^◌, ◌≤◌, ◌<◌, ◌≡◌, ◌-◌, refl, ◌⊎◌, arith, [], ◌∷◌, some, set, replicate, pos, minus_one,
  length,
}
use cro_os.Kernel.Process.{Kernel, max_procs, running, zero_process, process_get_pid}
use cro_os.Sys.Signal.{
  Signals, zero_state, state_of, own_slot, signal_send, signal_check_pending, first_pending,
  unmasked,
}
use cro_os.Sys.Signal.Words.{waits}
use cro_os.Sys.Signal.Pending.{FirstWaiting, IsIn, Sends, signal_check_pending_lem, signal_send_lem}

unfoldable process_two : Kernel
unfolding zero_process
process_two = record {
  procs = record zero_process { pid = 2; state = running } ∷ [];
  next_pid = 8;
  current_proc_idx = 0;
  proc_count = pos 1;
  ticks = 0;
  vmm = record {
    words = λ x. 0;
    kernel_dir = 0;
    cr3 = 0;
    cr0 = 0;
    pmm = record { bitmap = 0xff ∷ 0x0b ∷ []; total_pages = 16; used_pages = 11 };
  };
}

-- SIGINT and SIGTERM are pending, and SIGINT is masked.
unfoldable two_pending : Signals
two_pending = record {
  signals =
      set (replicate max_procs zero_state) 2 (record zero_state { pending = 0x8004; mask = 4 });
  kernel = process_two;
}

term_first : signal_check_pending two_pending ≡ pos 15
unfolding signal_check_pending own_slot process_get_pid two_pending process_two zero_process
    first_pending unmasked
term_first = refl

two_pending-own : own_slot two_pending ≡ some 2
unfolding own_slot process_get_pid two_pending process_two zero_process
two_pending-own = refl

two_pending-mask : (state_of 2 two_pending).mask < 2 ^ 32
unfolding two_pending
two_pending-mask = omega arith

two_pending-length : length two_pending.signals ≡ max_procs
unfolding two_pending
two_pending-length = refl

signal_check_pending_lem_example :
    ((n : ℕ) × ((signal_check_pending two_pending ≡ pos n)
        × FirstWaiting (state_of 2 two_pending) n))
    ⊎ ((signal_check_pending two_pending ≡ pos 0)
        × ((m : ℕ) → 1 ≤ m → m < 32 → waits (state_of 2 two_pending) m ≡ 0))
signal_check_pending_lem_example =
    signal_check_pending_lem two_pending 2 two_pending-own two_pending-mask

signal_send_lem_example :
    ((¬ (IsIn 0 (max_procs - 1) (pos 2) × IsIn 1 31 (pos 9)))
      × (signal_send (pos 2) (pos 9) two_pending ≡ (minus_one, two_pending)))
    ⊎ ((i : ℕ) × ((n : ℕ) × ((pos 2 ≡ pos i)
            × (pos 9 ≡ pos n)
            × Sends two_pending i n (signal_send (pos 2) (pos 9) two_pending))))
signal_send_lem_example = signal_send_lem (pos 2) (pos 9) two_pending two_pending-length
