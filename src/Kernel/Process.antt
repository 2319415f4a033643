-- ===== src/Kernel/Process.antt =====
-- src/kernel/process.c: the table of processes and the scheduler. A pid is a 32-bit pattern, since
-- the code only counts pids up and compares them; `proc_count` is an int. The timer's ticks and
-- the memory manager's state, which the operations read and change, are part of the state.
pub mod Fork
pub mod Schedule
pub mod Saves
pub mod Rounds
pub mod Next
pub mod Slots
pub mod Counts
mod Tests
use cro_os.Base.{
  ℕ, zero, suc, ◌+◌, ◌-◌, ◌*◌, ◌%◌, ◌^◌, Bool, true, false, ltb, leb, ◌==◌, ◌!=◌, ◌&&◌, ◌||◌, not,
  if◌then◌else◌, List, [], ◌∷◌, Option, none, some, ℤ, pos, negsuc, minus_one, signed32, ltb_ℤ,
  ◌+ℤ◌, get_or, set, replicate,
}
use cro_os.Libc.Strings.{strncpy}
use cro_os.Mm.Pmm.{page_size, pmm_alloc_page}
use cro_os.Mm.Vmm.{Vmm, vmm_create_dir, vmm_map_page, vmm_switch_dir, page_present_write_user}

abbrev pub max_procs : ℕ
max_procs = 64

abbrev pub proc_name_len : ℕ
proc_name_len = 32

abbrev pub max_fd_per_proc : ℕ
max_fd_per_proc = 32

-- PROC_UNUSED and the other states
pub data State : Type 0 where
  unused : State
  running : State
  ready : State
  sleeping : State
  zombie : State

abbrev pub is_unused : State → Bool
is_unused unused = true
is_unused running = false
is_unused ready = false
is_unused sleeping = false
is_unused zombie = false

abbrev pub is_runnable : State → Bool
is_runnable unused = false
is_runnable running = true
is_runnable ready = true
is_runnable sleeping = false
is_runnable zombie = false

pub record Regs : Type 0 where
  pub eax : ℕ
  pub ebx : ℕ
  pub ecx : ℕ
  pub edx : ℕ
  pub esi : ℕ
  pub edi : ℕ
  pub ebp : ℕ
  pub esp : ℕ
  pub eip : ℕ
  pub eflags : ℕ
  pub cs : ℕ
  pub ss : ℕ
  pub ds : ℕ
  pub es : ℕ
  pub fs : ℕ
  pub gs : ℕ

-- `memset` to 0
unfoldable pub zero_regs : Regs
zero_regs = record {
  eax = 0;
  ebx = 0;
  ecx = 0;
  edx = 0;
  esi = 0;
  edi = 0;
  ebp = 0;
  esp = 0;
  eip = 0;
  eflags = 0;
  cs = 0;
  ss = 0;
  ds = 0;
  es = 0;
  fs = 0;
  gs = 0;
}

pub record Process : Type 0 where
  pub pid : ℕ
  pub ppid : ℕ
  pub name : List ℕ
  pub state : State
  pub priority : ℕ
  pub ticks_left : ℕ
  pub page_dir : ℕ
  pub kernel_stack : ℕ
  pub user_stack : ℕ
  pub brk : ℕ
  pub fd_table : List ℤ
  pub fd_count : ℤ
  pub saved_regs : Regs
  pub signal_pending : ℕ
  pub total_ticks : ℕ
  pub start_time : ℕ

unfoldable pub zero_process : Process
unfolding zero_regs
zero_process = record {
  pid = 0;
  ppid = 0;
  name = replicate proc_name_len 0;
  state = unused;
  priority = 0;
  ticks_left = 0;
  page_dir = 0;
  kernel_stack = 0;
  user_stack = 0;
  brk = 0;
  fd_table = replicate max_fd_per_proc (pos 0);
  fd_count = pos 0;
  saved_regs = zero_regs;
  signal_pending = 0;
  total_ticks = 0;
  start_time = 0;
}

pub record Kernel : Type 0 where
  pub procs : List Process
  pub next_pid : ℕ
  pub current_proc_idx : ℕ
  pub proc_count : ℤ
  pub ticks : ℕ
  pub vmm : Vmm

unfoldable pub process_get_pid : Kernel → ℕ
unfolding zero_process
process_get_pid k =
    if ltb k.current_proc_idx max_procs
    then (get_or k.procs k.current_proc_idx zero_process).pid
    else 1

-- The first slot that is not used, in a table whose first slot is `i`.
unfoldable pub first_unused : ℕ → List Process → Option ℕ
first_unused i [] = none
first_unused i (p ∷ ps) =
    let rest = first_unused (i + 1) ps in if is_unused p.state then some i else rest

-- The name field after `strncpy`; the names that the kernel passes end in a zero byte.
abbrev pub named : Option (List ℕ) → List ℕ
named none = replicate proc_name_len 0
named (some name) = name

-- The registers of a new process.
unfoldable pub entry_regs : ℕ → ℕ → Regs
unfolding zero_regs
entry_regs entry stack = record zero_regs {
  eip = entry;
  esp = stack;
  ebp = stack;
  cs = 0x1b;
  ds = 0x23;
  eflags = 0x202;
}

abbrev pub user_stack_top : ℕ
user_stack_top = 0xbfff_e000

-- The slot after `memset`, with its pid: `process_get_pid` is called behind that.
unfoldable pub with_slot : ℕ → Kernel → Kernel
unfolding zero_process
with_slot idx k = record k {
  procs = set k.procs idx (record zero_process { pid = k.next_pid });
  next_pid = (k.next_pid + 1) % 2 ^ 32;
}

-- The user stack's page, when there is one.
unfoldable pub map_stack : ℕ → Vmm → Vmm
map_stack dir v =
    let (page, pmm') = pmm_alloc_page v.pmm in
    let v' = record v { pmm = pmm' } in
    if page == 0
    then v'
    else vmm_map_page dir (user_stack_top - page_size) page page_present_write_user v'

unfoldable pub create_at : ℕ → List ℕ → ℕ → ℕ → Kernel → ℤ × Kernel
unfolding with_slot map_stack entry_regs strncpy zero_process
create_at idx name entry prio k =
    let k₁ = with_slot idx k in
    let (dir, v₁) = vmm_create_dir k₁.vmm in
    let (kstack, pmm') = pmm_alloc_page v₁.pmm in
    let v₂ = map_stack dir (record v₁ { pmm = pmm' }) in
    let prio' = if prio != 0 then prio else 10 in
    (
      signed32 k.next_pid,
      record k₁ {
        procs = set k₁.procs idx (record zero_process {
          pid = k.next_pid;
          ppid = process_get_pid k₁;
          state = running;
          priority = prio';
          ticks_left = prio';
          start_time = k.ticks;
          name = named (strncpy (proc_name_len - 1) (replicate proc_name_len 0) name);
          page_dir = dir;
          kernel_stack = (kstack + page_size) % 2 ^ 32;
          user_stack = user_stack_top;
          brk = 0x0100_0000;
          saved_regs = record (entry_regs entry user_stack_top) { ss = 0x23 };
          fd_table = replicate max_fd_per_proc minus_one;
        });
        proc_count = k.proc_count +ℤ pos 1;
        vmm = v₂;
      },
    )

unfoldable pub process_create : List ℕ → ℕ → ℕ → Kernel → ℤ × Kernel
unfolding first_unused create_at
process_create name entry prio k =
    if not (ltb_ℤ k.proc_count (pos max_procs))
    then (minus_one, k)
    else elim (first_unused 0 k.procs) [
      | none ↦ (minus_one, k)
      | some idx ↦ create_at idx name entry prio k
    ]

-- "idle" and "child"
abbrev pub idle : List ℕ
idle = 105 ∷ 100 ∷ 108 ∷ 101 ∷ 0 ∷ []

abbrev pub child : List ℕ
child = 99 ∷ 104 ∷ 105 ∷ 108 ∷ 100 ∷ 0 ∷ []

unfoldable pub process_init : Kernel → Kernel
unfolding process_create zero_process
process_init k =
    (process_create idle 0 1
      (record k { procs = replicate max_procs zero_process; next_pid = 1; proc_count = pos 0 })).1

-- The first process with this pid whose slot is used, and the first slot with this pid.
unfoldable pub find_used : ℕ → ℕ → List Process → Option ℕ
find_used pid i [] = none
find_used pid i (p ∷ ps) =
    let rest = find_used pid (i + 1) ps in
    if (p.pid == pid) && not (is_unused p.state) then some i else rest

unfoldable pub find_pid : ℕ → ℕ → List Process → Option ℕ
find_pid pid i [] = none
find_pid pid i (p ∷ ps) =
    let rest = find_pid pid (i + 1) ps in if p.pid == pid then some i else rest

unfoldable pub process_get : ℕ → Kernel → Option ℕ
unfolding find_used
process_get pid k = find_used pid 0 k.procs

-- A write to one process.
abbrev pub update : ℕ → (Process → Process) → List Process → List Process
update i f [] = []
update zero f (p ∷ ps) = f p ∷ ps
update (suc i) f (p ∷ ps) = p ∷ update i f ps

unfoldable pub process_exit : ℕ → Kernel → Kernel
unfolding find_used
process_exit pid k = elim (find_used pid 0 k.procs) [
  | none ↦ k
  | some i ↦ record k {
    procs = update i (λ p. record p { state = unused; pid = 0 }) k.procs;
    proc_count = k.proc_count +ℤ minus_one;
  }
]
