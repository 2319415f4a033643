-- ===== src/Sys/Signal.antt =====
-- src/sys/signal.c: each process's pending and masked signals, as 32-bit words, and its handlers.
-- A handler is its address; 0 is SIG_DFL and 1 is SIG_IGN. What a user's handler does to the state
-- is a parameter of `signal_deliver`.
pub mod Words
pub mod Pending
mod Tests
use cro_os.Base.{
  ℕ, zero, suc, ◌+◌, ◌-◌, ◌*◌, ◌%◌, ◌^◌, bit_and, bit_or, Bool, true, false, ltb, leb, ◌==◌, ◌!=◌,
  ◌&&◌, ◌||◌, not, if◌then◌else◌, List, [], ◌∷◌, Option, none, some, ℤ, pos, negsuc, minus_one,
  signed32, slot, get_or, set, replicate,
}
use cro_os.Base.Bits.{bit, not32}
use cro_os.Kernel.Process.{
  Kernel, Process, State, sleeping, running, max_procs, process_get, process_get_pid, process_exit,
  update,
}

abbrev pub sig_dfl : ℕ
sig_dfl = 0

abbrev pub sig_ign : ℕ
sig_ign = 1

abbrev pub sigint : ℕ
sigint = 2

abbrev pub sigquit : ℕ
sigquit = 3

abbrev pub sigkill : ℕ
sigkill = 9

abbrev pub sigsegv : ℕ
sigsegv = 11

abbrev pub sigterm : ℕ
sigterm = 15

abbrev pub sigcont : ℕ
sigcont = 18

abbrev pub sigstop : ℕ
sigstop = 19

pub record SignalState : Type 0 where
  pub mask : ℕ
  pub pending : ℕ
  pub handlers : List ℕ

pub record Signals : Type 0 where
  pub signals : List SignalState
  pub kernel : Kernel

-- `memset` to 0 and every handler SIG_DFL
abbrev pub zero_state : SignalState
zero_state = record { mask = 0; pending = 0; handlers = replicate 32 sig_dfl }

abbrev pub state_of : ℕ → Signals → SignalState
state_of i s = get_or s.signals i zero_state

unfoldable pub signal_init : ℤ → Signals → Signals
signal_init pid s = elim (slot max_procs pid) [
  | none ↦ s
  | some i ↦ record s { signals = set s.signals i zero_state }
]

-- The signal numbers that pass `signum < 1 || signum > 31`.
abbrev pub valid_signum : ℤ → Option ℕ
valid_signum (pos n) = if leb 1 n && leb n 31 then some n else none
valid_signum (negsuc n) = none

-- `process_get(pid)` and a write to its state
unfoldable pub set_state : ℕ → State → Kernel → Kernel
unfolding process_get
set_state pid st k = elim (process_get pid k) [
  | none ↦ k
  | some i ↦ record k { procs = update i (λ p. record p { state = st }) k.procs }
]

unfoldable pub special : ℕ → ℕ → Kernel → Kernel
unfolding set_state process_exit
special pid signum k =
    if signum == sigkill
    then process_exit pid k
    else if signum == sigstop
    then set_state pid sleeping k
    else if signum == sigcont
    then set_state pid running k
    else k

unfoldable pub pend : ℕ → SignalState → SignalState
pend signum t = record t { pending = bit_or t.pending (bit signum) }

unfoldable pub send : Option ℕ → Option ℕ → Signals → ℤ × Signals
unfolding pend special
send none signum s = (minus_one, s)
send (some i) none s = (minus_one, s)
send (some i) (some n) s = (
  pos 0,
  record s { signals = set s.signals i (pend n (state_of i s)); kernel = special i n s.kernel },
)

unfoldable pub signal_send : ℤ → ℤ → Signals → ℤ × Signals
unfolding send
signal_send pid signum s = send (slot max_procs pid) (valid_signum signum) s

-- The caller's slot in the table, when its pid is one.
unfoldable pub own_slot : Signals → Option ℕ
unfolding process_get_pid
own_slot s = slot max_procs (signed32 (process_get_pid s.kernel))

unfoldable pub handler_set : Option ℕ → Option ℕ → ℕ → Signals → ℤ × Signals
handler_set none own h s = (minus_one, s)
handler_set (some n) none h s = (minus_one, s)
handler_set (some n) (some i) h s = (
  pos 0,
  record s {
    signals =
        set s.signals i (record (state_of i s) { handlers = set (state_of i s).handlers n h });
  },
)

unfoldable pub signal_handler_set : ℤ → ℕ → Signals → ℤ × Signals
unfolding handler_set own_slot
signal_handler_set signum h s = handler_set (valid_signum signum) (own_slot s) h s

unfoldable pub handler_get : Option ℕ → Option ℕ → Signals → ℕ
handler_get none own s = sig_dfl
handler_get (some n) none s = sig_dfl
handler_get (some n) (some i) s = get_or (state_of i s).handlers n sig_dfl

unfoldable pub signal_handler_get : ℤ → Signals → ℕ
unfolding handler_get own_slot
signal_handler_get signum s = handler_get (valid_signum signum) (own_slot s) s

-- The three ways to change a mask; `none` for another `how`.
unfoldable pub new_mask : ℕ → ℕ → ℕ → Option ℕ
new_mask how signum mask =
    if how == 0
    then some (bit_or mask (bit signum))
    else if how == 1
    then some (bit_and mask (not32 (bit signum)))
    else if how == 2
    then some (bit signum)
    else none

unfoldable pub mask_set : ℕ → Option ℕ → Option ℕ → Signals → ℤ × Signals
unfolding new_mask
mask_set how none own s = (minus_one, s)
mask_set how (some n) none s = (minus_one, s)
mask_set how (some n) (some i) s = elim (new_mask how n (state_of i s).mask) [
  | none ↦ (minus_one, s)
  | some m ↦ (pos 0, record s { signals = set s.signals i (record (state_of i s) { mask = m }) })
]

unfoldable pub signal_mask_set : ℕ → ℤ → Signals → ℤ × Signals
unfolding mask_set own_slot
signal_mask_set how signum s = mask_set how (valid_signum signum) (own_slot s) s

-- `pending & ~mask`
unfoldable pub unmasked : SignalState → ℕ
unmasked t = bit_and t.pending (not32 t.mask)

-- The loop of `signal_check_pending` from the bit `i` on.
unfoldable pub first_pending : ℕ → ℕ → ℕ → ℤ
first_pending zero i pending = pos 0
first_pending (suc left) i pending =
    let rest = first_pending left (i + 1) pending in
    if bit_and pending (bit i) != 0 then pos i else rest

unfoldable pub signal_check_pending : Signals → ℤ
unfolding first_pending unmasked own_slot
signal_check_pending s = elim (own_slot s) [
  | none ↦ minus_one
  | some i ↦ first_pending 31 1 (unmasked (state_of i s))
]

abbrev pub is_fatal : ℕ → Bool
is_fatal i = (i == sigint) || (i == sigquit) || (i == sigterm) || (i == sigkill) || (i == sigsegv)

-- `run h n` is the call of the user's handler at the address `h` with the signal `n`.
module _ (run : ℕ → ℕ → Signals → Signals) where
  -- One pending signal of the process `pid`.
  unfoldable pub dispatch : ℕ → ℕ → Signals → Signals
  unfolding process_exit
  dispatch pid i s =
      let t = state_of pid s in
      let h = get_or t.handlers i sig_dfl in
      let s' = record s {
        signals = set s.signals pid (record t { pending = bit_and t.pending (not32 (bit i)) });
      } in
      if h == sig_ign
      then s'
      else if h == sig_dfl
      then if is_fatal i then record s' { kernel = process_exit pid s.kernel } else s'
      else run h i s'

  unfoldable pub deliver_from : ℕ → ℕ → ℕ → ℕ → Signals → Signals
  unfolding dispatch
  deliver_from zero i pending pid s = s
  deliver_from (suc left) i pending pid s =
      deliver_from left (i + 1) pending pid
        (if bit_and pending (bit i) != 0 then dispatch pid i s else s)

  unfoldable pub signal_deliver : ℤ → Signals → Signals
  unfolding deliver_from unmasked
  signal_deliver pid s = elim (slot max_procs pid) [
    | none ↦ s
    | some i ↦ deliver_from 31 1 (unmasked (state_of i s)) i s
  ]
