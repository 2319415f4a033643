-- ===== src/Sys/Signal/Pending.antt =====
-- Which signals src/sys/signal.c reports and delivers.
use cro_os.Base.{
  ℕ, ◌^◌, ◌≤◌, ◌<◌, ◌≡◌, ◌≢◌, none, ◌-◌, refl, ap, sym, ◌∙◌, subst, ◌==◌, ◌&&◌, if◌then◌else◌, some,
  arith, inl, inr, ◌⊎◌, ℤ, pos, negsuc, minus_one, get_or, set, length, slot, slot-is,
  get_or-set_self, get_or-set_ne, Option-cases,
}
use native.Mathlib.Decide.{ℕ_discrete}
use cro_os.Base.Bits.{test_bit}
use cro_os.Kernel.Process.{max_procs}
use cro_os.Sys.Signal.{
  SignalState, Signals, pend, send, valid_signum, signal_send, unmasked, own_slot,
  signal_check_pending, state_of, zero_state,
}
use cro_os.Sys.Signal.Words.{waits, pend_lem, unmasked_lem, first_pending_lem}

-- The signal `n` waits and none below it does.
pub record FirstWaiting (t : SignalState) (n : ℕ) : Type 0 where
  pub number : (1 ≤ n) × (n < 32)
  pub waiting : waits t n ≡ 1
  pub before : (m : ℕ) → 1 ≤ m → m < n → waits t m ≡ 0

-- For a process with a slot, `signal_check_pending` returns the lowest signal that is pending and
-- not masked, or 0 if there is none.
pub signal_check_pending_lem :
    (s : Signals) (i : ℕ)
    → own_slot s ≡ some i
    → (state_of i s).mask < 2 ^ 32
    → ((n : ℕ) × ((signal_check_pending s ≡ pos n) × FirstWaiting (state_of i s) n))
      ⊎ ((signal_check_pending s ≡ pos 0) × ((m : ℕ) → 1 ≤ m → m < 32 → waits (state_of i s) m ≡ 0))
unfolding signal_check_pending
signal_check_pending_lem s i own h =
    rw (own, signal_check_pending)
      (elim (first_pending_lem 31 1 (unmasked (state_of i s))) [
        | inl (n, (e, l, u, one, before)) ↦ inl (
          n,
          (
            e,
            record {
              number = (l, omega (arith, u));
              waiting = sym (unmasked_lem n (state_of i s) h (omega (arith, u))) ∙ one;
              before = λ m lo hi.
                  sym (unmasked_lem m (state_of i s) h (omega (arith, u, hi))) ∙ before m lo hi;
            },
          ),
        )
        | inr (e, all) ↦
            inr (
              e,
              λ m lo hi. sym (unmasked_lem m (state_of i s) h hi) ∙ all m lo (omega (arith, hi)),
            )
      ])

sent :
    (s : Signals) (i n k j : ℕ)
    → i < length s.signals
    → test_bit (get_or (set s.signals i (pend n (state_of i s))) k zero_state).pending j
      ≡ (if (i == k) && (n == j) then 1 else test_bit (state_of k s).pending j)
sent s i n k j h = elim (ℕ_discrete i k) [
  | yes e ↦
      subst
        (λ x.
          test_bit (get_or (set s.signals i (pend n (state_of i s))) x zero_state).pending j
          ≡ (if (i == x) && (n == j) then 1 else test_bit (state_of x s).pending j))
        e
        (ap (λ t. test_bit t.pending j)
            (get_or-set_self s.signals i (pend n (state_of i s)) zero_state h)
          ∙ pend_lem n j (state_of i s)
          ∙ ground arith)
  | no ne ↦
      ap (λ t. test_bit t.pending j)
        (get_or-set_ne s.signals i k (pend n (state_of i s)) zero_state ne)
      ∙ ground arith
]

-- The integer is one of the numbers from `lo` up to `hi`, these included.
pub record IsIn (lo hi : ℕ) (z : ℤ) : Type 0 where
  pub number : ℕ
  pub is_number : z ≡ pos number
  pub bounds : (lo ≤ number) × (number ≤ hi)

slot-IsIn : (z : ℤ) → slot max_procs z ≡ none → ¬ IsIn 0 (max_procs - 1) z
slot-IsIn (pos m) e h = ground (arith, e, h.is_number, h.bounds)
slot-IsIn (negsuc m) e h = ground (arith, h.is_number)

valid_signum-IsIn : (z : ℤ) → valid_signum z ≡ none → ¬ IsIn 1 31 z
valid_signum-IsIn (pos m) e h = ground (arith, e, h.is_number, h.bounds)
valid_signum-IsIn (negsuc m) e h = ground (arith, h.is_number)

valid_signum-is : (z : ℤ) (n : ℕ) → valid_signum z ≡ some n → (z ≡ pos n) × ((1 ≤ n) × (n ≤ 31))
valid_signum-is (pos m) n e = ground (arith, e)
valid_signum-is (negsuc m) n e = ground (arith, e)

-- `signal_send` of the signal `n` to the pid `i` returns 0, and the pending bit of that signal for
-- that process is the only one that it may change.
pub record Sends (s : Signals) (i n : ℕ) (r : ℤ × Signals) : Type 0 where
  pub target : i < max_procs
  pub number : (1 ≤ n) × (n ≤ 31)
  pub result : r.0 ≡ pos 0
  pub set_bit : test_bit (state_of i (r.1)).pending n ≡ 1
  pub other_bits :
      (k j : ℕ)
      → (i ≢ k) ⊎ (n ≢ j)
      → test_bit (state_of k (r.1)).pending j ≡ test_bit (state_of k s).pending j

-- On a full table, `signal_send` refuses exactly a pid outside of 0 to 63 or a number outside of 1 to
-- 31, for which it returns -1 and changes nothing. For every other pid and number it returns 0 and sets
-- the pending bit of that signal for that process, and changes no other pending bit, also for the signals
-- that act on the process at once.
pub signal_send_lem :
    (pid signum : ℤ) (s : Signals)
    → length s.signals ≡ max_procs
    → ((¬ (IsIn 0 (max_procs - 1) pid × IsIn 1 31 signum))
        × (signal_send pid signum s ≡ (minus_one, s)))
      ⊎ ((i : ℕ) × ((n : ℕ) × ((pid ≡ pos i)
              × (signum ≡ pos n)
              × Sends s i n (signal_send pid signum s))))
unfolding signal_send send
signal_send_lem pid signum s h = elim (Option-cases (slot max_procs pid)) [
  | inl e ↦ inl (λ q. slot-IsIn pid e q.0, rw (e, send) refl)
  | inr (i, e) ↦ elim (Option-cases (valid_signum signum)) [
    | inl f ↦ inl (λ q. valid_signum-IsIn signum f q.1, rw (e, f, send) refl)
    | inr (n, f) ↦
        let (is_i, small) = slot-is max_procs pid i e in
        let (is_n, bounds) = valid_signum-is signum n f in
        let all = λ (k : ℕ) (j : ℕ). sent s i n k j (omega (arith, h, small)) in
        inr (
          i,
          (
            n,
            (
              is_i,
              is_n,
              rw (e, f, signal_send, send)
                  (record {
                    target = small;
                    number = bounds;
                    result = refl;
                    set_bit = all i n ∙ ground arith;
                    other_bits = λ k j ne. all k j ∙ ground (arith, ne);
                  }),
            ),
          ),
        )
  ]
]
