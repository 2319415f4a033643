-- ===== src/Kernel/Process/Rounds.antt =====
-- src/kernel/process.c: the slot that the search of the scheduler ends at.
use cro_os.Base.{
  ℕ, zero, suc, ◌+◌, ◌%◌, ◌≤◌, ◌<◌, ◌≡◌, refl, ap, sym, ◌∙◌, Bool, true, false, arith, List, inl,
  inr, ◌⊎◌, Bool-cases,
}
use cro_os.Kernel.Process.{Process, max_procs}
use cro_os.Kernel.Process.Schedule.{slot_runnable, next_from}

-- Behind the slot `i` the slot `t`, `j` slots further, is the first that is runnable.
pub record Found (n : ℕ) (ps : List Process) (i t j : ℕ) : Type 0 where
  pub near : (1 ≤ j) × (j ≤ n)
  pub runnable : slot_runnable ps t ≡ true
  pub first : (m : ℕ) → 1 ≤ m → m < j → slot_runnable ps ((i + m) % max_procs) ≡ false
  pub at : t ≡ (i + j) % max_procs

-- None of the `n` slots behind `i` is runnable, and `t` is the last of them.
pub record NoneFound (n : ℕ) (ps : List Process) (i t : ℕ) : Type 0 where
  pub none_runnable : (m : ℕ) → 1 ≤ m → m < suc n → slot_runnable ps ((i + m) % max_procs) ≡ false
  pub at : t ≡ (i + n) % max_procs

around : (i m : ℕ) → ((i + 1) % max_procs + m) % max_procs ≡ (i + suc m) % max_procs
around i m = omega arith

-- A round that finds nothing goes on from the next slot.
later :
    (ps : List Process) (i m : ℕ) (b : Bool)
    → slot_runnable ps (((i + 1) % max_procs + m) % max_procs) ≡ b
    → slot_runnable ps ((i + suc m) % max_procs) ≡ b
later ps i m b h = ap (λ x. slot_runnable ps x) (sym (around i m)) ∙ h

later_first :
    (ps : List Process) (i j : ℕ)
    → slot_runnable ps ((i + 1) % max_procs) ≡ false
    → ((m : ℕ) → 1 ≤ m → m < j → slot_runnable ps (((i + 1) % max_procs + m) % max_procs) ≡ false)
    → (m : ℕ) → 1 ≤ m
    → m < suc j
    → slot_runnable ps ((i + m) % max_procs) ≡ false
later_first ps i j skip rest zero h k = absurd (omega arith)
later_first ps i j skip rest (suc zero) h k = skip
later_first ps i j skip rest (suc (suc m)) h k =
    later ps i (suc m) false (rest (suc m) (omega arith) (omega arith))

pub next_from_lem :
    (n : ℕ) (ps : List Process) (i : ℕ)
    → i < max_procs
    → ((j : ℕ) × Found n ps i (next_from n ps i) j) ⊎ NoneFound n ps i (next_from n ps i)
unfolding next_from
next_from_lem zero ps i h =
    inr (record { none_runnable = λ m l u. absurd (omega arith); at = omega arith })
next_from_lem (suc n) ps i h =
    let rest = next_from_lem n ps ((i + 1) % max_procs) (omega arith) in
    elim (Bool-cases (slot_runnable ps ((i + 1) % max_procs))) [
      | inl here ↦ rw here (
          inl (
            1,
            record {
              near = (omega arith, omega arith);
              runnable = here;
              first = λ m l u. absurd (omega arith);
              at = refl;
            },
          ))
      | inr skip ↦ elim rest [
        | inl (j, f) ↦ rw skip (
            inl (
              suc j,
              record {
                near = (omega arith, omega (arith, f.near));
                runnable = f.runnable;
                first = later_first ps i j skip f.first;
                at = f.at ∙ around i j;
              },
            ))
        | inr f ↦ rw skip (
            inr (record {
              none_runnable = later_first ps i (suc n) skip f.none_runnable;
              at = f.at ∙ around i n;
            }))
      ]
    ]
