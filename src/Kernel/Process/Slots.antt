-- ===== src/Kernel/Process/Slots.antt =====
-- The slots of the table that src/kernel/process.c keeps, and how many are used.
use cro_os.Base.{
  ℕ, zero, suc, ◌+◌, ◌≤◌, ◌<◌, ◌≡◌, ◌≢◌, refl, ap, ◌∙◌, true, false, if◌then◌else◌, arith, List, [],
  ◌∷◌, none, some, get_or, set, inl, inr, ◌⊎◌, Bool-cases, length, pos,
}
use cro_os.Kernel.Process.{
  Process, Kernel, max_procs, is_unused, zero_process, first_unused, update,
}

abbrev pub mark : Process → ℕ
mark p = if is_unused p.state then 0 else 1

abbrev pub count_used : List Process → ℕ
count_used [] = 0
count_used (p ∷ ps) = mark p + count_used ps

abbrev pub at : List Process → ℕ → Process
at ps i = get_or ps i zero_process

-- The table has its slots, and `proc_count` counts those that are used.
pub record IsTable (k : Kernel) : Type 0 where
  pub slots : length k.procs ≡ max_procs
  pub counted : k.proc_count ≡ pos (count_used k.procs)

pub count_used-set :
    (ps : List Process) (i : ℕ) (p : Process)
    → i < length ps
    → count_used (set ps i p) + mark (at ps i) ≡ count_used ps + mark p
count_used-set [] i p h = absurd (omega arith)
count_used-set (q ∷ ps) zero p h = omega arith
count_used-set (q ∷ ps) (suc i) p h = omega (arith, count_used-set ps i p (omega arith))

pub count_used-update :
    (ps : List Process) (i : ℕ) (f : Process → Process)
    → i < length ps
    → count_used (update i f ps) + mark (at ps i) ≡ count_used ps + mark (f (at ps i))
count_used-update [] i f h = absurd (omega arith)
count_used-update (q ∷ ps) zero f h = omega arith
count_used-update (q ∷ ps) (suc i) f h = omega (arith, count_used-update ps i f (omega arith))

pub length-update :
    (ps : List Process) (i : ℕ) (f : Process → Process) → length (update i f ps) ≡ length ps
length-update [] i f = refl
length-update (q ∷ ps) zero f = refl
length-update (q ∷ ps) (suc i) f = ap suc (length-update ps i f)

pub update_self :
    (ps : List Process) (i : ℕ) (f : Process → Process)
    → i < length ps
    → at (update i f ps) i ≡ f (at ps i)
update_self [] i f h = absurd (omega arith)
update_self (q ∷ ps) zero f h = refl
update_self (q ∷ ps) (suc i) f h = update_self ps i f (omega arith)

pub update_ne :
    (ps : List Process) (i j : ℕ) (f : Process → Process) → j ≢ i → at (update i f ps) j ≡ at ps j
update_ne [] i j f h = refl
update_ne (q ∷ ps) zero zero f h = absurd (h refl)
update_ne (q ∷ ps) zero (suc j) f h = refl
update_ne (q ∷ ps) (suc i) zero f h = refl
update_ne (q ∷ ps) (suc i) (suc j) f h = update_ne ps i j f (λ e. h (ap suc e))

-- The slot at `i + j` is the first that is not used.
pub record Free (i : ℕ) (ps : List Process) (j : ℕ) : Type 0 where
  pub at_slot : first_unused i ps ≡ some (i + j)
  pub inside : j < length ps
  pub free : is_unused (at ps j).state ≡ true
  pub room : count_used ps < length ps
  pub below : (m : ℕ) → m < j → is_unused (at ps m).state ≡ false

pub count_used-le : (ps : List Process) → count_used ps ≤ length ps
count_used-le [] = omega arith
count_used-le (p ∷ ps) = ground (arith, count_used-le ps)

-- What holds of the head and of the first slots behind it holds of one slot more.
pub below_suc :
    (P : Process → Type 0) (p : Process) (ps : List Process) (j : ℕ)
    → P p
    → ((m : ℕ) → m < j → P (at ps m))
    → (m : ℕ) → m < suc j
    → P (at (p ∷ ps) m)
below_suc P p ps j h rest zero l = h
below_suc P p ps j h rest (suc m) l = rest m (omega arith)

pub first_unused_lem :
    (i : ℕ) (ps : List Process)
    → ((first_unused i ps ≡ none) × (count_used ps ≡ length ps)) ⊎ ((j : ℕ) × Free i ps j)
unfolding first_unused
first_unused_lem i [] = inl (refl, refl)
first_unused_lem i (p ∷ ps) =
    let rest = first_unused_lem (i + 1) ps in
    elim (Bool-cases (is_unused p.state)) [
      | inl here ↦ inr (
        zero,
        record {
          at_slot = rw here (ap some (omega arith));
          inside = omega arith;
          free = here;
          room = rw here (omega (arith, count_used-le ps));
          below = λ m l. absurd (omega arith);
        },
      )
      | inr taken ↦ elim rest [
        | inl (e, c) ↦ inl (rw taken e, rw taken (omega (arith, c)))
        | inr (j, f) ↦ inr (
          suc j,
          record {
            at_slot = rw taken (f.at_slot ∙ ap (λ x. some x) (omega arith));
            inside = omega (arith, f.inside);
            free = f.free;
            room = rw taken (omega (arith, f.room));
            below = below_suc (λ q. is_unused q.state ≡ false) p ps j taken f.below;
          },
        )
      ]
    ]
