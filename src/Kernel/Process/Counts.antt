-- ===== src/Kernel/Process/Counts.antt =====
-- The table of processes that src/kernel/process.c keeps: slots and their count.
use cro_os.Base.{
  ℕ, zero, suc, ◌+◌, ◌<◌, ◌≡◌, ◌≢◌, refl, ap, sym, ◌∙◌, true, false, not, ◌==◌, ◌&&◌, arith, List,
  [], ◌∷◌, none, some, set, inl, inr, ◌⊎◌, Bool-cases, length, length-set, get_or-set_self,
  get_or-set_ne, ℤ, pos, minus_one, ◌+ℤ◌, count_up, count_down, signed32, ltb_ℤ,
}
use cro_os.Kernel.Process.{
  Process, Kernel, max_procs, is_unused, zero_process, unused, running, find_used, update,
  create_at, with_slot, process_create, process_exit,
}
use cro_os.Kernel.Process.Slots.{
  mark, count_used, at, IsTable, count_used-set, count_used-update, length-update, update_self,
  update_ne, first_unused_lem, below_suc,
}

-- What creation leaves: the slot `i` was the first that is free and has the new process, the others are
-- as before.
pub record Created (k : Kernel) (i : ℕ) (r : ℤ × Kernel) : Type 0 where
  pub inside : i < length k.procs
  pub was_free : is_unused (at k.procs i).state ≡ true
  pub below : (m : ℕ) → m < i → is_unused (at k.procs m).state ≡ false
  pub result : r.0 ≡ signed32 k.next_pid
  pub new_pid : (at (r.1.procs) i).pid ≡ k.next_pid
  pub new_state : (at (r.1.procs) i).state ≡ running
  pub others : (j : ℕ) → j ≢ i → at (r.1.procs) j ≡ at k.procs j
  pub table : IsTable (r.1)

-- A slot that is cleared and then written.
module _ (ps : List Process) (i : ℕ) (a b : Process) (h : i < length ps) where
  abbrev rewritten : List Process
  rewritten = set (set ps i a) i b

  rewritten_self : at rewritten i ≡ b
  rewritten_self = get_or-set_self (set ps i a) i b zero_process (omega (arith, length-set ps i a))

  rewritten_ne : (j : ℕ) → j ≢ i → at rewritten j ≡ at ps j
  rewritten_ne j ne =
      get_or-set_ne (set ps i a) i j b zero_process (λ e. ne (sym e))
      ∙ get_or-set_ne ps i j a zero_process (λ e. ne (sym e))

  length-rewritten : length rewritten ≡ length ps
  length-rewritten = length-set (set ps i a) i b ∙ length-set ps i a

  count_used-rewritten : mark (at ps i) ≡ 0 → mark b ≡ 1 → count_used rewritten ≡ count_used ps + 1
  count_used-rewritten free used =
      let one = count_used-set ps i a h in
      let two = count_used-set (set ps i a) i b (omega (arith, h, length-set ps i a)) in
      let self = ap (λ p. mark p) (get_or-set_self ps i a zero_process h) in
      omega (arith, one, two, self)

created :
    (k : Kernel) (i : ℕ) (name : List ℕ) (entry prio : ℕ)
    → IsTable k
    → i < length k.procs
    → is_unused (at k.procs i).state ≡ true
    → ((m : ℕ) → m < i → is_unused (at k.procs m).state ≡ false)
    → Created k i (create_at i name entry prio k)
unfolding create_at with_slot
created k i name entry prio t h free below = record {
  inside = h;
  was_free = free;
  below = below;
  result = refl;
  new_pid = ap (λ p. p.pid) (rewritten_self k.procs i _ _ h);
  new_state = ap (λ p. p.state) (rewritten_self k.procs i _ _ h);
  others = rewritten_ne k.procs i _ _ h;
  table = record {
    slots = length-rewritten k.procs i _ _ h ∙ t.slots;
    counted =
        ap (λ z. z +ℤ pos 1) t.counted
        ∙ count_up (count_used k.procs)
        ∙ ap (λ n. pos n) (sym (count_used-rewritten k.procs i _ _ h (rw free refl) refl));
  };
}

zero_plus : (i : ℕ) → 0 + i ≡ i
zero_plus i = omega arith

few : (z : ℤ) (n : ℕ) → z ≡ pos n → n < max_procs → ltb_ℤ z (pos max_procs) ≡ true
few z n e h = rw e (ground arith)

-- `process_create` on a valid table either finds every slot used, returns -1 and changes nothing,
-- or fills the first slot that is free with a running process of the next pid, which it returns,
-- leaves the other slots alone and counts the new process.
pub process_create_lem :
    (k : Kernel) (name : List ℕ) (entry prio : ℕ)
    → IsTable k
    → ((count_used k.procs ≡ max_procs)
        × ((process_create name entry prio k).0 ≡ minus_one)
        × ((process_create name entry prio k).1 ≡ k))
      ⊎ ((i : ℕ) × Created k i (process_create name entry prio k))
unfolding process_create
process_create_lem k name entry prio t = elim (first_unused_lem 0 k.procs) [
  | inl (e, full) ↦
      inl
        (full ∙ t.slots, (rw (t.counted, full ∙ t.slots) refl), rw (t.counted, full ∙ t.slots) refl)
  | inr (i, f) ↦ inr (
    i,
    rw
        (
          few k.proc_count (count_used k.procs) t.counted (omega (arith, f.room, t.slots)),
          f.at_slot ∙ ap (λ x. some x) (zero_plus i),
        )
        (created k i name entry prio t f.inside f.free f.below),
  )
]

-- The process of a slot is used and has the pid.
pub record HasPid (pid : ℕ) (p : Process) : Type 0 where
  pub same_pid : p.pid ≡ pid
  pub used : is_unused p.state ≡ false

-- The first used process with the pid.
pub record FirstWith (pid : ℕ) (ps : List Process) (j : ℕ) : Type 0 where
  pub inside : j < length ps
  pub here : HasPid pid (at ps j)
  pub below : (m : ℕ) → m < j → ¬ HasPid pid (at ps m)

test-HasPid :
    (pid : ℕ) (p : Process) → (p.pid == pid) && not (is_unused p.state) ≡ true → HasPid pid p
test-HasPid pid p h = record { same_pid = ground (arith, h); used = ground (arith, h) }

test-no_pid :
    (pid : ℕ) (p : Process) → (p.pid == pid) && not (is_unused p.state) ≡ false → ¬ HasPid pid p
test-no_pid pid p h q = ground (arith, h, q.same_pid, q.used)

find_used_lem :
    (pid i : ℕ) (ps : List Process)
    → ((find_used pid i ps ≡ none) × ((m : ℕ) → m < length ps → ¬ HasPid pid (at ps m)))
      ⊎ ((j : ℕ) × ((find_used pid i ps ≡ some (i + j)) × FirstWith pid ps j))
unfolding find_used
find_used_lem pid i [] = inl (refl, λ m l. absurd (omega arith))
find_used_lem pid i (p ∷ ps) =
    let rest = find_used_lem pid (i + 1) ps in
    elim (Bool-cases ((p.pid == pid) && not (is_unused p.state))) [
      | inl here ↦ inr (
        zero,
        (
          rw here (ap (λ x. some x) (omega arith)),
          record {
            inside = omega arith;
            here = test-HasPid pid p here;
            below = λ m l. absurd (omega arith);
          },
        ),
      )
      | inr other ↦
          let skip = test-no_pid pid p other in
          elim rest [
            | inl (e, nowhere) ↦
                inl (rw other e, below_suc (λ q. ¬ HasPid pid q) p ps (length ps) skip nowhere)
            | inr (j, (e, f)) ↦ inr (
              suc j,
              (
                rw other (e ∙ ap (λ x. some x) (omega arith)),
                record {
                  inside = omega (arith, f.inside);
                  here = f.here;
                  below = below_suc (λ q. ¬ HasPid pid q) p ps j skip f.below;
                },
              ),
            )
          ]
    ]

abbrev leave : Process → Process
leave p = record p { state = unused; pid = 0 }

left-IsTable :
    (k : Kernel) (i : ℕ)
    → IsTable k
    → i < length k.procs
    → is_unused (at k.procs i).state ≡ false
    → IsTable (record k { procs = update i leave k.procs; proc_count = k.proc_count +ℤ minus_one })
left-IsTable k i t h used =
    let c = count_used-update k.procs i leave h in
    let one : mark (at k.procs i) ≡ 1 = rw used refl in
    let down : count_used k.procs ≡ suc (count_used (update i leave k.procs)) =
      omega (arith, c, one) in
    record {
      slots = length-update k.procs i leave ∙ t.slots;
      counted =
          ap (λ z. z +ℤ minus_one) (t.counted ∙ ap (λ n. pos n) down)
          ∙ count_down (count_used (update i leave k.procs));
    }

-- What `process_exit` leaves: the slot `i` is free, the others are as before.
pub record Left (k : Kernel) (i : ℕ) (k' : Kernel) : Type 0 where
  pub freed : (at k'.procs i).state ≡ unused
  pub no_pid : (at k'.procs i).pid ≡ 0
  pub others : (j : ℕ) → j ≢ i → at k'.procs j ≡ at k.procs j
  pub table : IsTable k'

-- On a valid table, `process_exit` frees the slot of the first used process with that pid and counts it
-- off, keeps every other slot and leaves a valid table; if no used process has the pid it changes
-- nothing.
pub process_exit_lem :
    (pid : ℕ) (k : Kernel)
    → IsTable k
    → (((m : ℕ) → m < length k.procs → ¬ HasPid pid (at k.procs m)) × (process_exit pid k ≡ k))
      ⊎ ((i : ℕ) × (FirstWith pid k.procs i × Left k i (process_exit pid k)))
unfolding process_exit
process_exit_lem pid k t = elim (find_used_lem pid 0 k.procs) [
  | inl (e, none_such) ↦ inl (none_such, rw (e, process_exit) refl)
  | inr (i, (at_slot, f)) ↦
      let e : find_used pid 0 k.procs ≡ some i = at_slot ∙ ap (λ x. some x) (zero_plus i) in
      inr (
        i,
        (
          f,
          rw (e, process_exit)
              (record {
                freed = ap (λ p. p.state) (update_self k.procs i leave f.inside);
                no_pid = ap (λ p. p.pid) (update_self k.procs i leave f.inside);
                others = λ j ne. update_ne k.procs i j leave ne;
                table = left-IsTable k i t f.inside f.here.used;
              }),
        ),
      )
]
