-- ===== src/Sys/Pipe/Table.antt =====
-- The table of src/sys/pipe.c: which slots are in use.
use cro_os.Base.{
  ℕ, zero, suc, ◌+◌, ◌<◌, ◌≡◌, ◌≢◌, refl, sym, subst, ap, ◌∙◌, true, false, List, [], ◌∷◌, ◌++◌,
  leb, ◌==◌, length, get_or, set, arith, Bool-cases, Option-cases, inl, inr, ◌⊎◌, ℤ, pos, minus_one,
  slot,
}
use cro_os.Sys.Pipe.{
  Pipe, zero_pipe, new_pipe, max_pipes, pipe_buffer_size, Outcome, taken, put, create_from,
  pipe_create, pipe_close, close_one, pipe_read, pipe_write, read_loop, write_loop, on_pipe,
}
use native.Mathlib.Decide.{ℕ_discrete}

abbrev pub pipe_at : List Pipe → ℕ → Pipe
pipe_at ps i = get_or ps i zero_pipe

-- A created pipe goes to the first slot that is not in use, from `i` on.
pub record Creates (i : ℕ) (ps : List Pipe) (k : ℕ) (r : ℤ × List Pipe) : Type 0 where
  pub id : r.0 ≡ pos (i + k)
  pub inside : k < length ps
  pub was_free : (pipe_at ps k).in_use ≡ false
  pub first : (j : ℕ) → j < k → (pipe_at ps j).in_use ≡ true
  pub made : pipe_at r.1 k ≡ new_pipe
  pub others : (j : ℕ) → j ≢ k → pipe_at r.1 j ≡ pipe_at ps j

pub record NoSlot (ps : List Pipe) (r : ℤ × List Pipe) : Type 0 where
  pub all_in_use : (j : ℕ) → j < length ps → (pipe_at ps j).in_use ≡ true
  pub unchanged : r ≡ (minus_one, ps)

create_from-cases :
    (i : ℕ) (ps : List Pipe)
    → ((k : ℕ) × Creates i ps k (create_from i ps)) ⊎ NoSlot ps (create_from i ps)
unfolding create_from
create_from-cases i [] = inr (record { all_in_use = λ j h. elim h [ ]; unchanged = refl })
create_from-cases i (p ∷ ps) = elim (Bool-cases p.in_use) [
  | inl busy ↦ elim (create_from-cases (i + 1) ps) [
    | inl (k, c) ↦ simp busy (
        inl (
          suc k,
          record {
            id = c.id ∙ ap pos (omega arith);
            inside = omega (arith, c.inside);
            was_free = c.was_free;
            first = elim [ zero ↦ λ h. busy | suc j ↦ λ h. c.first j (omega arith) ];
            made = c.made;
            others = elim [ zero ↦ λ h. refl | suc j ↦ λ h. c.others j (λ e. h (ap suc e)) ];
          },
        ))
    | inr n ↦ simp busy (
        inr (record {
          all_in_use = elim [ zero ↦ λ h. busy | suc j ↦ λ h. n.all_in_use j (omega arith) ];
          unchanged = λ t. ((n.unchanged t).0, p ∷ (n.unchanged t).1);
        }))
  ]
  | inr free ↦ simp free (
      inl (
        0,
        record {
          id = ap pos (omega arith);
          inside = omega arith;
          was_free = free;
          first = λ j h. elim h [ ];
          made = refl;
          others = elim [ zero ↦ λ h. absurd (h refl) | suc j ↦ λ h. refl ];
        },
      ))
]

-- `pipe_create` takes the first slot that is not in use, returns its number, puts an empty pipe
-- with one reader and one writer there and changes no other slot; if every slot is in use it
-- returns -1 and changes nothing.
pub pipe_create_lem :
    (ps : List Pipe) → ((k : ℕ) × Creates 0 ps k (pipe_create ps)) ⊎ NoSlot ps (pipe_create ps)
unfolding pipe_create
pipe_create_lem ps = create_from-cases 0 ps

ends_read :
    (n : ℕ) (dst : List ℕ) (p : Pipe)
    → let q = (read_loop n dst p).state in (q.readers ≡ p.readers) × (q.in_use ≡ p.in_use)
unfolding read_loop taken
ends_read zero dst p = (refl, refl)
ends_read (suc n) dst p = elim (Bool-cases (p.count == 0)) [
  | inl empty ↦ simp empty (refl, refl)
  | inr more ↦ simp more (ends_read n (dst ++ (get_or p.buffer p.read_pos 0 ∷ [])) (taken p))
]

ends_write :
    (src sent : List ℕ) (p : Pipe)
    → let q = (write_loop src sent p).state in (q.readers ≡ p.readers) × (q.in_use ≡ p.in_use)
unfolding write_loop put
ends_write [] sent p = (refl, refl)
ends_write (x ∷ src) sent p = elim (Bool-cases (leb pipe_buffer_size p.count)) [
  | inl full ↦ simp full (refl, refl)
  | inr room ↦ simp room (ends_write src (sent ++ (x ∷ [])) (put x p))
]

-- Each pipe in use counts one reader, as `pipe_create` leaves it.
abbrev pub Held : Pipe → Type 0
Held p = p.in_use ≡ true → p.readers ≡ pos 1

-- `p` became `q` by calls that leave its reader count alone, and was not given back.
record Stays (p q : Pipe) : Type 0 where
  held : Held p → Held q
  used : Held p → p.in_use ≡ true → q.in_use ≡ true

read-Stays : (n : ℕ) (dst : List ℕ) (p : Pipe) → Stays p (read_loop n dst p).state
read-Stays n dst p =
    let (r, u) = ends_read n dst p in
    record { held = λ h e. r ∙ h (sym u ∙ e); used = λ h e. u ∙ e }

write-Stays : (src sent : List ℕ) (p : Pipe) → Stays p (write_loop src sent p).state
write-Stays src sent p =
    let (r, u) = ends_write src sent p in
    record { held = λ h e. r ∙ h (sym u ∙ e); used = λ h e. u ∙ e }

close-Stays : (p : Pipe) → Stays p (close_one p)
unfolding close_one
close-Stays p = record { held = λ h e. ground (arith, h); used = λ h e. ground (arith, h e) }

same-Stays : (p : Pipe) → Stays p p
same-Stays p = record { held = λ h. h; used = λ h e. e }

-- A store in one slot of the table.
set-Stays :
    (ps : List Pipe) (i j : ℕ) (q : Pipe)
    → Stays (pipe_at ps i) q
    → Stays (pipe_at ps j) (pipe_at (set ps i q) j)
set-Stays [] i j q s = same-Stays zero_pipe
set-Stays (p ∷ ps) zero zero q s = s
set-Stays (p ∷ ps) zero (suc j) q s = same-Stays (pipe_at ps j)
set-Stays (p ∷ ps) (suc i) zero q s = same-Stays p
set-Stays (p ∷ ps) (suc i) (suc j) q s = set-Stays ps i j q s

-- The calls of the processes on the table.
pub data TableCall : Type 0 where
  create : TableCall
  write : ℤ → List ℕ → TableCall
  read : ℤ → ℕ → TableCall
  close : ℤ → TableCall

unfoldable pub call : TableCall → List Pipe → List Pipe
call create ps = (pipe_create ps).1
call (write id src) ps = (pipe_write id src ps).state
call (read id n) ps = (pipe_read id n ps).state
call (close id) ps = pipe_close id ps

unfoldable pub run_calls : List TableCall → List Pipe → List Pipe
run_calls [] ps = ps
run_calls (c ∷ calls) ps = run_calls calls (call c ps)

on_pipe-Stays :
    (ps : List Pipe) (i j : ℕ) (f : Pipe → Outcome Pipe)
    → ((p : Pipe) → Stays p (f p).state)
    → Stays (pipe_at ps j) (pipe_at (on_pipe ps i f).state j)
on_pipe-Stays ps i j f s = elim (Bool-cases (pipe_at ps i).in_use) [
  | inl used ↦ simp used (set-Stays ps i j (f (pipe_at ps i)).state (s (pipe_at ps i)))
  | inr unused ↦ simp unused (same-Stays (pipe_at ps j))
]

create-Stays : (ps : List Pipe) (j : ℕ) → Stays (pipe_at ps j) (pipe_at (pipe_create ps).1 j)
unfolding new_pipe
create-Stays ps j = elim (pipe_create_lem ps) [
  | inl (k, c) ↦ elim (ℕ_discrete j k) [
    | yes e ↦
        let made : pipe_at (pipe_create ps).1 j ≡ new_pipe =
          ap (λ i. pipe_at (pipe_create ps).1 i) e ∙ c.made in
        record { held = λ h e. ap Pipe.readers made; used = λ h e. ap Pipe.in_use made }
    | no ne ↦ subst (λ q. Stays (pipe_at ps j) q) (sym (c.others j ne)) (same-Stays (pipe_at ps j))
  ]
  | inr n ↦
      subst (λ r. Stays (pipe_at ps j) (pipe_at (r.1) j)) (sym n.unchanged)
        (same-Stays (pipe_at ps j))
]

call-Stays : (c : TableCall) (ps : List Pipe) (j : ℕ) → Stays (pipe_at ps j) (pipe_at (call c ps) j)
unfolding call pipe_write pipe_read pipe_close
call-Stays create ps j = create-Stays ps j
call-Stays (write id src) ps j = elim (Option-cases (slot max_pipes id)) [
  | inl bad ↦ rw (bad, call, pipe_write) (same-Stays (pipe_at ps j))
  | inr (i, e) ↦
      rw (e, call, pipe_write) (on_pipe-Stays ps i j (write_loop src []) (write-Stays src []))
]
call-Stays (read id n) ps j = elim (Option-cases (slot max_pipes id)) [
  | inl bad ↦ rw (bad, call, pipe_read) (same-Stays (pipe_at ps j))
  | inr (i, e) ↦ rw (e, call, pipe_read) (on_pipe-Stays ps i j (read_loop n []) (read-Stays n []))
]
call-Stays (close id) ps j = elim (Option-cases (slot max_pipes id)) [
  | inl bad ↦ rw (bad, call, pipe_close) (same-Stays (pipe_at ps j))
  | inr (i, e) ↦
      rw (e, call, pipe_close)
        (set-Stays ps i j (close_one (pipe_at ps i)) (close-Stays (pipe_at ps i)))
]

-- `pipe_close` counts down the writers only, and nothing counts down the readers. So, from a table
-- in which each pipe in use counts one reader, as `pipe_create` makes them, no sequence of
-- creations, reads, writes and closes gives a slot back: a pipe in use stays in use.
pub run_calls_keeps :
    (calls : List TableCall) (ps : List Pipe) (j : ℕ)
    → Held (pipe_at ps j)
    → (pipe_at ps j).in_use ≡ true
    → ((pipe_at (run_calls calls ps) j).in_use ≡ true) × Held (pipe_at (run_calls calls ps) j)
unfolding run_calls
run_calls_keeps [] ps j h e = (e, h)
run_calls_keeps (c ∷ calls) ps j h e =
    let s = call-Stays c ps j in run_calls_keeps calls (call c ps) j (s.held h) (s.used h e)
