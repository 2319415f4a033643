-- ===== src/Sys/Pipe/Writes.antt =====
-- `pipe_write` of src/sys/pipe.c, on the table of pipes.
use cro_os.Base.{
  ℕ, zero, suc, ◌+◌, ◌-◌, ◌≤◌, ◌<◌, ◌≡◌, ◌≢◌, refl, ap, subst, sym, ◌∙◌, true, false, Bool-cases,
  inl, inr, ◌⊎◌, none, some, Option-cases, List, [], ◌++◌, length, set, take, ℤ, pos, negsuc,
  minus_one, signed32, slot, slot-is, get_or-set_self, get_or-set_ne, arith,
}
use cro_os.Sys.Pipe.{
  Pipe, pipe_buffer_size, max_pipes, zero_pipe, Outcome, stuffed, write_loop, pipe_write, bad_pipe,
  store_outcome,
}
use cro_os.Sys.Pipe.Queue.{IsValid, contents}
use cro_os.Sys.Pipe.Fifo.{write_loop_lem}
use cro_os.Sys.Pipe.Table.{pipe_at}

abbrev pub room : Pipe → ℕ
room p = pipe_buffer_size - p.count

-- What a write of `src` to the pipe in the slot `i` comes to.
pub record Appends (src : List ℕ) (ps : List Pipe) (i : ℕ) (o : Outcome (List Pipe)) : Type 0 where
  pub moved : o.bytes ≡ take (room (pipe_at ps i)) src
  pub stored :
      contents (pipe_at o.state i) ≡ contents (pipe_at ps i) ++ take (room (pipe_at ps i)) src
  pub all_fit : length src ≤ room (pipe_at ps i) → o.returned ≡ some (signed32 (length src))
  pub broken :
      room (pipe_at ps i) < length src
      → (pipe_at ps i).readers ≡ pos 0
      → o.returned ≡ some minus_one
  pub waits : room (pipe_at ps i) < length src → (pipe_at ps i).readers ≢ pos 0 → o.returned ≡ none
  pub valid : IsValid (pipe_at o.state i)
  pub others : (j : ℕ) → j ≢ i → pipe_at o.state j ≡ pipe_at ps j

-- The id is a slot of the table, with a pipe in use.
pub record IsOpen (pipe_id : ℤ) (ps : List Pipe) (i : ℕ) : Type 0 where
  pub is_slot : pipe_id ≡ pos i
  pub inside : i < max_pipes
  pub in_use : (pipe_at ps i).in_use ≡ true

stuffed-broken : (z : ℤ) → z ≡ pos 0 → stuffed z ≡ some minus_one
stuffed-broken z e = rw e refl

stuffed-waits : (z : ℤ) → z ≢ pos 0 → stuffed z ≡ none
stuffed-waits (pos zero) ne = absurd (ne refl)
stuffed-waits (pos (suc n)) ne = ground arith
stuffed-waits (negsuc n) ne = refl

slot-inside : (i : ℕ) → i < max_pipes → slot max_pipes (pos i) ≡ some i
slot-inside i h = ground (arith, h)

pipe_write-open :
    (pipe_id : ℤ) (src : List ℕ) (ps : List Pipe) (i : ℕ)
    → slot max_pipes pipe_id ≡ some i
    → (pipe_at ps i).in_use ≡ true
    → pipe_write pipe_id src ps ≡ store_outcome ps i (write_loop src [] (pipe_at ps i))
unfolding pipe_write
pipe_write-open pipe_id src ps i e used = rw (e, pipe_write, used) refl

zero_plus : (n : ℕ) → 0 + n ≡ n
zero_plus n = omega arith

written-Appends :
    (src : List ℕ) (ps : List Pipe) (i : ℕ)
    → i < length ps
    → IsValid (pipe_at ps i)
    → Appends src ps i (store_outcome ps i (write_loop src [] (pipe_at ps i)))
written-Appends src ps i h v =
    let p = pipe_at ps i in
    let q = (write_loop src [] p).state in
    let w = write_loop_lem src [] p v in
    let self : pipe_at (set ps i q) i ≡ q = get_or-set_self ps i q zero_pipe h in
    record {
      moved = w.moved;
      stored = ap contents self ∙ w.stored;
      all_fit = λ l. w.returns l ∙ ap (λ n. some (signed32 n)) (zero_plus (length src));
      broken = λ l e. w.stops l ∙ stuffed-broken p.readers e;
      waits = λ l ne. w.stops l ∙ stuffed-waits p.readers ne;
      valid = subst (λ x. IsValid x) (sym self) w.valid;
      others = λ j ne. get_or-set_ne ps i j q zero_pipe (λ e. ne (sym e));
    }

-- The id is not that of a pipe in use, and the call returns -1 and changes nothing.
abbrev pub IsRefused : ℤ → List ℕ → List Pipe → Type 0
IsRefused pipe_id src ps =
    ((i : ℕ) → ¬ IsOpen pipe_id ps i) × (pipe_write pipe_id src ps ≡ bad_pipe ps)

open-slot :
    (pipe_id : ℤ) (ps : List Pipe) (i : ℕ) → IsOpen pipe_id ps i → slot max_pipes pipe_id ≡ some i
open-slot pipe_id ps i o = ap (λ z. slot max_pipes z) o.is_slot ∙ slot-inside i o.inside

no_slot-IsRefused :
    (pipe_id : ℤ) (src : List ℕ) (ps : List Pipe)
    → slot max_pipes pipe_id ≡ none
    → IsRefused pipe_id src ps
unfolding pipe_write
no_slot-IsRefused pipe_id src ps e = (
  λ i o. let bad : none ≡ some i = sym e ∙ open-slot pipe_id ps i o in cc,
  rw (e, pipe_write) refl,
)

unused-IsRefused :
    (pipe_id : ℤ) (src : List ℕ) (ps : List Pipe) (j : ℕ)
    → slot max_pipes pipe_id ≡ some j
    → (pipe_at ps j).in_use ≡ false
    → IsRefused pipe_id src ps
unfolding pipe_write
unused-IsRefused pipe_id src ps j e free = (
  λ i o.
      let slots : some j ≡ some i = sym e ∙ open-slot pipe_id ps i o in
      let same : j ≡ i = cc in
      let i_free : (pipe_at ps i).in_use ≡ false =
        subst (λ x. (pipe_at ps x).in_use ≡ false) same free in
      let bad : false ≡ true = sym i_free ∙ o.in_use in cc,
  rw (e, pipe_write, free) refl,
)

-- In a table of 64 slots, whose pipes in use are valid, `pipe_write` refuses an id that is not that of a
-- pipe in use: it returns -1, moves nothing and changes nothing. To a pipe in use it appends as many of
-- the bytes, in order, as there is room for, keeps the bytes that it held and the other pipes, and leaves
-- it valid. It returns the number of the bytes if all fit; otherwise it returns -1 if the pipe counts no
-- reader, and waits if it counts one.
pub pipe_write_lem :
    (pipe_id : ℤ) (src : List ℕ) (ps : List Pipe)
    → length ps ≡ max_pipes
    → ((i : ℕ) → (pipe_at ps i).in_use ≡ true → IsValid (pipe_at ps i))
    → IsRefused pipe_id src ps
      ⊎ ((i : ℕ) × (IsOpen pipe_id ps i × Appends src ps i (pipe_write pipe_id src ps)))
pipe_write_lem pipe_id src ps slots valid = elim (Option-cases (slot max_pipes pipe_id)) [
  | inl e ↦ inl (no_slot-IsRefused pipe_id src ps e)
  | inr (i, e) ↦ elim (Bool-cases (pipe_at ps i).in_use) [
    | inl used ↦
        let (is_i, h) = slot-is max_pipes pipe_id i e in
        inr (
          i,
          (
            record { is_slot = is_i; inside = h; in_use = used },
            subst (λ o. Appends src ps i o) (sym (pipe_write-open pipe_id src ps i e used))
                (written-Appends src ps i (omega (arith, slots, h)) (valid i used)),
          ),
        )
    | inr free ↦ inl (unused-IsRefused pipe_id src ps i e free)
  ]
]
