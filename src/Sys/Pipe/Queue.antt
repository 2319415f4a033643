-- ===== src/Sys/Pipe/Queue.antt =====
-- A pipe of src/sys/pipe.c as a queue: its bytes, and what taking one leaves.
use cro_os.Base.{
  ℕ, suc, ◌+◌, ◌-◌, ◌%◌, ◌^◌, ◌≤◌, ◌<◌, ◌≡◌, ◌≢◌, refl, sym, some, List, [], ◌∷◌, ◌++◌, append-nil,
  length, get_or, take, drop, arith, signed32,
}
use cro_os.Base.Ring.{items, items-head}
use cro_os.Sys.Pipe.{Pipe, pipe_buffer_size, Outcome, taken, drained}

pub record IsValid (p : Pipe) : Type 0 where
  pub storage : length p.buffer ≡ pipe_buffer_size
  pub reads_inside : p.read_pos < pipe_buffer_size
  pub fits : p.count ≤ pipe_buffer_size
  pub writes_behind : p.write_pos ≡ (p.read_pos + p.count) % pipe_buffer_size

-- The bytes in the pipe, the oldest first.
abbrev pub contents : Pipe → List ℕ
contents p = items p.buffer pipe_buffer_size p.read_pos p.count

-- What reading `n` bytes behind `dst` has done when it returns or waits.
pub record Reads (n : ℕ) (dst : List ℕ) (p : Pipe) (o : Outcome Pipe) : Type 0 where
  pub moved : o.bytes ≡ dst ++ take n (contents p)
  pub left : contents o.state ≡ drop n (contents p)
  pub returns : n ≤ p.count → o.returned ≡ some (signed32 (length dst + n))
  pub stops : p.count < n → o.returned ≡ drained p.writers (length dst + p.count)
  pub same_ends :
      (o.state.readers ≡ p.readers) × (o.state.writers ≡ p.writers) × (o.state.in_use ≡ p.in_use)
  pub valid : IsValid o.state

pub contents-cons :
    (p : Pipe)
    → IsValid p
    → p.count ≢ 0
    → contents p ≡ get_or p.buffer p.read_pos 0 ∷ contents (taken p)
unfolding taken
contents-cons p v ne =
    let e : (p.count + 2 ^ 32 - 1) % 2 ^ 32 ≡ p.count - 1 = omega (arith, v.fits) in
    let e' : p.read_pos % pipe_buffer_size ≡ p.read_pos = omega (arith, v.reads_inside) in
    rw e (rw e' at (items-head p.buffer pipe_buffer_size p.read_pos p.count ne))

pub taken-IsValid : (p : Pipe) → IsValid p → p.count ≢ 0 → IsValid (taken p)
unfolding taken
taken-IsValid p v ne = record {
  storage = v.storage;
  reads_inside = omega arith;
  fits = omega (arith, v.fits);
  writes_behind = omega (arith, v.fits, v.writes_behind);
}

pub count-taken : (p : Pipe) → IsValid p → p.count ≢ 0 → (taken p).count + 1 ≡ p.count
unfolding taken
count-taken p v ne = omega (arith, v.fits)

pub empty_contents : (p : Pipe) → p.count ≡ 0 → contents p ≡ []
unfolding items
empty_contents p e = rw e refl

pub ends-taken :
    (p : Pipe)
    → ((taken p).readers ≡ p.readers)
      × ((taken p).writers ≡ p.writers)
      × ((taken p).in_use ≡ p.in_use)
unfolding taken
ends-taken p = (refl, refl, refl)

pub read_empty :
    (n : ℕ) (dst : List ℕ) (p : Pipe)
    → IsValid p
    → p.count ≡ 0
    → Reads
        (suc n)
        dst
        p
        (record { returned = drained p.writers (length dst); bytes = dst; state = p })
read_empty n dst p v e =
    let none_left = empty_contents p e in
    let e' : length dst + p.count ≡ length dst = omega arith in
    record {
      moved = rw none_left (sym (append-nil dst));
      left = rw none_left refl;
      returns = λ h. absurd (omega arith);
      stops = λ h. rw e' refl;
      same_ends = (refl, refl, refl);
      valid = v;
    }
