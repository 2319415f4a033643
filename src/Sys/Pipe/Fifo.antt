-- ===== src/Sys/Pipe/Fifo.antt =====
-- A pipe of src/sys/pipe.c as a queue of at most 4096 bytes.
use cro_os.Base.{
  ℕ, zero, suc, ◌+◌, ◌-◌, ◌%◌, ◌^◌, ◌≤◌, ◌<◌, ◌≡◌, refl, sym, ap, ap₂, ◌∙◌, some, List, [], ◌∷◌,
  ◌++◌, append-nil, append_assoc, leb, ◌==◌, length, get_or, take, drop, length-set, arith,
  Bool-cases, inl, inr, length-append, signed32, ==→eq, ==→ne, leb→le, take_nil, take-cons,
  take-append-drop,
}
use cro_os.Base.Ring.{items-set}
use cro_os.Sys.Pipe.{Pipe, pipe_buffer_size, Outcome, taken, put, stuffed, read_loop, write_loop}
use cro_os.Sys.Pipe.Queue.{
  IsValid, contents, Reads, contents-cons, taken-IsValid, count-taken, ends-taken, read_empty,
}

-- `pipe_read` of `n` bytes from a valid pipe takes the oldest bytes, in order: all `n` if the pipe
-- holds as many, and otherwise what there is. In the first case it returns the number of bytes
-- that it has moved; in the second it returns that number if the pipe counts no writer, and waits
-- otherwise. The pipe keeps the other bytes and stays valid.
pub read_loop_lem :
    (n : ℕ) (dst : List ℕ) (p : Pipe) → IsValid p → Reads n dst p (read_loop n dst p)
unfolding read_loop
read_loop_lem zero dst p v =
    let e : length dst + 0 ≡ length dst = omega arith in
    record {
      moved = sym (append-nil dst);
      left = refl;
      returns = λ h. rw e refl;
      stops = λ h. absurd (omega arith);
      same_ends = (refl, refl, refl);
      valid = v;
    }
read_loop_lem (suc n) dst p v = elim (Bool-cases (p.count == 0)) [
  | inl empty ↦ rw empty (read_empty n dst p v (==→eq _ _ empty))
  | inr more ↦
      let ne = ==→ne p.count 0 more in
      let x : ℕ = get_or p.buffer p.read_pos 0 in
      let r = read_loop_lem n (dst ++ (x ∷ [])) (taken p) (taken-IsValid p v ne) in
      let c = contents-cons p v ne in
      let k = count-taken p v ne in
      let len = length-append dst (x ∷ []) in
      let (er, ew, eu) = ends-taken p in
      rw more (record {
        moved =
            r.moved
            ∙ append_assoc dst (x ∷ []) (take n (contents (taken p)))
            ∙ ap (λ l. dst ++ take (suc n) l) (sym c);
        left = rw c r.left;
        returns = λ h. ground (arith, r.returns, k, len);
        stops = λ h. ground (arith, r.stops, k, len, ew);
        same_ends = (r.same_ends.0 ∙ er, r.same_ends.1 ∙ ew, r.same_ends.2 ∙ eu);
        valid = r.valid;
      })
]

pub record Writes (src sent : List ℕ) (p : Pipe) (o : Outcome Pipe) : Type 0 where
  pub moved : o.bytes ≡ sent ++ take (pipe_buffer_size - p.count) src
  pub stored : contents o.state ≡ contents p ++ take (pipe_buffer_size - p.count) src
  pub returns :
      length src ≤ pipe_buffer_size - p.count
      → o.returned ≡ some (signed32 (length sent + length src))
  pub stops : pipe_buffer_size - p.count < length src → o.returned ≡ stuffed p.readers
  pub same_ends :
      (o.state.readers ≡ p.readers) × (o.state.writers ≡ p.writers) × (o.state.in_use ≡ p.in_use)
  pub valid : IsValid o.state

contents-put :
    (x : ℕ) (p : Pipe)
    → IsValid p
    → p.count < pipe_buffer_size
    → (contents (put x p) ≡ contents p ++ (x ∷ []))
      × ((put x p).count ≡ p.count + 1)
      × IsValid (put x p)
unfolding put
contents-put x p v room =
    let e : (p.count + 1) % 2 ^ 32 ≡ suc p.count = omega arith in
    let at : p.write_pos ≡ (p.read_pos + p.count) % pipe_buffer_size = v.writes_behind in
    let added =
      items-set p.buffer pipe_buffer_size p.read_pos p.count x room (omega (arith, v.storage)) in
    (
      rw (e, at) added,
      omega arith,
      record {
        storage = length-set p.buffer p.write_pos x ∙ v.storage;
        reads_inside = v.reads_inside;
        fits = omega arith;
        writes_behind = omega (arith, at, e);
      },
    )

write_full :
    (x : ℕ) (src sent : List ℕ) (p : Pipe)
    → IsValid p
    → pipe_buffer_size ≤ p.count
    → Writes (x ∷ src) sent p (record { returned = stuffed p.readers; bytes = sent; state = p })
write_full x src sent p v full =
    let e : pipe_buffer_size - p.count ≡ 0 = omega arith in
    record {
      moved = rw e (sym (append-nil sent));
      stored = rw e (sym (append-nil (contents p)));
      returns = λ h. absurd (omega arith);
      stops = λ h. refl;
      same_ends = (refl, refl, refl);
      valid = v;
    }

ends-put :
    (x : ℕ) (p : Pipe)
    → ((put x p).readers ≡ p.readers)
      × ((put x p).writers ≡ p.writers)
      × ((put x p).in_use ≡ p.in_use)
unfolding put
ends-put x p = (refl, refl, refl)

-- The loop of `pipe_write` appends as many of the bytes `src` to a valid pipe, in order, as there is room
-- for. If all fit it returns their number, and otherwise what a full pipe gives its writers. The pipe
-- keeps the bytes that it held and stays valid.
pub write_loop_lem :
    (src sent : List ℕ) (p : Pipe) → IsValid p → Writes src sent p (write_loop src sent p)
unfolding write_loop
write_loop_lem [] sent p v =
    let e : length sent + 0 ≡ length sent = omega arith in
    let t = take_nil {A = ℕ} (pipe_buffer_size - p.count) in
    record {
      moved = rw t (sym (append-nil sent));
      stored = rw t (sym (append-nil (contents p)));
      returns = λ h. rw e refl;
      stops = λ h. absurd (omega arith);
      same_ends = (refl, refl, refl);
      valid = v;
    }
write_loop_lem (x ∷ src) sent p v = elim (Bool-cases (leb pipe_buffer_size p.count)) [
  | inl full ↦ rw full (write_full x src sent p v (leb→le _ _ full))
  | inr room ↦
      let lt : p.count < pipe_buffer_size = ground arith in
      let (c, k, v') = contents-put x p v lt in
      let r = write_loop_lem src (sent ++ (x ∷ [])) (put x p) v' in
      let len = length-append sent (x ∷ []) in
      let (er, ew, eu) = ends-put x p in
      let fewer : pipe_buffer_size - (put x p).count ≡ pipe_buffer_size - p.count - 1 =
        omega (arith, k) in
      let t : take (pipe_buffer_size - p.count) (x ∷ src)
          ≡ x ∷ take (pipe_buffer_size - (put x p).count) src =
        take-cons (pipe_buffer_size - p.count) x src (omega arith)
        ∙ ap (λ n. x ∷ take n src) (sym fewer) in
      rw room (record {
        moved =
            r.moved
            ∙ append_assoc sent (x ∷ []) (take (pipe_buffer_size - (put x p).count) src)
            ∙ ap (λ l. sent ++ l) (sym t);
        stored =
            r.stored
            ∙ ap (λ l. l ++ take (pipe_buffer_size - (put x p).count) src) c
            ∙ append_assoc (contents p) (x ∷ []) (take (pipe_buffer_size - (put x p).count) src)
            ∙ ap (λ l. contents p ++ l) (sym t);
        returns = λ h. ground (arith, r.returns, k, len);
        stops = λ h. ground (arith, r.stops, k, len, er);
        same_ends = (r.same_ends.0 ∙ er, r.same_ends.1 ∙ ew, r.same_ends.2 ∙ eu);
        valid = r.valid;
      })
]

-- The calls on one pipe, in the order in which they run: a call that waits is called again with
-- what is left, so each entry runs until it returns or waits.
pub data Call : Type 0 where
  write : List ℕ → Call
  read : ℕ → Call

pub record Trace : Type 0 where
  pub sent : List ℕ
  pub received : List ℕ
  pub pipe : Pipe

unfoldable pub run : List Call → Pipe → Trace
run [] p = record { sent = []; received = []; pipe = p }
run (write src ∷ calls) p =
    let o = write_loop src [] p in
    let t = run calls o.state in
    record { sent = o.bytes ++ t.sent; received = t.received; pipe = t.pipe }
run (read n ∷ calls) p =
    let o = read_loop n [] p in
    let t = run calls o.state in
    record { sent = t.sent; received = o.bytes ++ t.received; pipe = t.pipe }

-- Whatever the interleaving of reads and writes of any sizes, the bytes received, followed by
-- those still in the pipe, are those that were in it, followed by the bytes sent, in order: no
-- byte is lost, doubled or overtaken. The pipe stays valid.
pub run_fifo :
    (calls : List Call) (p : Pipe)
    → IsValid p
    → ((run calls p).received ++ contents (run calls p).pipe ≡ contents p ++ (run calls p).sent)
      × IsValid (run calls p).pipe
unfolding run
run_fifo [] p v = (sym (append-nil (contents p)), v)
run_fifo (write src ∷ calls) p v =
    let w = write_loop_lem src [] p v in
    let (same, v') = run_fifo calls (write_loop src [] p).state w.valid in
    let t : Trace = run calls (write_loop src [] p).state in
    (
      same
          ∙ ap (λ l. l ++ t.sent) (w.stored ∙ ap (λ l. contents p ++ l) (sym w.moved))
          ∙ append_assoc (contents p) (write_loop src [] p).bytes t.sent,
      v',
    )
run_fifo (read n ∷ calls) p v =
    let r = read_loop_lem n [] p v in
    let (same, v') = run_fifo calls (read_loop n [] p).state r.valid in
    let t : Trace = run calls (read_loop n [] p).state in
    (
      append_assoc (read_loop n [] p).bytes t.received (contents t.pipe)
          ∙ ap₂ ◌++◌ r.moved (same ∙ ap (λ l. l ++ t.sent) r.left)
          ∙ sym (append_assoc (take n (contents p)) (drop n (contents p)) t.sent)
          ∙ ap (λ l. l ++ t.sent) (take-append-drop n (contents p)),
      v',
    )
