-- ===== src/Sys/Pipe.antt =====
-- src/sys/pipe.c: the table of pipes, each a ring buffer of 4096 bytes. `hlt; continue` waits for
-- another process: a call that gets there is `blocked`, with the bytes that it has moved so far,
-- and goes on when it is called for the rest.
pub mod Queue
pub mod Fifo
pub mod Table
pub mod Writes
mod Tests
use cro_os.Base.{
  not, ℕ, zero, suc, ◌+◌, ◌-◌, ◌%◌, ◌^◌, ◌<◌, Bool, true, false, Option, none, some, List, [], ◌∷◌,
  ◌++◌, ltb, leb, ◌==◌, ◌&&◌, ◌||◌, if◌then◌else◌, length, get_or, set, replicate, ℤ, pos, negsuc,
  ◌+ℤ◌, ltb_ℤ, minus_one, signed32, slot,
}

abbrev pub pipe_buffer_size : ℕ
pipe_buffer_size = 4096

abbrev pub max_pipes : ℕ
max_pipes = 64

pub record Pipe : Type 0 where
  pub buffer : List ℕ
  pub read_pos : ℕ
  pub write_pos : ℕ
  pub count : ℕ
  pub readers : ℤ
  pub writers : ℤ
  pub in_use : Bool

-- `memset` to 0
unfoldable pub zero_pipe : Pipe
zero_pipe = record {
  buffer = replicate pipe_buffer_size 0;
  read_pos = 0;
  write_pos = 0;
  count = 0;
  readers = pos 0;
  writers = pos 0;
  in_use = false;
}

unfoldable pub new_pipe : Pipe
unfolding zero_pipe
new_pipe = record zero_pipe { in_use = true; readers = pos 1; writers = pos 1 }

unfoldable pub pipe_init : List Pipe
pipe_init = replicate max_pipes zero_pipe

-- The loop of `pipe_create` over the table from the slot `i` on.
unfoldable pub create_from : ℕ → List Pipe → ℤ × List Pipe
create_from i [] = (minus_one, [])
create_from i (p ∷ ps) =
    let (id, ps') = create_from (i + 1) ps in
    if p.in_use then (id, p ∷ ps') else (pos i, new_pipe ∷ ps)

unfoldable pub pipe_create : List Pipe → ℤ × List Pipe
unfolding create_from
pipe_create ps = create_from 0 ps

-- What a call that may wait comes to: the returned value, the bytes moved and the state then.
pub record Outcome (S : Type 0) : Type 0 where
  pub returned : Option ℤ
  pub bytes : List ℕ
  pub state : S

-- A reader of an empty pipe: the end of the data after `n` bytes, or a wait for a writer.
abbrev pub drained : ℤ → ℕ → Option ℤ
drained (pos w) n = if w == 0 then some (signed32 n) else none
drained (negsuc w) n = none

-- A writer to a full pipe.
abbrev pub stuffed : ℤ → Option ℤ
stuffed (pos r) = if r == 0 then some minus_one else none
stuffed (negsuc r) = none

-- The pipe after one byte is read or written.
unfoldable pub taken : Pipe → Pipe
taken p = record p {
  read_pos = (p.read_pos + 1) % pipe_buffer_size;
  count = (p.count + 2 ^ 32 - 1) % 2 ^ 32;
}

unfoldable pub put : ℕ → Pipe → Pipe
put x p = record p {
  buffer = set p.buffer p.write_pos x;
  write_pos = (p.write_pos + 1) % pipe_buffer_size;
  count = (p.count + 1) % 2 ^ 32;
}

-- A reader's loop with `left` bytes to read and the bytes `dst` behind it.
unfoldable pub read_loop : ℕ → List ℕ → Pipe → Outcome Pipe
read_loop zero dst p = record { returned = some (signed32 (length dst)); bytes = dst; state = p }
read_loop (suc left) dst p =
    let rest = read_loop left (dst ++ (get_or p.buffer p.read_pos 0 ∷ [])) (taken p) in
    if p.count == 0
    then record { returned = drained p.writers (length dst); bytes = dst; state = p }
    else rest

-- A writer's loop over the bytes `src` that are left, with the bytes `sent` behind it.
unfoldable pub write_loop : List ℕ → List ℕ → Pipe → Outcome Pipe
write_loop [] sent p = record { returned = some (signed32 (length sent)); bytes = sent; state = p }
write_loop (x ∷ src) sent p =
    let rest = write_loop src (sent ++ (x ∷ [])) (put x p) in
    if leb pipe_buffer_size p.count
    then record { returned = stuffed p.readers; bytes = sent; state = p }
    else rest

-- The table behind a call on the pipe in the slot `i`.
abbrev pub store_outcome : List Pipe → ℕ → Outcome Pipe → Outcome (List Pipe)
store_outcome ps i o = record { returned = o.returned; bytes = o.bytes; state = set ps i o.state }

abbrev pub bad_pipe : List Pipe → Outcome (List Pipe)
bad_pipe ps = record { returned = some minus_one; bytes = []; state = ps }

abbrev pub on_pipe : List Pipe → ℕ → (Pipe → Outcome Pipe) → Outcome (List Pipe)
on_pipe ps i f =
    if (get_or ps i zero_pipe).in_use
    then store_outcome ps i (f (get_or ps i zero_pipe))
    else bad_pipe ps

unfoldable pub pipe_read : ℤ → ℕ → List Pipe → Outcome (List Pipe)
pipe_read pipe_id size ps = elim (slot max_pipes pipe_id) [
  | none ↦ bad_pipe ps
  | some i ↦ on_pipe ps i (read_loop size [])
]

unfoldable pub pipe_write : ℤ → List ℕ → List Pipe → Outcome (List Pipe)
pipe_write pipe_id src ps = elim (slot max_pipes pipe_id) [
  | none ↦ bad_pipe ps
  | some i ↦ on_pipe ps i (write_loop src [])
]

-- One writer less; the slot is given back when nobody is left.
unfoldable pub close_one : Pipe → Pipe
close_one p =
    let writers' = p.writers +ℤ negsuc 0 in
    if p.in_use
    then record p {
      writers = writers';
      in_use = not (ltb_ℤ writers' (pos 1) && ltb_ℤ p.readers (pos 1));
    }
    else p

unfoldable pub pipe_close : ℤ → List Pipe → List Pipe
pipe_close pipe_id ps = elim (slot max_pipes pipe_id) [
  | none ↦ ps
  | some i ↦ set ps i (close_one (get_or ps i zero_pipe))
]

unfoldable pub pipe_data_available : ℤ → List Pipe → ℕ
pipe_data_available pipe_id ps = elim (slot max_pipes pipe_id) [
  | none ↦ 0
  | some i ↦ (get_or ps i zero_pipe).count
]
