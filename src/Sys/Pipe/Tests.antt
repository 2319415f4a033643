-- ===== src/Sys/Pipe/Tests.antt =====
-- Runs of src/sys/pipe.c, and its theorems at a pipe and a table.
use cro_os.Base.{
  ℕ, ◌≡◌, refl, true, List, [], ◌∷◌, ◌++◌, arith, replicate, length-replicate, pos, zero, suc,
  false, sym, get_or, ◌⊎◌, ◌∙◌,
}
use cro_os.Sys.Pipe.{
  Pipe, pipe_buffer_size, taken, put, read_loop, write_loop, zero_pipe, pipe_write,
}
use cro_os.Sys.Pipe.Fifo.{Call, run, run_fifo}
use cro_os.Sys.Pipe.Writes.{IsOpen, IsRefused, Appends, pipe_write_lem}
use cro_os.Sys.Pipe.Queue.{IsValid, contents}
use cro_os.Sys.Pipe.Table.{Held, TableCall, create, close, run_calls, pipe_at, run_calls_keeps}

abbrev empty_pipe : Pipe
empty_pipe = record {
  buffer = replicate pipe_buffer_size 0;
  read_pos = 4095;
  write_pos = 4095;
  count = 0;
  readers = pos 1;
  writers = pos 1;
  in_use = true;
}

empty_pipe-IsValid : IsValid empty_pipe
empty_pipe-IsValid = record {
  storage = length-replicate {A = ℕ} 4096 0;
  reads_inside = omega arith;
  fits = omega arith;
  writes_behind = refl;
}

-- A table with a pipe in its first slot.
abbrev table : List Pipe
table = empty_pipe ∷ replicate 63 zero_pipe

table-IsValid : (i : ℕ) → (pipe_at table i).in_use ≡ true → IsValid (pipe_at table i)
unfolding zero_pipe
table-IsValid zero h = empty_pipe-IsValid
table-IsValid (suc i) h =
    let free : (pipe_at table (suc i)).in_use ≡ false = rest_free 63 i in
    let bad : false ≡ true = sym free ∙ h in cc
  where
    rest_free : (n k : ℕ) → (get_or (replicate n zero_pipe) k zero_pipe).in_use ≡ false
    rest_free zero k = refl
    rest_free (suc n) zero = refl
    rest_free (suc n) (suc k) = rest_free n k

pipe_write_lem_example :
    IsRefused (pos 0) (7 ∷ 8 ∷ []) table
    ⊎ ((i : ℕ) × (IsOpen (pos 0) table i
          × Appends (7 ∷ 8 ∷ []) table i (pipe_write (pos 0) (7 ∷ 8 ∷ []) table)))
pipe_write_lem_example = pipe_write_lem (pos 0) (7 ∷ 8 ∷ []) table refl table-IsValid

abbrev script : List Call
script = Call.write (7 ∷ 8 ∷ 9 ∷ []) ∷ Call.read 2 ∷ Call.write (5 ∷ []) ∷ []

run-script : (run script empty_pipe).received ≡ 7 ∷ 8 ∷ []
unfolding run read_loop write_loop taken put
run-script = refl

run_fifo_example :
    ((run script empty_pipe).received ++ contents (run script empty_pipe).pipe
      ≡ contents empty_pipe ++ (run script empty_pipe).sent)
    × IsValid (run script empty_pipe).pipe
run_fifo_example = run_fifo script empty_pipe empty_pipe-IsValid

abbrev closes : List TableCall
closes = close (pos 0) ∷ close (pos 0) ∷ create ∷ []

run_calls_keeps_example :
    ((pipe_at (run_calls closes (empty_pipe ∷ [])) 0).in_use ≡ true)
    × Held (pipe_at (run_calls closes (empty_pipe ∷ [])) 0)
run_calls_keeps_example = run_calls_keeps closes (empty_pipe ∷ []) 0 (λ e. refl) refl
