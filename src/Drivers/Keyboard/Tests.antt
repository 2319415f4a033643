-- ===== src/Drivers/Keyboard/Tests.antt =====
-- Runs of src/drivers/keyboard.c.
use cro_os.Base.{
  ℕ, ◌≡◌, refl, arith, [], ◌∷◌, ◌++◌, none, some, replicate, ltb, if◌then◌else◌, length-replicate,
  ◌⊎◌,
}
use cro_os.Drivers.Keyboard.{
  Keyboard, kb_buffer_size, kb_push, kb_getchar, kb_irq, pressed, released, sc1_normal, sc1_shifted,
}
use cro_os.Drivers.Keyboard.Queue.{IsRing, queue, waiting, kb_push_lem, kb_getchar_lem}

unfoldable quiet : Keyboard
quiet = record {
  kb_buffer = replicate kb_buffer_size 0;
  kb_head = 255;
  kb_tail = 255;
  modifiers = 0;
}

-- Shift, then the key of "a".
types_capital :
    kb_getchar (
      kb_irq 30
        (kb_irq 42 (record { kb_buffer = 0 ∷ 0 ∷ []; kb_head = 0; kb_tail = 0; modifiers = 0 })))
    ≡ some (65, record { kb_buffer = 65 ∷ 0 ∷ []; kb_head = 1; kb_tail = 1; modifiers = 1 })
unfolding kb_getchar kb_irq pressed released kb_push sc1_normal sc1_shifted
types_capital = refl

quiet-IsRing : IsRing quiet
unfolding quiet
quiet-IsRing = record {
  storage = length-replicate {A = ℕ} kb_buffer_size 0;
  head_inside = omega arith;
  tail_inside = omega arith;
}

kb_push_lem_example :
    IsRing (kb_push 97 quiet)
    × (queue (kb_push 97 quiet)
        ≡ (if ltb (waiting quiet) 255 then queue quiet ++ (97 ∷ []) else queue quiet))
kb_push_lem_example = kb_push_lem 97 quiet quiet-IsRing

pushed-IsRing : IsRing (kb_push 97 quiet)
pushed-IsRing = (kb_push_lem 97 quiet quiet-IsRing).0

kb_getchar_lem_example :
    ((kb_getchar (kb_push 97 quiet) ≡ none) × (queue (kb_push 97 quiet) ≡ []))
    ⊎ ((c : ℕ) × ((s' : Keyboard) × ((kb_getchar (kb_push 97 quiet) ≡ some (c, s'))
            × IsRing s'
            × (queue (kb_push 97 quiet) ≡ c ∷ queue s'))))
kb_getchar_lem_example = kb_getchar_lem (kb_push 97 quiet) pushed-IsRing
