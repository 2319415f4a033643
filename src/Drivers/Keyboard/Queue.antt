-- ===== src/Drivers/Keyboard/Queue.antt =====
-- The ring of src/drivers/keyboard.c as a queue of at most 255 characters.
use cro_os.Base.{
  ℕ, suc, ◌+◌, ◌-◌, ◌%◌, ◌<◌, ◌≡◌, ◌≢◌, refl, ap, ap₂, ◌∙◌, some, none, List, [], ◌∷◌, ◌++◌, ltb,
  ◌==◌, ◌!=◌, if◌then◌else◌, length, get_or, set, length-set, arith, Bool-cases, inl, inr, true,
  false, ltb→lt, ◌⊎◌, subst,
}
use cro_os.Base.Ring.{items, items-set, items-head}
use cro_os.Drivers.Keyboard.{Keyboard, kb_buffer_size, kb_push, kb_getchar}

pub record IsRing (s : Keyboard) : Type 0 where
  pub storage : length s.kb_buffer ≡ kb_buffer_size
  pub head_inside : s.kb_head < kb_buffer_size
  pub tail_inside : s.kb_tail < kb_buffer_size

abbrev pub waiting : Keyboard → ℕ
waiting s = (s.kb_head + kb_buffer_size - s.kb_tail) % kb_buffer_size

-- The characters that are still to be read, the oldest first.
abbrev pub queue : Keyboard → List ℕ
queue s = items s.kb_buffer kb_buffer_size s.kb_tail (waiting s)

head_place : (s : Keyboard) → IsRing s → (s.kb_tail + waiting s) % kb_buffer_size ≡ s.kb_head
head_place s v = omega (arith, v.head_inside, v.tail_inside)

more_waiting :
    (s : Keyboard)
    → IsRing s
    → waiting s < 255
    → ((s.kb_head + 1) % kb_buffer_size + kb_buffer_size - s.kb_tail) % kb_buffer_size
      ≡ suc (waiting s)
more_waiting s v h = omega (arith, v.head_inside, v.tail_inside)

less_waiting :
    (s : Keyboard)
    → IsRing s
    → waiting s ≢ 0
    → waiting s - 1
      ≡ (s.kb_head + kb_buffer_size - (s.kb_tail + 1) % kb_buffer_size) % kb_buffer_size
less_waiting s v h = omega (arith, v.head_inside, v.tail_inside)

-- A character is put behind the others, or, when 255 wait, dropped.
pub kb_push_lem :
    (c : ℕ) (s : Keyboard)
    → IsRing s
    → IsRing (kb_push c s)
      × (queue (kb_push c s) ≡ (if ltb (waiting s) 255 then queue s ++ (c ∷ []) else queue s))
unfolding kb_push
kb_push_lem c s v = elim (Bool-cases ((s.kb_head + 1) % kb_buffer_size != s.kb_tail)) [
  | inl room ↦
      let low : ltb (waiting s) 255 ≡ true = ground (arith, room, v.head_inside, v.tail_inside) in
      rw (room, low, kb_push)
        (
          record {
            storage = length-set s.kb_buffer s.kb_head c ∙ v.storage;
            head_inside = omega arith;
            tail_inside = v.tail_inside;
          },
          ap (λ n. items (set s.kb_buffer s.kb_head c) kb_buffer_size s.kb_tail n)
                (more_waiting s v (ltb→lt (waiting s) 255 low))
              ∙ subst
                  (λ h.
                    items (set s.kb_buffer h c) kb_buffer_size s.kb_tail (suc (waiting s))
                    ≡ queue s ++ (c ∷ []))
                  (head_place s v)
                  (items-set s.kb_buffer kb_buffer_size s.kb_tail (waiting s) c (omega arith)
                    (omega (arith, v.storage))),
        )
  | inr full ↦
      let high : ltb (waiting s) 255 ≡ false = ground (arith, full, v.head_inside, v.tail_inside) in
      rw (full, high, kb_push) (v, refl)
]

-- `kb_getchar` waits when no character does, and otherwise returns the oldest and takes it out.
pub kb_getchar_lem :
    (s : Keyboard)
    → IsRing s
    → ((kb_getchar s ≡ none) × (queue s ≡ []))
      ⊎ ((c : ℕ) × ((s' : Keyboard) × ((kb_getchar s ≡ some (c, s'))
              × IsRing s'
              × (queue s ≡ c ∷ queue s'))))
unfolding kb_getchar items
kb_getchar_lem s v = elim (Bool-cases (s.kb_head == s.kb_tail)) [
  | inl empty ↦
      let e : waiting s ≡ 0 = ground (arith, empty, v.head_inside, v.tail_inside) in
      inl (rw (empty, kb_getchar) refl, rw (e, items) refl)
  | inr more ↦
      let ne : waiting s ≢ 0 = λ e. ground (arith, more, e, v.head_inside, v.tail_inside) in
      let here : s.kb_tail % kb_buffer_size ≡ s.kb_tail = omega (arith, v.tail_inside) in
      inr (
        get_or s.kb_buffer s.kb_tail 0,
        (
          record s { kb_tail = (s.kb_tail + 1) % kb_buffer_size },
          (
            rw (more, kb_getchar) refl,
            record { storage = v.storage; head_inside = v.head_inside; tail_inside = omega arith },
            items-head s.kb_buffer kb_buffer_size s.kb_tail (waiting s) ne
                ∙ ap₂
                    (λ i n.
                      get_or s.kb_buffer i 0
                      ∷ items s.kb_buffer kb_buffer_size ((s.kb_tail + 1) % kb_buffer_size) n)
                    here (less_waiting s v ne),
          ),
        ),
      )
]
