-- ===== src/Sys/Signal/Words.antt =====
-- The words of src/sys/signal.c, bit by bit.
use cro_os.Base.{
  ℕ, zero, suc, ◌+◌, ◌-◌, ◌*◌, ◌^◌, ◌≤◌, ◌<◌, ◌≡◌, refl, ap, sym, subst, ◌∙◌, bit_and, bit_or, min,
  true, false, ◌==◌, ◌!=◌, if◌then◌else◌, none, some, arith, inl, inr, ◌⊎◌, pos,
}
use native.Mathlib.Decide.{ℕ_discrete}
use native.Mathlib.Nat.{one-le-pow}
use cro_os.Base.Bits.{
  test_bit, bit, not32, test_bit-le, test_bit-and, test_bit-or, test_bit-bit, test_bit-not,
  bit_and-bit, bit-lt,
}
use cro_os.Sys.Signal.{SignalState, new_mask, pend, unmasked, first_pending}

-- 1 if the signal is pending and not masked.
abbrev pub waits : SignalState → ℕ → ℕ
waits t n = min (test_bit t.pending n) (1 - test_bit t.mask n)

pub pend_lem :
    (n j : ℕ) (t : SignalState)
    → test_bit (pend n t).pending j ≡ (if n == j then 1 else test_bit t.pending j)
unfolding pend
pend_lem n j t =
    ground (arith, test_bit-or t.pending (bit n) j, test_bit-bit n j, test_bit-le t.pending j)

pub test_bit-clear :
    (x n j : ℕ)
    → n < 32
    → j < 32
    → test_bit (bit_and x (not32 (bit n))) j ≡ (if n == j then 0 else test_bit x j)
test_bit-clear x n j hn hj = ground (
  arith,
  test_bit-and x (not32 (bit n)) j,
  test_bit-not 32 (bit n) j (bit-lt n 32 hn) hj,
  test_bit-bit n j,
  test_bit-le x j,
)

-- SIG_BLOCK adds the signal to the mask, SIG_UNBLOCK takes it out, and SIG_SETMASK makes it the
-- only one; any other `how` is refused.
pub new_mask_lem :
    (how n mask j : ℕ)
    → n < 32
    → j < 32
    → ((m : ℕ) × ((new_mask how n mask ≡ some m)
          × (test_bit m j ≡ (
              if n == j
              then (if how == 1 then 0 else 1)
              else (if how == 2 then 0 else test_bit mask j)))))
      ⊎ ((new_mask how n mask ≡ none) × (2 < how))
unfolding new_mask
new_mask_lem zero n mask j hn hj = inl (
  bit_or mask (bit n),
  (refl, ground (arith, test_bit-or mask (bit n) j, test_bit-bit n j, test_bit-le mask j)),
)
new_mask_lem (suc zero) n mask j hn hj =
    inl (bit_and mask (not32 (bit n)), (refl, test_bit-clear mask n j hn hj ∙ ground arith))
new_mask_lem (suc (suc zero)) n mask j hn hj = inl (bit n, (refl, test_bit-bit n j ∙ ground arith))
new_mask_lem (suc (suc (suc h))) n mask j hn hj = inr (ground arith, omega arith)

pub unmasked_lem :
    (n : ℕ) (t : SignalState) → t.mask < 2 ^ 32 → n < 32 → test_bit (unmasked t) n ≡ waits t n
unfolding unmasked
unmasked_lem n t h k =
    omega (arith, test_bit-and t.pending (not32 t.mask) n, test_bit-not 32 t.mask n h k)

test_bit-cases : (x n : ℕ) → (test_bit x n ≡ 0) ⊎ (test_bit x n ≡ 1)
test_bit-cases x n = ground (arith, test_bit-le x n)

clear_bit : (x n : ℕ) → test_bit x n ≡ 0 → (bit_and x (bit n) != 0) ≡ false
clear_bit x n e =
    let z : bit_and x (bit n) ≡ 0 * 2 ^ n = bit_and-bit x n ∙ ap (λ b. b * 2 ^ n) e in
    ground (arith, z)

set_bit : (x n : ℕ) → test_bit x n ≡ 1 → (bit_and x (bit n) != 0) ≡ true
set_bit x n e =
    let z : bit_and x (bit n) ≡ 1 * 2 ^ n = bit_and-bit x n ∙ ap (λ b. b * 2 ^ n) e in
    ground (arith, z, one-le-pow n 2)

and_first :
    (x i m n : ℕ)
    → test_bit x i ≡ 0
    → ((m' : ℕ) → i + 1 ≤ m' → m' < n → test_bit x m' ≡ 0)
    → i ≤ m
    → m < n
    → test_bit x m ≡ 0
and_first x i m n here rest lo hi = elim (ℕ_discrete m i) [
  | yes e ↦ subst (λ k. test_bit x k ≡ 0) (sym e) here
  | no ne ↦ rest m (omega arith) hi
]

-- The first of `left` bits from `i` on that is set.
pub first_pending_lem :
    (left i x : ℕ)
    → ((n : ℕ) × ((first_pending left i x ≡ pos n)
          × (i ≤ n)
          × (n < i + left)
          × (test_bit x n ≡ 1)
          × ((m : ℕ) → i ≤ m → m < n → test_bit x m ≡ 0)))
      ⊎ ((first_pending left i x ≡ pos 0) × ((m : ℕ) → i ≤ m → m < i + left → test_bit x m ≡ 0))
unfolding first_pending
first_pending_lem zero i x = inr (refl, λ m l u. absurd (omega arith))
first_pending_lem (suc left) i x =
    let rest = first_pending_lem left (i + 1) x in
    elim (test_bit-cases x i) [
      | inr here ↦
          rw (set_bit x i here)
            (inl (i, (refl, omega arith, omega arith, here, λ m l u. absurd (omega arith))))
      | inl skip ↦ elim rest [
        | inl (n, (e, l, u, one, before)) ↦ rw (clear_bit x i skip) (
            inl (
              n,
              (
                e,
                omega (arith, l),
                omega (arith, u),
                one,
                λ m lo hi. and_first x i m n skip before lo hi,
              ),
            ))
        | inr (e, all) ↦ rw (clear_bit x i skip) (
            inr (
              e,
              λ m lo hi.
                  and_first x i m (i + suc left) skip
                    (λ m' lo' hi'. all m' lo' (omega (arith, hi'))) lo hi,
            ))
      ]
    ]
