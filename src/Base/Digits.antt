-- ===== src/Base/Digits.antt =====
-- The digits of a number in a base, the lowest first: the loops that print numbers.
use cro_os.Base.Tests.{◌==◌, if◌then◌else◌}
use Prim.Native.Nat.{ℕ, zero, suc, ◌/◌, ◌%◌}
use mathlib.Core.List.{List, [], ◌∷◌}

-- `do { out[i++] = n % base; n /= base; } while (n > 0)`, with at most `fuel` rounds.
unfoldable pub digits : ℕ → ℕ → ℕ → List ℕ
digits zero base n = []
digits (suc fuel) base n =
    let rest = digits fuel base (n / base) in n % base ∷ (if n / base == 0 then [] else rest)
