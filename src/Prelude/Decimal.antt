-- ===== src/Prelude/Decimal.antt =====
-- `fmt.Sprintf("%d", i)`, on fuel: each round takes a digit off, so n + 1 rounds are enough for n.
use Prim.Native.Nat.{ℕ, zero, suc, ◌+◌, ◌/◌, ◌%◌}
use mathlib.Core.List.{[], ◌∷◌}
use stdlib_lab.Prelude.Tests.{ltb, if◌then◌else◌}
use stdlib_lab.Prelude.Int.{ℤ, pos, negsuc}
use stdlib_lab.Prelude.Strings.{Text}

unfoldable pub digits_from : ℕ → ℕ → Text → Text
digits_from zero n tail = tail
digits_from (suc f) n tail =
    let more = digits_from f (n / 10) ((b'0' + n % 10) ∷ tail) in
    if ltb n 10 then (b'0' + n) ∷ tail else more

unfoldable pub itoa : ℤ → Text
unfolding digits_from
itoa (pos n) = digits_from (suc n) n []
itoa (negsuc n) = b'-' ∷ digits_from (suc (suc n)) (suc n) []
