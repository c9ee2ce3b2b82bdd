-- ===== src/Common/Decimal.antt =====
-- `std::to_string`.
use Prim.Native.Nat.{ℕ, zero, suc, ◌+◌, ◌/◌, ◌%◌}
use mathlib.Core.Bool.{true, false}
use mathlib.Core.List.{[], ◌∷◌}
use crow_core.Common.Tests.{ltb}
use crow_core.Common.Text.{Bytes}
use crow_core.Common.Strtol.{ℤ, pos, negsuc}

-- The digits of a number before those that are there already; a number has no more digits than it is large.
unfoldable pub digits_before : ℕ → ℕ → Bytes → Bytes
digits_before zero n digits = digits
digits_before (suc fuel) n digits = elim (ltb n 10) [
  | true ↦ (b'0' + n) ∷ digits
  | false ↦ digits_before fuel (n / 10) ((b'0' + n % 10) ∷ digits)
]

unfoldable pub to_string_unsigned : ℕ → Bytes
unfolding digits_before
to_string_unsigned n = digits_before (suc n) n []

unfoldable pub to_string : ℤ → Bytes
unfolding to_string_unsigned
to_string (pos n) = to_string_unsigned n
to_string (negsuc n) = b'-' ∷ to_string_unsigned (suc n)
