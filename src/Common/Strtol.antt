-- ===== src/Common/Strtol.antt =====
-- The C library's `strtol` family in base 10: blanks, a sign, and as many digits as there are. The
-- result is the value and what follows it; `none` stands for a text with no digits, and in
-- `strtoll` and `strtoull` also for `ERANGE`.
use Prim.Native.Nat.{ℕ, zero, suc, ◌+◌, ◌-◌, ◌*◌, ◌%◌, ◌^◌}
use mathlib.Core.Bool.{Bool, true, false, ◌&&◌, ◌||◌}
use mathlib.Core.List.{[], ◌∷◌}
use mathlib.Core.Option.{Option, none, some}
use crow_core.Common.Tests.{ltb, leb, ◌==◌, if◌then◌else◌}
use crow_core.Common.Text.{Bytes}

-- `negsuc n` is -(n + 1).
pub data ℤ : Type 0 where
  pos : ℕ → ℤ
  negsuc : ℕ → ℤ

abbrev pub neg_of : ℕ → ℤ
neg_of zero = pos 0
neg_of (suc n) = negsuc n

abbrev pub is_digit : ℕ → Bool
is_digit c = leb b'0' c && leb c b'9'

unfoldable pub scan_digits : ℕ → Bytes → ℕ × Bytes
scan_digits acc [] = (acc, [])
scan_digits acc (c ∷ s) = if is_digit c then scan_digits (acc * 10 + (c - b'0')) s else (acc, c ∷ s)

unfoldable pub digits_of : Bytes → Option (ℕ × Bytes)
digits_of [] = none
digits_of (c ∷ s) = if is_digit c then some (scan_digits (c - b'0') s) else none

abbrev is_space : ℕ → Bool
is_space c = c == 32 || (leb 9 c && leb c 13)

unfoldable pub skip_spaces : Bytes → Bytes
skip_spaces [] = []
skip_spaces (c ∷ s) = if is_space c then skip_spaces s else c ∷ s

abbrev with_sign : Bool → Option (ℕ × Bytes) → Option (Bool × ℕ × Bytes)
with_sign negative none = none
with_sign negative (some (n, rest)) = some (negative, n, rest)

-- The sign, the magnitude, and the rest.
unfoldable pub signed_of : Bytes → Option (Bool × ℕ × Bytes)
unfolding digits_of scan_digits
signed_of [] = none
signed_of (c ∷ s) =
    if c == b'-'
    then with_sign true (digits_of s)
    else if c == b'+'
    then with_sign false (digits_of s)
    else with_sign false (digits_of (c ∷ s))

abbrev int64_of : Option (Bool × ℕ × Bytes) → Option (ℤ × Bytes)
int64_of none = none
int64_of (some (true, n, rest)) = if leb n (2 ^ 63) then some (neg_of n, rest) else none
int64_of (some (false, n, rest)) = if ltb n (2 ^ 63) then some (pos n, rest) else none

unfoldable pub strtoll : Bytes → Option (ℤ × Bytes)
unfolding signed_of skip_spaces
strtoll s = int64_of (signed_of (skip_spaces s))

abbrev uint64_of : Option (Bool × ℕ × Bytes) → Option (ℕ × Bytes)
uint64_of none = none
uint64_of (some (true, n, rest)) =
    if ltb n (2 ^ 64) then some ((2 ^ 64 - n) % 2 ^ 64, rest) else none
uint64_of (some (false, n, rest)) = if ltb n (2 ^ 64) then some (n, rest) else none

unfoldable pub strtoull : Bytes → Option (ℕ × Bytes)
unfolding signed_of skip_spaces
strtoull s = uint64_of (signed_of (skip_spaces s))
