-- ===== src/HumanSort.antt =====
-- include/human_sort.hpp: `alphanumComp`. A pointer into a text is the text from it on.
pub mod Order
mod Tests
use crow_core.Common.{
  ℕ, zero, suc, ◌+◌, ◌-◌, ◌%◌, ◌^◌, Bytes, length, List, [], ◌∷◌, Option, none, some, Bool, true,
  false, ◌&&◌, ◌==◌, ltb, leb, if◌then◌else◌, ℤ, pos, negsuc, is_digit, scan_digits,
}

-- The difference of two `int`s that are not negative.
unfoldable pub difference : ℕ → ℕ → ℤ
difference a b = if leb b a then pos (a - b) else negsuc (b - a - 1)

-- The difference of two `char`s, which are signed.
abbrev pub char_difference : ℕ → ℕ → ℤ
char_difference c d = difference ((c + 128) % 256) ((d + 128) % 256)

-- `std::from_chars` of an `int` at a digit: all digits are passed, and the value stays 0 where it is
-- out of range.
abbrev pub int_value : ℕ → ℕ
int_value n = if ltb n (2 ^ 31) then n else 0

abbrev is_zero : ℤ → Bool
is_zero (pos zero) = true
is_zero _ = false

-- What follows a comparison: its result where it is not 0.
abbrev pub unless_zero : ℤ → Option ℤ → Option ℤ
unless_zero diff next = elim (is_zero diff) [ true ↦ next | false ↦ some diff ]

-- `simpleIsDigit`.
unfoldable pub simple_is_digit : ℕ → Bool
simple_is_digit c = leb b'0' c && leb c b'9'

-- The number at the front of a text, and what follows it.
unfoldable pub number_at : Bytes → ℕ × Bytes
unfolding scan_digits
number_at s = (int_value (scan_digits 0 s).0, (scan_digits 0 s).1)

-- The loop of `alphanumComp`, on fuel; `none` means that it is still running. Where both characters
-- are digits, the round in `NUMBER` mode that follows is part of this one.
unfoldable pub comp_loop : ℕ → Bytes → Bytes → Option ℤ
comp_loop zero left right = none
comp_loop (suc fuel) [] [] = some (pos 0)
comp_loop (suc fuel) (c ∷ l) [] = some (pos 1)
comp_loop (suc fuel) [] (d ∷ r) = some (negsuc 0)
comp_loop (suc fuel) (c ∷ l) (d ∷ r) = elim (simple_is_digit c) [
  | true ↦ elim (simple_is_digit d) [
    | true ↦
        unless_zero (difference (number_at (c ∷ l)).0 (number_at (d ∷ r)).0)
          (comp_loop fuel (number_at (c ∷ l)).1 (number_at (d ∷ r)).1)
    | false ↦ some (negsuc 0)
  ]
  | false ↦ elim (simple_is_digit d) [
    | true ↦ some (pos 1)
    | false ↦ unless_zero (char_difference c d) (comp_loop fuel l r)
  ]
]

-- A round takes something off both texts.
unfoldable pub alphanum_comp : Bytes → Bytes → Option ℤ
alphanum_comp left right = comp_loop (suc (length left + length right)) left right

-- `AlphanumLess`.
abbrev is_negative : ℤ → Bool
is_negative (pos n) = false
is_negative (negsuc n) = true

abbrev less_of : Option ℤ → Option Bool
less_of none = none
less_of (some diff) = some (is_negative diff)

unfoldable pub alphanum_less : Bytes → Bytes → Option Bool
alphanum_less left right = less_of (alphanum_comp left right)
