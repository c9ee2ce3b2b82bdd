-- ===== src/Hex.antt =====
-- utils/hex_utils.hpp: numbers and bytes as hexadecimal text.
pub mod Roundtrip
mod Tests
use crow_core.Common.{
  ℕ, zero, suc, ◌+◌, ◌-◌, ◌*◌, ◌/◌, ◌%◌, ◌^◌, Bytes, codes, bits, get_or, List, [], ◌∷◌, Option,
  none, some, ◌&&◌, ◌||◌, leb, ◌==◌, if◌then◌else◌,
}

abbrev pub digits_array : Bytes
digits_array = codes "0123456789ABCDEF"

-- `digitsArray[v]`, for `v` below 16.
pub digit : ℕ → ℕ
digit v = get_or digits_array v 0

-- The rounds left, and `bitIndex`, a `size_t` that wraps round below 0 after the last round.
hex_loop : ℕ → ℕ → ℕ → Bytes
hex_loop value zero bit_index = []
hex_loop value (suc rounds) bit_index =
    digit (value / 2 ^ bit_index % 2 ^ 4)
    ∷ hex_loop value rounds ((bit_index + 2 ^ 64 - 4) % 2 ^ 64)

unfoldable pub int_to_hex_string : ℕ → ℕ → Bytes
unfolding hex_loop digit
int_to_hex_string value digits = hex_loop value digits ((digits + 2 ^ 64 - 1) % 2 ^ 64 * 4 % 2 ^ 64)

unfoldable pub bytes_to_hex_string : Bytes → Bytes
unfolding digit
bytes_to_hex_string [] = []
bytes_to_hex_string (b ∷ bytes) =
    digit (bits b 4 4) ∷ digit (bits b 0 4) ∷ bytes_to_hex_string bytes

unfoldable pub hex_char_to_nibble : ℕ → ℕ
hex_char_to_nibble ch =
    if leb b'0' ch && leb ch b'9'
    then ch - b'0'
    else if leb b'A' ch && leb ch b'F'
    then ch - b'A' + 10
    else if leb b'a' ch && leb ch b'f'
    then ch - b'a' + 10
    else 16

-- The loop of `hexStringToBytes`, two characters a round; `none` is its `return {}`.
hex_pairs : Bytes → Option Bytes
hex_pairs [] = some []
hex_pairs (c ∷ []) = none
hex_pairs (c ∷ d ∷ str) =
    let hi = hex_char_to_nibble c in
    let lo = hex_char_to_nibble d in
    if lo == 16 || hi == 16
    then none
    else elim (hex_pairs str) [ none ↦ none | some rc ↦ some ((hi * 2 ^ 4 + lo) ∷ rc) ]

abbrev or_empty : Option Bytes → Bytes
or_empty none = []
or_empty (some rc) = rc

-- Returns an empty vector on a malformed string.
unfoldable pub hex_string_to_bytes : Bytes → Bytes
unfolding hex_pairs hex_char_to_nibble
hex_string_to_bytes str = or_empty (hex_pairs str)
