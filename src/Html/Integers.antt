-- ===== src/Html/Integers.antt =====
-- include/json_html_serializer.hpp: `countDigits` and `dumpInteger`.
use crow_core.Common.{
  ℕ, zero, suc, ◌+◌, ◌-◌, ◌/◌, ◌%◌, Bytes, set, replicate, ℤ, pos, negsuc, [], ◌∷◌, Option, none,
  some, ltb, if◌then◌else◌, ◌>>=◌,
}
use crow_core.Html.{keep}

-- On fuel; `none` means that the loop is still running.
unfoldable pub count_loop : ℕ → ℕ → ℕ → Option ℕ
count_loop zero number digits = none
count_loop (suc fuel) number digits =
    let rest = count_loop fuel (number / 10000) (digits + 4) in
    if ltb number 10
    then some digits
    else if ltb number 100
    then some (digits + 1)
    else if ltb number 1000
    then some (digits + 2)
    else if ltb number 10000
    then some (digits + 3)
    else rest

-- A number of 64 bits has at most 20 digits, and a round takes off four of them.
unfoldable pub count_digits : ℕ → Option ℕ
count_digits number = count_loop 6 number 1

-- `digitsTo99[index][0]` and `digitsTo99[index][1]`.
abbrev pub tens_to_99 : ℕ → ℕ
tens_to_99 index = b'0' + index / 10

abbrev pub units_to_99 : ℕ → ℕ
units_to_99 index = b'0' + index % 10

-- The two characters before a pointer into the buffer.
abbrev pub put_pair : ℕ → ℕ → Bytes → Bytes
put_pair index pointer buffer =
    set (set buffer (pointer - 1) (units_to_99 index)) (pointer - 2) (tens_to_99 index)

unfoldable pub pairs_loop : ℕ → ℕ → ℕ → Bytes → Option (ℕ × ℕ × Bytes)
pairs_loop zero value pointer buffer = none
pairs_loop (suc fuel) value pointer buffer =
    let rest =
      pairs_loop fuel (value / 100) (pointer - 2) (put_pair (value % 100) pointer buffer) in
    if ltb value 100 then some (value, pointer, buffer) else rest

abbrev pub last_digits : ℕ → ℕ → Bytes → Bytes
last_digits value pointer buffer =
    if ltb value 10 then set buffer (pointer - 1) (b'0' + value) else put_pair value pointer buffer

abbrev pub last_and_keep : ℕ → Option (ℕ × ℕ × Bytes) → Option Bytes
last_and_keep chars none = none
last_and_keep chars (some (rest, pointer, written)) =
    some (keep chars (last_digits rest pointer written))

-- A buffer whose first character is the sign, if there is one.
unfoldable pub dump_absolute : Bytes → ℕ → ℕ → Option Bytes
dump_absolute buffer value chars =
    if ltb chars 63 then last_and_keep chars (pairs_loop 11 value chars buffer) else some []

abbrev pub number_buffer : Bytes
number_buffer = replicate 64 0

unfoldable pub dump_integer : ℤ → Option Bytes
dump_integer (pos zero) = some (b'0' ∷ [])
dump_integer (pos (suc n)) = do
  digits ← count_digits (suc n)
  dump_absolute number_buffer (suc n) digits
dump_integer (negsuc n) = do
  digits ← count_digits (suc n)
  dump_absolute (set number_buffer 0 b'-') (suc n) (1 + digits)
