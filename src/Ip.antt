-- ===== src/Ip.antt =====
-- utils/ip_utils.hpp: `ipv4VerifyIpAndGetBitcount`.
pub mod Ones
pub mod FourBytes
pub mod Masks
mod Tests
use crow_core.Common.{
  ℕ, zero, suc, ◌+◌, ◌-◌, ◌*◌, ◌/◌, ◌%◌, ◌^◌, Bytes, length, List, [], ◌∷◌, ◌++◌, Option, none,
  some, Bool, true, false, not, ◌&&◌, ◌||◌, ◌==◌, ltb, leb, if◌then◌else◌, signed_of, skip_spaces,
}

-- `boost::split` at every dot: one piece more than there are dots.
unfoldable pub split_dots : Bytes → List Bytes
split_dots [] = [] ∷ []
split_dots (c ∷ s) =
    if c == b'.'
    then [] ∷ split_dots s
    else elim (split_dots s) [ [] ↦ (c ∷ []) ∷ [] | piece ∷ pieces ↦ (c ∷ piece) ∷ pieces ]

-- `strtol` that reads the whole text to a value from 0 to 255; `none` is one of the `return false`.
-- A value that does not fit in `long` gives its largest or its least, which is refused too.
abbrev pub byte_of : Option (Bool × ℕ × Bytes) → Option ℕ
byte_of none = none
byte_of (some (negative, n, [])) = if ltb 255 n || (negative && not (n == 0)) then none else some n
byte_of (some (negative, n, c ∷ rest)) = none

-- `c_str()` as `strtol` sees it: up to the first zero byte.
unfoldable pub c_str : Bytes → Bytes
c_str [] = []
c_str (c ∷ s) = if c == 0 then [] else c ∷ c_str s

-- Where nothing can be read, `endPtr` is the start of the text, which is its end where it is empty.
abbrev pub number_of : Bytes → Option ℕ
number_of [] = some 0
number_of (c ∷ s) = byte_of (signed_of (skip_spaces (c ∷ s)))

unfoldable pub read_byte : Bytes → Option ℕ
unfolding c_str
read_byte [] = none
read_byte (c ∷ s) = number_of (c_str (c ∷ s))

-- The loop over the bits from `bit_idx - 1` down: `firstZeroInByteHit`, and the count.
unfoldable pub count_bits : ℕ → ℕ → Bool → ℕ → Option ℕ
count_bits value zero hit bits = some bits
count_bits value (suc bit_idx) hit bits =
    if value / 2 ^ bit_idx % 2 == 0
    then count_bits value bit_idx true bits
    else if hit
    then none
    else count_bits value bit_idx false ((bits + 1) % 256)

-- A round of the loop over the bytes where `bits` is wanted.
unfoldable pub mask_byte : ℕ → ℕ → ℕ → Option ℕ
mask_byte previous_value value bits =
    if not (previous_value == 255) && not (value == 0) then none else count_bits value 8 false bits

-- The loop over the bytes, where `bits` is wanted and where it is not.
unfoldable pub mask_loop : List Bytes → ℕ → ℕ → Option ℕ
mask_loop [] previous_value bits = some bits
mask_loop (byte ∷ bytes) previous_value bits = elim (read_byte byte) [
  | none ↦ none
  | some value ↦ elim (mask_byte previous_value value bits) [
    | none ↦ none
    | some bits' ↦ mask_loop bytes value bits'
  ]
]

unfoldable pub verify_loop : List Bytes → Bool
verify_loop [] = true
verify_loop (byte ∷ bytes) = elim (read_byte byte) [ none ↦ false | some value ↦ verify_loop bytes ]

-- With `bits`: the count, or `none` for `false`.
unfoldable pub ipv4_bitcount : Bytes → Option ℕ
ipv4_bitcount ip = if length (split_dots ip) == 4 then mask_loop (split_dots ip) 255 0 else none

-- Without.
unfoldable pub ipv4_verify_ip : Bytes → Bool
ipv4_verify_ip ip = if length (split_dots ip) == 4 then verify_loop (split_dots ip) else false
