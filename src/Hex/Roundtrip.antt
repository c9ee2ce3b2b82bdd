-- ===== src/Hex/Roundtrip.antt =====
-- utils/hex_utils.hpp: printing and reading against each other.
use crow_core.Common.{
  ℕ, zero, suc, ◌+◌, ◌-◌, ◌*◌, ◌/◌, ◌%◌, ◌^◌, ◌≤◌, ◌<◌, Bytes, IsByte, bits, length, All, [], ◌∷◌,
  some, ◌&&◌, ◌||◌, leb, ◌==◌, if◌then◌else◌, ◌≡◌, refl, ap, arith, inl, inr, Option-cases, map,
  ◌⊎◌, ◌≢◌, all_below, all_below_sound, ==_iff, true,
}
use native.Mathlib.Nat.{div-add-mod, div-div-eq-div-mul, pow-suc}
use crow_core.Hex.{
  digit, hex_loop, int_to_hex_string, bytes_to_hex_string, hex_char_to_nibble, hex_pairs,
  hex_string_to_bytes, or_empty,
}

nibble_table : all_below 16 (λ v. hex_char_to_nibble (digit v) == v) ≡ true
unfolding all_below hex_char_to_nibble digit
nibble_table = refl

hex_char_to_nibble-digit : (v : ℕ) → v < 16 → hex_char_to_nibble (digit v) ≡ v
hex_char_to_nibble-digit v h = (==_iff _ v).0 (all_below_sound 16 _ v nibble_table h)

hex_pairs-bytes_to_hex_string :
    (bs : Bytes) → All IsByte bs → hex_pairs (bytes_to_hex_string bs) ≡ some bs
unfolding hex_pairs bytes_to_hex_string
hex_pairs-bytes_to_hex_string [] h = refl
hex_pairs-bytes_to_hex_string (b ∷ bs) (small, h) = ground (
  arith,
  hex_char_to_nibble-digit (bits b 4 4) (omega arith),
  hex_char_to_nibble-digit (bits b 0 4) (omega arith),
  hex_pairs-bytes_to_hex_string bs h,
)

-- Every sequence of bytes, printed by `bytesToHexString`, is read back by `hexStringToBytes`.
pub hex_string_to_bytes-bytes_to_hex_string :
    (bs : Bytes) → All IsByte bs → hex_string_to_bytes (bytes_to_hex_string bs) ≡ bs
unfolding hex_string_to_bytes
hex_string_to_bytes-bytes_to_hex_string bs h = ground (arith, hex_pairs-bytes_to_hex_string bs h)

-- The number that a string of hexadecimal digits stands for, read from the left.
abbrev pub hex_value : ℕ → Bytes → ℕ
hex_value acc [] = acc
hex_value acc (c ∷ s) = hex_value (acc * 16 + hex_char_to_nibble c) s

mod_split : (m v : ℕ) → v % (m * 16) ≡ v / m % 16 * m + v % m
mod_split m v = omega (
  arith,
  ap (λ (t : ℕ). t * m) (div-add-mod (v / m) 16),
  div-add-mod v m,
  div-add-mod v (m * 16),
  ap (λ (t : ℕ). m * 16 * t) (div-div-eq-div-mul v m 16),
)

pow_16 : (k : ℕ) → 2 ^ (4 * k) ≡ 16 ^ k
pow_16 zero = refl
pow_16 (suc k) =
    let e : 4 * suc k ≡ suc (suc (suc (suc (4 * k)))) = omega arith in
    rw e (simp pow-suc (omega (arith, pow_16 k)))

hex_loop_value :
    (value n acc : ℕ)
    → n ≤ 16
    → hex_value acc (hex_loop value n ((4 * n + 2 ^ 64 - 4) % 2 ^ 64))
      ≡ acc * 16 ^ n + value % 16 ^ n
unfolding hex_loop
hex_loop_value value zero acc h = omega arith
hex_loop_value value (suc n) acc h =
    let next : (4 * suc n + 2 ^ 64 - 4) % 2 ^ 64 ≡ 4 * n = omega arith in
    let wrap : (4 * n + 2 ^ 64 - 4) % 2 ^ 64 ≡ (4 * n + 2 ^ 64 - 4) % 2 ^ 64 = refl in
    rw (next, pow_16 n, hex_char_to_nibble-digit (value / 16 ^ n % 16) (omega arith))
      (rw (hex_loop_value value n (acc * 16 + value / 16 ^ n % 16) (omega arith))
        (rw pow-suc (omega (arith, mod_split (16 ^ n) value))))

length-hex_loop : (value n bit : ℕ) → length (hex_loop value n bit) ≡ n
unfolding hex_loop
length-hex_loop value zero bit = refl
length-hex_loop value (suc n) bit = ap suc (length-hex_loop value n _)

-- For up to 16 digits, `intToHexString(value, digits)` writes exactly `digits` characters, and they
-- read back as the value modulo `16 ^ digits`.
pub int_to_hex_string-value :
    (value digits : ℕ)
    → digits ≤ 16
    → (length (int_to_hex_string value digits) ≡ digits)
      × (hex_value 0 (int_to_hex_string value digits) ≡ value % 16 ^ digits)
unfolding int_to_hex_string
int_to_hex_string-value value digits h =
    let start : (digits + 2 ^ 64 - 1) % 2 ^ 64 * 4 % 2 ^ 64 ≡ (4 * digits + 2 ^ 64 - 4) % 2 ^ 64 =
      omega arith in
    (length-hex_loop value digits _, rw start (omega (arith, hex_loop_value value digits 0 h)))

abbrev pub IsHexDigit : ℕ → Type 0
IsHexDigit c = ((b'0' ≤ c) × (c ≤ b'9')) ⊎ ((b'A' ≤ c) × (c ≤ b'F')) ⊎ ((b'a' ≤ c) × (c ≤ b'f'))

abbrev pub to_upper : ℕ → ℕ
to_upper c = if leb b'a' c && leb c b'z' then c - 32 else c

nibble-IsHexDigit : (c : ℕ) → hex_char_to_nibble c ≢ 16 → IsHexDigit c
unfolding hex_char_to_nibble
nibble-IsHexDigit c h = ground arith

nibble_bound : (c : ℕ) → IsHexDigit c → hex_char_to_nibble c < 16
unfolding hex_char_to_nibble
nibble_bound c h = ground arith

upper_table :
    all_below 256
      (λ c. (hex_char_to_nibble c == 16) || (digit (hex_char_to_nibble c) == to_upper c))
    ≡ true
unfolding all_below hex_char_to_nibble digit
upper_table = refl

digit-nibble : (c : ℕ) → IsHexDigit c → digit (hex_char_to_nibble c) ≡ to_upper c
digit-nibble c h = ground (
  arith,
  all_below_sound 256
      (λ d. (hex_char_to_nibble d == 16) || (digit (hex_char_to_nibble d) == to_upper d)) c
      upper_table,
  nibble_bound c h,
)

hex_pairs_upper :
    (str : Bytes)
    → All IsHexDigit str
    → length str % 2 ≡ 0
    → (rc : Bytes) × (hex_pairs str ≡ some rc) × (bytes_to_hex_string rc ≡ map to_upper str)
unfolding hex_pairs bytes_to_hex_string
hex_pairs_upper [] h e = ([], refl, refl)
hex_pairs_upper (c ∷ []) h e = absurd (omega arith)
hex_pairs_upper (c ∷ d ∷ str) (hc, (hd, h)) e =
    let (rc, parsed, same) = hex_pairs_upper str h (omega arith) in
    let hi = nibble_bound c hc in
    let lo = nibble_bound d hd in
    let high : bits (hex_char_to_nibble c * 2 ^ 4 + hex_char_to_nibble d) 4 4
        ≡ hex_char_to_nibble c =
      omega arith in
    let low : bits (hex_char_to_nibble c * 2 ^ 4 + hex_char_to_nibble d) 0 4
        ≡ hex_char_to_nibble d =
      omega arith in
    (
      (hex_char_to_nibble c * 2 ^ 4 + hex_char_to_nibble d) ∷ rc,
      ground arith,
      rw (high, low, digit-nibble c hc, digit-nibble d hd, same),
    )

-- A string of an even number of hexadecimal digits is read by `hexStringToBytes` into bytes that
-- `bytesToHexString` prints as the same digits in upper case.
pub hex_string_to_bytes_upper :
    (str : Bytes)
    → All IsHexDigit str
    → length str % 2 ≡ 0
    → bytes_to_hex_string (hex_string_to_bytes str) ≡ map to_upper str
unfolding hex_string_to_bytes
hex_string_to_bytes_upper str h e =
    let (rc, parsed, same) = hex_pairs_upper str h e in rw (parsed, or_empty) same

hex_pairs_sound :
    (str rc : Bytes) → hex_pairs str ≡ some rc → All IsHexDigit str × (length str % 2 ≡ 0)
unfolding hex_pairs
hex_pairs_sound [] rc e = (tt, omega arith)
hex_pairs_sound (c ∷ []) rc e = cc
hex_pairs_sound (c ∷ d ∷ str) rc e = elim (Option-cases (hex_pairs str)) [
  | inl failed ↦ ground arith
  | inr (rest, parsed) ↦
      let ih = hex_pairs_sound str rest parsed in
      (
        (nibble-IsHexDigit c (ground arith), (nibble-IsHexDigit d (ground arith), ih.0)),
        omega arith,
      )
]

-- A string that is not an even number of hexadecimal digits gives the empty vector.
pub hex_string_to_bytes_malformed :
    (str : Bytes) → ¬ (All IsHexDigit str × (length str % 2 ≡ 0)) → hex_string_to_bytes str ≡ []
unfolding hex_string_to_bytes
hex_string_to_bytes_malformed str bad = elim (Option-cases (hex_pairs str)) [
  | inl failed ↦ rw (failed, or_empty)
  | inr (rc, parsed) ↦ absurd (bad (hex_pairs_sound str rc parsed))
]
