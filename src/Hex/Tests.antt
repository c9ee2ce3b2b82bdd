-- ===== src/Hex/Tests.antt =====
-- utils/hex_utils.hpp on concrete inputs.
use crow_core.Common.{codes, [], ◌∷◌, ◌≡◌, refl, arith, length, ◌%◌, ◌^◌}
use crow_core.Hex.{int_to_hex_string, bytes_to_hex_string, hex_char_to_nibble, hex_string_to_bytes}
use crow_core.Hex.Roundtrip.{
  hex_string_to_bytes-bytes_to_hex_string, hex_value, int_to_hex_string-value,
}

hex_tests :
    (int_to_hex_string 48879 8 ≡ codes "0000BEEF")
    × (bytes_to_hex_string (1 ∷ 255 ∷ []) ≡ codes "01FF")
    × (hex_string_to_bytes (codes "01fF") ≡ 1 ∷ 255 ∷ [])
    × (hex_string_to_bytes (codes "01f") ≡ [])
    × (hex_string_to_bytes (codes "0x") ≡ [])
unfolding int_to_hex_string bytes_to_hex_string hex_string_to_bytes hex_char_to_nibble
hex_tests = (refl, refl, refl, refl, refl)

hex_string_to_bytes-bytes_to_hex_string_example :
    hex_string_to_bytes (bytes_to_hex_string (222 ∷ 173 ∷ [])) ≡ 222 ∷ 173 ∷ []
hex_string_to_bytes-bytes_to_hex_string_example =
    hex_string_to_bytes-bytes_to_hex_string (222 ∷ 173 ∷ []) (omega arith, (omega arith, tt))

int_to_hex_string-value_example :
    (length (int_to_hex_string 48879 3) ≡ 3)
    × (hex_value 0 (int_to_hex_string 48879 3) ≡ 48879 % 16 ^ 3)
int_to_hex_string-value_example = int_to_hex_string-value 48879 3 (omega arith)
