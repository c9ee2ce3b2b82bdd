-- ===== src/Base64/Tests.antt =====
-- The base64 code of http/utility.hpp on concrete inputs.
use crow_core.Common.{codes, length, [], ◌∷◌, true, false, ◌≡◌, refl, arith}
use crow_core.Base64.{Base64Encoder, new_encoder, base64encode, base64_decode, encoded_size}
use crow_core.Base64.Encoding.{rfc4648}
use crow_core.Base64.Chunks.{
  write_chunks, flatten, base64encode-rfc4648, write_chunks-base64encode, length-base64encode,
}
use crow_core.Base64.Roundtrip.{base64_decode-base64encode}

base64_tests :
    (base64encode (codes "Man") ≡ codes "TWFu")
    × (base64encode (codes "light work") ≡ codes "bGlnaHQgd29yaw==")
    × (base64_decode (codes "TWFu") ≡ (true, codes "Man"))
    × (base64_decode (codes "TW-u") ≡ (false, codes "M"))
    × (base64_decode (codes "TQ==rest") ≡ (true, codes "M"))
    × (base64_decode (codes "TWE") ≡ (true, codes "Ma"))
unfolding base64encode base64_decode
base64_tests = (refl, refl, refl, refl, refl, refl)

-- An encoder that holds one byte.
abbrev one_held : Base64Encoder
one_held = record { overflow1 = b'M'; overflow2 = 0; overflow_count = 1 }

base64encode-rfc4648_example : base64encode (codes "Ma") ≡ rfc4648 (codes "Ma")
base64encode-rfc4648_example = base64encode-rfc4648 (codes "Ma") (omega arith, (omega arith, tt))

write_chunks-base64encode_example :
    write_chunks new_encoder (codes "lig") (codes "h" ∷ codes "t" ∷ [])
    ≡ base64encode (flatten (codes "lig" ∷ codes "h" ∷ codes "t" ∷ []))
write_chunks-base64encode_example =
    write_chunks-base64encode (codes "lig") (codes "h" ∷ codes "t" ∷ [])

length-base64encode_example :
    length (base64encode (codes "light")) ≡ encoded_size (length (codes "light"))
length-base64encode_example = length-base64encode (codes "light")

base64_decode-base64encode_example : base64_decode (base64encode (codes "Ma")) ≡ (true, codes "Ma")
base64_decode-base64encode_example =
    base64_decode-base64encode (codes "Ma") (omega arith, (omega arith, tt))
