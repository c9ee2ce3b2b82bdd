-- ===== src/Base64.antt =====
-- http/utility.hpp: `Base64Encoder`, `base64encode` and `base64Decode`, and the use of the encoder
-- on the chunks of a file in http/http_base64_file_body.hpp.
pub mod Encoding
pub mod Chunks
pub mod Roundtrip
mod Tests
use crow_core.Common.{
  ℕ, zero, suc, ◌+◌, ◌*◌, ◌/◌, ◌^◌, Bytes, codes, bits, length, get_or, replicate, List, [], ◌∷◌,
  ◌++◌, Bool, true, false, ◌==◌, if◌then◌else◌,
}

-- `overflow1`, `overflow2` and `overflowCount`.
pub record Base64Encoder : Type 0 where
  pub overflow1 : ℕ
  pub overflow2 : ℕ
  pub overflow_count : ℕ

abbrev pub new_encoder : Base64Encoder
new_encoder = record { overflow1 = 0; overflow2 = 0; overflow_count = 0 }

abbrev pub key_array : Bytes
key_array = codes "ABCDEFGHIJKLMNOPQRSTUVWXYZabcdefghijklmnopqrstuvwxyz0123456789+/"

pub key : ℕ → ℕ
key i = get_or key_array i 0

-- The four characters that `encodeTriple` appends. `(x & 0xFC) >> 2` is the six bits from bit 2 on.
pub encode_triple : ℕ → ℕ → ℕ → Bytes
unfolding key
encode_triple first second third =
    key (bits first 2 6)
    ∷ key (bits first 0 2 * 2 ^ 4 + bits second 4 4)
    ∷ key (bits second 0 4 * 2 ^ 2 + bits third 6 2)
    ∷ key (bits third 0 6)
    ∷ []

-- What is left of the data, after the state: the last two tests of `encode`.
keep_first : Base64Encoder → Bytes → Base64Encoder × Bytes
keep_first e [] = (e, [])
keep_first e (c ∷ rest) =
    if e.overflow_count == 0
    then (record e { overflow1 = c; overflow_count = 1 }, rest)
    else (e, c ∷ rest)

keep_second : Base64Encoder → Bytes → Base64Encoder
keep_second e [] = e
keep_second e (c ∷ rest) =
    if e.overflow_count == 1 then record e { overflow2 = c; overflow_count = 2 } else e

keep_rest : Base64Encoder → Bytes → Base64Encoder
unfolding keep_first keep_second
keep_rest e rest = let (e', rest') = keep_first e rest in keep_second e' rest'

-- The `while (data.size() >= 3)` loop, and what follows it.
encode_triples : Base64Encoder → Bytes → Bytes → Base64Encoder × Bytes
encode_triples e (a ∷ b ∷ c ∷ rest) output = encode_triples e rest (output ++ encode_triple a b c)
encode_triples e rest output = (keep_rest e rest, output)

-- The overflow of the last call goes out first.
encode_two_left : Base64Encoder → Bytes → Bytes → Base64Encoder × Bytes
encode_two_left e [] output = encode_triples e [] output
encode_two_left e (c ∷ rest) output =
    encode_triples (record e { overflow_count = 0 }) rest
      (output ++ encode_triple e.overflow1 e.overflow2 c)

encode_one_left : Base64Encoder → Bytes → Bytes → Base64Encoder × Bytes
encode_one_left e (b ∷ c ∷ rest) output =
    encode_triples (record e { overflow_count = 0 }) rest (output ++ encode_triple e.overflow1 b c)
encode_one_left e rest output = encode_triples e rest output

unfoldable pub encode : Base64Encoder → Bytes → Bytes → Base64Encoder × Bytes
unfolding encode_triples encode_triple keep_rest encode_two_left encode_one_left
encode e text output =
    if e.overflow_count == 2
    then encode_two_left e text output
    else if e.overflow_count == 1
    then encode_one_left e text output
    else encode_triples e text output

unfoldable pub finalize : Base64Encoder → Bytes → Base64Encoder × Bytes
unfolding key
finalize e output = if e.overflow_count == 0 then (e, output) else (
  record e { overflow_count = 0 },
  (if e.overflow_count == 2
      then output
        ++ key (bits e.overflow1 2 6)
          ∷ key (bits e.overflow1 0 2 * 2 ^ 4 + bits e.overflow2 4 4)
          ∷ key (bits e.overflow2 0 4 * 2 ^ 2)
          ∷ b'='
          ∷ []
      else output
        ++ key (bits e.overflow1 2 6) ∷ key (bits e.overflow1 0 2 * 2 ^ 4) ∷ b'=' ∷ b'=' ∷ []),
)

unfoldable pub encoded_size : ℕ → ℕ
encoded_size input_size = (input_size + 2) / 3 * 4

unfoldable pub base64encode : Bytes → Bytes
unfolding encode finalize
base64encode text = let (e, out) = encode new_encoder text [] in (finalize e out).1

-- `(char)-1`, as the byte 255.
abbrev pub nop : ℕ
nop = 255

abbrev count_from : ℕ → ℕ → Bytes
count_from zero first = []
count_from (suc n) first = first ∷ count_from n (first + 1)

abbrev pub decoding_data : Bytes
decoding_data =
    replicate 43 nop
    ++ (62 ∷ replicate 3 nop
        ++ (63 ∷ count_from 10 52
            ++ (replicate 7 nop
                ++ (count_from 26 0
                    ++ (replicate 6 nop ++ (count_from 26 26 ++ replicate 133 nop))))))

pub get_code_value : ℕ → ℕ
get_code_value c = get_or decoding_data c nop

-- The three parts of a round of `base64Decode`'s loop; `next` goes on with the longer output.
decode_first_two : ℕ → ℕ → Bytes → (Bytes → Bool × Bytes) → Bool × Bytes
decode_first_two code0 code1 output next =
    if code0 == nop
    then (false, output)
    else if code1 == nop
    then (false, output)
    else next (output ++ (code0 * 2 ^ 2 + bits code1 4 2) ∷ [])

decode_third : ℕ → ℕ → Bytes → (Bytes → Bool × Bytes) → Bool × Bytes
decode_third code1 c output next =
    if c == b'='
    then (bits code1 0 4 == 0, output)
    else if get_code_value c == nop
    then (false, output)
    else next (output ++ (bits code1 0 4 * 2 ^ 4 + bits (get_code_value c) 2 4) ∷ [])

decode_fourth : ℕ → ℕ → Bytes → (Bytes → Bool × Bytes) → Bool × Bytes
decode_fourth code2 c output next =
    if c == b'='
    then (bits code2 0 2 == 0, output)
    else if get_code_value c == nop
    then (false, output)
    else next (output ++ (bits code2 0 2 * 2 ^ 6 + get_code_value c) ∷ [])

-- The loop takes four characters a round; the result is the flag returned and `output`.
base64_decode_loop : Bytes → Bytes → Bool × Bytes
base64_decode_loop [] output = (true, output)
base64_decode_loop (c0 ∷ []) output = (false, output)
base64_decode_loop (c0 ∷ c1 ∷ []) output =
    decode_first_two (get_code_value c0) (get_code_value c1) output (λ out. (true, out))
base64_decode_loop (c0 ∷ c1 ∷ c2 ∷ []) output =
    decode_first_two (get_code_value c0) (get_code_value c1) output
      λ out. decode_third (get_code_value c1) c2 out (λ out'. (true, out'))
base64_decode_loop (c0 ∷ c1 ∷ c2 ∷ c3 ∷ rest) output =
    decode_first_two (get_code_value c0) (get_code_value c1) output λ out.
      decode_third (get_code_value c1) c2 out
        λ out'. decode_fourth (get_code_value c2) c3 out' (base64_decode_loop rest)

unfoldable pub base64_decode : Bytes → Bool × Bytes
unfolding base64_decode_loop decode_first_two decode_third decode_fourth get_code_value
base64_decode input = base64_decode_loop input []

-- The use of the encoder on the chunks of a file: `get` clears the buffer, encodes a chunk, and
-- finalizes after the last one, when the file body says that no more follows.
unfoldable pub writer_get : Base64Encoder → Bytes → Bool → Base64Encoder × Bytes
unfolding encode finalize
writer_get encoder chunk more =
    let (e, buf) = encode encoder chunk [] in if more then (e, buf) else finalize e buf
