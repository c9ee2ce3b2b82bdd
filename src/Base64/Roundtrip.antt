-- ===== src/Base64/Roundtrip.antt =====
-- http/utility.hpp: `base64Decode` against the encoder.
use crow_core.Common.{
  ℕ, ◌+◌, ◌*◌, ◌^◌, ◌<◌, Bytes, IsByte, bits, All, [], ◌∷◌, ◌++◌, Bool, true, append-nil,
  append_assoc, ◌==◌, not, ◌&&◌, ◌≡◌, ◌≢◌, refl, ◌∙◌, arith, all_below, all_below_sound,
}
use crow_core.Base64.{
  key, get_code_value, encode_triple, base64encode, base64_decode, base64_decode_loop,
  decode_first_two, decode_third, decode_fourth,
}
use crow_core.Base64.Encoding.{encode_all}
use crow_core.Base64.Chunks.{base64encode-encode_all}

key_table : all_below 64 (λ i. (get_code_value (key i) == i) && not (key i == b'=')) ≡ true
unfolding all_below get_code_value key
key_table = refl

get_code_value-key : (i : ℕ) → i < 64 → (get_code_value (key i) ≡ i) × (key i ≢ b'=')
get_code_value-key i h = ground (
  arith,
  all_below_sound 64 (λ i. (get_code_value (key i) == i) && not (key i == b'=')) i key_table h,
)

module _ (code : ℕ) (small : code < 64) (output : Bytes) (next : Bytes → Bool × Bytes) where
  decode_first_two-key :
      (code0 : ℕ)
      → code0 < 64
      → decode_first_two (get_code_value (key code0)) (get_code_value (key code)) output next
        ≡ next (output ++ (code0 * 2 ^ 2 + bits code 4 2) ∷ [])
  unfolding decode_first_two
  decode_first_two-key code0 h0 =
      rw ((get_code_value-key code0 h0).0, (get_code_value-key code small).0) (ground arith)

  decode_third-key :
      (code1 : ℕ)
      → decode_third code1 (key code) output next
        ≡ next (output ++ (bits code1 0 4 * 2 ^ 4 + bits code 2 4) ∷ [])
  unfolding decode_third
  decode_third-key code1 = ground (arith, get_code_value-key code small)

  decode_fourth-key :
      (code2 : ℕ)
      → decode_fourth code2 (key code) output next
        ≡ next (output ++ (bits code2 0 2 * 2 ^ 6 + code) ∷ [])
  unfolding decode_fourth
  decode_fourth-key code2 = ground (arith, get_code_value-key code small)

decode_padding :
    (k0 k1 : ℕ) (output : Bytes)
    → k0 < 64
    → k1 < 64
    → bits k1 0 4 ≡ 0
    → base64_decode_loop (key k0 ∷ key k1 ∷ b'=' ∷ b'=' ∷ []) output
      ≡ (true, output ++ (k0 * 2 ^ 2 + bits k1 4 2) ∷ [])
unfolding base64_decode_loop
decode_padding k0 k1 output h0 h1 clear =
    rw (decode_first_two-key k1 h1 output _ k0 h0, (get_code_value-key k1 h1).0)
      (unfold decode_third in ground arith)

decode_one_padding :
    (k0 k1 k2 : ℕ) (output : Bytes)
    → k0 < 64
    → k1 < 64
    → k2 < 64
    → bits k2 0 2 ≡ 0
    → base64_decode_loop (key k0 ∷ key k1 ∷ key k2 ∷ b'=' ∷ []) output ≡ (
      true,
      (output ++ (k0 * 2 ^ 2 + bits k1 4 2) ∷ []) ++ (bits k1 0 4 * 2 ^ 4 + bits k2 2 4) ∷ [],
    )
unfolding base64_decode_loop
decode_one_padding k0 k1 k2 output h0 h1 h2 clear =
    rw (decode_first_two-key k1 h1 output _ k0 h0, (get_code_value-key k1 h1).0)
      (rw (decode_third-key k2 h2 _ _ k1, (get_code_value-key k2 h2).0)
        (unfold decode_fourth in ground arith))

decode_group :
    (k0 k1 k2 k3 : ℕ) (rest output : Bytes)
    → k0 < 64
    → k1 < 64
    → k2 < 64
    → k3 < 64
    → base64_decode_loop (key k0 ∷ key k1 ∷ key k2 ∷ key k3 ∷ rest) output
      ≡ base64_decode_loop rest (
          ((output ++ (k0 * 2 ^ 2 + bits k1 4 2) ∷ []) ++ (bits k1 0 4 * 2 ^ 4 + bits k2 2 4) ∷ [])
          ++ (bits k2 0 2 * 2 ^ 6 + k3) ∷ [])
unfolding base64_decode_loop
decode_group k0 k1 k2 k3 rest output h0 h1 h2 h3 =
    rw (decode_first_two-key k1 h1 output _ k0 h0, (get_code_value-key k1 h1).0)
      (rw (decode_third-key k2 h2 _ _ k1, (get_code_value-key k2 h2).0)
        (decode_fourth-key k3 h3 _ (base64_decode_loop rest) k2))

decode_loop-encode_all :
    (text output : Bytes)
    → All IsByte text
    → base64_decode_loop (encode_all text) output ≡ (true, output ++ text)
unfolding encode_triple
decode_loop-encode_all [] output h = unfold base64_decode_loop in rw (append-nil output)
decode_loop-encode_all (a ∷ []) output (ha, h) =
    let back : bits a 2 6 * 2 ^ 2 + bits (bits a 0 2 * 2 ^ 4) 4 2 ≡ a = omega arith in
    decode_padding (bits a 2 6) (bits a 0 2 * 2 ^ 4) output (omega arith) (omega arith)
      (omega arith)
    ∙ rw back
decode_loop-encode_all (a ∷ b ∷ []) output (ha, (hb, h)) =
    let code1 = bits a 0 2 * 2 ^ 4 + bits b 4 4 in
    let code2 = bits b 0 4 * 2 ^ 2 in
    let back_a : bits a 2 6 * 2 ^ 2 + bits code1 4 2 ≡ a = omega arith in
    let back_b : bits code1 0 4 * 2 ^ 4 + bits code2 2 4 ≡ b = omega arith in
    decode_one_padding (bits a 2 6) code1 code2 output (omega arith) (omega arith) (omega arith)
      (omega arith)
    ∙ rw (back_a, back_b) (rw append_assoc)
decode_loop-encode_all (a ∷ b ∷ c ∷ rest) output (ha, (hb, (hc, h))) =
    let code1 = bits a 0 2 * 2 ^ 4 + bits b 4 4 in
    let code2 = bits b 0 4 * 2 ^ 2 + bits c 6 2 in
    let back_a : bits a 2 6 * 2 ^ 2 + bits code1 4 2 ≡ a = omega arith in
    let back_b : bits code1 0 4 * 2 ^ 4 + bits code2 2 4 ≡ b = omega arith in
    let back_c : bits code2 0 2 * 2 ^ 6 + bits c 0 6 ≡ c = omega arith in
    decode_group (bits a 2 6) code1 code2 (bits c 0 6) (encode_all rest) output (omega arith)
      (omega arith) (omega arith) (omega arith)
    ∙ rw (back_a, back_b, back_c) (decode_loop-encode_all rest _ h ∙ simp append_assoc)

-- Every sequence of bytes that `base64encode` encodes is accepted and given back by `base64Decode`.
pub base64_decode-base64encode :
    (text : Bytes) → All IsByte text → base64_decode (base64encode text) ≡ (true, text)
unfolding base64_decode
base64_decode-base64encode text h =
    rw (base64encode-encode_all text) (decode_loop-encode_all text [] h)
