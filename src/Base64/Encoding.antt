-- ===== src/Base64/Encoding.antt =====
-- http/utility.hpp: the encoder against RFC 4648.
use crow_core.Common.{
  ◌+◌, ◌*◌, ◌/◌, ◌%◌, ◌^◌, ◌≤◌, ◌<◌, Bytes, bits, length, [], ◌∷◌, ◌++◌, append-nil, append_assoc,
  ◌==◌, if◌then◌else◌, ◌≡◌, refl, ◌∙◌, arith, Bool-cases, inl, inr,
}
use crow_core.Base64.{
  Base64Encoder, key, encode_triple, keep_first, keep_second, keep_rest, encode_triples,
  encode_two_left, encode_one_left, encode, finalize,
}

-- RFC 4648, section 4: 24 bits, left to right, as four digits of six bits; the last group is filled
-- up with zero bits, and its missing digits are written `=`.
abbrev pub rfc4648 : Bytes → Bytes
rfc4648 [] = []
rfc4648 (a ∷ []) =
    let n = a * 2 ^ 16 in key (n / 2 ^ 18 % 64) ∷ key (n / 2 ^ 12 % 64) ∷ b'=' ∷ b'=' ∷ []
rfc4648 (a ∷ b ∷ []) =
    let n = a * 2 ^ 16 + b * 2 ^ 8 in
    key (n / 2 ^ 18 % 64) ∷ key (n / 2 ^ 12 % 64) ∷ key (n / 2 ^ 6 % 64) ∷ b'=' ∷ []
rfc4648 (a ∷ b ∷ c ∷ rest) =
    let n = a * 2 ^ 16 + b * 2 ^ 8 + c in
    key (n / 2 ^ 18 % 64)
    ∷ key (n / 2 ^ 12 % 64)
    ∷ key (n / 2 ^ 6 % 64)
    ∷ key (n % 64)
    ∷ rfc4648 rest

-- What the encoder writes for the whole of a text.
abbrev pub encode_all : Bytes → Bytes
encode_all [] = []
encode_all (a ∷ []) = key (bits a 2 6) ∷ key (bits a 0 2 * 2 ^ 4) ∷ b'=' ∷ b'=' ∷ []
encode_all (a ∷ b ∷ []) =
    key (bits a 2 6) ∷ key (bits a 0 2 * 2 ^ 4 + bits b 4 4) ∷ key (bits b 0 4 * 2 ^ 2) ∷ b'=' ∷ []
encode_all (a ∷ b ∷ c ∷ rest) = encode_triple a b c ++ encode_all rest

-- The bytes that an encoder still holds.
unfoldable pub pending : Base64Encoder → Bytes
pending e =
    if e.overflow_count == 0
    then []
    else if e.overflow_count == 1
    then e.overflow1 ∷ []
    else e.overflow1 ∷ e.overflow2 ∷ []

pub record IsValid (e : Base64Encoder) : Type 0 where
  pub at_most_two : e.overflow_count ≤ 2

-- A call that has turned the bytes held and those given into output and the bytes held.
pub record Encodes (held : Bytes) (output : Bytes) (r : Base64Encoder × Bytes) : Type 0 where
  pub valid : IsValid r.0
  pub same :
      (more : Bytes) → r.1 ++ encode_all (pending r.0 ++ more) ≡ output ++ encode_all (held ++ more)

encode_triples-Encodes :
    (e : Base64Encoder) (text output : Bytes)
    → e.overflow_count ≡ 0
    → Encodes text output (encode_triples e text output)
unfolding pending encode_triples keep_rest keep_first keep_second
encode_triples-Encodes e [] output z = record { valid = omega arith; same = λ more. ground arith }
encode_triples-Encodes e (a ∷ []) output z = record {
  valid = ground arith;
  same = λ more. ground arith;
}
encode_triples-Encodes e (a ∷ b ∷ []) output z = record {
  valid = ground arith;
  same = λ more. ground arith;
}
encode_triples-Encodes e (a ∷ b ∷ c ∷ rest) output z =
    let ih = encode_triples-Encodes e rest (output ++ encode_triple a b c) z in
    record {
      valid = ih.valid;
      same = λ more.
          ih.same more ∙ append_assoc output (encode_triple a b c) (encode_all (rest ++ more));
    }

encode_kept-Encodes :
    (e : Base64Encoder) (text output : Bytes)
    → IsValid e
    → length text + e.overflow_count < 3
    → Encodes (pending e ++ text) output (keep_rest e text, output)
unfolding pending keep_rest keep_first keep_second
encode_kept-Encodes e [] output v h = record {
  valid = ground arith;
  same = λ more. rw (append-nil (pending e));
}
encode_kept-Encodes e (a ∷ []) output v h = record {
  valid = ground arith;
  same = λ more. ground arith;
}
encode_kept-Encodes e (a ∷ b ∷ []) output v h = record {
  valid = ground arith;
  same = λ more. ground arith;
}
encode_kept-Encodes e (a ∷ b ∷ c ∷ text) output v h = absurd (omega arith)

encode_two_left-Encodes :
    (e : Base64Encoder) (text output : Bytes)
    → e.overflow_count ≡ 2
    → Encodes (pending e ++ text) output (encode_two_left e text output)
unfolding pending encode_two_left encode_triples
encode_two_left-Encodes e [] output z = encode_kept-Encodes e [] output (omega arith) (omega arith)
encode_two_left-Encodes e (c ∷ rest) output z =
    let ih =
      encode_triples-Encodes (record e { overflow_count = 0 }) rest
        (output ++ encode_triple e.overflow1 e.overflow2 c) refl in
    record {
      valid = ih.valid;
      same = λ more. rw z (
          ih.same more
          ∙ append_assoc output (encode_triple e.overflow1 e.overflow2 c)
              (encode_all (rest ++ more)));
    }

encode_one_left-Encodes :
    (e : Base64Encoder) (text output : Bytes)
    → e.overflow_count ≡ 1
    → Encodes (pending e ++ text) output (encode_one_left e text output)
unfolding pending encode_one_left encode_triples
encode_one_left-Encodes e [] output z = encode_kept-Encodes e [] output (omega arith) (omega arith)
encode_one_left-Encodes e (b ∷ []) output z =
    encode_kept-Encodes e (b ∷ []) output (omega arith) (omega arith)
encode_one_left-Encodes e (b ∷ c ∷ rest) output z =
    let ih =
      encode_triples-Encodes (record e { overflow_count = 0 }) rest
        (output ++ encode_triple e.overflow1 b c) refl in
    record {
      valid = ih.valid;
      same = λ more. rw z (
          ih.same more
          ∙ append_assoc output (encode_triple e.overflow1 b c) (encode_all (rest ++ more)));
    }

pub pending-empty : (e : Base64Encoder) → e.overflow_count ≡ 0 → pending e ≡ []
unfolding pending
pending-empty e z = ground arith

-- Whatever the encoder holds, a call of `encode` turns the bytes held followed by those given into
-- the output that it appends, followed by what it holds afterwards: no byte is lost or doubled.
pub encode-Encodes :
    (e : Base64Encoder) (text output : Bytes)
    → IsValid e
    → Encodes (pending e ++ text) output (encode e text output)
unfolding encode
encode-Encodes e text output v = elim (Bool-cases (e.overflow_count == 2)) [
  | inl two ↦ rw two (encode_two_left-Encodes e text output (ground arith))
  | inr other ↦ elim (Bool-cases (e.overflow_count == 1)) [
    | inl one ↦ rw (other, one) (encode_one_left-Encodes e text output (ground arith))
    | inr fewer ↦
        let z : e.overflow_count ≡ 0 = ground arith in
        rw (other, fewer, pending-empty e z) (encode_triples-Encodes e text output z)
  ]
]

pub finalize_lem :
    (e : Base64Encoder) (output : Bytes)
    → IsValid e
    → (finalize e output).1 ≡ output ++ encode_all (pending e)
unfolding pending finalize
finalize_lem e output v = ground (arith, append-nil output)
