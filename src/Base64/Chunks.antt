-- ===== src/Base64/Chunks.antt =====
-- http/utility.hpp and http/http_base64_file_body.hpp: base64 in one piece and by chunks.
use crow_core.Common.{
  ℕ, ◌+◌, ◌*◌, ◌/◌, ◌%◌, ◌^◌, Bytes, IsByte, bits, length, All, List, [], ◌∷◌, ◌++◌, true, false,
  append-nil, append_assoc, ◌≡◌, refl, sym, ap, ◌∙◌, arith,
}
use crow_core.Base64.{
  Base64Encoder, new_encoder, encode_triple, encode, base64encode, encoded_size, writer_get,
}
use crow_core.Base64.Encoding.{
  rfc4648, encode_all, pending, pending-empty, IsValid, Encodes, encode-Encodes, finalize_lem,
}

encode_all-rfc4648 : (text : Bytes) → All IsByte text → encode_all text ≡ rfc4648 text
unfolding encode_triple
encode_all-rfc4648 [] h = refl
encode_all-rfc4648 (a ∷ []) h =
    let n = a * 2 ^ 16 in
    let k0 : bits a 2 6 ≡ n / 2 ^ 18 % 64 = omega arith in
    let k1 : bits a 0 2 * 2 ^ 4 ≡ n / 2 ^ 12 % 64 = omega arith in rw (k0, k1)
encode_all-rfc4648 (a ∷ b ∷ []) h =
    let n = a * 2 ^ 16 + b * 2 ^ 8 in
    let k0 : bits a 2 6 ≡ n / 2 ^ 18 % 64 = omega arith in
    let k1 : bits a 0 2 * 2 ^ 4 + bits b 4 4 ≡ n / 2 ^ 12 % 64 = omega arith in
    let k2 : bits b 0 4 * 2 ^ 2 ≡ n / 2 ^ 6 % 64 = omega arith in rw (k0, k1, k2)
encode_all-rfc4648 (a ∷ b ∷ c ∷ rest) (ha, (hb, (hc, h))) =
    let n = a * 2 ^ 16 + b * 2 ^ 8 + c in
    let k0 : bits a 2 6 ≡ n / 2 ^ 18 % 64 = omega arith in
    let k1 : bits a 0 2 * 2 ^ 4 + bits b 4 4 ≡ n / 2 ^ 12 % 64 = omega arith in
    let k2 : bits b 0 4 * 2 ^ 2 + bits c 6 2 ≡ n / 2 ^ 6 % 64 = omega arith in
    let k3 : bits c 0 6 ≡ n % 64 = omega arith in rw (k0, k1, k2, k3, encode_all-rfc4648 rest h)

pub base64encode-encode_all : (text : Bytes) → base64encode text ≡ encode_all text
unfolding base64encode
base64encode-encode_all text =
    let r = encode-Encodes new_encoder text [] (omega arith) in
    finalize_lem (encode new_encoder text []).0 (encode new_encoder text []).1 r.valid ∙ whole r
  where
    whole :
        Encodes (pending new_encoder ++ text) [] (encode new_encoder text [])
        → (encode new_encoder text []).1 ++ encode_all (pending (encode new_encoder text []).0)
          ≡ encode_all text
    whole r =
        rw (append-nil (pending (encode new_encoder text []).0)) at
          (rw (append-nil text) at (rw (pending-empty new_encoder refl) at (r.same [])))

-- `base64encode` writes the RFC 4648 encoding of its bytes.
pub base64encode-rfc4648 : (text : Bytes) → All IsByte text → base64encode text ≡ rfc4648 text
base64encode-rfc4648 text h = base64encode-encode_all text ∙ encode_all-rfc4648 text h

-- The buffers that the calls of `get` hand out for the chunks of a file, one after another.
abbrev pub write_chunks : Base64Encoder → Bytes → List Bytes → Bytes
write_chunks e chunk [] = (writer_get e chunk false).1
write_chunks e chunk (next ∷ chunks) =
    (writer_get e chunk true).1 ++ write_chunks (writer_get e chunk true).0 next chunks

abbrev pub flatten : List Bytes → Bytes
flatten [] = []
flatten (chunk ∷ chunks) = chunk ++ flatten chunks

write_chunks-encode_all :
    (e : Base64Encoder) (chunk : Bytes) (chunks : List Bytes)
    → IsValid e
    → write_chunks e chunk chunks ≡ encode_all (pending e ++ chunk ++ flatten chunks)
unfolding writer_get
write_chunks-encode_all e chunk [] v =
    let r = encode-Encodes e chunk [] v in
    let (e', buf) = encode e chunk [] in
    finalize_lem e' buf r.valid ∙ rw (append-nil (pending e')) at (r.same [])
write_chunks-encode_all e chunk (next ∷ chunks) v =
    let r = encode-Encodes e chunk [] v in
    let (e', buf) = encode e chunk [] in
    ap (◌++◌ buf) (write_chunks-encode_all e' next chunks r.valid)
    ∙ ap (λ s. buf ++ encode_all s) (append_assoc (pending e') next (flatten chunks))
    ∙ r.same (next ++ flatten chunks)

-- However a file is cut into chunks, the buffers that `get` hands out, put together, are the base64
-- encoding of the whole file.
pub write_chunks-base64encode :
    (chunk : Bytes) (chunks : List Bytes)
    → write_chunks new_encoder chunk chunks ≡ base64encode (flatten (chunk ∷ chunks))
write_chunks-base64encode chunk chunks =
    write_chunks-encode_all new_encoder chunk chunks (omega arith)
    ∙ rw (pending-empty new_encoder refl) (sym (base64encode-encode_all (flatten (chunk ∷ chunks))))

length-encode_triple : (a b c : ℕ) (s : Bytes) → length (encode_triple a b c ++ s) ≡ 4 + length s
unfolding encode_triple
length-encode_triple a b c s = omega arith

length-encode_all : (text : Bytes) → length (encode_all text) ≡ encoded_size (length text)
unfolding encoded_size
length-encode_all [] = refl
length-encode_all (a ∷ []) = refl
length-encode_all (a ∷ b ∷ []) = refl
length-encode_all (a ∷ b ∷ c ∷ rest) =
    omega (arith, length-encode_triple a b c (encode_all rest), length-encode_all rest)

-- `encodedSize`, which is also the content length that `Base64FileBody::size` announces, is the
-- exact number of characters written.
pub length-base64encode : (text : Bytes) → length (base64encode text) ≡ encoded_size (length text)
length-base64encode text = ap length (base64encode-encode_all text) ∙ length-encode_all text
