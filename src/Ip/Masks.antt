-- ===== src/Ip/Masks.antt =====
-- utils/ip_utils.hpp: the masks whose bits are counted.
use crow_core.Common.{
  ℕ, ◌<◌, ◌≤◌, Bytes, length, List, [], ◌∷◌, none, some, false, ◌==◌, if◌then◌else◌, ◌≡◌, inl, inr,
  subst, arith, Option-cases, map,
}
use crow_core.Ip.{split_dots, read_byte, mask_byte, mask_loop, ipv4_bitcount}
use crow_core.Ip.Ones.{Ones, mask_byte-Ones, read_byte-bound}
use crow_core.Ip.FourBytes.{address, mask_of, contiguous}

-- The pieces of an address, the bytes that they are read as, and the mask that the bytes make up.
pub record Reads (pieces : List Bytes) (n : ℕ) : Type 0 where
  pub a : ℕ
  pub b : ℕ
  pub c : ℕ
  pub d : ℕ
  pub bytes : map read_byte pieces ≡ some a ∷ some b ∷ some c ∷ some d ∷ []
  pub small : n ≤ 32
  pub contiguous_mask : address a b c d ≡ mask_of n

-- A round of the loop that goes on.
record Round (byte : Bytes) (bytes : List Bytes) (previous_value bits n : ℕ) : Type 0 where
  pub v : ℕ
  pub after : ℕ
  pub read : read_byte byte ≡ some v
  pub ones_there : Ones previous_value v bits after
  pub below : after < 256
  pub rest : mask_loop bytes v after ≡ some n

mask_loop-Round :
    (byte : Bytes) (bytes : List Bytes) (previous_value bits n : ℕ)
    → bits < 256
    → mask_loop (byte ∷ bytes) previous_value bits ≡ some n
    → Round byte bytes previous_value bits n
unfolding mask_loop
mask_loop-Round byte bytes previous_value bits n small e = elim (Option-cases (read_byte byte)) [
  | inl bad ↦ absurd (cc (rw (bad, mask_loop) at e))
  | inr (v', is_byte) ↦ elim (Option-cases (mask_byte previous_value v' bits)) [
    | inl broken ↦ absurd (cc (rw (is_byte, broken, mask_loop) at e))
    | inr (after', counted) ↦
        let o =
          mask_byte-Ones previous_value v' bits after' (read_byte-bound byte v' is_byte) small
            counted in
        record {
          v = v';
          after = after';
          read = is_byte;
          ones_there = o;
          below = omega (arith, o.counted);
          rest = rw (is_byte, counted, mask_loop) at e;
        }
  ]
]

mask_loop-Reads :
    (w x y z : Bytes) (n : ℕ)
    → mask_loop (w ∷ x ∷ y ∷ z ∷ []) 255 0 ≡ some n
    → Reads (w ∷ x ∷ y ∷ z ∷ []) n
unfolding mask_loop
mask_loop-Reads w x y z n e =
    let r1 = mask_loop-Round w (x ∷ y ∷ z ∷ []) 255 0 n (omega arith) e in
    let r2 = mask_loop-Round x (y ∷ z ∷ []) r1.v r1.after n r1.below r1.rest in
    let r3 = mask_loop-Round y (z ∷ []) r2.v r2.after n r2.below r2.rest in
    let r4 = mask_loop-Round z [] r3.v r3.after n r3.below r3.rest in
    let last : r4.after ≡ n = no_more r4.v r4.after r4.rest in
    let o4 = subst (λ k. Ones r3.v r4.v r3.after k) last r4.ones_there in
    let m =
      contiguous r1.v r2.v r3.v r4.v r1.after r2.after r3.after n r1.ones_there r2.ones_there
        r3.ones_there o4 in
    record {
      a = r1.v;
      b = r2.v;
      c = r3.v;
      d = r4.v;
      bytes = rw (r1.read, r2.read, r3.read, r4.read);
      small = m.0;
      contiguous_mask = m.1;
    }
  where
    no_more : (v k : ℕ) → mask_loop [] v k ≡ some n → k ≡ n
    no_more v k e' = cc e'

-- Where the bits of a mask are counted, the text has four pieces that are read as bytes, the bytes
-- together are ones followed by zeros, and the count is the number of ones.
pub ipv4_bitcount-Reads : (ip : Bytes) (n : ℕ) → ipv4_bitcount ip ≡ some n → Reads (split_dots ip) n
unfolding ipv4_bitcount
ipv4_bitcount-Reads ip n e = go (split_dots ip) e
  where
    go :
        (pieces : List Bytes)
        → (if length pieces == 4 then mask_loop pieces 255 0 else none) ≡ some n
        → Reads pieces n
    go [] e' = absurd (cc e')
    go (w ∷ []) e' = absurd (cc e')
    go (w ∷ x ∷ []) e' = absurd (cc e')
    go (w ∷ x ∷ y ∷ []) e' = absurd (cc e')
    go (w ∷ x ∷ y ∷ z ∷ []) e' = mask_loop-Reads w x y z n e'
    go (w ∷ x ∷ y ∷ z ∷ u ∷ more) e' =
        let many : (length (w ∷ x ∷ y ∷ z ∷ u ∷ more) == 4) ≡ false = ground arith in
        absurd (cc (rw many at e'))
