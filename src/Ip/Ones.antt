-- ===== src/Ip/Ones.antt =====
-- utils/ip_utils.hpp: the bits that are counted of one byte of a mask.
use crow_core.Common.{
  ℕ, zero, suc, ◌+◌, ◌-◌, ◌/◌, ◌%◌, ◌^◌, ◌<◌, ◌≤◌, Bytes, [], ◌∷◌, Option, none, some, Bool, true,
  false, not, ◌&&◌, ◌||◌, ◌==◌, leb, ◌≡◌, ◌≢◌, inl, inr, refl, sym, ap, ◌∙◌, arith, Bool-cases,
  all_below, all_below_sound, signed_of, skip_spaces,
}
use crow_core.Ip.{byte_of, number_of, c_str, read_byte, count_bits, mask_byte}

byte_of-bound : (o : Option (Bool × ℕ × Bytes)) (v : ℕ) → byte_of o ≡ some v → v < 256
byte_of-bound none v e = absurd (cc e)
byte_of-bound (some (negative, n, [])) v e = ground arith
byte_of-bound (some (negative, n, c ∷ rest)) v e = absurd (cc e)

number_of-bound : (s : Bytes) (v : ℕ) → number_of s ≡ some v → v < 256
number_of-bound [] v e = ground arith
number_of-bound (c ∷ s) v e = byte_of-bound (signed_of (skip_spaces (c ∷ s))) v e

pub read_byte-bound : (s : Bytes) (v : ℕ) → read_byte s ≡ some v → v < 256
unfolding read_byte
read_byte-bound [] v e = absurd (cc e)
read_byte-bound (c ∷ s) v e = number_of-bound (c_str (c ∷ s)) v e

abbrev shift : ℕ → Option ℕ → Option ℕ
shift b none = none
shift b (some k) = some ((b + k) % 256)

-- The count does not depend on what has been counted before.
count_bits-shift :
    (value m : ℕ) (hit : Bool) (b k : ℕ)
    → count_bits value m hit ((b + k) % 256) ≡ shift b (count_bits value m hit k)
unfolding count_bits
count_bits-shift value zero hit b k = refl
count_bits-shift value (suc m) hit b k = elim (Bool-cases (value / 2 ^ m % 2 == 0)) [
  | inl clear ↦ rw clear (count_bits-shift value m true b k)
  | inr isset ↦ elim (Bool-cases hit) [
    | inl late ↦ rw (isset, late)
    | inr early ↦
        let same : ((b + k) % 256 + 1) % 256 ≡ (b + (k + 1) % 256) % 256 = omega arith in
        rw (isset, early, same) (count_bits-shift value m false b ((k + 1) % 256))
  ]
]

-- A byte that is counted has its ones first.
abbrev is_mask : ℕ → Option ℕ → Bool
is_mask v none = true
is_mask v (some k) =
    leb k 8 && (v == 256 - 2 ^ (8 - k) && ((not (v == 0) || k == 0) && (not (v == 255) || k == 8)))

mask_table : all_below 256 (λ v. is_mask v (count_bits v 8 false 0)) ≡ true
unfolding all_below count_bits
mask_table = refl

-- A byte with its ones first, and the count before and after it.
pub record Ones (previous_value v bits bits' : ℕ) : Type 0 where
  pub k : ℕ
  pub small : k ≤ 8
  pub value : v ≡ 256 - 2 ^ (8 - k)
  pub counted : bits' ≡ (bits + k) % 256
  pub zero_is : v ≡ 0 → k ≡ 0
  pub full_is : v ≡ 255 → k ≡ 8
  pub follows : previous_value ≢ 255 → v ≡ 0

Ones-of :
    (previous_value v bits bits' : ℕ) (o : Option ℕ)
    → is_mask v o ≡ true
    → shift bits o ≡ some bits'
    → (previous_value ≢ 255 → v ≡ 0)
    → Ones previous_value v bits bits'
Ones-of previous_value v bits bits' none m e f = absurd (cc e)
Ones-of previous_value v bits bits' (some n) m e f = record {
  k = n;
  small = ground (arith, m);
  value = ground (arith, m);
  counted = cc e;
  zero_is = λ z. ground (arith, m, z);
  full_is = λ z. ground (arith, m, z);
  follows = f;
}

pub mask_byte-Ones :
    (previous_value v bits bits' : ℕ)
    → v < 256
    → bits < 256
    → mask_byte previous_value v bits ≡ some bits'
    → Ones previous_value v bits bits'
unfolding mask_byte
mask_byte-Ones previous_value v bits bits' small b e =
    elim (Bool-cases (not (previous_value == 255) && not (v == 0))) [
      | inl broken ↦ absurd (cc (rw broken at e))
      | inr kept ↦
          let start : (bits + 0) % 256 ≡ bits = omega arith in
          let counted : shift bits (count_bits v 8 false 0) ≡ some bits' =
            sym (count_bits-shift v 8 false bits 0)
            ∙ (ap (λ n. count_bits v 8 false n) start ∙ rw kept at e) in
          Ones-of previous_value v bits bits' (count_bits v 8 false 0)
            (all_below_sound 256 (λ w. is_mask w (count_bits w 8 false 0)) v mask_table small)
            counted (λ ne. ground (arith, kept, ne))
    ]
