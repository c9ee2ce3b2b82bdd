-- ===== src/Ip/FourBytes.antt =====
-- utils/ip_utils.hpp: four bytes of a mask, each with its ones first.
use crow_core.Common.{
  ℕ, ◌+◌, ◌-◌, ◌*◌, ◌^◌, ◌≤◌, true, ◌==◌, ◌≡◌, ◌≢◌, inl, inr, refl, sym, ap, ◌∙◌, arith, Bool-cases,
  all_below, all_below_sound,
}
use crow_core.Ip.Ones.{Ones}

-- The 32 bits of four bytes.
abbrev pub address : ℕ → ℕ → ℕ → ℕ → ℕ
address a b c d = a * 2 ^ 24 + b * 2 ^ 16 + c * 2 ^ 8 + d

-- `n` ones, then zeros.
abbrev pub mask_of : ℕ → ℕ
mask_of n = 2 ^ 32 - 2 ^ (32 - n)

abbrev ones : ℕ → ℕ
ones k = 256 - 2 ^ (8 - k)

first_table : all_below 9 (λ k. address (ones k) 0 0 0 == mask_of (0 + k)) ≡ true
unfolding all_below
first_table = refl

second_table : all_below 9 (λ k. address 255 (ones k) 0 0 == mask_of (8 + k)) ≡ true
unfolding all_below
second_table = refl

third_table : all_below 9 (λ k. address 255 255 (ones k) 0 == mask_of (16 + k)) ≡ true
unfolding all_below
third_table = refl

fourth_table : all_below 9 (λ k. address 255 255 255 (ones k) == mask_of (24 + k)) ≡ true
unfolding all_below
fourth_table = refl

from_table : (f g : ℕ → ℕ) (k n : ℕ) → all_below 9 (λ i. f i == g i) ≡ true → k ≤ 8 → f k ≡ g k
from_table f g k n table small =
    let test = all_below_sound 9 (λ i. f i == g i) k table (omega arith) in ground (arith, test)

module _ (a b c d n1 n2 n3 n : ℕ) (oa : Ones 255 a 0 n1) (ob : Ones a b n1 n2) (oc : Ones b c n2 n3)
    (od : Ones c d n3 n) where
  abbrev Contiguous : Type 0
  Contiguous = (n ≤ 32) × (address a b c d ≡ mask_of n)

  -- All ones up to the byte in question, whose own are `k`; the others are zero.
  finish :
      (full k : ℕ)
      → full + k ≤ 32
      → n ≡ full + k
      → address a b c d ≡ mask_of (full + k)
      → Contiguous
  finish full k small count same = (omega arith, same ∙ ap mask_of (sym count))

  first_byte : a ≢ 255 → Contiguous
  first_byte other =
      let b0 = ob.follows other in
      let kb = ob.zero_is b0 in
      let c0 = oc.follows (λ z. omega (arith, b0, z)) in
      let kc = oc.zero_is c0 in
      let d0 = od.follows (λ z. omega (arith, c0, z)) in
      let kd = od.zero_is d0 in
      let t =
        from_table (λ k. address (ones k) 0 0 0) (λ k. mask_of (0 + k)) oa.k 0 first_table
          oa.small in
      finish 0 oa.k (omega (arith, oa.small))
        (omega (arith, kb, kc, kd, oa.small, oa.counted, ob.counted, oc.counted, od.counted))
        (omega (arith, t, oa.value, b0, c0, d0))

  second_byte : a ≡ 255 → b ≢ 255 → Contiguous
  second_byte fa other =
      let ka = oa.full_is fa in
      let c0 = oc.follows other in
      let kc = oc.zero_is c0 in
      let d0 = od.follows (λ z. omega (arith, c0, z)) in
      let kd = od.zero_is d0 in
      let t =
        from_table (λ k. address 255 (ones k) 0 0) (λ k. mask_of (8 + k)) ob.k 0 second_table
          ob.small in
      finish 8 ob.k (omega (arith, ob.small))
        (omega (arith, ka, kc, kd, ob.small, oa.counted, ob.counted, oc.counted, od.counted))
        (omega (arith, t, ob.value, fa, c0, d0))

  third_byte : a ≡ 255 → b ≡ 255 → c ≢ 255 → Contiguous
  third_byte fa fb other =
      let ka = oa.full_is fa in
      let kb = ob.full_is fb in
      let d0 = od.follows other in
      let kd = od.zero_is d0 in
      let t =
        from_table (λ k. address 255 255 (ones k) 0) (λ k. mask_of (16 + k)) oc.k 0 third_table
          oc.small in
      finish 16 oc.k (omega (arith, oc.small))
        (omega (arith, ka, kb, kd, oc.small, oa.counted, ob.counted, oc.counted, od.counted))
        (omega (arith, t, oc.value, fa, fb, d0))

  fourth_byte : a ≡ 255 → b ≡ 255 → c ≡ 255 → Contiguous
  fourth_byte fa fb fc =
      let ka = oa.full_is fa in
      let kb = ob.full_is fb in
      let kc = oc.full_is fc in
      let t =
        from_table (λ k. address 255 255 255 (ones k)) (λ k. mask_of (24 + k)) od.k 0 fourth_table
          od.small in
      finish 24 od.k (omega (arith, od.small))
        (omega (arith, ka, kb, kc, od.small, oa.counted, ob.counted, oc.counted, od.counted))
        (omega (arith, t, od.value, fa, fb, fc))

  pub contiguous : Contiguous
  contiguous = elim (Bool-cases (a == 255)) [
    | inr first ↦ first_byte (ground arith)
    | inl full_a ↦ elim (Bool-cases (b == 255)) [
      | inr second ↦ second_byte (ground arith) (ground arith)
      | inl full_b ↦ elim (Bool-cases (c == 255)) [
        | inr third ↦ third_byte (ground arith) (ground arith) (ground arith)
        | inl full_c ↦ fourth_byte (ground arith) (ground arith) (ground arith)
      ]
    ]
  ]
