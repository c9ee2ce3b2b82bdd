-- ===== src/HumanSort/Order.antt =====
-- include/human_sort.hpp: `alphanumComp` and the order of its arguments.
use crow_core.Common.{
  ℕ, zero, suc, ◌+◌, ◌-◌, ◌*◌, ◌%◌, ◌<◌, ◌≤◌, Bytes, length, [], ◌∷◌, Option, none, some, true, leb,
  ℤ, pos, negsuc, neg_of, is_digit, scan_digits, ◌≡◌, ◌≢◌, inl, inr, refl, ap, arith, Bool-cases,
}
use crow_core.HumanSort.{
  difference, unless_zero, simple_is_digit, number_at, comp_loop, alphanum_comp,
}

-- The opposite of a number.
abbrev pub opposite : ℤ → ℤ
opposite (pos n) = neg_of n
opposite (negsuc n) = pos (suc n)

abbrev pub opposite_result : Option ℤ → Option ℤ
opposite_result none = none
opposite_result (some diff) = some (opposite diff)

neg_of-nonzero : (n : ℕ) → n ≢ 0 → neg_of n ≡ negsuc (n - 1)
neg_of-nonzero zero h = absurd (h refl)
neg_of-nonzero (suc n) h = ap negsuc (omega arith)

opposite-difference : (a b : ℕ) → opposite (difference a b) ≡ difference b a
unfolding difference
opposite-difference a b = elim (Bool-cases (leb b a)) [
  | inl above ↦ elim (Bool-cases (leb a b)) [
    | inl also ↦
        let none_left : a - b ≡ 0 = ground arith in
        let none_right : b - a ≡ 0 = ground arith in rw (above, also, none_left, none_right) refl
    | inr strict ↦ rw (above, strict) (neg_of-nonzero (a - b) (ground arith))
  ]
  | inr below ↦
      let above : leb a b ≡ true = ground arith in
      let larger : suc (b - a - 1) ≡ b - a = ground arith in rw (below, above) (ap pos larger)
]

scan_digits-shorter : (n : ℕ) (s : Bytes) → length (scan_digits n s).1 ≤ length s
unfolding scan_digits
scan_digits-shorter n [] = omega arith
scan_digits-shorter n (c ∷ s) = elim (Bool-cases (is_digit c)) [
  | inl digit ↦ rw digit (omega (arith, scan_digits-shorter (n * 10 + (c - b'0')) s))
  | inr other ↦ rw other (omega arith)
]

number_at-shorter :
    (c : ℕ) (s : Bytes) → simple_is_digit c ≡ true → length (number_at (c ∷ s)).1 ≤ length s
unfolding number_at simple_is_digit scan_digits
number_at-shorter c s digit = rw digit (scan_digits-shorter (0 * 10 + (c - b'0')) s)

opposite-unless_zero :
    (diff diff' : ℤ) (next next' : Option ℤ)
    → opposite diff ≡ diff'
    → opposite_result next ≡ next'
    → opposite_result (unless_zero diff next) ≡ unless_zero diff' next'
opposite-unless_zero (pos zero) diff' next next' e f = rw (← e) f
opposite-unless_zero (pos (suc n)) diff' next next' e f = rw (← e)
opposite-unless_zero (negsuc n) diff' next next' e f = rw (← e)

opposite-comp_loop :
    (fuel : ℕ) (left right : Bytes)
    → opposite_result (comp_loop fuel left right) ≡ comp_loop fuel right left
unfolding comp_loop
opposite-comp_loop zero left right = refl
opposite-comp_loop (suc fuel) [] [] = refl
opposite-comp_loop (suc fuel) (c ∷ l) [] = refl
opposite-comp_loop (suc fuel) [] (d ∷ r) = refl
opposite-comp_loop (suc fuel) (c ∷ l) (d ∷ r) = elim (Bool-cases (simple_is_digit c)) [
  | inl left ↦ elim (Bool-cases (simple_is_digit d)) [
    | inl right ↦
        rw (left, right, left, comp_loop)
          (opposite-unless_zero _ _ _ _
            (opposite-difference (number_at (c ∷ l)).0 (number_at (d ∷ r)).0)
            (opposite-comp_loop fuel (number_at (c ∷ l)).1 (number_at (d ∷ r)).1))
    | inr right ↦ rw (left, right, left, comp_loop) refl
  ]
  | inr left ↦ elim (Bool-cases (simple_is_digit d)) [
    | inl right ↦ rw (left, right, left, comp_loop) refl
    | inr right ↦
        rw (left, right, left, comp_loop)
          (opposite-unless_zero _ _ _ _ (opposite-difference ((c + 128) % 256) ((d + 128) % 256))
            (opposite-comp_loop fuel l r))
  ]
]

-- Swapping the texts changes the sign of the result, and nothing else.
pub opposite-alphanum_comp :
    (left right : Bytes) → opposite_result (alphanum_comp left right) ≡ alphanum_comp right left
unfolding alphanum_comp
opposite-alphanum_comp left right =
    let total : suc (length left + length right) ≡ suc (length right + length left) = omega arith in
    rw total (opposite-comp_loop (suc (length right + length left)) left right)

unless_zero-ends :
    (diff : ℤ) (next : Option ℤ)
    → (result : ℤ) × (next ≡ some result)
    → (result : ℤ) × (unless_zero diff next ≡ some result)
unless_zero-ends (pos zero) next h = h
unless_zero-ends (pos (suc n)) next h = (pos (suc n), refl)
unless_zero-ends (negsuc n) next h = (negsuc n, refl)

comp_loop-ends :
    (fuel : ℕ) (left right : Bytes)
    → length left < fuel
    → (result : ℤ) × (comp_loop fuel left right ≡ some result)
unfolding comp_loop
comp_loop-ends zero left right f = absurd (omega arith)
comp_loop-ends (suc fuel) [] [] f = (pos 0, refl)
comp_loop-ends (suc fuel) (c ∷ l) [] f = (pos 1, refl)
comp_loop-ends (suc fuel) [] (d ∷ r) f = (negsuc 0, refl)
comp_loop-ends (suc fuel) (c ∷ l) (d ∷ r) f = elim (Bool-cases (simple_is_digit c)) [
  | inl left ↦ elim (Bool-cases (simple_is_digit d)) [
    | inl right ↦
        rw (left, right, comp_loop)
          (unless_zero-ends _ _ (
            comp_loop-ends fuel (number_at (c ∷ l)).1 (number_at (d ∷ r)).1
              (omega (arith, number_at-shorter c l left))))
    | inr right ↦ (negsuc 0, rw (left, right, comp_loop) refl)
  ]
  | inr left ↦ elim (Bool-cases (simple_is_digit d)) [
    | inl right ↦ (pos 1, rw (left, right, comp_loop) refl)
    | inr right ↦
        rw (left, right, comp_loop) (unless_zero-ends _ _ (comp_loop-ends fuel l r (omega arith)))
  ]
]

-- `alphanumComp` ends for all texts.
pub alphanum_comp-ends :
    (left right : Bytes) → (result : ℤ) × (alphanum_comp left right ≡ some result)
unfolding alphanum_comp
alphanum_comp-ends left right =
    comp_loop-ends (suc (length left + length right)) left right (omega arith)
