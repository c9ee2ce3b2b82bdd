-- ===== src/Tags/Compatible.antt =====
-- http/utility.hpp, `isParameterTagCompatible`, against the lists of codes that the tags stand for.
use crow_core.Common.{
  ℕ, zero, suc, ◌+◌, ◌*◌, ◌/◌, ◌%◌, ◌<◌, ◌≤◌, List, [], ◌∷◌, All, some, Bool, true, false, ◌&&◌,
  ◌==◌, ◌≡◌, inl, inr, refl, arith, Bool-cases,
}
use crow_core.Tags.{path_as_string, compatible_loop, is_parameter_tag_compatible}

-- The codes of parameters.
abbrev pub IsCode : ℕ → Type 0
IsCode c = (1 ≤ c) × (c < 6)

-- The tag of a list of codes.
abbrev pub pack : List ℕ → ℕ
pack [] = 0
pack (c ∷ cs) = pack cs * 6 + c

-- Two lists of the same length, with the same codes up to paths for strings.
abbrev pub same_codes : List ℕ → List ℕ → Bool
same_codes [] [] = true
same_codes (c ∷ cs) (d ∷ ds) = path_as_string c == path_as_string d && same_codes cs ds
same_codes _ _ = false

compatible_loop-pack :
    (cs ds : List ℕ) (fuel : ℕ)
    → All IsCode cs
    → All IsCode ds
    → pack cs < fuel
    → compatible_loop fuel (pack cs) (pack ds) ≡ some (same_codes cs ds)
unfolding compatible_loop
compatible_loop-pack cs ds zero h k f = absurd (omega arith)
compatible_loop-pack [] [] (suc fuel) h k f = refl
compatible_loop-pack [] (d ∷ ds) (suc fuel) h (kd, k) f =
    let used : (pack ds * 6 + d == 0) ≡ false = ground arith in rw used
compatible_loop-pack (c ∷ cs) [] (suc fuel) (hc, h) k f =
    let used : (pack cs * 6 + c == 0) ≡ false = ground arith in rw used
compatible_loop-pack (c ∷ cs) (d ∷ ds) (suc fuel) (hc, h) (kd, k) f =
    let used_a : (pack cs * 6 + c == 0) ≡ false = ground arith in
    let used_b : (pack ds * 6 + d == 0) ≡ false = ground arith in
    let digit_a : (pack cs * 6 + c) % 6 ≡ c = omega arith in
    let digit_b : (pack ds * 6 + d) % 6 ≡ d = omega arith in
    let rest_a : (pack cs * 6 + c) / 6 ≡ pack cs = omega arith in
    let rest_b : (pack ds * 6 + d) / 6 ≡ pack ds = omega arith in
    rw (used_a, used_b, digit_a, digit_b, rest_a, rest_b)
      (elim (Bool-cases (path_as_string c == path_as_string d)) [
        | inl same ↦ rw same (compatible_loop-pack cs ds fuel h k (omega arith))
        | inr differ ↦ rw differ
      ])

-- `isParameterTagCompatible` ends, and tells whether the two lists of codes are the same up to paths
-- for strings.
pub is_parameter_tag_compatible-pack :
    (cs ds : List ℕ)
    → All IsCode cs
    → All IsCode ds
    → is_parameter_tag_compatible (pack cs) (pack ds) ≡ some (same_codes cs ds)
unfolding is_parameter_tag_compatible
is_parameter_tag_compatible-pack cs ds h k =
    compatible_loop-pack cs ds (suc (pack cs)) h k (omega arith)
