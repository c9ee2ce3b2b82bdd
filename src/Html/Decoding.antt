-- ===== src/Html/Decoding.antt =====
-- include/json_html_serializer.hpp: the states of `decode` and the code points in them.
use crow_core.Common.{
  ℕ, ◌+◌, ◌-◌, ◌*◌, ◌%◌, ◌^◌, ◌≤◌, ◌<◌, get_or, [], ◌∷◌, Bool, true, false, not, ◌&&◌, ◌||◌, ltb,
  leb, ◌==◌, all_below, all_below_sound, ◌≡◌, refl, ap, subst, Bool-cases, inl, inr, arith, ◌⊎◌,
}
use crow_core.Html.{utf8d, decode}

-- The least code point that a state can come to, by what is read so far, and a bound for what is read.
abbrev pub least : ℕ → ℕ
least state = get_or (128 ∷ 0 ∷ 2 ∷ 1 ∷ 0 ∷ 1 ∷ 0 ∷ 1 ∷ 1 ∷ []) state 0

abbrev pub bound : ℕ → ℕ
bound state = get_or (2097152 ∷ 0 ∷ 32768 ∷ 512 ∷ 16 ∷ 16 ∷ 8 ∷ 8 ∷ 8 ∷ []) state 0

-- Where a byte goes from the first state, and from the others.
abbrev first_ok : ℕ → Bool
first_ok byte =
    let type = get_or utf8d byte 0 in
    let next = get_or utf8d (256 + type) 0 in
    let code_point = byte % 2 ^ (8 - type) in
    (next == 1)
    || (((next == 0) && (code_point == byte))
        || (not (next == 0)
            && (leb next 8 && (leb (least next) code_point && ltb code_point (bound next)))))

abbrev later_ok : ℕ → ℕ → Bool
later_ok state byte =
    let next = get_or utf8d (256 + state * 16 + get_or utf8d byte 0) 0 in
    (next == 1)
    || (leb next 8
        && (leb (least next) (byte % 64 + least state * 64) && leb (bound state * 64) (bound next)))

first_table : all_below 256 first_ok ≡ true
unfolding all_below utf8d
first_table = refl

later_table : all_below 7 (λ s. all_below 256 (later_ok (s + 2))) ≡ true
unfolding all_below utf8d
later_table = refl

small_table : all_below 9 (λ s. leb (bound s) (2 ^ 21)) ≡ true
unfolding all_below
small_table = refl

bound_small : (s : ℕ) → s ≤ 8 → bound s ≤ 2 ^ 21
bound_small s h =
    let fits = all_below_sound 9 (λ s. leb (bound s) (2 ^ 21)) s small_table (omega arith) in
    ground (arith, fits)

-- A state between two characters, or within one whose bytes so far are in the state's range.
abbrev pub Within : ℕ → ℕ → Type 0
Within state code_point =
    ((2 ≤ state) × (state ≤ 8)) × (least state ≤ code_point) × (code_point < bound state)

abbrev pub IsGood : ℕ → ℕ → Type 0
IsGood state code_point = (state ≡ 0) ⊎ Within state code_point

-- After a byte: it is refused, or it ends a character, or it is within one.
abbrev pub IsDecoded : ℕ → ℕ → ℕ → Type 0
IsDecoded byte state code_point =
    (state ≡ 1)
    ⊎ (((state ≡ 0) × ((code_point ≡ byte) ⊎ (128 ≤ code_point))) ⊎ Within state code_point)

IsDecoded-first :
    (byte next code_point : ℕ)
    → ((next == 1)
        || (((next == 0) && (code_point == byte))
            || (not (next == 0)
                && (leb next 8 && (leb (least next) code_point && ltb code_point (bound next))))))
      ≡ true
    → IsDecoded byte next code_point
IsDecoded-first byte next code_point h = elim (Bool-cases (next == 1)) [
  | inl refused ↦ inl (ground (arith, refused))
  | inr fine ↦ elim (Bool-cases (next == 0)) [
    | inl ends ↦ inr (inl (ground (arith, ends), inl (ground (arith, h, fine, ends))))
    | inr inside ↦ inr (
        inr (
          (ground (arith, h, fine, inside), ground (arith, h, fine, inside)),
          ground (arith, h, fine, inside),
          ground (arith, h, fine, inside),
        ))
  ]
]

IsDecoded-later :
    (byte state next code_point : ℕ)
    → ((next == 1)
        || (leb next 8
            && (leb (least next) (byte % 64 + least state * 64)
                && leb (bound state * 64) (bound next))))
      ≡ true
    → least state ≤ code_point
    → code_point < bound state
    → IsDecoded byte next (byte % 64 + code_point * 64 % 2 ^ 32)
IsDecoded-later byte state next code_point h low high = elim (Bool-cases (next == 1)) [
  | inl refused ↦ inl (ground (arith, refused))
  | inr fine ↦
      let small : next ≤ 8 = ground (arith, h, fine) in
      let at_least : least next ≤ byte % 64 + least state * 64 = ground (arith, h, fine) in
      let at_most : bound state * 64 ≤ bound next = ground (arith, h, fine) in
      let limit = bound_small next small in
      elim (Bool-cases (next == 0)) [
        | inl ends ↦
            let is_zero : next ≡ 0 = ground (arith, ends) in
            let least_zero : least next ≡ 128 = ap least is_zero in
            inr
              (inl (is_zero, inr (omega (arith, least_zero, at_least, at_most, limit, low, high))))
        | inr inside ↦ inr (
            inr (
              (ground (arith, fine, inside), small),
              omega (arith, at_least, at_most, limit, low, high),
              omega (arith, at_least, at_most, limit, low, high),
            ))
      ]
]

-- What a byte makes of a state that is good.
pub decode-IsDecoded :
    (state code_point byte : ℕ)
    → IsGood state code_point
    → byte < 256
    → IsDecoded byte (decode state code_point byte).0 (decode state code_point byte).1
unfolding decode
decode-IsDecoded state code_point byte (inl start) small = rw start (
    IsDecoded-first byte (get_or utf8d (256 + get_or utf8d byte 0) 0)
      (byte % 2 ^ (8 - get_or utf8d byte 0)) (all_below_sound 256 first_ok byte first_table small))
decode-IsDecoded state code_point byte (inr ((low, high), least_in, bound_in)) small =
    let not_past : ltb 8 state ≡ false = ground arith in
    let not_first : (state == 0) ≡ false = ground arith in
    let back : state - 2 + 2 ≡ state = omega arith in
    let row =
      all_below_sound 256 (later_ok (state - 2 + 2)) byte
        (all_below_sound 7 (λ s. all_below 256 (later_ok (s + 2))) (state - 2) later_table
          (omega arith))
        small in
    let ok : later_ok state byte ≡ true = subst (λ s. later_ok s byte ≡ true) back row in
    rw (not_past, not_first)
      (IsDecoded-later byte state (get_or utf8d (256 + state * 16 + get_or utf8d byte 0) 0)
        code_point ok least_in bound_in)
