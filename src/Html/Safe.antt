-- ===== src/Html/Safe.antt =====
-- include/json_html_serializer.hpp: the characters that `dumpEscaped` writes.
use crow_core.Common.{
  ℕ, ◌+◌, ◌/◌, ◌%◌, ◌^◌, ◌≤◌, ◌<◌, Bytes, [], ◌∷◌, ◌++◌, Bool, true, false, not, ◌&&◌, ◌||◌, ltb,
  leb, ◌==◌, if◌then◌else◌, All, All-append, all_below, all_below_sound, ◌≡◌, ◌≢◌, refl, inl, inr,
  arith, ◌⊎◌,
}
use crow_core.Html.{hex_digit, unicode, escape}

-- A printable character that neither begins nor ends a tag or an attribute's value.
abbrev pub IsSafe : ℕ → Type 0
IsSafe c = (32 ≤ c) × (c < 127) × (c ≢ b'<') × (c ≢ b'>') × (c ≢ b'"') × (c ≢ b'\'')

abbrev pub is_safe : ℕ → Bool
is_safe c =
    leb 32 c
    && (ltb c 127
        && (not (c == b'<') && (not (c == b'>') && (not (c == b'"') && not (c == b'\'')))))

is_safe_sound : (c : ℕ) → is_safe c ≡ true → IsSafe c
is_safe_sound c h = (
  ground (arith, h),
  ground (arith, h),
  ground (arith, h),
  ground (arith, h),
  ground (arith, h),
  ground (arith, h),
)

abbrev pub all_safe : Bytes → Bool
all_safe [] = true
all_safe (c ∷ text) = is_safe c && all_safe text

pub all_safe_sound : (text : Bytes) → all_safe text ≡ true → All IsSafe text
all_safe_sound [] h = tt
all_safe_sound (c ∷ text) h =
    let first : is_safe c ≡ true = ground (arith, h) in
    let rest : all_safe text ≡ true = ground (arith, h) in
    (is_safe_sound c first, all_safe_sound text rest)

digit_table : all_below 16 (λ d. is_safe (hex_digit d)) ≡ true
unfolding all_below
digit_table = refl

hex_digit-IsSafe : (d : ℕ) → d < 16 → IsSafe (hex_digit d)
hex_digit-IsSafe d small =
    is_safe_sound (hex_digit d)
      (all_below_sound 16 (λ n. is_safe (hex_digit n)) d digit_table small)

unicode-IsSafe : (n : ℕ) → All IsSafe (unicode n)
unicode-IsSafe n =
    let m = n % 2 ^ 16 in
    let digit = λ (d : ℕ). hex_digit-IsSafe (d % 16) (omega arith) in
    (
      is_safe_sound b'\\' refl,
      (
        is_safe_sound b'u' refl,
        (digit (m / 4096), (digit (m / 256), (digit (m / 16), (digit m, tt)))),
      ),
    )

choice-IsSafe :
    (test : Bool) (text : Bytes) (extra : ℕ) (other : Bytes × ℕ)
    → all_safe text ≡ true
    → (test ≡ false → All IsSafe other.0)
    → All IsSafe (if◌then◌else◌ {A = Bytes × ℕ} test (text, extra) other).0
choice-IsSafe true text extra other h rest = all_safe_sound text h
choice-IsSafe false text extra other h rest = rest refl

abbrev unicode_text : ℕ → Bytes × ℕ
unicode_text n =
    if leb n 65535
    then (unicode n, 1)
    else (unicode (55232 + n / 1024) ++ unicode (56320 + n % 1024), 1)

unicode_choice :
    (test : Bool) (n : ℕ)
    → All IsSafe
        (if◌then◌else◌ {A = Bytes × ℕ} test
          (unicode n, 1)
          (unicode (55232 + n / 1024) ++ unicode (56320 + n % 1024), 1)).0
unicode_choice true n = unicode-IsSafe n
unicode_choice false n =
    All-append IsSafe (unicode (55232 + n / 1024)) (unicode (56320 + n % 1024))
      (unicode-IsSafe (55232 + n / 1024)) (unicode-IsSafe (56320 + n % 1024))

last_choice :
    (test : Bool) (byte code_point : ℕ)
    → (test ≡ false → IsSafe byte)
    → All IsSafe (if◌then◌else◌ {A = Bytes × ℕ} test (unicode_text code_point) (byte ∷ [], 0)).0
last_choice true byte code_point h = unicode_choice (leb code_point 65535) code_point
last_choice false byte code_point h = (h refl, tt)

-- The text for a code point that is its last byte, or is none of ASCII.
pub escape-IsSafe :
    (byte code_point : ℕ)
    → (code_point ≡ byte) ⊎ (128 ≤ code_point)
    → All IsSafe (escape byte code_point).0
unfolding escape
escape-IsSafe byte code_point origin = choice-IsSafe (code_point == 8) _ 0 _ refl λ _.
    choice-IsSafe (code_point == 9) _ 0 _ refl λ _. choice-IsSafe (code_point == 10) _ 0 _ refl λ _.
      choice-IsSafe (code_point == 12) _ 0 _ refl λ _.
        choice-IsSafe (code_point == 13) _ 0 _ refl λ _.
          choice-IsSafe (code_point == 34) _ 0 _ refl λ no_quote.
            choice-IsSafe (code_point == 39) _ 0 _ refl λ no_apostrophe.
              choice-IsSafe (code_point == 38) _ 0 _ refl λ _.
                choice-IsSafe (code_point == 60) _ 0 _ refl λ no_less.
                  choice-IsSafe (code_point == 62) _ 0 _ refl λ no_greater.
                    last_choice (leb code_point 31 || leb 127 code_point) byte code_point λ plain.
                      elim origin [
                        | inl same ↦ is_safe_sound byte (
                            ground
                              (arith, same, no_quote, no_apostrophe, no_less, no_greater, plain))
                        | inr large ↦ absurd (ground (arith, large, plain))
                      ]
