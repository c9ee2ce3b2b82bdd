-- ===== src/Tags/Handlers.antt =====
-- http/utility.hpp: the check of `DynamicRule::wrap`, a rule's tag against its handler's.
use crow_core.Common.{
  ℕ, ◌+◌, ◌*◌, ◌^◌, ◌<◌, Bytes, List, [], ◌∷◌, All, All-append, Option, some, true, ◌==◌, ltb,
  if◌then◌else◌, ◌≡◌, inl, inr, refl, sym, ◌∙◌, arith, Bool-cases,
}
use crow_core.Trie.{ParamType, int, uint, double, string, path}
use crow_core.Trie.Edges.{Label, piece, param}
use crow_core.Trie.Adding.{Tokens}
use crow_core.Tags.{
  to_underlying, ArgType, type_tag, compute_parameter_tag, push_digit, is_parameter_tag_compatible,
  get_parameter_tag,
}
use crow_core.Tags.Compatible.{IsCode, pack, same_codes, is_parameter_tag_compatible-pack}
use crow_core.Tags.Reading.{code_of, codes_of, NoStray, get_parameter_tag-Tokens}

-- The code of an argument's type, 0 where it is none of a parameter.
abbrev pub type_code : ArgType → ℕ
type_code arg = to_underlying (type_tag arg)

-- The codes of the arguments that stand for parameters.
abbrev pub arg_codes : List ArgType → List ℕ
arg_codes [] = []
arg_codes (arg ∷ args) =
    if type_code arg == 0 then arg_codes args else type_code arg ∷ arg_codes args

type_code_bound : (arg : ArgType) → type_code arg < 6
unfolding to_underlying type_tag
type_code_bound ArgType.int = omega arith
type_code_bound ArgType.char = omega arith
type_code_bound ArgType.short = omega arith
type_code_bound ArgType.long = omega arith
type_code_bound ArgType.long_long = omega arith
type_code_bound ArgType.unsigned_int = omega arith
type_code_bound ArgType.unsigned_char = omega arith
type_code_bound ArgType.unsigned_short = omega arith
type_code_bound ArgType.unsigned_long = omega arith
type_code_bound ArgType.unsigned_long_long = omega arith
type_code_bound ArgType.double = omega arith
type_code_bound ArgType.std_string = omega arith
type_code_bound ArgType.other = omega arith

arg_codes-IsCode : (args : List ArgType) → All IsCode (arg_codes args)
arg_codes-IsCode [] = tt
arg_codes-IsCode (arg ∷ args) = elim (Bool-cases (type_code arg == 0)) [
  | inl skipped ↦ rw skipped (arg_codes-IsCode args)
  | inr used ↦ rw used ((ground arith, type_code_bound arg), arg_codes-IsCode args)
]

codes_of-IsCode : (labels : List Label) → All IsCode (codes_of labels)
codes_of-IsCode [] = tt
codes_of-IsCode (piece k ∷ labels) = codes_of-IsCode labels
codes_of-IsCode (param p ∷ labels) =
    All-append IsCode (codes_of labels) (code_of p ∷ []) (codes_of-IsCode labels)
      (code_of-IsCode p, tt)
  where
    code_of-IsCode : (p : ParamType) → IsCode (code_of p)
    code_of-IsCode int = (omega arith, omega arith)
    code_of-IsCode uint = (omega arith, omega arith)
    code_of-IsCode double = (omega arith, omega arith)
    code_of-IsCode string = (omega arith, omega arith)
    code_of-IsCode path = (omega arith, omega arith)

push_digit-pack : (c n : ℕ) → n * 6 + c < 2 ^ 31 → push_digit c (some n) ≡ some (n * 6 + c)
push_digit-pack c n h =
    let fits : ltb (n * 6) (2 ^ 31) ≡ true = ground arith in
    let small : ltb (n * 6 + c) (2 ^ 31) ≡ true = ground arith in rw (fits, small)

compute_parameter_tag-pack :
    (args : List ArgType)
    → pack (arg_codes args) < 2 ^ 31
    → compute_parameter_tag args ≡ some (pack (arg_codes args))
unfolding compute_parameter_tag
compute_parameter_tag-pack [] h = refl
compute_parameter_tag-pack (arg ∷ args) h = elim (Bool-cases (type_code arg == 0)) [
  | inl skipped ↦ rw skipped (compute_parameter_tag-pack args (rw skipped at h))
  | inr used ↦
      let bound : pack (arg_codes args) * 6 + type_code arg < 2 ^ 31 = rw used at h in
      rw (used, compute_parameter_tag-pack args (omega (arith, bound)))
        (push_digit-pack (type_code arg) (pack (arg_codes args)) bound)
]

-- A rule's tag is found compatible with the tag of a handler's arguments exactly where the parameters
-- that the trie reads in the rule are those that the arguments stand for, in their order and up to
-- paths for strings, where no `>` stands outside a tag and the tags fit in 64 and 31 bits.
pub compatible-Tokens :
    (labels : List Label) (url : Bytes) (args : List ArgType) (tag : ℕ)
    → Tokens labels [] url
    → NoStray labels
    → pack (codes_of labels) < 2 ^ 64
    → pack (arg_codes args) < 2 ^ 31
    → compute_parameter_tag args ≡ some tag
    → is_parameter_tag_compatible (get_parameter_tag url) tag
      ≡ some (same_codes (codes_of labels) (arg_codes args))
compatible-Tokens labels url args tag t h fits_url fits_args computed =
    let value : get_parameter_tag url ≡ pack (codes_of labels) =
      get_parameter_tag-Tokens labels url t h ∙ omega (arith, fits_url) in
    let other : tag ≡ pack (arg_codes args) =
      value_inj (sym computed ∙ compute_parameter_tag-pack args fits_args) in
    rw (value, other)
      (is_parameter_tag_compatible-pack (codes_of labels) (arg_codes args) (codes_of-IsCode labels)
        (arg_codes-IsCode args))
  where
    value_inj : {a b : ℕ} → ◌≡◌ {A = Option ℕ} (some a) (some b) → a ≡ b
    value_inj e = cc
