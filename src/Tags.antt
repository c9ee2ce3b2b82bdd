-- ===== src/Tags.antt =====
-- http/utility.hpp, `black_magic`: the tag of a rule's parameters and that of a handler's arguments, one
-- digit in base 6 for each, the first parameter's the lowest.
pub mod Compatible
pub mod Reading
pub mod Handlers
mod Tests
use crow_core.Common.{
  ℕ, zero, suc, ◌+◌, ◌-◌, ◌*◌, ◌/◌, ◌%◌, ◌^◌, Bytes, codes, bytes_eq, List, [], ◌∷◌, ◌++◌, Option,
  none, some, Bool, true, false, ◌&&◌, ◌||◌, ◌==◌, leb, ltb, if◌then◌else◌,
}

pub data TypeCode : Type 0 where
  unspecified integer unsigned_integer float string path max : TypeCode

unfoldable pub to_underlying : TypeCode → ℕ
to_underlying unspecified = 0
to_underlying integer = 1
to_underlying unsigned_integer = 2
to_underlying float = 3
to_underlying string = 4
to_underlying path = 5
to_underlying max = 6

-- The types that `getParameterTag<T>` names, and the others.
pub data ArgType : Type 0 where
  int char short long long_long : ArgType
  unsigned_int unsigned_char unsigned_short unsigned_long unsigned_long_long : ArgType
  double std_string other : ArgType

unfoldable pub type_tag : ArgType → TypeCode
type_tag int = integer
type_tag char = integer
type_tag short = integer
type_tag long = integer
type_tag long_long = integer
type_tag unsigned_int = unsigned_integer
type_tag unsigned_char = unsigned_integer
type_tag unsigned_short = unsigned_integer
type_tag unsigned_long = unsigned_integer
type_tag unsigned_long_long = unsigned_integer
type_tag double = float
type_tag std_string = string
type_tag other = unspecified

-- An `int` that is converted from `n` and then to `uint64_t`.
abbrev pub int_of : ℕ → ℕ
int_of n = if ltb n (2 ^ 31) then n else n + 2 ^ 64 - 2 ^ 32

abbrev pub push_digit : ℕ → Option ℕ → Option ℕ
push_digit code none = none
push_digit code (some sub_value) =
    if ltb (sub_value * 6) (2 ^ 31) then some (int_of (sub_value * 6 + code)) else none

-- `computeParameterTagFromArgsList`; `none` where `subValue * Max` is no `int`, and the program does
-- not compile.
unfoldable pub compute_parameter_tag : List ArgType → Option ℕ
unfolding to_underlying type_tag
compute_parameter_tag [] = some 0
compute_parameter_tag (arg ∷ args) =
    let sub_value = compute_parameter_tag args in
    if to_underlying (type_tag arg) == 0
    then sub_value
    else push_digit (to_underlying (type_tag arg)) sub_value

-- `sa` and `sb`: a path counts as a string.
abbrev pub path_as_string : ℕ → ℕ
path_as_string code = if code == 5 then 4 else code

-- The loop of `isParameterTagCompatible`, on fuel; `none` means that it is still running.
unfoldable pub compatible_loop : ℕ → ℕ → ℕ → Option Bool
compatible_loop zero a b = none
compatible_loop (suc fuel) a b =
    let rest = compatible_loop fuel (a / 6) (b / 6) in
    if a == 0 && b == 0
    then some true
    else if a == 0 || b == 0
    then some false
    else if path_as_string (a % 6) == path_as_string (b % 6)
    then rest
    else some false

unfoldable pub is_parameter_tag_compatible : ℕ → ℕ → Option Bool
is_parameter_tag_compatible a b = compatible_loop (suc a) a b

-- What a tag of the text adds, as a digit.
unfoldable pub code_of_text : Bytes → ℕ
code_of_text tag =
    if bytes_eq tag (codes "<int>")
    then 1
    else if bytes_eq tag (codes "<uint>")
    then 2
    else if bytes_eq tag (codes "<float>") || bytes_eq tag (codes "<double>")
    then 3
    else if bytes_eq tag (codes "<str>") || bytes_eq tag (codes "<string>")
    then 4
    else if bytes_eq tag (codes "<path>")
    then 5
    else 0

-- The loop of `getParameterTag` over the characters left: the text from the `<` that is open, if one
-- is, then `tagValue` and `paramIndex`.
unfoldable pub tag_loop : Bytes → Option Bytes → ℕ → ℕ → ℕ
tag_loop [] none tag_value param_index = tag_value
tag_loop [] (some tag) tag_value param_index = 0
tag_loop (c ∷ url) none tag_value param_index =
    if c == b'<'
    then tag_loop url (some (c ∷ [])) tag_value param_index
    else if c == b'>'
    then 0
    else tag_loop url none tag_value param_index
tag_loop (c ∷ url) (some tag) tag_value param_index =
    if c == b'<'
    then 0
    else if c == b'>'
    then tag_loop url none
        ((tag_value + 6 ^ param_index % 2 ^ 64 * code_of_text (tag ++ c ∷ [])) % 2 ^ 64)
        (suc param_index)
    else tag_loop url (some (tag ++ c ∷ [])) tag_value param_index

unfoldable pub get_parameter_tag : Bytes → ℕ
get_parameter_tag url = tag_loop url none 0 0
