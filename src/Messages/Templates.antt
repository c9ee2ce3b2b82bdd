-- ===== src/Messages/Templates.antt =====
-- include/registries.hpp: `fillMessageArgs` on the templates of messages.
use crow_core.Common.{
  ℕ, zero, suc, ◌+◌, ◌-◌, ◌%◌, ◌^◌, ◌<◌, ◌≤◌, Bytes, length, get_elem?, List, [], ◌∷◌, ◌++◌, All,
  Option, none, some, true, false, ◌==◌, ltb, is_digit, digits_of, scan_digits, ◌≡◌, ◌≢◌, inl, inr,
  refl, ap, ◌∙◌, arith, append_assoc, Bool-cases, Option-cases, length-append,
}
use crow_core.Messages.{find_percent, from_chars, remove_first, fill_loop, fill_message_args}

-- A template: texts with the numbers of the arguments that follow them, and the text at the end.
abbrev pub print : List (Bytes × ℕ) → Bytes → Bytes
print [] last = last
print ((text, n) ∷ pieces) last = text ++ b'%' ∷ (b'0' + n) ∷ print pieces last

-- No text has a percent sign.
abbrev pub IsText : Bytes → Type 0
IsText text = All (λ c. c ≢ b'%') text

-- What follows a number does not begin with a digit.
abbrev pub NoDigit : Bytes → Type 0
NoDigit [] = Unit
NoDigit (c ∷ s) = is_digit c ≡ false

abbrev pub IsTemplate : List (Bytes × ℕ) → Bytes → Type 0
IsTemplate [] last = IsText last
IsTemplate ((text, n) ∷ pieces) last =
    IsText text × ((1 ≤ n) × (n ≤ 9)) × NoDigit (print pieces last) × IsTemplate pieces last

-- The template with its arguments in place, `none` where one is missing. Arguments count from 1.
abbrev after_arg : Bytes → Option Bytes → Option Bytes → Option Bytes
after_arg text none rest = none
after_arg text (some arg) none = none
after_arg text (some arg) (some rest) = some (text ++ (arg ++ rest))

abbrev pub expand : List Bytes → List (Bytes × ℕ) → Bytes → Option Bytes
expand args [] last = some last
expand args ((text, n) ∷ pieces) last =
    after_arg text (get_elem? args (n - 1)) (expand args pieces last)

-- The message, or the empty one.
abbrev pub message_or_empty : Bytes → Option Bytes → Bytes
message_or_empty before none = []
message_or_empty before (some text) = before ++ text

find_percent-text : (text : Bytes) → IsText text → find_percent text ≡ none
unfolding find_percent
find_percent-text [] h = refl
find_percent-text (c ∷ text) (other, h) =
    let test : (c == b'%') ≡ false = ground arith in rw (test, find_percent-text text h)

find_percent-print :
    (text rest : Bytes) → IsText text → find_percent (text ++ b'%' ∷ rest) ≡ some (text, rest)
unfolding find_percent
find_percent-print [] rest h = refl
find_percent-print (c ∷ text) rest (other, h) =
    let test : (c == b'%') ≡ false = ground arith in rw (test, find_percent-print text rest h)

scan_digits-NoDigit : (n : ℕ) (rest : Bytes) → NoDigit rest → scan_digits n rest ≡ (n, rest)
unfolding scan_digits
scan_digits-NoDigit n [] h = refl
scan_digits-NoDigit n (c ∷ rest) h = rw h

from_chars-digit :
    (n : ℕ) (rest : Bytes) → n ≤ 9 → NoDigit rest → from_chars ((b'0' + n) ∷ rest) ≡ some n
unfolding from_chars digits_of
from_chars-digit n rest small h =
    let digit : is_digit (b'0' + n) ≡ true = ground arith in
    let value : b'0' + n - b'0' ≡ n = omega arith in
    let fits : ltb n (2 ^ 64) ≡ true = ground arith in
    rw (digit, value, scan_digits-NoDigit n rest h) (rw fits refl)

-- What a round adds to the text before it.
extended :
    (args : List Bytes) (text ret arg : Bytes) (rest : Option Bytes)
    → message_or_empty ((ret ++ text) ++ arg) rest
      ≡ message_or_empty ret (after_arg text (some arg) rest)
extended args text ret arg none = refl
extended args text ret arg (some more) =
    append_assoc (ret ++ text) arg more ∙ append_assoc ret text (arg ++ more)

fill_loop-print :
    (args : List Bytes) (pieces : List (Bytes × ℕ)) (last : Bytes) (fuel : ℕ) (ret : Bytes)
    → IsTemplate pieces last
    → length pieces < fuel
    → fill_loop fuel args (print pieces last) ret
      ≡ some (message_or_empty ret (expand args pieces last))
unfolding fill_loop
fill_loop-print args pieces last zero ret h f = absurd (omega arith)
fill_loop-print args [] last (suc fuel) ret h f = rw (find_percent-text last h, fill_loop)
fill_loop-print args ((text, n) ∷ pieces) last (suc fuel) ret (is_text, (low, high), no_digit, h)
      f =
    let index : (n + 2 ^ 64 - 1) % 2 ^ 64 ≡ n - 1 = omega arith in
    rw
      (
        find_percent-print text ((b'0' + n) ∷ print pieces last) is_text,
        from_chars-digit n (print pieces last) high no_digit,
        index,
        fill_loop,
      )
      (elim (Option-cases (get_elem? args (n - 1))) [
        | inl missing ↦ rw missing
        | inr (arg, there) ↦ rw there (
            fill_loop-print args pieces last fuel ((ret ++ text) ++ arg) h (omega arith)
            ∙ ap some (extended args text ret arg (expand args pieces last)))
      ])

length-print :
    (pieces : List (Bytes × ℕ)) (last : Bytes) → length pieces ≤ length (print pieces last)
length-print [] last = omega arith
length-print ((text, n) ∷ pieces) last =
    omega
      (arith, length-print pieces last, length-append text (b'%' ∷ (b'0' + n) ∷ print pieces last))

-- A message whose arguments have numbers of one digit is filled with the arguments in their places,
-- and is empty where one of them is missing.
pub fill_message_args-print :
    (args : List Bytes) (pieces : List (Bytes × ℕ)) (last : Bytes)
    → IsTemplate pieces last
    → fill_message_args args (print pieces last)
      ≡ some (message_or_empty [] (expand args pieces last))
unfolding fill_message_args
fill_message_args-print args pieces last h =
    fill_loop-print args pieces last (suc (length (print pieces last))) [] h
      (omega (arith, length-print pieces last))

find_percent-shorter :
    (msg before after : Bytes) → find_percent msg ≡ some (before, after) → length after < length msg
unfolding find_percent
find_percent-shorter [] before after e = absurd (cc e)
find_percent-shorter (c ∷ msg) before after e = elim (Bool-cases (c == b'%')) [
  | inl here ↦ after_here (rw here at e)
  | inr other ↦ elim (Option-cases (find_percent msg)) [
    | inl missing ↦ absurd (cc (rw (other, missing, find_percent) at e))
    | inr ((b, a), found) ↦
        let same : a ≡ after = cc (rw (other, found, find_percent) at e) in
        omega (arith, find_percent-shorter msg b a found, ap length same)
  ]
]
  where
    after_here :
        ◌≡◌ {A = Option (Bytes × Bytes)} (some ([], msg)) (some (before, after))
        → length after < length (c ∷ msg)
    after_here e' = let same : msg ≡ after = cc e' in omega (arith, ap length same)

fill_loop-ends :
    (fuel : ℕ) (args : List Bytes) (msg ret : Bytes)
    → length msg < fuel
    → (text : Bytes) × (fill_loop fuel args msg ret ≡ some text)
unfolding fill_loop
fill_loop-ends zero args msg ret f = absurd (omega arith)
fill_loop-ends (suc fuel) args msg ret f = elim (Option-cases (find_percent msg)) [
  | inl missing ↦ (ret ++ msg, rw (missing, fill_loop))
  | inr ((before, after), found) ↦ elim (Option-cases (from_chars after)) [
    | inl bad ↦ ([], rw (found, bad, fill_loop))
    | inr (number, parsed) ↦ elim (Option-cases (get_elem? args ((number + 2 ^ 64 - 1) % 2 ^ 64))) [
      | inl absent ↦ ([], rw (found, parsed, absent, fill_loop))
      | inr (arg, there) ↦
          let (text, ended) =
            fill_loop-ends fuel args (remove_first after) ((ret ++ before) ++ arg)
              (omega (arith, find_percent-shorter msg before after found, shorter after)) in
          (text, rw (found, parsed, there, fill_loop) ended)
    ]
  ]
]
  where
    shorter : (s : Bytes) → length (remove_first s) ≤ length s
    shorter [] = omega arith
    shorter (d ∷ s) = omega arith

-- `fillMessageArgs` ends for every message and all arguments.
pub fill_message_args-ends :
    (args : List Bytes) (msg : Bytes) → (text : Bytes) × (fill_message_args args msg ≡ some text)
unfolding fill_message_args
fill_message_args-ends args msg = fill_loop-ends (suc (length msg)) args msg [] (omega arith)
