-- ===== src/Messages/Tests.antt =====
-- include/registries.hpp on concrete messages.
use crow_core.Common.{
  codes, List, [], ◌∷◌, Bytes, ℕ, some, ◌≡◌, refl, arith, digits_of, scan_digits,
}
use crow_core.Messages.{find_percent, from_chars, fill_loop, fill_message_args}
use crow_core.Messages.Templates.{
  print, IsTemplate, expand, message_or_empty, fill_message_args-print,
}

filling : Unit {0}
unfolding fill_message_args fill_loop find_percent from_chars digits_of scan_digits
filling = tt

abbrev two_args : List Bytes
two_args = codes "x" ∷ codes "yy" ∷ []

fill_tests :
    (fill_message_args two_args (codes "a %2, then '%1'.") ≡ some (codes "a yy, then 'x'."))
    × (fill_message_args two_args (codes "a %3") ≡ some [])
    × (fill_message_args two_args (codes "a %0") ≡ some [])
    × (fill_message_args two_args (codes "100%") ≡ some [])
    × (fill_message_args two_args (codes "%01") ≡ some (codes "x1"))
unfolding filling
fill_tests = (refl, refl, refl, refl, refl)

abbrev pieces : List (Bytes × ℕ)
pieces = (codes "a ", 2) ∷ []

pieces-IsTemplate : IsTemplate pieces (codes ".")
pieces-IsTemplate =
    ((omega arith, (omega arith, tt)), (omega arith, omega arith), refl, (omega arith, tt))

fill_message_args-print_example :
    fill_message_args two_args (print pieces (codes "."))
    ≡ some (message_or_empty [] (expand two_args pieces (codes ".")))
fill_message_args-print_example =
    fill_message_args-print two_args pieces (codes ".") pieces-IsTemplate
