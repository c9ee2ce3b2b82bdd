-- ===== src/Html/Tests.antt =====
-- include/json_html_serializer.hpp: concrete texts and values.
use crow_core.Common.{
  Bytes, codes, pos, negsuc, replicate, [], ◌∷◌, ◌++◌, none, some, All, bytes_eq, ◌≡◌, refl, arith,
  true,
}
use crow_core.Json.{number_unsigned, boolean, array, object, no_items, item, no_members, member}
use crow_core.Html.{dump_escaped, dump_loop, round, decode, accept, escape, utf8d}
use crow_core.Html.Integers.{dump_integer, dump_absolute, count_digits, count_loop, pairs_loop}
use crow_core.Html.Values.{dump, open_tag, dump_member}
use crow_core.Html.Safe.{IsSafe}
use crow_core.Html.Written.{dump_escaped-IsSafe}
use crow_core.Html.Ascii.{dump_escaped-ascii}
use crow_core.Html.Overflow.{dump_escaped-overflow}

-- `<` and `>` are written with a backslash in place of an ampersand.
escaped_runs :
    dump_escaped (codes "a<b>&")
    ≡ some (codes "a" ++ (b'\\' ∷ codes "lt;b" ++ (b'\\' ∷ codes "gt;&amp;")))
unfolding dump_escaped dump_loop round decode accept escape utf8d
escaped_runs = refl

dump_escaped-ascii_example :
    (out : Bytes) × (dump_escaped (codes "<a>") ≡ some out) × All IsSafe out
dump_escaped-ascii_example =
    dump_escaped-ascii (codes "<a>") (omega arith, (omega arith, (omega arith, tt)))

e_acute_runs : dump_escaped (195 ∷ (169 ∷ [])) ≡ some (b'\\' ∷ codes "u00e9")
unfolding dump_escaped dump_loop round decode accept escape utf8d
e_acute_runs = refl

dump_escaped-IsSafe_example : All IsSafe (b'\\' ∷ codes "u00e9")
dump_escaped-IsSafe_example =
    dump_escaped-IsSafe (195 ∷ (169 ∷ [])) (b'\\' ∷ codes "u00e9") (omega arith, (omega arith, tt))
      e_acute_runs

dump_escaped-overflow_example : dump_escaped (replicate 86 255 ++ codes "x") ≡ none
dump_escaped-overflow_example = dump_escaped-overflow (codes "x")

integers_run : dump_integer (negsuc 12344) ≡ some (codes "-12345")
unfolding dump_integer dump_absolute count_digits count_loop pairs_loop
integers_run = refl

largest_runs : dump_integer (pos 18446744073709551615) ≡ some (codes "18446744073709551615")
unfolding dump_integer dump_absolute count_digits count_loop pairs_loop
largest_runs = refl

values_run :
    dump
      (λ bits. [])
      (object (
        member
          (codes "A")
          (array (item (boolean true) (item (number_unsigned 120) no_items)))
          no_members))
    ≡ some (codes "{<div class=tab>&quotA&quot: [<div class=tab>true,<br>120</div>]<br></div>}")
unfolding dump open_tag dump_member dump_escaped dump_loop round decode accept escape utf8d
    dump_integer dump_absolute count_digits count_loop pairs_loop bytes_eq
values_run = refl

-- A link that is no string.
link_runs : dump (λ bits. []) (object (member (codes "Uri") (number_unsigned 1) no_members)) ≡ none
unfolding dump open_tag dump_member dump_escaped dump_loop round decode accept escape utf8d bytes_eq
link_runs = refl
