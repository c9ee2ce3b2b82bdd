-- ===== src/Trie/Tests.antt =====
-- http/routing.hpp, class `Trie`, on concrete rules and URLs.
use crow_core.Common.{
  ℕ, Bytes, codes, strip_prefix, bytes_eq, bytes_less, List, [], ◌∷◌, Option, none, some, ◌≡◌, ◌≢◌,
  ◌≤◌, refl, arith, if◌then◌else◌, strtoll, strtoull,
}
use crow_core.Trie.{
  string, same_type, Trie, empty_trie, node_at, child_of, emplace, push_node, set_node, param_child,
  piece_child, find_trait, add_loop, added, already_exists, still_running, set_rule, add_fuel, add,
}
use crow_core.Trie.Edges.{Label, piece, param, edge_of}
use crow_core.Trie.Find.{
  no_params, segment, match_int, match_uint, match_double, match_string, match_path, match_piece,
  update_found, attempt, try_param, try_children, search_node, find_from, find,
}
use crow_core.Trie.Invariant.{WellFormed, WellFormed-Ordered, empty_trie-WellFormed, walk, rule_of}
use crow_core.Trie.Adding.{Tokens}
use crow_core.Trie.Insertion.{
  Inserts, add-Inserts, add-already_exists, Unreadable, add_fuel-still_running,
}
use crow_core.Trie.Routes.{extend, reads, Answers, find-Answers, find-add}
use crow_core.Trie.Optimize.{
  all_zero, is_simple_node, assign, merge_child, merge_children, merge_with_child, merge_node,
  optimize_params, optimize_children, optimize_rest, optimize_node, optimize,
}
use crow_core.Trie.Optimize.Steps.{Optimizable}
use crow_core.Trie.Optimize.Total.{optimize-Answers}
use crow_core.Trie.Optimize.Built.{
  AllLiteral, empty_trie-AllLiteral, WellFormed-Optimizable, add-Added,
}

-- A `strtod` that reads nothing.
abbrev no_double : Bytes → Option (ℕ × Bytes)
no_double s = none

adding : Unit {0}
unfolding add add_fuel add_loop set_rule find_trait strip_prefix param_child piece_child node_at
    push_node set_node child_of emplace bytes_eq bytes_less
adding = tt

finding : Unit {0}
unfolding find find_from search_node try_children try_param attempt update_found match_int
    match_uint match_double match_string match_path match_piece segment strip_prefix strtoll
    strtoull node_at
finding = tt

walking : Unit {0}
unfolding rule_of walk edge_of child_of node_at bytes_eq
walking = tt

-- The trie with the rule `/a` at 1.
abbrev one_rule : Trie
one_rule = record {
  nodes =
      record { rule_index = 0; param_childrens = λ p. 0; children = (codes "/", 1) ∷ [] }
      ∷ record { rule_index = 0; param_childrens = λ p. 0; children = (codes "a", 2) ∷ [] }
      ∷ record { rule_index = 1; param_childrens = λ p. 0; children = [] }
      ∷ [];
}

-- And with `/<str>` at 2.
abbrev two_rules : Trie
two_rules = record {
  nodes =
      record { rule_index = 0; param_childrens = λ p. 0; children = (codes "/", 1) ∷ [] }
      ∷ record {
        rule_index = 0;
        param_childrens = λ q. if same_type q string then 3 else 0;
        children = (codes "a", 2) ∷ [];
      }
      ∷ record { rule_index = 1; param_childrens = λ p. 0; children = [] }
      ∷ record { rule_index = 2; param_childrens = λ p. 0; children = [] }
      ∷ [];
}

add_tests :
    (add empty_trie (codes "/a") 1 ≡ added one_rule)
    × (add one_rule (codes "/<str>") 2 ≡ added two_rules)
    × (add one_rule (codes "/a") 2 ≡ already_exists one_rule)
unfolding adding
add_tests = (refl, refl, refl)

find_tests :
    (find no_double two_rules (codes "/a") ≡ (1, no_params))
    × (find no_double two_rules (codes "/ab")
        ≡ (2, record no_params { string_params = codes "ab" ∷ [] }))
    × ((find no_double two_rules (codes "/")).0 ≡ 0)
unfolding finding
find_tests = (refl, refl, refl)

one_rule-WellFormed : WellFormed one_rule
one_rule-WellFormed =
    (add-Added empty_trie (codes "/a") 1 one_rule empty_trie-WellFormed empty_trie-AllLiteral
      add_tests.0).shape

one_rule-AllLiteral : AllLiteral one_rule
one_rule-AllLiteral =
    (add-Added empty_trie (codes "/a") 1 one_rule empty_trie-WellFormed empty_trie-AllLiteral
      add_tests.0).literal

two_rules-Added : WellFormed two_rules × AllLiteral two_rules
two_rules-Added =
    let a =
      add-Added one_rule (codes "/<str>") 2 two_rules one_rule-WellFormed one_rule-AllLiteral
        (let (a, b, c) = add_tests in b) in
    (a.shape, a.literal)

-- The labels of `/a`, the last one first.
abbrev path_a : List Label
path_a = piece (codes "a") ∷ piece (codes "/") ∷ []

Tokens-a : Tokens path_a [] (codes "/a")
Tokens-a = Tokens.letter (omega arith) (Tokens.letter (omega arith) (Tokens.ends refl))

add-Inserts_example :
    (t' : Trie) × (add empty_trie (codes "/a") 1 ≡ added t') × Inserts empty_trie t' path_a 1
unfolding walking
add-Inserts_example =
    add-Inserts empty_trie (codes "/a") 1 path_a empty_trie-WellFormed Tokens-a refl

taken : rule_of one_rule path_a ≢ 0
unfolding walking
taken e = absurd (omega (arith, e))

add-already_exists_example :
    (t' : Trie) × (add one_rule (codes "/a") 2 ≡ already_exists t')
    × WellFormed t'
    × ((other : List Label) → rule_of t' other ≡ rule_of one_rule other)
add-already_exists_example =
    add-already_exists one_rule (codes "/a") 2 path_a one_rule-WellFormed Tokens-a taken

unreadable : Unreadable (codes "/<strin>")
unfolding find_trait strip_prefix
unreadable = Unreadable.letter (omega arith) (Unreadable.here refl refl)

add_fuel-still_running_example : add_fuel 1000 empty_trie (codes "/<strin>") 1 ≡ still_running
add_fuel-still_running_example =
    add_fuel-still_running 1000 empty_trie (codes "/<strin>") 1 unreadable

find-Answers_example :
    Answers no_double two_rules (codes "/ab") (find no_double two_rules (codes "/ab"))
find-Answers_example =
    find-Answers no_double two_rules (codes "/ab") (WellFormed-Ordered two_rules-Added.0)

-- The labels of `/<str>`, the first one first.
abbrev labels_string : List Label
labels_string = piece (codes "/") ∷ param string ∷ []

Tokens-string : Tokens (extend [] labels_string) [] (codes "/<str>")
unfolding find_trait strip_prefix
Tokens-string = Tokens.letter (omega arith) (Tokens.tag refl refl (Tokens.ends refl))

read_string :
    reads no_double labels_string (codes "/ab") no_params
    ≡ some (record no_params { string_params = codes "ab" ∷ [] })
unfolding reads match_string match_piece segment strip_prefix
read_string = refl

vacant : rule_of one_rule (extend [] labels_string) ≡ 0
unfolding walking
vacant = refl

find-add_example :
    (t' : Trie) × (add one_rule (codes "/<str>") 2 ≡ added t')
    × ((find no_double t' (codes "/ab")).0 ≢ 0)
    × ((find no_double t' (codes "/ab")).0 ≤ 2)
find-add_example =
    find-add no_double one_rule (codes "/<str>") (codes "/ab") 2 labels_string _ one_rule-WellFormed
      Tokens-string vacant (λ e. absurd (omega (arith, e))) read_string

optimize-Answers_example :
    (t' : Trie) × (optimize two_rules ≡ some t')
    × Optimizable t'
    × ((url : Bytes)
        → Answers no_double two_rules url (find no_double t' url)
          × ((find no_double t' url).0 ≡ (find no_double two_rules url).0))
optimize-Answers_example =
    optimize-Answers no_double two_rules
      (WellFormed-Optimizable two_rules-Added.0 two_rules-Added.1)

-- The node of `/` and that of `a` become one.
optimize_test :
    elim (optimize one_rule) [ none ↦ none | some t ↦ some (node_at t 0).children ]
    ≡ some ((codes "/a", 2) ∷ [])
unfolding optimize optimize_node optimize_rest optimize_children optimize_params merge_node
    merge_with_child merge_children merge_child assign is_simple_node all_zero set_node node_at
    bytes_less bytes_eq
optimize_test = refl
