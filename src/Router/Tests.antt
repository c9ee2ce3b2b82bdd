-- ===== src/Router/Tests.antt =====
-- http/routing.hpp, class `Router`, on concrete rules and requests.
use crow_core.Common.{
  ℕ, Bytes, codes, strip_prefix, bytes_eq, bytes_less, List, [], ◌∷◌, Option, none, some, true,
  false, ◌||◌, ◌&&◌, ◌≡◌, ◌≢◌, inl, inr, refl, arith, strtoll, strtoull,
}
use crow_core.Trie.{
  string, node_at, child_of, emplace, push_node, set_node, param_child, piece_child, find_trait,
  add_loop, set_rule, add_fuel, add,
}
use crow_core.Trie.Edges.{Label, piece, param}
use crow_core.Trie.Adding.{Tokens}
use crow_core.Trie.Find.{
  RoutingParams, no_params, segment, match_int, match_uint, match_double, match_string, match_path,
  match_piece, update_found, attempt, try_param, try_children, search_node, find_from, find,
}
use crow_core.Trie.Routes.{extend, reads}
use crow_core.Trie.Optimize.{
  all_zero, is_simple_node, assign, merge_child, merge_children, merge_with_child, merge_node,
  optimize_params, optimize_children, optimize_rest, optimize_node, optimize,
}
use crow_core.Verb.{
  HttpVerb, BoostVerb, verb_index, max_verb_index, http_verb_from_boost, http_verb_to_string,
  verb_of_index,
}
use crow_core.Router.{
  has_bit, methods, Rule, PerMethod, Outcome, done, handler_exists, no_handler, then_do,
  is_directory, add_to_method, add_to_methods, internal_add_rule_object, add_rules, optimize_all,
  new_router, validate, route, corrupted, find_in, find_route_by_index, note_route, find_route_loop,
  find_route, Handled, result, called, ignored, fall_back, answer, handle_response, handle,
}
use crow_core.Router.Build.{Covers}
use crow_core.Router.Validate.{validate-ends, validate-never_corrupted, validate-serves}
use crow_core.Router.Lookup.{join, allowed, find_route-allowed, as_option}
use crow_core.Router.Handling.{Responds, validate-Responds, handle-serves}
use crow_core.Router.Methods.{has_bit-methods, names, last_unknown}

abbrev no_double : Bytes → Option (ℕ × Bytes)
no_double s = none

registering : Unit {0}
unfolding validate optimize_all add_rules internal_add_rule_object add_to_methods add_to_method
    then_do has_bit is_directory max_verb_index add add_fuel add_loop set_rule find_trait
    strip_prefix param_child piece_child node_at push_node set_node child_of emplace bytes_eq
    bytes_less optimize optimize_node optimize_rest optimize_children optimize_params merge_node
    merge_with_child merge_children merge_child assign is_simple_node all_zero
registering = tt

serving : Unit {0}
unfolding handle handle_response fall_back answer find_route find_route_loop note_route
    find_route_by_index find_in http_verb_from_boost verb_index http_verb_to_string verb_of_index
    max_verb_index find find_from search_node try_children try_param attempt update_found match_int
    match_uint match_double match_string match_path match_piece segment strip_prefix strtoll
    strtoull node_at
serving = tt

-- `/a/` for GET and `/<str>` for GET and POST, with numbers as handlers.
abbrev rule_a : Rule ℕ
rule_a = record { rule = codes "/a/"; methods_bitfield = 2; handler = some 1 }

abbrev rule_string : Rule ℕ
rule_string = record { rule = codes "/<str>"; methods_bitfield = 34; handler = some 2 }

abbrev rules : List (Rule ℕ)
rules = rule_a ∷ rule_string ∷ []

abbrev or_none : Outcome (List (PerMethod ℕ)) → List (PerMethod ℕ)
or_none (done pms) = pms
or_none _ = []

built : List (PerMethod ℕ)
unfolding registering
built = or_none (validate rules)

built_is : validate rules ≡ done built
unfolding registering built
built_is = refl

called_with : Rule ℕ → Bytes → Bytes → Handled ℕ ℕ
called_with r text allow = called r (record no_params { string_params = text ∷ [] }) allow

handle_tests :
    (handle no_double built BoostVerb.get (codes "/a/") false false
      ≡ called rule_a no_params (codes "GET"))
    × (handle no_double built BoostVerb.get (codes "/a") false false
        ≡ called rule_a no_params (codes "GET, POST"))
    × (handle no_double built BoostVerb.post (codes "/a") true true
        ≡ called_with rule_string (codes "a") (codes "GET, POST"))
    × (handle no_double built BoostVerb.get (codes "/a") true false ≡ ignored (codes "GET, POST"))
    × (handle no_double built BoostVerb.put (codes "/a") false false
        ≡ result 405 (codes "GET, POST"))
    × (handle no_double built BoostVerb.get (codes "/a/b") false false ≡ result 404 [])
    × (handle no_double built (BoostVerb.other 1) (codes "/a") false false ≡ result 404 [])
unfolding registering serving built called_with
handle_tests = (refl, refl, refl, refl, refl, refl, refl)

validate_tests :
    (validate (rule_a ∷ rule_a ∷ []) ≡ handler_exists)
    × (validate (record rule_a { handler = none } ∷ []) ≡ no_handler)
unfolding registering
validate_tests = (refl, refl)

added_to : List (PerMethod ℕ)
unfolding registering
added_to = or_none (add_rules rules new_router)

added_to_is : add_rules rules new_router ≡ done added_to
unfolding registering added_to
added_to_is = refl

validate-ends_example : (pms : List (PerMethod ℕ)) × (validate rules ≡ done pms)
validate-ends_example = validate-ends no_double rules added_to added_to_is

validate-never_corrupted_example :
    find_route_by_index no_double built (codes "/nothing/here") 6 ≢ corrupted
validate-never_corrupted_example =
    validate-never_corrupted no_double rules built (codes "/nothing/here") 6 built_is

-- The labels of `/a`, and of `/<str>`.
abbrev labels_a : List Label
labels_a = piece (codes "/") ∷ piece (codes "a") ∷ []

abbrev labels_string : List Label
labels_string = piece (codes "/") ∷ param string ∷ []

Covers-a : Covers rule_a (extend [] labels_a)
unfolding is_directory
Covers-a = inr (refl, Tokens.letter (omega arith) (Tokens.letter (omega arith) (Tokens.ends refl)))

Covers-string : Covers rule_string (extend [] labels_string)
unfolding find_trait strip_prefix
Covers-string = inl (Tokens.letter (omega arith) (Tokens.tag refl refl (Tokens.ends refl)))

reads_a : reads no_double labels_a (codes "/a") no_params ≡ some no_params
unfolding reads match_piece strip_prefix
reads_a = refl

reads_string :
    reads no_double labels_string (codes "/b") no_params
    ≡ some (record no_params { string_params = codes "b" ∷ [] })
unfolding reads match_string match_piece segment strip_prefix
reads_string = refl

validate-serves_example :
    (r : Rule ℕ) × (ps : RoutingParams ℕ) × (find_route_by_index no_double built (codes "/a") 1
      ≡ route r ps)
unfolding has_bit
validate-serves_example =
    validate-serves no_double [] (rule_string ∷ []) rule_a built 1 (codes "/a") labels_a no_params
      built_is (omega arith) refl Covers-a reads_a

find_route-allowed_example :
    find_route no_double built BoostVerb.post (codes "/a")
    ≡ some (record {
      allow_header = join (allowed no_double built (codes "/a"));
      found =
          as_option no_double built
            (codes "/a")
            (find_route_by_index no_double built (codes "/a") 5);
    })
unfolding verb_index http_verb_from_boost
find_route-allowed_example =
    find_route-allowed no_double built (codes "/a") BoostVerb.post HttpVerb.post
      (λ index. validate-never_corrupted no_double rules built (codes "/a") index built_is) refl

validate-Responds_example :
    Responds no_double built
      (codes "/a")
      HttpVerb.get
      true
      false
      (handle no_double built BoostVerb.get (codes "/a") true false)
unfolding http_verb_from_boost
validate-Responds_example =
    validate-Responds no_double built (codes "/a") rules BoostVerb.get HttpVerb.get true false
      built_is refl

handle-serves_example :
    (r : Rule ℕ) × (ps : RoutingParams ℕ) × (find_route_by_index no_double built (codes "/b") 5
      ≡ route r ps)
    × (handle no_double built BoostVerb.post (codes "/b") false false
        ≡ called r ps (join (allowed no_double built (codes "/b"))))
unfolding has_bit verb_index http_verb_from_boost
handle-serves_example =
    handle-serves no_double built (codes "/b") (rule_a ∷ []) [] rule_string BoostVerb.post
      HttpVerb.post false labels_string _ built_is refl refl Covers-string reads_string

has_bit-methods_example : has_bit (methods BoostVerb.post (BoostVerb.other 3 ∷ []) 2) 1 ≡ (
    names 1 (BoostVerb.post ∷ BoostVerb.other 3 ∷ [])
    || (last_unknown BoostVerb.post (BoostVerb.other 3 ∷ []) && has_bit 2 1))
has_bit-methods_example = has_bit-methods BoostVerb.post (BoostVerb.other 3 ∷ []) 2 1
