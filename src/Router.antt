-- ===== src/Router.antt =====
-- http/routing.hpp: `BaseRule`, `RuleParameterTraits` and class `Router`. A handler is a parameter: the
-- router only calls it.
pub mod Build
pub mod Adding
pub mod Validate
mod Tests
pub mod Methods
pub mod Lookup
pub mod Handling
use crow_core.Common.{
  ℕ, zero, suc, ◌+◌, ◌-◌, ◌*◌, ◌/◌, ◌%◌, Bytes, codes, length, get_or, get_elem?, replicate, List,
  [], ◌∷◌, ◌++◌, Option, none, some, Bool, true, false, not, ◌&&◌, ◌||◌, ◌==◌, ltb, leb,
  if◌then◌else◌,
}
use crow_core.Trie.{Trie, empty_trie, AddResult, added, already_exists, still_running, add}
use crow_core.Trie.Find.{RoutingParams, no_params, find}
use crow_core.Trie.Optimize.{optimize}
use crow_core.Verb.{
  HttpVerb, verb_index, max_verb_index, not_found_index, method_not_allowed_index, BoostVerb,
  http_verb_from_boost, http_verb_to_string, verb_of_index,
}

-- `field & (1 << i)`, as a test, and `field | (1 << i)`.
unfoldable pub has_bit : ℕ → ℕ → Bool
has_bit field zero = field % 2 == 1
has_bit field (suc i) = has_bit (field / 2) i

unfoldable pub set_bit : ℕ → ℕ → ℕ
set_bit field zero = field / 2 * 2 + 1
set_bit field (suc i) = set_bit (field / 2) i * 2 + field % 2

-- A rule: its text, its methods, and its handler, if it has one.
pub record Rule (Handler : Type 0) : Type 0 where
  pub rule : Bytes
  pub methods_bitfield : ℕ
  pub handler : Option Handler

-- `BaseRule(thisRule)` is a rule for GET.
abbrev pub new_rule : {Handler : Type 0} → Bytes → Rule Handler
unfolding set_bit verb_index
new_rule text = record {
  rule = text;
  methods_bitfield = set_bit 0 (verb_index HttpVerb.get);
  handler = none;
}

-- `methodsBitfield` after `methods` of one verb, and of a verb and more verbs.
abbrev pub bit_of : Option HttpVerb → ℕ → ℕ → ℕ
bit_of none before field = before
bit_of (some verb) before field = set_bit field (verb_index verb)

unfoldable pub methods : BoostVerb → List BoostVerb → ℕ → ℕ
unfolding set_bit verb_index http_verb_from_boost
methods method [] field = bit_of (http_verb_from_boost method) field 0
methods method (next ∷ more) field =
    let rest = methods next more field in bit_of (http_verb_from_boost method) rest rest

-- `none` is the null pointer that stands at index 0.
pub record PerMethod (Handler : Type 0) : Type 0 where
  pub rules : List (Option (Rule Handler))
  pub trie : Trie

-- The outcomes of code that registers: a value, the exceptions "no handler for url" and "handler
-- already exists", and a loop that does not end.
pub data Outcome (A : Type 0) : Type 0 where
  done : A → Outcome A
  no_handler : Outcome A
  handler_exists : Outcome A
  never_ends : Outcome A

unfoldable pub then_do : {A B : Type 0} → Outcome A → (A → Outcome B) → Outcome B
then_do (done x) next = next x
then_do no_handler next = no_handler
then_do handler_exists next = handler_exists
then_do never_ends next = never_ends

abbrev ends_in_slash : Bytes → Bool
ends_in_slash [] = false
ends_in_slash (c ∷ []) = c == b'/'
ends_in_slash (c ∷ d ∷ s) = ends_in_slash (d ∷ s)

-- `rule.size() > 2 && rule.back() == '/'`.
unfoldable pub is_directory : Bytes → Bool
is_directory text = ltb 2 (length text) && ends_in_slash text

-- `rule.substr(0, rule.size() - 1)`.
abbrev pub without_last : Bytes → Bytes
without_last [] = []
without_last (c ∷ []) = []
without_last (c ∷ d ∷ s) = c ∷ without_last (d ∷ s)

-- What a lookup finds; `corrupted` is the exception "Trie internal structure corrupted!".
pub data FindRoute (Handler Double : Type 0) : Type 0 where
  no_route : FindRoute Handler Double
  route : Rule Handler → RoutingParams Double → FindRoute Handler Double
  corrupted : FindRoute Handler Double

-- `FindRouteResponse`; `none` in the results below is the exception.
pub record FindRouteResponse (Handler Double : Type 0) : Type 0 where
  pub allow_header : Bytes
  pub found : Option (Rule Handler × RoutingParams Double)

-- What `handle` does with a response: a status, or a call of the rule, with the Allow header if
-- it is set; `ignored` where a request has a session and `bypassAuth` is false: nothing is called.
pub data Handled (Handler Double : Type 0) : Type 0 where
  result : ℕ → Bytes → Handled Handler Double
  called : Rule Handler → RoutingParams Double → Bytes → Handled Handler Double
  ignored : Bytes → Handled Handler Double
  exception : Handled Handler Double

-- What `handleUpgrade` does: a status, or a call of the rule's `handleUpgrade`.
pub data Upgraded (Handler : Type 0) : Type 0 where
  refused : Upgraded Handler
  upgraded : Rule Handler → Upgraded Handler
  trie_corrupted : Upgraded Handler

module _ {Handler : Type 0} where
  abbrev pub not_found : Rule Handler → Rule Handler
  unfolding set_bit
  not_found r = record r { methods_bitfield = set_bit 0 not_found_index }

  abbrev pub method_not_allowed : Rule Handler → Rule Handler
  unfolding set_bit
  method_not_allowed r = record r { methods_bitfield = set_bit 0 method_not_allowed_index }

  abbrev pub new_per_method : PerMethod Handler
  new_per_method = record { rules = none ∷ []; trie = empty_trie }

  abbrev pub with_trie : List (Option (Rule Handler)) → AddResult → Outcome (PerMethod Handler)
  with_trie rules (added t) = done (record { rules = rules; trie = t })
  with_trie rules (already_exists t) = handler_exists
  with_trie rules still_running = never_ends

  -- A rule put among those of one method: the body of the loop of `internalAddRuleObject`.
  unfoldable pub add_to_method :
      Bytes → Rule Handler → PerMethod Handler → Outcome (PerMethod Handler)
  unfolding is_directory
  add_to_method text r pm =
      let rules = pm.rules ++ some r ∷ [] in
      let index = length rules - 1 in
      then_do (with_trie rules (add pm.trie text index)) λ pm'. elim (is_directory text) [
        | true ↦ with_trie rules (add pm'.trie (without_last text) index)
        | false ↦ done pm'
      ]

  -- The loop over the methods from one on.
  unfoldable pub add_to_methods :
      ℕ → Bytes → Rule Handler → List (PerMethod Handler) → Outcome (List (PerMethod Handler))
  add_to_methods method text r [] = done []
  add_to_methods method text r (pm ∷ pms) =
      then_do
        (elim (has_bit r.methods_bitfield method) [
          | true ↦ add_to_method text r pm
          | false ↦ done pm
        ])
        λ pm'. then_do (add_to_methods (suc method) text r pms) λ pms'. done (pm' ∷ pms')

  unfoldable pub internal_add_rule_object :
      Rule Handler → List (PerMethod Handler) → Outcome (List (PerMethod Handler))
  internal_add_rule_object r pms = add_to_methods 0 r.rule r pms

  -- The two loops of `validate`; no rule is ever upgraded.
  unfoldable pub add_rules :
      List (Rule Handler) → List (PerMethod Handler) → Outcome (List (PerMethod Handler))
  add_rules [] pms = done pms
  add_rules (r ∷ all_rules) pms = elim r.handler [
    | none ↦ no_handler
    | some handler ↦ then_do (internal_add_rule_object r pms) (add_rules all_rules)
  ]

  unfoldable pub optimize_all : List (PerMethod Handler) → Outcome (List (PerMethod Handler))
  optimize_all [] = done []
  optimize_all (pm ∷ pms) = elim (optimize pm.trie) [
    | none ↦ never_ends
    | some t ↦ then_do (optimize_all pms) λ pms'. done (record pm { trie = t } ∷ pms')
  ]

  abbrev pub new_router : List (PerMethod Handler)
  new_router = replicate (method_not_allowed_index + 1) new_per_method

  unfoldable pub validate : List (Rule Handler) → Outcome (List (PerMethod Handler))
  validate all_rules = then_do (add_rules all_rules new_router) optimize_all

  module _ {Double : Type 0} (strtod : Bytes → Option (Double × Bytes)) where
    -- `rules[i]`; a null pointer past the first place does not occur.
    abbrev pub rule_found : Option (Rule Handler) → RoutingParams Double → FindRoute Handler Double
    rule_found none ps = no_route
    rule_found (some r) ps = route r ps

    unfoldable pub find_in : Bytes → PerMethod Handler → FindRoute Handler Double
    find_in url pm =
        let found = find strtod pm.trie url in
        if leb (length pm.rules) found.0
        then corrupted
        else if found.0 == 0
        then no_route
        else rule_found (get_or pm.rules found.0 none) found.1

    unfoldable pub find_route_by_index :
        List (PerMethod Handler) → Bytes → ℕ → FindRoute Handler Double
    find_route_by_index pms url index = elim (get_elem? pms index) [
      | none ↦ no_route
      | some pm ↦ find_in url pm
    ]

    abbrev pub no_response : FindRouteResponse Handler Double
    no_response = record { allow_header = []; found = none }

    -- A route found at a verb: its name is appended, and the route kept if the verb is the request's.
    unfoldable pub note_route :
        ℕ
        → ℕ
        → Rule Handler
        → RoutingParams Double
        → FindRouteResponse Handler Double
        → FindRouteResponse Handler Double
    note_route req_method_index index r ps response = record {
      allow_header =
          (if length response.allow_header == 0
            then response.allow_header
            else response.allow_header ++ codes ", ")
          ++ http_verb_to_string (verb_of_index index);
      found = if index == req_method_index then some (r, ps) else response.found;
    }

    -- The loop of `findRoute`: the rounds left, and the number of the verb.
    unfoldable pub find_route_loop :
        List (PerMethod Handler)
        → Bytes
        → ℕ
        → ℕ
        → ℕ
        → FindRouteResponse Handler Double
        → Option (FindRouteResponse Handler Double)
    find_route_loop pms url req_method_index zero index response = some response
    find_route_loop pms url req_method_index (suc rounds) index response =
        elim (find_route_by_index pms url index) [
          | no_route ↦ find_route_loop pms url req_method_index rounds (suc index) response
          | route r ps ↦
              find_route_loop pms url req_method_index rounds (suc index)
                (note_route req_method_index index r ps response)
          | corrupted ↦ none
        ]

    unfoldable pub find_route :
        List (PerMethod Handler) → BoostVerb → Bytes → Option (FindRouteResponse Handler Double)
    find_route pms method url = elim (http_verb_from_boost method) [
      | none ↦ some no_response
      | some verb ↦ find_route_loop pms url (verb_index verb) (max_verb_index + 1) 0 no_response
    ]

    -- The lookup of a rule for 404 or 405, where no route was found.
    unfoldable pub fall_back :
        List (PerMethod Handler)
        → Bytes
        → FindRouteResponse Handler Double
        → FindRoute Handler Double
    fall_back pms url response = elim response.found [
      | some (r, ps) ↦ route r ps
      | none ↦
          find_route_by_index pms url (
            if length response.allow_header == 0 then not_found_index else method_not_allowed_index)
    ]

    unfoldable pub answer : Bool → Bool → Bytes → FindRoute Handler Double → Handled Handler Double
    answer has_session bypass_auth allow no_route =
        if length allow == 0 then result 404 allow else result 405 allow
    answer has_session bypass_auth allow (route r ps) =
        if not has_session || bypass_auth then called r ps allow else ignored allow
    answer has_session bypass_auth allow corrupted = exception

    unfoldable pub handle_response :
        List (PerMethod Handler)
        → Bytes
        → Bool
        → Bool
        → Option (FindRouteResponse Handler Double)
        → Handled Handler Double
    handle_response pms url has_session bypass_auth none = exception
    handle_response pms url has_session bypass_auth (some response) =
        answer has_session bypass_auth response.allow_header (fall_back pms url response)

    unfoldable pub handle :
        List (PerMethod Handler) → BoostVerb → Bytes → Bool → Bool → Handled Handler Double
    handle pms method url has_session bypass_auth = elim (http_verb_from_boost method) [
      | none ↦ result 404 []
      | some verb ↦
          if leb (length pms) (verb_index verb)
          then result 404 []
          else handle_response pms url has_session bypass_auth (find_route pms method url)
    ]

    unfoldable pub upgrade_in : ℕ → Bytes → PerMethod Handler → Upgraded Handler
    upgrade_in verb url pm =
        let rule_index = (find strtod pm.trie url).0 in
        if rule_index == 0
        then refused
        else if leb (length pm.rules) rule_index
        then trie_corrupted
        else elim (get_or pm.rules rule_index none) [
          | none ↦ refused
          | some r ↦ if has_bit r.methods_bitfield verb then upgraded r else refused
        ]

    unfoldable pub handle_upgrade : List (PerMethod Handler) → BoostVerb → Bytes → Upgraded Handler
    handle_upgrade pms method url = elim (http_verb_from_boost method) [
      | none ↦ refused
      | some verb ↦ elim (get_elem? pms (verb_index verb)) [
        | none ↦ refused
        | some pm ↦ upgrade_in (verb_index verb) url pm
      ]
    ]
