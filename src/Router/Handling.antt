-- ===== src/Router/Handling.antt =====
-- http/routing.hpp, class `Router`: the outcomes of `handle`.
use crow_core.Common.{
  ℕ, ◌≤◌, Bytes, length, List, [], ◌∷◌, ◌++◌, Option, some, Bool, true, false, ◌==◌, leb, ◌≡◌, ◌≢◌,
  ◌⊎◌, inl, inr, refl, sym, ap, ◌∙◌, arith, Bool-cases,
}
use crow_core.Trie.Edges.{Label}
use crow_core.Trie.Find.{RoutingParams, no_params}
use crow_core.Trie.Routes.{extend, reads}
use crow_core.Verb.{
  HttpVerb, verb_index, max_verb_index, not_found_index, method_not_allowed_index, BoostVerb,
  http_verb_from_boost,
}
use crow_core.Router.Build.{Covers}
use crow_core.Router.Validate.{validate-never_corrupted, validate-serves, length-validate}
use crow_core.Router.{
  has_bit, validate, done, Rule, PerMethod, FindRoute, no_route, route, corrupted,
  find_route_by_index, FindRouteResponse, Handled, result, called, ignored, fall_back, answer,
  handle_response, handle,
}
use crow_core.Router.Lookup.{
  join, Intact, as_option, allowed, find_route-allowed, known_below, allowed-empty,
}

below_all :
    (method : BoostVerb) (verb : HttpVerb)
    → http_verb_from_boost method ≡ some verb
    → verb_index verb ≤ method_not_allowed_index
unfolding max_verb_index
below_all method verb known = omega (arith, known_below method verb known)

module _ {Handler Double : Type 0} (strtod : Bytes → Option (Double × Bytes))
    (pms : List (PerMethod Handler)) (url : Bytes) where
  abbrev lookup : ℕ → FindRoute Handler Double
  lookup = find_route_by_index strtod pms url

  abbrev allow : Bytes
  allow = join (allowed strtod pms url)

  -- The rule that is to answer a request for a verb: the one found there; else the one for 404 where
  -- the URL has a route at no verb, and the one for 405 where it has one.
  pub data Chosen (verb : HttpVerb) : FindRoute Handler Double → Type 0 where
    own :
        {r : Rule Handler} {ps : RoutingParams Double}
        → lookup (verb_index verb) ≡ route r ps
        → Chosen verb (route r ps)
    for_not_found :
        lookup (verb_index verb) ≡ no_route
        → allowed strtod pms url ≡ []
        → Chosen verb (lookup not_found_index)
    for_method_not_allowed :
        lookup (verb_index verb) ≡ no_route
        → allowed strtod pms url ≢ []
        → Chosen verb (lookup method_not_allowed_index)

  -- The outcomes of `handle`: the Allow header is that of all verbs, and a rule is called unless the
  -- request has a session and `bypass_auth` is false.
  pub data Responds (verb : HttpVerb) (has_session bypass_auth : Bool)
      : Handled Handler Double → Type 0 where
    calls :
        {r : Rule Handler} {ps : RoutingParams Double}
        → Chosen verb (route r ps)
        → (has_session ≡ false) ⊎ (bypass_auth ≡ true)
        → Responds verb has_session bypass_auth (called r ps allow)
    drops :
        {r : Rule Handler} {ps : RoutingParams Double}
        → Chosen verb (route r ps)
        → has_session ≡ true
        → bypass_auth ≡ false
        → Responds verb has_session bypass_auth (ignored allow)
    not_found :
        Chosen verb no_route
        → allowed strtod pms url ≡ []
        → Responds verb has_session bypass_auth (result 404 [])
    method_not_allowed :
        Chosen verb no_route
        → allowed strtod pms url ≢ []
        → Responds verb has_session bypass_auth (result 405 allow)

  response_of : FindRoute Handler Double → FindRouteResponse Handler Double
  response_of f = record { allow_header = allow; found = as_option strtod pms url f }

  empty_allow : allowed strtod pms url ≡ [] → allow ≡ []
  empty_allow e = ap join e

  fall_back-Chosen :
      (verb : HttpVerb) (f : FindRoute Handler Double)
      → Intact strtod pms url
      → lookup (verb_index verb) ≡ f
      → Chosen verb (fall_back strtod pms url (response_of f))
  unfolding fall_back response_of
  fall_back-Chosen verb (route r ps) h e = own e
  fall_back-Chosen verb corrupted h e = absurd (h (verb_index verb) e)
  fall_back-Chosen verb no_route h e = elim (Bool-cases (length allow == 0)) [
    | inl none_allowed ↦
        rw none_allowed (for_not_found e (allowed-empty strtod pms url (ground arith)))
    | inr some_allowed ↦
        rw some_allowed
          (for_method_not_allowed e λ z. absurd (nonzero some_allowed (ap length (empty_allow z))))
  ]
    where
      nonzero : (length allow == 0) ≡ false → length allow ≡ 0 → ⊥
      nonzero a b = ground arith

  Chosen-corrupted :
      (verb : HttpVerb) {f : FindRoute Handler Double}
      → Intact strtod pms url
      → Chosen verb f
      → f ≢ corrupted
  Chosen-corrupted verb h (own e) z = cc z
  Chosen-corrupted verb h (for_not_found e a) z = h not_found_index z
  Chosen-corrupted verb h (for_method_not_allowed e a) z = h method_not_allowed_index z

  answer-Responds :
      (verb : HttpVerb) (has_session bypass_auth : Bool) (f : FindRoute Handler Double)
      → Intact strtod pms url
      → Chosen verb f
      → Responds verb has_session bypass_auth (answer strtod has_session bypass_auth allow f)
  unfolding answer
  answer-Responds verb false b (route r ps) h c = calls c (inl refl)
  answer-Responds verb true true (route r ps) h c = calls c (inr refl)
  answer-Responds verb true false (route r ps) h c = drops c refl refl
  answer-Responds verb s b corrupted h c = absurd (Chosen-corrupted verb h c refl)
  answer-Responds verb s b no_route h c = elim (Bool-cases (length allow == 0)) [
    | inl none_allowed ↦
        let empty = allowed-empty strtod pms url (ground arith) in
        rw (none_allowed, empty_allow empty) (not_found c empty)
    | inr some_allowed ↦
        rw some_allowed
          (method_not_allowed c λ z. absurd (nonzero some_allowed (ap length (empty_allow z))))
  ]
    where
      nonzero : (length allow == 0) ≡ false → length allow ≡ 0 → ⊥
      nonzero a b' = ground arith

  -- Where no lookup throws, `handle` answers a request for a verb that the router knows like this:
  -- the rule found at the verb, or else the rule for 404 or 405, is called, unless the request has a
  -- session and does not bypass authentication, in which case nothing is called; where there is no
  -- such rule, the status is 404 or 405; and the Allow header has the verbs that have a route.
  pub handle-Responds :
      (method : BoostVerb) (verb : HttpVerb) (has_session bypass_auth : Bool)
      → Intact strtod pms url
      → http_verb_from_boost method ≡ some verb
      → length pms ≡ 9
      → Responds verb has_session bypass_auth (handle strtod pms method url has_session bypass_auth)
  unfolding handle handle_response response_of
  handle-Responds method verb s b h known nine =
      let inside : leb (length pms) (verb_index verb) ≡ false =
        ground (arith, known_below method verb known) in
      rw
        (
          known,
          inside,
          find_route-allowed strtod pms url method verb h known,
          handle,
          handle_response,
        )
        (answer-Responds verb s b _ h (fall_back-Chosen verb (lookup (verb_index verb)) h refl))

  -- In a router that `validate` has built, `handle` never throws, and answers a request for a verb
  -- that the router knows like this: the rule found at the verb, or else the rule for 404 or 405, is
  -- called, unless the request has a session and does not bypass authentication, in which case nothing
  -- is called; where there is no such rule, the status is 404 or 405; and the Allow header has the
  -- names of the verbs at which the URL has a route.
  pub validate-Responds :
      (rules : List (Rule Handler)) (method : BoostVerb) (verb : HttpVerb)
      (has_session bypass_auth : Bool)
      → validate rules ≡ done pms
      → http_verb_from_boost method ≡ some verb
      → Responds verb has_session bypass_auth (handle strtod pms method url has_session bypass_auth)
  validate-Responds rules method verb s b e known =
      handle-Responds method verb s b
        (λ index. validate-never_corrupted strtod rules pms url index e) known
        (length-validate strtod rules pms e)

  Chosen-own :
      (verb : HttpVerb) {f : FindRoute Handler Double} (r : Rule Handler)
      (ps : RoutingParams Double)
      → lookup (verb_index verb) ≡ route r ps
      → Chosen verb f
      → f ≡ route r ps
  Chosen-own verb r ps found (own e) = sym e ∙ found
  Chosen-own verb r ps found (for_not_found e a) = absurd (cc (e, found))
  Chosen-own verb r ps found (for_method_not_allowed e a) = absurd (cc (e, found))

  same_call :
      {r r' : Rule Handler} {ps ps' : RoutingParams Double}
      → ◌≡◌ {A = FindRoute Handler Double} (route r ps) (route r' ps')
      → ◌≡◌ {A = Handled Handler Double} (called r ps allow) (called r' ps' allow)
  same_call e = cc

  Responds-own :
      (verb : HttpVerb) (bypass_auth : Bool) {out : Handled Handler Double} (r : Rule Handler)
      (ps : RoutingParams Double)
      → lookup (verb_index verb) ≡ route r ps
      → Responds verb false bypass_auth out
      → out ≡ called r ps allow
  Responds-own verb b r ps found (calls c o) = same_call (Chosen-own verb r ps found c)
  Responds-own verb b r ps found (drops c session bypass) = absurd (cc session)
  Responds-own verb b r ps found (not_found c none_allowed) =
      absurd (cc (Chosen-own verb r ps found c))
  Responds-own verb b r ps found (method_not_allowed c some_allowed) =
      absurd (cc (Chosen-own verb r ps found c))

  -- In a router that `validate` has built, a request without a session whose URL a registered rule
  -- fits, under a method of that rule, ends in the call of the rule
  -- that is found at the method.
  pub handle-serves :
      (before after : List (Rule Handler)) (rule : Rule Handler) (method : BoostVerb)
      (verb : HttpVerb) (bypass_auth : Bool) (labels : List Label) (q : RoutingParams Double)
      → validate (before ++ rule ∷ after) ≡ done pms
      → http_verb_from_boost method ≡ some verb
      → has_bit rule.methods_bitfield (verb_index verb) ≡ true
      → Covers rule (extend [] labels)
      → reads strtod labels url no_params ≡ some q
      → (r' : Rule Handler) × (ps : RoutingParams Double) × (lookup (verb_index verb) ≡ route r' ps)
        × (handle strtod pms method url false bypass_auth ≡ called r' ps allow)
  handle-serves before after rule method verb b labels q e known bit c read =
      let (r, ps, found) =
        validate-serves strtod before after rule pms (verb_index verb) url labels q e
          (below_all method verb known) bit c read in
      (
        r,
        ps,
        found,
        Responds-own verb b r ps found
            (validate-Responds (before ++ rule ∷ after) method verb false b e known),
      )
