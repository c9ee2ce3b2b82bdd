-- ===== src/Router/Lookup.antt =====
-- http/routing.hpp, class `Router`: `findRoute`, the Allow header and the route that it keeps.
use crow_core.Common.{
  ℕ, zero, suc, ◌+◌, ◌<◌, ◌≤◌, Bytes, codes, length, List, [], ◌∷◌, ◌++◌, append_assoc, append-nil,
  Option, none, some, true, false, ◌==◌, if◌then◌else◌, ◌≡◌, ◌≢◌, inl, inr, refl, sym, ap, subst,
  ◌∙◌, arith, Bool-cases, length-append,
}
use crow_core.Trie.Find.{RoutingParams}
use crow_core.Verb.{
  HttpVerb, verb_index, max_verb_index, BoostVerb, http_verb_from_boost, http_verb_to_string,
  verb_of_index,
}
use crow_core.Router.{
  Rule, PerMethod, FindRoute, no_route, route, corrupted, find_route_by_index, FindRouteResponse,
  no_response, note_route, find_route_loop, find_route,
}

-- Names with ", " between them.
abbrev pub followed : List Bytes → Bytes
followed [] = []
followed (n ∷ ns) = codes ", " ++ (n ++ followed ns)

abbrev pub join : List Bytes → Bytes
join [] = []
join (n ∷ ns) = n ++ followed ns

-- The header as the loop grows it.
abbrev append_name : Bytes → Bytes → Bytes
append_name acc n = (if length acc == 0 then acc else acc ++ codes ", ") ++ n

abbrev append_names : Bytes → List Bytes → Bytes
append_names acc [] = acc
append_names acc (n ∷ ns) = append_names (append_name acc n) ns

append_names-followed :
    (ns : List Bytes) (acc : Bytes) → length acc ≢ 0 → append_names acc ns ≡ acc ++ followed ns
append_names-followed [] acc h = sym (append-nil acc)
append_names-followed (n ∷ ns) acc h =
    let full : (length acc == 0) ≡ false = ground arith in
    rw full (
      append_names-followed ns ((acc ++ codes ", ") ++ n)
        (omega (arith, length-append (acc ++ codes ", ") n, length-append acc (codes ", ")))
      ∙ (append_assoc (acc ++ codes ", ") n (followed ns)
          ∙ append_assoc acc (codes ", ") (n ++ followed ns)))

append_names-join :
    (n : Bytes) (ns : List Bytes) → length n ≢ 0 → append_names [] (n ∷ ns) ≡ join (n ∷ ns)
append_names-join n ns h = append_names-followed ns n h

abbrev pub name_of : ℕ → Bytes
name_of index = http_verb_to_string (verb_of_index index)

name_of-nonempty : (index : ℕ) → index < 7 → length (name_of index) ≢ 0
unfolding http_verb_to_string verb_of_index
name_of-nonempty zero h = λ z. absurd (omega (arith, z))
name_of-nonempty (suc zero) h = λ z. absurd (omega (arith, z))
name_of-nonempty (suc (suc zero)) h = λ z. absurd (omega (arith, z))
name_of-nonempty (suc (suc (suc zero))) h = λ z. absurd (omega (arith, z))
name_of-nonempty (suc (suc (suc (suc zero)))) h = λ z. absurd (omega (arith, z))
name_of-nonempty (suc (suc (suc (suc (suc zero))))) h = λ z. absurd (omega (arith, z))
name_of-nonempty (suc (suc (suc (suc (suc (suc zero)))))) h = λ z. absurd (omega (arith, z))
name_of-nonempty (suc (suc (suc (suc (suc (suc (suc n))))))) h = absurd (omega arith)

same_verb : {v w : HttpVerb} → ◌≡◌ {A = Option HttpVerb} (some v) (some w) → v ≡ w
same_verb e = cc

-- The verbs that the router knows are numbered below 7.
pub known_below :
    (method : BoostVerb) (verb : HttpVerb)
    → http_verb_from_boost method ≡ some verb
    → verb_index verb < 7
unfolding http_verb_from_boost verb_index
known_below BoostVerb.delete_ verb e = subst (λ v. verb_index v < 7) (same_verb e) (omega arith)
known_below BoostVerb.get verb e = subst (λ v. verb_index v < 7) (same_verb e) (omega arith)
known_below BoostVerb.head verb e = subst (λ v. verb_index v < 7) (same_verb e) (omega arith)
known_below BoostVerb.options verb e = subst (λ v. verb_index v < 7) (same_verb e) (omega arith)
known_below BoostVerb.patch verb e = subst (λ v. verb_index v < 7) (same_verb e) (omega arith)
known_below BoostVerb.post verb e = subst (λ v. verb_index v < 7) (same_verb e) (omega arith)
known_below BoostVerb.put verb e = subst (λ v. verb_index v < 7) (same_verb e) (omega arith)
known_below (BoostVerb.other n) verb e = absurd (cc e)

module _ {Handler Double : Type 0} (strtod : Bytes → Option (Double × Bytes))
    (pms : List (PerMethod Handler)) (url : Bytes) where
  abbrev lookup : ℕ → FindRoute Handler Double
  lookup = find_route_by_index strtod pms url

  -- No lookup of the URL throws.
  abbrev pub Intact : Type 0
  Intact = (index : ℕ) → lookup index ≢ corrupted

  abbrev pub as_option : FindRoute Handler Double → Option (Rule Handler × RoutingParams Double)
  as_option no_route = none
  as_option (route r ps) = some (r, ps)
  as_option corrupted = none

  abbrev names_if : FindRoute Handler Double → Bytes → List Bytes → List Bytes
  names_if no_route n ns = ns
  names_if (route r ps) n ns = n ∷ ns
  names_if corrupted n ns = ns

  -- The names of the verbs from `index` on at which the URL has a route.
  abbrev pub names_from : ℕ → ℕ → List Bytes
  names_from zero index = []
  names_from (suc rounds) index =
      names_if (lookup index) (name_of index) (names_from rounds (suc index))

  -- The names of all verbs at which the URL has a route.
  abbrev pub allowed : List Bytes
  allowed = names_from 7 0

  abbrev kept :
      ℕ
      → ℕ
      → FindRoute Handler Double
      → Option (Rule Handler × RoutingParams Double)
      → Option (Rule Handler × RoutingParams Double)
  kept q index no_route found = found
  kept q index (route r ps) found = if index == q then some (r, ps) else found
  kept q index corrupted found = found

  abbrev kept_from :
      ℕ
      → ℕ
      → ℕ
      → Option (Rule Handler × RoutingParams Double)
      → Option (Rule Handler × RoutingParams Double)
  kept_from q zero index found = found
  kept_from q (suc rounds) index found =
      kept_from q rounds (suc index) (kept q index (lookup index) found)

  -- What the loop does from a verb on.
  abbrev EndsWith : ℕ → ℕ → ℕ → FindRouteResponse Handler Double → Type 0
  EndsWith q rounds index response =
      find_route_loop strtod pms url q rounds index response
      ≡ some (record {
        allow_header = append_names response.allow_header (names_from rounds index);
        found = kept_from q rounds index response.found;
      })

  one_round :
      (q rounds index : ℕ) (response : FindRouteResponse Handler Double)
      (f : FindRoute Handler Double)
      → Intact
      → ((after : FindRouteResponse Handler Double) → EndsWith q rounds (suc index) after)
      → lookup index ≡ f
      → EndsWith q (suc rounds) index response
  unfolding find_route_loop note_route
  one_round q rounds index response no_route h others e =
      rw (e, find_route_loop, names_from, kept_from) (others response)
  one_round q rounds index response (route r ps) h others e =
      rw (e, find_route_loop, names_from, kept_from)
        (others (note_route strtod q index r ps response))
  one_round q rounds index response corrupted h others e = absurd (h index e)

  after_loop :
      (q rounds index : ℕ) (response : FindRouteResponse Handler Double)
      → Intact
      → EndsWith q rounds index response
  unfolding find_route_loop
  after_loop q zero index response h = refl
  after_loop q (suc rounds) index response h =
      one_round q rounds index response (lookup index) h
        (λ after. after_loop q rounds (suc index) after h) refl

  kept-other :
      (q index : ℕ) (f : FindRoute Handler Double)
      (found : Option (Rule Handler × RoutingParams Double))
      → index ≢ q
      → kept q index f found ≡ found
  kept-other q index no_route found h = refl
  kept-other q index (route r ps) found h =
      let away : (index == q) ≡ false = ground arith in rw away
  kept-other q index corrupted found h = refl

  kept-here : (q : ℕ) (f : FindRoute Handler Double) → kept q q f none ≡ as_option f
  kept-here q no_route = refl
  kept-here q (route r ps) = let here : (q == q) ≡ true = ground arith in rw here
  kept-here q corrupted = refl

  kept_from-past :
      (q rounds index : ℕ) (found : Option (Rule Handler × RoutingParams Double))
      → q < index
      → kept_from q rounds index found ≡ found
  kept_from-past q zero index found h = refl
  kept_from-past q (suc rounds) index found h =
      kept_from-past q rounds (suc index) _ (omega arith)
      ∙ kept-other q index (lookup index) found (omega arith)

  kept_from-here :
      (q rounds index : ℕ)
      → index ≤ q
      → q < index + rounds
      → kept_from q rounds index none ≡ as_option (lookup q)
  kept_from-here q zero index h k = absurd (omega arith)
  kept_from-here q (suc rounds) index h k = elim (Bool-cases (index == q)) [
    | inl here ↦
        let same : index ≡ q = ground arith in
        kept_from-past q rounds (suc index) _ (omega arith) ∙ rw same (kept-here q (lookup q))
    | inr other ↦
        let away : index ≢ q = ground arith in
        ap (λ f. kept_from q rounds (suc index) f) (kept-other q index (lookup index) none away)
        ∙ kept_from-here q rounds (suc index) (omega (arith, away)) (omega arith)
  ]

  joined_if :
      (f : FindRoute Handler Double) (n : Bytes) (ns : List Bytes)
      → length n ≢ 0
      → append_names [] ns ≡ join ns
      → append_names [] (names_if f n ns) ≡ join (names_if f n ns)
  joined_if no_route n ns h k = k
  joined_if (route r ps) n ns h k = append_names-join n ns h
  joined_if corrupted n ns h k = k

  append_names-names_from :
      (rounds index : ℕ)
      → index + rounds ≤ 7
      → append_names [] (names_from rounds index) ≡ join (names_from rounds index)
  append_names-names_from zero index h = refl
  append_names-names_from (suc rounds) index h =
      joined_if (lookup index) (name_of index) (names_from rounds (suc index))
        (name_of-nonempty index (omega arith))
        (append_names-names_from rounds (suc index) (omega arith))

  -- Where no lookup throws, `findRoute` for a verb that the router knows sets the Allow header to the
  -- names of the verbs at which the URL has a route, with ", " between them and in the order of their
  -- numbers, and the route is the one found at the verb asked for.
  pub find_route-allowed :
      (method : BoostVerb) (verb : HttpVerb)
      → Intact
      → http_verb_from_boost method ≡ some verb
      → find_route strtod pms method url
        ≡ some
            (record { allow_header = join allowed; found = as_option (lookup (verb_index verb)) })
  unfolding find_route max_verb_index
  find_route-allowed method verb h known =
      rw (known, find_route)
        (after_loop (verb_index verb) 7 0 (no_response strtod) h
          ∙ rw (
            append_names-names_from 7 0 (omega arith),
            kept_from-here (verb_index verb) 7 0 (omega arith)
                (omega (arith, known_below method verb known)),
          ))

  empty_if :
      (f : FindRoute Handler Double) (n : Bytes) (ns : List Bytes)
      → length n ≢ 0
      → (length (join ns) ≡ 0 → ns ≡ [])
      → length (join (names_if f n ns)) ≡ 0
      → names_if f n ns ≡ []
  empty_if no_route n ns h k e = k e
  empty_if (route r ps) n ns h k e = absurd (h (omega (arith, length-append n (followed ns), e)))
  empty_if corrupted n ns h k e = k e

  names_from-empty :
      (rounds index : ℕ)
      → index + rounds ≤ 7
      → length (join (names_from rounds index)) ≡ 0
      → names_from rounds index ≡ []
  names_from-empty zero index h e = refl
  names_from-empty (suc rounds) index h e =
      empty_if (lookup index) (name_of index) (names_from rounds (suc index))
        (name_of-nonempty index (omega arith))
        (λ z. names_from-empty rounds (suc index) (omega arith) z) e

  -- The header is empty only where the URL has a route at no verb.
  pub allowed-empty : length (join allowed) ≡ 0 → allowed ≡ []
  allowed-empty e = names_from-empty 7 0 (omega arith) e
