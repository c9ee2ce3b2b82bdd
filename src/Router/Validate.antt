-- ===== src/Router/Validate.antt =====
-- http/routing.hpp, class `Router`: the lookups in what `validate` builds.
use crow_core.Common.{
  ℕ, zero, suc, ◌+◌, ◌<◌, ◌≤◌, Bytes, length, List, [], ◌∷◌, ◌++◌, All, Option, some, true, false,
  ◌==◌, leb, ◌≡◌, ◌≢◌, ◌⊎◌, inl, inr, refl, sym, ap, ◌∙◌, subst, arith, Bool-cases,
}
use crow_core.Trie.Edges.{Label}
use crow_core.Trie.Invariant.{rule_of}
use crow_core.Trie.Find.{RoutingParams, no_params, find}
use crow_core.Trie.Routes.{extend, reads, Answers}
use crow_core.Trie.Optimize.Total.{optimize-Answers}
use crow_core.Trie.Optimize.Built.{WellFormed-Optimizable}
use crow_core.Verb.{max_verb_index, method_not_allowed_index}
use crow_core.Router.{
  has_bit, Rule, PerMethod, done, then_do, add_rules, optimize_all, new_router, validate, no_route,
  route, corrupted, rule_found, find_in, find_route_by_index,
}
use crow_core.Router.Build.{then_do-done, done_inj, Sound, Covers}
use crow_core.Router.Adding.{
  CoveredFrom, Adds, add_rules-Adds, length-AllKeep, new_router-Sound, All-middle,
}

module _ {Handler : Type 0} where
  -- A method whose trie is `optimize`'s: the rules and the answers are those of the trie before.
  module _ {Double : Type 0} (strtod : Bytes → Option (Double × Bytes)) where
    record Optimized (pm pm' : PerMethod Handler) : Type 0 where
      pub same_rules : pm'.rules ≡ pm.rules
      pub answers : (url : Bytes) → Answers strtod pm.trie url (find strtod pm'.trie url)

    abbrev AllOptimized : List (PerMethod Handler) → List (PerMethod Handler) → Type 0
    AllOptimized [] [] = Unit
    AllOptimized (p ∷ ps) (q ∷ qs) = Optimized p q × AllOptimized ps qs
    AllOptimized _ _ = ⊥

    -- `optimize_all` ends, with every method optimized.
    optimize_all-Optimized :
        (pms : List (PerMethod Handler))
        → All Sound pms
        → (pms' : List (PerMethod Handler)) × (optimize_all pms ≡ done pms') × AllOptimized pms pms'
    unfolding optimize_all then_do
    optimize_all-Optimized [] s = ([], refl, tt)
    optimize_all-Optimized (pm ∷ pms) (s, ss) =
        let (t, ended, shape, answers) =
          optimize-Answers strtod pm.trie (WellFormed-Optimizable s.shape s.literal) in
        let (pms', others, rest) = optimize_all-Optimized pms ss in
        (
          record pm { trie = t } ∷ pms',
          rw (ended, others, optimize_all, then_do),
          (record { same_rules = refl; answers = λ url. (answers url).0 }, rest),
        )

    module _ (pm pm' : PerMethod Handler) (url : Bytes) (s : Sound pm) (o : Optimized pm pm') where
      -- The number found is that of a rule, or 0.
      found_below : (find strtod pm'.trie url).0 < length pm.rules
      found_below = elim (Bool-cases ((find strtod pm'.trie url).0 == 0)) [
        | inl nothing ↦ ground (arith, s.bounded [])
        | inr something ↦
            let (labels, is, read) = (o.answers url).sound (ground arith) in
            rw is at (s.bounded (extend [] labels))
      ]

      -- What a lookup in an optimized method finds.
      find_in-cases :
          ((find_in strtod url pm' ≡ no_route) × ((find strtod pm'.trie url).0 ≡ 0))
          ⊎ ((r : Rule Handler) × (find_in strtod url pm' ≡ route r (find strtod pm'.trie url).1))
      unfolding find_in
      find_in-cases =
          let inside : leb (length pm.rules) (find strtod pm'.trie url).0 ≡ false =
            ground (arith, found_below) in
          elim (Bool-cases ((find strtod pm'.trie url).0 == 0)) [
            | inl nothing ↦ inl (rw (o.same_rules, inside, nothing), ground arith)
            | inr something ↦
                let (r, there) =
                  s.present (find strtod pm'.trie url).0 found_below (ground arith) in
                inr (r, rw (o.same_rules, inside, something, there, rule_found))
          ]

      find_in-never-corrupted : find_in strtod url pm' ≢ corrupted
      find_in-never-corrupted e = elim find_in-cases [
        | inl (nothing, z) ↦ cc (nothing, e)
        | inr (r, found) ↦ cc (found, e)
      ]

      find_in-route :
          (labels : List Label) (q : RoutingParams Double)
          → rule_of pm.trie (extend [] labels) ≢ 0
          → reads strtod labels url no_params ≡ some q
          → (r : Rule Handler) × (ps : RoutingParams Double) × (find_in strtod url pm' ≡ route r ps)
      find_in-route labels q ne read = elim find_in-cases [
        | inl (nothing, z) ↦ absurd (((o.answers url).least labels q read ne).0 z)
        | inr (r, found) ↦ (r, (find strtod pm'.trie url).1, found)
      ]

    All-never_corrupted :
        (pms pms' : List (PerMethod Handler)) (url : Bytes) (i : ℕ)
        → All Sound pms
        → AllOptimized pms pms'
        → find_route_by_index strtod pms' url i ≢ corrupted
    unfolding find_route_by_index
    All-never_corrupted [] [] url i s o e = cc e
    All-never_corrupted [] (q ∷ qs) url i s o e = o
    All-never_corrupted (p ∷ ps) [] url i s o e = o
    All-never_corrupted (p ∷ ps) (q ∷ qs) url zero s o e = find_in-never-corrupted p q url s.0 o.0 e
    All-never_corrupted (p ∷ ps) (q ∷ qs) url (suc i) s o e =
        All-never_corrupted ps qs url i s.1 o.1 e

    All-route :
        (pms pms' : List (PerMethod Handler)) (r : Rule Handler) (first i : ℕ) (url : Bytes)
        (labels : List Label) (q : RoutingParams Double)
        → All Sound pms
        → AllOptimized pms pms'
        → CoveredFrom r first pms
        → i < length pms
        → has_bit r.methods_bitfield (first + i) ≡ true
        → Covers r (extend [] labels)
        → reads strtod labels url no_params ≡ some q
        → (r' : Rule Handler) × (ps : RoutingParams Double) × (find_route_by_index strtod pms' url i
            ≡ route r' ps)
    unfolding find_route_by_index
    All-route [] [] r first i url labels q s o h inside bit c read = absurd (omega arith)
    All-route [] (p' ∷ ps') r first i url labels q s o h inside bit c read = absurd o
    All-route (p ∷ ps) [] r first i url labels q s o h inside bit c read = absurd o
    All-route (p ∷ ps) (p' ∷ ps') r first zero url labels q s o h inside bit c read =
        let same : first + zero ≡ first = omega arith in
        find_in-route p p' url s.0 o.0 labels q (h.0 (rw same at bit) (extend [] labels) c) read
    All-route (p ∷ ps) (p' ∷ ps') r first (suc i) url labels q s o h inside bit c read =
        let same : first + suc i ≡ suc first + i = omega arith in
        All-route ps ps' r (suc first) i url labels q s.1 o.1 h.1 (omega arith) (rw same at bit) c
          read

    -- What `validate` has done when it returns: all rules added, all methods optimized.
    record Validated (rules : List (Rule Handler)) (pms : List (PerMethod Handler)) : Type 0 where
      pub before : List (PerMethod Handler)
      pub adds : Adds rules new_router before
      pub optimized : AllOptimized before pms

    validate-Validated :
        (rules : List (Rule Handler)) (pms : List (PerMethod Handler))
        → validate rules ≡ done pms
        → Validated rules pms
    unfolding validate
    validate-Validated rules pms e =
        let (mid, first, later) = then_do-done (add_rules rules new_router) optimize_all pms e in
        let a = add_rules-Adds rules new_router mid (new_router-Sound Handler).0 first in
        let (pms', ended, o) = optimize_all-Optimized mid a.sound in
        subst (λ p. Validated rules p) (done_inj (sym ended ∙ later))
          (record { before = mid; adds = a; optimized = o })

    -- Once every rule is added, `validate` ends: optimizing neither throws nor runs on.
    pub validate-ends :
        (rules : List (Rule Handler)) (added_to : List (PerMethod Handler))
        → add_rules rules new_router ≡ done added_to
        → (pms : List (PerMethod Handler)) × (validate rules ≡ done pms)
    unfolding validate then_do
    validate-ends rules added_to e =
        let a = add_rules-Adds rules new_router added_to (new_router-Sound Handler).0 e in
        let (pms, ended, o) = optimize_all-Optimized added_to a.sound in
        (pms, rw (e, then_do) ended)

    length-AllOptimized :
        (ps qs : List (PerMethod Handler)) → AllOptimized ps qs → length ps ≡ length qs
    length-AllOptimized [] [] h = refl
    length-AllOptimized [] (q ∷ qs) h = absurd h
    length-AllOptimized (p ∷ ps) [] h = absurd h
    length-AllOptimized (p ∷ ps) (q ∷ qs) h = ap suc (length-AllOptimized ps qs h.1)

    pub length-validate :
        (rules : List (Rule Handler)) (pms : List (PerMethod Handler))
        → validate rules ≡ done pms
        → length pms ≡ 9
    length-validate rules pms e =
        let v = validate-Validated rules pms e in
        sym (
          sym (new_router-Sound Handler).1
          ∙ (length-AllKeep new_router v.before v.adds.keeps
              ∙ length-AllOptimized v.before pms v.optimized))

    -- In a router that `validate` has built, no lookup of any URL under any method throws "Trie
    -- internal structure corrupted!".
    pub validate-never_corrupted :
        (rules : List (Rule Handler)) (pms : List (PerMethod Handler)) (url : Bytes) (index : ℕ)
        → validate rules ≡ done pms
        → find_route_by_index strtod pms url index ≢ corrupted
    validate-never_corrupted rules pms url index e =
        let v = validate-Validated rules pms e in
        All-never_corrupted v.before pms url index v.adds.sound v.optimized

    -- In a router that `validate` has built, a lookup finds a route for every URL that a registered
    -- rule fits, under each of the methods of that rule: the labels read the URL, and they are those
    -- that the rule's text spells, with or without its last slash where it has one.
    pub validate-serves :
        (before after : List (Rule Handler)) (r : Rule Handler) (pms : List (PerMethod Handler))
        (index : ℕ) (url : Bytes) (labels : List Label) (q : RoutingParams Double)
        → validate (before ++ r ∷ after) ≡ done pms
        → index ≤ method_not_allowed_index
        → has_bit r.methods_bitfield index ≡ true
        → Covers r (extend [] labels)
        → reads strtod labels url no_params ≡ some q
        → (r' : Rule Handler) × (ps : RoutingParams Double) × (find_route_by_index strtod pms url
              index
            ≡ route r' ps)
    unfolding max_verb_index
    validate-serves before after r pms index url labels q e small bit c read =
        let v = validate-Validated (before ++ r ∷ after) pms e in
        let no_offset : 0 + index ≡ index = omega arith in
        let nine = (new_router-Sound Handler).1 in
        let size_is = length-AllKeep new_router v.before v.adds.keeps in
        All-route v.before pms r 0 index url labels q v.adds.sound v.optimized
          (All-middle _ before after r v.adds.covered) (omega (arith, nine, size_is))
          (rw no_offset bit) c read
