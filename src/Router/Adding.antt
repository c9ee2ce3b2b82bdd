-- ===== src/Router/Adding.antt =====
-- http/routing.hpp, class `Router`: what registering rules leaves in the methods' tries.
use crow_core.Common.{
  ℕ, zero, suc, ◌<◌, length, List, [], ◌∷◌, ◌++◌, All, Bool, true, false, ◌≡◌, ◌≢◌, inl, inr, refl,
  ap, subst, arith, Option-cases,
}
use crow_core.Trie.{empty_trie, node_at}
use crow_core.Trie.Edges.{Label, size, rule_at}
use crow_core.Trie.Invariant.{empty_trie-WellFormed, walk, walk-lt-size, rule_of, rule_or_none}
use crow_core.Trie.Optimize.Built.{empty_trie-AllLiteral}
use crow_core.Verb.{max_verb_index}
use crow_core.Router.{
  has_bit, Rule, PerMethod, new_per_method, done, add_to_method, add_to_methods,
  internal_add_rule_object, add_rules, new_router,
}
use crow_core.Router.Build.{then_do-done, done_inj, KeepsRules, Sound, Covers, add_to_method-Takes}

rule_at-empty_trie : (n : ℕ) → n < size empty_trie → rule_at empty_trie n ≡ 0
unfolding node_at
rule_at-empty_trie zero h = refl
rule_at-empty_trie (suc n) h = absurd (omega arith)

rule_of-empty_trie : (path : List Label) → rule_of empty_trie path ≡ 0
unfolding rule_of
rule_of-empty_trie path = elim (Option-cases (walk empty_trie path)) [
  | inl missing ↦ rw (missing, rule_or_none)
  | inr (n, found) ↦
      rw (found, rule_or_none)
        (rule_at-empty_trie n (walk-lt-size empty_trie path n empty_trie-WellFormed found))
]

module _ {Handler : Type 0} where
  -- Two routers, method by method.
  abbrev pub AllKeep : List (PerMethod Handler) → List (PerMethod Handler) → Type 0
  AllKeep [] [] = Unit
  AllKeep (p ∷ ps) (q ∷ qs) = KeepsRules p.trie q.trie × AllKeep ps qs
  AllKeep _ _ = ⊥

  AllKeep-refl : (ps : List (PerMethod Handler)) → AllKeep ps ps
  AllKeep-refl [] = tt
  AllKeep-refl (p ∷ ps) = (λ path had. had, AllKeep-refl ps)

  -- A rule covers its paths in the methods that its bits name, the first of which has this number.
  abbrev pub Covered : Rule Handler → ℕ → PerMethod Handler → Type 0
  Covered r method pm =
      has_bit r.methods_bitfield method ≡ true
      → (path : List Label) → Covers r path
      → rule_of pm.trie path ≢ 0

  abbrev pub CoveredFrom : Rule Handler → ℕ → List (PerMethod Handler) → Type 0
  CoveredFrom r method [] = Unit
  CoveredFrom r method (pm ∷ pms) = Covered r method pm × CoveredFrom r (suc method) pms

  CoveredFrom-AllKeep :
      (r : Rule Handler) (method : ℕ) (ps qs : List (PerMethod Handler))
      → AllKeep ps qs
      → CoveredFrom r method ps
      → CoveredFrom r method qs
  CoveredFrom-AllKeep r method [] [] k h = tt
  CoveredFrom-AllKeep r method [] (q ∷ qs) k h = absurd k
  CoveredFrom-AllKeep r method (p ∷ ps) [] k h = absurd k
  CoveredFrom-AllKeep r method (p ∷ ps) (q ∷ qs) k h =
      (λ bit path c. k.0 path (h.0 bit path c), CoveredFrom-AllKeep r (suc method) ps qs k.1 h.1)

  record Step (r : Rule Handler) (method : ℕ) (pms pms' : List (PerMethod Handler)) : Type 0 where
    pub sound : All Sound pms'
    pub keeps : AllKeep pms pms'
    pub covered : CoveredFrom r method pms'

  record One (r : Rule Handler) (method : ℕ) (pm pm' : PerMethod Handler) : Type 0 where
    pub sound : Sound pm'
    pub keeps : KeepsRules pm.trie pm'.trie
    pub covered : Covered r method pm'

  One-method :
      (r : Rule Handler) (method : ℕ) (pm pm' : PerMethod Handler) (bit : Bool)
      → has_bit r.methods_bitfield method ≡ bit
      → Sound pm
      → elim bit [ true ↦ add_to_method r.rule r pm | false ↦ done pm ] ≡ done pm'
      → One r method pm pm'
  One-method r method pm pm' true e s added =
      let t = add_to_method-Takes r pm pm' s added in
      record { sound = t.sound; keeps = t.keeps; covered = λ bit. t.covered }
  One-method r method pm pm' false e s same =
      subst (λ p. One r method pm p) (done_inj same)
        (record {
          sound = s;
          keeps = λ path had. had;
          covered = λ bit path c. absurd (cc (bit, e));
        })

  add_to_methods-Step :
      (r : Rule Handler) (method : ℕ) (pms pms' : List (PerMethod Handler))
      → All Sound pms
      → add_to_methods method r.rule r pms ≡ done pms'
      → Step r method pms pms'
  unfolding add_to_methods
  add_to_methods-Step r method [] pms' s e =
      subst (λ p. Step r method [] p) (done_inj e) (record { sound = tt; keeps = tt; covered = tt })
  add_to_methods-Step r method (pm ∷ pms) pms' s e =
      let (pm', first, later) = then_do-done _ _ pms' e in
      let (rest, others, whole) = then_do-done _ _ pms' later in
      let o = One-method r method pm pm' (has_bit r.methods_bitfield method) refl s.0 first in
      let st = add_to_methods-Step r (suc method) pms rest s.1 others in
      subst (λ p. Step r method (pm ∷ pms) p) (done_inj whole)
        (record {
          sound = (o.sound, st.sound);
          keeps = (o.keeps, st.keeps);
          covered = (o.covered, st.covered);
        })

  AllKeep-trans :
      (ps qs rs : List (PerMethod Handler)) → AllKeep ps qs → AllKeep qs rs → AllKeep ps rs
  AllKeep-trans [] [] [] h k = tt
  AllKeep-trans (p ∷ ps) (q ∷ qs) (r ∷ rs) h k =
      (λ path had. k.0 path (h.0 path had), AllKeep-trans ps qs rs h.1 k.1)
  AllKeep-trans [] (q ∷ qs) rs h k = absurd h
  AllKeep-trans (p ∷ ps) [] rs h k = absurd h
  AllKeep-trans [] [] (r ∷ rs) h k = absurd k
  AllKeep-trans (p ∷ ps) (q ∷ qs) [] h k = absurd k

  pub record Adds (rules : List (Rule Handler)) (pms pms' : List (PerMethod Handler)) : Type 0 where
    pub sound : All Sound pms'
    pub keeps : AllKeep pms pms'
    pub covered : All (λ r. CoveredFrom r 0 pms') rules

  pub add_rules-Adds :
      (rules : List (Rule Handler)) (pms pms' : List (PerMethod Handler))
      → All Sound pms
      → add_rules rules pms ≡ done pms'
      → Adds rules pms pms'
  unfolding add_rules internal_add_rule_object
  add_rules-Adds [] pms pms' s e =
      subst (λ p. Adds [] pms p) (done_inj e)
        (record { sound = s; keeps = AllKeep-refl pms; covered = tt })
  add_rules-Adds (r ∷ rules) pms pms' s e = elim (Option-cases r.handler) [
    | inl missing ↦ absurd (cc (rw missing at e))
    | inr (handler, there) ↦
        let (mid, first, later) = then_do-done _ _ pms' (rw there at e) in
        let st = add_to_methods-Step r 0 pms mid s first in
        let a = add_rules-Adds rules mid pms' st.sound later in
        record {
          sound = a.sound;
          keeps = AllKeep-trans pms mid pms' st.keeps a.keeps;
          covered = (CoveredFrom-AllKeep r 0 mid pms' a.keeps st.covered, a.covered);
        }
  ]

  new_per_method-Sound : Sound (new_per_method {Handler = Handler})
  new_per_method-Sound = record {
    shape = empty_trie-WellFormed;
    literal = empty_trie-AllLiteral;
    bounded = λ path. omega (arith, rule_of-empty_trie path);
    present = λ i h ne. absurd (omega arith);
  }

pub new_router-Sound :
    (Handler : Type 0)
    → All Sound (new_router {Handler = Handler}) × (length (new_router {Handler = Handler}) ≡ 9)
unfolding max_verb_index
new_router-Sound Handler =
    let s = new_per_method-Sound in ((s, (s, (s, (s, (s, (s, (s, (s, (s, tt))))))))), refl)

pub All-middle : {A : Type 0} (P : A → Type 0) (xs ys : List A) (x : A) → All P (xs ++ x ∷ ys) → P x
All-middle P [] ys x h = h.0
All-middle P (z ∷ xs) ys x h = All-middle P xs ys x h.1

module _ {Handler : Type 0} where
  pub length-AllKeep : (ps qs : List (PerMethod Handler)) → AllKeep ps qs → length ps ≡ length qs
  length-AllKeep [] [] h = refl
  length-AllKeep [] (q ∷ qs) h = absurd h
  length-AllKeep (p ∷ ps) [] h = absurd h
  length-AllKeep (p ∷ ps) (q ∷ qs) h = ap suc (length-AllKeep ps qs h.1)
