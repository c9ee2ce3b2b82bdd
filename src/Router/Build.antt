-- ===== src/Router/Build.antt =====
-- http/routing.hpp, class `Router`: the router that `validate` builds.
use crow_core.Common.{
  ℕ, zero, suc, ◌-◌, ◌<◌, Bytes, length, get_or, List, [], ◌∷◌, ◌++◌, Option, none, some, true,
  false, ◌==◌, ◌≡◌, ◌≢◌, ◌⊎◌, inl, inr, refl, sym, ap, ◌∙◌, subst, arith, Bool-cases, length-append,
}
use crow_core.Trie.{Trie, AddResult, added, already_exists, still_running, add}
use crow_core.Trie.Edges.{Label}
use crow_core.Trie.Invariant.{WellFormed, rule_of}
use crow_core.Trie.Adding.{Tokens}
use crow_core.Trie.Insertion.{add-Inserts, add-already_exists}
use crow_core.Trie.Optimize.Built.{AllLiteral, Added, add-Added}
use crow_core.Router.{
  Rule, PerMethod, Outcome, done, no_handler, handler_exists, never_ends, then_do, with_trie,
  is_directory, without_last, add_to_method,
}

pub then_do-done :
    {A B : Type 0} (x : Outcome A) (next : A → Outcome B) (b : B)
    → then_do x next ≡ done b
    → (a : A) × (x ≡ done a) × (next a ≡ done b)
unfolding then_do
then_do-done (done a) next b e = (a, refl, e)
then_do-done no_handler next b e = absurd (cc e)
then_do-done handler_exists next b e = absurd (cc e)
then_do-done never_ends next b e = absurd (cc e)

pub done_inj : {A : Type 0} {a b : A} → done a ≡ done b → a ≡ b
done_inj e = cc

-- Every path that has a rule in `t` has one in `t'`.
abbrev pub KeepsRules : Trie → Trie → Type 0
KeepsRules t t' = (path : List Label) → rule_of t path ≢ 0 → rule_of t' path ≢ 0

Added-KeepsRules : (t t' : Trie) (r : ℕ) → Added t t' r → r ≢ 0 → KeepsRules t t'
Added-KeepsRules t t' r a ne path had = elim (a.rules path) [
  | inl new ↦ λ z. ne (sym new ∙ z)
  | inr old ↦ λ z. had (sym old ∙ z)
]

-- Where `add` returns, the path that the text spells has the new rule.
add-reached :
    (t : Trie) (text : Bytes) (r : ℕ) (t' : Trie) (path : List Label)
    → WellFormed t
    → add t text r ≡ added t'
    → Tokens path [] text
    → rule_of t' path ≡ r
add-reached t text r t' path w e tokens = elim (Bool-cases (rule_of t path == 0)) [
  | inl free ↦
      let (u, done_u, i) = add-Inserts t text r path w tokens (ground arith) in
      subst (λ v. rule_of v path ≡ r) (added_inj (sym done_u ∙ e)) i.there
  | inr taken ↦
      let (u, thrown, shape, rest) = add-already_exists t text r path w tokens (ground arith) in
      absurd (differ (sym thrown ∙ e))
]
  where
    added_inj : {a b : Trie} → added a ≡ added b → a ≡ b
    added_inj e' = cc

    differ : {a b : Trie} → already_exists a ≡ added b → ⊥
    differ e' = cc

module _ {Handler : Type 0} where
  -- The rules and the trie of a method agree: the numbers in the trie are those of rules.
  pub record Sound (pm : PerMethod Handler) : Type 0 where
    pub shape : WellFormed pm.trie
    pub literal : AllLiteral pm.trie
    pub bounded : (path : List Label) → rule_of pm.trie path < length pm.rules
    pub present :
        (i : ℕ)
        → i < length pm.rules
        → i ≢ 0
        → (r : Rule Handler) × (get_or pm.rules i none ≡ some r)

  -- The paths that a rule stands at: the one that its text spells, and the one without the last
  -- slash.
  abbrev pub Covers : Rule Handler → List Label → Type 0
  Covers r path =
      Tokens path [] r.rule ⊎ ((is_directory r.rule ≡ true) × Tokens path [] (without_last r.rule))

  -- What has happened to a method's rules and trie when a rule is added.
  pub record Grows (text : Bytes) (pm pm' : PerMethod Handler) : Type 0 where
    pub sound : Sound pm'
    pub keeps : KeepsRules pm.trie pm'.trie
    pub spelled : (path : List Label) → Tokens path [] text → rule_of pm'.trie path ≢ 0

  with_trie-done :
      (rules : List (Option (Rule Handler))) (a : AddResult) (pm : PerMethod Handler)
      → with_trie rules a ≡ done pm
      → (a ≡ added pm.trie) × (pm.rules ≡ rules)
  with_trie-done rules (added t) pm e =
      let same : record { rules = rules; trie = t } ≡ pm = done_inj e in
      (ap (λ p. added p.trie) same, sym (ap (λ p. p.rules) same))
  with_trie-done rules (already_exists t) pm e = absurd (cc e)
  with_trie-done rules still_running pm e = absurd (cc e)

  with_trie-Grows :
      (text : Bytes) (pm pm' : PerMethod Handler) (rules : List (Option (Rule Handler))) (index : ℕ)
      → WellFormed pm.trie
      → AllLiteral pm.trie
      → with_trie rules (add pm.trie text index) ≡ done pm'
      → index < length rules
      → index ≢ 0
      → ((path : List Label) → rule_of pm.trie path < length rules)
      → ((i : ℕ) → i < length rules → i ≢ 0 → (r : Rule Handler) × (get_or rules i none ≡ some r))
      → Grows text pm pm' × (pm'.rules ≡ rules)
  with_trie-Grows text pm pm' rules index w lit e inside ne bounded present =
      let (is_added, same) = with_trie-done rules (add pm.trie text index) pm' e in
      let a = add-Added pm.trie text index pm'.trie w lit is_added in
      (
        record {
          sound = record {
            shape = a.shape;
            literal = a.literal;
            bounded = λ path.
                rw same (elim (a.rules path) [
                  | inl new ↦ rw new inside
                  | inr old ↦ rw old (bounded path)
                ]);
            present = rw same present;
          };
          keeps = Added-KeepsRules pm.trie pm'.trie index a ne;
          spelled = λ path tokens z.
              ne (sym (add-reached pm.trie text index pm'.trie path w is_added tokens) ∙ z);
        },
        same,
      )

  pushed :
      (rules : List (Option (Rule Handler))) (r : Rule Handler) (i : ℕ)
      → i < length (rules ++ some r ∷ [])
      → i ≢ 0
      → ((j : ℕ) → j < length rules → j ≢ 0 → (q : Rule Handler) × (get_or rules j none ≡ some q))
      → (q : Rule Handler) × (get_or (rules ++ some r ∷ []) i none ≡ some q)
  pushed rules r i inside ne old = elim (Bool-cases (i == length rules)) [
    | inl last ↦ let here : i ≡ length rules = ground arith in (r, rw here (at_end rules r))
    | inr earlier ↦
        let other : i ≢ length rules = ground arith in
        let inside' : i < length rules = omega (arith, length-append rules (some r ∷ []), other) in
        let (q, there) = old i inside' ne in (q, before rules r i inside' ∙ there)
  ]
    where
      at_end :
          (rules : List (Option (Rule Handler))) (r : Rule Handler)
          → get_or (rules ++ some r ∷ []) (length rules) none ≡ some r
      at_end [] r = refl
      at_end (x ∷ rules) r = at_end rules r

      before :
          (rules : List (Option (Rule Handler))) (r : Rule Handler) (i : ℕ)
          → i < length rules
          → get_or (rules ++ some r ∷ []) i none ≡ get_or rules i none
      before [] r i h = absurd (omega arith)
      before (x ∷ rules) r zero h = refl
      before (x ∷ rules) r (suc i) h = before rules r i (omega arith)

  -- The rule is among the method's rules, and wherever it stands there is a rule in the trie.
  pub record Takes (r : Rule Handler) (pm pm' : PerMethod Handler) : Type 0 where
    pub sound : Sound pm'
    pub keeps : KeepsRules pm.trie pm'.trie
    pub covered : (path : List Label) → Covers r path → rule_of pm'.trie path ≢ 0

  pub add_to_method-Takes :
      (r : Rule Handler) (pm pm' : PerMethod Handler)
      → Sound pm
      → add_to_method r.rule r pm ≡ done pm'
      → Takes r pm pm'
  unfolding add_to_method
  add_to_method-Takes r pm pm' s e =
      let rules = pm.rules ++ some r ∷ [] in
      let size_is = length-append pm.rules (some r ∷ []) in
      let some_rule = s.bounded [] in
      let (pm1, first, second) =
        then_do-done (with_trie rules (add pm.trie r.rule (length rules - 1))) _ pm' e in
      let (g, same) =
        with_trie-Grows r.rule pm pm1 rules (length rules - 1) s.shape s.literal first
          (omega (arith, size_is)) (omega (arith, size_is, some_rule))
          (λ path. omega (arith, size_is, s.bounded path))
          (λ i inside ne. pushed pm.rules r i inside ne s.present) in
      elim (Bool-cases (is_directory r.rule)) [
        | inl directory ↦
            let (g', same') =
              with_trie-Grows (without_last r.rule) pm1 pm' rules (length rules - 1) g.sound.shape
                g.sound.literal (rw directory at second) (omega (arith, size_is))
                (omega (arith, size_is, some_rule)) (λ path. rw same at g.sound.bounded path)
                (rw same at g.sound.present) in
            record {
              sound = g'.sound;
              keeps = λ path had. g'.keeps path (g.keeps path had);
              covered = λ path c. elim c [
                | inl tokens ↦ g'.keeps path (g.spelled path tokens)
                | inr (is_dir, tokens) ↦ g'.spelled path tokens
              ];
            }
        | inr file ↦
            let whole : pm1 ≡ pm' = done_inj (rw file at second) in
            subst (λ p. Takes r pm p) whole
              (record {
                sound = g.sound;
                keeps = g.keeps;
                covered = λ path c. elim c [
                  | inl tokens ↦ g.spelled path tokens
                  | inr (is_dir, tokens) ↦ absurd (clash file is_dir)
                ];
              })
      ]
    where
      clash : is_directory r.rule ≡ false → is_directory r.rule ≡ true → ⊥
      clash a b = cc
