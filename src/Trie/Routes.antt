-- ===== src/Trie/Routes.antt =====
-- http/routing.hpp, class `Trie`: `find` against the rules at the paths, which `add` writes.
use crow_core.Common.{
  ℕ, ◌≤◌, Bytes, List, [], ◌∷◌, Option, none, some, ◌≡◌, ◌≢◌, inl, inr, refl, sym, ap, ◌∙◌, arith,
  Option-cases,
}
use crow_core.Trie.{Trie, added, add}
use crow_core.Trie.Edges.{Label, size, edge}
use crow_core.Trie.Invariant.{WellFormed, Ordered, WellFormed-Ordered, walk, rule_or_none, rule_of}
use crow_core.Trie.Adding.{Tokens}
use crow_core.Trie.Insertion.{add-Inserts}
use crow_core.Trie.Find.{RoutingParams, no_params, find}
use crow_core.Trie.Leads.{consume, Leads, stop, via, BestOf}
use crow_core.Trie.Search.{find_from-BestOf}

-- A path, its last label first, followed by labels, the first one first.
abbrev pub extend : List Label → List Label → List Label
extend path [] = path
extend path (l ∷ labels) = extend (l ∷ path) labels

walk_missing :
    (t : Trie) (path labels : List Label) → walk t path ≡ none → walk t (extend path labels) ≡ none
unfolding walk
walk_missing t path [] e = e
walk_missing t path (l ∷ labels) e = walk_missing t (l ∷ path) labels (rw e)

module _ {Double : Type 0} (strtod : Bytes → Option (Double × Bytes)) where
  -- The parameters that a list of labels reads off the whole of a text. A label is tried only where
  -- some text is left.
  unfoldable pub reads : List Label → Bytes → RoutingParams Double → Option (RoutingParams Double)
  reads [] [] ps = some ps
  reads [] (c ∷ s) ps = none
  reads (l ∷ labels) [] ps = none
  reads (l ∷ labels) (c ∷ s) ps = elim (consume strtod l (c ∷ s) ps) [
    | none ↦ none
    | some (rest, ps') ↦ reads labels rest ps'
  ]

  Leads-reads :
      (t : Trie) (r : ℕ) (q : RoutingParams Double) (n : ℕ) (s : Bytes) (ps : RoutingParams Double)
      (path : List Label)
      → walk t path ≡ some n
      → Leads strtod t r q n s ps
      → (labels : List Label) × (rule_of t (extend path labels) ≡ r) × (reads labels s ps ≡ some q)
  unfolding rule_of reads walk
  Leads-reads t r q n [] ps path e (stop same same_ps) =
      ([], rw (e, rule_or_none) same, ap some same_ps)
  Leads-reads t r q n (c ∷ s) ps path e (via {m} {rest} {ps'} l step reading leads) =
      let (labels, rule, read) = Leads-reads t r q m rest ps' (l ∷ path) (rw e step) leads in
      (l ∷ labels, rule, rw (reading, reads) read)

  reads-Leads :
      (t : Trie) (n : ℕ) (q : RoutingParams Double) (labels : List Label) (s : Bytes)
      (ps : RoutingParams Double) (path : List Label)
      → walk t path ≡ some n
      → rule_of t (extend path labels) ≢ 0
      → reads labels s ps ≡ some q
      → Leads strtod t (rule_of t (extend path labels)) q n s ps
  unfolding rule_of reads walk
  reads-Leads t n q [] [] ps path e ne read = stop (rw (e, rule_or_none)) (cc read)
  reads-Leads t n q [] (c ∷ s) ps path e ne read = absurd (cc read)
  reads-Leads t n q (l ∷ labels) [] ps path e ne read = absurd (cc read)
  reads-Leads t n q (l ∷ labels) (c ∷ s) ps path e ne read = elim (Option-cases (edge t n l)) [
    | inl missing ↦
        absurd (ne (rw (walk_missing t (l ∷ path) labels (rw (e, walk) missing), rule_or_none)))
    | inr (m, step) ↦ elim (Option-cases (consume strtod l (c ∷ s) ps)) [
      | inl fails ↦ absurd (no_value fails read)
      | inr ((rest, ps'), reading) ↦ via l step reading (
          reads-Leads t m q labels rest ps' (l ∷ path) (rw e step) ne (rw (reading, reads) at read))
    ]
  ]
    where
      no_value : consume strtod l (c ∷ s) ps ≡ none → reads (l ∷ labels) (c ∷ s) ps ≡ some q → ⊥
      no_value fails read' = ground (arith, fails, read')

  -- What `find` answers for a URL: a rule that is there, with the parameters that its labels read,
  -- and no rule that fits the URL has a smaller number.
  pub record Answers (t : Trie) (url : Bytes) (found : ℕ × RoutingParams Double) : Type 0 where
    pub sound :
        found.0 ≢ 0
        → (labels : List Label) × (rule_of t (extend [] labels) ≡ found.0)
          × (reads labels url no_params ≡ some found.1)
    pub least :
        (labels : List Label) (q : RoutingParams Double)
        → reads labels url no_params ≡ some q
        → rule_of t (extend [] labels) ≢ 0
        → (found.0 ≢ 0) × (found.0 ≤ rule_of t (extend [] labels))

  pub BestOf-Answers :
      (t : Trie) (url : Bytes) (f : ℕ × RoutingParams Double)
      → BestOf (λ r q. (r ≢ 0) × Leads strtod t r q 0 url no_params) f
      → Answers t url f
  unfolding walk
  BestOf-Answers t url f b = record {
    sound = λ ne. Leads-reads t _ _ 0 url no_params [] refl (b.sound ne).1;
    least = λ labels q read ne.
        b.least _ q (ne, reads-Leads t 0 q labels url no_params [] refl ne read) ne;
  }

  -- In a trie whose children have larger numbers than their parents, `find` answers with the least
  -- rule that fits the URL, and with 0 exactly where none fits.
  pub find-Answers : (t : Trie) (url : Bytes) → Ordered t → Answers t url (find strtod t url)
  unfolding find
  find-Answers t url w =
      let b = find_from-BestOf strtod (size t) t 0 url no_params w w.rooted (omega arith) in
      BestOf-Answers t url _
        (record { sound = λ ne. (ne, b.sound ne); least = λ r q l ne. b.least r q l.1 ne })

  -- In a well-formed trie, `add` of a rule that is not 0 at a path that has none ends without an
  -- exception, and a URL that the labels of the path read is then answered, by that rule or one with a
  -- smaller number.
  pub find-add :
      (t : Trie) (rule url : Bytes) (r : ℕ) (labels : List Label) (q : RoutingParams Double)
      → WellFormed t
      → Tokens (extend [] labels) [] rule
      → rule_of t (extend [] labels) ≡ 0
      → r ≢ 0
      → reads labels url no_params ≡ some q
      → (t' : Trie) × (add t rule r ≡ added t')
        × ((find strtod t' url).0 ≢ 0)
        × ((find strtod t' url).0 ≤ r)
  find-add t rule url r labels q w tokens free ne read =
      let (t', done, i) = add-Inserts t rule r (extend [] labels) w tokens free in
      let h =
        (find-Answers t' url (WellFormed-Ordered i.shape)).least labels q read
          (λ z. ne (sym i.there ∙ z)) in
      (t', done, h.0, rw i.there at h.1)
