-- ===== src/Trie/Invariant.antt =====
-- http/routing.hpp, class `Trie`: the shape of a trie, and the paths from the root.
use crow_core.Common.{
  ℕ, zero, suc, ◌<◌, List, [], ◌∷◌, Option, none, some, ◌≡◌, ◌⊎◌, inl, inr, refl, sym, ap, ◌∙◌,
  arith,
}
use crow_core.Trie.{Trie, node_at, child_of, empty_trie}
use crow_core.Trie.Edges.{
  Label, piece, param, same_label_iff, size, rule_at, edge, edge_of, AllOwn, AddsEdge,
}

-- A tree: children have larger numbers than their parents, and no node is a child twice.
pub record WellFormed (t : Trie) : Type 0 where
  pub rooted : 0 < size t
  pub grows : (n m : ℕ) (l : Label) → edge t n l ≡ some m → (n < m) × (m < size t)
  pub parent :
      (n n' m : ℕ) (l l' : Label)
      → edge t n l ≡ some m
      → edge t n' l' ≡ some m
      → (n ≡ n') × (l ≡ l')
  pub owns : AllOwn t

-- What `find` needs: children have larger numbers, and every entry of a child map is found.
pub record Ordered (t : Trie) : Type 0 where
  pub rooted : 0 < size t
  pub grows : (n m : ℕ) (l : Label) → edge t n l ≡ some m → (n < m) × (m < size t)
  pub owns : AllOwn t

pub WellFormed-Ordered : {t : Trie} → WellFormed t → Ordered t
WellFormed-Ordered w = record { rooted = w.rooted; grows = w.grows; owns = w.owns }

edge-empty_trie : (n : ℕ) (l : Label) → edge empty_trie n l ≡ none
unfolding node_at edge_of child_of
edge-empty_trie zero (piece k) = refl
edge-empty_trie zero (param p) = refl
edge-empty_trie (suc n) (piece k) = refl
edge-empty_trie (suc n) (param p) = refl

empty_trie-AllOwn : AllOwn empty_trie
unfolding node_at
empty_trie-AllOwn zero = tt
empty_trie-AllOwn (suc n) = tt

pub empty_trie-WellFormed : WellFormed empty_trie
empty_trie-WellFormed = record {
  rooted = omega arith;
  grows = λ n m l e. cc (edge-empty_trie n l);
  parent = λ n n' m l l' e e'. cc (edge-empty_trie n l);
  owns = empty_trie-AllOwn;
}

module _ {t t' : Trie} {idx : ℕ} {l : Label} (w : WellFormed t) (a : AddsEdge t t' idx l)
    (inside : idx < size t) where
  -- The new edge, or an old one.
  edge-AddsEdge :
      (n m : ℕ) (k : Label)
      → edge t' n k ≡ some m
      → ((n ≡ idx) × (k ≡ l) × (m ≡ size t)) ⊎ (edge t n k ≡ some m)
  edge-AddsEdge n m k e = ground (arith, a.edges n k, same_label_iff l k)

  AddsEdge-grows : (n m : ℕ) (k : Label) → edge t' n k ≡ some m → (n < m) × (m < size t')
  AddsEdge-grows n m k e = elim (edge-AddsEdge n m k e) [
    | inl (here, same, new) ↦ (omega (arith, a.grown), omega (arith, a.grown))
    | inr old ↦ (omega (arith, w.grows n m k old), omega (arith, w.grows n m k old, a.grown))
  ]

  AddsEdge-parent :
      (n n' m : ℕ) (k k' : Label)
      → edge t' n k ≡ some m
      → edge t' n' k' ≡ some m
      → (n ≡ n') × (k ≡ k')
  AddsEdge-parent n n' m k k' e e' = elim (edge-AddsEdge n m k e) [
    | inl (here, same, new) ↦ elim (edge-AddsEdge n' m k' e') [
      | inl (here', same', new') ↦ (here ∙ sym here', same ∙ sym same')
      | inr old' ↦ absurd (omega (arith, w.grows n' m k' old'))
    ]
    | inr old ↦ elim (edge-AddsEdge n' m k' e') [
      | inl (here', same', new') ↦ absurd (omega (arith, w.grows n m k old))
      | inr old' ↦ w.parent n n' m k k' old old'
    ]
  ]

  pub AddsEdge-WellFormed : WellFormed t'
  AddsEdge-WellFormed = record {
    rooted = omega (arith, a.grown);
    grows = AddsEdge-grows;
    parent = AddsEdge-parent;
    owns = a.owns;
  }

abbrev pub follow : Trie → Option ℕ → Label → Option ℕ
follow t none l = none
follow t (some n) l = edge t n l

-- The node at the end of a path from the root; the path has its last label first.
unfoldable pub walk : Trie → List Label → Option ℕ
walk t [] = some 0
walk t (l ∷ path) = follow t (walk t path) l

-- The rule at the end of a path; 0 stands for none.
abbrev pub rule_or_none : Trie → Option ℕ → ℕ
rule_or_none t none = 0
rule_or_none t (some n) = rule_at t n

unfoldable pub rule_of : Trie → List Label → ℕ
rule_of t path = rule_or_none t (walk t path)

follow-eq-some :
    (t : Trie) (o : Option ℕ) (l : Label) (m : ℕ)
    → follow t o l ≡ some m
    → (n : ℕ) × (o ≡ some n) × (edge t n l ≡ some m)
follow-eq-some t none l m e = cc
follow-eq-some t (some n) l m e = (n, refl, e)

pub walk-lt-size :
    (t : Trie) (path : List Label) (m : ℕ) → WellFormed t → walk t path ≡ some m → m < size t
unfolding walk
walk-lt-size t [] m w e = ground (arith, w.rooted)
walk-lt-size t (l ∷ path) m w e =
    let (n, before, last) = follow-eq-some t (walk t path) l m e in (w.grows n m l last).1

-- In a well-formed trie two paths to one node are the same path.
pub walk-injective :
    (t : Trie) (path path' : List Label) (m : ℕ)
    → WellFormed t
    → walk t path ≡ some m
    → walk t path' ≡ some m
    → path ≡ path'
unfolding walk
walk-injective t [] [] m w e e' = refl
walk-injective t [] (l ∷ path') m w e e' =
    let (n, before, last) = follow-eq-some t (walk t path') l m e' in
    let root : 0 ≡ m = ground arith in absurd (omega (arith, w.grows n m l last))
walk-injective t (l ∷ path) [] m w e e' =
    let (n, before, last) = follow-eq-some t (walk t path) l m e in
    let root : 0 ≡ m = ground arith in absurd (omega (arith, w.grows n m l last))
walk-injective t (l ∷ path) (l' ∷ path') m w e e' =
    let (n, before, last) = follow-eq-some t (walk t path) l m e in
    let (n', before', last') = follow-eq-some t (walk t path') l' m e' in
    let (same_node, same) = w.parent n n' m l l' last last' in
    cc (same, walk-injective t path path' n w before (before' ∙ ap some (sym same_node)))
