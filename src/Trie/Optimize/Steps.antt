-- ===== src/Trie/Optimize/Steps.antt =====
-- http/routing.hpp, class `Trie`: the trie before and after one merge of `optimizeNode`.
use crow_core.Common.{
  ℕ, zero, suc, ◌<◌, Bytes, [], ◌∷◌, ◌++◌, none, some, true, ◌==◌, if◌then◌else◌, ◌≡◌, ◌≢◌, ◌⊎◌,
  inl, inr, refl, sym, ◌∙◌, arith, Option-cases, Bool-cases, append_assoc,
}
use crow_core.Trie.{
  ParamType, int, uint, double, string, path, Node, Trie, ChildMap, node_at, child_of,
}
use crow_core.Trie.Edges.{
  Label, piece, param, size, rule_at, edge, edge_of, nonzero, node_at-set_node, size-set_node,
}
use crow_core.Trie.Invariant.{Ordered}
use crow_core.Trie.Optimize.{all_zero, is_simple_node, merge_children, merge_with_child, merge_node}
use crow_core.Trie.Optimize.ChildMaps.{
  NoDup, NoDup-Owns, some_inj, PrefixFree, PrefixFree-eq, append_cancel, child_of_cases,
  child_of-nil,
}
use crow_core.Trie.Optimize.Merging.{kids, MergedAll, merge_children-MergedAll}

-- The tries that `optimizeNode` meets.
pub record Optimizable (t : Trie) : Type 0 where
  pub rooted : 0 < size t
  pub grows : (n m : ℕ) (l : Label) → edge t n l ≡ some m → (n < m) × (m < size t)
  pub nodup : (n : ℕ) → NoDup (kids t n)
  pub prefix_free : (n : ℕ) → PrefixFree (kids t n)
  pub nonempty : (n v : ℕ) → child_of [] (kids t n) ≢ some v

pub Optimizable-Ordered : {t : Trie} → Optimizable t → Ordered t
Optimizable-Ordered {t} w = record {
  rooted = w.rooted;
  grows = w.grows;
  owns = λ n. NoDup-Owns (kids t n) (w.nodup n);
}

-- A simple node has no rule, and no child but by pieces.
abbrev pub IsSimple : Trie → ℕ → Type 0
IsSimple t c = (rule_at t c ≡ 0) × ((p : ParamType) (m : ℕ) → edge t c (param p) ≢ some m)

simple_param :
    (node : Node) (p : ParamType) → is_simple_node node ≡ true → node.param_childrens p ≡ 0
unfolding is_simple_node all_zero
simple_param node int e = ground arith
simple_param node uint e = ground arith
simple_param node double e = ground arith
simple_param node string e = ground arith
simple_param node path e = ground arith

is_simple_node-IsSimple : (t : Trie) (c : ℕ) → is_simple_node (node_at t c) ≡ true → IsSimple t c
unfolding is_simple_node edge_of
is_simple_node-IsSimple t c e =
    (ground arith, λ p m e'. zero_edge _ m (simple_param (node_at t c) p e) e')
  where
    zero_edge : (v m : ℕ) → v ≡ 0 → nonzero v ≡ some m → ⊥
    zero_edge zero m z e' = cc
    zero_edge (suc v) m z e' = absurd (omega arith)

pub merge_with_child-IsSimple :
    (t : Trie) (children : ChildMap) (k : Bytes) (c : ℕ)
    → merge_with_child t children ≡ true
    → child_of k children ≡ some c
    → IsSimple t c
unfolding merge_with_child
merge_with_child-IsSimple t [] k c h e = absurd (child_of-nil k c e)
merge_with_child-IsSimple t ((j, d) ∷ children) k c h e = elim (child_of_cases j k d c children e) [
  | inl (same, value) ↦ rw (← value) (is_simple_node-IsSimple t d (ground arith))
  | inr later ↦ merge_with_child-IsSimple t children k c (ground arith) later
]

edge_piece : (t : Trie) (n : ℕ) (k : Bytes) → edge t n (piece k) ≡ child_of k (kids t n)
unfolding edge_of
edge_piece t n k = refl

module _ (t : Trie) (n : ℕ) (w : Optimizable t) (inside : n < size t)
    (simple : merge_with_child t (kids t n) ≡ true) where
  abbrev pub merged : ChildMap
  merged = merge_children t (kids t n) []

  pub merged_all : MergedAll t (kids t n) [] merged
  merged_all =
      merge_children-MergedAll t (kids t n) [] (w.nodup n) (w.prefix_free n) w.nodup tt
        (λ k j c g e e'. nothing (k ++ j))
    where
      nothing : (x : Bytes) → child_of x [] ≡ none
      nothing x = elim (Option-cases (child_of x [])) [
        | inl missing ↦ missing
        | inr (g, found) ↦ absurd (child_of-nil x g found)
      ]

  -- An entry of the merged map is an entry of a child behind an entry of the node.
  merged_split :
      (x : Bytes) (g : ℕ)
      → child_of x merged ≡ some g
      → (k : Bytes) × (j : Bytes) × (c : ℕ) × (x ≡ k ++ j)
        × (child_of k (kids t n) ≡ some c)
        × (child_of j (kids t c) ≡ some g)
  merged_split x g e = elim (merged_all.only x g e) [
    | inl before ↦ absurd (child_of-nil x g before)
    | inr split ↦ split
  ]

  pub node_at-merged :
      (i : ℕ)
      → node_at (merge_node t n) i
        ≡ (if n == i then record (node_at t n) { children = merged } else node_at t i)
  unfolding merge_node
  node_at-merged i = node_at-set_node t n i _ inside

  pub size_merged : size (merge_node t n) ≡ size t
  unfolding merge_node
  size_merged = size-set_node t n _

  pub rule_merged : (i : ℕ) → rule_at (merge_node t n) i ≡ rule_at t i
  rule_merged i = elim (Bool-cases (n == i)) [
    | inl here ↦ let e : n ≡ i = ground arith in rw (node_at-merged i, here, rule_at) (rw e)
    | inr other ↦ rw (node_at-merged i, other, rule_at)
  ]

  pub param_merged :
      (i : ℕ) (p : ParamType) → edge (merge_node t n) i (param p) ≡ edge t i (param p)
  unfolding edge_of
  param_merged i p = elim (Bool-cases (n == i)) [
    | inl here ↦ let e : n ≡ i = ground arith in rw (node_at-merged i, here) (rw e)
    | inr other ↦ rw (node_at-merged i, other)
  ]

  kids_of_node :
      (i : ℕ) (m : Node) → node_at (merge_node t n) i ≡ m → kids (merge_node t n) i ≡ m.children
  kids_of_node i m e = rw (e, kids)

  pub kids_here : (i : ℕ) → n ≡ i → kids (merge_node t n) i ≡ merged
  kids_here i e =
      kids_of_node i (record (node_at t n) { children = merged })
        (node_at-merged i ∙ ground (arith, e))

  pub kids_elsewhere : (i : ℕ) → n ≢ i → kids (merge_node t n) i ≡ kids t i
  kids_elsewhere i ne = kids_of_node i (node_at t i) (node_at-merged i ∙ ground (arith, ne))

  -- A piece at a node of the merged trie is an old one, or two old ones in a row.
  pub piece_merged :
      (i : ℕ) (x : Bytes) (g : ℕ)
      → edge (merge_node t n) i (piece x) ≡ some g
      → ((n ≢ i) × (edge t i (piece x) ≡ some g))
        ⊎ ((n ≡ i)
            × ((k : Bytes) × (j : Bytes) × (c : ℕ) × (x ≡ k ++ j)
                × (edge t n (piece k) ≡ some c)
                × (edge t c (piece j) ≡ some g)))
  unfolding edge_of
  piece_merged i x g e = elim (Bool-cases (n == i)) [
    | inl here ↦
        let same : n ≡ i = ground arith in inr (same, merged_split x g (rw (kids_here i same) at e))
    | inr other ↦ let ne : n ≢ i = ground arith in inl (ne, rw (kids_elsewhere i ne) at e)
  ]

  merged_grows :
      (i m : ℕ) (l : Label)
      → edge (merge_node t n) i l ≡ some m
      → (i < m) × (m < size (merge_node t n))
  merged_grows i m (param p) e =
      let h = w.grows i m (param p) (sym (param_merged i p) ∙ e) in (h.0, rw size_merged h.1)
  merged_grows i m (piece x) e = elim (piece_merged i x m e) [
    | inl (ne, old) ↦ let h = w.grows i m (piece x) old in (h.0, rw size_merged h.1)
    | inr (same, (k, j, c, split, first, second)) ↦
        let h = w.grows n c (piece k) first in
        let h' = w.grows c m (piece j) second in
        (omega (arith, same, h.0, h'.0), rw size_merged h'.1)
  ]

  merged-PrefixFree : PrefixFree merged
  merged-PrefixFree x z g g' e e' =
      let (k, j, c, split, first, second) = merged_split x g e in
      let (k', j', c', split', first', second') = merged_split (x ++ z) g' e' in
      let whole : k ++ (j ++ z) ≡ k' ++ j' = sym (append_assoc k j z) ∙ rw (← split) split' in
      let same : k ≡ k' =
        PrefixFree-eq (kids t n) k k' (j ++ z) j' c c' (w.prefix_free n) first first' whole in
      let same_child : c ≡ c' = some_inj (sym first ∙ rw same first') in
      let tails : j ++ z ≡ j' = append_cancel k (j ++ z) j' (whole ∙ rw same refl) in
      w.prefix_free c j z g g' second (rw (tails, same_child) second')

  merged_nonempty : (v : ℕ) → child_of [] merged ≢ some v
  merged_nonempty v e =
      let (k, j, c, split, first, second) = merged_split [] v e in
      w.nonempty n c (rw (empty k j split) at first)
    where
      empty : (k j : Bytes) → [] ≡ k ++ j → k ≡ []
      empty [] j p = refl
      empty (a ∷ k) j p = cc

  pub merge_node-Optimizable : Optimizable (merge_node t n)
  merge_node-Optimizable = record {
    rooted = rw size_merged w.rooted;
    grows = merged_grows;
    nodup = λ i. elim (Bool-cases (n == i)) [
      | inl here ↦ rw (kids_here i (ground arith)) merged_all.nodup
      | inr other ↦ rw (kids_elsewhere i (ground arith)) (w.nodup i)
    ];
    prefix_free = λ i. elim (Bool-cases (n == i)) [
      | inl here ↦ rw (kids_here i (ground arith)) merged-PrefixFree
      | inr other ↦ rw (kids_elsewhere i (ground arith)) (w.prefix_free i)
    ];
    nonempty = λ i v. elim (Bool-cases (n == i)) [
      | inl here ↦ rw (kids_here i (ground arith)) (merged_nonempty v)
      | inr other ↦ rw (kids_elsewhere i (ground arith)) (w.nonempty i v)
    ];
  }
