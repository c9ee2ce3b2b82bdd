-- ===== src/Trie/Optimize/Total.antt =====
-- http/routing.hpp, class `Trie`: `optimize`, and `find` before and after it.
use crow_core.Common.{
  ℕ, zero, suc, ◌+◌, ◌<◌, ◌≤◌, Bytes, [], ◌∷◌, All, Option, some, true, ◌==◌, ◌≡◌, ◌≢◌, inl, inr,
  refl, sym, subst, ◌∙◌, arith, Bool-cases,
}
use crow_core.Trie.{Trie, ChildMap, child_of}
use crow_core.Trie.Edges.{piece, size, edge, edge_of, Owns}
use crow_core.Trie.Find.{RoutingParams, no_params, find}
use crow_core.Trie.Leads.{Leads, BestOf}
use crow_core.Trie.Search.{find_from-BestOf}
use crow_core.Trie.Routes.{Answers, BestOf-Answers}
use crow_core.Trie.Optimize.{
  merge_with_child, merge_node, optimize_rest, optimize_node, optimize, param_types,
}
use crow_core.Trie.Optimize.ChildMaps.{NoDup-Owns, child_of-head}
use crow_core.Trie.Optimize.Merging.{kids}
use crow_core.Trie.Optimize.Steps.{
  Optimizable, Optimizable-Ordered, merge_node-Optimizable, size_merged, node_at-merged,
  piece_merged,
}
use crow_core.Trie.Optimize.Answers.{merge_node-Leads}
use crow_core.Trie.Optimize.Keeps.{
  Keeps, Keeps-refl, Keeps-trans, Keeps-weaken, Done, optimize_params-Done, optimize_children-Done,
}

module _ {Double : Type 0} (strtod : Bytes → Option (Double × Bytes)) (total : ℕ) where
  merge_node-Keeps :
      (t : Trie) (n : ℕ)
      → Optimizable t
      → size t ≡ total
      → n < size t
      → merge_with_child t (kids t n) ≡ true
      → Keeps strtod total n t (merge_node t n)
  merge_node-Keeps t n w sized inside simple = record {
    shape = merge_node-Optimizable t n w inside simple;
    sized = size_merged t n w inside simple ∙ sized;
    below = λ j h. node_at-merged t n w inside simple j ∙ ground arith;
    to = λ r q i s ps ne. (merge_node-Leads strtod t n w inside simple r q ne i s ps).0;
    back = λ r q i s ps ne. (merge_node-Leads strtod t n w inside simple r q ne i s ps).1;
  }

  -- Every child of a node by a piece has at least the number `least`.
  abbrev KidsFrom : Trie → ℕ → ℕ → Type 0
  KidsFrom t n least = (k : Bytes) (m : ℕ) → child_of k (kids t n) ≡ some m → least ≤ m

  merged_from :
      (t : Trie) (n least : ℕ) (w : Optimizable t) (inside : n < size t)
      (simple : merge_with_child t (kids t n) ≡ true)
      → KidsFrom t n least
      → KidsFrom (merge_node t n) n (suc least)
  unfolding edge_of
  merged_from t n least w inside simple from k m e =
      elim (piece_merged t n w inside simple n k m e) [
        | inl (ne, old) ↦ absurd (ne refl)
        | inr (same, (i, j, c, split, first, second)) ↦
            omega (arith, from i c first, w.grows c m (piece j) second)
      ]

  kids_inside :
      (t : Trie) (n : ℕ)
      → Optimizable t
      → size t ≡ total
      → All (λ e. (n < e.1) × (e.1 < total)) (kids t n)
  unfolding edge_of
  kids_inside t n w sized = inside_all (kids t n) (NoDup-Owns (kids t n) (w.nodup n))
    where
      inside_all : (m : ChildMap) → Owns (kids t n) m → All (λ e. (n < e.1) × (e.1 < total)) m
      inside_all [] h = tt
      inside_all ((k, c) ∷ m) h =
          let g = w.grows n c (piece k) h.0 in ((g.0, omega (arith, g.1, sized)), inside_all m h.1)

  edge-kids :
      (t : Trie) (n c : ℕ) (k : Bytes)
      → child_of k (kids t n) ≡ some c
      → edge t n (piece k) ≡ some c
  unfolding edge_of
  edge-kids t n c k e = e

  optimize_rest-Done :
      (n : ℕ) (again visit : Trie → ℕ → Option Trie)
      → ((t : Trie) (i : ℕ)
          → Optimizable t
          → size t ≡ total
          → n < i
          → i < total
          → Done strtod total i t (visit t i))
      → (t : Trie) (m : ChildMap) → Optimizable t
      → size t ≡ total
      → n < total
      → m ≡ kids t n
      → ((k : Bytes) (c : ℕ)
          → child_of k (kids t n) ≡ some c
          → merge_with_child t (kids t n) ≡ true
          → Done strtod total n (merge_node t n) (again (merge_node t n) n))
      → Done strtod total n t (optimize_rest again visit t n m)
  unfolding optimize_rest
  optimize_rest-Done n again visit good t [] w sized inside same merging =
      (t, refl, Keeps-refl strtod total n t w sized)
  optimize_rest-Done n again visit good t ((k, c) ∷ m) w sized inside same merging =
      elim (Bool-cases (merge_with_child t ((k, c) ∷ m))) [
        | inl simple ↦
            let simple' : merge_with_child t (kids t n) ≡ true = rw (← same) simple in
            let first : child_of k (kids t n) ≡ some c = rw (← same) (child_of-head k c m) in
            let (t', done, kept) = merging k c first simple' in
            (
              t',
              rw (simple, optimize_rest) done,
              Keeps-trans strtod total (omega arith)
                  (merge_node-Keeps t n w sized (omega (arith, sized)) simple') kept,
            )
        | inr plain ↦
            let (t', done, kept) =
              optimize_children-Done strtod total n visit good t ((k, c) ∷ m)
                (subst (λ a. All (λ e. (n < e.1) × (e.1 < total)) a) (sym same)
                  (kids_inside t n w sized))
                w sized in
            (t', rw (plain, optimize_rest) done, Keeps-weaken strtod total (omega arith) kept)
      ]

  -- Enough fuel: a level for each larger node, and a merge for each number that the least child can
  -- still rise by.
  pub optimize_node-Done :
      (depth merges least : ℕ) (t : Trie) (n : ℕ)
      → Optimizable t
      → size t ≡ total
      → n < total
      → total ≤ depth + n
      → least ≤ total
      → total < merges + least
      → KidsFrom t n least
      → Done strtod total n t (optimize_node (suc total) depth merges t n)
  unfolding optimize_node
  optimize_node-Done zero merges least t n w sized inside deep low many from = absurd (omega arith)
  optimize_node-Done (suc depth) zero least t n w sized inside deep low many from =
      absurd (omega arith)
  optimize_node-Done (suc depth) (suc merges) least t n w sized inside deep low many from =
      let good =
        λ (u : Trie) (i : ℕ) (w' : Optimizable u) (s' : size u ≡ total) (lt : n < i)
            (inside' : i < total).
          optimize_node-Done depth (suc total) 0 u i w' s' inside' (omega arith) (omega arith)
            (omega arith) (λ k m e. omega arith) in
      let (u, visited, kept) =
        optimize_params-Done strtod total n (optimize_node (suc total) depth (suc total)) good t
          param_types w sized in
      let same_node = kept.below n (omega arith) in
      let from' : KidsFrom u n least = rw (same_node, kids) from in
      let merging =
        λ (k : Bytes) (c : ℕ) (e : child_of k (kids u n) ≡ some c)
            (simple : merge_with_child u (kids u n) ≡ true).
          let inside_u : n < size u = omega (arith, kept.sized) in
          let bound = kept.shape.grows n c (piece k) (edge-kids u n c k e) in
          optimize_node-Done (suc depth) merges (suc least) (merge_node u n) n
            (merge_node-Optimizable u n kept.shape inside_u simple)
            (size_merged u n kept.shape inside_u simple ∙ kept.sized) inside deep
            (omega (arith, from' k c e, bound.1, kept.sized)) (omega arith)
            (merged_from u n least kept.shape inside_u simple from') in
      let (t', done, kept') =
        optimize_rest-Done n (optimize_node (suc total) (suc depth) merges)
          (optimize_node (suc total) depth (suc total)) good u (kids u n) kept.shape kept.sized
          inside refl merging in
      (t', rw (visited, optimize_node) done, Keeps-trans strtod total (omega arith) kept kept')

module _ {Double : Type 0} (strtod : Bytes → Option (Double × Bytes)) where
  abbrev Served : Trie → Bytes → ℕ → RoutingParams Double → Type 0
  Served t url r q = (r ≢ 0) × Leads strtod t r q 0 url no_params

  find-BestOf : (t : Trie) (url : Bytes) → Optimizable t → BestOf (Served t url) (find strtod t url)
  unfolding find
  find-BestOf t url w =
      let b =
        find_from-BestOf strtod (size t) t 0 url no_params (Optimizable-Ordered w) w.rooted
          (omega arith) in
      record { sound = λ ne. (ne, b.sound ne); least = λ r q l ne. b.least r q l.1 ne }

  kept-BestOf :
      (total : ℕ) (t t' : Trie) (url : Bytes)
      → Keeps strtod total 0 t t'
      → BestOf (Served t url) (find strtod t' url)
  kept-BestOf total t t' url k =
      let b = find-BestOf t' url k.shape in
      record {
        sound = λ ne. (ne, k.back _ _ 0 url no_params ne (b.sound ne).1);
        least = λ r q l ne. b.least r q (ne, k.to r q 0 url no_params ne l.1) ne;
      }

  BestOf-unique :
      (t : Trie) (url : Bytes) (f g : ℕ × RoutingParams Double)
      → BestOf (Served t url) f
      → BestOf (Served t url) g
      → f.0 ≡ g.0
  BestOf-unique t url f g a b = elim (Bool-cases (f.0 == 0)) [
    | inl zero' ↦ elim (Bool-cases (g.0 == 0)) [
      | inl zero'' ↦ ground arith
      | inr some'' ↦
          let ne : g.0 ≢ 0 = ground arith in
          absurd ((a.least g.0 g.1 (b.sound ne) ne).0 (ground arith))
    ]
    | inr some' ↦
        let ne : f.0 ≢ 0 = ground arith in
        let h = b.least f.0 f.1 (a.sound ne) ne in
        let h' = a.least g.0 g.1 (b.sound h.0) h.0 in omega (arith, h.1, h'.1)
  ]

  -- In a trie that is fit for it, `optimize` ends, the result is fit for it again, and every URL is then
  -- answered by the same rule as before, with parameters that labels of that rule in the old trie read.
  pub optimize-Answers :
      (t : Trie)
      → Optimizable t
      → (t' : Trie) × (optimize t ≡ some t')
        × Optimizable t'
        × ((url : Bytes)
            → Answers strtod t url (find strtod t' url)
              × ((find strtod t' url).0 ≡ (find strtod t url).0))
  unfolding optimize
  optimize-Answers t w =
      let (t', done, k) =
        optimize_node-Done strtod (size t) (size t) (suc (size t)) 0 t 0 w refl w.rooted
          (omega arith) (omega arith) (omega arith) (λ k m e. omega arith) in
      (
        t',
        done,
        k.shape,
        λ url.
            let b = kept-BestOf (size t) t t' url k in
            (
              BestOf-Answers strtod t url (find strtod t' url) b,
              BestOf-unique t url (find strtod t' url) (find strtod t url) b (find-BestOf t url w),
            ),
      )
