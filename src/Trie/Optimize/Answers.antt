-- ===== src/Trie/Optimize/Answers.antt =====
-- http/routing.hpp, class `Trie`: what a text leads to before and after a merge of `optimizeNode`.
use crow_core.Common.{
  ℕ, ◌<◌, Bytes, strip_prefix, [], ◌∷◌, ◌++◌, Option, some, true, ◌==◌, ◌≡◌, ◌≢◌, inl, inr, refl,
  sym, ap, ◌∙◌, arith, Bool-cases,
}
use crow_core.Trie.{Trie}
use crow_core.Trie.Edges.{piece, param, size, edge, edge_of}
use crow_core.Trie.Find.{RoutingParams, match_piece}
use crow_core.Trie.Leads.{Leads, stop, via}
use crow_core.Trie.Optimize.{merge_with_child, merge_node}
use crow_core.Trie.Optimize.ChildMaps.{none-some}
use crow_core.Trie.Optimize.Merging.{kids}
use crow_core.Trie.Optimize.Steps.{
  Optimizable, IsSimple, merge_with_child-IsSimple, merged_all, kids_here, kids_elsewhere,
  rule_merged, param_merged, piece_merged,
}

strip_both :
    (k j s r r' : Bytes)
    → strip_prefix k s ≡ some r
    → strip_prefix j r ≡ some r'
    → strip_prefix (k ++ j) s ≡ some r'
unfolding strip_prefix
strip_both [] j s r r' e e' = ground (arith, e, e')
strip_both (c ∷ k) j [] r r' e e' = cc
strip_both (c ∷ k) j (d ∷ s) r r' e e' = ground (arith, strip_both k j s r r')

strip_split :
    (k j s r' : Bytes)
    → strip_prefix (k ++ j) s ≡ some r'
    → (r : Bytes) × (strip_prefix k s ≡ some r) × (strip_prefix j r ≡ some r')
unfolding strip_prefix
strip_split [] j s r' e = (s, refl, e)
strip_split (c ∷ k) j [] r' e = cc
strip_split (c ∷ k) j (d ∷ s) r' e = elim (Bool-cases (c == d)) [
  | inl same ↦
      let (r, first, second) = strip_split k j s r' (rw same at e) in (r, rw same first, second)
  | inr other ↦ absurd (none-some {a = r'} refl (rw other at e))
]

strip_some :
    (j r r' : Bytes) → j ≢ [] → strip_prefix j r ≡ some r' → (c : ℕ) × (s : Bytes) × (r ≡ c ∷ s)
unfolding strip_prefix
strip_some [] r r' ne e = absurd (ne refl)
strip_some (c ∷ j) [] r' ne e = cc
strip_some (c ∷ j) (d ∷ r) r' ne e = (d, r, refl)

module _ {Double : Type 0} (strtod : Bytes → Option (Double × Bytes)) where
  piece_some :
      (k s rest : Bytes) (ps ps' : RoutingParams Double)
      → match_piece strtod k s ps ≡ some (rest, ps')
      → (strip_prefix k s ≡ some rest) × (ps ≡ ps')
  unfolding match_piece
  piece_some k s rest ps ps' e = ground arith

  some_piece :
      (k s rest : Bytes) (ps : RoutingParams Double)
      → strip_prefix k s ≡ some rest
      → match_piece strtod k s ps ≡ some (rest, ps)
  unfolding match_piece
  some_piece k s rest ps e = rw (e, match_piece)

  module _ (t : Trie) (n : ℕ) (w : Optimizable t) (inside : n < size t)
      (simple : merge_with_child t (kids t n) ≡ true) (r : ℕ) (q : RoutingParams Double) where
    new_edge :
        (i c g : ℕ) (k j : Bytes)
        → n ≡ i
        → edge t i (piece k) ≡ some c
        → edge t c (piece j) ≡ some g
        → edge (merge_node t n) i (piece (k ++ j)) ≡ some g
    unfolding edge_of
    new_edge i c g k j same first second =
        rw (kids_here t n w inside simple i same)
          ((merged_all t n w inside simple).new k j c g (rw same first) second)

    kept_edge :
        (i m : ℕ) (k : Bytes)
        → n ≢ i
        → edge t i (piece k) ≡ some m
        → edge (merge_node t n) i (piece k) ≡ some m
    unfolding edge_of
    kept_edge i m k ne e = rw (kids_elsewhere t n w inside simple i ne) e

    IsSimple-child : (i c : ℕ) (k : Bytes) → n ≡ i → edge t i (piece k) ≡ some c → IsSimple t c
    unfolding edge_of
    IsSimple-child i c k same e = merge_with_child-IsSimple t (kids t n) k c simple (rw same e)

    -- A piece to go on with from a simple node.
    record Onward (i : ℕ) (s : Bytes) (ps : RoutingParams Double) : Type 0 where
      key : Bytes
      target : ℕ
      rest : Bytes
      step : edge t i (piece key) ≡ some target
      reading : strip_prefix key s ≡ some rest
      leads : Leads strtod (merge_node t n) r q target rest ps

    to_merged :
        r ≢ 0
        → (i : ℕ) (s : Bytes) (ps : RoutingParams Double) → Leads strtod t r q i s ps
        → Leads strtod (merge_node t n) r q i s ps × (IsSimple t i → Onward i s ps)
    to_merged ne i [] ps (stop e same) =
        (stop (rule_merged t n w inside simple i ∙ e) same, λ p. absurd (ne (sym e ∙ p.0)))
    to_merged ne i (c ∷ s) ps (via {m} {rest} {ps'} (param p) e reads leads) = (
      via (param p) (param_merged t n w inside simple i p ∙ e) reads
          (to_merged ne m rest ps' leads).0,
      λ h. absurd (h.1 p m e),
    )
    to_merged ne i (c ∷ s) ps (via {m} {rest} {ps'} (piece k) e reads leads) =
        let (direct, onward) = to_merged ne m rest ps' leads in
        let (strips, same_ps) = piece_some k (c ∷ s) rest ps ps' reads in
        (
          elim (Bool-cases (n == i)) [
            | inl here ↦
                let same : n ≡ i = ground arith in
                let o = onward (IsSimple-child i m k same e) in
                via (piece (k ++ o.key)) (new_edge i m o.target k o.key same e o.step)
                  (some_piece (k ++ o.key) (c ∷ s) o.rest ps
                    (strip_both k o.key (c ∷ s) rest o.rest strips o.reading))
                  (rw same_ps o.leads)
            | inr other ↦ via (piece k) (kept_edge i m k (ground arith) e) reads direct
          ],
          λ h. record {
            key = k;
            target = m;
            rest = rest;
            step = e;
            reading = strips;
            leads = rw same_ps direct;
          },
        )

    nonempty_key : (c g : ℕ) (j : Bytes) → edge t c (piece j) ≡ some g → j ≢ []
    unfolding edge_of
    nonempty_key c g j e empty = w.nonempty c g (rw empty at e)

    via_two :
        (i c g a : ℕ) (k j s rest : Bytes) (ps : RoutingParams Double)
        → edge t i (piece k) ≡ some c
        → edge t c (piece j) ≡ some g
        → strip_prefix (k ++ j) (a ∷ s) ≡ some rest
        → Leads strtod t r q g rest ps
        → Leads strtod t r q i (a ∷ s) ps
    via_two i c g a k j s rest ps first second strips leads =
        let (mid, strip_k, strip_j) = strip_split k j (a ∷ s) rest strips in
        let (b, tail, shape) = strip_some j mid rest (nonempty_key c g j second) strip_j in
        let strip_j' : strip_prefix j (b ∷ tail) ≡ some rest = rw (← shape) strip_j in
        via (piece k) first (some_piece k (a ∷ s) (b ∷ tail) ps (strip_k ∙ ap some shape))
          (via (piece j) second (some_piece j (b ∷ tail) rest ps strip_j') leads)

    from_merged :
        (i : ℕ) (s : Bytes) (ps : RoutingParams Double)
        → Leads strtod (merge_node t n) r q i s ps
        → Leads strtod t r q i s ps
    from_merged i [] ps (stop e same) = stop (sym (rule_merged t n w inside simple i) ∙ e) same
    from_merged i (a ∷ s) ps (via {m} {rest} {ps'} (param p) e reads leads) =
        via (param p) (sym (param_merged t n w inside simple i p) ∙ e) reads
          (from_merged m rest ps' leads)
    from_merged i (a ∷ s) ps (via {m} {rest} {ps'} (piece x) e reads leads) =
        let back = from_merged m rest ps' leads in
        let (strips, same_ps) = piece_some x (a ∷ s) rest ps ps' reads in
        elim (piece_merged t n w inside simple i x m e) [
          | inl (ne, old) ↦ via (piece x) old reads back
          | inr (same, (k, j, c, split, first, second)) ↦
              via_two i c m a k j s rest ps (rw (← same) first) second (rw (← split) strips)
                (rw same_ps back)
        ]

    -- A merge keeps where every text leads, for every rule but 0.
    pub merge_node-Leads :
        r ≢ 0
        → (i : ℕ) (s : Bytes) (ps : RoutingParams Double)
        → (Leads strtod t r q i s ps → Leads strtod (merge_node t n) r q i s ps)
          × (Leads strtod (merge_node t n) r q i s ps → Leads strtod t r q i s ps)
    merge_node-Leads ne i s ps = (λ l. (to_merged ne i s ps l).0, from_merged i s ps)
