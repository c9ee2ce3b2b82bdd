-- ===== src/Trie/Search.antt =====
-- http/routing.hpp, class `Trie`: `find` against the rules that the labels along a path lead to.
use mathlib.Core.Path.{subst₃}
use crow_core.Common.{
  ℕ, zero, suc, ◌+◌, ◌<◌, ◌≤◌, Bytes, bytes_eq, bytes_eq_iff, [], ◌∷◌, Option, none, some, ◌==◌,
  ◌≡◌, ◌≢◌, ◌⊎◌, inl, inr, refl, sym, subst, ◌∙◌, arith, Bool-cases,
}
use crow_core.Trie.{ParamType, int, uint, double, string, path, Trie, ChildMap, node_at, child_of}
use crow_core.Trie.Edges.{Label, piece, param, size, edge, edge_of, nonzero, Owns}
use crow_core.Trie.Invariant.{Ordered}
use crow_core.Trie.Find.{
  RoutingParams, no_params, match_piece, attempt, try_param, try_children, search_node, find_from,
}
use crow_core.Trie.Leads.{
  consume, Leads, stop, via, BestOf, Outcomes, Either, BestOf-iff, update_found-BestOf, Via, over,
}

module _ {Double : Type 0} (strtod : Bytes → Option (Double × Bytes)) where
  module _ (t : Trie) (n c : ℕ) (s : Bytes) (ps : RoutingParams Double)
      (next : ℕ → Bytes → RoutingParams Double → ℕ × RoutingParams Double)
      (good : (l : Label) (m : ℕ) (rest : Bytes) (ps' : RoutingParams Double)
        → edge t n l ≡ some m
        → BestOf (λ r q. Leads strtod t r q m rest ps') (next m rest ps')) where
    Via-Leads :
        (l : Label) (m : ℕ) (rest : Bytes) (ps' : RoutingParams Double) (r : ℕ)
        (q : RoutingParams Double)
        → edge t n l ≡ some m
        → consume strtod l (c ∷ s) ps ≡ some (rest, ps')
        → Via strtod t n c s ps l r q
        → Leads strtod t r q m rest ps'
    Via-Leads l m rest ps' r q e f (over {m = m'} {rest = rest'} {ps' = ps''} e' f' leads) =
        let same_m : m' ≡ m = cc in
        let same_rest : rest' ≡ rest = cc in
        let same_ps : ps'' ≡ ps' = cc in
        subst₃ (λ a b d. Leads strtod t r q a b d) same_m same_rest same_ps leads

    attempt-BestOf :
        (C : Outcomes Double) (f : ℕ × RoutingParams Double) (l : Label) (m : ℕ)
        (o : Option (Bytes × RoutingParams Double))
        → edge t n l ≡ some m
        → consume strtod l (c ∷ s) ps ≡ o
        → BestOf C f
        → BestOf (Either C (Via strtod t n c s ps l)) (attempt strtod m o next f)
    unfolding attempt
    attempt-BestOf C f l m none e fails b =
        BestOf-iff (λ r q d. inl d)
          (λ r q d. elim d [ inl old ↦ old | inr (over e' f' leads) ↦ absurd (no_value fails f') ])
          b
      where
        no_value :
            {o : Option (Bytes × RoutingParams Double)} {v : Bytes × RoutingParams Double}
            → o ≡ none
            → o ≡ some v
            → ⊥
        no_value p q = cc
    attempt-BestOf C f l m (some (rest, ps')) e reads b =
        BestOf-iff (λ r q d. elim d [ inl old ↦ inl old | inr leads ↦ inr (over e reads leads) ])
          (λ r q d. elim d [
            | inl old ↦ inl old
            | inr v ↦ inr (Via-Leads l m rest ps' r q e reads v)
          ])
          (update_found-BestOf strtod C (λ r q. Leads strtod t r q m rest ps') f (next m rest ps') b
            (good l m rest ps' e))

    try_param-BestOf :
        (C : Outcomes Double) (f : ℕ × RoutingParams Double) (p : ParamType)
        (o : Option (Bytes × RoutingParams Double))
        → consume strtod (param p) (c ∷ s) ps ≡ o
        → BestOf C f
        → BestOf
            (Either C (Via strtod t n c s ps (param p)))
            (try_param strtod (node_at t n) p o next f)
    unfolding try_param edge_of
    try_param-BestOf C f p o reads b = elim (Bool-cases ((node_at t n).param_childrens p == 0)) [
      | inl missing ↦
          rw (missing, try_param)
            (BestOf-iff (λ r q d. inl d)
              (λ r q d. elim d [
                | inl old ↦ old
                | inr (over {m} e' f' leads) ↦ absurd (no_child _ m (ground arith) e')
              ])
              b)
      | inr found ↦
          rw (found, try_param)
            (attempt-BestOf C f (param p) ((node_at t n).param_childrens p) o
              (nonzero_ne _ (ground arith)) reads b)
    ]
      where
        no_child : (v m : ℕ) → v ≡ 0 → nonzero v ≡ some m → ⊥
        no_child zero m z e = cc
        no_child (suc v) m z e = absurd (omega arith)

        nonzero_ne : (v : ℕ) → v ≢ 0 → nonzero v ≡ some v
        nonzero_ne zero h = absurd (h refl)
        nonzero_ne (suc v) h = refl

    -- The outcomes through the entries of a child map.
    abbrev ViaEntries : ChildMap → Outcomes Double
    ViaEntries [] r q = ⊥
    ViaEntries ((k, v) ∷ m) r q = Via strtod t n c s ps (piece k) r q ⊎ ViaEntries m r q

    try_children-BestOf :
        (C : Outcomes Double) (f : ℕ × RoutingParams Double) (m : ChildMap)
        → Owns (node_at t n).children m
        → BestOf C f
        → BestOf (Either C (ViaEntries m)) (try_children strtod m (c ∷ s) ps next f)
    unfolding try_children edge_of
    try_children-BestOf C f [] h b =
        BestOf-iff (λ r q d. inl d) (λ r q d. elim d [ inl old ↦ old | inr none' ↦ absurd none' ]) b
    try_children-BestOf C f ((k, v) ∷ m) h b =
        BestOf-iff
          (λ r q d. elim d [
            | inl (inl old) ↦ inl old
            | inl (inr first) ↦ inr (inl first)
            | inr later ↦ inr (inr later)
          ])
          (λ r q d. elim d [
            | inl old ↦ inl (inl old)
            | inr (inl first) ↦ inl (inr first)
            | inr (inr later) ↦ inr later
          ])
          (try_children-BestOf (Either C (Via strtod t n c s ps (piece k)))
            (attempt strtod v (match_piece strtod k (c ∷ s) ps) next f) m h.1
            (attempt-BestOf C f (piece k) v (match_piece strtod k (c ∷ s) ps) h.0 refl b))

    child_of-ViaEntries :
        (m : ChildMap) (k : Bytes) (v r : ℕ) (q : RoutingParams Double)
        → child_of k m ≡ some v
        → Via strtod t n c s ps (piece k) r q
        → ViaEntries m r q
    unfolding child_of
    child_of-ViaEntries [] k v r q e d = absurd (cc e)
    child_of-ViaEntries ((j, w) ∷ m) k v r q e d = elim (Bool-cases (bytes_eq j k)) [
      | inl same ↦
          inl (subst (λ a. Via strtod t n c s ps (piece a) r q) (sym ((bytes_eq_iff j k).0 same)) d)
      | inr other ↦ inr (child_of-ViaEntries m k v r q (rw other at e) d)
    ]

    -- All labels of a node together.
    abbrev ViaNode : Outcomes Double
    ViaNode r q = (l : Label) × Via strtod t n c s ps l r q

    ViaEntries-ViaNode :
        (m : ChildMap) (r : ℕ) (q : RoutingParams Double) → ViaEntries m r q → ViaNode r q
    ViaEntries-ViaNode [] r q d = absurd d
    ViaEntries-ViaNode ((k, v) ∷ m) r q (inl first) = (piece k, first)
    ViaEntries-ViaNode ((k, v) ∷ m) r q (inr later) = ViaEntries-ViaNode m r q later

    abbrev ViaParam : ParamType → Outcomes Double
    ViaParam p = Via strtod t n c s ps (param p)

    none_yet : BestOf (λ r q. ⊥) (0, no_params {Double = Double})
    none_yet = record { sound = λ ne. absurd (ne refl); least = λ r q d ne. absurd d }

    search_node-BestOf :
        Owns (node_at t n).children (node_at t n).children
        → BestOf ViaNode (search_node strtod (node_at t n) (c ∷ s) ps next)
    unfolding search_node edge_of
    search_node-BestOf owns = BestOf-iff gather scatter (
        try_children-BestOf _ _ (node_at t n).children owns (
          try_param-BestOf _ _ path _ refl (
            try_param-BestOf _ _ string _ refl (
              try_param-BestOf _ _ double _ refl
                (try_param-BestOf _ _ uint _ refl (try_param-BestOf _ _ int _ refl none_yet))))))
      where
        Gathered : Outcomes Double
        Gathered =
            Either
              (Either
                (Either
                  (Either (Either (Either (λ r q. ⊥) (ViaParam int)) (ViaParam uint))
                    (ViaParam double))
                  (ViaParam string))
                (ViaParam path))
              (ViaEntries (node_at t n).children)

        gather : (r : ℕ) (q : RoutingParams Double) → Gathered r q → ViaNode r q
        gather r q (inr d) = ViaEntries-ViaNode (node_at t n).children r q d
        gather r q (inl (inr d)) = (param path, d)
        gather r q (inl (inl (inr d))) = (param string, d)
        gather r q (inl (inl (inl (inr d)))) = (param double, d)
        gather r q (inl (inl (inl (inl (inr d))))) = (param uint, d)
        gather r q (inl (inl (inl (inl (inl (inr d)))))) = (param int, d)
        gather r q (inl (inl (inl (inl (inl (inl d)))))) = absurd d

        scatter : (r : ℕ) (q : RoutingParams Double) → ViaNode r q → Gathered r q
        scatter r q (piece k, over {m} e reads leads) =
            inr (child_of-ViaEntries (node_at t n).children k m r q e (over e reads leads))
        scatter r q (param path, d) = inl (inr d)
        scatter r q (param string, d) = inl (inl (inr d))
        scatter r q (param double, d) = inl (inl (inl (inr d)))
        scatter r q (param uint, d) = inl (inl (inl (inl (inr d))))
        scatter r q (param int, d) = inl (inl (inl (inl (inl (inr d)))))

  -- With a call for each node that is left, `find` at a node gives the best of what it leads to.
  pub find_from-BestOf :
      (fuel : ℕ) (t : Trie) (n : ℕ) (s : Bytes) (ps : RoutingParams Double)
      → Ordered t
      → n < size t
      → size t ≤ fuel + n
      → BestOf (λ r q. Leads strtod t r q n s ps) (find_from strtod fuel t n s ps)
  unfolding find_from
  find_from-BestOf zero t n s ps w inside enough = absurd (omega arith)
  find_from-BestOf (suc fuel) t n [] ps w inside enough = record {
    sound = λ ne. stop refl refl;
    least = λ r q leads ne. stop_least leads ne;
  }
    where
      stop_least :
          {r : ℕ} {q : RoutingParams Double}
          → Leads strtod t r q n [] ps
          → r ≢ 0
          → ((node_at t n).rule_index ≢ 0) × ((node_at t n).rule_index ≤ r)
      stop_least (stop e same) ne = (λ z. ne (sym e ∙ z), omega (arith, e))
  find_from-BestOf (suc fuel) t n (c ∷ s) ps w inside enough = BestOf-iff pack unpack (
      search_node-BestOf t n c s ps (find_from strtod fuel t)
        (λ l m rest ps' e.
          find_from-BestOf fuel t m rest ps' w (w.grows n m l e).1
            (omega (arith, (w.grows n m l e).0)))
        (w.owns n))
    where
      pack :
          (r : ℕ) (q : RoutingParams Double)
          → ((l : Label) × Via strtod t n c s ps l r q)
          → Leads strtod t r q n (c ∷ s) ps
      pack r q (l, over e reads leads) = via l e reads leads

      unpack :
          (r : ℕ) (q : RoutingParams Double)
          → Leads strtod t r q n (c ∷ s) ps
          → (l : Label) × Via strtod t n c s ps l r q
      unpack r q (via l e reads leads) = (l, over e reads leads)
