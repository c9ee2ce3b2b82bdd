-- ===== src/Trie/Optimize/Keeps.antt =====
-- http/routing.hpp, class `Trie`: what `optimizeNode` keeps, and its loops over the children of a node.
use crow_core.Common.{
  ℕ, zero, suc, ◌<◌, ◌≤◌, Bytes, List, [], ◌∷◌, All, Option, some, ◌==◌, ◌≡◌, ◌≢◌, inl, inr, refl,
  ◌∙◌, arith, Bool-cases,
}
use crow_core.Trie.{ParamType, Trie, ChildMap, node_at}
use crow_core.Trie.Edges.{param, size, edge, edge_of, nonzero}
use crow_core.Trie.Find.{RoutingParams}
use crow_core.Trie.Leads.{Leads}
use crow_core.Trie.Optimize.{optimize_params, optimize_children}
use crow_core.Trie.Optimize.Steps.{Optimizable}

module _ {Double : Type 0} (strtod : Bytes → Option (Double × Bytes)) (total : ℕ) where
  -- What stays the same: the shape, the size, the nodes below `first`, and where texts lead.
  pub record Keeps (first : ℕ) (t t' : Trie) : Type 0 where
    pub shape : Optimizable t'
    pub sized : size t' ≡ total
    pub below : (j : ℕ) → j < first → node_at t' j ≡ node_at t j
    pub to :
        (r : ℕ) (q : RoutingParams Double) (i : ℕ) (s : Bytes) (ps : RoutingParams Double)
        → r ≢ 0
        → Leads strtod t r q i s ps
        → Leads strtod t' r q i s ps
    pub back :
        (r : ℕ) (q : RoutingParams Double) (i : ℕ) (s : Bytes) (ps : RoutingParams Double)
        → r ≢ 0
        → Leads strtod t' r q i s ps
        → Leads strtod t r q i s ps

  pub Keeps-refl : (first : ℕ) (t : Trie) → Optimizable t → size t ≡ total → Keeps first t t
  Keeps-refl first t w sized = record {
    shape = w;
    sized = sized;
    below = λ j h. refl;
    to = λ r q i s ps ne l. l;
    back = λ r q i s ps ne l. l;
  }

  pub Keeps-trans :
      {first second : ℕ} {t u v : Trie}
      → first ≤ second
      → Keeps second t u
      → Keeps first u v
      → Keeps first t v
  Keeps-trans {first} {second} h a b = record {
    shape = b.shape;
    sized = b.sized;
    below = λ j lt. b.below j lt ∙ a.below j (omega arith);
    to = λ r q i s ps ne l. b.to r q i s ps ne (a.to r q i s ps ne l);
    back = λ r q i s ps ne l. a.back r q i s ps ne (b.back r q i s ps ne l);
  }

  pub Keeps-weaken :
      {first second : ℕ} {t u : Trie} → first ≤ second → Keeps second t u → Keeps first t u
  Keeps-weaken h a = record {
    shape = a.shape;
    sized = a.sized;
    below = λ j lt. a.below j (omega arith);
    to = a.to;
    back = a.back;
  }

  -- A call that returns a trie which keeps all this.
  abbrev pub Done : ℕ → Trie → Option Trie → Type 0
  Done first t o = (t' : Trie) × (o ≡ some t') × Keeps first t t'

  module _ (n : ℕ) (visit : Trie → ℕ → Option Trie)
      (good : (t : Trie) (i : ℕ)
        → Optimizable t
        → size t ≡ total
        → n < i
        → i < total
        → Done i t (visit t i)) where
    param_edge :
        (t : Trie) (p : ParamType)
        → (node_at t n).param_childrens p ≢ 0
        → edge t n (param p) ≡ some ((node_at t n).param_childrens p)
    unfolding edge_of
    param_edge t p ne = nonzero_ne _ ne
      where
        nonzero_ne : (v : ℕ) → v ≢ 0 → nonzero v ≡ some v
        nonzero_ne zero h = absurd (h refl)
        nonzero_ne (suc v) h = refl

    pub optimize_params-Done :
        (t : Trie) (ps : List ParamType)
        → Optimizable t
        → size t ≡ total
        → Done (suc n) t (optimize_params visit t n ps)
    unfolding optimize_params
    optimize_params-Done t [] w sized = (t, refl, Keeps-refl (suc n) t w sized)
    optimize_params-Done t (p ∷ ps) w sized =
        elim (Bool-cases ((node_at t n).param_childrens p == 0)) [
          | inl missing ↦
              let (t', done, k) = optimize_params-Done t ps w sized in
              (t', rw (missing, optimize_params) done, k)
          | inr found ↦
              let h = w.grows n _ (param p) (param_edge t p (ground arith)) in
              let (u, visited, k) =
                good t ((node_at t n).param_childrens p) w sized h.0 (omega (arith, h.1, sized)) in
              let (t', done, k') = optimize_params-Done u ps k.shape k.sized in
              (t', rw (found, visited, optimize_params) done, Keeps-trans h.0 k k')
        ]

    pub optimize_children-Done :
        (t : Trie) (m : ChildMap)
        → All (λ e. (n < e.1) × (e.1 < total)) m
        → Optimizable t
        → size t ≡ total
        → Done (suc n) t (optimize_children visit t m)
    unfolding optimize_children
    optimize_children-Done t [] h w sized = (t, refl, Keeps-refl (suc n) t w sized)
    optimize_children-Done t ((k, c) ∷ m) h w sized =
        let (u, visited, kept) = good t c w sized h.0.0 h.0.1 in
        let (t', done, kept') = optimize_children-Done u m h.1 kept.shape kept.sized in
        (t', rw (visited, optimize_children) done, Keeps-trans h.0.0 kept kept')
