-- ===== src/Trie/Leads.antt =====
-- http/routing.hpp, class `Trie`: where the labels along a path lead, and the best of what they lead to.
use crow_core.Common.{
  ℕ, ◌≤◌, Bytes, [], ◌∷◌, Option, some, ◌||◌, ◌==◌, ltb, ◌≡◌, ◌≢◌, ◌⊎◌, inl, inr, arith, Bool-cases,
}
use crow_core.Trie.{int, uint, double, string, path, Trie}
use crow_core.Trie.Edges.{Label, piece, param, rule_at, edge}
use crow_core.Trie.Find.{
  RoutingParams, match_int, match_uint, match_double, match_string, match_path, match_piece,
  update_found,
}

module _ {Double : Type 0} (strtod : Bytes → Option (Double × Bytes)) where
  -- What a label takes off the front of the text.
  abbrev pub consume : Label → Bytes → RoutingParams Double → Option (Bytes × RoutingParams Double)
  consume (piece k) s ps = match_piece strtod k s ps
  consume (param int) s ps = match_int strtod s ps
  consume (param uint) s ps = match_uint strtod s ps
  consume (param double) s ps = match_double strtod s ps
  consume (param string) s ps = match_string strtod s ps
  consume (param path) s ps = match_path strtod s ps

  -- From a node and a text, labels that read the whole text lead to a node with rule `r`.
  pub data Leads (t : Trie) (r : ℕ) (q : RoutingParams Double)
      : ℕ → Bytes → RoutingParams Double → Type 0 where
    stop : {n : ℕ} {ps : RoutingParams Double} → rule_at t n ≡ r → ps ≡ q → Leads t r q n [] ps
    via :
        {n c m : ℕ} {s rest : Bytes} {ps ps' : RoutingParams Double} (l : Label)
        → edge t n l ≡ some m
        → consume l (c ∷ s) ps ≡ some (rest, ps')
        → Leads t r q m rest ps'
        → Leads t r q n (c ∷ s) ps

-- The best of the outcomes that `C` allows: a non-zero rule is one of them, and none is smaller.
pub record BestOf {Double : Type 0} (C : ℕ → RoutingParams Double → Type 0)
    (f : ℕ × RoutingParams Double) : Type 0 where
  pub sound : f.0 ≢ 0 → C f.0 f.1
  pub least : (r : ℕ) (q : RoutingParams Double) → C r q → r ≢ 0 → (f.0 ≢ 0) × (f.0 ≤ r)

abbrev pub Outcomes : Type 0 → Type 1
Outcomes Double = ℕ → RoutingParams Double → Type 0

module _ {Double : Type 0} where
  abbrev pub Either : Outcomes Double → Outcomes Double → Outcomes Double
  Either C D r q = C r q ⊎ D r q

  pub BestOf-iff :
      {C D : Outcomes Double} {f : ℕ × RoutingParams Double}
      → ((r : ℕ) (q : RoutingParams Double) → C r q → D r q)
      → ((r : ℕ) (q : RoutingParams Double) → D r q → C r q)
      → BestOf C f
      → BestOf D f
  BestOf-iff {f = f} to from b = record {
    sound = λ ne. to f.0 f.1 (b.sound ne);
    least = λ r q d ne. b.least r q (from r q d) ne;
  }

module _ {Double : Type 0} (strtod : Bytes → Option (Double × Bytes)) where
  pub update_found-BestOf :
      (C D : Outcomes Double) (f g : ℕ × RoutingParams Double)
      → BestOf C f
      → BestOf D g
      → BestOf (Either C D) (update_found strtod f g)
  unfolding update_found
  update_found-BestOf C D f g a b = elim (Bool-cases (g.0 == 0)) [
    | inl zero' ↦
        rw (zero', update_found)
          (record {
            sound = λ ne. inl (a.sound ne);
            least = λ r q o ne. elim o [
              | inl c ↦ a.least r q c ne
              | inr d ↦ absurd ((b.least r q d ne).0 (ground arith))
            ];
          })
    | inr some' ↦ elim (Bool-cases (f.0 == 0 || ltb g.0 f.0)) [
      | inl better ↦
          rw (some', better, update_found)
            (record {
              sound = λ ne. inr (b.sound ne);
              least = λ r q o ne. elim o [
                | inl c ↦ let h = a.least r q c ne in ground arith
                | inr d ↦ b.least r q d ne
              ];
            })
      | inr worse ↦
          rw (some', worse, update_found)
            (record {
              sound = λ ne. inl (a.sound ne);
              least = λ r q o ne. elim o [
                | inl c ↦ a.least r q c ne
                | inr d ↦ let h = b.least r q d ne in ground arith
              ];
            })
    ]
  ]

  -- The outcomes through one label.
  pub data Via (t : Trie) (n c : ℕ) (s : Bytes) (ps : RoutingParams Double) (l : Label) (r : ℕ)
      (q : RoutingParams Double) : Type 0 where
    over :
        {m : ℕ} {rest : Bytes} {ps' : RoutingParams Double}
        → edge t n l ≡ some m
        → consume strtod l (c ∷ s) ps ≡ some (rest, ps')
        → Leads strtod t r q m rest ps'
        → Via t n c s ps l r q
