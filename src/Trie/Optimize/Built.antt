-- ===== src/Trie/Optimize/Built.antt =====
-- http/routing.hpp, class `Trie`: the tries that `add` builds, as `optimize` takes them.
use crow_core.Common.{
  ℕ, zero, suc, ◌<◌, Bytes, length, List, [], ◌∷◌, ◌++◌, All, Option, none, some, ◌==◌, ◌≡◌, ◌⊎◌,
  inl, inr, refl, subst, ◌∙◌, arith, Option-cases, Bool-cases, length-append, bytes_eq_iff,
}
use crow_core.Trie.{
  Node, Trie, ChildMap, node_at, child_of, emplace, push_node, set_node, param_child, piece_child,
  param_traits, find_trait, add_loop, added, set_rule, add_fuel, add, empty_trie,
}
use crow_core.Trie.Edges.{Label, piece, param, size, child, written_node, node_at-push_node}
use crow_core.Trie.Invariant.{WellFormed, walk, rule_or_none, rule_of}
use crow_core.Trie.Adding.{
  Extends, Extends-refl, Extends-trans, Descends, child-Descends, rule_of-Extends,
}
use crow_core.Trie.Insertion.{
  written, written-WellFormed, walk-written, rule_at-written, node_at-written,
}
use crow_core.Trie.Optimize.ChildMaps.{NoDup, NoDup-emplace, PrefixFree, none-some}
use crow_core.Trie.Optimize.Merging.{kids}
use crow_core.Trie.Optimize.Steps.{Optimizable}

-- The child maps that `add` makes: keys of one character, none of them twice.
abbrev pub IsLiteral : ChildMap → Type 0
IsLiteral m = NoDup m × All (λ e. length e.0 ≡ 1) m

abbrev pub AllLiteral : Trie → Type 0
AllLiteral t = (n : ℕ) → IsLiteral (kids t n)

key_length :
    (m : ChildMap) (k : Bytes) (v : ℕ)
    → All (λ e. length e.0 ≡ 1) m
    → child_of k m ≡ some v
    → length k ≡ 1
unfolding child_of
key_length [] k v h e = absurd (none-some {a = v} refl e)
key_length ((j, w) ∷ m) k v h e = ground (arith, h.0, key_length m k v h.1, bytes_eq_iff j k)

IsLiteral-PrefixFree : (m : ChildMap) → IsLiteral m → PrefixFree m
IsLiteral-PrefixFree m h k z c c' e e' =
    no_rest z
      (omega (arith, key_length m k c h.1 e, key_length m (k ++ z) c' h.1 e', length-append k z))
  where
    no_rest : (z : Bytes) → length z ≡ 0 → z ≡ []
    no_rest [] e = refl
    no_rest (a ∷ z) e = absurd (omega arith)

pub WellFormed-Optimizable : {t : Trie} → WellFormed t → AllLiteral t → Optimizable t
WellFormed-Optimizable {t} w lit = record {
  rooted = w.rooted;
  grows = w.grows;
  nodup = λ n. (lit n).0;
  prefix_free = λ n. IsLiteral-PrefixFree (kids t n) (lit n);
  nonempty = λ n v e. absurd (omega (arith, key_length (kids t n) [] v (lit n).1 e));
}

emplace-All :
    (k : Bytes) (v : ℕ) (m : ChildMap)
    → length k ≡ 1
    → All (λ e. length e.0 ≡ 1) m
    → All (λ e. length e.0 ≡ 1) (emplace k v m)
unfolding emplace
emplace-All k v [] one h = (one, tt)
emplace-All k v ((j, w) ∷ m) one h = ground (arith, emplace-All k v m one h.1)

emplace-IsLiteral :
    (k : Bytes) (v : ℕ) (m : ChildMap)
    → length k ≡ 1
    → child_of k m ≡ none
    → IsLiteral m
    → IsLiteral (emplace k v m)
emplace-IsLiteral k v m one absent (nodup, h) =
    (NoDup-emplace k v m absent nodup, emplace-All k v m one h)

-- The maps after a write to a node of the trie with one node more.
push_literal :
    (t : Trie) (idx : ℕ) (n : Node)
    → idx < size t
    → AllLiteral t
    → IsLiteral n.children
    → AllLiteral (set_node (push_node t) idx n)
push_literal t idx n inside lit own i = elim (Bool-cases (idx == i)) [
  | inl here ↦ rw (kids_is i n (written_node t idx i n inside ∙ ground arith)) own
  | inr other ↦ rw (kids_is i (node_at t i) (written_node t idx i n inside ∙ ground arith)) (lit i)
]
  where
    kids_is :
        (i : ℕ) (m : Node)
        → node_at (set_node (push_node t) idx n) i ≡ m
        → kids (set_node (push_node t) idx n) i ≡ m.children
    kids_is i m e = rw (e, kids)

-- The labels that `add` follows.
abbrev IsLetter : Label → Type 0
IsLetter (piece k) = length k ≡ 1
IsLetter (param p) = Unit

child-AllLiteral :
    (t : Trie) (idx : ℕ) (l : Label)
    → IsLetter l
    → idx < size t
    → AllLiteral t
    → AllLiteral (child t idx l).0
unfolding child piece_child param_child
child-AllLiteral t idx (piece k) one inside lit =
    elim (Option-cases (child_of k (node_at t idx).children)) [
      | inl missing ↦
          let same = node_at-push_node t idx in
          rw (missing, piece_child)
            (push_literal t idx _ inside lit
              (rw same (emplace-IsLiteral k (size t) (kids t idx) one missing (lit idx))))
      | inr (m, found) ↦ rw (found, piece_child) lit
    ]
child-AllLiteral t idx (param p) one inside lit =
    elim (Bool-cases ((node_at t idx).param_childrens p == 0)) [
      | inl missing ↦
          let same = node_at-push_node t idx in
          rw (missing, param_child) (push_literal t idx _ inside lit (rw same (lit idx)))
      | inr found ↦ rw (found, param_child) lit
    ]

-- What the loop of `add` keeps, whatever the text.
pub record Grown (t t' : Trie) (idx : ℕ) : Type 0 where
  pub shape : WellFormed t'
  pub literal : AllLiteral t'
  pub extends : Extends t t'
  pub inside : idx < size t'

step-Grown :
    (t t' : Trie) (idx idx' : ℕ) (l : Label)
    → Descends t idx l (child t idx l)
    → Grown (child t idx l).0 t' idx'
    → Grown t t' idx'
step-Grown t t' idx idx' l d g = record {
  shape = g.shape;
  literal = g.literal;
  extends = Extends-trans d.extends g.extends;
  inside = g.inside;
}

some_pair :
    {a b : Trie} {i j : ℕ}
    → ◌≡◌ {A = Option (Trie × ℕ)} (some (a, i)) (some (b, j))
    → (a ≡ b) × (i ≡ j)
some_pair e = (cc, cc)

add_loop-Grown :
    (fuel : ℕ) (t : Trie) (idx : ℕ) (url : Bytes) (t' : Trie) (idx' : ℕ)
    → add_loop fuel t idx url ≡ some (t', idx')
    → WellFormed t
    → AllLiteral t
    → idx < size t
    → Grown t t' idx'
unfolding add_loop child
add_loop-Grown zero t idx url t' idx' e w lit inside = absurd (none-some {a = (t', idx')} refl e)
add_loop-Grown (suc fuel) t idx [] t' idx' e w lit inside =
    let (same, same_idx) = some_pair e in
    rw (← same, ← same_idx)
      (record { shape = w; literal = lit; extends = Extends-refl t; inside = inside })
add_loop-Grown (suc fuel) t idx (c ∷ rest) t' idx' e w lit inside = elim (Bool-cases (c == b'<')) [
  | inl tag ↦ elim (Option-cases (find_trait param_traits (c ∷ rest))) [
    | inl unknown ↦
        add_loop-Grown fuel t idx (c ∷ rest) t' idx' (rw (tag, unknown, add_loop) at e) w lit inside
    | inr ((p, after), found) ↦
        let d = child-Descends t idx (param p) w inside in
        step-Grown t t' idx idx' (param p) d (
          add_loop-Grown fuel (param_child t idx p).0 (param_child t idx p).1 after t' idx'
            (rw (tag, found, add_loop) at e) d.shape
            (child-AllLiteral t idx (param p) tt inside lit)
            (d.shape.grows idx _ (param p) d.there).1)
  ]
  | inr letter ↦
      let d = child-Descends t idx (piece (c ∷ [])) w inside in
      step-Grown t t' idx idx' (piece (c ∷ [])) d (
        add_loop-Grown fuel (piece_child t idx (c ∷ [])).0 (piece_child t idx (c ∷ [])).1 rest t'
          idx' (rw (letter, add_loop) at e) d.shape
          (child-AllLiteral t idx (piece (c ∷ [])) refl inside lit)
          (d.shape.grows idx _ (piece (c ∷ [])) d.there).1)
]

kids-written :
    (t : Trie) (idx r : ℕ) (w : WellFormed t) (inside : idx < size t) (i : ℕ)
    → kids (written t idx r w inside) i ≡ kids t i
kids-written t idx r w inside i = elim (Bool-cases (idx == i)) [
  | inl here ↦
      let same : idx ≡ i = ground arith in
      kids_is (record (node_at t idx) { rule_index = r })
        (node_at-written t idx r w inside i ∙ ground arith)
      ∙ rw same
  | inr other ↦ kids_is (node_at t i) (node_at-written t idx r w inside i ∙ ground arith)
]
  where
    kids_is :
        (m : Node)
        → node_at (written t idx r w inside) i ≡ m
        → kids (written t idx r w inside) i ≡ m.children
    kids_is m e = rw (e, kids)

-- What `add` has done when it returns: the trie is fit for `find`, `add` and `optimize`, and every
-- path has the new rule or the one it had.
pub record Added (t t' : Trie) (r : ℕ) : Type 0 where
  pub shape : WellFormed t'
  pub literal : AllLiteral t'
  pub rules : (path : List Label) → (rule_of t' path ≡ r) ⊎ (rule_of t' path ≡ rule_of t path)

module _ (t u : Trie) (idx r : ℕ) (g : Grown t u idx) (inside : idx < size u)
    (w : WellFormed u) where
  written_rules :
      (path : List Label)
      → (rule_of (written u idx r w inside) path ≡ r)
        ⊎ (rule_of (written u idx r w inside) path ≡ rule_of t path)
  unfolding rule_of
  written_rules path =
      let old = rule_of-Extends t u path g.shape g.extends in
      elim (Option-cases (walk u path)) [
        | inl missing ↦ inr (
            rw (walk-written u idx r w inside path, missing, rule_or_none)
              (rw (missing, rule_or_none) at old))
        | inr (n, found) ↦ elim (Bool-cases (idx == n)) [
          | inl here ↦ inl (
              rw (walk-written u idx r w inside path, found, rule_or_none)
                (rule_at-written u idx r w inside n ∙ ground arith))
          | inr away ↦ inr (
              rw (walk-written u idx r w inside path, found, rule_or_none)
                (rule_at-written u idx r w inside n ∙ (rw away (rw (found, rule_or_none) at old))))
        ]
      ]

  written-Added : Added t (written u idx r w inside) r
  written-Added = record {
    shape = written-WellFormed u idx r w inside;
    literal = λ n. rw (kids-written u idx r w inside n) (g.literal n);
    rules = written_rules;
  }

added_inj : {a b : Trie} → added a ≡ added b → a ≡ b
added_inj e = cc

-- A trie that `add` returns is fit for `find`, `add` and `optimize`, whatever the rule's text.
pub add-Added :
    (t : Trie) (url : Bytes) (r : ℕ) (t' : Trie)
    → WellFormed t
    → AllLiteral t
    → add t url r ≡ added t'
    → Added t t' r
unfolding add add_fuel set_rule
add-Added t url r t' w lit e = elim (Option-cases (add_loop (suc (length url)) t 0 url)) [
  | inl running ↦ absurd (cc (rw (running, add_fuel) at e))
  | inr ((u, idx), ended) ↦
      let g = add_loop-Grown (suc (length url)) t 0 url u idx ended w lit w.rooted in
      let result = rw (ended, add_fuel, set_rule) at e in
      elim (Bool-cases ((node_at u idx).rule_index == 0)) [
        | inl free ↦
            subst (λ v. Added t v r) (added_inj (rw (free, set_rule) at result))
              (written-Added t u idx r g g.inside g.shape)
        | inr taken ↦ absurd (cc (rw (taken, set_rule) at result))
      ]
]

pub empty_trie-AllLiteral : AllLiteral empty_trie
unfolding node_at
empty_trie-AllLiteral zero = (tt, tt)
empty_trie-AllLiteral (suc n) = (tt, tt)
