-- ===== src/Trie/Adding.antt =====
-- http/routing.hpp, class `Trie`: the loop of `add` and the paths that it makes.
use crow_core.Common.{
  ℕ, zero, suc, ◌<◌, ◌≤◌, Bytes, length, get_or, strip_prefix, strip_prefix_sound, length-append,
  List, [], ◌∷◌, All, Option, none, some, true, false, ◌==◌, ◌≡◌, ◌≢◌, inl, inr, refl, sym, ap,
  subst, ◌∙◌, arith, Option-cases,
}
use crow_core.Trie.{ParamType, Node, new_node, Trie, node_at, param_traits, find_trait, add_loop}
use crow_core.Trie.Edges.{
  Label, piece, param, same_label_iff, size, rule_at, edge, AddsEdge, child, child-ChildOf,
}
use crow_core.Trie.Invariant.{
  WellFormed, AddsEdge-WellFormed, walk, rule_or_none, rule_of, walk-lt-size,
}

-- How a rule's text reads: characters, each a piece of its own, and the tags of parameters. The
-- path read so far comes before the text; the last label comes first.
pub data Tokens (path : List Label) : List Label → Bytes → Type 0 where
  ends : {read : List Label} → read ≡ path → Tokens path read []
  letter :
      {read : List Label} {c : ℕ} {rest : Bytes}
      → c ≢ b'<'
      → Tokens path (piece (c ∷ []) ∷ read) rest
      → Tokens path read (c ∷ rest)
  tag :
      {read : List Label} {c : ℕ} {rest after : Bytes} {p : ParamType}
      → c ≡ b'<'
      → find_trait param_traits (c ∷ rest) ≡ some (p, after)
      → Tokens path (param p ∷ read) after
      → Tokens path read (c ∷ rest)

-- What a trie keeps when `add` makes nodes in it.
pub record Extends (t t' : Trie) : Type 0 where
  pub larger : size t ≤ size t'
  pub rules : (n : ℕ) → rule_at t' n ≡ rule_at t n
  pub kept : (n m : ℕ) (l : Label) → edge t n l ≡ some m → edge t' n l ≡ some m
  pub fresh : (n m : ℕ) (l : Label) → edge t n l ≡ none → edge t' n l ≡ some m → size t ≤ m

pub Extends-refl : (t : Trie) → Extends t t
Extends-refl t = record {
  larger = omega arith;
  rules = λ n. refl;
  kept = λ n m l e. e;
  fresh = λ n m l e e'. cc;
}

pub Extends-trans : {t u v : Trie} → Extends t u → Extends u v → Extends t v
Extends-trans {t} {u} {v} a b = record {
  larger = omega (arith, a.larger, b.larger);
  rules = λ n. b.rules n ∙ a.rules n;
  kept = λ n m l e. b.kept n m l (a.kept n m l e);
  fresh = λ n m l e e'. elim (Option-cases (edge u n l)) [
    | inl missing ↦ omega (arith, a.larger, b.fresh n m l missing e')
    | inr (k, found) ↦
        let same : some k ≡ some m = sym (b.kept n k l found) ∙ e' in a.fresh n m l e (found ∙ same)
  ];
}

AddsEdge-Extends :
    {t t' : Trie} {idx : ℕ} {l : Label} → edge t idx l ≡ none → AddsEdge t t' idx l → Extends t t'
AddsEdge-Extends {t} {t'} {idx} {l} absent a = record {
  larger = omega (arith, a.grown);
  rules = a.rules;
  kept = λ n m k e. ground (arith, a.edges n k, same_label_iff l k);
  fresh = λ n m k e e'. ground (arith, a.edges n k);
}

-- Making or finding a child keeps all this, and the child is then there.
pub record Descends (t : Trie) (idx : ℕ) (l : Label) (r : Trie × ℕ) : Type 0 where
  pub shape : WellFormed r.0
  pub extends : Extends t r.0
  pub there : edge r.0 idx l ≡ some r.1

pub child-Descends :
    (t : Trie) (idx : ℕ) (l : Label)
    → WellFormed t
    → idx < size t
    → Descends t idx l (child t idx l)
child-Descends t idx l w h = elim (child-ChildOf t idx l h w.owns) [
  | inl (found, same) ↦ record {
    shape = rw same w;
    extends = rw same (Extends-refl t);
    there = rw same found;
  }
  | inr (absent, last, a) ↦ record {
    shape = AddsEdge-WellFormed w a h;
    extends = AddsEdge-Extends absent a;
    there = ground (arith, a.edges idx l, same_label_iff l l);
  }
]

walk-Extends :
    (t t' : Trie) (path : List Label) (n : ℕ)
    → Extends t t'
    → walk t path ≡ some n
    → walk t' path ≡ some n
unfolding walk
walk-Extends t t' [] n x e = e
walk-Extends t t' (l ∷ path) n x e = elim (Option-cases (walk t path)) [
  | inl missing ↦ ground arith
  | inr (k, found) ↦ rw (walk-Extends t t' path k x found) (x.kept k n l (rw found at e))
]

some_inj : {a b : ℕ} → ◌≡◌ {A = Option ℕ} (some a) (some b) → a ≡ b
some_inj e = cc

-- A path that the smaller trie lacks ends in a new node, if anywhere.
walk_fresh :
    (t t' : Trie) (path : List Label) (n : ℕ)
    → WellFormed t'
    → Extends t t'
    → walk t path ≡ none
    → walk t' path ≡ some n
    → size t ≤ n
unfolding walk
walk_fresh t t' [] n w x e e' = cc
walk_fresh t t' (l ∷ path) n w x e e' = elim (Option-cases (walk t' path)) [
  | inl missing ↦ ground arith
  | inr (k', found') ↦
      let last : edge t' k' l ≡ some n = rw found' at e' in
      elim (Option-cases (walk t path)) [
        | inl missing ↦
            omega (arith, walk_fresh t t' path k' w x missing found', w.grows k' n l last)
        | inr (k, found) ↦
            let same : some k ≡ some k' = sym (walk-Extends t t' path k x found) ∙ found' in
            x.fresh k' n l (subst (λ q. edge t q l ≡ none) (some_inj same) (rw found at e)) last
      ]
]

rule_at_beyond : (t : Trie) (n : ℕ) → size t ≤ n → rule_at t n ≡ 0
unfolding node_at
rule_at_beyond t n h = get_or_beyond t.nodes n h
  where
    get_or_beyond : (ns : List Node) (n : ℕ) → length ns ≤ n → (get_or ns n new_node).rule_index ≡ 0
    get_or_beyond [] zero h = refl
    get_or_beyond [] (suc n) h = refl
    get_or_beyond (x ∷ ns) zero h = absurd (omega arith)
    get_or_beyond (x ∷ ns) (suc n) h = get_or_beyond ns n (omega arith)

pub rule_of-Extends :
    (t t' : Trie) (path : List Label)
    → WellFormed t'
    → Extends t t'
    → rule_of t' path ≡ rule_of t path
unfolding rule_of
rule_of-Extends t t' path w x = elim (Option-cases (walk t path)) [
  | inr (n, found) ↦ rw (found, walk-Extends t t' path n x found, rule_or_none) (x.rules n)
  | inl missing ↦ elim (Option-cases (walk t' path)) [
    | inl missing' ↦ rw (missing, missing')
    | inr (n, found') ↦
        rw (missing, found', rule_or_none)
          (x.rules n ∙ rule_at_beyond t n (walk_fresh t t' path n w x missing found'))
  ]
]

abbrev AllTagged : List (ParamType × Bytes) → Type 0
AllTagged traits = All (λ trait. 0 < length trait.1) traits

find_trait-shorter :
    (traits : List (ParamType × Bytes)) (url after : Bytes) (p : ParamType)
    → AllTagged traits
    → find_trait traits url ≡ some (p, after)
    → length after < length url
unfolding find_trait
find_trait-shorter [] url after p h e = cc
find_trait-shorter ((q, text) ∷ traits) url after p h e =
    elim (Option-cases (strip_prefix text url)) [
      | inl other ↦ find_trait-shorter traits url after p h.1 (rw (other, find_trait) at e)
      | inr (rest, found) ↦
          let whole = ap length (strip_prefix_sound text url rest found) in
          let same : rest ≡ after = ground arith in
          omega (arith, whole, length-append text rest, ap length same, h.0)
    ]

-- Where the loop of `add` has come to a node, and what it has kept of the trie.
pub record Arrives (t : Trie) (path : List Label) (o : Option (Trie × ℕ)) : Type 0 where
  pub trie : Trie
  pub node : ℕ
  pub returned : o ≡ some (trie, node)
  pub shape : WellFormed trie
  pub extends : Extends t trie
  pub reached : walk trie path ≡ some node

step-Arrives :
    (t : Trie) (idx : ℕ) (path : List Label) (l : Label) (o : Option (Trie × ℕ))
    → Descends t idx l (child t idx l)
    → Arrives (child t idx l).0 path o
    → Arrives t path o
step-Arrives t idx path l o d a = record {
  trie = a.trie;
  node = a.node;
  returned = a.returned;
  shape = a.shape;
  extends = Extends-trans d.extends a.extends;
  reached = a.reached;
}

walk-child :
    (t : Trie) (idx : ℕ) (read : List Label) (l : Label)
    → walk t read ≡ some idx
    → Descends t idx l (child t idx l)
    → walk (child t idx l).0 (l ∷ read) ≡ some (child t idx l).1
unfolding walk
walk-child t idx read l e d = rw (walk-Extends t (child t idx l).0 read idx d.extends e) d.there

pub add_loop-Arrives :
    (fuel : ℕ) (t : Trie) (idx : ℕ) (url : Bytes) (path read : List Label)
    → WellFormed t
    → walk t read ≡ some idx
    → Tokens path read url
    → length url < fuel
    → Arrives t path (add_loop fuel t idx url)
unfolding add_loop child
add_loop-Arrives zero t idx url path read w e k h = elim h [ ]
add_loop-Arrives (suc fuel) t idx [] path read w e (ends same) h = record {
  trie = t;
  node = idx;
  returned = refl;
  shape = w;
  extends = Extends-refl t;
  reached = rw (← same) e;
}
add_loop-Arrives (suc fuel) t idx (c ∷ rest) path read w e (letter other k) h =
    let d = child-Descends t idx (piece (c ∷ [])) w (walk-lt-size t read idx w e) in
    let test : (c == b'<') ≡ false = ground arith in
    rw (test, add_loop)
      (step-Arrives t idx path (piece (c ∷ [])) _ d (
        add_loop-Arrives fuel (child t idx (piece (c ∷ []))).0 (child t idx (piece (c ∷ []))).1 rest
          path (piece (c ∷ []) ∷ read) d.shape (walk-child t idx read (piece (c ∷ [])) e d) k
          (omega arith)))
add_loop-Arrives (suc fuel) t idx (c ∷ rest) path read w e (tag {after} {p} same found k) h =
    let d = child-Descends t idx (param p) w (walk-lt-size t read idx w e) in
    let test : (c == b'<') ≡ true = ground arith in
    rw (test, found, add_loop)
      (step-Arrives t idx path (param p) _ d (
        add_loop-Arrives fuel (child t idx (param p)).0 (child t idx (param p)).1 after path
          (param p ∷ read) d.shape (walk-child t idx read (param p) e d) k
          (omega (arith, find_trait-shorter param_traits (c ∷ rest) after p (omega arith) found))))
