-- ===== src/Trie/Insertion.antt =====
-- http/routing.hpp, class `Trie`: what `add` leaves behind, in terms of the rules at the paths.
use crow_core.Common.{
  ℕ, zero, suc, ◌<◌, Bytes, length, List, [], ◌∷◌, none, some, true, false, ◌==◌, if◌then◌else◌,
  ◌≡◌, ◌≢◌, inl, inr, refl, sym, ap, ◌∙◌, arith, Option-cases, Bool-cases,
}
use crow_core.Trie.{
  ParamType, Node, Trie, node_at, set_node, param_traits, find_trait, add_loop, added,
  already_exists, still_running, set_rule, add_fuel, add,
}
use crow_core.Trie.Edges.{
  Label, piece, param, size, rule_at, edge, edge_of, AllOwn, node_at-set_node, size-set_node,
}
use crow_core.Trie.Invariant.{WellFormed, walk, rule_or_none, rule_of, walk-lt-size, walk-injective}
use crow_core.Trie.Adding.{Tokens, Arrives, add_loop-Arrives, rule_of-Extends}

edge_of_rule :
    (n : Node) (r : ℕ) (l : Label) → edge_of (record n { rule_index = r }) l ≡ edge_of n l
unfolding edge_of
edge_of_rule n r (piece k) = refl
edge_of_rule n r (param p) = refl

module _ (t : Trie) (idx r : ℕ) (w : WellFormed t) (inside : idx < size t) where
  abbrev pub written : Trie
  written = set_node t idx (record (node_at t idx) { rule_index = r })

  pub node_at-written :
      (i : ℕ)
      → node_at written i
        ≡ (if idx == i then record (node_at t idx) { rule_index = r } else node_at t i)
  node_at-written i = node_at-set_node t idx i _ inside

  edge-written : (i : ℕ) (l : Label) → edge written i l ≡ edge t i l
  edge-written i l = rw (node_at-written i) (elim (Bool-cases (idx == i)) [
    | inl here ↦ let e : idx ≡ i = ground arith in rw here (edge_of_rule (node_at t idx) r l ∙ rw e)
    | inr other ↦ rw other refl
  ])

  owns_written : AllOwn written
  owns_written i = rw (node_at-written i) (elim (Bool-cases (idx == i)) [
    | inl here ↦ rw here (w.owns idx)
    | inr other ↦ rw other (w.owns i)
  ])

  pub written-WellFormed : WellFormed written
  written-WellFormed = record {
    rooted = rw (size-set_node t idx _) w.rooted;
    grows = λ n m l e. rw (size-set_node t idx _) (w.grows n m l (sym (edge-written n l) ∙ e));
    parent = λ n n' m l l' e e'.
        w.parent n n' m l l' (sym (edge-written n l) ∙ e) (sym (edge-written n' l') ∙ e');
    owns = owns_written;
  }

  pub walk-written : (path : List Label) → walk written path ≡ walk t path
  unfolding walk
  walk-written [] = refl
  walk-written (l ∷ path) = elim (Option-cases (walk t path)) [
    | inl missing ↦ rw (walk-written path, missing)
    | inr (n, found) ↦ rw (walk-written path, found) (edge-written n l)
  ]

  pub rule_at-written : (i : ℕ) → rule_at written i ≡ (if idx == i then r else rule_at t i)
  rule_at-written i = ground (arith, node_at-written i)

  rule_of-written : (path : List Label) → walk t path ≡ some idx → rule_of written path ≡ r
  unfolding rule_of
  rule_of-written path e =
      rw (walk-written path, e, rule_or_none) (ground (arith, rule_at-written idx))

  rule_of_elsewhere :
      (path other : List Label)
      → walk t path ≡ some idx
      → other ≢ path
      → rule_of written other ≡ rule_of t other
  unfolding rule_of
  rule_of_elsewhere path other e ne = elim (Option-cases (walk t other)) [
    | inl missing ↦ rw (walk-written other, missing)
    | inr (n, found) ↦ elim (Bool-cases (idx == n)) [
      | inl here ↦
          let same : idx ≡ n = ground arith in
          absurd (ne (walk-injective t other path n w found (e ∙ ap some same)))
      | inr away ↦ rw (walk-written other, found, rule_or_none) (ground (arith, rule_at-written n))
    ]
  ]

-- A trie that has one rule more, at a path that had none.
pub record Inserts (t t' : Trie) (path : List Label) (r : ℕ) : Type 0 where
  pub shape : WellFormed t'
  pub there : rule_of t' path ≡ r
  pub elsewhere : (other : List Label) → other ≢ path → rule_of t' other ≡ rule_of t other

module _ (t : Trie) (url : Bytes) (r : ℕ) (path : List Label) (w : WellFormed t)
    (reads : Tokens path [] url) where
  arrives : Arrives t path (add_loop (suc (length url)) t 0 url)
  unfolding walk
  arrives = add_loop-Arrives (suc (length url)) t 0 url path [] w refl reads (omega arith)

  rule_at_arrival : rule_at arrives.trie arrives.node ≡ rule_of t path
  unfolding rule_of
  rule_at_arrival =
      let a = arrives in
      rw (a.reached, rule_or_none) at (rule_of-Extends t a.trie path a.shape a.extends)

  -- In a well-formed trie, `add` at a path that has no rule ends without an exception: the path has
  -- the new rule, and every other path keeps its own.
  pub add-Inserts :
      rule_of t path ≡ 0 → (t' : Trie) × (add t url r ≡ added t') × Inserts t t' path r
  unfolding add add_fuel set_rule
  add-Inserts free =
      let a = arrives in
      let inside = walk-lt-size a.trie path a.node a.shape a.reached in
      let vacant : rule_at a.trie a.node ≡ 0 = rule_at_arrival ∙ free in
      (
        written a.trie a.node r a.shape inside,
        rw (a.returned, add_fuel) (ground arith),
        record {
          shape = written-WellFormed a.trie a.node r a.shape inside;
          there = rule_of-written a.trie a.node r a.shape inside path a.reached;
          elsewhere = λ other ne.
              rule_of_elsewhere a.trie a.node r a.shape inside path other a.reached ne
              ∙ rule_of-Extends t a.trie other a.shape a.extends;
        },
      )

  -- In a well-formed trie, `add` at a path that has a rule throws, and the trie that it leaves is well
  -- formed, with the rule that it had at every path.
  pub add-already_exists :
      rule_of t path ≢ 0
      → (t' : Trie) × (add t url r ≡ already_exists t')
        × WellFormed t'
        × ((other : List Label) → rule_of t' other ≡ rule_of t other)
  unfolding add add_fuel set_rule
  add-already_exists taken =
      let a = arrives in
      (
        a.trie,
        rw (a.returned, add_fuel) (ground (arith, rule_at_arrival)),
        a.shape,
        λ other. rule_of-Extends t a.trie other a.shape a.extends,
      )

-- A rule's text in which some `<` begins no known tag; what comes before reads well.
pub data Unreadable : Bytes → Type 0 where
  here :
      {c : ℕ} {rest : Bytes}
      → c ≡ b'<'
      → find_trait param_traits (c ∷ rest) ≡ none
      → Unreadable (c ∷ rest)
  letter : {c : ℕ} {rest : Bytes} → c ≢ b'<' → Unreadable rest → Unreadable (c ∷ rest)
  tag :
      {c : ℕ} {rest after : Bytes} {p : ParamType}
      → c ≡ b'<'
      → find_trait param_traits (c ∷ rest) ≡ some (p, after)
      → Unreadable after
      → Unreadable (c ∷ rest)

add_loop-diverges :
    (fuel : ℕ) (t : Trie) (idx : ℕ) (url : Bytes) → Unreadable url → add_loop fuel t idx url ≡ none
unfolding add_loop
add_loop-diverges zero t idx url u = refl
add_loop-diverges (suc fuel) t idx [] u = elim u [ ]
add_loop-diverges (suc fuel) t idx (c ∷ rest) (here same unknown) =
    let test : (c == b'<') ≡ true = ground arith in
    rw (test, unknown, add_loop) (add_loop-diverges fuel t idx (c ∷ rest) (here same unknown))
add_loop-diverges (suc fuel) t idx (c ∷ rest) (letter other u) =
    let test : (c == b'<') ≡ false = ground arith in
    rw (test, add_loop) (add_loop-diverges fuel _ _ rest u)
add_loop-diverges (suc fuel) t idx (c ∷ rest) (tag {after} same found u) =
    let test : (c == b'<') ≡ true = ground arith in
    rw (test, found, add_loop) (add_loop-diverges fuel _ _ after u)

-- A `<` that begins no known tag keeps the loop of `add` running for ever: it has not ended after
-- any number of rounds.
pub add_fuel-still_running :
    (fuel : ℕ) (t : Trie) (url : Bytes) (r : ℕ)
    → Unreadable url
    → add_fuel fuel t url r ≡ still_running
unfolding add_fuel
add_fuel-still_running fuel t url r u = rw (add_loop-diverges fuel t 0 url u, add_fuel)
