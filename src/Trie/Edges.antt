-- ===== src/Trie/Edges.antt =====
-- http/routing.hpp, class `Trie`: the nodes as a graph whose edges are labelled by the pieces and
-- parameters of a rule.
use crow_core.Common.{
  ℕ, zero, suc, ◌<◌, Bytes, length, bytes_eq, bytes_eq_iff, bytes_less, [], ◌∷◌, All, Option, none,
  some, Bool, true, false, ◌&&◌, ◌==◌, if◌then◌else◌, ◌≡◌, ◌⊎◌, inl, inr, ◌↔◌, refl, ◌∙◌, arith,
  Option-cases, Bool-cases, length-append, length-set, get_or-set, get_or-push,
}
use crow_core.Trie.{
  ParamType, same_type, Node, new_node, Trie, ChildMap, node_at, child_of, emplace, push_node,
  set_node, param_child, piece_child,
}

pub data Label : Type 0 where
  piece : Bytes → Label
  param : ParamType → Label

abbrev pub same_label : Label → Label → Bool
same_label (piece k) (piece j) = bytes_eq k j
same_label (param p) (param q) = same_type p q
same_label _ _ = false

same_type_iff : (p q : ParamType) → (same_type p q ≡ true) ↔ (p ≡ q)
same_type_iff p q = ground arith

pub same_label_iff : (l m : Label) → (same_label l m ≡ true) ↔ (l ≡ m)
same_label_iff (piece k) (piece j) = ground (arith, bytes_eq_iff k j)
same_label_iff (piece k) (param q) = ground arith
same_label_iff (param p) (piece j) = ground arith
same_label_iff (param p) (param q) = ground (arith, same_type_iff p q)

abbrev pub size : Trie → ℕ
size t = length t.nodes

abbrev pub rule_at : Trie → ℕ → ℕ
rule_at t n = (node_at t n).rule_index

abbrev pub nonzero : ℕ → Option ℕ
nonzero zero = none
nonzero (suc m) = some (suc m)

-- The child of a node for a label.
unfoldable pub edge_of : Node → Label → Option ℕ
edge_of n (piece k) = child_of k n.children
edge_of n (param p) = nonzero (n.param_childrens p)

abbrev pub edge : Trie → ℕ → Label → Option ℕ
edge t n l = edge_of (node_at t n) l

-- Every entry of a child map is the one that a search for its key finds.
abbrev pub Owns : ChildMap → ChildMap → Type 0
Owns whole m = All (λ e. child_of e.0 whole ≡ some e.1) m

pub node_at-push_node : (t : Trie) (j : ℕ) → node_at (push_node t) j ≡ node_at t j
unfolding node_at push_node
node_at-push_node t j = get_or-push t.nodes j new_node

pub node_at-set_node :
    (t : Trie) (i j : ℕ) (n : Node)
    → i < size t
    → node_at (set_node t i n) j ≡ (if i == j then n else node_at t j)
unfolding node_at set_node
node_at-set_node t i j n h = get_or-set t.nodes i j n new_node h

pub size-set_node : (t : Trie) (i : ℕ) (n : Node) → size (set_node t i n) ≡ size t
unfolding set_node
size-set_node t i n = length-set t.nodes i n

pub size-push_node : (t : Trie) → size (push_node t) ≡ suc (size t)
unfolding push_node
size-push_node t = omega (arith, length-append t.nodes (new_node ∷ []))

pub child_of-emplace :
    (k j : Bytes) (v : ℕ) (m : ChildMap)
    → child_of k m ≡ none
    → child_of j (emplace k v m) ≡ (if bytes_eq k j then some v else child_of j m)
unfolding child_of emplace
child_of-emplace k j v [] e = refl
child_of-emplace k j v ((i, w) ∷ m) e =
    ground (arith, bytes_eq_iff k j, bytes_eq_iff i k, bytes_eq_iff i j, child_of-emplace k j v m)

pub child_of-emplace_self :
    (k : Bytes) (v : ℕ) (m : ChildMap) → child_of k m ≡ none → child_of k (emplace k v m) ≡ some v
child_of-emplace_self k v m e = ground (arith, child_of-emplace k k v m, bytes_eq_iff k k)

Owns-weaken :
    (k : Bytes) (v : ℕ) (whole m : ChildMap)
    → child_of k whole ≡ none
    → Owns whole m
    → Owns (emplace k v whole) m
Owns-weaken k v whole [] e h = tt
Owns-weaken k v whole ((j, w) ∷ m) e h = (
  ground (arith, child_of-emplace k j v whole e, bytes_eq_iff k j),
  Owns-weaken k v whole m e h.1,
)

Owns-emplace :
    (k : Bytes) (v : ℕ) (whole m : ChildMap)
    → child_of k whole ≡ none
    → Owns whole m
    → Owns (emplace k v whole) (emplace k v m)
unfolding emplace
Owns-emplace k v whole [] e h = (child_of-emplace_self k v whole e, tt)
Owns-emplace k v whole ((j, w) ∷ m) e h =
    let self = child_of-emplace_self k v whole e in
    let old = Owns-weaken k v whole ((j, w) ∷ m) e h in
    let later = Owns-emplace k v whole m e h.1 in
    elim (Bool-cases (bytes_less k j)) [
      | inl less ↦ rw less (self, old)
      | inr more ↦ rw more (elim (Bool-cases (bytes_eq j k)) [
        | inl same ↦ rw same old
        | inr other ↦ rw other (old.0, later)
      ])
    ]

-- What the making of one child does: one node more, no rule changed, and the one edge added.
pub record AddsEdge (t t' : Trie) (idx : ℕ) (l : Label) : Type 0 where
  pub grown : size t' ≡ suc (size t)
  pub rules : (n : ℕ) → rule_at t' n ≡ rule_at t n
  pub edges :
      (n : ℕ) (m : Label)
      → edge t' n m ≡ (if idx == n && same_label l m then some (size t) else edge t n m)
  pub owns : (n : ℕ) → Owns (node_at t' n).children (node_at t' n).children

abbrev pub AllOwn : Trie → Type 0
AllOwn t = (n : ℕ) → Owns (node_at t n).children (node_at t n).children

-- The node for a label, made where there is none.
unfoldable pub child : Trie → ℕ → Label → Trie × ℕ
child t idx (piece k) = piece_child t idx k
child t idx (param p) = param_child t idx p

pub written_node :
    (t : Trie) (idx i : ℕ) (n : Node)
    → idx < size t
    → node_at (set_node (push_node t) idx n) i ≡ (if idx == i then n else node_at t i)
written_node t idx i n h =
    node_at-set_node (push_node t) idx i n (omega (arith, size-push_node t))
    ∙ rw (node_at-push_node t i)

push-AddsEdge :
    (t : Trie) (idx : ℕ) (l : Label) (n : Node)
    → idx < size t
    → AllOwn t
    → n.rule_index ≡ rule_at t idx
    → ((m : Label) → edge_of n m ≡ (if same_label l m then some (size t) else edge t idx m))
    → Owns n.children n.children
    → AddsEdge t (set_node (push_node t) idx n) idx l
push-AddsEdge t idx l n h own rule edges owns = record {
  grown = size-set_node (push_node t) idx n ∙ size-push_node t;
  rules = λ i. rw (written_node t idx i n h, rule_at) (ground (arith, rule));
  edges = λ i m. rw (written_node t idx i n h) (elim (Bool-cases (idx == i)) [
    | inl here ↦ let e : idx ≡ i = ground arith in rw here (edges m ∙ rw e)
    | inr other ↦ rw other refl
  ]);
  owns = λ i.
      rw (written_node t idx i n h)
        (elim (Bool-cases (idx == i)) [ inl here ↦ rw here owns | inr other ↦ rw other (own i) ]);
}

-- What making or finding a child comes to.
abbrev pub ChildOf : Trie → ℕ → Label → Trie × ℕ → Type 0
ChildOf t idx l r =
    ((edge t idx l ≡ some r.1) × (r.0 ≡ t))
    ⊎ ((edge t idx l ≡ none) × (r.1 ≡ size t) × AddsEdge t r.0 idx l)

edge_of-emplace :
    (n : Node) (k : Bytes) (v : ℕ) (m : Label)
    → child_of k n.children ≡ none
    → edge_of (record n { children = emplace k v n.children }) m
      ≡ (if same_label (piece k) m then some v else edge_of n m)
unfolding edge_of
edge_of-emplace n k v (piece j) e = child_of-emplace k j v n.children e
edge_of-emplace n k v (param q) e = refl

same_type_comm : (p q : ParamType) → same_type p q ≡ same_type q p
same_type_comm p q = ground arith

nonzero_pos : (v : ℕ) → 0 < v → nonzero v ≡ some v
nonzero_pos v h = ground arith

edge_of-put :
    (n : Node) (p : ParamType) (v : ℕ) (m : Label)
    → 0 < v
    → edge_of
        (record n { param_childrens = λ q. if same_type q p then v else n.param_childrens q })
        m
      ≡ (if same_label (param p) m then some v else edge_of n m)
unfolding edge_of
edge_of-put n p v (piece j) h = refl
edge_of-put n p v (param q) h = elim (Bool-cases (same_type q p)) [
  | inl same ↦ rw (same_type_comm p q, same) (nonzero_pos v h)
  | inr other ↦ rw (same_type_comm p q, other) refl
]

new_piece :
    (t : Trie) (idx : ℕ) (k : Bytes) (n : Node)
    → idx < size t
    → AllOwn t
    → child_of k (node_at t idx).children ≡ none
    → n ≡ node_at t idx
    → AddsEdge t
        (set_node (push_node t) idx (record n { children = emplace k (size t) n.children }))
        idx
        (piece k)
new_piece t idx k n h own missing same =
    let absent : child_of k n.children ≡ none = rw same missing in
    push-AddsEdge t idx (piece k) (record n { children = emplace k (size t) n.children }) h own
      (rw (same, rule_at)) (λ m. edge_of-emplace n k (size t) m absent ∙ rw same)
      (Owns-emplace k (size t) n.children n.children absent (rw same (own idx)))

new_param :
    (t : Trie) (idx : ℕ) (p : ParamType) (n : Node)
    → idx < size t
    → AllOwn t
    → n ≡ node_at t idx
    → AddsEdge t
        (set_node (push_node t) idx (record n {
          param_childrens = λ q. if same_type q p then size t else n.param_childrens q;
        }))
        idx
        (param p)
new_param t idx p n h own same =
    push-AddsEdge t idx (param p)
      (record n { param_childrens = λ q. if same_type q p then size t else n.param_childrens q }) h
      own (rw (same, rule_at)) (λ m. edge_of-put n p (size t) m (omega arith) ∙ rw same)
      (rw same (own idx))

pub child-ChildOf :
    (t : Trie) (idx : ℕ) (l : Label) → idx < size t → AllOwn t → ChildOf t idx l (child t idx l)
unfolding child piece_child param_child edge_of
child-ChildOf t idx (piece k) h own = elim (Option-cases (child_of k (node_at t idx).children)) [
  | inl missing ↦
      rw (missing, piece_child)
        (inr (
          refl,
          refl,
          new_piece t idx k (node_at (push_node t) idx) h own missing (node_at-push_node t idx),
        ))
  | inr (m, found) ↦ rw (found, piece_child) (inl (refl, refl))
]
child-ChildOf t idx (param p) h own = elim (Bool-cases ((node_at t idx).param_childrens p == 0)) [
  | inl missing ↦
      rw (missing, param_child)
        (inr (
          ground arith,
          refl,
          new_param t idx p (node_at (push_node t) idx) h own (node_at-push_node t idx),
        ))
  | inr found ↦ rw (found, param_child) (inl (nonzero_pos _ (ground arith), refl))
]
