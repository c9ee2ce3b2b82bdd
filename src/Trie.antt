-- ===== src/Trie.antt =====
-- http/routing.hpp: class `Trie`, its nodes and `add`; `ParamType` is of common.hpp.
pub mod Find
pub mod Edges
pub mod Invariant
pub mod Adding
pub mod Insertion
pub mod Leads
pub mod Search
pub mod Routes
pub mod Optimize
mod Tests
use crow_core.Common.{
  ℕ, zero, suc, ◌+◌, Bytes, codes, length, get_or, set, strip_prefix, bytes_eq, bytes_less, List,
  [], ◌∷◌, ◌++◌, Option, none, some, Bool, true, false, ◌&&◌, ◌==◌, if◌then◌else◌,
}

pub data ParamType : Type 0 where
  int uint double string path : ParamType

abbrev pub same_type : ParamType → ParamType → Bool
same_type int int = true
same_type uint uint = true
same_type double double = true
same_type string string = true
same_type path path = true
same_type _ _ = false

-- `ChildMap`, a sorted flat map from fragments to node numbers.
abbrev pub ChildMap : Type 0
ChildMap = List (Bytes × ℕ)

-- `paramChildrens` is read at a `ParamType`; 0 stands for no child.
pub record Node : Type 0 where
  pub rule_index : ℕ
  pub param_childrens : ParamType → ℕ
  pub children : ChildMap

abbrev pub new_node : Node
new_node = record { rule_index = 0; param_childrens = λ p. 0; children = [] }

pub record Trie : Type 0 where
  pub nodes : List Node

-- `Trie()` has the root node alone.
abbrev pub empty_trie : Trie
empty_trie = record { nodes = new_node ∷ [] }

-- `nodes[i]`.
unfoldable pub node_at : Trie → ℕ → Node
node_at t i = get_or t.nodes i new_node

unfoldable pub child_of : Bytes → ChildMap → Option ℕ
child_of k [] = none
child_of k ((j, v) ∷ m) = if bytes_eq j k then some v else child_of k m

-- `emplace` keeps the keys in order.
unfoldable pub emplace : Bytes → ℕ → ChildMap → ChildMap
emplace k v [] = (k, v) ∷ []
emplace k v ((j, w) ∷ m) =
    if bytes_less k j
    then (k, v) ∷ (j, w) ∷ m
    else if bytes_eq j k
    then (j, w) ∷ m
    else (j, w) ∷ emplace k v m

-- A new node at the end, and a write to a node.
unfoldable pub push_node : Trie → Trie
push_node t = record { nodes = t.nodes ++ new_node ∷ [] }

unfoldable pub set_node : Trie → ℕ → Node → Trie
set_node t i n = record { nodes = set t.nodes i n }

unfoldable pub param_child : Trie → ℕ → ParamType → Trie × ℕ
param_child t idx p =
    if (node_at t idx).param_childrens p == 0
    then (let n = node_at (push_node t) idx in
        (
          set_node (push_node t) idx (record n {
            param_childrens = λ q. if same_type q p then length t.nodes else n.param_childrens q;
          }),
          length t.nodes,
        ))
    else (t, (node_at t idx).param_childrens p)

unfoldable pub piece_child : Trie → ℕ → Bytes → Trie × ℕ
piece_child t idx piece = elim (child_of piece (node_at t idx).children) [
  | none ↦
      let n = node_at (push_node t) idx in
      (
        set_node (push_node t) idx
            (record n { children = emplace piece (length t.nodes) n.children }),
        length t.nodes,
      )
  | some child ↦ (t, child)
]

abbrev pub param_traits : List (ParamType × Bytes)
param_traits =
    (int, codes "<int>")
    ∷ (uint, codes "<uint>")
    ∷ (double, codes "<float>")
    ∷ (double, codes "<double>")
    ∷ (string, codes "<str>")
    ∷ (string, codes "<string>")
    ∷ (path, codes "<path>")
    ∷ []

-- The first of the traits that stands at the front of the text, and what follows it.
unfoldable pub find_trait : List (ParamType × Bytes) → Bytes → Option (ParamType × Bytes)
find_trait [] url = none
find_trait ((p, tag) ∷ traits) url = elim (strip_prefix tag url) [
  | some rest ↦ some (p, rest)
  | none ↦ find_trait traits url
]

-- The loop of `add` over the characters left, on fuel; `none` means that it is still running. Where
-- no trait fits at a `<`, the round ends in `i--`, and the next one is at the same character.
unfoldable pub add_loop : ℕ → Trie → ℕ → Bytes → Option (Trie × ℕ)
add_loop zero t idx url = none
add_loop (suc fuel) t idx [] = some (t, idx)
add_loop (suc fuel) t idx (c ∷ rest) = elim (c == b'<') [
  | true ↦ elim (find_trait param_traits (c ∷ rest)) [
    | some (p, after) ↦ add_loop fuel (param_child t idx p).0 (param_child t idx p).1 after
    | none ↦ add_loop fuel t idx (c ∷ rest)
  ]
  | false ↦ add_loop fuel (piece_child t idx (c ∷ [])).0 (piece_child t idx (c ∷ [])).1 rest
]

-- The outcomes of `add`: done, the exception "handler already exists" (the nodes made so far stay),
-- and a loop that has not ended within the fuel.
pub data AddResult : Type 0 where
  added : Trie → AddResult
  already_exists : Trie → AddResult
  still_running : AddResult

unfoldable pub set_rule : Trie → ℕ → ℕ → AddResult
set_rule t idx rule_index =
    if (node_at t idx).rule_index == 0
    then added (set_node t idx (record (node_at t idx) { rule_index = rule_index }))
    else already_exists t

unfoldable pub add_fuel : ℕ → Trie → Bytes → ℕ → AddResult
add_fuel fuel t url rule_index = elim (add_loop fuel t 0 url) [
  | none ↦ still_running
  | some (t', idx) ↦ set_rule t' idx rule_index
]

-- One round for each character, and one to leave the loop, are enough.
unfoldable pub add : Trie → Bytes → ℕ → AddResult
add t url rule_index = add_fuel (suc (length url)) t url rule_index
