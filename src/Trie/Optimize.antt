-- ===== src/Trie/Optimize.antt =====
-- http/routing.hpp, class `Trie`: `isSimpleNode`, `optimizeNode`, `optimize` and `validate`.
pub mod ChildMaps
pub mod Merging
pub mod Steps
pub mod Answers
pub mod Keeps
pub mod Total
pub mod Built
use crow_core.Common.{
  ℕ, zero, suc, Bytes, length, bytes_eq, bytes_less, List, [], ◌∷◌, ◌++◌, Option, none, some, Bool,
  true, false, ◌&&◌, ◌==◌, if◌then◌else◌,
}
use crow_core.Trie.{
  ParamType, int, uint, double, string, path, Node, Trie, ChildMap, node_at, set_node,
}

abbrev pub param_types : List ParamType
param_types = int ∷ uint ∷ double ∷ string ∷ path ∷ []

unfoldable pub all_zero : Node → List ParamType → Bool
all_zero node [] = true
all_zero node (p ∷ ps) = node.param_childrens p == 0 && all_zero node ps

unfoldable pub is_simple_node : Node → Bool
is_simple_node node = node.rule_index == 0 && all_zero node param_types

-- `merged[k] = v`, in the order of the keys.
unfoldable pub assign : Bytes → ℕ → ChildMap → ChildMap
assign k v [] = (k, v) ∷ []
assign k v ((j, w) ∷ m) =
    if bytes_less k j
    then (k, v) ∷ (j, w) ∷ m
    else if bytes_eq j k
    then (k, v) ∷ m
    else (j, w) ∷ assign k v m

-- The inner and the outer loop of the merge.
unfoldable pub merge_child : Bytes → ChildMap → ChildMap → ChildMap
merge_child k [] merged = merged
merge_child k ((j, v) ∷ children) merged = merge_child k children (assign (k ++ j) v merged)

unfoldable pub merge_children : Trie → ChildMap → ChildMap → ChildMap
merge_children t [] merged = merged
merge_children t ((k, c) ∷ children) merged =
    merge_children t children (merge_child k (node_at t c).children merged)

unfoldable pub merge_with_child : Trie → ChildMap → Bool
merge_with_child t [] = true
merge_with_child t ((k, c) ∷ children) = is_simple_node (node_at t c) && merge_with_child t children

unfoldable pub merge_node : Trie → ℕ → Trie
merge_node t n =
    set_node t n (record (node_at t n) { children = merge_children t (node_at t n).children [] })

-- The loops that optimize the children, one after another; `visit` is `optimizeNode`, and `none`
-- means that it has run out of fuel.
unfoldable pub optimize_params : (Trie → ℕ → Option Trie) → Trie → ℕ → List ParamType → Option Trie
optimize_params visit t n [] = some t
optimize_params visit t n (p ∷ ps) =
    elim (if (node_at t n).param_childrens p == 0
      then some t
      else visit t ((node_at t n).param_childrens p)) [
        | none ↦ none
        | some t' ↦ optimize_params visit t' n ps
      ]

unfoldable pub optimize_children : (Trie → ℕ → Option Trie) → Trie → ChildMap → Option Trie
optimize_children visit t [] = some t
optimize_children visit t ((k, c) ∷ children) = elim (visit t c) [
  | none ↦ none
  | some t' ↦ optimize_children visit t' children
]

-- What follows the loop over the parameters; `again` is the call of `optimizeNode` at the same node,
-- `visit` that at a child.
unfoldable pub optimize_rest :
    (Trie → ℕ → Option Trie) → (Trie → ℕ → Option Trie) → Trie → ℕ → ChildMap → Option Trie
optimize_rest again visit t n [] = some t
optimize_rest again visit t n (kv ∷ children) = elim (merge_with_child t (kv ∷ children)) [
  | true ↦ again (merge_node t n) n
  | false ↦ optimize_children visit t (kv ∷ children)
]

-- `optimizeNode` on two kinds of fuel: `depth` for calls at children, and `merges` for calls at the
-- same node; each child starts with `size` merges.
unfoldable pub optimize_node : ℕ → ℕ → ℕ → Trie → ℕ → Option Trie
optimize_node size zero merges t n = none
optimize_node size (suc depth) zero t n = none
optimize_node size (suc depth) (suc merges) t n =
    elim (optimize_params (optimize_node size depth size) t n param_types) [
      | none ↦ none
      | some t' ↦
          optimize_rest (optimize_node size (suc depth) merges) (optimize_node size depth size) t' n
            (node_at t' n).children
    ]

-- `optimize`, which `validate` calls.
unfoldable pub optimize : Trie → Option Trie
optimize t = optimize_node (suc (length t.nodes)) (length t.nodes) (suc (length t.nodes)) t 0
