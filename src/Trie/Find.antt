-- ===== src/Trie/Find.antt =====
-- http/routing.hpp, class `Trie`: `find`; common.hpp: `RoutingParams`. A view of the URL and a
-- position in it are the text from that position on. `double` and `strtod` are parameters.
use crow_core.Common.{
  ℕ, zero, suc, Bytes, length, strip_prefix, List, [], ◌∷◌, ◌++◌, Option, none, some, not, ◌&&◌,
  ◌||◌, ◌==◌, ltb, if◌then◌else◌, ℤ, is_digit, strtoll, strtoull,
}
use crow_core.Trie.{ParamType, int, uint, double, string, path, Node, Trie, ChildMap, node_at}

pub record RoutingParams (Double : Type 0) : Type 0 where
  pub int_params : List ℤ
  pub uint_params : List ℕ
  pub double_params : List Double
  pub string_params : List Bytes

abbrev pub no_params : {Double : Type 0} → RoutingParams Double
no_params = record { int_params = []; uint_params = []; double_params = []; string_params = [] }

-- The characters before the first `/`, and the rest.
unfoldable pub segment : Bytes → Bytes × Bytes
segment [] = ([], [])
segment (c ∷ s) = if c == b'/' then ([], c ∷ s) else (c ∷ (segment s).0, (segment s).1)

-- `strtod` stands for the C library's: the value and the rest, or `none` where `errno` is `ERANGE` or
-- nothing was read.
module _ {Double : Type 0} (strtod : Bytes → Option (Double × Bytes)) where
  abbrev pub Params : Type 0
  Params = RoutingParams Double

  -- What each kind of parameter takes off the front of the text, with the parameters extended.
  unfoldable pub match_int : Bytes → Params → Option (Bytes × Params)
  match_int [] ps = none
  match_int (c ∷ s) ps =
      if is_digit c || c == b'+' || c == b'-'
      then elim (strtoll (c ∷ s)) [
        | none ↦ none
        | some (value, rest) ↦ some (rest, record ps { int_params = ps.int_params ++ value ∷ [] })
      ]
      else none

  unfoldable pub match_uint : Bytes → Params → Option (Bytes × Params)
  match_uint [] ps = none
  match_uint (c ∷ s) ps =
      if is_digit c || c == b'+'
      then elim (strtoull (c ∷ s)) [
        | none ↦ none
        | some (value, rest) ↦ some (rest, record ps { uint_params = ps.uint_params ++ value ∷ [] })
      ]
      else none

  unfoldable pub match_double : Bytes → Params → Option (Bytes × Params)
  match_double [] ps = none
  match_double (c ∷ s) ps =
      if is_digit c || c == b'+' || c == b'-' || c == b'.'
      then elim (strtod (c ∷ s)) [
        | none ↦ none
        | some (value, rest) ↦
            some (rest, record ps { double_params = ps.double_params ++ value ∷ [] })
      ]
      else none

  unfoldable pub match_string : Bytes → Params → Option (Bytes × Params)
  match_string s ps = elim (segment s).0 [
    | [] ↦ none
    | c ∷ text ↦
        some ((segment s).1, record ps { string_params = ps.string_params ++ (c ∷ text) ∷ [] })
  ]

  unfoldable pub match_path : Bytes → Params → Option (Bytes × Params)
  match_path [] ps = none
  match_path (c ∷ s) ps = some ([], record ps { string_params = ps.string_params ++ (c ∷ s) ∷ [] })

  unfoldable pub match_piece : Bytes → Bytes → Params → Option (Bytes × Params)
  match_piece fragment s ps = elim (strip_prefix fragment s) [
    | none ↦ none
    | some rest ↦ some (rest, ps)
  ]

  -- `found` and `matchParams`.
  abbrev pub Found : Type 0
  Found = ℕ × Params

  unfoldable pub update_found : Found → Found → Found
  update_found found ret =
      if not (ret.0 == 0) && (found.0 == 0 || ltb ret.0 found.0) then ret else found

  -- A recursive call of `find` at a child, if the text could be read.
  unfoldable pub attempt :
      ℕ → Option (Bytes × Params) → (ℕ → Bytes → Params → Found) → Found → Found
  attempt child none next found = found
  attempt child (some (rest, ps)) next found = update_found found (next child rest ps)

  unfoldable pub try_param :
      Node → ParamType → Option (Bytes × Params) → (ℕ → Bytes → Params → Found) → Found → Found
  try_param node p m next found =
      if node.param_childrens p == 0 then found else attempt (node.param_childrens p) m next found

  unfoldable pub try_children :
      ChildMap → Bytes → Params → (ℕ → Bytes → Params → Found) → Found → Found
  try_children [] s ps next found = found
  try_children ((fragment, child) ∷ children) s ps next found =
      try_children children s ps next (attempt child (match_piece fragment s ps) next found)

  -- The body of `find` where some text is left.
  unfoldable pub search_node : Node → Bytes → Params → (ℕ → Bytes → Params → Found) → Found
  search_node node s ps next =
      let r0 = try_param node int (match_int s ps) next (0, no_params) in
      let r1 = try_param node uint (match_uint s ps) next r0 in
      let r2 = try_param node double (match_double s ps) next r1 in
      let r3 = try_param node string (match_string s ps) next r2 in
      let r4 = try_param node path (match_path s ps) next r3 in
      try_children node.children s ps next r4

  -- `find` at a node, on fuel.
  unfoldable pub find_from : ℕ → Trie → ℕ → Bytes → Params → Found
  find_from zero t n s ps = (0, no_params)
  find_from (suc fuel) t n [] ps = ((node_at t n).rule_index, ps)
  find_from (suc fuel) t n (c ∷ s) ps = search_node (node_at t n) (c ∷ s) ps (find_from fuel t)

  -- A call for each node is enough, since a child has a larger number than its parent.
  unfoldable pub find : Trie → Bytes → Found
  find t url = find_from (length t.nodes) t 0 url no_params
