-- ===== src/Tags/Tests.antt =====
-- The tags of http/utility.hpp on concrete rules and handlers.
use crow_core.Common.{
  codes, bytes_eq, strip_prefix, List, [], ◌∷◌, some, true, false, ◌≡◌, ◌%◌, ◌^◌, refl, arith, ℕ,
  ap, ◌≢◌,
}
use crow_core.Trie.{int, path, find_trait}
use crow_core.Trie.Edges.{Label, piece, param}
use crow_core.Trie.Adding.{Tokens}
use crow_core.Tags.{
  ArgType, to_underlying, type_tag, compute_parameter_tag, compatible_loop,
  is_parameter_tag_compatible, code_of_text, tag_loop, get_parameter_tag,
}
use crow_core.Tags.Compatible.{pack, same_codes, is_parameter_tag_compatible-pack}
use crow_core.Tags.Reading.{codes_of, NoStray, get_parameter_tag-Tokens}
use crow_core.Tags.Handlers.{arg_codes, compatible-Tokens}

tag_tests :
    (get_parameter_tag (codes "/a/<int>/<path>") ≡ 31)
    × (get_parameter_tag (codes "/a/<nt>") ≡ 0)
    × (get_parameter_tag (codes "/a>") ≡ 0)
    × (get_parameter_tag (codes "/<a<int>") ≡ 0)
    × (compute_parameter_tag (ArgType.long ∷ ArgType.other ∷ ArgType.std_string ∷ []) ≡ some 25)
    × (is_parameter_tag_compatible 31 25 ≡ some true)
    × (is_parameter_tag_compatible 31 1 ≡ some false)
unfolding get_parameter_tag tag_loop code_of_text bytes_eq compute_parameter_tag to_underlying
    type_tag is_parameter_tag_compatible compatible_loop
tag_tests = (refl, refl, refl, refl, refl, refl, refl)

is_parameter_tag_compatible-pack_example :
    is_parameter_tag_compatible (pack (1 ∷ 5 ∷ [])) (pack (1 ∷ 4 ∷ []))
    ≡ some (same_codes (1 ∷ 5 ∷ []) (1 ∷ 4 ∷ []))
is_parameter_tag_compatible-pack_example =
    is_parameter_tag_compatible-pack (1 ∷ 5 ∷ []) (1 ∷ 4 ∷ [])
      ((omega arith, omega arith), ((omega arith, omega arith), tt))
      ((omega arith, omega arith), ((omega arith, omega arith), tt))

-- The first character of a fragment.
abbrev first : Label → ℕ
first (piece (c ∷ k)) = c
first _ = 0

-- The labels of `/<int>/<path>`, the last one first.
abbrev labels : List Label
labels = param path ∷ piece (codes "/") ∷ param int ∷ piece (codes "/") ∷ []

labels-Tokens : Tokens labels [] (codes "/<int>/<path>")
unfolding find_trait strip_prefix
labels-Tokens =
    Tokens.letter (omega arith)
      (Tokens.tag refl refl (Tokens.letter (omega arith) (Tokens.tag refl refl (Tokens.ends refl))))

slash-stray : piece (codes "/") ≢ piece (b'>' ∷ [])
slash-stray e = absurd (omega (arith, ap first e))

labels-NoStray : NoStray labels
labels-NoStray = (λ e. cc e, (slash-stray, (λ e. cc e, (slash-stray, tt))))

get_parameter_tag-Tokens_example :
    get_parameter_tag (codes "/<int>/<path>") ≡ pack (codes_of labels) % 2 ^ 64
get_parameter_tag-Tokens_example =
    get_parameter_tag-Tokens labels (codes "/<int>/<path>") labels-Tokens labels-NoStray

compatible-Tokens_example :
    is_parameter_tag_compatible (get_parameter_tag (codes "/<int>/<path>")) 25
    ≡ some (same_codes (codes_of labels) (arg_codes (ArgType.long ∷ ArgType.std_string ∷ [])))
unfolding compute_parameter_tag to_underlying type_tag
compatible-Tokens_example =
    compatible-Tokens labels (codes "/<int>/<path>") (ArgType.long ∷ ArgType.std_string ∷ []) 25
      labels-Tokens labels-NoStray (omega arith) (omega arith) refl
