-- ===== src/Tags/Reading.antt =====
-- http/utility.hpp, `getParameterTag` of a rule's text, against the labels that the trie reads in it.
use crow_core.Common.{
  ℕ, suc, ◌+◌, ◌*◌, ◌%◌, ◌^◌, Bytes, length, bytes_eq, strip_prefix, strip_prefix_sound, List, [],
  ◌∷◌, ◌++◌, All, Option, none, some, false, ◌==◌, ◌≡◌, ◌≢◌, inl, inr, refl, sym, ap, ◌∙◌, subst,
  arith, Option-cases, length-append,
}
use crow_core.Trie.{ParamType, int, uint, double, string, path, param_traits, find_trait}
use crow_core.Trie.Edges.{Label, piece, param}
use crow_core.Trie.Adding.{Tokens, ends, letter, tag}
use crow_core.Tags.{code_of_text, tag_loop, get_parameter_tag}
use crow_core.Tags.Compatible.{pack}
use native.Mathlib.Nat.{mul_comm, mul_assoc, pow-suc}

abbrev pub code_of : ParamType → ℕ
code_of int = 1
code_of uint = 2
code_of double = 3
code_of string = 4
code_of path = 5

-- The codes of the parameters of a path, whose last label stands first: the first parameter's first.
abbrev pub codes_of : List Label → List ℕ
codes_of [] = []
codes_of (piece k ∷ labels) = codes_of labels
codes_of (param p ∷ labels) = codes_of labels ++ code_of p ∷ []

-- No label is a `>` that closes no tag.
abbrev pub NoStray : List Label → Type 0
NoStray labels = All (λ l. l ≢ piece (b'>' ∷ [])) labels

NoStray-Tokens :
    {labels read : List Label} {url : Bytes}
    → Tokens labels read url
    → NoStray labels
    → NoStray read
NoStray-Tokens (ends same) h = subst NoStray (sym same) h
NoStray-Tokens (letter other t) h = (NoStray-Tokens t h).1
NoStray-Tokens (tag here found t) h = (NoStray-Tokens t h).1

-- A tag at the front of the text is taken in one go.
abbrev Step : ParamType → Bytes → Type 0
Step p text =
    (after : Bytes) (v k : ℕ)
    → tag_loop (text ++ after) none v k
      ≡ tag_loop after none ((v + 6 ^ k % 2 ^ 64 * code_of p) % 2 ^ 64) (suc k)

param_traits-Step : All (λ t. Step t.0 t.1) param_traits
unfolding tag_loop code_of_text bytes_eq
param_traits-Step = (
  λ after v k. refl,
  (
    λ after v k. refl,
    (
      λ after v k. refl,
      (λ after v k. refl, (λ after v k. refl, (λ after v k. refl, (λ after v k. refl, tt)))),
    ),
  ),
)

find_trait-Step :
    (traits : List (ParamType × Bytes)) (url : Bytes) (p : ParamType) (after : Bytes) (v k : ℕ)
    → All (λ t. Step t.0 t.1) traits
    → find_trait traits url ≡ some (p, after)
    → tag_loop url none v k
      ≡ tag_loop after none ((v + 6 ^ k % 2 ^ 64 * code_of p) % 2 ^ 64) (suc k)
unfolding find_trait
find_trait-Step [] url p after v k s e = absurd (cc e)
find_trait-Step ((q, text) ∷ traits) url p after v k s e =
    elim (Option-cases (strip_prefix text url)) [
      | inl other ↦ find_trait-Step traits url p after v k s.1 (rw (other, find_trait) at e)
      | inr (rest, fits) ↦
          let (same, same_after) = pair_inj (rw (fits, find_trait) at e) in
          rw (strip_prefix_sound text url rest fits, ← same, ← same_after) (s.0 rest v k)
    ]
  where
    pair_inj :
        {a b : ParamType} {s t : Bytes}
        → ◌≡◌ {A = Option (ParamType × Bytes)} (some (a, s)) (some (b, t))
        → (a ≡ b) × (s ≡ t)
    pair_inj e' = (cc, cc)

pack-push : (cs : List ℕ) (c : ℕ) → pack (cs ++ c ∷ []) ≡ pack cs + 6 ^ length cs * c
pack-push [] c = omega arith
pack-push (d ∷ cs) c =
    let next : 6 ^ suc (length cs) * c ≡ 6 ^ length cs * c * 6 = rw pow-suc (
      mul_assoc (6 ^ length cs) 6 c
      ∙ (ap (λ z. 6 ^ length cs * z) (mul_comm 6 c) ∙ sym (mul_assoc (6 ^ length cs) c 6))) in
    omega (arith, pack-push cs c, next)

mod_step :
    (v x : ℕ) (p : ParamType)
    → (v % 2 ^ 64 + x % 2 ^ 64 * code_of p) % 2 ^ 64 ≡ (v + x * code_of p) % 2 ^ 64
mod_step v x int = omega arith
mod_step v x uint = omega arith
mod_step v x double = omega arith
mod_step v x string = omega arith
mod_step v x path = omega arith

tag_loop-Tokens :
    (labels read : List Label) (url : Bytes) (v k : ℕ)
    → Tokens labels read url
    → NoStray labels
    → v ≡ pack (codes_of read) % 2 ^ 64
    → k ≡ length (codes_of read)
    → tag_loop url none v k ≡ pack (codes_of labels) % 2 ^ 64
unfolding tag_loop
tag_loop-Tokens labels read [] v k (ends same) h value index =
    value ∙ ap (λ r. pack (codes_of r) % 2 ^ 64) same
tag_loop-Tokens labels read (c ∷ url) v k (letter other t) h value index =
    let open_no : (c == b'<') ≡ false = ground arith in
    let stray : c ≢ b'>' = λ z. (NoStray-Tokens t h).0 (ap (λ d. piece (d ∷ [])) z) in
    let close_no : (c == b'>') ≡ false = ground arith in
    rw (open_no, close_no) (tag_loop-Tokens labels (piece (c ∷ []) ∷ read) url v k t h value index)
tag_loop-Tokens labels read (c ∷ url) v k (tag {after} {p} here found t) h value index =
    find_trait-Step param_traits (c ∷ url) p after v k param_traits-Step found
    ∙ tag_loop-Tokens labels (param p ∷ read) after _ (suc k) t h
        (rw (value, index)
          (mod_step (pack (codes_of read)) (6 ^ length (codes_of read)) p
            ∙ ap (λ z. z % 2 ^ 64) (sym (pack-push (codes_of read) (code_of p)))))
        (omega (arith, index, length-append (codes_of read) (code_of p ∷ [])))

-- The tag of a rule's text is, in 64 bits, the list of the parameters that the trie reads in it, where
-- no `>` stands outside a tag.
pub get_parameter_tag-Tokens :
    (labels : List Label) (url : Bytes)
    → Tokens labels [] url
    → NoStray labels
    → get_parameter_tag url ≡ pack (codes_of labels) % 2 ^ 64
unfolding get_parameter_tag
get_parameter_tag-Tokens labels url t h = tag_loop-Tokens labels [] url 0 0 t h refl refl
