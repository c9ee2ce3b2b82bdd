-- ===== src/ContentTypes/Choice.antt =====
-- http/http_utility.hpp: `getPreferedContentType` on any header, and on the first type of one.
use crow_core.Common.{
  ℕ, zero, suc, ◌+◌, ◌<◌, Bytes, codes, length, bytes_eq, bytes_eq_iff, List, [], ◌∷◌, ◌++◌, All,
  Option, some, true, false, ◌==◌, ltb, ◌≡◌, ◌≢◌, inl, inr, refl, sym, ap, ◌∙◌, arith, Bool-cases,
  Option-cases, append-nil,
}
use crow_core.ContentTypes.{
  ContentType, any, no_match, content_types, find_comma, drop, take, without_weight, known_type,
  is_prefered, choose, content_loop, get_prefered_content_type,
}

choose-ends :
    (encoding : Bytes) (order : List ContentType) (rest : Option ContentType)
    → (t : ContentType) × (rest ≡ some t)
    → (t : ContentType) × (choose encoding order rest ≡ some t)
unfolding choose
choose-ends encoding order rest h = elim (Bool-cases (bytes_eq encoding (codes "*/*"))) [
  | inl wildcard ↦ (any, rw wildcard)
  | inr other ↦ elim (Option-cases (known_type content_types encoding)) [
    | inl unknown ↦ (h.0, rw (other, unknown) h.1)
    | inr (t, known) ↦ elim (Bool-cases (is_prefered t order)) [
      | inl wanted ↦ (t, rw (other, known, wanted))
      | inr unwanted ↦ (h.0, rw (other, known, unwanted) h.1)
    ]
  ]
]

past_end :
    (fuel last_index : ℕ) (header : Bytes) (order : List ContentType)
    → length header < last_index
    → content_loop (suc fuel) header last_index order ≡ some no_match
unfolding content_loop
past_end fuel last_index header order h =
    let over : ltb last_index (length header + 1) ≡ false = ground arith in rw over

content_loop-ends :
    (fuel : ℕ) (header : Bytes) (last_index : ℕ) (order : List ContentType)
    → length header + 1 < fuel
    → (t : ContentType) × (content_loop fuel header last_index order ≡ some t)
unfolding content_loop drop find_comma
content_loop-ends zero header last_index order f = absurd (omega arith)
content_loop-ends (suc zero) header last_index order f = absurd (omega arith)
content_loop-ends (suc (suc fuel)) [] last_index order f =
    elim (Bool-cases (ltb last_index (length {A = ℕ} [] + 1))) [
      | inl inside ↦
          rw inside (choose-ends _ order _ (no_match, past_end fuel (0 + 1) [] order (omega arith)))
      | inr over ↦ (no_match, rw over)
    ]
content_loop-ends (suc (suc fuel)) (c ∷ header) last_index order f =
    elim (Bool-cases (ltb last_index (length (c ∷ header) + 1))) [
      | inl inside ↦
          rw inside
            (choose-ends _ order _ (content_loop-ends (suc fuel) header _ order (omega arith)))
      | inr over ↦ (no_match, rw over)
    ]

-- `getPreferedContentType` ends for all headers.
pub get_prefered_content_type-ends :
    (header : Bytes) (order : List ContentType)
    → (t : ContentType) × (get_prefered_content_type header order ≡ some t)
unfolding get_prefered_content_type
get_prefered_content_type-ends header order =
    content_loop-ends (suc (suc (length header))) header 0 order (omega arith)

abbrev pub NoComma : Bytes → Type 0
NoComma s = All (λ c. c ≢ b',') s

find_comma-first :
    (first rest : Bytes) → NoComma first → find_comma 0 (first ++ b',' ∷ rest) ≡ length first
unfolding find_comma
find_comma-first [] rest h = refl
find_comma-first (c ∷ first) rest (other, h) =
    let test : (c == b',') ≡ false = ground arith in
    rw test (ap suc (find_comma-first first rest h))

find_comma-single : (first : Bytes) → NoComma first → find_comma 0 first ≡ length first
unfolding find_comma
find_comma-single [] h = refl
find_comma-single (c ∷ first) (other, h) =
    let test : (c == b',') ≡ false = ground arith in rw test (ap suc (find_comma-single first h))

take-first : (first s : Bytes) → take (length first) (first ++ s) ≡ first
unfolding take
take-first [] s = refl
take-first (c ∷ first) s = ap (λ r. c ∷ r) (take-first first s)

not_wildcard :
    (encoding : Bytes) (t : ContentType)
    → known_type content_types encoding ≡ some t
    → bytes_eq encoding (codes "*/*") ≡ false
unfolding known_type bytes_eq
not_wildcard encoding t known = elim (Bool-cases (bytes_eq encoding (codes "*/*"))) [
  | inl same ↦ absurd (
      differ (
        ap (known_type content_types) (sym ((bytes_eq_iff encoding (codes "*/*")).0 same)) ∙ known))
  | inr other ↦ other
]
  where
    differ : known_type content_types (codes "*/*") ≡ some t → ⊥
    differ e = cc e

choose-known :
    (encoding : Bytes) (order : List ContentType) (rest : Option ContentType) (t : ContentType)
    → known_type content_types encoding ≡ some t
    → is_prefered t order ≡ true
    → choose encoding order rest ≡ some t
unfolding choose
choose-known encoding order rest t known wanted =
    let other = not_wildcard encoding t known in rw (other, known, wanted)

-- The first type of the header, less its weight, is the answer where it is known and among those
-- asked for, whatever follows it.
pub get_prefered_content_type-first :
    (first rest : Bytes) (order : List ContentType) (t : ContentType)
    → NoComma first
    → known_type content_types (without_weight first) ≡ some t
    → is_prefered t order ≡ true
    → (get_prefered_content_type first order ≡ some t)
      × (get_prefered_content_type (first ++ b',' ∷ rest) order ≡ some t)
unfolding get_prefered_content_type content_loop drop
get_prefered_content_type-first first rest order t no_comma known wanted =
    let whole = first ++ b',' ∷ rest in
    let inside : ltb 0 (length first + 1) ≡ true = ground arith in
    let inside' : ltb 0 (length whole + 1) ≡ true = ground arith in
    let alone : take (length first) first ≡ first =
      ap (take (length first)) (sym (append-nil first)) ∙ take-first first [] in
    (
      rw (inside, find_comma-single first no_comma, alone)
          (choose-known (without_weight first) order _ t known wanted),
      rw (inside', find_comma-first first rest no_comma, take-first first (b',' ∷ rest))
          (choose-known (without_weight first) order _ t known wanted),
    )
