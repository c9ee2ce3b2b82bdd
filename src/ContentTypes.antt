-- ===== src/ContentTypes.antt =====
-- http/http_utility.hpp: the choice of a content type by an Accept header.
pub mod Choice
mod Tests
use crow_core.Common.{
  ℕ, zero, suc, ◌+◌, Bytes, codes, length, bytes_eq, strip_prefix, List, [], ◌∷◌, Option, none,
  some, Bool, true, false, ◌||◌, ◌==◌, ltb, if◌then◌else◌,
}

pub data ContentType : Type 0 where
  no_match any cbor html json octet_stream event_stream : ContentType

unfoldable pub same_content : ContentType → ContentType → Bool
same_content no_match no_match = true
same_content any any = true
same_content cbor cbor = true
same_content html html = true
same_content json json = true
same_content octet_stream octet_stream = true
same_content event_stream event_stream = true
same_content _ _ = false

abbrev pub content_types : List (Bytes × ContentType)
content_types =
    (codes "application/cbor", cbor)
    ∷ (codes "application/json", json)
    ∷ (codes "application/octet-stream", octet_stream)
    ∷ (codes "text/html", html)
    ∷ (codes "text/event-stream", event_stream)
    ∷ []

-- `header.find(',', pos)`, or the size where there is none.
unfoldable pub find_comma : ℕ → Bytes → ℕ
find_comma pos [] = 0
find_comma zero (c ∷ s) = let rest = find_comma zero s in if c == b',' then 0 else suc rest
find_comma (suc pos) (c ∷ s) = suc (find_comma pos s)

-- The two arguments of `substr`.
unfoldable pub drop : ℕ → Bytes → Bytes
drop zero s = s
drop (suc n) [] = []
drop (suc n) (c ∷ s) = drop n s

unfoldable pub take : ℕ → Bytes → Bytes
take zero s = []
take (suc n) [] = []
take (suc n) (c ∷ s) = c ∷ take n s

-- What stands before `;q=`.
unfoldable pub without_weight : Bytes → Bytes
without_weight [] = []
without_weight (c ∷ s) = elim (strip_prefix (codes ";q=") (c ∷ s)) [
  | some weight ↦ []
  | none ↦ c ∷ without_weight s
]

unfoldable pub known_type : List (Bytes × ContentType) → Bytes → Option ContentType
known_type [] encoding = none
known_type ((text, t) ∷ types) encoding =
    if bytes_eq text encoding then some t else known_type types encoding

unfoldable pub is_prefered : ContentType → List ContentType → Bool
is_prefered t [] = false
is_prefered t (u ∷ order) = same_content u t || is_prefered t order

-- The tests of a round, and the rest of the loop.
unfoldable pub choose : Bytes → List ContentType → Option ContentType → Option ContentType
choose encoding order rest =
    if bytes_eq encoding (codes "*/*") then some any else elim (known_type content_types encoding) [
      | none ↦ rest
      | some t ↦ if is_prefered t order then some t else rest
    ]

-- The loop, on fuel: `header` loses its first character in every round, and `last_index` counts in
-- what is left; `none` means that it is still running.
unfoldable pub content_loop : ℕ → Bytes → ℕ → List ContentType → Option ContentType
content_loop zero header last_index order = none
content_loop (suc fuel) header last_index order =
    if ltb last_index (length header + 1)
    then choose (without_weight (take (find_comma last_index header) (drop last_index header)))
        order (content_loop fuel (drop 1 header) (find_comma last_index header + 1) order)
    else some no_match

unfoldable pub get_prefered_content_type : Bytes → List ContentType → Option ContentType
get_prefered_content_type header prefered_order =
    content_loop (suc (suc (length header))) header 0 prefered_order

abbrev allowed_of : ContentType → Bool → Option ContentType → Option Bool
allowed_of t allow_wildcard none = none
allowed_of t allow_wildcard (some any) = some allow_wildcard
allowed_of t allow_wildcard (some allowed) = some (same_content t allowed)

unfoldable pub is_content_type_allowed : Bytes → ContentType → Bool → Option Bool
unfolding same_content
is_content_type_allowed header t allow_wildcard =
    allowed_of t allow_wildcard (get_prefered_content_type header (t ∷ []))
