-- ===== src/Headers.antt =====
-- The fields of a header, which http/http_response.hpp keeps in boost's container: a list in the order in which the
-- fields are written, with `insert` and `erase` as the library documents them. Names are compared
-- without regard to the case of ASCII letters.
pub mod Values
use crow_core.Common.{
  ℕ, ◌+◌, Bytes, bytes_eq, bytes_eq_iff, List, [], ◌∷◌, ◌++◌, Bool, true, false, not, ◌&&◌, ◌||◌,
  leb, if◌then◌else◌, ◌≡◌, refl, sym, ap, ◌∙◌, arith, Bool-cases, inl, inr, append_assoc,
  append-nil,
}

abbrev pub HeaderFields : Type 0
HeaderFields = List (Bytes × Bytes)

unfoldable pub lower : Bytes → Bytes
lower [] = []
lower (c ∷ s) = let rest = lower s in if leb 65 c && leb c 90 then (c + 32) ∷ rest else c ∷ rest

unfoldable pub same_name : Bytes → Bytes → Bool
same_name a b = bytes_eq (lower a) (lower b)

unfoldable pub has_field : Bytes → HeaderFields → Bool
has_field key [] = false
has_field key ((name, value) ∷ fields) = same_name name key || has_field key fields

-- `insert`: after the last field of the same name, and at the end where there is none.
unfoldable pub insert_field : Bytes → Bytes → HeaderFields → HeaderFields
insert_field key value [] = (key, value) ∷ []
insert_field key value ((name, old) ∷ fields) =
    let rest = insert_field key value fields in
    if same_name name key && not (has_field key fields)
    then (name, old) ∷ ((key, value) ∷ fields)
    else (name, old) ∷ rest

-- `erase`: all the fields of the name.
unfoldable pub erase_field : Bytes → HeaderFields → HeaderFields
erase_field key [] = []
erase_field key ((name, value) ∷ fields) =
    let rest = erase_field key fields in if same_name name key then rest else (name, value) ∷ rest
