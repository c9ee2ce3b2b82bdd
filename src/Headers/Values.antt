-- ===== src/Headers/Values.antt =====
-- The values of the fields of a name, under the operations of Headers.
use crow_core.Common.{
  Bytes, bytes_eq, bytes_eq_iff, List, [], ◌∷◌, ◌++◌, true, false, not, ◌&&◌, if◌then◌else◌, ◌≡◌,
  refl, sym, ap, ◌∙◌, arith, Bool-cases, inl, inr, append_assoc, append-nil,
}
use crow_core.Headers.{HeaderFields, lower, same_name, has_field, insert_field, erase_field}

-- The values of the fields of a name, in their order.
unfoldable pub values : Bytes → HeaderFields → List Bytes
values name [] = []
values name ((key, value) ∷ fields) =
    let rest = values name fields in if same_name key name then value ∷ rest else rest

-- The values that a field of a key adds to a name.
abbrev pub own : Bytes → Bytes → Bytes → List Bytes
own name key value = if same_name key name then value ∷ [] else []

same_lower : (a b : Bytes) → same_name a b ≡ true → lower a ≡ lower b
unfolding same_name
same_lower a b e = (bytes_eq_iff (lower a) (lower b)).0 e

-- Names that are the same are the same as the same names.
same_name-congr : (a b name : Bytes) → same_name a b ≡ true → same_name a name ≡ same_name b name
unfolding same_name
same_name-congr a b name e = ap (λ s. bytes_eq s (lower name)) (same_lower a b e)

-- Two names that are the same as a third are the same.
same_name-join :
    (a b name : Bytes) → same_name a name ≡ true → same_name b name ≡ true → same_name a b ≡ true
unfolding same_name
same_name-join a b name e f =
    (bytes_eq_iff (lower a) (lower b)).1 (same_lower a name e ∙ sym (same_lower b name f))

values-absent :
    (name key : Bytes) (fields : HeaderFields)
    → has_field key fields ≡ false
    → same_name key name ≡ true
    → values name fields ≡ []
unfolding values has_field
values-absent name key [] absent same = refl
values-absent name key ((k, v) ∷ fields) absent same = elim (Bool-cases (same_name k key)) [
  | inl first ↦ absurd (cc (rw first at absent))
  | inr other ↦
      let differs : same_name k name ≡ false = elim (Bool-cases (same_name k name)) [
        | inl e ↦ absurd (cc (sym (same_name-join k key name e same) ∙ other))
        | inr e ↦ e
      ] in
      rw differs (values-absent name key fields (rw other at absent) same)
]

pub values-insert_field :
    (name key value : Bytes) (fields : HeaderFields)
    → values name (insert_field key value fields) ≡ values name fields ++ own name key value
unfolding values insert_field
values-insert_field name key value [] = refl
values-insert_field name key value ((k, v) ∷ fields) =
    elim (Bool-cases (same_name k key && not (has_field key fields))) [
      | inl last ↦
          let alike : same_name k key ≡ true = ground (arith, last) in
          let absent : has_field key fields ≡ false = ground (arith, last) in
          let same = same_name-congr k key name alike in
          elim (Bool-cases (same_name key name)) [
            | inl e ↦ rw (last, same, e) (rw (values-absent name key fields absent e) refl)
            | inr e ↦ rw (last, same, e) (sym (append-nil (values name fields)))
          ]
      | inr later ↦ elim (Bool-cases (same_name k name)) [
        | inl e ↦ rw (later, e) (ap (λ vs. v ∷ vs) (values-insert_field name key value fields))
        | inr e ↦ rw (later, e) (values-insert_field name key value fields)
      ]
    ]

pub values-erase_field :
    (name key : Bytes) (fields : HeaderFields)
    → same_name key name ≡ false
    → values name (erase_field key fields) ≡ values name fields
unfolding values erase_field
values-erase_field name key [] other = refl
values-erase_field name key ((k, v) ∷ fields) other = elim (Bool-cases (same_name k key)) [
  | inl e ↦ rw (e, same_name-congr k key name e, other) (values-erase_field name key fields other)
  | inr e ↦ elim (Bool-cases (same_name k name)) [
    | inl f ↦ rw (e, f) (ap (λ vs. v ∷ vs) (values-erase_field name key fields other))
    | inr f ↦ rw (e, f) (values-erase_field name key fields other)
  ]
]

-- The fields after those of a list are inserted.
unfoldable pub insert_all : List (Bytes × Bytes) → HeaderFields → HeaderFields
insert_all [] fields = fields
insert_all ((key, value) ∷ new) fields = insert_all new (insert_field key value fields)

own-append :
    (name key value : Bytes) (rest : List Bytes)
    → own name key value ++ rest ≡ (if same_name key name then value ∷ rest else rest)
own-append name key value rest = elim (Bool-cases (same_name key name)) [
  | inl e ↦ rw e refl
  | inr e ↦ rw e refl
]

pub values-insert_all :
    (name : Bytes) (new : List (Bytes × Bytes)) (fields : HeaderFields)
    → values name (insert_all new fields) ≡ values name fields ++ values name new
unfolding insert_all values
values-insert_all name [] fields = sym (append-nil (values name fields))
values-insert_all name ((key, value) ∷ new) fields =
    values-insert_all name new (insert_field key value fields)
    ∙ ap (λ vs. vs ++ values name new) (values-insert_field name key value fields)
    ∙ append_assoc (values name fields) (own name key value) (values name new)
    ∙ ap (λ vs. values name fields ++ vs) (own-append name key value (values name new))

pub insert_all-append :
    (old new : List (Bytes × Bytes)) (fields : HeaderFields)
    → insert_all new (insert_all old fields) ≡ insert_all (old ++ new) fields
unfolding insert_all
insert_all-append [] new fields = refl
insert_all-append ((key, value) ∷ old) new fields =
    insert_all-append old new (insert_field key value fields)

pub own_other : (name key value : Bytes) → same_name key name ≡ false → own name key value ≡ []
own_other name key value other = rw other refl

-- What is added before and after the security headers.
pub around :
    (vs sec o sec' o' : List Bytes)
    → o ≡ o'
    → sec ≡ sec'
    → ((vs ++ o) ++ sec) ++ o ≡ vs ++ (o' ++ (sec' ++ o'))
around vs sec o sec' o' same same' =
    append_assoc (vs ++ o) sec o ∙ append_assoc vs o (sec ++ o) ∙ rw (same, same') refl
