-- ===== src/Json/Access.antt =====
-- Members of an object under `find`, `operator[]` and `erase`.
use crow_core.Common.{
  Bytes, List, [], ◌∷◌, ◌++◌, true, false, Option, none, some, bytes_eq, bytes_less, bytes_eq_iff,
  ◌≡◌, refl, ap, Bool-cases, inl, inr,
}
use crow_core.Json.{
  Json, item, items_of, append_item, Members, no_members, member, find_member, set_member,
  erase_member, object, or_null, update,
}

pub bytes_eq_refl : (s : Bytes) → bytes_eq s s ≡ true
bytes_eq_refl s = (bytes_eq_iff s s).1 refl

pub find_member-set_member :
    (key : Bytes) (value : Json) (ms : Members)
    → find_member key (set_member key value ms) ≡ some value
unfolding find_member set_member
find_member-set_member key value no_members = rw (bytes_eq_refl key)
find_member-set_member key value (member k v ms) = elim (Bool-cases (bytes_eq k key)) [
  | inl same ↦ rw (same, bytes_eq_refl key)
  | inr other ↦ elim (Bool-cases (bytes_less key k)) [
    | inl less ↦ rw (other, less, bytes_eq_refl key)
    | inr more ↦ rw (other, more, find_member, other) (find_member-set_member key value ms)
  ]
]

-- The other members stay.
pub find_member-set_member_other :
    (key other : Bytes) (value : Json) (ms : Members)
    → bytes_eq key other ≡ false
    → find_member other (set_member key value ms) ≡ find_member other ms
unfolding find_member set_member
find_member-set_member_other key other value no_members differ = rw differ
find_member-set_member_other key other value (member k v ms) differ =
    elim (Bool-cases (bytes_eq k key)) [
      | inl same ↦
          let is_key : k ≡ key = (bytes_eq_iff k key).0 same in
          rw (is_key, bytes_eq_refl key, find_member, differ)
      | inr apart ↦ elim (Bool-cases (bytes_less key k)) [
        | inl less ↦ rw (apart, less, find_member, differ)
        | inr more ↦
            rw (apart, more, find_member, find_member-set_member_other key other value ms differ)
      ]
    ]

-- Of two assignments to a member, the last one counts.
pub set_member-set_member :
    (key : Bytes) (value last : Json) (ms : Members)
    → set_member key last (set_member key value ms) ≡ set_member key last ms
unfolding set_member
set_member-set_member key value last no_members = rw (bytes_eq_refl key)
set_member-set_member key value last (member k v ms) = elim (Bool-cases (bytes_eq k key)) [
  | inl same ↦ rw (same, bytes_eq_refl key)
  | inr other ↦ elim (Bool-cases (bytes_less key k)) [
    | inl less ↦ rw (other, less, bytes_eq_refl key)
    | inr more ↦
        rw (other, more, set_member, other, more)
          (ap (member k v) (set_member-set_member key value last ms))
  ]
]

pub items_of-append :
    (xs : List Json) (x : Json) → append_item (items_of xs) x ≡ items_of (xs ++ (x ∷ []))
unfolding append_item items_of
items_of-append [] x = refl
items_of-append (y ∷ xs) x = ap (item y) (items_of-append xs x)

pub update-object :
    (key : Bytes) (f : Json → Option Json) (ms : Members) (old : Option Json) (value : Json)
    → find_member key ms ≡ old
    → f (or_null old) ≡ some value
    → update key f (object ms) ≡ some (object (set_member key value ms))
unfolding update
update-object key f ms old value found e = rw (found, e) refl

-- A member that was not there is erased without a trace.
pub erase_member-set_member :
    (key : Bytes) (value : Json) (ms : Members)
    → find_member key ms ≡ none
    → erase_member key (set_member key value ms) ≡ ms
unfolding erase_member set_member find_member
erase_member-set_member key value no_members absent = rw (bytes_eq_refl key)
erase_member-set_member key value (member k v ms) absent = elim (Bool-cases (bytes_eq k key)) [
  | inl same ↦ absurd (cc (rw (same, find_member) at absent))
  | inr other ↦ elim (Bool-cases (bytes_less key k)) [
    | inl less ↦ rw (other, less, bytes_eq_refl key)
    | inr more ↦
        rw (other, more, erase_member, other)
          (ap (member k v)
            (erase_member-set_member key value ms (rw (other, find_member) at absent)))
  ]
]
