-- ===== src/Json.antt =====
-- nlohmann::json as the code uses it: a value is one of the library's kinds, and an object is a std::map, that is
-- a list of members in the order of their keys. `none` stands for an exception (`type_error`).
pub mod Access
use crow_core.Common.{
  ℕ, Bytes, ℤ, List, [], ◌∷◌, Bool, true, false, Option, none, some, bytes_eq, bytes_less,
  if◌then◌else◌, suc, to_string_unsigned, ◌^◌, ◌-◌, ltb, pos, negsuc,
}

-- A floating-point number and a binary value are kept as their bits and their bytes.
mutual
  pub data Json : Type 0 where
    null : Json
    boolean : Bool → Json
    number_integer : ℤ → Json
    number_unsigned : ℕ → Json
    number_float : ℕ → Json
    string : Bytes → Json
    binary : Bytes → Json
    array : Items → Json
    object : Members → Json

  pub data Items : Type 0 where
    no_items : Items
    item : Json → Items → Items

  pub data Members : Type 0 where
    no_members : Members
    member : Bytes → Json → Members → Members

abbrev pub is_object : Json → Bool
is_object (object ms) = true
is_object _ = false

abbrev pub is_array : Json → Bool
is_array (array xs) = true
is_array _ = false

unfoldable pub items_of : List Json → Items
items_of [] = no_items
items_of (x ∷ xs) = item x (items_of xs)

unfoldable pub append_item : Items → Json → Items
append_item no_items x = item x no_items
append_item (item y xs) x = item y (append_item xs x)

-- `std::map::find`.
unfoldable pub find_member : Bytes → Members → Option Json
find_member key no_members = none
find_member key (member k v ms) =
    let rest = find_member key ms in if bytes_eq k key then some v else rest

-- `operator[]` of a map, assigned to.
unfoldable pub set_member : Bytes → Json → Members → Members
set_member key value no_members = member key value no_members
set_member key value (member k v ms) =
    let rest = set_member key value ms in
    if bytes_eq k key
    then member key value ms
    else if bytes_less key k
    then member key value (member k v ms)
    else member k v rest

unfoldable pub erase_member : Bytes → Members → Members
erase_member key no_members = no_members
erase_member key (member k v ms) =
    let rest = erase_member key ms in if bytes_eq k key then ms else member k v rest

abbrev pub or_null : Option Json → Json
or_null none = null
or_null (some v) = v

-- `find` of a value: the end where it is no object.
abbrev pub find : Bytes → Json → Option Json
find key (object ms) = find_member key ms
find key _ = none

-- The members that `operator[]` looks into: null becomes an object, and any other value that is none throws.
abbrev pub members_of : Json → Option Members
members_of null = some no_members
members_of (object ms) = some ms
members_of _ = none

-- `auto& v = target[key]`, with what is then done to `v`: a key that is missing is added with null.
abbrev update_with : Bytes → (Json → Option Json) → Option Members → Option Json
update_with key f none = none
update_with key f (some ms) = elim (f (or_null (find_member key ms))) [
  | none ↦ none
  | some v ↦ some (object (set_member key v ms))
]

unfoldable pub update : Bytes → (Json → Option Json) → Json → Option Json
update key f target = update_with key f (members_of target)

-- `target[key] = value`.
unfoldable pub assign : Bytes → Json → Json → Option Json
unfolding update
assign key value target = update key (λ v. some value) target

-- `push_back`: null becomes an array, and any other value that is none throws.
abbrev pub push_back : Json → Json → Option Json
push_back x null = some (array (item x no_items))
push_back x (array xs) = some (array (append_item xs x))
push_back x _ = none

-- `items()`: the keys of an array are its indices, and a value that holds no others is an item of its own.
unfoldable pub items_from : ℕ → Items → List (Bytes × Json)
items_from index no_items = []
items_from index (item x xs) = (to_string_unsigned index, x) ∷ items_from (suc index) xs

unfoldable pub member_list : Members → List (Bytes × Json)
member_list no_members = []
member_list (member key value ms) = (key, value) ∷ member_list ms

unfoldable pub items : Json → List (Bytes × Json)
unfolding items_from member_list
items null = []
items (array xs) = items_from 0 xs
items (object ms) = member_list ms
items value = ([], value) ∷ []

-- `get_ptr` of the kinds that are asked for. An unsigned number is read as a signed one by its bits.
abbrev pub string_ptr : Json → Option Bytes
string_ptr (string s) = some s
string_ptr _ = none

abbrev pub bool_ptr : Json → Option Bool
bool_ptr (boolean b) = some b
bool_ptr _ = none

abbrev pub uint64_ptr : Json → Option ℕ
uint64_ptr (number_unsigned n) = some n
uint64_ptr _ = none

abbrev pub signed_bits : ℕ → ℤ
signed_bits n = if ltb n (2 ^ 63) then pos n else negsuc (2 ^ 64 - suc n)

abbrev pub int64_ptr : Json → Option ℤ
int64_ptr (number_integer i) = some i
int64_ptr (number_unsigned n) = some (signed_bits n)
int64_ptr _ = none
