-- ===== src/Messages.antt =====
-- include/registries.hpp: `fillMessageArgs` and `getLogFromRegistry`. The object that the latter makes is a
-- record of its members.
pub mod Templates
mod Tests
use crow_core.Common.{
  ℕ, zero, suc, ◌+◌, ◌-◌, ◌%◌, ◌^◌, Bytes, codes, length, get_elem?, List, [], ◌∷◌, ◌++◌, Option,
  none, some, ◌==◌, ltb, if◌then◌else◌, digits_of,
}

pub record Message : Type 0 where
  pub description : Bytes
  pub message : Bytes
  pub message_severity : Bytes
  pub number_of_args : ℕ
  pub param_types : List Bytes
  pub resolution : Bytes

-- `id` of a registry's header is all that is read of it.
abbrev pub MessageEntry : Type 0
MessageEntry = Bytes × Message

-- `msg.find('%')`: what comes before it, and what comes after.
unfoldable pub find_percent : Bytes → Option (Bytes × Bytes)
find_percent [] = none
find_percent (c ∷ msg) =
    let rest = find_percent msg in
    if c == b'%'
    then some ([], msg)
    else elim rest [ none ↦ none | some (before, after) ↦ some (c ∷ before, after) ]

-- `std::from_chars` of a `size_t`: `none` where there is no digit or the number is too large.
abbrev pub in_range : Option (ℕ × Bytes) → Option ℕ
in_range none = none
in_range (some (number, rest)) = if ltb number (2 ^ 64) then some number else none

unfoldable pub from_chars : Bytes → Option ℕ
unfolding digits_of
from_chars msg = in_range (digits_of msg)

abbrev pub remove_first : Bytes → Bytes
remove_first [] = []
remove_first (c ∷ msg) = msg

-- The loop of `fillMessageArgs`, on fuel; `none` means that it is still running.
unfoldable pub fill_loop : ℕ → List Bytes → Bytes → Bytes → Option Bytes
fill_loop zero args msg ret = none
fill_loop (suc fuel) args msg ret = elim (find_percent msg) [
  | none ↦ some (ret ++ msg)
  | some (before, after) ↦ elim (from_chars after) [
    | none ↦ some []
    | some number ↦ elim (get_elem? args ((number + 2 ^ 64 - 1) % 2 ^ 64)) [
      | none ↦ some []
      | some arg ↦ fill_loop fuel args (remove_first after) ((ret ++ before) ++ arg)
    ]
  ]
]

-- A round takes at least the `%` off, so one for each character and one more are enough.
unfoldable pub fill_message_args : List Bytes → Bytes → Option Bytes
fill_message_args args msg = fill_loop (suc (length msg)) args msg []

pub record Log : Type 0 where
  pub odata_type : Bytes
  pub message_id : Bytes
  pub message : Bytes
  pub message_args : List Bytes
  pub message_severity : Bytes
  pub resolution : Bytes

abbrev pub log_of : Bytes → MessageEntry → List Bytes → Option Bytes → Option Log
log_of id entry args none = none
log_of id entry args (some msg) = some (record {
  odata_type = codes "#Message.v1_1_1.Message";
  message_id = id ++ (codes "." ++ entry.0);
  message = msg;
  message_args = args;
  message_severity = entry.1.message_severity;
  resolution = entry.1.resolution;
})

unfoldable pub get_log_from_registry : Bytes → MessageEntry → List Bytes → Option Log
get_log_from_registry id entry args = log_of id entry args (fill_message_args args entry.1.message)
