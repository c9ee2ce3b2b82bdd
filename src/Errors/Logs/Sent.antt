-- ===== src/Errors/Logs/Sent.antt =====
-- redfish_event/src/error_messages.cpp: the functions that put a message into a response, beside the places for it.
mod Actions
mod Properties
mod Resources
mod Services
pub mod Every
use crow_core.Common.{
  ℕ, Bytes, codes, List, [], ◌∷◌, ◌++◌, Option, none, some, All, ◌≡◌, refl, ◌∙◌, ap, bytes_eq,
  bytes_less, Option-cases, inl, inr,
}
use crow_core.Json.{
  Json, null, boolean, number_integer, number_unsigned, number_float, string, binary, array, object,
  Items, no_items, append_item, Members, find_member, set_member, find, or_null, update,
}
use crow_core.Json.Access.{update-object}
use crow_core.Messages.{Message, Log, fill_message_args, get_log_from_registry}
use crow_core.Messages.Templates.{fill_message_args-ends}
use crow_core.Response.{Response}
use crow_core.Errors.{
  message_annotation, add_extended_info, add_message_to_error_json, add_message_to_json_root,
  add_message_to_json, log_json, log_at, get_log,
}
use crow_core.Errors.Registry.{Index, index_of, header_id, registry}
use crow_core.Errors.Adding.{IsMessage, error_of, add_message-first}
use crow_core.Errors.Filled.{entry_of, message_json, entry_of-has_template}
use crow_core.Errors.Logs.Sending.{add_error, add_to_root, add_to_field}

-- Where in the document a message goes.
pub data Place : Type 0 where
  error_place : Place
  root_place : Place
  field_place : Bytes → Place

-- The function's place, the response with the status and the header that it sets, its message and what it returns.
abbrev pub Post : Type 0
Post = Place × Response × Option Json × Option Response

unfoldable pub add_at : Place → Option Json → Response → Option Response
add_at error_place message res = add_error message res
add_at root_place message res = add_to_root message res
add_at (field_place path) message res = add_to_field message path res

abbrev items_at : Option Json → Items
items_at (some (array xs)) = xs
items_at _ = no_items

-- The document's members with a message at its place.
abbrev pub placed : Place → Json → Members → Members
placed error_place m ms = set_member (codes "error") (error_of (m ∷ [])) ms
placed root_place m ms =
    set_member message_annotation
      (array (append_item (items_at (find_member message_annotation ms)) m)) ms
placed (field_place path) m ms =
    set_member (path ++ message_annotation)
      (array (append_item (items_at (find_member (path ++ message_annotation) ms)) m)) ms

-- What is returned is the response with the message at its place and the rest of the document as it was.
abbrev pub IsSent : Members → Post → Type 0
IsSent ms (place, prepared, message, returned) =
    (m : Json) × (message ≡ some m)
    × (returned ≡ some (record prepared { json_value = object (placed place m ms) }))

abbrev pub Posts : Members → Post → Type 0
Posts ms (place, prepared, message, returned) =
    ((name : Index) × (args : List Bytes) × (message ≡ get_log name args))
    × (prepared.json_value ≡ object ms)
    × (returned ≡ add_at place message prepared)

get_log-IsMessage :
    (name : Index) (args : List Bytes) → (m : Json) × (get_log name args ≡ some m) × IsMessage m
unfolding get_log log_at get_log_from_registry log_json find_member bytes_eq message_json
get_log-IsMessage name args =
    let entry = entry_of name in
    let (found, template) = entry_of-has_template name in
    let (text, filled) = fill_message_args-ends args entry.1.message in
    (
      message_json entry args text,
      rw (found, log_at, get_log_from_registry, filled) refl,
      ((string (header_id ++ (codes "." ++ entry.0)), refl), (string text, refl)),
    )

add_extended_info-items :
    (m : Json) (old : Option Json)
    → add_extended_info m (or_null old) ≡ some (array (append_item (items_at old) m))
unfolding add_extended_info append_item
add_extended_info-items m none = refl
add_extended_info-items m (some null) = refl
add_extended_info-items m (some (boolean b)) = refl
add_extended_info-items m (some (number_integer i)) = refl
add_extended_info-items m (some (number_unsigned n)) = refl
add_extended_info-items m (some (number_float n)) = refl
add_extended_info-items m (some (string s)) = refl
add_extended_info-items m (some (binary s)) = refl
add_extended_info-items m (some (array xs)) = refl
add_extended_info-items m (some (object ms)) = refl

update-placed :
    (key : Bytes) (m : Json) (ms : Members)
    → update key (add_extended_info m) (object ms)
      ≡ some (object (set_member key (array (append_item (items_at (find_member key ms)) m)) ms))
update-placed key m ms =
    let old = find_member key ms in
    update-object key (add_extended_info m) ms old (array (append_item (items_at old) m)) refl
      (add_extended_info-items m old)

add_at-placed :
    (place : Place) (m : Json) (ms : Members) (res : Response)
    → IsMessage m
    → find_member (codes "error") ms ≡ none
    → res.json_value ≡ object ms
    → add_at place (some m) res ≡ some (record res { json_value = object (placed place m ms) })
unfolding add_at add_error add_to_root add_to_field add_message_to_json_root add_message_to_json
add_at-placed error_place m ms res h absent e = rw (e, add_message-first m ms h absent) refl
add_at-placed root_place m ms res h absent e = rw (e, update-placed message_annotation m ms) refl
add_at-placed (field_place path) m ms res h absent e =
    rw (e, update-placed (path ++ message_annotation) m ms) refl

pub All-IsSent :
    (ms : Members) (posts : List Post)
    → find_member (codes "error") ms ≡ none
    → All (Posts ms) posts
    → All (IsSent ms) posts
All-IsSent ms [] absent h = tt
All-IsSent ms ((place, prepared, message, returned) ∷ posts) absent
      (((name, args, logged), holds, same), h) =
    let (m, made, is_message) = get_log-IsMessage name args in
    (
      (
        m,
        logged ∙ made,
        same
            ∙ ap (λ o. add_at place o prepared) (logged ∙ made)
            ∙ add_at-placed place m ms prepared is_message absent holds,
      ),
      All-IsSent ms posts absent h,
    )
