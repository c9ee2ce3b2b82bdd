-- ===== src/Errors.antt =====
-- redfish_event/src/error_messages.cpp: messages and how they are added to a JSON document. `none` stands for an
-- exception of nlohmann::json.
pub mod Registry
pub mod Adding
pub mod Filled
pub mod Logs
mod Tests
use crow_core.Common.{
  ◌>>=◌, Bytes, codes, List, [], ◌∷◌, ◌++◌, map, Option, none, some, get_elem?, Bool, true, false,
  if◌then◌else◌,
}
use crow_core.Messages.{Message, MessageEntry, Log, get_log_from_registry}
use crow_core.Json.{
  Json, null, string, array, object, Items, no_items, item, items_of, Members, no_members, member,
  find_member, set_member, erase_member, is_object, is_array, find, update, assign, push_back,
}
use crow_core.Errors.Registry.{Index, index_of, header_id, registry}

abbrev pub message_version_prefix : Bytes
message_version_prefix = codes "Base.1.11.0."

abbrev pub message_annotation : Bytes
message_annotation = codes "@Message.ExtendedInfo"

abbrev pub general_error_text : Bytes
general_error_text =
    codes
      "A general error has occurred. See Resolution for information on how to resolve the error."

-- `auto& extendedInfo = error[messageAnnotation]`, made an array where it is none, and the message pushed to it.
unfoldable pub add_extended_info : Json → Json → Option Json
add_extended_info message extended_info =
    push_back message (if is_array extended_info then extended_info else array no_items)

-- `error["code"]`, `error["message"]` and the extended information.
unfoldable pub fill_error : Json → Json → Json → Json → Option Json
fill_error code text message error = do
  coded ← assign (codes "code") code error
  texted ← assign (codes "message") text coded
  update message_annotation (add_extended_info message) texted

-- A message without its two fields is not added, and `error` stays as it is.
unfoldable pub first_error : Option Json → Option Json → Json → Json → Option Json
first_error none text message error = some error
first_error (some id) none message error = some error
first_error (some id) (some text) message error = fill_error id text message error

unfoldable pub error_with : Json → Json → Option Json
error_with message error = elim (is_object error) [
  | false ↦
      first_error (find (codes "MessageId") message) (find (codes "Message") message) message error
  | true ↦
      fill_error (string (message_version_prefix ++ codes "GeneralError"))
        (string general_error_text) message error
]

unfoldable pub add_message_to_error_json : Json → Json → Option Json
add_message_to_error_json target message = update (codes "error") (error_with message) target

unfoldable pub add_messages : Json → Items → Option Json
add_messages target no_items = some target
add_messages target (item message rest) = do
  added ← add_message_to_error_json target message
  add_messages added rest

-- The target and the source afterwards.
unfoldable pub move_extended_info : Json → Members → Option Json → Option (Json × Json)
move_extended_info target source none = some (target, object source)
move_extended_info target source (some (array messages)) = do
  moved ← add_messages target messages
  some (moved, object (erase_member (codes "error") source))
move_extended_info target source (some other) =
    some (target, object (erase_member (codes "error") source))

unfoldable pub move_error : Json → Members → Option Json → Option (Json × Json)
move_error target source none = do
  added ← add_message_to_error_json target (object source)
  some (added, object no_members)
move_error target source (some error) =
    move_extended_info target source (find message_annotation error)

unfoldable pub move_errors_to_error_json : Json → Json → Option (Json × Json)
move_errors_to_error_json target (object source) =
    move_error target source (find_member (codes "error") source)
move_errors_to_error_json target source = some (target, source)

unfoldable pub add_message_to_json_root : Json → Json → Option Json
add_message_to_json_root target message =
    update message_annotation (add_extended_info message) target

unfoldable pub add_message_to_json : Json → Json → Bytes → Option Json
add_message_to_json target message field_path =
    update (field_path ++ message_annotation) (add_extended_info message) target

-- The object that `getLogFromRegistry` returns.
unfoldable pub log_json : Log → Json
log_json log = object (
    member (codes "@odata.type") (string log.odata_type) (
      member (codes "Message") (string log.message) (
        member (codes "MessageArgs") (array (items_of (map string log.message_args))) (
          member (codes "MessageId") (string log.message_id) (
            member (codes "MessageSeverity") (string log.message_severity)
              (member (codes "Resolution") (string log.resolution) no_members))))))

-- An index past the registry's end gives null. `none` means that the loop over the message is still running.
unfoldable pub log_at : Option MessageEntry → List Bytes → Option Json
log_at none args = some null
log_at (some entry) args = do log ← get_log_from_registry header_id entry args; some (log_json log)

unfoldable pub get_log : Index → List Bytes → Option Json
get_log name args = log_at (get_elem? registry (index_of name)) args
