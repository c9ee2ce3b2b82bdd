-- ===== src/Errors/Adding.antt =====
-- redfish_event/src/error_messages.cpp: what the messages that are added to a document add up to.
use crow_core.Common.{
  codes, List, [], ◌∷◌, ◌++◌, Option, none, some, ◌≡◌, refl, ap, sym, ◌∙◌, append-nil, append_assoc,
  bytes_eq, bytes_less,
}
use crow_core.Json.{
  Json, null, string, array, object, items_of, append_item, Members, no_members, member,
  find_member, set_member, find, update, assign,
}
use crow_core.Json.Access.{
  find_member-set_member, set_member-set_member, items_of-append, update-object,
  erase_member-set_member,
}
use crow_core.Errors.{
  message_version_prefix, message_annotation, general_error_text, add_extended_info, fill_error,
  first_error, error_with, add_message_to_error_json, add_messages, move_extended_info, move_error,
  move_errors_to_error_json,
}

-- A message has its two fields.
abbrev pub IsMessage : Json → Type 0
IsMessage message =
    ((id : Json) × (find (codes "MessageId") message ≡ some id))
    × ((text : Json) × (find (codes "Message") message ≡ some text))

-- The object under "error" that stands for a number of messages.
abbrev pub error_object : Json → Json → List Json → Json
error_object code text messages = object (
    member message_annotation (array (items_of messages))
      (member (codes "code") code (member (codes "message") text no_members)))

abbrev pub one_error : Option Json → Option Json → Json → Json
one_error (some id) (some text) message = error_object id text (message ∷ [])
one_error _ _ message = null

abbrev pub general_error : List Json → Json
general_error messages =
    error_object (string (message_version_prefix ++ codes "GeneralError"))
      (string general_error_text) messages

abbrev pub error_of : List Json → Json
error_of [] = null
error_of (message ∷ []) =
    one_error (find (codes "MessageId") message) (find (codes "Message") message) message
error_of (first ∷ (second ∷ rest)) = general_error (first ∷ (second ∷ rest))

fill_error-null :
    (code text message : Json)
    → fill_error code text message null ≡ some (error_object code text (message ∷ []))
unfolding fill_error assign update add_extended_info items_of set_member find_member bytes_eq
    bytes_less append_item
fill_error-null code text message = refl

fill_error-object :
    (code text old_code old_text message : Json) (messages : List Json)
    → fill_error code text message (error_object old_code old_text messages)
      ≡ some (error_object code text (messages ++ (message ∷ [])))
unfolding fill_error assign update add_extended_info items_of set_member find_member bytes_eq
    bytes_less
fill_error-object code text old_code old_text message messages =
    rw (items_of-append messages message)

-- Messages that are added one after the other to the object of those before.
error_with-first :
    (message : Json) → IsMessage message → error_with message null ≡ some (error_of (message ∷ []))
unfolding error_with first_error
error_with-first message ((id, has_id), (text, has_text)) =
    rw (has_id, has_text) (fill_error-null id text message)

error_with-next :
    (first : Json) (messages : List Json) (message : Json)
    → IsMessage first
    → error_with message (error_of (first ∷ messages))
      ≡ some (error_of ((first ∷ messages) ++ (message ∷ [])))
unfolding error_with
error_with-next first [] message ((id, has_id), (text, has_text)) =
    rw (has_id, has_text)
      (fill_error-object (string (message_version_prefix ++ codes "GeneralError"))
        (string general_error_text) id text message (first ∷ []))
error_with-next first (second ∷ messages) message h =
    let code = string (message_version_prefix ++ codes "GeneralError") in
    let text = string general_error_text in
    fill_error-object code text code text message (first ∷ (second ∷ messages))

-- A document with an error object in place of whatever it had there.
abbrev pub with_error : Json → Members → Json
with_error error ms = object (set_member (codes "error") error ms)

add_message-next :
    (first : Json) (before : List Json) (message : Json) (ms : Members)
    → IsMessage first
    → add_message_to_error_json (with_error (error_of (first ∷ before)) ms) message
      ≡ some (with_error (error_of ((first ∷ before) ++ (message ∷ []))) ms)
unfolding add_message_to_error_json
add_message-next first before message ms h =
    let key = codes "error" in
    let error = error_of (first ∷ before) in
    let last = error_of ((first ∷ before) ++ (message ∷ [])) in
    update-object key (error_with message) (set_member key error ms) (some error) last
      (find_member-set_member key error ms) (error_with-next first before message h)
    ∙ ap (λ all. some (object all)) (set_member-set_member key error last ms)

pub add_messages-more :
    (first : Json) (before after : List Json) (ms : Members)
    → IsMessage first
    → add_messages (with_error (error_of (first ∷ before)) ms) (items_of after)
      ≡ some (with_error (error_of ((first ∷ before) ++ after)) ms)
unfolding add_messages items_of
add_messages-more first before [] ms h =
    ap (λ all. some (with_error (error_of all) ms)) (sym (append-nil (first ∷ before)))
add_messages-more first before (message ∷ after) ms h =
    rw (add_message-next first before message ms h, add_messages)
      (add_messages-more first (before ++ (message ∷ [])) after ms h
        ∙ ap (λ all. some (with_error (error_of all) ms))
            (append_assoc (first ∷ before) (message ∷ []) after))

pub add_message-first :
    (message : Json) (ms : Members)
    → IsMessage message
    → find_member (codes "error") ms ≡ none
    → add_message_to_error_json (object ms) message ≡ some (with_error (error_of (message ∷ [])) ms)
unfolding add_message_to_error_json
add_message-first message ms h absent =
    update-object (codes "error") (error_with message) ms none (error_of (message ∷ [])) absent
      (error_with-first message h)

-- Messages that are added to an object without an error leave one in it, and its other members as they were: its extended
-- information has all of them in their order, and its code and text are those of a message that is alone, and those of
-- GeneralError where there are more. Only the first message has to have an id and a text.
pub add_messages-error :
    (ms : Members) (first : Json) (rest : List Json)
    → IsMessage first
    → find_member (codes "error") ms ≡ none
    → add_messages (object ms) (items_of (first ∷ rest))
      ≡ some (object (set_member (codes "error") (error_of (first ∷ rest)) ms))
unfolding add_messages items_of
add_messages-error ms first rest h absent =
    rw (add_message-first first ms h absent, add_messages) (add_messages-more first [] rest ms h)

find-extended_info :
    (first : Json) (rest : List Json)
    → IsMessage first
    → find message_annotation (error_of (first ∷ rest)) ≡ some (array (items_of (first ∷ rest)))
unfolding find_member bytes_eq
find-extended_info first [] ((id, has_id), (text, has_text)) = rw (has_id, has_text) refl
find-extended_info first (second ∷ rest) h = refl

-- Errors that are moved to a document with errors follow those, and the source keeps the rest of its members.
pub move_errors-append :
    (target source : Members) (first : Json) (before : List Json) (moved : Json) (after : List Json)
    → IsMessage first
    → IsMessage moved
    → find_member (codes "error") source ≡ none
    → move_errors_to_error_json
        (with_error (error_of (first ∷ before)) target)
        (with_error (error_of (moved ∷ after)) source)
      ≡ some (with_error (error_of ((first ∷ before) ++ (moved ∷ after))) target, object source)
unfolding move_errors_to_error_json move_error move_extended_info
move_errors-append target source first before moved after h h' absent =
    let error = error_of (moved ∷ after) in
    rw
      (
        find_member-set_member (codes "error") error source,
        move_error,
        find-extended_info moved after h',
        move_extended_info,
        add_messages-more first before (moved ∷ after) target h,
        erase_member-set_member (codes "error") error source absent,
      )
      refl
