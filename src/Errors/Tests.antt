-- ===== src/Errors/Tests.antt =====
-- redfish_event/src/error_messages.cpp: messages on concrete documents.
use crow_core.Response.{new_response}
use crow_core.Errors.Logs.Sent.Every.{every_post, every_post-IsSent}
use crow_core.Errors.Logs.Sent.{IsSent}
use crow_core.Common.{
  negsuc, Bytes, codes, length, [], ◌∷◌, none, some, All, ◌≡◌, refl, bytes_eq, to_string,
  to_string_unsigned, digits_before,
}
use crow_core.Json.{
  Json, null, string, object, items_of, Members, no_members, member, find_member, set_member,
  update,
}
use crow_core.Messages.Templates.{print, expand}
use crow_core.Errors.{
  add_message_to_error_json, add_messages, move_errors_to_error_json, error_with, first_error,
  get_log,
}
use crow_core.Errors.Registry.{Index, index_of, registry}
use crow_core.Errors.Adding.{
  IsMessage, error_of, with_error, add_messages-error, move_errors-append,
}
use crow_core.Errors.Filled.{entry_of, pieces_of, last_of, message_json, get_log-filled}
use crow_core.Errors.Logs.Resources.{chassis_power_state_on_required}
use crow_core.Errors.Logs.Calls.{IsFilled}
use crow_core.Errors.Logs.Calls.Every.{
  every_call, every_call-IsFilled, chassis_power_state_on_required-empty,
}

abbrev a_message : Bytes → Json
a_message text = object (
    member (codes "Message") (string text)
      (member (codes "MessageId") (string (codes "Base.X")) no_members))

a_message-IsMessage : (text : Bytes) → IsMessage (a_message text)
unfolding find_member bytes_eq
a_message-IsMessage text = ((string (codes "Base.X"), refl), (string text, refl))

abbrev some_members : Members
some_members = member (codes "Name") (string (codes "n")) no_members

some_members-absent : find_member (codes "error") some_members ≡ none
unfolding find_member bytes_eq
some_members-absent = refl

add_messages-error_example :
    add_messages
      (object some_members)
      (items_of (a_message (codes "one") ∷ (a_message (codes "two") ∷ [])))
    ≡ some (
        object (
          set_member
            (codes "error")
            (error_of (a_message (codes "one") ∷ (a_message (codes "two") ∷ [])))
            some_members))
add_messages-error_example =
    add_messages-error some_members (a_message (codes "one")) (a_message (codes "two") ∷ [])
      (a_message-IsMessage (codes "one")) some_members-absent

move_errors-append_example :
    move_errors_to_error_json
      (with_error (error_of (a_message (codes "one") ∷ [])) no_members)
      (with_error (error_of (a_message (codes "two") ∷ [])) some_members)
    ≡ some (
      with_error (error_of (a_message (codes "one") ∷ (a_message (codes "two") ∷ []))) no_members,
      object some_members,
    )
move_errors-append_example =
    move_errors-append no_members some_members (a_message (codes "one")) []
      (a_message (codes "two")) [] (a_message-IsMessage (codes "one"))
      (a_message-IsMessage (codes "two")) some_members-absent

access_denied-count : length (codes "/a" ∷ []) ≡ (entry_of Index.access_denied).1.number_of_args
unfolding entry_of registry index_of
access_denied-count = refl

get_log-filled_example :
    (print (pieces_of (entry_of Index.access_denied)) (last_of (entry_of Index.access_denied))
      ≡ (entry_of Index.access_denied).1.message)
    × (text : Bytes) × (expand
          (codes "/a" ∷ [])
          (pieces_of (entry_of Index.access_denied))
          (last_of (entry_of Index.access_denied))
        ≡ some text)
    × (get_log Index.access_denied (codes "/a" ∷ [])
        ≡ some (message_json (entry_of Index.access_denied) (codes "/a" ∷ []) text))
get_log-filled_example = get_log-filled Index.access_denied (codes "/a" ∷ []) access_denied-count

every_call-IsFilled_example : All IsFilled (
    every_call
      (λ indent j. codes "v")
      (string (codes "v"))
      (codes "a")
      (codes "b")
      (codes "c")
      (negsuc 4)
      7)
every_call-IsFilled_example =
    every_call-IsFilled (λ indent j. codes "v") (string (codes "v")) (codes "a") (codes "b")
      (codes "c") (negsuc 4) 7

chassis_power_state_on_required-empty_example :
    chassis_power_state_on_required (codes "/chassis/1")
    ≡ some (message_json (entry_of Index.reset_required) (codes "/chassis/1" ∷ []) [])
chassis_power_state_on_required-empty_example =
    chassis_power_state_on_required-empty (codes "/chassis/1")

to_string_runs : to_string (negsuc 119) ≡ codes "-120"
unfolding to_string to_string_unsigned digits_before
to_string_runs = refl

-- A message without an id leaves a null under "error".
no_id_runs :
    add_message_to_error_json (object no_members) (object some_members)
    ≡ some (object (member (codes "error") null no_members))
unfolding add_message_to_error_json error_with first_error update set_member find_member bytes_eq
no_id_runs = refl

every_post-IsSent_example : All (IsSent some_members) (
    every_post
      (λ indent j. codes "v")
      (string (codes "v"))
      (codes "a")
      (codes "b")
      (codes "c")
      (negsuc 4)
      7
      some_members
      (record new_response { json_value = object some_members }))
every_post-IsSent_example =
    every_post-IsSent (λ indent j. codes "v") (string (codes "v")) (codes "a") (codes "b")
      (codes "c") (negsuc 4) 7 some_members new_response some_members-absent
