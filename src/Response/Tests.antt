-- ===== src/Response/Tests.antt =====
-- http/http_response.hpp: concrete responses.
use crow_core.Common.{
  ℕ, ◌+◌, ◌≤◌, Bytes, codes, List, [], ◌∷◌, ◌++◌, length, Option, some, Bool, true, false, ◌≡◌, ◌∙◌,
  refl, append-nil,
}
use crow_core.Headers.{HeaderFields, insert_field, erase_field, same_name}
use crow_core.Headers.Values.{values, values-insert_field, values-erase_field}
use crow_core.Json.{Json, null, string, object, no_members, member}
use crow_core.Response.{
  Response, Body, new_response, etag_of, end_response, get_content_length,
  set_complete_request_handler, compute_etag, write, move_assign, move_construct,
}
use crow_core.Response.Steps.{
  Step, uses, assigns, constructs, ends, sets_handler, writes as writes_part, calls, rearmed,
  all_armed,
}
use crow_core.Response.Completion.{calls-bound}
use crow_core.Response.Completing.{RequestFields, writes, complete_request}
use crow_core.Response.NotModified.{security_headers, complete_request-not_modified}

abbrev hash : Json → ℕ
hash value = 255

abbrev a_value : Json
a_value = object (member (codes "Name") (string (codes "n")) no_members)

abbrev a_response : Response
a_response = record new_response { json_value = a_value }

-- A handler is moved to the second response, and with it to a third.
abbrev some_steps : List Step
some_steps =
    uses 0 (sets_handler (some 4))
    ∷ (assigns 1 0
        ∷ (uses 0 ends
            ∷ (uses 1 (writes_part (codes "x"))
                ∷ (constructs 1 ∷ (uses 1 ends ∷ (uses 2 ends ∷ []))))))

abbrev two_responses : List Response
two_responses = a_response ∷ (record new_response { completed = true } ∷ [])

abbrev set_keep_alive : Bool → HeaderFields → HeaderFields
set_keep_alive true fields = erase_field (codes "Connection") fields
set_keep_alive false fields =
    insert_field (codes "Connection") (codes "close") (erase_field (codes "Connection") fields)

abbrev payload_size : Body → Option ℕ
payload_size body = some 0

abbrev content_length : ℕ → HeaderFields → HeaderFields
content_length size fields = fields

calls-bound_example :
    length (calls hash set_keep_alive payload_size content_length some_steps two_responses)
    ≤ all_armed two_responses + rearmed some_steps
calls-bound_example =
    calls-bound hash set_keep_alive payload_size content_length some_steps two_responses

-- The handler that is set is called once, by the response to which it has been moved.
calls_runs : calls hash set_keep_alive payload_size content_length some_steps two_responses ≡ 4 ∷ []
unfolding calls end_response set_complete_request_handler write compute_etag etag_of move_assign
    move_construct
calls_runs = refl

set_keep_alive-keeps :
    (k : Bool) (fields : HeaderFields) (name : Bytes)
    → same_name (codes "Connection") name ≡ false
    → values name (set_keep_alive k fields) ≡ values name fields
set_keep_alive-keeps true fields name other =
    values-erase_field name (codes "Connection") fields other
set_keep_alive-keeps false fields name other =
    values-insert_field name (codes "Connection") (codes "close")
      (erase_field (codes "Connection") fields)
    ∙ rw other (
        append-nil (values name (erase_field (codes "Connection") fields))
        ∙ values-erase_field name (codes "Connection") fields other)

abbrev asked : Response
asked = record new_response { expected_hash = some (etag_of hash a_value) }

abbrev a_request : RequestFields
a_request = record { origin = []; accept = codes "*/*" }

complete_request-not_modified_example :
    (sent : Response) × (complete_request hash
        (λ indent v. codes "v")
        (λ v. codes "v")
        set_keep_alive
        false
        true
        false
        (some a_request)
        asked
        (end_response hash a_response).0
      ≡ some (writes sent))
    × (sent.status ≡ 304)
    × (sent.json_value ≡ null)
    × (sent.body ≡ a_response.body)
    × (values (codes "ETag") sent.headers
        ≡ values (codes "ETag") a_response.headers
          ++ (etag_of hash a_value ∷ (etag_of hash a_value ∷ [])))
    × ((name : Bytes)
        → same_name (codes "ETag") name ≡ false
        → same_name (codes "Connection") name ≡ false
        → values name sent.headers
          ≡ values name a_response.headers ++ values name (security_headers false []))
complete_request-not_modified_example =
    complete_request-not_modified hash (λ indent v. codes "v") (λ v. codes "v") set_keep_alive
      set_keep_alive-keeps false false a_request asked a_response refl refl refl

-- A body has no length where the status allows none.
content_length_runs : get_content_length (some 5) (record new_response { status = 304 }) ≡ 0
unfolding get_content_length
content_length_runs = refl
