-- ===== src/Errors/Logs/Properties.antt =====
-- redfish_event/src/error_messages.cpp: the messages about properties and request bodies, as JSON and in a response. Of two functions of
-- one name, the one that takes a response has `_response` after it.
use crow_core.Common.{to_string, to_string_unsigned, Bytes, [], ◌∷◌, Option, ℕ, ℤ, pos, negsuc}
use crow_core.Json.{Json}
use crow_core.Response.{Response, result}
use crow_core.Errors.{get_log}
use crow_core.Errors.Registry.{Index}
use crow_core.Errors.Logs.Sending.{
  Dump, add_error, add_to_field, bad_request, conflict, forbidden, ok,
}

unfoldable pub malformed_json : Option Json
malformed_json = get_log Index.malformed_json []

unfoldable pub malformed_json_response : Response → Option Response
malformed_json_response res = add_error malformed_json (result bad_request res)

unfoldable pub unrecognized_request_body : Option Json
unrecognized_request_body = get_log Index.unrecognized_request_body []

unfoldable pub unrecognized_request_body_response : Response → Option Response
unrecognized_request_body_response res =
    add_error unrecognized_request_body (result bad_request res)

unfoldable pub property_duplicate : Bytes → Option Json
property_duplicate arg1 = get_log Index.property_duplicate (arg1 ∷ [])

unfoldable pub property_duplicate_response : Bytes → Response → Option Response
property_duplicate_response arg1 res =
    add_to_field (property_duplicate arg1) arg1 (result bad_request res)

unfoldable pub create_failed_missing_req_properties : Bytes → Option Json
create_failed_missing_req_properties arg1 =
    get_log Index.create_failed_missing_req_properties (arg1 ∷ [])

unfoldable pub create_failed_missing_req_properties_response : Bytes → Response → Option Response
create_failed_missing_req_properties_response arg1 res =
    add_to_field (create_failed_missing_req_properties arg1) arg1 (result bad_request res)

unfoldable pub property_value_format_error : Dump → Json → Bytes → Option Json
property_value_format_error dump arg1 arg2 =
    get_log Index.property_value_format_error (dump (pos 2) arg1 ∷ arg2 ∷ [])

unfoldable pub property_value_format_error_response :
    Dump → Json → Bytes → Response → Option Response
property_value_format_error_response dump arg1 arg2 res =
    add_to_field (property_value_format_error dump arg1 arg2) arg2 (result bad_request res)

unfoldable pub property_value_not_in_list : Dump → Json → Bytes → Option Json
property_value_not_in_list dump arg1 arg2 =
    get_log Index.property_value_not_in_list (dump (negsuc 0) arg1 ∷ arg2 ∷ [])

unfoldable pub property_value_not_in_list_response :
    Dump → Json → Bytes → Response → Option Response
property_value_not_in_list_response dump arg1 arg2 res =
    add_to_field (property_value_not_in_list dump arg1 arg2) arg2 (result bad_request res)

unfoldable pub property_value_out_of_range : Dump → Json → Bytes → Option Json
property_value_out_of_range dump arg1 arg2 =
    get_log Index.property_value_out_of_range (dump (pos 2) arg1 ∷ arg2 ∷ [])

unfoldable pub property_value_out_of_range_response :
    Dump → Json → Bytes → Response → Option Response
property_value_out_of_range_response dump arg1 arg2 res =
    add_error (property_value_out_of_range dump arg1 arg2) (result bad_request res)

unfoldable pub string_value_too_long : Bytes → ℤ → Option Json
string_value_too_long arg1 arg2 = get_log Index.string_value_too_long (arg1 ∷ to_string arg2 ∷ [])

unfoldable pub string_value_too_long_response : Bytes → ℤ → Response → Option Response
string_value_too_long_response arg1 arg2 res =
    add_error (string_value_too_long arg1 arg2) (result bad_request res)

unfoldable pub property_value_conflict : Bytes → Bytes → Option Json
property_value_conflict arg1 arg2 = get_log Index.property_value_conflict (arg1 ∷ arg2 ∷ [])

unfoldable pub property_value_conflict_response : Bytes → Bytes → Response → Option Response
property_value_conflict_response arg1 arg2 res =
    add_error (property_value_conflict arg1 arg2) (result bad_request res)

unfoldable pub property_value_resource_conflict : Dump → Bytes → Json → Bytes → Option Json
property_value_resource_conflict dump arg1 arg2 arg3 =
    get_log Index.property_value_resource_conflict (arg1 ∷ dump (pos 2) arg2 ∷ arg3 ∷ [])

unfoldable pub property_value_resource_conflict_response :
    Dump → Bytes → Json → Bytes → Response → Option Response
property_value_resource_conflict_response dump arg1 arg2 arg3 res =
    add_error (property_value_resource_conflict dump arg1 arg2 arg3) (result conflict res)

unfoldable pub property_value_external_conflict : Dump → Bytes → Json → Option Json
property_value_external_conflict dump arg1 arg2 =
    get_log Index.property_value_external_conflict (arg1 ∷ dump (pos 2) arg2 ∷ [])

unfoldable pub property_value_external_conflict_response :
    Dump → Bytes → Json → Response → Option Response
property_value_external_conflict_response dump arg1 arg2 res =
    add_error (property_value_external_conflict dump arg1 arg2) (result conflict res)

unfoldable pub property_value_incorrect : Dump → Json → Bytes → Option Json
property_value_incorrect dump arg1 arg2 =
    get_log Index.property_value_incorrect (dump (pos 2) arg1 ∷ arg2 ∷ [])

unfoldable pub property_value_incorrect_response : Dump → Json → Bytes → Response → Option Response
property_value_incorrect_response dump arg1 arg2 res =
    add_error (property_value_incorrect dump arg1 arg2) (result bad_request res)

unfoldable pub property_value_type_error : Dump → Json → Bytes → Option Json
property_value_type_error dump arg1 arg2 =
    get_log Index.property_value_type_error (dump (pos 2) arg1 ∷ arg2 ∷ [])

unfoldable pub property_value_type_error_response : Dump → Json → Bytes → Response → Option Response
property_value_type_error_response dump arg1 arg2 res =
    add_to_field (property_value_type_error dump arg1 arg2) arg2 (result bad_request res)

unfoldable pub property_not_writable : Bytes → Option Json
property_not_writable arg1 = get_log Index.property_not_writable (arg1 ∷ [])

unfoldable pub property_not_writable_response : Bytes → Response → Option Response
property_not_writable_response arg1 res =
    add_to_field (property_not_writable arg1) arg1 (result forbidden res)

unfoldable pub property_unknown : Bytes → Option Json
property_unknown arg1 = get_log Index.property_unknown (arg1 ∷ [])

unfoldable pub property_unknown_response : Bytes → Response → Option Response
property_unknown_response arg1 res = add_error (property_unknown arg1) (result bad_request res)

unfoldable pub invalid_object : Bytes → Option Json
invalid_object arg1 = get_log Index.invalid_object (arg1 ∷ [])

unfoldable pub invalid_object_response : Bytes → Response → Option Response
invalid_object_response arg1 res = add_error (invalid_object arg1) (result bad_request res)

unfoldable pub invalid_index : ℤ → Option Json
invalid_index arg1 = get_log Index.invalid_index (to_string arg1 ∷ [])

unfoldable pub invalid_index_response : ℤ → Response → Option Response
invalid_index_response arg1 res = add_error (invalid_index arg1) (result bad_request res)

unfoldable pub empty_json : Option Json
empty_json = get_log Index.empty_json []

unfoldable pub empty_json_response : Response → Option Response
empty_json_response res = add_error empty_json (result bad_request res)

unfoldable pub property_value_modified : Dump → Bytes → Json → Option Json
property_value_modified dump arg1 arg2 =
    get_log Index.property_value_modified (arg1 ∷ dump (pos 2) arg2 ∷ [])

unfoldable pub property_value_modified_response : Dump → Bytes → Json → Response → Option Response
property_value_modified_response dump arg1 arg2 res =
    add_to_field (property_value_modified dump arg1 arg2) arg1 (result ok res)

unfoldable pub property_missing : Bytes → Option Json
property_missing arg1 = get_log Index.property_missing (arg1 ∷ [])

unfoldable pub property_missing_response : Bytes → Response → Option Response
property_missing_response arg1 res =
    add_to_field (property_missing arg1) arg1 (result bad_request res)

unfoldable pub array_size_too_long : Bytes → ℕ → Option Json
array_size_too_long property length =
    get_log Index.array_size_too_long (property ∷ to_string_unsigned length ∷ [])

unfoldable pub array_size_too_long_response : Bytes → ℕ → Response → Option Response
array_size_too_long_response property length res =
    add_error (array_size_too_long property length) (result bad_request res)
