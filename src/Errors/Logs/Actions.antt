-- ===== src/Errors/Logs/Actions.antt =====
-- redfish_event/src/error_messages.cpp: the messages about actions and queries, as JSON and in a response. Of two functions of
-- one name, the one that takes a response has `_response` after it.
use crow_core.Common.{Bytes, [], ◌∷◌, Option, pos}
use crow_core.Json.{Json}
use crow_core.Response.{Response, result}
use crow_core.Errors.{get_log}
use crow_core.Errors.Registry.{Index}
use crow_core.Errors.Logs.Sending.{Dump, add_error, bad_request}

unfoldable pub action_parameter_value_format_error : Dump → Json → Bytes → Bytes → Option Json
action_parameter_value_format_error dump arg1 arg2 arg3 =
    get_log Index.action_parameter_value_format_error (dump (pos 2) arg1 ∷ arg2 ∷ arg3 ∷ [])

unfoldable pub action_parameter_value_format_error_response :
    Dump → Json → Bytes → Bytes → Response → Option Response
action_parameter_value_format_error_response dump arg1 arg2 arg3 res =
    add_error (action_parameter_value_format_error dump arg1 arg2 arg3) (result bad_request res)

unfoldable pub action_parameter_value_not_in_list : Bytes → Bytes → Bytes → Option Json
action_parameter_value_not_in_list arg1 arg2 arg3 =
    get_log Index.action_parameter_value_not_in_list (arg1 ∷ arg2 ∷ arg3 ∷ [])

unfoldable pub action_parameter_value_not_in_list_response :
    Bytes → Bytes → Bytes → Response → Option Response
action_parameter_value_not_in_list_response arg1 arg2 arg3 res =
    add_error (action_parameter_value_not_in_list arg1 arg2 arg3) (result bad_request res)

unfoldable pub action_parameter_unknown : Bytes → Bytes → Option Json
action_parameter_unknown arg1 arg2 = get_log Index.action_parameter_unknown (arg1 ∷ arg2 ∷ [])

unfoldable pub action_parameter_unknown_response : Bytes → Bytes → Response → Option Response
action_parameter_unknown_response arg1 arg2 res =
    add_error (action_parameter_unknown arg1 arg2) (result bad_request res)

unfoldable pub action_parameter_missing : Bytes → Bytes → Option Json
action_parameter_missing arg1 arg2 = get_log Index.action_parameter_missing (arg1 ∷ arg2 ∷ [])

unfoldable pub action_parameter_missing_response : Bytes → Bytes → Response → Option Response
action_parameter_missing_response arg1 arg2 res =
    add_error (action_parameter_missing arg1 arg2) (result bad_request res)

unfoldable pub query_parameter_value_type_error : Dump → Json → Bytes → Option Json
query_parameter_value_type_error dump arg1 arg2 =
    get_log Index.query_parameter_value_type_error (dump (pos 2) arg1 ∷ arg2 ∷ [])

unfoldable pub query_parameter_value_type_error_response :
    Dump → Json → Bytes → Response → Option Response
query_parameter_value_type_error_response dump arg1 arg2 res =
    add_error (query_parameter_value_type_error dump arg1 arg2) (result bad_request res)

unfoldable pub action_parameter_duplicate : Bytes → Bytes → Option Json
action_parameter_duplicate arg1 arg2 = get_log Index.action_parameter_duplicate (arg1 ∷ arg2 ∷ [])

unfoldable pub action_parameter_duplicate_response : Bytes → Bytes → Response → Option Response
action_parameter_duplicate_response arg1 arg2 res =
    add_error (action_parameter_duplicate arg1 arg2) (result bad_request res)

unfoldable pub action_parameter_not_supported : Bytes → Bytes → Option Json
action_parameter_not_supported arg1 arg2 =
    get_log Index.action_parameter_not_supported (arg1 ∷ arg2 ∷ [])

unfoldable pub action_parameter_not_supported_response : Bytes → Bytes → Response → Option Response
action_parameter_not_supported_response arg1 arg2 res =
    add_error (action_parameter_not_supported arg1 arg2) (result bad_request res)

unfoldable pub query_not_supported : Option Json
query_not_supported = get_log Index.query_not_supported []

unfoldable pub query_not_supported_response : Response → Option Response
query_not_supported_response res = add_error query_not_supported (result bad_request res)

unfoldable pub action_parameter_value_type_error : Dump → Json → Bytes → Bytes → Option Json
action_parameter_value_type_error dump arg1 arg2 arg3 =
    get_log Index.action_parameter_value_type_error (dump (pos 2) arg1 ∷ arg2 ∷ arg3 ∷ [])

unfoldable pub action_parameter_value_type_error_response :
    Dump → Json → Bytes → Bytes → Response → Option Response
action_parameter_value_type_error_response dump arg1 arg2 arg3 res =
    add_error (action_parameter_value_type_error dump arg1 arg2 arg3) (result bad_request res)

unfoldable pub action_not_supported : Bytes → Option Json
action_not_supported arg1 = get_log Index.action_not_supported (arg1 ∷ [])

unfoldable pub action_not_supported_response : Bytes → Response → Option Response
action_not_supported_response arg1 res =
    add_error (action_not_supported arg1) (result bad_request res)

unfoldable pub query_not_supported_on_resource : Option Json
query_not_supported_on_resource = get_log Index.query_not_supported_on_resource []

unfoldable pub query_not_supported_on_resource_response : Response → Option Response
query_not_supported_on_resource_response res =
    add_error query_not_supported_on_resource (result bad_request res)

unfoldable pub query_not_supported_on_operation : Option Json
query_not_supported_on_operation = get_log Index.query_not_supported_on_operation []

unfoldable pub query_not_supported_on_operation_response : Response → Option Response
query_not_supported_on_operation_response res =
    add_error query_not_supported_on_operation (result bad_request res)

unfoldable pub query_combination_invalid : Option Json
query_combination_invalid = get_log Index.query_combination_invalid []

unfoldable pub query_combination_invalid_response : Response → Option Response
query_combination_invalid_response res =
    add_error query_combination_invalid (result bad_request res)

unfoldable pub query_parameter_value_format_error : Dump → Json → Bytes → Option Json
query_parameter_value_format_error dump arg1 arg2 =
    get_log Index.query_parameter_value_format_error (dump (pos 2) arg1 ∷ arg2 ∷ [])

unfoldable pub query_parameter_value_format_error_response :
    Dump → Json → Bytes → Response → Option Response
query_parameter_value_format_error_response dump arg1 arg2 res =
    add_error (query_parameter_value_format_error dump arg1 arg2) (result bad_request res)

unfoldable pub query_parameter_out_of_range : Bytes → Bytes → Bytes → Option Json
query_parameter_out_of_range arg1 arg2 arg3 =
    get_log Index.query_parameter_out_of_range (arg1 ∷ arg2 ∷ arg3 ∷ [])

unfoldable pub query_parameter_out_of_range_response :
    Bytes → Bytes → Bytes → Response → Option Response
query_parameter_out_of_range_response arg1 arg2 arg3 res =
    add_error (query_parameter_out_of_range arg1 arg2 arg3) (result bad_request res)
