-- ===== src/Errors/Logs/Resources.antt =====
-- redfish_event/src/error_messages.cpp: the messages about resources and operations, as JSON and in a response. Of two functions of
-- one name, the one that takes a response has `_response` after it.
use crow_core.Common.{Bytes, [], ◌∷◌, Option, some, codes, ◌++◌}
use crow_core.Json.{Json, string, array, object, items_of, no_members, member}
use crow_core.Response.{Response, result}
use crow_core.Errors.{get_log}
use crow_core.Errors.Registry.{Index}
use crow_core.Errors.Logs.Sending.{
  add_error, add_to_root, add_to_field, bad_gateway, bad_request, created_status,
  insufficient_storage_status, internal_server_error, method_not_allowed, not_found,
  precondition_failed_status, service_unavailable, unauthorized,
}

unfoldable pub resource_in_use : Option Json
resource_in_use = get_log Index.resource_in_use []

unfoldable pub resource_in_use_response : Response → Option Response
resource_in_use_response res = add_error resource_in_use (result service_unavailable res)

unfoldable pub resource_missing_at_uri : Bytes → Option Json
resource_missing_at_uri arg1 = get_log Index.resource_missing_at_uri (arg1 ∷ [])

unfoldable pub resource_missing_at_uri_response : Bytes → Response → Option Response
resource_missing_at_uri_response arg1 res =
    add_error (resource_missing_at_uri arg1) (result bad_request res)

unfoldable pub resource_at_uri_unauthorized : Bytes → Bytes → Option Json
resource_at_uri_unauthorized arg1 arg2 =
    get_log Index.resource_at_uri_unauthorized (arg1 ∷ arg2 ∷ [])

unfoldable pub resource_at_uri_unauthorized_response : Bytes → Bytes → Response → Option Response
resource_at_uri_unauthorized_response arg1 arg2 res =
    add_error (resource_at_uri_unauthorized arg1 arg2) (result unauthorized res)

unfoldable pub resource_cannot_be_deleted : Option Json
resource_cannot_be_deleted = get_log Index.resource_cannot_be_deleted []

unfoldable pub resource_cannot_be_deleted_response : Response → Option Response
resource_cannot_be_deleted_response res =
    add_error resource_cannot_be_deleted (result method_not_allowed res)

unfoldable pub resource_already_exists : Bytes → Bytes → Bytes → Option Json
resource_already_exists arg1 arg2 arg3 =
    get_log Index.resource_already_exists (arg1 ∷ arg2 ∷ arg3 ∷ [])

unfoldable pub resource_already_exists_response : Bytes → Bytes → Bytes → Response → Option Response
resource_already_exists_response arg1 arg2 arg3 res =
    add_to_field (resource_already_exists arg1 arg2 arg3) arg2 (result bad_request res)

unfoldable pub resource_at_uri_in_unknown_format : Bytes → Option Json
resource_at_uri_in_unknown_format arg1 = get_log Index.resource_at_uri_in_unknown_format (arg1 ∷ [])

unfoldable pub resource_at_uri_in_unknown_format_response : Bytes → Response → Option Response
resource_at_uri_in_unknown_format_response arg1 res =
    add_error (resource_at_uri_in_unknown_format arg1) (result bad_request res)

unfoldable pub resource_type_incompatible : Bytes → Bytes → Option Json
resource_type_incompatible arg1 arg2 = get_log Index.resource_type_incompatible (arg1 ∷ arg2 ∷ [])

unfoldable pub resource_type_incompatible_response : Bytes → Bytes → Response → Option Response
resource_type_incompatible_response arg1 arg2 res =
    add_error (resource_type_incompatible arg1 arg2) (result bad_request res)

unfoldable pub reset_required : Bytes → Bytes → Option Json
reset_required arg1 arg2 = get_log Index.reset_required (arg1 ∷ arg2 ∷ [])

unfoldable pub reset_required_response : Bytes → Bytes → Response → Option Response
reset_required_response arg1 arg2 res =
    add_error (reset_required arg1 arg2) (result bad_request res)

unfoldable pub chassis_power_state_on_required : Bytes → Option Json
chassis_power_state_on_required arg1 = get_log Index.reset_required (arg1 ∷ [])

unfoldable pub chassis_power_state_on_required_response : Bytes → Response → Option Response
chassis_power_state_on_required_response arg1 res =
    add_error (chassis_power_state_on_required arg1) (result bad_request res)

unfoldable pub chassis_power_state_off_required : Bytes → Option Json
chassis_power_state_off_required arg1 = get_log Index.chassis_power_state_off_required (arg1 ∷ [])

unfoldable pub chassis_power_state_off_required_response : Bytes → Response → Option Response
chassis_power_state_off_required_response arg1 res =
    add_error (chassis_power_state_off_required arg1) (result bad_request res)

unfoldable pub resource_creation_conflict : Bytes → Option Json
resource_creation_conflict arg1 = get_log Index.resource_creation_conflict (arg1 ∷ [])

unfoldable pub resource_creation_conflict_response : Bytes → Response → Option Response
resource_creation_conflict_response arg1 res =
    add_error (resource_creation_conflict arg1) (result bad_request res)

unfoldable pub maximum_errors_exceeded : Option Json
maximum_errors_exceeded = get_log Index.maximum_errors_exceeded []

unfoldable pub maximum_errors_exceeded_response : Response → Option Response
maximum_errors_exceeded_response res =
    add_error maximum_errors_exceeded (result internal_server_error res)

unfoldable pub precondition_failed : Option Json
precondition_failed = get_log Index.precondition_failed []

unfoldable pub precondition_failed_response : Response → Option Response
precondition_failed_response res =
    add_error precondition_failed (result precondition_failed_status res)

unfoldable pub precondition_required : Option Json
precondition_required = get_log Index.precondition_required []

unfoldable pub precondition_required_response : Response → Option Response
precondition_required_response res = add_error precondition_required (result bad_request res)

unfoldable pub operation_failed : Option Json
operation_failed = get_log Index.operation_failed []

unfoldable pub operation_failed_response : Response → Option Response
operation_failed_response res = add_error operation_failed (result bad_gateway res)

unfoldable pub operation_timeout : Option Json
operation_timeout = get_log Index.operation_timeout []

unfoldable pub operation_timeout_response : Response → Option Response
operation_timeout_response res = add_error operation_timeout (result internal_server_error res)

unfoldable pub resource_not_found : Bytes → Bytes → Option Json
resource_not_found arg1 arg2 = get_log Index.resource_not_found (arg1 ∷ arg2 ∷ [])

unfoldable pub resource_not_found_response : Bytes → Bytes → Response → Option Response
resource_not_found_response arg1 arg2 res =
    add_error (resource_not_found arg1 arg2) (result not_found res)

unfoldable pub could_not_establish_connection : Bytes → Option Json
could_not_establish_connection arg1 = get_log Index.could_not_establish_connection (arg1 ∷ [])

unfoldable pub could_not_establish_connection_response : Bytes → Response → Option Response
could_not_establish_connection_response arg1 res =
    add_error (could_not_establish_connection arg1) (result not_found res)

unfoldable pub source_does_not_support_protocol : Bytes → Bytes → Option Json
source_does_not_support_protocol arg1 arg2 =
    get_log Index.source_does_not_support_protocol (arg1 ∷ arg2 ∷ [])

unfoldable pub source_does_not_support_protocol_response :
    Bytes → Bytes → Response → Option Response
source_does_not_support_protocol_response arg1 arg2 res =
    add_error (source_does_not_support_protocol arg1 arg2) (result bad_request res)

unfoldable pub create_limit_reached_for_resource : Option Json
create_limit_reached_for_resource = get_log Index.create_limit_reached_for_resource []

unfoldable pub create_limit_reached_for_resource_response : Response → Option Response
create_limit_reached_for_resource_response res =
    add_error create_limit_reached_for_resource (result bad_request res)

unfoldable pub success : Option Json
success = get_log Index.success []

unfoldable pub success_response : Response → Option Response
success_response res = add_to_root success res

unfoldable pub created : Option Json
created = get_log Index.created []

unfoldable pub created_response : Response → Option Response
created_response res = add_to_root created (result created_status res)

unfoldable pub no_operation : Option Json
no_operation = get_log Index.no_operation []

unfoldable pub no_operation_response : Response → Option Response
no_operation_response res = add_error no_operation (result bad_request res)

unfoldable pub resource_in_standby : Option Json
resource_in_standby = get_log Index.resource_in_standby []

unfoldable pub resource_in_standby_response : Response → Option Response
resource_in_standby_response res = add_error resource_in_standby (result service_unavailable res)

unfoldable pub resource_exhaustion : Bytes → Option Json
resource_exhaustion arg1 = get_log Index.resource_exhaustion (arg1 ∷ [])

unfoldable pub resource_exhaustion_response : Bytes → Response → Option Response
resource_exhaustion_response arg1 res =
    add_error (resource_exhaustion arg1) (result service_unavailable res)

unfoldable pub insufficient_storage : Option Json
insufficient_storage = get_log Index.insufficient_storage []

unfoldable pub insufficient_storage_response : Response → Option Response
insufficient_storage_response res =
    add_error insufficient_storage (result insufficient_storage_status res)

unfoldable pub operation_not_allowed : Option Json
operation_not_allowed = get_log Index.operation_not_allowed []

unfoldable pub operation_not_allowed_response : Response → Option Response
operation_not_allowed_response res = add_error operation_not_allowed (result method_not_allowed res)

unfoldable pub invalid_upload : Bytes → Bytes → Option Json
unfolding items_of
invalid_upload arg1 arg2 = some (
    object (
      member (codes "@odata.type") (string (codes "/redfish/v1/$metadata#Message.v1_1_1.Message")) (
        member (codes "Message")
          (string
            (codes "Invalid file uploaded to " ++ (arg1 ++ (codes ": " ++ (arg2 ++ codes ".")))))
          (member (codes "MessageArgs") (array (items_of (string arg1 ∷ (string arg2 ∷ [])))) (
            member (codes "MessageId") (string (codes "OpenBMC.0.2.InvalidUpload")) (
              member (codes "MessageSeverity") (string (codes "Warning"))
                (member (codes "Resolution") (string (codes "None.")) no_members)))))))

unfoldable pub invalid_upload_response : Bytes → Bytes → Response → Option Response
invalid_upload_response arg1 arg2 res =
    add_error (invalid_upload arg1 arg2) (result bad_request res)
