-- ===== src/Errors/Logs/Services.antt =====
-- redfish_event/src/error_messages.cpp: the messages about services, sessions and accounts, as JSON and in a response. Of two functions of
-- one name, the one that takes a response has `_response` after it.
use crow_core.Common.{Bytes, [], ◌∷◌, Option, codes}
use crow_core.Json.{Json}
use crow_core.Response.{Response, result, add_header}
use crow_core.Errors.{get_log}
use crow_core.Errors.Registry.{Index}
use crow_core.Errors.Logs.Sending.{
  add_error, add_to_root, bad_request, forbidden, internal_server_error, ok, service_unavailable,
}

unfoldable pub internal_error : Option Json
internal_error = get_log Index.internal_error []

unfoldable pub internal_error_response : Response → Option Response
internal_error_response res = add_error internal_error (result internal_server_error res)

unfoldable pub service_temporarily_unavailable : Bytes → Option Json
service_temporarily_unavailable arg1 = get_log Index.service_temporarily_unavailable (arg1 ∷ [])

unfoldable pub service_temporarily_unavailable_response : Bytes → Response → Option Response
service_temporarily_unavailable_response arg1 res =
    add_error (service_temporarily_unavailable arg1)
      (result service_unavailable (add_header (codes "Retry-After") arg1 res))

unfoldable pub account_for_session_no_longer_exists : Option Json
account_for_session_no_longer_exists = get_log Index.account_for_session_no_longer_exists []

unfoldable pub account_for_session_no_longer_exists_response : Response → Option Response
account_for_session_no_longer_exists_response res =
    add_error account_for_session_no_longer_exists (result forbidden res)

unfoldable pub service_disabled : Bytes → Option Json
service_disabled arg1 = get_log Index.service_disabled (arg1 ∷ [])

unfoldable pub service_disabled_response : Bytes → Response → Option Response
service_disabled_response arg1 res =
    add_error (service_disabled arg1) (result service_unavailable res)

unfoldable pub service_in_unknown_state : Option Json
service_in_unknown_state = get_log Index.service_in_unknown_state []

unfoldable pub service_in_unknown_state_response : Response → Option Response
service_in_unknown_state_response res =
    add_error service_in_unknown_state (result service_unavailable res)

unfoldable pub event_subscription_limit_exceeded : Option Json
event_subscription_limit_exceeded = get_log Index.event_subscription_limit_exceeded []

unfoldable pub event_subscription_limit_exceeded_response : Response → Option Response
event_subscription_limit_exceeded_response res =
    add_error event_subscription_limit_exceeded (result service_unavailable res)

unfoldable pub session_terminated : Option Json
session_terminated = get_log Index.session_terminated []

unfoldable pub session_terminated_response : Response → Option Response
session_terminated_response res = add_to_root session_terminated (result ok res)

unfoldable pub subscription_terminated : Option Json
subscription_terminated = get_log Index.subscription_terminated []

unfoldable pub subscription_terminated_response : Response → Option Response
subscription_terminated_response res = add_to_root subscription_terminated (result ok res)

unfoldable pub service_shutting_down : Option Json
service_shutting_down = get_log Index.service_shutting_down []

unfoldable pub service_shutting_down_response : Response → Option Response
service_shutting_down_response res =
    add_error service_shutting_down (result service_unavailable res)

unfoldable pub strict_account_types : Bytes → Option Json
strict_account_types arg1 = get_log Index.strict_account_types (arg1 ∷ [])

unfoldable pub strict_account_types_response : Bytes → Response → Option Response
strict_account_types_response arg1 res =
    add_error (strict_account_types arg1) (result bad_request res)

unfoldable pub account_removed : Option Json
account_removed = get_log Index.account_removed []

unfoldable pub account_removed_response : Response → Option Response
account_removed_response res = add_to_root account_removed (result ok res)

unfoldable pub access_denied : Bytes → Option Json
access_denied arg1 = get_log Index.access_denied (arg1 ∷ [])

unfoldable pub access_denied_response : Bytes → Response → Option Response
access_denied_response arg1 res = add_error (access_denied arg1) (result forbidden res)

unfoldable pub general_error : Option Json
general_error = get_log Index.general_error []

unfoldable pub general_error_response : Response → Option Response
general_error_response res = add_error general_error (result internal_server_error res)

unfoldable pub no_valid_session : Option Json
no_valid_session = get_log Index.no_valid_session []

unfoldable pub no_valid_session_response : Response → Option Response
no_valid_session_response res = add_error no_valid_session (result forbidden res)

unfoldable pub session_limit_exceeded : Option Json
session_limit_exceeded = get_log Index.session_limit_exceeded []

unfoldable pub session_limit_exceeded_response : Response → Option Response
session_limit_exceeded_response res =
    add_error session_limit_exceeded (result service_unavailable res)

unfoldable pub insufficient_privilege : Option Json
insufficient_privilege = get_log Index.insufficient_privilege []

unfoldable pub insufficient_privilege_response : Response → Option Response
insufficient_privilege_response res = add_error insufficient_privilege (result forbidden res)

unfoldable pub account_not_modified : Option Json
account_not_modified = get_log Index.account_not_modified []

unfoldable pub account_not_modified_response : Response → Option Response
account_not_modified_response res = add_error account_not_modified (result bad_request res)

unfoldable pub account_modified : Option Json
account_modified = get_log Index.account_modified []

unfoldable pub account_modified_response : Response → Option Response
account_modified_response res = add_error account_modified (result ok res)

unfoldable pub password_change_required : Bytes → Option Json
password_change_required arg1 = get_log Index.password_change_required (arg1 ∷ [])

unfoldable pub password_change_required_response : Bytes → Response → Option Response
password_change_required_response arg1 res = add_to_root (password_change_required arg1) res
