-- ===== src/Errors/Registry.antt =====
-- include/registries/base_message_registry.hpp: the registry `Base.1.16.0`, its enumeration and its header's `id`.
mod FromAccessDenied
mod FromActionParameterValueConflict
mod FromCouldNotEstablishConnection
mod FromInsufficientStorage
mod FromNetworkNameResolutionNotSupported
mod FromPropertyDuplicate
mod FromPropertyValueModified
mod FromQueryParameterValueError
mod FromResourceExhaustion
mod FromServiceTemporarilyUnavailable
use crow_core.Common.{ℕ, Bytes, codes, List, [], ◌∷◌, ◌++◌}
use crow_core.Messages.{MessageEntry}
use crow_core.Errors.Registry.FromAccessDenied.{from_access_denied}
use crow_core.Errors.Registry.FromActionParameterValueConflict.{
  from_action_parameter_value_conflict,
}
use crow_core.Errors.Registry.FromCouldNotEstablishConnection.{from_could_not_establish_connection}
use crow_core.Errors.Registry.FromInsufficientStorage.{from_insufficient_storage}
use crow_core.Errors.Registry.FromNetworkNameResolutionNotSupported.{
  from_network_name_resolution_not_supported,
}
use crow_core.Errors.Registry.FromPropertyDuplicate.{from_property_duplicate}
use crow_core.Errors.Registry.FromPropertyValueModified.{from_property_value_modified}
use crow_core.Errors.Registry.FromQueryParameterValueError.{from_query_parameter_value_error}
use crow_core.Errors.Registry.FromResourceExhaustion.{from_resource_exhaustion}
use crow_core.Errors.Registry.FromServiceTemporarilyUnavailable.{
  from_service_temporarily_unavailable,
}

-- `header.id`, all that is read of the header.
abbrev pub header_id : Bytes
header_id = codes "Base.1.16.0"

unfoldable pub registry : List MessageEntry
registry =
    from_access_denied
    ++ (from_action_parameter_value_conflict
        ++ (from_could_not_establish_connection
            ++ (from_insufficient_storage
                ++ (from_network_name_resolution_not_supported
                    ++ (from_property_duplicate
                        ++ (from_property_value_modified
                            ++ (from_query_parameter_value_error
                                ++ (from_resource_exhaustion
                                    ++ (from_service_temporarily_unavailable)))))))))

pub data Index : Type 0 where
  access_denied account_for_session_no_longer_exists account_modified account_not_modified
        account_removed action_deprecated action_not_supported action_parameter_duplicate
        action_parameter_missing action_parameter_not_supported action_parameter_unknown
        action_parameter_value_conflict action_parameter_value_error
        action_parameter_value_format_error action_parameter_value_not_in_list
        action_parameter_value_type_error array_size_too_long array_size_too_short
        authentication_token_required chassis_power_state_off_required
        chassis_power_state_on_required condition_in_related_resource could_not_establish_connection
        create_failed_missing_req_properties create_limit_reached_for_resource created empty_json
        event_buffer_exceeded event_subscription_limit_exceeded general_error header_invalid
        header_missing insufficient_privilege insufficient_storage internal_error invalid_index
        invalid_json invalid_object invalid_uri license_required malformed_json
        maximum_errors_exceeded missing_or_malformed_part network_name_resolution_not_configured
        network_name_resolution_not_supported no_operation no_valid_session operation_failed
        operation_not_allowed operation_timeout password_change_required payload_too_large
        precondition_failed precondition_required property_deprecated property_duplicate
        property_missing property_not_updated property_not_writable property_unknown
        property_value_conflict property_value_deprecated property_value_error
        property_value_external_conflict property_value_format_error property_value_incorrect
        property_value_modified property_value_not_in_list property_value_out_of_range
        property_value_resource_conflict property_value_type_error query_combination_invalid
        query_not_supported query_not_supported_on_operation query_not_supported_on_resource
        query_parameter_out_of_range query_parameter_unsupported query_parameter_value_error
        query_parameter_value_format_error query_parameter_value_type_error reset_recommended
        reset_required resource_already_exists resource_at_uri_in_unknown_format
        resource_at_uri_unauthorized resource_cannot_be_deleted resource_creation_conflict
        resource_deprecated resource_exhaustion resource_in_standby resource_in_use
        resource_missing_at_uri resource_not_found resource_type_incompatible restricted_privilege
        restricted_role service_disabled service_in_unknown_state service_shutting_down
        service_temporarily_unavailable session_limit_exceeded session_terminated
        source_does_not_support_protocol strict_account_types string_value_too_long
        string_value_too_short subscription_terminated success undetermined_fault
        unrecognized_request_body :
      Index

unfoldable pub index_of : Index → ℕ
index_of access_denied = 0
index_of account_for_session_no_longer_exists = 1
index_of account_modified = 2
index_of account_not_modified = 3
index_of account_removed = 4
index_of action_deprecated = 5
index_of action_not_supported = 6
index_of action_parameter_duplicate = 7
index_of action_parameter_missing = 8
index_of action_parameter_not_supported = 9
index_of action_parameter_unknown = 10
index_of action_parameter_value_conflict = 11
index_of action_parameter_value_error = 12
index_of action_parameter_value_format_error = 13
index_of action_parameter_value_not_in_list = 14
index_of action_parameter_value_type_error = 15
index_of array_size_too_long = 16
index_of array_size_too_short = 17
index_of authentication_token_required = 18
index_of chassis_power_state_off_required = 19
index_of chassis_power_state_on_required = 20
index_of condition_in_related_resource = 21
index_of could_not_establish_connection = 22
index_of create_failed_missing_req_properties = 23
index_of create_limit_reached_for_resource = 24
index_of created = 25
index_of empty_json = 26
index_of event_buffer_exceeded = 27
index_of event_subscription_limit_exceeded = 28
index_of general_error = 29
index_of header_invalid = 30
index_of header_missing = 31
index_of insufficient_privilege = 32
index_of insufficient_storage = 33
index_of internal_error = 34
index_of invalid_index = 35
index_of invalid_json = 36
index_of invalid_object = 37
index_of invalid_uri = 38
index_of license_required = 39
index_of malformed_json = 40
index_of maximum_errors_exceeded = 41
index_of missing_or_malformed_part = 42
index_of network_name_resolution_not_configured = 43
index_of network_name_resolution_not_supported = 44
index_of no_operation = 45
index_of no_valid_session = 46
index_of operation_failed = 47
index_of operation_not_allowed = 48
index_of operation_timeout = 49
index_of password_change_required = 50
index_of payload_too_large = 51
index_of precondition_failed = 52
index_of precondition_required = 53
index_of property_deprecated = 54
index_of property_duplicate = 55
index_of property_missing = 56
index_of property_not_updated = 57
index_of property_not_writable = 58
index_of property_unknown = 59
index_of property_value_conflict = 60
index_of property_value_deprecated = 61
index_of property_value_error = 62
index_of property_value_external_conflict = 63
index_of property_value_format_error = 64
index_of property_value_incorrect = 65
index_of property_value_modified = 66
index_of property_value_not_in_list = 67
index_of property_value_out_of_range = 68
index_of property_value_resource_conflict = 69
index_of property_value_type_error = 70
index_of query_combination_invalid = 71
index_of query_not_supported = 72
index_of query_not_supported_on_operation = 73
index_of query_not_supported_on_resource = 74
index_of query_parameter_out_of_range = 75
index_of query_parameter_unsupported = 76
index_of query_parameter_value_error = 77
index_of query_parameter_value_format_error = 78
index_of query_parameter_value_type_error = 79
index_of reset_recommended = 80
index_of reset_required = 81
index_of resource_already_exists = 82
index_of resource_at_uri_in_unknown_format = 83
index_of resource_at_uri_unauthorized = 84
index_of resource_cannot_be_deleted = 85
index_of resource_creation_conflict = 86
index_of resource_deprecated = 87
index_of resource_exhaustion = 88
index_of resource_in_standby = 89
index_of resource_in_use = 90
index_of resource_missing_at_uri = 91
index_of resource_not_found = 92
index_of resource_type_incompatible = 93
index_of restricted_privilege = 94
index_of restricted_role = 95
index_of service_disabled = 96
index_of service_in_unknown_state = 97
index_of service_shutting_down = 98
index_of service_temporarily_unavailable = 99
index_of session_limit_exceeded = 100
index_of session_terminated = 101
index_of source_does_not_support_protocol = 102
index_of strict_account_types = 103
index_of string_value_too_long = 104
index_of string_value_too_short = 105
index_of subscription_terminated = 106
index_of success = 107
index_of undetermined_fault = 108
index_of unrecognized_request_body = 109
