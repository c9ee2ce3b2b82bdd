-- ===== src/Errors/Logs/Sent/Resources.antt =====
-- redfish_event/src/error_messages.cpp: the responses about resources and operations beside the places of their messages.
use crow_core.Common.{ℕ, ℤ, Bytes, codes, List, [], ◌∷◌, All, none, ◌≡◌, refl}
use crow_core.Json.{Json, object, Members, find_member}
use crow_core.Response.{Response, result}
use crow_core.Errors.Registry.{Index}
use crow_core.Errors.Logs.Sending.{
  Dump, bad_gateway, bad_request, created_status, insufficient_storage_status,
  internal_server_error, method_not_allowed, not_found, precondition_failed_status,
  service_unavailable, unauthorized,
}
use crow_core.Errors.Logs.Sent.{
  Post, error_place, root_place, field_place, add_at, IsSent, All-IsSent,
}
use crow_core.Errors.Logs.Resources.{
  resource_in_use, resource_in_use_response, resource_missing_at_uri,
  resource_missing_at_uri_response, resource_at_uri_unauthorized,
  resource_at_uri_unauthorized_response, resource_cannot_be_deleted,
  resource_cannot_be_deleted_response, resource_already_exists, resource_already_exists_response,
  resource_at_uri_in_unknown_format, resource_at_uri_in_unknown_format_response,
  resource_type_incompatible, resource_type_incompatible_response, reset_required,
  reset_required_response, chassis_power_state_on_required,
  chassis_power_state_on_required_response, chassis_power_state_off_required,
  chassis_power_state_off_required_response, resource_creation_conflict,
  resource_creation_conflict_response, maximum_errors_exceeded, maximum_errors_exceeded_response,
  precondition_failed, precondition_failed_response, precondition_required,
  precondition_required_response, operation_failed, operation_failed_response, operation_timeout,
  operation_timeout_response, resource_not_found, resource_not_found_response,
  could_not_establish_connection, could_not_establish_connection_response,
  source_does_not_support_protocol, source_does_not_support_protocol_response,
  create_limit_reached_for_resource, create_limit_reached_for_resource_response, success,
  success_response, created, created_response, no_operation, no_operation_response,
  resource_in_standby, resource_in_standby_response, resource_exhaustion,
  resource_exhaustion_response, insufficient_storage, insufficient_storage_response,
  operation_not_allowed, operation_not_allowed_response,
}

module _ (dump : Dump) (j : Json) (s t u : Bytes) (i : ℤ) (n : ℕ) (ms : Members) where
  abbrev pub resources_posts : Response → List Post
  resources_posts start =
      (
        error_place,
        result service_unavailable start,
        resource_in_use,
        resource_in_use_response start,
      )
      ∷ (
        error_place,
        result bad_request start,
        resource_missing_at_uri s,
        resource_missing_at_uri_response s start,
      )
      ∷ (
        error_place,
        result unauthorized start,
        resource_at_uri_unauthorized s t,
        resource_at_uri_unauthorized_response s t start,
      )
      ∷ (
        error_place,
        result method_not_allowed start,
        resource_cannot_be_deleted,
        resource_cannot_be_deleted_response start,
      )
      ∷ (
        field_place t,
        result bad_request start,
        resource_already_exists s t u,
        resource_already_exists_response s t u start,
      )
      ∷ (
        error_place,
        result bad_request start,
        resource_at_uri_in_unknown_format s,
        resource_at_uri_in_unknown_format_response s start,
      )
      ∷ (
        error_place,
        result bad_request start,
        resource_type_incompatible s t,
        resource_type_incompatible_response s t start,
      )
      ∷ (
        error_place,
        result bad_request start,
        reset_required s t,
        reset_required_response s t start,
      )
      ∷ (
        error_place,
        result bad_request start,
        chassis_power_state_on_required s,
        chassis_power_state_on_required_response s start,
      )
      ∷ (
        error_place,
        result bad_request start,
        chassis_power_state_off_required s,
        chassis_power_state_off_required_response s start,
      )
      ∷ (
        error_place,
        result bad_request start,
        resource_creation_conflict s,
        resource_creation_conflict_response s start,
      )
      ∷ (
        error_place,
        result internal_server_error start,
        maximum_errors_exceeded,
        maximum_errors_exceeded_response start,
      )
      ∷ (
        error_place,
        result precondition_failed_status start,
        precondition_failed,
        precondition_failed_response start,
      )
      ∷ (
        error_place,
        result bad_request start,
        precondition_required,
        precondition_required_response start,
      )
      ∷ (error_place, result bad_gateway start, operation_failed, operation_failed_response start)
      ∷ (
        error_place,
        result internal_server_error start,
        operation_timeout,
        operation_timeout_response start,
      )
      ∷ (
        error_place,
        result not_found start,
        resource_not_found s t,
        resource_not_found_response s t start,
      )
      ∷ (
        error_place,
        result not_found start,
        could_not_establish_connection s,
        could_not_establish_connection_response s start,
      )
      ∷ (
        error_place,
        result bad_request start,
        source_does_not_support_protocol s t,
        source_does_not_support_protocol_response s t start,
      )
      ∷ (
        error_place,
        result bad_request start,
        create_limit_reached_for_resource,
        create_limit_reached_for_resource_response start,
      )
      ∷ (root_place, start, success, success_response start)
      ∷ (root_place, result created_status start, created, created_response start)
      ∷ (error_place, result bad_request start, no_operation, no_operation_response start)
      ∷ (
        error_place,
        result service_unavailable start,
        resource_in_standby,
        resource_in_standby_response start,
      )
      ∷ (
        error_place,
        result service_unavailable start,
        resource_exhaustion s,
        resource_exhaustion_response s start,
      )
      ∷ (
        error_place,
        result insufficient_storage_status start,
        insufficient_storage,
        insufficient_storage_response start,
      )
      ∷ (
        error_place,
        result method_not_allowed start,
        operation_not_allowed,
        operation_not_allowed_response start,
      )
      ∷ []

  pub resources_posts-IsSent :
      (res : Response)
      → find_member (codes "error") ms ≡ none
      → All (IsSent ms) (resources_posts (record res { json_value = object ms }))
  unfolding add_at resource_in_use resource_in_use_response resource_missing_at_uri
      resource_missing_at_uri_response resource_at_uri_unauthorized
      resource_at_uri_unauthorized_response resource_cannot_be_deleted
      resource_cannot_be_deleted_response resource_already_exists resource_already_exists_response
      resource_at_uri_in_unknown_format resource_at_uri_in_unknown_format_response
      resource_type_incompatible resource_type_incompatible_response reset_required
      reset_required_response chassis_power_state_on_required
      chassis_power_state_on_required_response chassis_power_state_off_required
      chassis_power_state_off_required_response resource_creation_conflict
      resource_creation_conflict_response maximum_errors_exceeded maximum_errors_exceeded_response
      precondition_failed precondition_failed_response precondition_required
      precondition_required_response operation_failed operation_failed_response operation_timeout
      operation_timeout_response resource_not_found resource_not_found_response
      could_not_establish_connection could_not_establish_connection_response
      source_does_not_support_protocol source_does_not_support_protocol_response
      create_limit_reached_for_resource create_limit_reached_for_resource_response success
      success_response created created_response no_operation no_operation_response
      resource_in_standby resource_in_standby_response resource_exhaustion
      resource_exhaustion_response insufficient_storage insufficient_storage_response
      operation_not_allowed operation_not_allowed_response
  resources_posts-IsSent res absent =
      All-IsSent ms (resources_posts (record res { json_value = object ms })) absent (
        ((Index.resource_in_use, [], refl), refl, refl),
        (
          ((Index.resource_missing_at_uri, s ∷ [], refl), refl, refl),
          (
            ((Index.resource_at_uri_unauthorized, s ∷ t ∷ [], refl), refl, refl),
            (
              ((Index.resource_cannot_be_deleted, [], refl), refl, refl),
              (
                ((Index.resource_already_exists, s ∷ t ∷ u ∷ [], refl), refl, refl),
                (
                  ((Index.resource_at_uri_in_unknown_format, s ∷ [], refl), refl, refl),
                  (
                    ((Index.resource_type_incompatible, s ∷ t ∷ [], refl), refl, refl),
                    (
                      ((Index.reset_required, s ∷ t ∷ [], refl), refl, refl),
                      (
                        ((Index.reset_required, s ∷ [], refl), refl, refl),
                        (
                          ((Index.chassis_power_state_off_required, s ∷ [], refl), refl, refl),
                          (
                            ((Index.resource_creation_conflict, s ∷ [], refl), refl, refl),
                            (
                              ((Index.maximum_errors_exceeded, [], refl), refl, refl),
                              (
                                ((Index.precondition_failed, [], refl), refl, refl),
                                (
                                  ((Index.precondition_required, [], refl), refl, refl),
                                  (
                                    ((Index.operation_failed, [], refl), refl, refl),
                                    (
                                      ((Index.operation_timeout, [], refl), refl, refl),
                                      (
                                        ((Index.resource_not_found, s ∷ t ∷ [], refl), refl, refl),
                                        (
                                          (
                                            (Index.could_not_establish_connection, s ∷ [], refl),
                                            refl,
                                            refl,
                                          ),
                                          (
                                            (
                                              (
                                                Index.source_does_not_support_protocol,
                                                s ∷ t ∷ [],
                                                refl,
                                              ),
                                              refl,
                                              refl,
                                            ),
                                            (
                                              (
                                                (Index.create_limit_reached_for_resource, [], refl),
                                                refl,
                                                refl,
                                              ),
                                              (
                                                ((Index.success, [], refl), refl, refl),
                                                (
                                                  ((Index.created, [], refl), refl, refl),
                                                  (
                                                    ((Index.no_operation, [], refl), refl, refl),
                                                    (
                                                      (
                                                        (Index.resource_in_standby, [], refl),
                                                        refl,
                                                        refl,
                                                      ),
                                                      (
                                                        (
                                                          (Index.resource_exhaustion, s ∷ [], refl),
                                                          refl,
                                                          refl,
                                                        ),
                                                        (
                                                          (
                                                            (Index.insufficient_storage, [], refl),
                                                            refl,
                                                            refl,
                                                          ),
                                                          (
                                                            (
                                                            (Index.operation_not_allowed, [], refl),
                                                            refl,
                                                            refl,
                                                            ),
                                                            tt,
                                                          ),
                                                        ),
                                                      ),
                                                    ),
                                                  ),
                                                ),
                                              ),
                                            ),
                                          ),
                                        ),
                                      ),
                                    ),
                                  ),
                                ),
                              ),
                            ),
                          ),
                        ),
                      ),
                    ),
                  ),
                ),
              ),
            ),
          ),
        ),
      )
