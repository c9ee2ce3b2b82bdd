-- ===== src/Errors/Logs/Calls/Resources.antt =====
-- redfish_event/src/error_messages.cpp: the calls for messages about resources and operations beside the entries of the registry.
use crow_core.Common.{ℕ, ℤ, Bytes, List, [], ◌∷◌, All, refl}
use crow_core.Json.{Json}
use crow_core.Errors.Registry.{Index, index_of, registry}
use crow_core.Errors.Filled.{entry_of}
use crow_core.Errors.Logs.Sending.{Dump}
use crow_core.Errors.Logs.Calls.{Call, IsFilled, All-IsFilled}
use crow_core.Errors.Logs.Resources.{
  resource_in_use, resource_missing_at_uri, resource_at_uri_unauthorized,
  resource_cannot_be_deleted, resource_already_exists, resource_at_uri_in_unknown_format,
  resource_type_incompatible, reset_required, chassis_power_state_off_required,
  resource_creation_conflict, maximum_errors_exceeded, precondition_failed, precondition_required,
  operation_failed, operation_timeout, resource_not_found, could_not_establish_connection,
  source_does_not_support_protocol, create_limit_reached_for_resource, success, created,
  no_operation, resource_in_standby, resource_exhaustion, insufficient_storage,
  operation_not_allowed,
}

module _ (dump : Dump) (j : Json) (s t u : Bytes) (i : ℤ) (n : ℕ) where
  abbrev pub resources_calls : List Call
  resources_calls =
      (Index.resource_in_use, [], resource_in_use)
      ∷ (Index.resource_missing_at_uri, s ∷ [], resource_missing_at_uri s)
      ∷ (Index.resource_at_uri_unauthorized, s ∷ t ∷ [], resource_at_uri_unauthorized s t)
      ∷ (Index.resource_cannot_be_deleted, [], resource_cannot_be_deleted)
      ∷ (Index.resource_already_exists, s ∷ t ∷ u ∷ [], resource_already_exists s t u)
      ∷ (Index.resource_at_uri_in_unknown_format, s ∷ [], resource_at_uri_in_unknown_format s)
      ∷ (Index.resource_type_incompatible, s ∷ t ∷ [], resource_type_incompatible s t)
      ∷ (Index.reset_required, s ∷ t ∷ [], reset_required s t)
      ∷ (Index.chassis_power_state_off_required, s ∷ [], chassis_power_state_off_required s)
      ∷ (Index.resource_creation_conflict, s ∷ [], resource_creation_conflict s)
      ∷ (Index.maximum_errors_exceeded, [], maximum_errors_exceeded)
      ∷ (Index.precondition_failed, [], precondition_failed)
      ∷ (Index.precondition_required, [], precondition_required)
      ∷ (Index.operation_failed, [], operation_failed)
      ∷ (Index.operation_timeout, [], operation_timeout)
      ∷ (Index.resource_not_found, s ∷ t ∷ [], resource_not_found s t)
      ∷ (Index.could_not_establish_connection, s ∷ [], could_not_establish_connection s)
      ∷ (Index.source_does_not_support_protocol, s ∷ t ∷ [], source_does_not_support_protocol s t)
      ∷ (Index.create_limit_reached_for_resource, [], create_limit_reached_for_resource)
      ∷ (Index.success, [], success)
      ∷ (Index.created, [], created)
      ∷ (Index.no_operation, [], no_operation)
      ∷ (Index.resource_in_standby, [], resource_in_standby)
      ∷ (Index.resource_exhaustion, s ∷ [], resource_exhaustion s)
      ∷ (Index.insufficient_storage, [], insufficient_storage)
      ∷ (Index.operation_not_allowed, [], operation_not_allowed)
      ∷ []

  pub resources_calls-IsFilled : All IsFilled resources_calls
  unfolding entry_of registry index_of resource_in_use resource_missing_at_uri
      resource_at_uri_unauthorized resource_cannot_be_deleted resource_already_exists
      resource_at_uri_in_unknown_format resource_type_incompatible reset_required
      chassis_power_state_off_required resource_creation_conflict maximum_errors_exceeded
      precondition_failed precondition_required operation_failed operation_timeout
      resource_not_found could_not_establish_connection source_does_not_support_protocol
      create_limit_reached_for_resource success created no_operation resource_in_standby
      resource_exhaustion insufficient_storage operation_not_allowed
  resources_calls-IsFilled = All-IsFilled resources_calls (
    (refl, refl),
    (
      (refl, refl),
      (
        (refl, refl),
        (
          (refl, refl),
          (
            (refl, refl),
            (
              (refl, refl),
              (
                (refl, refl),
                (
                  (refl, refl),
                  (
                    (refl, refl),
                    (
                      (refl, refl),
                      (
                        (refl, refl),
                        (
                          (refl, refl),
                          (
                            (refl, refl),
                            (
                              (refl, refl),
                              (
                                (refl, refl),
                                (
                                  (refl, refl),
                                  (
                                    (refl, refl),
                                    (
                                      (refl, refl),
                                      (
                                        (refl, refl),
                                        (
                                          (refl, refl),
                                          (
                                            (refl, refl),
                                            (
                                              (refl, refl),
                                              (
                                                (refl, refl),
                                                ((refl, refl), ((refl, refl), ((refl, refl), tt))),
                                              ),
                                            ),
                                          ),
                                        ),
                                      ),
                                    ),
                                  ),
                                ),
                              ),
                            ),
                          ),
                        ),
                      ),
                    ),
                  ),
                ),
              ),
            ),
          ),
        ),
      ),
    ),
  )
