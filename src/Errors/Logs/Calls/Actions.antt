-- ===== src/Errors/Logs/Calls/Actions.antt =====
-- redfish_event/src/error_messages.cpp: the calls for messages about actions and queries beside the entries of the registry.
use crow_core.Common.{ℕ, ℤ, pos, Bytes, List, [], ◌∷◌, All, refl}
use crow_core.Json.{Json}
use crow_core.Errors.Registry.{Index, index_of, registry}
use crow_core.Errors.Filled.{entry_of}
use crow_core.Errors.Logs.Sending.{Dump}
use crow_core.Errors.Logs.Calls.{Call, IsFilled, All-IsFilled}
use crow_core.Errors.Logs.Actions.{
  action_parameter_value_format_error, action_parameter_value_not_in_list, action_parameter_unknown,
  action_parameter_missing, query_parameter_value_type_error, action_parameter_duplicate,
  action_parameter_not_supported, query_not_supported, action_parameter_value_type_error,
  action_not_supported, query_not_supported_on_resource, query_not_supported_on_operation,
  query_combination_invalid, query_parameter_value_format_error, query_parameter_out_of_range,
}

module _ (dump : Dump) (j : Json) (s t u : Bytes) (i : ℤ) (n : ℕ) where
  abbrev pub actions_calls : List Call
  actions_calls =
      (
        Index.action_parameter_value_format_error,
        dump (pos 2) j ∷ s ∷ t ∷ [],
        action_parameter_value_format_error dump j s t,
      )
      ∷ (
        Index.action_parameter_value_not_in_list,
        s ∷ t ∷ u ∷ [],
        action_parameter_value_not_in_list s t u,
      )
      ∷ (Index.action_parameter_unknown, s ∷ t ∷ [], action_parameter_unknown s t)
      ∷ (Index.action_parameter_missing, s ∷ t ∷ [], action_parameter_missing s t)
      ∷ (
        Index.query_parameter_value_type_error,
        dump (pos 2) j ∷ s ∷ [],
        query_parameter_value_type_error dump j s,
      )
      ∷ (Index.action_parameter_duplicate, s ∷ t ∷ [], action_parameter_duplicate s t)
      ∷ (Index.action_parameter_not_supported, s ∷ t ∷ [], action_parameter_not_supported s t)
      ∷ (Index.query_not_supported, [], query_not_supported)
      ∷ (
        Index.action_parameter_value_type_error,
        dump (pos 2) j ∷ s ∷ t ∷ [],
        action_parameter_value_type_error dump j s t,
      )
      ∷ (Index.action_not_supported, s ∷ [], action_not_supported s)
      ∷ (Index.query_not_supported_on_resource, [], query_not_supported_on_resource)
      ∷ (Index.query_not_supported_on_operation, [], query_not_supported_on_operation)
      ∷ (Index.query_combination_invalid, [], query_combination_invalid)
      ∷ (
        Index.query_parameter_value_format_error,
        dump (pos 2) j ∷ s ∷ [],
        query_parameter_value_format_error dump j s,
      )
      ∷ (Index.query_parameter_out_of_range, s ∷ t ∷ u ∷ [], query_parameter_out_of_range s t u)
      ∷ []

  pub actions_calls-IsFilled : All IsFilled actions_calls
  unfolding entry_of registry index_of action_parameter_value_format_error
      action_parameter_value_not_in_list action_parameter_unknown action_parameter_missing
      query_parameter_value_type_error action_parameter_duplicate action_parameter_not_supported
      query_not_supported action_parameter_value_type_error action_not_supported
      query_not_supported_on_resource query_not_supported_on_operation query_combination_invalid
      query_parameter_value_format_error query_parameter_out_of_range
  actions_calls-IsFilled = All-IsFilled actions_calls (
    (refl, refl),
    (
      (refl, refl),
      (
        (refl, refl),
        (
          (refl, refl),
          (
            (refl, refl),
            (
              (refl, refl),
              (
                (refl, refl),
                (
                  (refl, refl),
                  (
                    (refl, refl),
                    (
                      (refl, refl),
                      (
                        (refl, refl),
                        ((refl, refl), ((refl, refl), ((refl, refl), ((refl, refl), tt)))),
                      ),
                    ),
                  ),
                ),
              ),
            ),
          ),
        ),
      ),
    ),
  )
