-- ===== src/Errors/Logs/Calls/Properties.antt =====
-- redfish_event/src/error_messages.cpp: the calls for messages about properties and request bodies beside the entries of the registry.
use crow_core.Common.{
  to_string, to_string_unsigned, ℕ, ℤ, pos, negsuc, Bytes, List, [], ◌∷◌, All, refl,
}
use crow_core.Json.{Json}
use crow_core.Errors.Registry.{Index, index_of, registry}
use crow_core.Errors.Filled.{entry_of}
use crow_core.Errors.Logs.Sending.{Dump}
use crow_core.Errors.Logs.Calls.{Call, IsFilled, All-IsFilled}
use crow_core.Errors.Logs.Properties.{
  malformed_json, unrecognized_request_body, property_duplicate,
  create_failed_missing_req_properties, property_value_format_error, property_value_not_in_list,
  property_value_out_of_range, string_value_too_long, property_value_conflict,
  property_value_resource_conflict, property_value_external_conflict, property_value_incorrect,
  property_value_type_error, property_not_writable, property_unknown, invalid_object, invalid_index,
  empty_json, property_value_modified, property_missing, array_size_too_long,
}

module _ (dump : Dump) (j : Json) (s t u : Bytes) (i : ℤ) (n : ℕ) where
  abbrev pub properties_calls : List Call
  properties_calls =
      (Index.malformed_json, [], malformed_json)
      ∷ (Index.unrecognized_request_body, [], unrecognized_request_body)
      ∷ (Index.property_duplicate, s ∷ [], property_duplicate s)
      ∷ (Index.create_failed_missing_req_properties, s ∷ [], create_failed_missing_req_properties s)
      ∷ (
        Index.property_value_format_error,
        dump (pos 2) j ∷ s ∷ [],
        property_value_format_error dump j s,
      )
      ∷ (
        Index.property_value_not_in_list,
        dump (negsuc 0) j ∷ s ∷ [],
        property_value_not_in_list dump j s,
      )
      ∷ (
        Index.property_value_out_of_range,
        dump (pos 2) j ∷ s ∷ [],
        property_value_out_of_range dump j s,
      )
      ∷ (Index.string_value_too_long, s ∷ to_string i ∷ [], string_value_too_long s i)
      ∷ (Index.property_value_conflict, s ∷ t ∷ [], property_value_conflict s t)
      ∷ (
        Index.property_value_resource_conflict,
        s ∷ dump (pos 2) j ∷ t ∷ [],
        property_value_resource_conflict dump s j t,
      )
      ∷ (
        Index.property_value_external_conflict,
        s ∷ dump (pos 2) j ∷ [],
        property_value_external_conflict dump s j,
      )
      ∷ (Index.property_value_incorrect, dump (pos 2) j ∷ s ∷ [], property_value_incorrect dump j s)
      ∷ (
        Index.property_value_type_error,
        dump (pos 2) j ∷ s ∷ [],
        property_value_type_error dump j s,
      )
      ∷ (Index.property_not_writable, s ∷ [], property_not_writable s)
      ∷ (Index.property_unknown, s ∷ [], property_unknown s)
      ∷ (Index.invalid_object, s ∷ [], invalid_object s)
      ∷ (Index.invalid_index, to_string i ∷ [], invalid_index i)
      ∷ (Index.empty_json, [], empty_json)
      ∷ (Index.property_value_modified, s ∷ dump (pos 2) j ∷ [], property_value_modified dump s j)
      ∷ (Index.property_missing, s ∷ [], property_missing s)
      ∷ (Index.array_size_too_long, s ∷ to_string_unsigned n ∷ [], array_size_too_long s n)
      ∷ []

  pub properties_calls-IsFilled : All IsFilled properties_calls
  unfolding entry_of registry index_of malformed_json unrecognized_request_body property_duplicate
      create_failed_missing_req_properties property_value_format_error property_value_not_in_list
      property_value_out_of_range string_value_too_long property_value_conflict
      property_value_resource_conflict property_value_external_conflict property_value_incorrect
      property_value_type_error property_not_writable property_unknown invalid_object invalid_index
      empty_json property_value_modified property_missing array_size_too_long
  properties_calls-IsFilled = All-IsFilled properties_calls (
    (refl, refl),
    (
      (refl, refl),
      (
        (refl, refl),
        (
          (refl, refl),
          (
            (refl, refl),
            (
              (refl, refl),
              (
                (refl, refl),
                (
                  (refl, refl),
                  (
                    (refl, refl),
                    (
                      (refl, refl),
                      (
                        (refl, refl),
                        (
                          (refl, refl),
                          (
                            (refl, refl),
                            (
                              (refl, refl),
                              (
                                (refl, refl),
                                (
                                  (refl, refl),
                                  (
                                    (refl, refl),
                                    (
                                      (refl, refl),
                                      ((refl, refl), ((refl, refl), ((refl, refl), tt))),
                                    ),
                                  ),
                                ),
                              ),
                            ),
                          ),
                        ),
                      ),
                    ),
                  ),
                ),
              ),
            ),
          ),
        ),
      ),
    ),
  )
