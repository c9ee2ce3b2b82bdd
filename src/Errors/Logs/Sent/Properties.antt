-- ===== src/Errors/Logs/Sent/Properties.antt =====
-- redfish_event/src/error_messages.cpp: the responses about properties and request bodies beside the places of their messages.
use crow_core.Common.{
  to_string, to_string_unsigned, ℕ, ℤ, pos, negsuc, Bytes, codes, List, [], ◌∷◌, All, none, ◌≡◌,
  refl,
}
use crow_core.Json.{Json, object, Members, find_member}
use crow_core.Response.{Response, result}
use crow_core.Errors.Registry.{Index}
use crow_core.Errors.Logs.Sending.{Dump, bad_request, conflict, forbidden, ok}
use crow_core.Errors.Logs.Sent.{Post, error_place, field_place, add_at, IsSent, All-IsSent}
use crow_core.Errors.Logs.Properties.{
  malformed_json, malformed_json_response, unrecognized_request_body,
  unrecognized_request_body_response, property_duplicate, property_duplicate_response,
  create_failed_missing_req_properties, create_failed_missing_req_properties_response,
  property_value_format_error, property_value_format_error_response, property_value_not_in_list,
  property_value_not_in_list_response, property_value_out_of_range,
  property_value_out_of_range_response, string_value_too_long, string_value_too_long_response,
  property_value_conflict, property_value_conflict_response, property_value_resource_conflict,
  property_value_resource_conflict_response, property_value_external_conflict,
  property_value_external_conflict_response, property_value_incorrect,
  property_value_incorrect_response, property_value_type_error, property_value_type_error_response,
  property_not_writable, property_not_writable_response, property_unknown,
  property_unknown_response, invalid_object, invalid_object_response, invalid_index,
  invalid_index_response, empty_json, empty_json_response, property_value_modified,
  property_value_modified_response, property_missing, property_missing_response,
  array_size_too_long, array_size_too_long_response,
}

module _ (dump : Dump) (j : Json) (s t u : Bytes) (i : ℤ) (n : ℕ) (ms : Members) where
  abbrev pub properties_posts : Response → List Post
  properties_posts start =
      (error_place, result bad_request start, malformed_json, malformed_json_response start)
      ∷ (
        error_place,
        result bad_request start,
        unrecognized_request_body,
        unrecognized_request_body_response start,
      )
      ∷ (
        field_place s,
        result bad_request start,
        property_duplicate s,
        property_duplicate_response s start,
      )
      ∷ (
        field_place s,
        result bad_request start,
        create_failed_missing_req_properties s,
        create_failed_missing_req_properties_response s start,
      )
      ∷ (
        field_place s,
        result bad_request start,
        property_value_format_error dump j s,
        property_value_format_error_response dump j s start,
      )
      ∷ (
        field_place s,
        result bad_request start,
        property_value_not_in_list dump j s,
        property_value_not_in_list_response dump j s start,
      )
      ∷ (
        error_place,
        result bad_request start,
        property_value_out_of_range dump j s,
        property_value_out_of_range_response dump j s start,
      )
      ∷ (
        error_place,
        result bad_request start,
        string_value_too_long s i,
        string_value_too_long_response s i start,
      )
      ∷ (
        error_place,
        result bad_request start,
        property_value_conflict s t,
        property_value_conflict_response s t start,
      )
      ∷ (
        error_place,
        result conflict start,
        property_value_resource_conflict dump s j t,
        property_value_resource_conflict_response dump s j t start,
      )
      ∷ (
        error_place,
        result conflict start,
        property_value_external_conflict dump s j,
        property_value_external_conflict_response dump s j start,
      )
      ∷ (
        error_place,
        result bad_request start,
        property_value_incorrect dump j s,
        property_value_incorrect_response dump j s start,
      )
      ∷ (
        field_place s,
        result bad_request start,
        property_value_type_error dump j s,
        property_value_type_error_response dump j s start,
      )
      ∷ (
        field_place s,
        result forbidden start,
        property_not_writable s,
        property_not_writable_response s start,
      )
      ∷ (
        error_place,
        result bad_request start,
        property_unknown s,
        property_unknown_response s start,
      )
      ∷ (error_place, result bad_request start, invalid_object s, invalid_object_response s start)
      ∷ (error_place, result bad_request start, invalid_index i, invalid_index_response i start)
      ∷ (error_place, result bad_request start, empty_json, empty_json_response start)
      ∷ (
        field_place s,
        result ok start,
        property_value_modified dump s j,
        property_value_modified_response dump s j start,
      )
      ∷ (
        field_place s,
        result bad_request start,
        property_missing s,
        property_missing_response s start,
      )
      ∷ (
        error_place,
        result bad_request start,
        array_size_too_long s n,
        array_size_too_long_response s n start,
      )
      ∷ []

  pub properties_posts-IsSent :
      (res : Response)
      → find_member (codes "error") ms ≡ none
      → All (IsSent ms) (properties_posts (record res { json_value = object ms }))
  unfolding add_at malformed_json malformed_json_response unrecognized_request_body
      unrecognized_request_body_response property_duplicate property_duplicate_response
      create_failed_missing_req_properties create_failed_missing_req_properties_response
      property_value_format_error property_value_format_error_response property_value_not_in_list
      property_value_not_in_list_response property_value_out_of_range
      property_value_out_of_range_response string_value_too_long string_value_too_long_response
      property_value_conflict property_value_conflict_response property_value_resource_conflict
      property_value_resource_conflict_response property_value_external_conflict
      property_value_external_conflict_response property_value_incorrect
      property_value_incorrect_response property_value_type_error property_value_type_error_response
      property_not_writable property_not_writable_response property_unknown
      property_unknown_response invalid_object invalid_object_response invalid_index
      invalid_index_response empty_json empty_json_response property_value_modified
      property_value_modified_response property_missing property_missing_response
      array_size_too_long array_size_too_long_response
  properties_posts-IsSent res absent =
      All-IsSent ms (properties_posts (record res { json_value = object ms })) absent (
        ((Index.malformed_json, [], refl), refl, refl),
        (
          ((Index.unrecognized_request_body, [], refl), refl, refl),
          (
            ((Index.property_duplicate, s ∷ [], refl), refl, refl),
            (
              ((Index.create_failed_missing_req_properties, s ∷ [], refl), refl, refl),
              (
                ((Index.property_value_format_error, dump (pos 2) j ∷ s ∷ [], refl), refl, refl),
                (
                  (
                    (Index.property_value_not_in_list, dump (negsuc 0) j ∷ s ∷ [], refl),
                    refl,
                    refl,
                  ),
                  (
                    (
                      (Index.property_value_out_of_range, dump (pos 2) j ∷ s ∷ [], refl),
                      refl,
                      refl,
                    ),
                    (
                      ((Index.string_value_too_long, s ∷ to_string i ∷ [], refl), refl, refl),
                      (
                        ((Index.property_value_conflict, s ∷ t ∷ [], refl), refl, refl),
                        (
                          (
                            (
                              Index.property_value_resource_conflict,
                              s ∷ dump (pos 2) j ∷ t ∷ [],
                              refl,
                            ),
                            refl,
                            refl,
                          ),
                          (
                            (
                              (
                                Index.property_value_external_conflict,
                                s ∷ dump (pos 2) j ∷ [],
                                refl,
                              ),
                              refl,
                              refl,
                            ),
                            (
                              (
                                (Index.property_value_incorrect, dump (pos 2) j ∷ s ∷ [], refl),
                                refl,
                                refl,
                              ),
                              (
                                (
                                  (Index.property_value_type_error, dump (pos 2) j ∷ s ∷ [], refl),
                                  refl,
                                  refl,
                                ),
                                (
                                  ((Index.property_not_writable, s ∷ [], refl), refl, refl),
                                  (
                                    ((Index.property_unknown, s ∷ [], refl), refl, refl),
                                    (
                                      ((Index.invalid_object, s ∷ [], refl), refl, refl),
                                      (
                                        ((Index.invalid_index, to_string i ∷ [], refl), refl, refl),
                                        (
                                          ((Index.empty_json, [], refl), refl, refl),
                                          (
                                            (
                                              (
                                                Index.property_value_modified,
                                                s ∷ dump (pos 2) j ∷ [],
                                                refl,
                                              ),
                                              refl,
                                              refl,
                                            ),
                                            (
                                              ((Index.property_missing, s ∷ [], refl), refl, refl),
                                              (
                                                (
                                                  (
                                                    Index.array_size_too_long,
                                                    s ∷ to_string_unsigned n ∷ [],
                                                    refl,
                                                  ),
                                                  refl,
                                                  refl,
                                                ),
                                                tt,
                                              ),
                                            ),
                                          ),
                                        ),
                                      ),
                                    ),
                                  ),
                                ),
                              ),
                            ),
                          ),
                        ),
                      ),
                    ),
                  ),
                ),
              ),
            ),
          ),
        ),
      )
