-- ===== src/Errors/Logs/Sent/Actions.antt =====
-- redfish_event/src/error_messages.cpp: the responses about actions and queries beside the places of their messages.
use crow_core.Common.{ℕ, ℤ, pos, Bytes, codes, List, [], ◌∷◌, All, none, ◌≡◌, refl}
use crow_core.Json.{Json, object, Members, find_member}
use crow_core.Response.{Response, result}
use crow_core.Errors.Registry.{Index}
use crow_core.Errors.Logs.Sending.{Dump, bad_request}
use crow_core.Errors.Logs.Sent.{Post, error_place, add_at, IsSent, All-IsSent}
use crow_core.Errors.Logs.Actions.{
  action_parameter_value_format_error, action_parameter_value_format_error_response,
  action_parameter_value_not_in_list, action_parameter_value_not_in_list_response,
  action_parameter_unknown, action_parameter_unknown_response, action_parameter_missing,
  action_parameter_missing_response, query_parameter_value_type_error,
  query_parameter_value_type_error_response, action_parameter_duplicate,
  action_parameter_duplicate_response, action_parameter_not_supported,
  action_parameter_not_supported_response, query_not_supported, query_not_supported_response,
  action_parameter_value_type_error, action_parameter_value_type_error_response,
  action_not_supported, action_not_supported_response, query_not_supported_on_resource,
  query_not_supported_on_resource_response, query_not_supported_on_operation,
  query_not_supported_on_operation_response, query_combination_invalid,
  query_combination_invalid_response, query_parameter_value_format_error,
  query_parameter_value_format_error_response, query_parameter_out_of_range,
  query_parameter_out_of_range_response,
}

module _ (dump : Dump) (j : Json) (s t u : Bytes) (i : ℤ) (n : ℕ) (ms : Members) where
  abbrev pub actions_posts : Response → List Post
  actions_posts start =
      (
        error_place,
        result bad_request start,
        action_parameter_value_format_error dump j s t,
        action_parameter_value_format_error_response dump j s t start,
      )
      ∷ (
        error_place,
        result bad_request start,
        action_parameter_value_not_in_list s t u,
        action_parameter_value_not_in_list_response s t u start,
      )
      ∷ (
        error_place,
        result bad_request start,
        action_parameter_unknown s t,
        action_parameter_unknown_response s t start,
      )
      ∷ (
        error_place,
        result bad_request start,
        action_parameter_missing s t,
        action_parameter_missing_response s t start,
      )
      ∷ (
        error_place,
        result bad_request start,
        query_parameter_value_type_error dump j s,
        query_parameter_value_type_error_response dump j s start,
      )
      ∷ (
        error_place,
        result bad_request start,
        action_parameter_duplicate s t,
        action_parameter_duplicate_response s t start,
      )
      ∷ (
        error_place,
        result bad_request start,
        action_parameter_not_supported s t,
        action_parameter_not_supported_response s t start,
      )
      ∷ (
        error_place,
        result bad_request start,
        query_not_supported,
        query_not_supported_response start,
      )
      ∷ (
        error_place,
        result bad_request start,
        action_parameter_value_type_error dump j s t,
        action_parameter_value_type_error_response dump j s t start,
      )
      ∷ (
        error_place,
        result bad_request start,
        action_not_supported s,
        action_not_supported_response s start,
      )
      ∷ (
        error_place,
        result bad_request start,
        query_not_supported_on_resource,
        query_not_supported_on_resource_response start,
      )
      ∷ (
        error_place,
        result bad_request start,
        query_not_supported_on_operation,
        query_not_supported_on_operation_response start,
      )
      ∷ (
        error_place,
        result bad_request start,
        query_combination_invalid,
        query_combination_invalid_response start,
      )
      ∷ (
        error_place,
        result bad_request start,
        query_parameter_value_format_error dump j s,
        query_parameter_value_format_error_response dump j s start,
      )
      ∷ (
        error_place,
        result bad_request start,
        query_parameter_out_of_range s t u,
        query_parameter_out_of_range_response s t u start,
      )
      ∷ []

  pub actions_posts-IsSent :
      (res : Response)
      → find_member (codes "error") ms ≡ none
      → All (IsSent ms) (actions_posts (record res { json_value = object ms }))
  unfolding add_at action_parameter_value_format_error action_parameter_value_format_error_response
      action_parameter_value_not_in_list action_parameter_value_not_in_list_response
      action_parameter_unknown action_parameter_unknown_response action_parameter_missing
      action_parameter_missing_response query_parameter_value_type_error
      query_parameter_value_type_error_response action_parameter_duplicate
      action_parameter_duplicate_response action_parameter_not_supported
      action_parameter_not_supported_response query_not_supported query_not_supported_response
      action_parameter_value_type_error action_parameter_value_type_error_response
      action_not_supported action_not_supported_response query_not_supported_on_resource
      query_not_supported_on_resource_response query_not_supported_on_operation
      query_not_supported_on_operation_response query_combination_invalid
      query_combination_invalid_response query_parameter_value_format_error
      query_parameter_value_format_error_response query_parameter_out_of_range
      query_parameter_out_of_range_response
  actions_posts-IsSent res absent =
      All-IsSent ms (actions_posts (record res { json_value = object ms })) absent (
        (
          (Index.action_parameter_value_format_error, dump (pos 2) j ∷ s ∷ t ∷ [], refl),
          refl,
          refl,
        ),
        (
          ((Index.action_parameter_value_not_in_list, s ∷ t ∷ u ∷ [], refl), refl, refl),
          (
            ((Index.action_parameter_unknown, s ∷ t ∷ [], refl), refl, refl),
            (
              ((Index.action_parameter_missing, s ∷ t ∷ [], refl), refl, refl),
              (
                (
                  (Index.query_parameter_value_type_error, dump (pos 2) j ∷ s ∷ [], refl),
                  refl,
                  refl,
                ),
                (
                  ((Index.action_parameter_duplicate, s ∷ t ∷ [], refl), refl, refl),
                  (
                    ((Index.action_parameter_not_supported, s ∷ t ∷ [], refl), refl, refl),
                    (
                      ((Index.query_not_supported, [], refl), refl, refl),
                      (
                        (
                          (
                            Index.action_parameter_value_type_error,
                            dump (pos 2) j ∷ s ∷ t ∷ [],
                            refl,
                          ),
                          refl,
                          refl,
                        ),
                        (
                          ((Index.action_not_supported, s ∷ [], refl), refl, refl),
                          (
                            ((Index.query_not_supported_on_resource, [], refl), refl, refl),
                            (
                              ((Index.query_not_supported_on_operation, [], refl), refl, refl),
                              (
                                ((Index.query_combination_invalid, [], refl), refl, refl),
                                (
                                  (
                                    (
                                      Index.query_parameter_value_format_error,
                                      dump (pos 2) j ∷ s ∷ [],
                                      refl,
                                    ),
                                    refl,
                                    refl,
                                  ),
                                  (
                                    (
                                      (Index.query_parameter_out_of_range, s ∷ t ∷ u ∷ [], refl),
                                      refl,
                                      refl,
                                    ),
                                    tt,
                                  ),
                                ),
                              ),
                            ),
                          ),
                        ),
                      ),
                    ),
                  ),
                ),
              ),
            ),
          ),
        ),
      )
