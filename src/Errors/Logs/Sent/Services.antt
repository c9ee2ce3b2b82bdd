-- ===== src/Errors/Logs/Sent/Services.antt =====
-- redfish_event/src/error_messages.cpp: the responses about services, sessions and accounts beside the places of their messages.
use crow_core.Common.{ℕ, ℤ, Bytes, codes, List, [], ◌∷◌, All, none, ◌≡◌, refl}
use crow_core.Json.{Json, object, Members, find_member}
use crow_core.Response.{Response, result, add_header}
use crow_core.Errors.Registry.{Index}
use crow_core.Errors.Logs.Sending.{
  Dump, bad_request, forbidden, internal_server_error, ok, service_unavailable,
}
use crow_core.Errors.Logs.Sent.{Post, error_place, root_place, add_at, IsSent, All-IsSent}
use crow_core.Errors.Logs.Services.{
  internal_error, internal_error_response, service_temporarily_unavailable,
  service_temporarily_unavailable_response, account_for_session_no_longer_exists,
  account_for_session_no_longer_exists_response, service_disabled, service_disabled_response,
  service_in_unknown_state, service_in_unknown_state_response, event_subscription_limit_exceeded,
  event_subscription_limit_exceeded_response, session_terminated, session_terminated_response,
  subscription_terminated, subscription_terminated_response, service_shutting_down,
  service_shutting_down_response, strict_account_types, strict_account_types_response,
  account_removed, account_removed_response, access_denied, access_denied_response, general_error,
  general_error_response, no_valid_session, no_valid_session_response, session_limit_exceeded,
  session_limit_exceeded_response, insufficient_privilege, insufficient_privilege_response,
  account_not_modified, account_not_modified_response, account_modified, account_modified_response,
  password_change_required, password_change_required_response,
}

module _ (dump : Dump) (j : Json) (s t u : Bytes) (i : ℤ) (n : ℕ) (ms : Members) where
  abbrev pub services_posts : Response → List Post
  services_posts start =
      (
        error_place,
        result internal_server_error start,
        internal_error,
        internal_error_response start,
      )
      ∷ (
        error_place,
        result service_unavailable (add_header (codes "Retry-After") s start),
        service_temporarily_unavailable s,
        service_temporarily_unavailable_response s start,
      )
      ∷ (
        error_place,
        result forbidden start,
        account_for_session_no_longer_exists,
        account_for_session_no_longer_exists_response start,
      )
      ∷ (
        error_place,
        result service_unavailable start,
        service_disabled s,
        service_disabled_response s start,
      )
      ∷ (
        error_place,
        result service_unavailable start,
        service_in_unknown_state,
        service_in_unknown_state_response start,
      )
      ∷ (
        error_place,
        result service_unavailable start,
        event_subscription_limit_exceeded,
        event_subscription_limit_exceeded_response start,
      )
      ∷ (root_place, result ok start, session_terminated, session_terminated_response start)
      ∷ (
        root_place,
        result ok start,
        subscription_terminated,
        subscription_terminated_response start,
      )
      ∷ (
        error_place,
        result service_unavailable start,
        service_shutting_down,
        service_shutting_down_response start,
      )
      ∷ (
        error_place,
        result bad_request start,
        strict_account_types s,
        strict_account_types_response s start,
      )
      ∷ (root_place, result ok start, account_removed, account_removed_response start)
      ∷ (error_place, result forbidden start, access_denied s, access_denied_response s start)
      ∷ (
        error_place,
        result internal_server_error start,
        general_error,
        general_error_response start,
      )
      ∷ (error_place, result forbidden start, no_valid_session, no_valid_session_response start)
      ∷ (
        error_place,
        result service_unavailable start,
        session_limit_exceeded,
        session_limit_exceeded_response start,
      )
      ∷ (
        error_place,
        result forbidden start,
        insufficient_privilege,
        insufficient_privilege_response start,
      )
      ∷ (
        error_place,
        result bad_request start,
        account_not_modified,
        account_not_modified_response start,
      )
      ∷ (error_place, result ok start, account_modified, account_modified_response start)
      ∷ (root_place, start, password_change_required s, password_change_required_response s start)
      ∷ []

  pub services_posts-IsSent :
      (res : Response)
      → find_member (codes "error") ms ≡ none
      → All (IsSent ms) (services_posts (record res { json_value = object ms }))
  unfolding add_at internal_error internal_error_response service_temporarily_unavailable
      service_temporarily_unavailable_response account_for_session_no_longer_exists
      account_for_session_no_longer_exists_response service_disabled service_disabled_response
      service_in_unknown_state service_in_unknown_state_response event_subscription_limit_exceeded
      event_subscription_limit_exceeded_response session_terminated session_terminated_response
      subscription_terminated subscription_terminated_response service_shutting_down
      service_shutting_down_response strict_account_types strict_account_types_response
      account_removed account_removed_response access_denied access_denied_response general_error
      general_error_response no_valid_session no_valid_session_response session_limit_exceeded
      session_limit_exceeded_response insufficient_privilege insufficient_privilege_response
      account_not_modified account_not_modified_response account_modified account_modified_response
      password_change_required password_change_required_response
  services_posts-IsSent res absent =
      All-IsSent ms (services_posts (record res { json_value = object ms })) absent (
        ((Index.internal_error, [], refl), refl, refl),
        (
          ((Index.service_temporarily_unavailable, s ∷ [], refl), refl, refl),
          (
            ((Index.account_for_session_no_longer_exists, [], refl), refl, refl),
            (
              ((Index.service_disabled, s ∷ [], refl), refl, refl),
              (
                ((Index.service_in_unknown_state, [], refl), refl, refl),
                (
                  ((Index.event_subscription_limit_exceeded, [], refl), refl, refl),
                  (
                    ((Index.session_terminated, [], refl), refl, refl),
                    (
                      ((Index.subscription_terminated, [], refl), refl, refl),
                      (
                        ((Index.service_shutting_down, [], refl), refl, refl),
                        (
                          ((Index.strict_account_types, s ∷ [], refl), refl, refl),
                          (
                            ((Index.account_removed, [], refl), refl, refl),
                            (
                              ((Index.access_denied, s ∷ [], refl), refl, refl),
                              (
                                ((Index.general_error, [], refl), refl, refl),
                                (
                                  ((Index.no_valid_session, [], refl), refl, refl),
                                  (
                                    ((Index.session_limit_exceeded, [], refl), refl, refl),
                                    (
                                      ((Index.insufficient_privilege, [], refl), refl, refl),
                                      (
                                        ((Index.account_not_modified, [], refl), refl, refl),
                                        (
                                          ((Index.account_modified, [], refl), refl, refl),
                                          (
                                            (
                                              (Index.password_change_required, s ∷ [], refl),
                                              refl,
                                              refl,
                                            ),
                                            tt,
                                          ),
                                        ),
                                      ),
                                    ),
                                  ),
                                ),
                              ),
                            ),
                          ),
                        ),
                      ),
                    ),
                  ),
                ),
              ),
            ),
          ),
        ),
      )
