-- ===== src/Errors/Logs/Calls/Services.antt =====
-- redfish_event/src/error_messages.cpp: the calls for messages about services, sessions and accounts beside the entries of the registry.
use crow_core.Common.{ℕ, ℤ, Bytes, List, [], ◌∷◌, All, refl}
use crow_core.Json.{Json}
use crow_core.Errors.Registry.{Index, index_of, registry}
use crow_core.Errors.Filled.{entry_of}
use crow_core.Errors.Logs.Sending.{Dump}
use crow_core.Errors.Logs.Calls.{Call, IsFilled, All-IsFilled}
use crow_core.Errors.Logs.Services.{
  internal_error, service_temporarily_unavailable, account_for_session_no_longer_exists,
  service_disabled, service_in_unknown_state, event_subscription_limit_exceeded, session_terminated,
  subscription_terminated, service_shutting_down, strict_account_types, account_removed,
  access_denied, general_error, no_valid_session, session_limit_exceeded, insufficient_privilege,
  account_not_modified, account_modified, password_change_required,
}

module _ (dump : Dump) (j : Json) (s t u : Bytes) (i : ℤ) (n : ℕ) where
  abbrev pub services_calls : List Call
  services_calls =
      (Index.internal_error, [], internal_error)
      ∷ (Index.service_temporarily_unavailable, s ∷ [], service_temporarily_unavailable s)
      ∷ (Index.account_for_session_no_longer_exists, [], account_for_session_no_longer_exists)
      ∷ (Index.service_disabled, s ∷ [], service_disabled s)
      ∷ (Index.service_in_unknown_state, [], service_in_unknown_state)
      ∷ (Index.event_subscription_limit_exceeded, [], event_subscription_limit_exceeded)
      ∷ (Index.session_terminated, [], session_terminated)
      ∷ (Index.subscription_terminated, [], subscription_terminated)
      ∷ (Index.service_shutting_down, [], service_shutting_down)
      ∷ (Index.strict_account_types, s ∷ [], strict_account_types s)
      ∷ (Index.account_removed, [], account_removed)
      ∷ (Index.access_denied, s ∷ [], access_denied s)
      ∷ (Index.general_error, [], general_error)
      ∷ (Index.no_valid_session, [], no_valid_session)
      ∷ (Index.session_limit_exceeded, [], session_limit_exceeded)
      ∷ (Index.insufficient_privilege, [], insufficient_privilege)
      ∷ (Index.account_not_modified, [], account_not_modified)
      ∷ (Index.account_modified, [], account_modified)
      ∷ (Index.password_change_required, s ∷ [], password_change_required s)
      ∷ []

  pub services_calls-IsFilled : All IsFilled services_calls
  unfolding entry_of registry index_of internal_error service_temporarily_unavailable
      account_for_session_no_longer_exists service_disabled service_in_unknown_state
      event_subscription_limit_exceeded session_terminated subscription_terminated
      service_shutting_down strict_account_types account_removed access_denied general_error
      no_valid_session session_limit_exceeded insufficient_privilege account_not_modified
      account_modified password_change_required
  services_calls-IsFilled = All-IsFilled services_calls (
    (refl, refl),
    (
      (refl, refl),
      (
        (refl, refl),
        (
          (refl, refl),
          (
            (refl, refl),
            (
              (refl, refl),
              (
                (refl, refl),
                (
                  (refl, refl),
                  (
                    (refl, refl),
                    (
                      (refl, refl),
                      (
                        (refl, refl),
                        (
                          (refl, refl),
                          (
                            (refl, refl),
                            (
                              (refl, refl),
                              (
                                (refl, refl),
                                ((refl, refl), ((refl, refl), ((refl, refl), ((refl, refl), tt)))),
                              ),
                            ),
                          ),
                        ),
                      ),
                    ),
                  ),
                ),
              ),
            ),
          ),
        ),
      ),
    ),
  )
