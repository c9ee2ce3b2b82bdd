-- ===== src/Persistence/Roundtrip.antt =====
-- http/persistent_data.hpp: what reading gives back of what was written.
use crow_core.Common.{
  ℕ, ◌<◌, ◌^◌, Bytes, ℤ, pos, negsuc, List, [], ◌∷◌, All, some, Bool, true, false, ltb, bytes_eq,
  ◌≡◌, refl, Option-cases, inl, inr, arith, ◌-◌,
}
use crow_core.Json.{Json, items_of, items, items_from, member_list, int64_ptr}
use crow_core.Sessions.{AuthConfigMethods, find_token, update_session_timeout, new_session_store}
use crow_core.Sessions.Restoring.{set_method, read_methods, auth_config_methods_from_json}
use crow_core.Sessions.Lookup.{IsValid}
use crow_core.Subscriptions.{
  EventServiceConfig, EventServiceStore, SetHeader, user_subscription_from_json,
  read_config_element, read_config, event_service_config_from_json, is_empty,
  new_event_service_store, new_event_service_config,
}
use crow_core.Persistence.{
  ConfigFile, read_subscriptions, read_item, read_items, read_data, auth_config_json,
  event_config_json, write_sessions, write_subscriptions, integer_json, write_data,
  emplace_subscribed,
}
use crow_core.Persistence.Restored.{HasFields, persisted, read_sessions-fields, find_token-restored}

auth_config_json-read :
    (c old : AuthConfigMethods) → auth_config_methods_from_json (auth_config_json c) old ≡ c
unfolding auth_config_methods_from_json read_methods set_method items member_list auth_config_json
    bytes_eq
auth_config_json-read c old = refl

event_config_json-read :
    (c old : EventServiceConfig)
    → c.retry_attempts < 2 ^ 32
    → c.retry_timeout_interval < 2 ^ 32
    → event_service_config_from_json (event_config_json c) old ≡ c
unfolding event_service_config_from_json read_config read_config_element items member_list
    event_config_json bytes_eq
event_config_json-read c old attempts interval =
    let fits : ltb (2 ^ 32 - 1) c.retry_attempts ≡ false = ground arith in
    let fits' : ltb (2 ^ 32 - 1) c.retry_timeout_interval ≡ false = ground arith in
    rw (fits, fits') refl

read_subscriptions-config :
    (set_header : SetHeader) (elems : List (Bytes × Json)) (store : EventServiceStore)
    → (read_subscriptions set_header elems store).event_service_config ≡ store.event_service_config
unfolding read_subscriptions
read_subscriptions-config set_header [] store = refl
read_subscriptions-config set_header ((key, elem) ∷ rest) store =
    elim (Option-cases (user_subscription_from_json set_header elem false)) [
      | inl refused ↦
          rw (refused, read_subscriptions) (read_subscriptions-config set_header rest store)
      | inr (sub, made) ↦
          rw (made, read_subscriptions)
            (read_subscriptions-config set_header rest (emplace_subscribed (some sub) store))
    ]

abbrev pub FitsInt64 : ℤ → Type 0
FitsInt64 (pos n) = n < 2 ^ 63
FitsInt64 (negsuc n) = n < 2 ^ 63

int64_ptr-integer_json : (i : ℤ) → FitsInt64 i → int64_ptr (integer_json i) ≡ some i
int64_ptr-integer_json (pos n) small =
    let fits : ltb n (2 ^ 63) ≡ true = ground arith in rw fits refl
int64_ptr-integer_json (negsuc n) small = refl

-- A program that has just started.
abbrev pub new_config_file : AuthConfigMethods → ConfigFile
unfolding new_session_store
new_config_file methods = record {
  system_uuid = [];
  sessions = new_session_store methods;
  events = new_event_service_store;
}

-- What the program reads at its start.
abbrev pub read_back : SetHeader → Bytes → ℕ → AuthConfigMethods → ConfigFile → ConfigFile × Bool
unfolding read_data
read_back set_header random_uuid now methods file =
    read_data set_header random_uuid now (some (write_data file)) (new_config_file methods)

-- A program that starts with the file that a program has written has that one's UUID, authentication methods, timeout
-- of the sessions and settings of the event service, and does not write the file at once. The sessions are those that
-- time out, under their tokens, used now, with the texts that they had; those of a single request are gone.
pub read_back-written :
    (set_header : SetHeader) (random_uuid : Bytes) (now : ℕ) (methods : AuthConfigMethods)
    (file : ConfigFile) (token : Bytes)
    → IsValid file.sessions.auth_tokens
    → All HasFields file.sessions.auth_tokens
    → FitsInt64 file.sessions.timeout_in_seconds
    → file.events.event_service_config.retry_attempts < 2 ^ 32
    → file.events.event_service_config.retry_timeout_interval < 2 ^ 32
    → is_empty file.system_uuid ≡ false
    → ((read_back set_header random_uuid now methods file).1 ≡ false)
      × ((read_back set_header random_uuid now methods file).0.system_uuid ≡ file.system_uuid)
      × ((read_back set_header random_uuid now methods file).0.sessions.auth_methods_config
          ≡ file.sessions.auth_methods_config)
      × ((read_back set_header random_uuid now methods file).0.sessions.timeout_in_seconds
          ≡ file.sessions.timeout_in_seconds)
      × ((read_back set_header random_uuid now methods file).0.events.event_service_config
          ≡ file.events.event_service_config)
      × (find_token token (read_back set_header random_uuid now methods file).0.sessions.auth_tokens
          ≡ persisted now (find_token token file.sessions.auth_tokens))
unfolding read_back new_config_file new_session_store read_data read_items read_item items
    member_list write_data bytes_eq update_session_timeout find_token
read_back-written set_header random_uuid now methods file token valid fields small attempts interval
      has_uuid =
    let c = file.sessions.auth_methods_config in
    let e = file.events.event_service_config in
    let start = record (new_session_store methods) { auth_methods_config = c } in
    let events = record new_event_service_store { event_service_config = e } in
    let elems = items_from 0 (items_of (write_sessions file.sessions.auth_tokens)) in
    let subs = items_from 0 (items_of (write_subscriptions file.events.subscriptions_config_map)) in
    rw
      (
        has_uuid,
        auth_config_json-read c methods,
        event_config_json-read e new_event_service_config attempts interval,
        int64_ptr-integer_json file.sessions.timeout_in_seconds small,
      )
      (
        refl,
        refl,
        (read_sessions-fields now elems start).1,
        refl,
        read_subscriptions-config set_header subs events,
        find_token-restored now 0 token file.sessions.auth_tokens start valid fields,
      )
