-- ===== src/Persistence.antt =====
-- http/persistent_data.hpp: ConfigFile. The file is what is written to it, and what is read is what the library parses;
-- `none` of the parse is a text that is no JSON, and no file is an object without members.
pub mod Restored
pub mod Roundtrip
mod Tests
use crow_core.Common.{
  ℕ, Bytes, codes, ℤ, pos, negsuc, List, [], ◌∷◌, ◌++◌, map, Option, none, some, Bool, true, false,
  not, ltb, ◌||◌, if◌then◌else◌, bytes_eq,
}
use crow_core.Json.{
  Json, null, boolean, number_integer, number_unsigned, string, array, object, Items, no_items,
  item, items_of, Members, no_members, member, set_member, items, string_ptr, uint64_ptr, int64_ptr,
}
use crow_core.Sessions.{
  UserSession, AuthConfigMethods, SessionStore, find_token, apply_session_timeouts,
  update_session_timeout, get_timeout_in_seconds, same_persistence, single_request,
}
use crow_core.Sessions.Generating.{add_entry}
use crow_core.Sessions.Restoring.{user_session_from_json, auth_config_methods_from_json}
use crow_core.Subscriptions.{
  UserSubscription, EventServiceConfig, EventServiceStore, SetHeader, user_subscription_from_json,
  event_service_config_from_json, emplace_subscription, is_empty, text_or,
}

abbrev pub json_revision : ℕ
json_revision = 1

-- The file's object, with the two stores that it reads into and writes from.
pub record ConfigFile : Type 0 where
  pub system_uuid : Bytes
  pub sessions : SessionStore
  pub events : EventServiceStore

abbrev pub emplace_restored : Option UserSession → SessionStore → SessionStore
emplace_restored none store = store
emplace_restored (some session) store = record store {
  auth_tokens =
      add_entry session (find_token session.session_token store.auth_tokens) store.auth_tokens;
}

unfoldable pub read_sessions : ℕ → List (Bytes × Json) → SessionStore → SessionStore
read_sessions now [] store = store
read_sessions now ((key, elem) ∷ rest) store =
    read_sessions now rest (emplace_restored (user_session_from_json now elem) store)

abbrev pub emplace_subscribed : Option UserSubscription → EventServiceStore → EventServiceStore
emplace_subscribed none store = store
emplace_subscribed (some sub) store = record store {
  subscriptions_config_map = emplace_subscription sub store.subscriptions_config_map;
}

unfoldable pub read_subscriptions :
    SetHeader → List (Bytes × Json) → EventServiceStore → EventServiceStore
read_subscriptions set_header [] store = store
read_subscriptions set_header ((key, elem) ∷ rest) store =
    read_subscriptions set_header rest
      (emplace_subscribed (user_subscription_from_json set_header elem false) store)

abbrev pub with_timeout : Option ℤ → SessionStore → SessionStore
with_timeout none store = store
with_timeout (some seconds) store = update_session_timeout seconds store

abbrev pub revision_or_zero : Option ℕ → ℕ
revision_or_zero none = 0
revision_or_zero (some n) = n

-- One item of the file, on the revision that was read and the state.
unfoldable pub read_item : SetHeader → ℕ → Bytes → Json → ℕ × ConfigFile → ℕ × ConfigFile
read_item set_header now key value (revision, file) =
    if bytes_eq key (codes "revision")
    then (revision_or_zero (uint64_ptr value), file)
    else if bytes_eq key (codes "system_uuid")
    then (revision, record file { system_uuid = text_or file.system_uuid (string_ptr value) })
    else if bytes_eq key (codes "auth_config")
    then (
      revision,
      record file {
        sessions = record file.sessions {
          auth_methods_config =
              auth_config_methods_from_json value file.sessions.auth_methods_config;
        };
      },
    )
    else if bytes_eq key (codes "sessions")
    then (revision, record file { sessions = read_sessions now (items value) file.sessions })
    else if bytes_eq key (codes "timeout")
    then (revision, record file { sessions = with_timeout (int64_ptr value) file.sessions })
    else if bytes_eq key (codes "eventservice_config")
    then (
      revision,
      record file {
        events = record file.events {
          event_service_config =
              event_service_config_from_json value file.events.event_service_config;
        };
      },
    )
    else if bytes_eq key (codes "subscriptions")
    then (
      revision,
      record file { events = read_subscriptions set_header (items value) file.events },
    )
    else (revision, file)

unfoldable pub read_items : SetHeader → ℕ → List (Bytes × Json) → ℕ × ConfigFile → ℕ × ConfigFile
read_items set_header now [] state = state
read_items set_header now ((key, value) ∷ rest) state =
    read_items set_header now rest (read_item set_header now key value state)

abbrev pub read_parsed : SetHeader → ℕ → Option Json → ConfigFile → ℕ × ConfigFile
read_parsed set_header now none file = (0, file)
read_parsed set_header now (some value) file = read_items set_header now (items value) (0, file)

-- The new UUID is from the random device; the second result is whether the file is written.
unfoldable pub read_data : SetHeader → Bytes → ℕ → Option Json → ConfigFile → ConfigFile × Bool
read_data set_header random_uuid now parsed file =
    let (revision, read) = read_parsed set_header now parsed file in
    if is_empty read.system_uuid
    then (record read { system_uuid = random_uuid }, true)
    else (read, ltb revision json_revision)

unfoldable pub auth_config_json : AuthConfigMethods → Json
auth_config_json c = object (
    member (codes "BasicAuth") (boolean c.basic) (
      member (codes "Cookie") (boolean c.cookie) (
        member (codes "SessionToken") (boolean c.session_token) (
          member (codes "TLS") (boolean c.tls)
            (member (codes "XToken") (boolean c.xtoken) no_members)))))

unfoldable pub event_config_json : EventServiceConfig → Json
event_config_json c = object (
    member (codes "DeliveryRetryAttempts") (number_unsigned c.retry_attempts) (
      member (codes "DeliveryRetryIntervalSeconds") (number_unsigned c.retry_timeout_interval)
        (member (codes "ServiceEnabled") (boolean c.enabled) no_members)))

abbrev pub with_client : Option Bytes → Members → Members
with_client none ms = ms
with_client (some client) ms = member (codes "client_id") (string client) ms

unfoldable pub session_json : UserSession → Json
session_json session = object (
    with_client session.client_id (
      member (codes "client_ip") (string session.client_ip) (
        member (codes "csrf_token") (string session.csrf_token) (
          member (codes "session_token") (string session.session_token) (
            member (codes "unique_id") (string session.unique_id)
              (member (codes "username") (string session.username) no_members))))))

unfoldable pub write_sessions : List (Bytes × UserSession) → List Json
write_sessions [] = []
write_sessions ((key, session) ∷ entries) =
    let rest = write_sessions entries in
    if not (same_persistence session.persistence single_request)
    then session_json session ∷ rest
    else rest

unfoldable pub headers_json : List (Bytes × Bytes) → Members → Members
headers_json [] ms = ms
headers_json ((name, value) ∷ headers) ms = headers_json headers (set_member name (string value) ms)

abbrev pub texts_json : List Bytes → Json
texts_json texts = array (items_of (map string texts))

unfoldable pub subscription_json : UserSubscription → Json
subscription_json sub = object (
    member (codes "Context") (string sub.custom_text) (
      member (codes "DeliveryRetryPolicy") (string sub.retry_policy) (
        member (codes "Destination") (string sub.destination_url) (
          member (codes "EventFormatType") (string sub.event_format_type) (
            member (codes "HttpHeaders") (object (headers_json sub.http_headers no_members)) (
              member (codes "Id") (string sub.id) (
                member (codes "MessageIds") (texts_json sub.registry_msg_ids) (
                  member (codes "MetricReportDefinitions")
                    (texts_json sub.metric_report_definitions)
                    (member (codes "Protocol") (string sub.protocol) (
                      member (codes "RegistryPrefixes") (texts_json sub.registry_prefixes) (
                        member (codes "ResourceTypes") (texts_json sub.resource_types) (
                          member (codes "SubscriptionType") (string sub.subscription_type)
                            no_members))))))))))))

unfoldable pub write_subscriptions : List (Bytes × UserSubscription) → List Json
write_subscriptions [] = []
write_subscriptions ((key, sub) ∷ entries) =
    let rest = write_subscriptions entries in
    if bytes_eq sub.subscription_type (codes "SSE") then rest else subscription_json sub ∷ rest

-- A number that is not negative is unsigned once it has been written and parsed.
abbrev pub integer_json : ℤ → Json
integer_json (pos n) = number_unsigned n
integer_json (negsuc n) = number_integer (negsuc n)

-- The object that goes to the file, as a parse gives it back.
unfoldable pub write_data : ConfigFile → Json
write_data file = object (
    member (codes "auth_config") (auth_config_json file.sessions.auth_methods_config) (
      member (codes "eventservice_config") (event_config_json file.events.event_service_config) (
        member (codes "revision") (number_unsigned json_revision) (
          member (codes "sessions") (array (items_of (write_sessions file.sessions.auth_tokens))) (
            member (codes "subscriptions")
              (array (items_of (write_subscriptions file.events.subscriptions_config_map)))
              (member (codes "system_uuid") (string file.system_uuid) (
                member (codes "timeout") (integer_json (get_timeout_in_seconds file.sessions))
                  no_members)))))))

-- What the destructor does: the sessions' timeouts, and the object to write, if it does.
unfoldable pub close : ℕ → ConfigFile → ConfigFile × Option Json
close now file =
    let swept = apply_session_timeouts now file.sessions in
    let file' = record file { sessions = swept } in
    if swept.need_write then (file', some (write_data file')) else (file', none)
