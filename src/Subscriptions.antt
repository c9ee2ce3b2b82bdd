-- ===== src/Subscriptions.antt =====
-- http/event_service_store.hpp: UserSubscription, EventServiceConfig and EventServiceStore. The library's `set` of a
-- header field is a parameter.
use crow_core.Common.{
  ℕ, ◌^◌, ◌-◌, Bytes, codes, List, [], ◌∷◌, ◌++◌, Option, none, some, Bool, true, false, not, ◌&&◌,
  ◌||◌, ltb, if◌then◌else◌, bytes_eq, bytes_less,
}
use crow_core.Json.{Json, items, string_ptr, bool_ptr, uint64_ptr}

pub record UserSubscription : Type 0 where
  pub id : Bytes
  pub destination_url : Bytes
  pub protocol : Bytes
  pub retry_policy : Bytes
  pub custom_text : Bytes
  pub event_format_type : Bytes
  pub subscription_type : Bytes
  pub registry_msg_ids : List Bytes
  pub registry_prefixes : List Bytes
  pub resource_types : List Bytes
  pub http_headers : List (Bytes × Bytes)
  pub metric_report_definitions : List Bytes

abbrev pub empty_subscription : UserSubscription
empty_subscription = record {
  id = [];
  destination_url = [];
  protocol = [];
  retry_policy = [];
  custom_text = [];
  event_format_type = [];
  subscription_type = [];
  registry_msg_ids = [];
  registry_prefixes = [];
  resource_types = [];
  http_headers = [];
  metric_report_definitions = [];
}

-- The text of an element, or the text that was there.
abbrev pub text_or : Bytes → Option Bytes → Bytes
text_or old none = old
text_or old (some value) = value

-- The texts among the items of an element, after those that were there.
unfoldable pub texts_of : List (Bytes × Json) → List Bytes
texts_of [] = []
texts_of ((key, value) ∷ rest) = elim (string_ptr value) [
  | none ↦ texts_of rest
  | some text ↦ text ∷ texts_of rest
]

abbrev pub append_texts : List Bytes → Json → List Bytes
append_texts old value = old ++ texts_of (items value)

abbrev pub SetHeader : Type 0
SetHeader = Bytes → Bytes → List (Bytes × Bytes) → List (Bytes × Bytes)

unfoldable pub set_headers :
    SetHeader → List (Bytes × Json) → List (Bytes × Bytes) → List (Bytes × Bytes)
set_headers set_header [] headers = headers
set_headers set_header ((key, value) ∷ rest) headers = elim (string_ptr value) [
  | none ↦ set_headers set_header rest headers
  | some text ↦ set_headers set_header rest (set_header key text headers)
]

unfoldable pub read_element : SetHeader → Bytes → Json → UserSubscription → UserSubscription
read_element set_header key value sub =
    if bytes_eq key (codes "Id")
    then record sub { id = text_or sub.id (string_ptr value) }
    else if bytes_eq key (codes "Destination")
    then record sub { destination_url = text_or sub.destination_url (string_ptr value) }
    else if bytes_eq key (codes "Protocol")
    then record sub { protocol = text_or sub.protocol (string_ptr value) }
    else if bytes_eq key (codes "DeliveryRetryPolicy")
    then record sub { retry_policy = text_or sub.retry_policy (string_ptr value) }
    else if bytes_eq key (codes "Context")
    then record sub { custom_text = text_or sub.custom_text (string_ptr value) }
    else if bytes_eq key (codes "EventFormatType")
    then record sub { event_format_type = text_or sub.event_format_type (string_ptr value) }
    else if bytes_eq key (codes "SubscriptionType")
    then record sub { subscription_type = text_or sub.subscription_type (string_ptr value) }
    else if bytes_eq key (codes "MessageIds")
    then record sub { registry_msg_ids = append_texts sub.registry_msg_ids value }
    else if bytes_eq key (codes "RegistryPrefixes")
    then record sub { registry_prefixes = append_texts sub.registry_prefixes value }
    else if bytes_eq key (codes "ResourceTypes")
    then record sub { resource_types = append_texts sub.resource_types value }
    else if bytes_eq key (codes "HttpHeaders")
    then record sub { http_headers = set_headers set_header (items value) sub.http_headers }
    else if bytes_eq key (codes "MetricReportDefinitions")
    then record sub { metric_report_definitions = append_texts sub.metric_report_definitions value }
    else sub

unfoldable pub read_elements : SetHeader → List (Bytes × Json) → UserSubscription → UserSubscription
read_elements set_header [] sub = sub
read_elements set_header ((key, value) ∷ rest) sub =
    read_elements set_header rest (read_element set_header key value sub)

abbrev pub is_empty : Bytes → Bool
is_empty [] = true
is_empty (c ∷ s) = false

unfoldable pub is_refused : Bool → UserSubscription → Bool
is_refused load_from_old_config sub =
    (is_empty sub.id && not load_from_old_config)
    || (is_empty sub.destination_url
        || (is_empty sub.protocol
            || (is_empty sub.retry_policy
                || (is_empty sub.event_format_type || is_empty sub.subscription_type))))

unfoldable pub user_subscription_from_json : SetHeader → Json → Bool → Option UserSubscription
user_subscription_from_json set_header j load_from_old_config =
    let sub = read_elements set_header (items j) empty_subscription in
    if is_refused load_from_old_config sub then none else some sub

pub record EventServiceConfig : Type 0 where
  pub enabled : Bool
  pub retry_attempts : ℕ
  pub retry_timeout_interval : ℕ

abbrev pub new_event_service_config : EventServiceConfig
new_event_service_config = record {
  enabled = true;
  retry_attempts = 3;
  retry_timeout_interval = 30;
}

abbrev pub bool_or : Bool → Option Bool → Bool
bool_or old none = old
bool_or old (some value) = value

-- A number that does not fit in 32 bits is passed over.
abbrev pub uint32_or : ℕ → Option ℕ → ℕ
uint32_or old none = old
uint32_or old (some value) = if ltb (2 ^ 32 - 1) value then old else value

unfoldable pub read_config_element : Bytes → Json → EventServiceConfig → EventServiceConfig
read_config_element key value config =
    if bytes_eq key (codes "ServiceEnabled")
    then record config { enabled = bool_or config.enabled (bool_ptr value) }
    else if bytes_eq key (codes "DeliveryRetryAttempts")
    then record config { retry_attempts = uint32_or config.retry_attempts (uint64_ptr value) }
    else if bytes_eq key (codes "DeliveryRetryIntervalSeconds")
    then record config {
      retry_timeout_interval = uint32_or config.retry_timeout_interval (uint64_ptr value);
    }
    else config

unfoldable pub read_config : List (Bytes × Json) → EventServiceConfig → EventServiceConfig
read_config [] config = config
read_config ((key, value) ∷ rest) config = read_config rest (read_config_element key value config)

unfoldable pub event_service_config_from_json : Json → EventServiceConfig → EventServiceConfig
event_service_config_from_json j config = read_config (items j) config

-- `subscriptionsConfigMap` in the order of its keys.
pub record EventServiceStore : Type 0 where
  pub subscriptions_config_map : List (Bytes × UserSubscription)
  pub event_service_config : EventServiceConfig

abbrev pub new_event_service_store : EventServiceStore
new_event_service_store = record {
  subscriptions_config_map = [];
  event_service_config = new_event_service_config;
}

-- `emplace` of a flat_map: an id that is there keeps its subscription.
unfoldable pub emplace_subscription :
    UserSubscription → List (Bytes × UserSubscription) → List (Bytes × UserSubscription)
emplace_subscription sub [] = (sub.id, sub) ∷ []
emplace_subscription sub ((key, there) ∷ entries) =
    let rest = emplace_subscription sub entries in
    if bytes_eq key sub.id
    then (key, there) ∷ entries
    else if bytes_less sub.id key
    then (sub.id, sub) ∷ ((key, there) ∷ entries)
    else (key, there) ∷ rest
