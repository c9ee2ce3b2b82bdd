-- ===== src/Errors/Logs/Sent/Every.antt =====
-- redfish_event/src/error_messages.cpp: all the functions that put a message of the registry into a response.
use crow_core.Common.{ℕ, ℤ, Bytes, codes, List, ◌++◌, All, All-append, none, ◌≡◌}
use crow_core.Json.{Json, object, Members, find_member}
use crow_core.Response.{Response}
use crow_core.Errors.Logs.Sending.{Dump}
use crow_core.Errors.Logs.Sent.{Post, IsSent}
use crow_core.Errors.Logs.Sent.Actions.{actions_posts, actions_posts-IsSent}
use crow_core.Errors.Logs.Sent.Properties.{properties_posts, properties_posts-IsSent}
use crow_core.Errors.Logs.Sent.Resources.{resources_posts, resources_posts-IsSent}
use crow_core.Errors.Logs.Sent.Services.{services_posts, services_posts-IsSent}

-- Each function that puts a message of the registry into a response.
abbrev pub every_post : Dump → Json → Bytes → Bytes → Bytes → ℤ → ℕ → Members → Response → List Post
every_post dump j s t u i n ms start =
    actions_posts dump j s t u i n ms start
    ++ (properties_posts dump j s t u i n ms start
        ++ (resources_posts dump j s t u i n ms start ++ services_posts dump j s t u i n ms start))

-- The 82 functions that put a message of the registry into a response whose document is an object without an error
-- return that response with the status (and the Retry-After header) that the function sets and with its
-- message added: as the error, to the messages of the document, or to those of the field that it is about; the rest
-- of the document and of the response stays.
pub every_post-IsSent :
    (dump : Dump) (j : Json) (s t u : Bytes) (i : ℤ) (n : ℕ) (ms : Members) (res : Response)
    → find_member (codes "error") ms ≡ none
    → All (IsSent ms) (every_post dump j s t u i n ms (record res { json_value = object ms }))
every_post-IsSent dump j s t u i n ms res absent =
    let start = record res { json_value = object ms } in
    let services = services_posts dump j s t u i n ms start in
    let resources = resources_posts dump j s t u i n ms start in
    let properties = properties_posts dump j s t u i n ms start in
    All-append (IsSent ms) (actions_posts dump j s t u i n ms start)
      (properties ++ (resources ++ services)) (actions_posts-IsSent dump j s t u i n ms res absent)
      (All-append (IsSent ms) properties (resources ++ services)
        (properties_posts-IsSent dump j s t u i n ms res absent)
        (All-append (IsSent ms) resources services
          (resources_posts-IsSent dump j s t u i n ms res absent)
          (services_posts-IsSent dump j s t u i n ms res absent)))
