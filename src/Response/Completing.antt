-- ===== src/Response/Completing.antt =====
-- http/http_connection.hpp, class `Connection`: `completeRequest`.
use crow_core.Common.{ℕ, Bytes, ℤ, Option, none, some, Bool, true, false}
use crow_core.Headers.{HeaderFields}
use crow_core.Json.{Json}
use crow_core.Response.{Response, keep_alive, move_assign, set_complete_request_handler}
use crow_core.Response.Fields.{complete_response_fields}

-- What the connection reads of a request: its Origin and its Accept.
pub record RequestFields : Type 0 where
  pub origin : Bytes
  pub accept : Bytes

-- What `completeRequest` comes to: nothing where the connection has no request, a response that is not sent where the
-- connection is closed, or the response with which `doWrite` is called.
pub data Completed : Type 0 where
  no_request : Completed
  closed writes : Response → Completed

module _ (hash : Json → ℕ) (dump : ℤ → Json → Bytes) (to_cbor : Json → Bytes)
    (set_keep_alive : Bool → HeaderFields → HeaderFields) where
  abbrev sent_if : Bool → Option Response → Option Completed
  sent_if alive none = none
  sent_if false (some res) = some (closed (set_complete_request_handler none res))
  sent_if true (some res) = some (writes res)

  -- Up to `doWrite`: the response that has ended is moved to the connection's own, which has the hash that is
  -- expected, and completed. `none` means that the loop over Accept is still running.
  unfoldable pub complete_request :
      Bool → Bool → Bool → Option RequestFields → Response → Response → Option Completed
  complete_request insecure alive keep none this that = some no_request
  complete_request insecure alive keep (some req) this that = sent_if alive (
      complete_response_fields hash dump to_cbor insecure req.origin req.accept
        (keep_alive set_keep_alive keep (move_assign this that).0))
