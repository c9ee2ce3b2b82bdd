-- ===== src/Response/Fields.antt =====
-- http/complete_response_fields.hpp and security_headers.hpp: what is added to a response before it is sent. The
-- library's `dump` and `to_cbor` are parameters; `cleanupTempSession` is an empty function.
use crow_core.ContentTypes.Choice.{get_prefered_content_type-ends}
use crow_core.Common.{
  ℕ, Bytes, codes, ℤ, pos, List, [], ◌∷◌, Option, none, some, Bool, true, false, ◌≡◌, refl,
}
use crow_core.Json.{Json, array, object}
use crow_core.ContentTypes.{
  ContentType, get_prefered_content_type, cbor, json, html, no_match, any, octet_stream,
  event_stream,
}
use crow_core.Response.{Response, add_header, set_hash_and_handle_not_modified, write}

unfoldable pub add_headers : List (Bytes × Bytes) → Response → Response
add_headers [] res = res
add_headers ((key, value) ∷ headers) res = add_headers headers (add_header key value res)

abbrev pub common_headers : List (Bytes × Bytes)
common_headers =
    (codes "Strict-Transport-Security", codes "max-age=31536000; includeSubdomains; preload")
    ∷ (codes "X-Frame-Options", codes "DENY")
    ∷ (codes "Pragma", codes "no-cache")
    ∷ (codes "Cache-Control", codes "no-Store,no-Cache")
    ∷ (codes "X-XSS-Protection", codes "1; mode=block")
    ∷ (codes "X-Content-Type-Options", codes "nosniff")
    ∷ []

abbrev pub strict_policy : Bytes
strict_policy =
    codes
      "default-src 'none'; img-src 'self' data:; font-src 'self'; style-src 'self'; script-src 'self'; connect-src 'self' wss:; form-action 'none'; frame-ancestors 'none'; object-src 'none'; base-uri 'none' "

abbrev pub loose_policy : Bytes
loose_policy =
    codes
      "default-src 'none'; img-src *; font-src *; style-src *; script-src *; connect-src *; form-action *; frame-ancestors *; object-src *; base-uri *"

-- The headers of a build in which the prevention of cross-site scripting is on, or off; the request's origin is an argument.
unfoldable pub policy_headers : Bool → Bytes → List (Bytes × Bytes)
policy_headers false origin = (codes "Content-Security-Policy", strict_policy) ∷ []
policy_headers true origin =
    (codes "Content-Security-Policy", loose_policy)
    ∷ (codes "Access-Control-Allow-Origin", origin)
    ∷ (codes "Access-Control-Allow-Methods", codes "GET, POST, PUT, PATCH, DELETE")
    ∷ (codes "Access-Control-Allow-Credentials", codes "true")
    ∷ (
      codes "Access-Control-Allow-Headers",
      codes "Origin, Content-Type, Accept, Cookie, X-XSRF-TOKEN",
    )
    ∷ []

unfoldable pub add_security_headers : Bool → Bytes → Response → Response
add_security_headers insecure origin res =
    add_headers (policy_headers insecure origin) (add_headers common_headers res)

-- `is_structured`.
abbrev pub is_structured : Json → Bool
is_structured (array xs) = true
is_structured (object ms) = true
is_structured _ = false

module _ (hash : Json → ℕ) (dump : ℤ → Json → Bytes) (to_cbor : Json → Bytes) where
  -- HTML is written by a call that is commented out.
  abbrev write_as : Response → Option ContentType → Option Response
  write_as res none = none
  write_as res (some html) = some res
  write_as res (some cbor) = some (
      write (to_cbor res.json_value)
        (add_header (codes "Content-Type") (codes "application/cbor") res))
  write_as res (some _) = some (
      write (dump (pos 2) res.json_value)
        (add_header (codes "Content-Type") (codes "application/json") res))

  abbrev write_if : Bool → Bytes → Response → Option Response
  write_if false accept res = some res
  write_if true accept res =
      write_as res (get_prefered_content_type accept (cbor ∷ json ∷ html ∷ []))

  abbrev write_value : Bytes → Response → Option Response
  write_value accept res = write_if (is_structured res.json_value) accept res

  -- With the request's Accept and Origin; `none` means that the loop over Accept is still running.
  unfoldable pub complete_response_fields : Bool → Bytes → Bytes → Response → Option Response
  complete_response_fields insecure origin accept res =
      write_value accept
        (set_hash_and_handle_not_modified hash (add_security_headers insecure origin res))

  write_as-some :
      (res : Response) (t : ContentType) → (sent : Response) × (write_as res (some t) ≡ some sent)
  write_as-some res no_match = (_, refl)
  write_as-some res any = (_, refl)
  write_as-some res cbor = (_, refl)
  write_as-some res html = (_, refl)
  write_as-some res json = (_, refl)
  write_as-some res octet_stream = (_, refl)
  write_as-some res event_stream = (_, refl)

  write_if-ends :
      (structured : Bool) (accept : Bytes) (res : Response)
      → (sent : Response) × (write_if structured accept res ≡ some sent)
  write_if-ends false accept res = (res, refl)
  write_if-ends true accept res =
      let (t, chosen) = get_prefered_content_type-ends accept (cbor ∷ json ∷ html ∷ []) in
      let (sent, made) = write_as-some res t in (sent, rw chosen made)

  -- The loop over the header always ends, and the response is completed.
  pub complete_response_fields-ends :
      (insecure : Bool) (origin accept : Bytes) (res : Response)
      → (sent : Response) × (complete_response_fields insecure origin accept res ≡ some sent)
  unfolding complete_response_fields
  complete_response_fields-ends insecure origin accept res =
      let tagged =
        set_hash_and_handle_not_modified hash (add_security_headers insecure origin res) in
      write_if-ends (is_structured tagged.json_value) accept tagged
