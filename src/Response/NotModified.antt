-- ===== src/Response/NotModified.antt =====
-- http/http_response.hpp, http/complete_response_fields.hpp and http/http_connection.hpp: a response from its end to what is
-- sent, where the request has an If-None-Match.
use crow_core.Common.{
  ℕ, Bytes, codes, ℤ, List, [], ◌∷◌, ◌++◌, some, Bool, true, false, bytes_eq, ◌≡◌, refl, sym, ap,
  ◌∙◌, append-nil, Bool-cases, inl, inr,
}
use crow_core.Headers.{lower, HeaderFields, insert_field, same_name}
use crow_core.Headers.Values.{
  values, own, values-insert_field, insert_all, values-insert_all, insert_all-append, own_other,
  around,
}
use crow_core.Json.{Json, null}
use crow_core.Json.Access.{bytes_eq_refl}
use crow_core.Response.{
  Response, add_header, keep_alive, json_empty, etag_of, compute_etag, end_response, move_assign,
  set_hash_and_handle_not_modified,
}
use crow_core.Response.Fields.{
  add_headers, common_headers, policy_headers, add_security_headers, complete_response_fields,
}
use crow_core.Response.Completing.{RequestFields, writes, complete_request}

add_headers-insert_all :
    (new : List (Bytes × Bytes)) (res : Response)
    → add_headers new res ≡ record res { headers = insert_all new res.headers }
unfolding add_headers insert_all
add_headers-insert_all [] res = refl
add_headers-insert_all ((key, value) ∷ new) res =
    add_headers-insert_all new (add_header key value res)

-- The security headers of a build and a request.
abbrev pub security_headers : Bool → Bytes → List (Bytes × Bytes)
security_headers insecure origin = common_headers ++ policy_headers insecure origin

add_security_headers-insert_all :
    (insecure : Bool) (origin : Bytes) (res : Response)
    → add_security_headers insecure origin res
      ≡ record res { headers = insert_all (security_headers insecure origin) res.headers }
unfolding add_security_headers
add_security_headers-insert_all insecure origin res =
    ap (add_headers (policy_headers insecure origin)) (add_headers-insert_all common_headers res)
    ∙ add_headers-insert_all (policy_headers insecure origin)
        (record res { headers = insert_all common_headers res.headers })
    ∙ ap (λ hs. record res { headers = hs })
        (insert_all-append common_headers (policy_headers insecure origin) res.headers)

no_etag :
    (insecure : Bool) (origin : Bytes)
    → values (codes "ETag") (security_headers insecure origin) ≡ []
unfolding values policy_headers same_name lower bytes_eq
no_etag false origin = refl
no_etag true origin = refl

abbrev etagged : (Json → ℕ) → Json → HeaderFields → HeaderFields
etagged hash value fields = insert_field (codes "ETag") (etag_of hash value) fields

end_response-fields :
    (hash : Json → ℕ) (res : Response)
    → res.status ≡ 200
    → json_empty res.json_value ≡ false
    → ((end_response hash res).0.headers ≡ etagged hash res.json_value res.headers)
      × ((end_response hash res).0.status ≡ res.status)
      × ((end_response hash res).0.json_value ≡ res.json_value)
      × ((end_response hash res).0.body ≡ res.body)
unfolding end_response compute_etag etag_of
end_response-fields hash res ok full = elim (Bool-cases res.completed) [
  | inl done ↦ rw (ok, full, done) (refl, refl, refl, refl)
  | inr open_still ↦ rw (ok, full, open_still) (refl, refl, refl, refl)
]

set_hash-not_modified :
    (hash : Json → ℕ) (r : Response)
    → r.status ≡ 200
    → json_empty r.json_value ≡ false
    → r.expected_hash ≡ some (etag_of hash r.json_value)
    → set_hash_and_handle_not_modified hash r
      ≡ record r { headers = etagged hash r.json_value r.headers; json_value = null; status = 304 }
unfolding set_hash_and_handle_not_modified
set_hash-not_modified hash r ok full asked =
    let same : bytes_eq (etag_of hash r.json_value) (etag_of hash r.json_value) ≡ true =
      bytes_eq_refl (etag_of hash r.json_value) in
    rw (ok, full, asked, same)
      (ap
        (λ h. record r {
          headers = etagged hash r.json_value r.headers;
          json_value = null;
          status = 304;
          expected_hash = h;
        })
        asked)

own_etag : (e : Bytes) → own (codes "ETag") (codes "ETag") e ≡ e ∷ []
unfolding same_name lower bytes_eq
own_etag e = refl

no_connection : same_name (codes "Connection") (codes "ETag") ≡ false
unfolding same_name lower bytes_eq
no_connection = refl

module _ (hash : Json → ℕ) (dump : ℤ → Json → Bytes) (to_cbor : Json → Bytes)
    (set_keep_alive : Bool → HeaderFields → HeaderFields) where
  abbrev Keeps : Type 0
  Keeps =
      (k : Bool) (fields : HeaderFields) (name : Bytes)
      → same_name (codes "Connection") name ≡ false
      → values name (set_keep_alive k fields) ≡ values name fields

  abbrev sent_fields : Bool → Bool → Bytes → Json → HeaderFields → HeaderFields
  sent_fields insecure keep origin value fields = etagged hash value (
      insert_all (security_headers insecure origin)
        (set_keep_alive keep (etagged hash value fields)))

  complete_request-writes :
      (insecure keep : Bool) (req : RequestFields) (this res : Response)
      → res.status ≡ 200
      → json_empty res.json_value ≡ false
      → this.expected_hash ≡ some (etag_of hash res.json_value)
      → complete_request hash dump to_cbor set_keep_alive insecure true keep
          (some req)
          this
          (end_response hash res).0
        ≡ some (
            writes (record (move_assign this (end_response hash res).0).0 {
              headers = sent_fields insecure keep req.origin res.json_value res.headers;
              json_value = null;
              status = 304;
            }))
  unfolding complete_request complete_response_fields move_assign
  complete_request-writes insecure keep req this res ok full asked =
      let ended = (end_response hash res).0 in
      let moved = keep_alive set_keep_alive keep (move_assign this ended).0 in
      let (headers, status, value, body) = end_response-fields hash res ok full in
      let secured = record moved {
        headers = insert_all (security_headers insecure req.origin) moved.headers;
      } in
      let matched =
        set_hash-not_modified hash secured (status ∙ ok) (ap json_empty value ∙ full)
          (asked ∙ ap (λ v. some (etag_of hash v)) (sym value)) in
      let stages =
        ap (set_hash_and_handle_not_modified hash)
          (add_security_headers-insert_all insecure req.origin moved)
        ∙ matched in
      rw stages (
        ap (λ hs. some (writes (record moved { headers = hs; json_value = null; status = 304 })))
          (ap (λ v. etagged hash v secured.headers) value
            ∙ ap
                (λ hs.
                  etagged hash res.json_value
                    (insert_all (security_headers insecure req.origin) (set_keep_alive keep hs)))
                headers))

  values-sent_fields :
      (insecure keep : Bool) (origin name : Bytes) (value : Json) (fields : HeaderFields)
      → Keeps
      → same_name (codes "Connection") name ≡ false
      → values name (sent_fields insecure keep origin value fields)
        ≡ ((values name fields ++ own name (codes "ETag") (etag_of hash value))
            ++ values name (security_headers insecure origin))
          ++ own name (codes "ETag") (etag_of hash value)
  values-sent_fields insecure keep origin name value fields keeps other =
      let e = etag_of hash value in
      let kept = set_keep_alive keep (etagged hash value fields) in
      values-insert_field name (codes "ETag") e (insert_all (security_headers insecure origin) kept)
      ∙ ap (λ vs. vs ++ own name (codes "ETag") e)
          (values-insert_all name (security_headers insecure origin) kept
            ∙ ap (λ vs. vs ++ values name (security_headers insecure origin))
                (keeps keep (etagged hash value fields) name other
                  ∙ values-insert_field name (codes "ETag") e fields))

  -- A response with a document and the status 200 that ends, for a request that expects the hash of that document, is
  -- given to be written with the status 304 and without the document; its body is what was written to it before. Where
  -- the library's keep_alive changes no field but Connection, the ETag is twice in its header after those that it had,
  -- once from the end and once from the completion, and of every other field but Connection it has what it had, and
  -- then the security headers of that name.
  pub complete_request-not_modified :
      ((k : Bool) (fields : HeaderFields) (name : Bytes)
        → same_name (codes "Connection") name ≡ false
        → values name (set_keep_alive k fields) ≡ values name fields)
      → (insecure keep : Bool) (req : RequestFields) (this res : Response) → res.status ≡ 200
      → json_empty res.json_value ≡ false
      → this.expected_hash ≡ some (etag_of hash res.json_value)
      → (sent : Response) × (complete_request hash dump to_cbor set_keep_alive insecure true keep
            (some req)
            this
            (end_response hash res).0
          ≡ some (writes sent))
        × (sent.status ≡ 304)
        × (sent.json_value ≡ null)
        × (sent.body ≡ res.body)
        × (values (codes "ETag") sent.headers
            ≡ values (codes "ETag") res.headers
              ++ (etag_of hash res.json_value ∷ (etag_of hash res.json_value ∷ [])))
        × ((name : Bytes)
            → same_name (codes "ETag") name ≡ false
            → same_name (codes "Connection") name ≡ false
            → values name sent.headers
              ≡ values name res.headers ++ values name (security_headers insecure req.origin))
  unfolding move_assign
  complete_request-not_modified keeps insecure keep req this res ok full asked =
      let e = etag_of hash res.json_value in
      (
        _,
        complete_request-writes insecure keep req this res ok full asked,
        refl,
        refl,
        (end_response-fields hash res ok full).3,
        values-sent_fields insecure keep req.origin (codes "ETag") res.json_value res.headers keeps
              no_connection
            ∙ around (values (codes "ETag") res.headers)
                (values (codes "ETag") (security_headers insecure req.origin)) _ [] (e ∷ [])
                (own_etag e) (no_etag insecure req.origin),
        λ name not_etag not_connection.
            values-sent_fields insecure keep req.origin name res.json_value res.headers keeps
              not_connection
            ∙ around (values name res.headers) (values name (security_headers insecure req.origin))
                _ (values name (security_headers insecure req.origin)) []
                (own_other name (codes "ETag") e not_etag) refl
            ∙ ap (λ vs. values name res.headers ++ vs)
                (append-nil (values name (security_headers insecure req.origin))),
      )
