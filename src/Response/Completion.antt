-- ===== src/Response/Completion.antt =====
-- http/http_response.hpp: how often the handlers of responses are called.
use crow_core.Common.{
  ℕ, zero, suc, ◌+◌, ◌≤◌, Bytes, List, [], ◌∷◌, ◌++◌, length, get_elem?, set, Option, none, some,
  Bool, true, false, ◌≡◌, ◌≢◌, refl, ◌∙◌, Bool-cases, Option-cases, inl, inr, arith, ap, not, ◌||◌,
  ◌==◌, bytes_eq,
}
use crow_core.Headers.{HeaderFields}
use crow_core.Json.{Json}
use crow_core.Response.{
  Response, new_response, end_response, set_hash_and_handle_not_modified, write, clear,
  set_complete_request_handler, release_complete_request_handler, set_expected_hash, clear_header,
  copy_body, open_file, open_base64_file, set_is_alive_helper, release_is_alive_helper,
  compute_etag, Body, string_body, file_body, base64_file_body, with_etag, complete, copied,
  json_empty, etag_of, prepare_payload, generator, move_construct, move_assign, moved_handler,
}
use crow_core.Response.Steps.{
  Use, ends, clears, releases, not_modified, releases_helper, prepares, sends, sets_handler,
  sets_helper, writes, expects, clears_header, sets_status, adds_header, keeps_alive, copies, opens,
  opens_base64, Step, uses, assigns, constructs, creates, called, use_of, step_of, calls, rearms,
  rearmed, armed_by, armed, all_armed, count,
}

with_etag-armed : (etag : Bytes) (res : Response) → armed (with_etag etag res) ≡ armed res
with_etag-armed [] res = refl
with_etag-armed (c ∷ etag) res = refl

copied-armed :
    (source target : Body) (res : Response) → armed (copied source target res) ≡ armed res
copied-armed (string_body text) (string_body old) res = refl
copied-armed (string_body text) (file_body file) res = refl
copied-armed (string_body text) (base64_file_body file) res = refl
copied-armed (file_body file) target res = refl
copied-armed (base64_file_body file) target res = refl

set_hash-armed :
    (hash : Json → ℕ) (res : Response)
    → armed (set_hash_and_handle_not_modified hash res) ≡ armed res
unfolding set_hash_and_handle_not_modified
set_hash-armed hash res = elim (Bool-cases (json_empty res.json_value || not (res.status == 200))) [
  | inl nothing ↦ rw nothing refl
  | inr something ↦ elim (Option-cases res.expected_hash) [
    | inl not_asked ↦ rw (something, not_asked) refl
    | inr (expected, asked) ↦ elim (Bool-cases (bytes_eq (etag_of hash res.json_value) expected)) [
      | inl same ↦ rw (something, asked, same) refl
      | inr other ↦ rw (something, asked, other) refl
    ]
  ]
]

armed_by-small : (done : Bool) (handler : Option ℕ) → armed_by done handler ≤ 1
armed_by-small true handler = omega arith
armed_by-small false none = omega arith
armed_by-small false (some handler) = omega arith

complete-armed : (res : Response) → count (complete res).1 + armed (complete res).0 ≤ armed res
complete-armed res = elim (Bool-cases res.completed) [
  | inl done ↦ rw done (omega arith)
  | inr open_still ↦ elim (Option-cases res.complete_request_handler) [
    | inl no_handler ↦ rw (open_still, no_handler) (omega arith)
    | inr (handler, has_handler) ↦ rw (open_still, has_handler) (omega arith)
  ]
]

-- A move takes a handler from one response to another, and doubles none.
moved-armed :
    (done : Bool) (handler : Option ℕ)
    → armed_by done (moved_handler done handler).0 + armed_by done (moved_handler done handler).1
      ≤ armed_by done handler
moved-armed true handler = omega arith
moved-armed false none = omega arith
moved-armed false (some handler) = omega arith

move_assign-armed :
    (this r : Response) → armed (move_assign this r).0 + armed (move_assign this r).1 ≤ armed r
unfolding move_assign
move_assign-armed this r = moved-armed r.completed r.complete_request_handler

move_construct-armed :
    (r : Response) → armed (move_construct r).0 + armed (move_construct r).1 ≤ armed r
unfolding move_construct
move_construct-armed r = moved-armed r.completed r.complete_request_handler

all_armed-set :
    (rs : List Response) (i : ℕ) (old new : Response)
    → get_elem? rs i ≡ some old
    → all_armed (set rs i new) + armed old ≡ all_armed rs + armed new
unfolding all_armed
all_armed-set [] i old new e = absurd (cc e)
all_armed-set (res ∷ rs) zero old new e = let same : res ≡ old = cc in rw same (omega arith)
all_armed-set (res ∷ rs) (suc i) old new e = omega (arith, all_armed-set rs i old new e)

all_armed-append :
    (rs : List Response) (new : Response) → all_armed (rs ++ (new ∷ [])) ≡ all_armed rs + armed new
unfolding all_armed
all_armed-append [] new = omega arith
all_armed-append (res ∷ rs) new = omega (arith, all_armed-append rs new)

get_elem?-set :
    (rs : List Response) (i j : ℕ) (new : Response)
    → i ≢ j
    → get_elem? (set rs i new) j ≡ get_elem? rs j
get_elem?-set [] i j new ne = refl
get_elem?-set (res ∷ rs) zero zero new ne = absurd (ne refl)
get_elem?-set (res ∷ rs) zero (suc j) new ne = refl
get_elem?-set (res ∷ rs) (suc i) zero new ne = refl
get_elem?-set (res ∷ rs) (suc i) (suc j) new ne = get_elem?-set rs i j new (λ e. ne (ap suc e))

length-called :
    (handler : Option ℕ) (rest : List ℕ)
    → length (called handler rest) ≡ count handler + length rest
length-called none rest = omega arith
length-called (some handler) rest = omega arith

module _ (hash : Json → ℕ) (set_keep_alive : Bool → HeaderFields → HeaderFields)
    (payload_size : Body → Option ℕ) (content_length : ℕ → HeaderFields → HeaderFields) where
  use_of-armed :
      (i : ℕ) (u : Use) (res : Response)
      → count (use_of hash set_keep_alive payload_size content_length u res).1
          + armed (use_of hash set_keep_alive payload_size content_length u res).0
        ≤ armed res + rearms (uses i u)
  unfolding end_response clear release_complete_request_handler set_hash_and_handle_not_modified
      release_is_alive_helper set_complete_request_handler set_is_alive_helper write
      set_expected_hash clear_header copy_body open_file open_base64_file prepare_payload generator
  use_of-armed i ends res = omega (
    arith,
    complete-armed (with_etag (compute_etag hash res) res),
    with_etag-armed (compute_etag hash res) res,
  )
  use_of-armed i clears res = omega (arith, armed_by-small false res.complete_request_handler)
  use_of-armed i releases res = omega arith
  use_of-armed i not_modified res = omega (arith, set_hash-armed hash res)
  use_of-armed i releases_helper res = omega arith
  use_of-armed i prepares res = omega arith
  use_of-armed i sends res = omega arith
  use_of-armed i (sets_handler none) res = omega arith
  use_of-armed i (sets_handler (some handler)) res = omega arith
  use_of-armed i (sets_helper helper) res = omega arith
  use_of-armed i (writes part) res = omega arith
  use_of-armed i (expects text) res = omega arith
  use_of-armed i (clears_header key) res = omega arith
  use_of-armed i (sets_status v) res = omega arith
  use_of-armed i (adds_header key value) res = omega arith
  use_of-armed i (keeps_alive k) res = omega arith
  use_of-armed i (copies other) res = omega (arith, copied-armed other.body res.body res)
  use_of-armed i (opens none) res = omega arith
  use_of-armed i (opens (some fd)) res = omega arith
  use_of-armed i (opens_base64 none) res = omega arith
  use_of-armed i (opens_base64 (some fd)) res = omega arith

  -- A step calls what was armed, or was armed by the step.
  step_of-armed :
      (s : Step) (rs : List Response)
      → count (step_of hash set_keep_alive payload_size content_length s rs).1
          + all_armed (step_of hash set_keep_alive payload_size content_length s rs).0
        ≤ all_armed rs + rearms s
  step_of-armed (uses i u) rs = elim (Option-cases (get_elem? rs i)) [
    | inl absent ↦ rw absent (omega arith)
    | inr (res, there) ↦ rw there (
        omega (
          arith,
          use_of-armed i u res,
          all_armed-set rs i res (use_of hash set_keep_alive payload_size content_length u res).0
              there,
        ))
  ]
  step_of-armed (assigns i j) rs = elim (Bool-cases (i == j)) [
    | inl same ↦ rw same (omega arith)
    | inr other ↦ elim (Option-cases (get_elem? rs i)) [
      | inl absent ↦ rw (other, absent) (omega arith)
      | inr (this, there) ↦ elim (Option-cases (get_elem? rs j)) [
        | inl absent ↦ rw (other, there, absent) (omega arith)
        | inr (r, source) ↦
            let (taken, left) = move_assign this r in
            let still : get_elem? (set rs i taken) j ≡ some r =
              get_elem?-set rs i j taken (ground arith) ∙ source in
            rw (other, there, source)
              (omega (
                arith,
                move_assign-armed this r,
                all_armed-set rs i this taken there,
                all_armed-set (set rs i taken) j r left still,
              ))
      ]
    ]
  ]
  step_of-armed (constructs j) rs = elim (Option-cases (get_elem? rs j)) [
    | inl absent ↦ rw absent (omega arith)
    | inr (r, source) ↦
        let (new, left) = move_construct r in
        rw source (
          omega (
            arith,
            move_construct-armed r,
            all_armed-set rs j r left source,
            all_armed-append (set rs j left) new,
          ))
  ]
  step_of-armed creates rs = omega (arith, all_armed-append rs new_response)

  -- However responses are used, moved, constructed and created, the handlers that are called are no more than the
  -- responses that have a handler and are not completed at the start, the handlers that responses are given, and the calls of clear together.
  pub calls-bound :
      (steps : List Step) (rs : List Response)
      → length (calls hash set_keep_alive payload_size content_length steps rs)
        ≤ all_armed rs + rearmed steps
  unfolding calls rearmed
  calls-bound [] rs = omega arith
  calls-bound (s ∷ steps) rs =
      let (next, handler) = step_of hash set_keep_alive payload_size content_length s rs in
      omega (
        arith,
        calls-bound steps next,
        step_of-armed s rs,
        length-called handler (calls hash set_keep_alive payload_size content_length steps next),
      )
