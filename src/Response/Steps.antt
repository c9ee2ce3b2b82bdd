-- ===== src/Response/Steps.antt =====
-- http/http_response.hpp: what is done with responses, and the handlers that it calls. `end` marks a response as
-- completed before it calls the handler and does nothing after it, so what a handler does with responses
-- is the steps that follow. A response that is destroyed is used no more.
use crow_core.Common.{
  ℕ, ◌+◌, Bytes, List, [], ◌∷◌, ◌++◌, get_elem?, set, Option, none, some, Bool, false, ◌==◌,
  if◌then◌else◌,
}
use crow_core.Headers.{HeaderFields}
use crow_core.Json.{Json}
use crow_core.Response.{
  Response, new_response, end_response, set_hash_and_handle_not_modified, write, clear,
  set_complete_request_handler, release_complete_request_handler, set_expected_hash, result,
  add_header, clear_header, copy_body, open_file, open_base64_file, set_is_alive_helper,
  release_is_alive_helper, Body, keep_alive, prepare_payload, generator, move_construct,
  move_assign,
}

-- What is done with one response.
pub data Use : Type 0 where
  ends clears releases not_modified releases_helper prepares sends : Use
  sets_handler sets_helper : Option ℕ → Use
  writes expects clears_header : Bytes → Use
  sets_status : ℕ → Use
  adds_header : Bytes → Bytes → Use
  keeps_alive : Bool → Use
  copies : Response → Use
  opens opens_base64 : Option ℕ → Use

-- What is done with responses, which have numbers: a use of one, an assignment to the first from the second that is
-- moved, a construction from one that is moved, and a new response. Those that are made come last.
pub data Step : Type 0 where
  uses : ℕ → Use → Step
  assigns : ℕ → ℕ → Step
  constructs : ℕ → Step
  creates : Step

abbrev pub called : Option ℕ → List ℕ → List ℕ
called none rest = rest
called (some handler) rest = handler ∷ rest

module _ (hash : Json → ℕ) (set_keep_alive : Bool → HeaderFields → HeaderFields)
    (payload_size : Body → Option ℕ) (content_length : ℕ → HeaderFields → HeaderFields) where
  -- The response after a use, and the handler that is called.
  abbrev pub use_of : Use → Response → Response × Option ℕ
  use_of ends res = end_response hash res
  use_of clears res = (clear res, none)
  use_of releases res = ((release_complete_request_handler res).0, none)
  use_of not_modified res = (set_hash_and_handle_not_modified hash res, none)
  use_of releases_helper res = ((release_is_alive_helper res).0, none)
  use_of prepares res = (prepare_payload payload_size content_length res, none)
  use_of sends res = ((generator res).0, none)
  use_of (sets_handler handler) res = (set_complete_request_handler handler res, none)
  use_of (sets_helper helper) res = (set_is_alive_helper helper res, none)
  use_of (writes part) res = (write part res, none)
  use_of (expects text) res = (set_expected_hash text res, none)
  use_of (clears_header key) res = (clear_header key res, none)
  use_of (sets_status v) res = (result v res, none)
  use_of (adds_header key value) res = (add_header key value res, none)
  use_of (keeps_alive k) res = (keep_alive set_keep_alive k res, none)
  use_of (copies other) res = (copy_body other res, none)
  use_of (opens file) res = ((open_file file res).0, none)
  use_of (opens_base64 file) res = ((open_base64_file file res).0, none)

  -- A number that no response has is passed over, and an assignment of a response to itself does nothing.
  abbrev used : ℕ → Use → List Response → Option Response → List Response × Option ℕ
  used i u rs none = (rs, none)
  used i u rs (some res) = (set rs i (use_of u res).0, (use_of u res).1)

  abbrev assigned : ℕ → ℕ → List Response → Option Response → Option Response → List Response
  assigned i j rs (some this) (some r) =
      set (set rs i (move_assign this r).0) j (move_assign this r).1
  assigned i j rs _ _ = rs

  abbrev constructed : ℕ → List Response → Option Response → List Response
  constructed j rs none = rs
  constructed j rs (some r) = set rs j (move_construct r).1 ++ ((move_construct r).0 ∷ [])

  abbrev pub step_of : Step → List Response → List Response × Option ℕ
  step_of (uses i u) rs = used i u rs (get_elem? rs i)
  step_of (assigns i j) rs =
      (if i == j then rs else assigned i j rs (get_elem? rs i) (get_elem? rs j), none)
  step_of (constructs j) rs = (constructed j rs (get_elem? rs j), none)
  step_of creates rs = (rs ++ (new_response ∷ []), none)

  -- The handlers that are called, one after the other.
  unfoldable pub calls : List Step → List Response → List ℕ
  calls [] rs = []
  calls (s ∷ steps) rs = called (step_of s rs).1 (calls steps (step_of s rs).0)

-- The steps that give a response a handler, or let it call its handler again.
abbrev pub rearms : Step → ℕ
rearms (uses i (sets_handler (some handler))) = 1
rearms (uses i clears) = 1
rearms _ = 0

unfoldable pub rearmed : List Step → ℕ
rearmed [] = 0
rearmed (s ∷ steps) = rearms s + rearmed steps

-- One call is to come of a response that has a handler and is not completed.
abbrev pub armed_by : Bool → Option ℕ → ℕ
armed_by false (some handler) = 1
armed_by _ _ = 0

abbrev pub armed : Response → ℕ
armed res = armed_by res.completed res.complete_request_handler

unfoldable pub all_armed : List Response → ℕ
all_armed [] = 0
all_armed (res ∷ rs) = armed res + all_armed rs

abbrev pub count : Option ℕ → ℕ
count none = 0
count (some handler) = 1
