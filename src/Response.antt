-- ===== src/Response.antt =====
-- http/http_response.hpp: struct Response. A file that is a body is its descriptor, or none where it was moved away,
-- and a function object that is kept (`completeRequestHandler`, `isAliveHelper`) is a number.
pub mod Steps
pub mod Completion
pub mod Fields
pub mod Completing
pub mod NotModified
mod Tests
use crow_core.Common.{
  ℕ, ◌+◌, ◌/◌, ◌==◌, Bytes, codes, List, [], ◌∷◌, ◌++◌, length, Option, none, some, Bool, true,
  false, not, ◌&&◌, ◌||◌, ltb, if◌then◌else◌, bytes_eq,
}
use crow_core.Headers.{HeaderFields, insert_field, erase_field}
use crow_core.Hex.{int_to_hex_string}
use crow_core.Json.{Json, null, array, object, no_items, item, no_members, member}

pub data Body : Type 0 where
  string_body : Bytes → Body
  file_body : Option ℕ → Body
  base64_file_body : Option ℕ → Body

pub record Response : Type 0 where
  pub body : Body
  pub status : ℕ
  pub headers : HeaderFields
  pub json_value : Json
  pub expected_hash : Option Bytes
  pub completed : Bool
  pub complete_request_handler : Option ℕ
  pub is_alive_helper : Option ℕ

abbrev pub new_response : Response
new_response = record {
  body = string_body [];
  status = 200;
  headers = [];
  json_value = null;
  expected_hash = none;
  completed = false;
  complete_request_handler = none;
  is_alive_helper = none;
}

abbrev pub result : ℕ → Response → Response
result v res = record res { status = v }

abbrev pub add_header : Bytes → Bytes → Response → Response
add_header key value res = record res { headers = insert_field key value res.headers }

unfoldable pub clear_header : Bytes → Response → Response
clear_header key res = record res { headers = erase_field key res.headers }

-- The handler that a moved response takes, and the one that it leaves.
abbrev pub moved_handler : Bool → Option ℕ → Option ℕ × Option ℕ
moved_handler true handler = (none, handler)
moved_handler false handler = (handler, none)

-- A body that is moved from keeps its kind, without its text or its file.
abbrev pub left_body : Body → Body
left_body (string_body text) = string_body []
left_body (file_body file) = file_body none
left_body (base64_file_body file) = base64_file_body none

-- `Response(Response&&)`: the new response and the one that it is made from. The fields and the value that are moved
-- from are left empty; the hash that is expected stays behind.
unfoldable pub move_construct : Response → Response × Response
move_construct r =
    let (taken, left) = moved_handler r.completed r.complete_request_handler in
    (
      record new_response {
        body = r.body;
        status = r.status;
        headers = r.headers;
        json_value = r.json_value;
        completed = r.completed;
        complete_request_handler = taken;
        is_alive_helper = r.is_alive_helper;
      },
      record r {
        body = left_body r.body;
        headers = [];
        json_value = null;
        complete_request_handler = left;
        is_alive_helper = none;
      },
    )

-- `operator=(Response&&)` of two responses that are not the same.
unfoldable pub move_assign : Response → Response → Response × Response
move_assign this r =
    let (taken, left) = moved_handler r.completed r.complete_request_handler in
    (
      record this {
        body = r.body;
        status = r.status;
        headers = r.headers;
        json_value = r.json_value;
        completed = r.completed;
        complete_request_handler = taken;
        is_alive_helper = r.is_alive_helper;
      },
      record r {
        body = left_body r.body;
        headers = [];
        json_value = null;
        complete_request_handler = left;
        is_alive_helper = none;
      },
    )

-- `copyBody` of a response whose body is a file does nothing; a file that is the target's is given up with its header.
abbrev pub copied : Body → Body → Response → Response
copied (string_body text) (string_body old) this = record this { body = string_body text }
copied (string_body text) _ this = record this {
  body = string_body text;
  status = 200;
  headers = [];
}
copied _ target this = this

unfoldable pub copy_body : Response → Response → Response
copy_body res this = copied res.body this.body this

abbrev pub is_completed : Response → Bool
is_completed res = res.completed

abbrev body_text : Body → Option Bytes
body_text (string_body text) = some text
body_text _ = none

abbrev pub body_of : Response → Option Bytes
body_of res = body_text res.body

-- The library's `keep_alive` of a message of HTTP/1.1 sets or clears the field Connection.
abbrev pub keep_alive : (Bool → HeaderFields → HeaderFields) → Bool → Response → Response
keep_alive set_keep_alive k res = record res { headers = set_keep_alive k res.headers }

-- `getContentLength`: the size of the body, and nothing where the status allows none.
unfoldable pub get_content_length : Option ℕ → Response → ℕ
get_content_length none res = 0
get_content_length (some size) res =
    if ltb 0 size && (res.status / 100 == 1 || (res.status == 204 || res.status == 304))
    then 0
    else size

-- `preparePayload`, with the library's size of a body, and its `content_length`.
unfoldable pub prepare_payload :
    (Body → Option ℕ) → (ℕ → HeaderFields → HeaderFields) → Response → Response
prepare_payload payload_size content_length res = record res {
  headers = content_length (get_content_length (payload_size res.body) res) res.headers;
}

-- `generator`: the message that is taken out, as its status, fields and body, and what is left.
unfoldable pub generator : Response → Response × (ℕ × (HeaderFields × Body))
generator res =
    (record res { body = left_body res.body; headers = [] }, (res.status, (res.headers, res.body)))

unfoldable pub clear : Response → Response
clear res = record res {
  body = string_body [];
  status = 200;
  headers = [];
  json_value = null;
  completed = false;
  expected_hash = none;
}

-- `empty()` of a value: null, or an array or an object without elements.
abbrev pub json_empty : Json → Bool
json_empty null = true
json_empty (array no_items) = true
json_empty (object no_members) = true
json_empty _ = false

abbrev quoted : Bytes → Bytes
quoted text = b'"' ∷ text ++ (b'"' ∷ [])

abbrev pub with_etag : Bytes → Response → Response
with_etag [] res = res
with_etag (c ∷ etag) res = add_header (codes "ETag") (c ∷ etag) res

abbrev pub complete : Response → Response × Option ℕ
complete res =
    if res.completed
    then (res, none)
    else (record res { completed = true }, res.complete_request_handler)

-- The hash of a value is the standard library's and the JSON library's.
module _ (hash : Json → ℕ) where
  unfoldable pub etag_of : Json → Bytes
  etag_of value = quoted (int_to_hex_string (hash value) 8)

  unfoldable pub compute_etag : Response → Bytes
  compute_etag res =
      if not (res.status == 200) || json_empty res.json_value then [] else etag_of res.json_value

  -- The response, and the handler that is called with it.
  unfoldable pub end_response : Response → Response × Option ℕ
  end_response res = complete (with_etag (compute_etag res) res)

  unfoldable pub set_hash_and_handle_not_modified : Response → Response
  set_hash_and_handle_not_modified res =
      let tagged = add_header (codes "ETag") (etag_of res.json_value) res in
      if json_empty res.json_value || not (res.status == 200)
      then res
      else elim tagged.expected_hash [
        | none ↦ tagged
        | some expected ↦
            if bytes_eq (etag_of res.json_value) expected
            then record tagged { json_value = null; status = 304 }
            else tagged
      ]

abbrev written : Body → Bytes → Body
written (string_body text) part = string_body (text ++ part)
written (file_body file) part = string_body part
written (base64_file_body file) part = string_body part

-- A file that was the body is given up, and the header stays.
unfoldable pub write : Bytes → Response → Response
write part res = record res { body = written res.body part }

unfoldable pub set_complete_request_handler : Option ℕ → Response → Response
set_complete_request_handler handler res = record res {
  complete_request_handler = handler;
  completed = false;
}

unfoldable pub release_complete_request_handler : Response → Response × Option ℕ
release_complete_request_handler res =
    (record res { complete_request_handler = none; completed = true }, res.complete_request_handler)

unfoldable pub set_is_alive_helper : Option ℕ → Response → Response
set_is_alive_helper helper res = record res { is_alive_helper = helper }

unfoldable pub release_is_alive_helper : Response → Response × Option ℕ
release_is_alive_helper res = (record res { is_alive_helper = none }, res.is_alive_helper)

unfoldable pub set_expected_hash : Bytes → Response → Response
set_expected_hash hash res = record res { expected_hash = some hash }

-- `openFile` and `openBase64File`: the descriptor of the file, or none where it cannot be opened.
abbrev opened : (Option ℕ → Body) → Option ℕ → Response → Response × Bool
opened kind none res = (res, false)
opened kind (some fd) res = (record res { body = kind (some fd) }, true)

unfoldable pub open_file : Option ℕ → Response → Response × Bool
open_file file res = opened file_body file res

unfoldable pub open_base64_file : Option ℕ → Response → Response × Bool
open_base64_file file res = opened base64_file_body file res
