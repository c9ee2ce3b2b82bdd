-- ===== src/Errors/Logs/Sending.antt =====
-- redfish_event/src/error_messages.cpp: what the functions for the messages have in common. The library's `dump` of
-- a value at an indentation is a parameter of those that print a value.
use crow_core.Common.{ℕ, Bytes, ℤ, Option, some, ◌>>=◌}
use crow_core.Json.{Json}
use crow_core.Response.{Response}
use crow_core.Errors.{add_message_to_error_json, add_message_to_json_root, add_message_to_json}

abbrev pub Dump : Type 0
Dump = ℤ → Json → Bytes

-- The statuses that the messages set.
abbrev pub ok : ℕ
ok = 200

abbrev pub created_status : ℕ
created_status = 201

abbrev pub bad_request : ℕ
bad_request = 400

abbrev pub unauthorized : ℕ
unauthorized = 401

abbrev pub forbidden : ℕ
forbidden = 403

abbrev pub not_found : ℕ
not_found = 404

abbrev pub method_not_allowed : ℕ
method_not_allowed = 405

abbrev pub conflict : ℕ
conflict = 409

abbrev pub precondition_failed_status : ℕ
precondition_failed_status = 412

abbrev pub internal_server_error : ℕ
internal_server_error = 500

abbrev pub bad_gateway : ℕ
bad_gateway = 502

abbrev pub service_unavailable : ℕ
service_unavailable = 503

abbrev pub insufficient_storage_status : ℕ
insufficient_storage_status = 507

-- `res.jsonValue` after a call that adds to it.
unfoldable pub add_error : Option Json → Response → Option Response
add_error message res = do
  m ← message
  value ← add_message_to_error_json res.json_value m
  some (record res { json_value = value })

unfoldable pub add_to_root : Option Json → Response → Option Response
add_to_root message res = do
  m ← message
  value ← add_message_to_json_root res.json_value m
  some (record res { json_value = value })

unfoldable pub add_to_field : Option Json → Bytes → Response → Option Response
add_to_field message field_path res = do
  m ← message
  value ← add_message_to_json res.json_value m field_path
  some (record res { json_value = value })
