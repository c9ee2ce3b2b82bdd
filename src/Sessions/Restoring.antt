-- ===== src/Sessions/Restoring.antt =====
-- sessions.hpp: UserSession::fromJson and AuthConfigMethods::fromJson.
use crow_core.Common.{
  ℕ, Bytes, codes, List, [], ◌∷◌, Option, none, some, Bool, true, false, ◌||◌, if◌then◌else◌,
  bytes_eq,
}
use crow_core.Json.{items, Json, string, boolean}
use crow_core.Sessions.{UserSession, timeout, AuthConfigMethods}

abbrev pub new_user_session_fields : UserSession
new_user_session_fields = record {
  unique_id = [];
  session_token = [];
  username = [];
  csrf_token = [];
  client_id = none;
  client_ip = [];
  last_updated = 0;
  persistence = timeout;
  cookie_auth = false;
  is_configure_self_only = false;
  user_role = [];
  user_groups = [];
}

unfoldable pub set_field : Bytes → Json → UserSession → UserSession
set_field key (string value) session =
    if bytes_eq key (codes "unique_id")
    then record session { unique_id = value }
    else if bytes_eq key (codes "session_token")
    then record session { session_token = value }
    else if bytes_eq key (codes "csrf_token")
    then record session { csrf_token = value }
    else if bytes_eq key (codes "username")
    then record session { username = value }
    else if bytes_eq key (codes "client_id")
    then record session { client_id = some value }
    else if bytes_eq key (codes "client_ip")
    then record session { client_ip = value }
    else session
set_field key _ session = session

unfoldable pub read_fields : List (Bytes × Json) → UserSession → UserSession
read_fields [] session = session
read_fields ((key, value) ∷ rest) session = read_fields rest (set_field key value session)

abbrev is_empty : Bytes → Bool
is_empty [] = true
is_empty (c ∷ s) = false

unfoldable pub check_fields : ℕ → UserSession → Option UserSession
check_fields now session =
    if is_empty session.unique_id
      || (is_empty session.username
          || (is_empty session.session_token || is_empty session.csrf_token))
    then none
    else some (record session { last_updated = now; persistence = timeout })

unfoldable pub user_session_from_json : ℕ → Json → Option UserSession
user_session_from_json now j = check_fields now (read_fields (items j) new_user_session_fields)

unfoldable pub set_method : Bytes → Json → AuthConfigMethods → AuthConfigMethods
set_method key (boolean value) methods =
    if bytes_eq key (codes "XToken")
    then record methods { xtoken = value }
    else if bytes_eq key (codes "Cookie")
    then record methods { cookie = value }
    else if bytes_eq key (codes "SessionToken")
    then record methods { session_token = value }
    else if bytes_eq key (codes "BasicAuth")
    then record methods { basic = value }
    else if bytes_eq key (codes "TLS")
    then record methods { tls = value }
    else methods
set_method key _ methods = methods

unfoldable pub read_methods : List (Bytes × Json) → AuthConfigMethods → AuthConfigMethods
read_methods [] methods = methods
read_methods ((key, value) ∷ rest) methods = read_methods rest (set_method key value methods)

unfoldable pub auth_config_methods_from_json : Json → AuthConfigMethods → AuthConfigMethods
auth_config_methods_from_json j methods = read_methods (items j) methods
