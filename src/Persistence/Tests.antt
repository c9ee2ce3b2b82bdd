-- ===== src/Persistence/Tests.antt =====
-- http/persistent_data.hpp: a file with a concrete session.
use crow_core.Common.{pos, codes, [], ◌∷◌, some, Bool, true, false, ◌≡◌, refl, arith}
use crow_core.Sessions.{UserSession, AuthConfigMethods, timeout, find_token}
use crow_core.Sessions.Lookup.{IsValid}
use crow_core.Subscriptions.{SetHeader, new_event_service_store}
use crow_core.Persistence.{ConfigFile}
use crow_core.Persistence.Restored.{persisted}
use crow_core.Persistence.Roundtrip.{read_back, read_back-written}

abbrev methods : Bool → AuthConfigMethods
methods on = record { basic = on; session_token = on; xtoken = on; cookie = on; tls = on }

abbrev a_session : UserSession
a_session = record {
  unique_id = codes "0123456789";
  session_token = codes "abc";
  username = codes "root";
  csrf_token = codes "def";
  client_id = some (codes "c");
  client_ip = codes "10.0.0.1";
  last_updated = 3;
  persistence = timeout;
  cookie_auth = true;
  is_configure_self_only = false;
  user_role = [];
  user_groups = [];
}

abbrev a_file : ConfigFile
a_file = record {
  system_uuid = codes "u";
  sessions = record {
    auth_tokens = (codes "abc", a_session) ∷ [];
    last_timeout_update = 0;
    need_write = true;
    timeout_in_seconds = pos 60;
    auth_methods_config = methods true;
  };
  events = new_event_service_store;
}

a_file-IsValid : IsValid a_file.sessions.auth_tokens
unfolding IsValid find_token
a_file-IsValid = (refl, refl, tt)

abbrev set_header : SetHeader
set_header key value headers = (key, value) ∷ headers

read_back-written_example :
    ((read_back set_header (codes "v") 9 (methods false) a_file).1 ≡ false)
    × ((read_back set_header (codes "v") 9 (methods false) a_file).0.system_uuid
        ≡ a_file.system_uuid)
    × ((read_back set_header (codes "v") 9 (methods false) a_file).0.sessions.auth_methods_config
        ≡ a_file.sessions.auth_methods_config)
    × ((read_back set_header (codes "v") 9 (methods false) a_file).0.sessions.timeout_in_seconds
        ≡ a_file.sessions.timeout_in_seconds)
    × ((read_back set_header (codes "v") 9 (methods false) a_file).0.events.event_service_config
        ≡ a_file.events.event_service_config)
    × (find_token
          (codes "abc")
          (read_back set_header (codes "v") 9 (methods false) a_file).0.sessions.auth_tokens
        ≡ persisted 9 (find_token (codes "abc") a_file.sessions.auth_tokens))
read_back-written_example =
    read_back-written set_header (codes "v") 9 (methods false) a_file (codes "abc") a_file-IsValid
      ((refl, refl, refl, refl), tt) (omega arith) (omega arith) (omega arith) refl
