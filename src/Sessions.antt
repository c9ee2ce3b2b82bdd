-- ===== src/Sessions.antt =====
-- sessions.hpp: UserSession, AuthConfigMethods and SessionStore. The clock is read in nanoseconds, and an operation
-- takes each reading as an argument; a pointer to a session that is kept nowhere else is the session.
pub mod Generating
pub mod Restoring
pub mod Lookup
pub mod Invariant
pub mod Operations
mod Tests
use crow_core.Common.{
  ℕ, zero, suc, ◌+◌, ◌*◌, Bytes, codes, ℤ, pos, negsuc, List, [], ◌∷◌, ◌++◌, Option, none, some,
  Bool, true, false, not, ◌&&◌, ◌||◌, ltb, leb, ◌==◌, if◌then◌else◌, length, get_or, bytes_eq,
  ◌>>=◌,
}

abbrev pub session_token_size : ℕ
session_token_size = 20

pub data PersistenceType : Type 0 where
  timeout single_request : PersistenceType

abbrev pub is_timeout : PersistenceType → Bool
is_timeout timeout = true
is_timeout single_request = false

abbrev pub same_persistence : PersistenceType → PersistenceType → Bool
same_persistence timeout timeout = true
same_persistence single_request single_request = true
same_persistence _ _ = false

pub record UserSession : Type 0 where
  pub unique_id : Bytes
  pub session_token : Bytes
  pub username : Bytes
  pub csrf_token : Bytes
  pub client_id : Option Bytes
  pub client_ip : Bytes
  pub last_updated : ℕ
  pub persistence : PersistenceType
  pub cookie_auth : Bool
  pub is_configure_self_only : Bool
  pub user_role : Bytes
  pub user_groups : List Bytes

pub record AuthConfigMethods : Type 0 where
  pub basic : Bool
  pub session_token : Bool
  pub xtoken : Bool
  pub cookie : Bool
  pub tls : Bool

-- `authTokens` in the order of its iterator.
pub record SessionStore : Type 0 where
  pub auth_tokens : List (Bytes × UserSession)
  pub last_timeout_update : ℕ
  pub need_write : Bool
  pub timeout_in_seconds : ℤ
  pub auth_methods_config : AuthConfigMethods

-- The methods that are on from the start depend on the build.
unfoldable pub new_session_store : AuthConfigMethods → SessionStore
new_session_store methods = record {
  auth_tokens = [];
  last_timeout_update = 0;
  need_write = false;
  timeout_in_seconds = pos 1800;
  auth_methods_config = methods;
}

unfoldable pub find_token : Bytes → List (Bytes × UserSession) → Option UserSession
find_token token [] = none
find_token token ((key, session) ∷ entries) =
    let rest = find_token token entries in if bytes_eq key token then some session else rest

unfoldable pub erase_token : Bytes → List (Bytes × UserSession) → List (Bytes × UserSession)
erase_token token [] = []
erase_token token ((key, session) ∷ entries) =
    let rest = erase_token token entries in
    if bytes_eq key token then rest else (key, session) ∷ rest

-- The entries whose sessions do not pass the test.
unfoldable pub erase_if :
    (UserSession → Bool) → List (Bytes × UserSession) → List (Bytes × UserSession)
erase_if test [] = []
erase_if test ((key, session) ∷ entries) =
    let rest = erase_if test entries in if test session then rest else (key, session) ∷ rest

unfoldable pub exists_if : (UserSession → Bool) → List (Bytes × UserSession) → Bool
exists_if test [] = false
exists_if test ((key, session) ∷ entries) = test session || exists_if test entries

-- `timeNow - lastUpdated >= timeoutInSeconds`.
abbrev pub is_expired : ℕ → ℤ → UserSession → Bool
is_expired now (pos seconds) session = leb (session.last_updated + seconds * 1000000000) now
is_expired now (negsuc seconds) session = leb session.last_updated (now + suc seconds * 1000000000)

abbrev pub is_due : ℕ → SessionStore → Bool
is_due now store = ltb (store.last_timeout_update + 1000000000) now

unfoldable pub sweep : ℕ → SessionStore → SessionStore
sweep now store =
    let test = is_expired now store.timeout_in_seconds in
    record store {
      auth_tokens = erase_if test store.auth_tokens;
      last_timeout_update = now;
      need_write = store.need_write || exists_if test store.auth_tokens;
    }

unfoldable pub apply_session_timeouts : ℕ → SessionStore → SessionStore
apply_session_timeouts now store = if is_due now store then sweep now store else store

-- Every entry under the token, with its session as it is at the time.
unfoldable pub refresh : Bytes → ℕ → List (Bytes × UserSession) → List (Bytes × UserSession)
refresh token now [] = []
refresh token now ((key, session) ∷ entries) =
    let rest = refresh token now entries in
    if bytes_eq key token
    then (key, record session { last_updated = now }) ∷ entries
    else (key, session) ∷ rest

abbrev found_session :
    Bytes → ℕ → SessionStore → Option UserSession → SessionStore × Option UserSession
found_session token now store none = (store, none)
found_session token now store (some session) = (
  record store { auth_tokens = refresh token now store.auth_tokens },
  some (record session { last_updated = now }),
)

-- The clock is read for the timeouts, and again for the session.
unfoldable pub login_session_by_token :
    ℕ → ℕ → Bytes → SessionStore → SessionStore × Option UserSession
login_session_by_token now later token store =
    let swept = apply_session_timeouts now store in
    if not (length token == session_token_size)
    then (swept, none)
    else found_session token later swept (find_token token swept.auth_tokens)

unfoldable pub find_uid : Bytes → List (Bytes × UserSession) → Option UserSession
find_uid uid [] = none
find_uid uid ((key, session) ∷ entries) =
    let rest = find_uid uid entries in if bytes_eq session.unique_id uid then some session else rest

unfoldable pub get_session_by_uid : ℕ → Bytes → SessionStore → SessionStore × Option UserSession
get_session_by_uid now uid store =
    let swept = apply_session_timeouts now store in (swept, find_uid uid swept.auth_tokens)

unfoldable pub remove_session : UserSession → SessionStore → SessionStore
remove_session session store = record store {
  auth_tokens = erase_token session.session_token store.auth_tokens;
  need_write = true;
}

unfoldable pub ids_of : Bool → PersistenceType → List (Bytes × UserSession) → List Bytes
ids_of get_all type [] = []
ids_of get_all type ((key, session) ∷ entries) =
    let rest = ids_of get_all type entries in
    if get_all || same_persistence type session.persistence then session.unique_id ∷ rest else rest

unfoldable pub get_unique_ids :
    ℕ → Bool → PersistenceType → SessionStore → SessionStore × List Bytes
get_unique_ids now get_all type store =
    let swept = apply_session_timeouts now store in (swept, ids_of get_all type swept.auth_tokens)

unfoldable pub remove_sessions_by_username : Bytes → SessionStore → SessionStore
remove_sessions_by_username name store = record store {
  auth_tokens = erase_if (λ session. bytes_eq session.username name) store.auth_tokens;
}

abbrev differ : Bool → Bool → Bool
differ true b = not b
differ false b = b

-- The store, and whether SIGHUP is raised.
unfoldable pub update_auth_methods_config : AuthConfigMethods → SessionStore → SessionStore × Bool
update_auth_methods_config config store = (
  record store { auth_methods_config = config; need_write = true },
  differ store.auth_methods_config.tls config.tls,
)

unfoldable pub update_session_timeout : ℤ → SessionStore → SessionStore
update_session_timeout seconds store = record store {
  timeout_in_seconds = seconds;
  need_write = true;
}

abbrev pub get_timeout_in_seconds : SessionStore → ℤ
get_timeout_in_seconds store = store.timeout_in_seconds
