-- ===== src/Sessions/Invariant.antt =====
-- sessions.hpp: the states that a SessionStore can reach.
use crow_core.Common.{
  ℕ, ◌==◌, Bytes, ℤ, Option, Bool, length, bytes_eq, refl, Bool-cases, Option-cases, inl, inr,
}
use crow_core.Sessions.{
  UserSession, AuthConfigMethods, SessionStore, PersistenceType, new_session_store, find_token,
  is_expired, is_due, sweep, apply_session_timeouts, session_token_size, login_session_by_token,
  get_session_by_uid, remove_session, get_unique_ids, remove_sessions_by_username,
  update_auth_methods_config, update_session_timeout,
}
use crow_core.Sessions.Generating.{emplace_session, new_user_session, generate_user_session}
use crow_core.Sessions.Lookup.{IsValid, erase_if-IsValid, erase_token-IsValid, refresh-IsValid}

-- One operation on the store, with the clock's readings and the numbers drawn as they happen to be.
pub data Step : SessionStore → SessionStore → Type 0 where
  generate :
      {store : SessionStore} (draw : ℕ → Option ℕ) (now : ℕ) (user ip : Bytes)
      (client : Option Bytes) (kind : PersistenceType) (only : Bool)
      → Step store (generate_user_session draw now user ip client kind only store).0
  login :
      {store : SessionStore} (now later : ℕ) (token : Bytes)
      → Step store (login_session_by_token now later token store).0
  by_uid :
      {store : SessionStore} (now : ℕ) (uid : Bytes)
      → Step store (get_session_by_uid now uid store).0
  remove :
      {store : SessionStore} (session : UserSession) → Step store (remove_session session store)
  unique_ids :
      {store : SessionStore} (now : ℕ) (all : Bool) (kind : PersistenceType)
      → Step store (get_unique_ids now all kind store).0
  remove_user :
      {store : SessionStore} (name : Bytes) → Step store (remove_sessions_by_username name store)
  auth_methods :
      {store : SessionStore} (config : AuthConfigMethods)
      → Step store (update_auth_methods_config config store).0
  set_timeout :
      {store : SessionStore} (seconds : ℤ) → Step store (update_session_timeout seconds store)
  timeouts : {store : SessionStore} (now : ℕ) → Step store (apply_session_timeouts now store)

-- What a new store becomes by operations.
pub data Reachable : SessionStore → Type 0 where
  start : (methods : AuthConfigMethods) → Reachable (new_session_store methods)
  then_step : {store store' : SessionStore} → Reachable store → Step store store' → Reachable store'

-- An entry is added where the token is new.
emplace_session-IsValid :
    (session : UserSession) (store : SessionStore)
    → IsValid store.auth_tokens
    → IsValid (emplace_session session store).0.auth_tokens
unfolding emplace_session IsValid
emplace_session-IsValid session store h =
    elim (Option-cases (find_token session.session_token store.auth_tokens)) [
      | inl new ↦ rw (new, IsValid) (refl, new, h)
      | inr (there, found) ↦ rw found h
    ]

generate-IsValid :
    (draw : ℕ → Option ℕ) (now : ℕ) (user ip : Bytes) (client : Option Bytes)
    (kind : PersistenceType) (only : Bool) (store : SessionStore)
    → IsValid store.auth_tokens
    → IsValid (generate_user_session draw now user ip client kind only store).0.auth_tokens
unfolding generate_user_session
generate-IsValid draw now user ip client kind only store h =
    elim (Option-cases (new_user_session draw now user ip client kind only)) [
      | inl none_made ↦ rw none_made h
      | inr (session, made) ↦ rw made (emplace_session-IsValid session store h)
    ]

pub timeouts-IsValid :
    (now : ℕ) (store : SessionStore)
    → IsValid store.auth_tokens
    → IsValid (apply_session_timeouts now store).auth_tokens
unfolding apply_session_timeouts sweep
timeouts-IsValid now store h = elim (Bool-cases (is_due now store)) [
  | inl due ↦
      rw due (erase_if-IsValid (is_expired now store.timeout_in_seconds) store.auth_tokens h)
  | inr early ↦ rw early h
]

login-IsValid :
    (now later : ℕ) (token : Bytes) (store : SessionStore)
    → IsValid store.auth_tokens
    → IsValid (login_session_by_token now later token store).0.auth_tokens
unfolding login_session_by_token
login-IsValid now later token store h =
    let swept = apply_session_timeouts now store in
    let valid = timeouts-IsValid now store h in
    elim (Bool-cases (length token == session_token_size)) [
      | inr wrong ↦ rw wrong valid
      | inl right ↦ elim (Option-cases (find_token token swept.auth_tokens)) [
        | inl unknown ↦ rw (right, unknown) valid
        | inr (session, found) ↦
            rw (right, found) (refresh-IsValid later token swept.auth_tokens valid)
      ]
    ]

Step-IsValid :
    {store store' : SessionStore}
    → Step store store'
    → IsValid store.auth_tokens
    → IsValid store'.auth_tokens
unfolding get_session_by_uid get_unique_ids remove_session remove_sessions_by_username
    update_auth_methods_config update_session_timeout
Step-IsValid {store = store} (generate draw now user ip client kind only) h =
    generate-IsValid draw now user ip client kind only store h
Step-IsValid {store = store} (login now later token) h = login-IsValid now later token store h
Step-IsValid {store = store} (by_uid now uid) h = timeouts-IsValid now store h
Step-IsValid {store = store} (remove session) h =
    erase_token-IsValid session.session_token store.auth_tokens h
Step-IsValid {store = store} (unique_ids now all kind) h = timeouts-IsValid now store h
Step-IsValid {store = store} (remove_user name) h =
    erase_if-IsValid (λ session. bytes_eq session.username name) store.auth_tokens h
Step-IsValid (auth_methods config) h = h
Step-IsValid (set_timeout seconds) h = h
Step-IsValid {store = store} (timeouts now) h = timeouts-IsValid now store h

-- In every store that operations make of a new one, each session stands under its own token, and no two under the same.
pub Reachable-IsValid : {store : SessionStore} → Reachable store → IsValid store.auth_tokens
unfolding new_session_store IsValid
Reachable-IsValid (start methods) = tt
Reachable-IsValid (then_step r step) = Step-IsValid step (Reachable-IsValid r)
