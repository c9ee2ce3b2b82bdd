-- ===== src/Sessions/Operations.antt =====
-- sessions.hpp: the operations of a SessionStore on the map from tokens to sessions that it stands for.
use crow_core.Common.{
  ℕ, ◌==◌, Bytes, List, Option, none, some, Bool, length, if◌then◌else◌, bytes_eq, bytes_eq_iff,
  ◌≡◌, refl, sym, ap, ◌∙◌, subst, Bool-cases, Option-cases, inl, inr,
}
use crow_core.Sessions.{
  UserSession, SessionStore, PersistenceType, find_token, is_expired, is_due, sweep,
  apply_session_timeouts, session_token_size, login_session_by_token, remove_session,
  remove_sessions_by_username,
}
use crow_core.Sessions.Generating.{
  emplace_session, new_user_session, generate_user_session, session_or, add_entry,
}
use crow_core.Sessions.Lookup.{
  IsValid, unless, used, find_token-erase_if, find_token-erase_token, find_token-refresh,
}
use crow_core.Sessions.Invariant.{Reachable, Reachable-IsValid}

-- A session by its token.
unfoldable pub view : SessionStore → Bytes → Option UserSession
view store token = find_token token store.auth_tokens

-- A session that is there at a time: where the timeouts are due, one that has expired is not.
unfoldable pub alive : ℕ → SessionStore → Option UserSession → Option UserSession
alive now store session =
    if is_due now store then unless (is_expired now store.timeout_in_seconds) session else session

view-timeouts :
    (now : ℕ) (store : SessionStore) (token : Bytes)
    → IsValid store.auth_tokens
    → view (apply_session_timeouts now store) token ≡ alive now store (view store token)
unfolding view alive apply_session_timeouts sweep
view-timeouts now store token h = elim (Bool-cases (is_due now store)) [
  | inl due ↦
      rw due
        (find_token-erase_if (is_expired now store.timeout_in_seconds) token store.auth_tokens h)
  | inr early ↦ rw early refl
]

-- The map after a login.
abbrev pub after_login : ℕ → Bytes → (Bytes → Option UserSession) → Bytes → Option UserSession
after_login later token sessions other =
    if bytes_eq token other then used later (sessions other) else sessions other

unused :
    (later : ℕ) (token other : Bytes) (entries : List (Bytes × UserSession))
    → find_token token entries ≡ none
    → find_token other entries ≡ (
        if bytes_eq token other
        then used later (find_token other entries)
        else find_token other entries)
unused later token other entries unknown = elim (Bool-cases (bytes_eq token other)) [
  | inl same ↦
      let gone : find_token other entries ≡ none =
        subst (λ t. find_token t entries ≡ none) ((bytes_eq_iff token other).0 same) unknown in
      rw (same, gone) refl
  | inr differ ↦ rw differ refl
]

-- loginSessionByToken of a reachable store takes out the sessions that have expired, if it is time, and no others.
-- A token of the right length gives its session, if that is still there, with the time of the login, both as the result
-- and in the store; any other token gives none and changes nothing more.
pub login-Refines :
    (now later : ℕ) (token other : Bytes) (store : SessionStore)
    → Reachable store
    → ((login_session_by_token now later token store).1 ≡ (
        if length token == session_token_size
        then used later (alive now store (view store token))
        else none))
      × (view (login_session_by_token now later token store).0 other ≡ (
          if length token == session_token_size
          then after_login later token (λ t. alive now store (view store t)) other
          else alive now store (view store other)))
unfolding login_session_by_token view
login-Refines now later token other store reachable =
    let valid = Reachable-IsValid reachable in
    let swept = apply_session_timeouts now store in
    let at_token = view-timeouts now store token valid in
    let at_other = view-timeouts now store other valid in
    elim (Bool-cases (length token == session_token_size)) [
      | inr wrong ↦ rw wrong (refl, at_other)
      | inl right ↦ elim (Option-cases (find_token token swept.auth_tokens)) [
        | inl unknown ↦
            rw (right, unknown)
              (
                ap (used later) (sym unknown ∙ at_token),
                unused later token other swept.auth_tokens unknown
                    ∙ ap (λ o. if bytes_eq token other then used later o else o) at_other,
              )
        | inr (session, found) ↦
            rw (right, found)
              (
                ap (used later) (sym found ∙ at_token),
                find_token-refresh later token other swept.auth_tokens
                    ∙ ap (λ o. if bytes_eq token other then used later o else o) at_other,
              )
      ]
    ]

-- What removing a session leaves of the map.
pub view-remove_session :
    (session : UserSession) (store : SessionStore) (token : Bytes)
    → view (remove_session session store) token
      ≡ (if bytes_eq session.session_token token then none else view store token)
unfolding view remove_session
view-remove_session session store token =
    find_token-erase_token session.session_token token store.auth_tokens

pub view-remove_user :
    (name : Bytes) (store : SessionStore) (token : Bytes)
    → Reachable store
    → view (remove_sessions_by_username name store) token
      ≡ unless (λ session. bytes_eq session.username name) (view store token)
unfolding view remove_sessions_by_username
view-remove_user name store token reachable =
    find_token-erase_if (λ session. bytes_eq session.username name) token store.auth_tokens
      (Reachable-IsValid reachable)

-- The map with a new session, if its token is new.
abbrev pub with_session : UserSession → (Bytes → Option UserSession) → Bytes → Option UserSession
with_session session sessions token =
    if bytes_eq session.session_token token
    then some (session_or session (sessions token))
    else sessions token

pub emplaced :
    (session : UserSession) (token : Bytes) (entries : List (Bytes × UserSession))
    → find_token token (add_entry session (find_token session.session_token entries) entries)
      ≡ with_session session (λ t. find_token t entries) token
unfolding find_token
emplaced session token entries = elim (Bool-cases (bytes_eq session.session_token token)) [
  | inl same ↦
      let is_token : session.session_token ≡ token =
        (bytes_eq_iff session.session_token token).0 same in
      elim (Option-cases (find_token session.session_token entries)) [
        | inl new ↦
            let unknown : find_token token entries ≡ none =
              subst (λ t. find_token t entries ≡ none) is_token new in
            rw (new, same, unknown) refl
        | inr (there, found) ↦
            let known : find_token token entries ≡ some there =
              subst (λ t. find_token t entries ≡ some there) is_token found in
            rw (found, same, known) refl
      ]
  | inr differ ↦ elim (Option-cases (find_token session.session_token entries)) [
    | inl new ↦ rw (new, differ) refl
    | inr (there, found) ↦ rw (found, differ) refl
  ]
]

-- A session that is made is found under its token at once, and the others stay; where the token was taken, the session
-- that has it is given back in place of the new one, and stays.
pub generate-Refines :
    (draw : ℕ → Option ℕ) (now : ℕ) (user ip : Bytes) (client : Option Bytes)
    (kind : PersistenceType) (only : Bool) (store : SessionStore) (session : UserSession)
    (token : Bytes)
    → new_user_session draw now user ip client kind only ≡ some session
    → ((generate_user_session draw now user ip client kind only store).1
        ≡ some (session_or session (view store session.session_token)))
      × (view (generate_user_session draw now user ip client kind only store).0 token
          ≡ with_session session (view store) token)
unfolding view generate_user_session emplace_session
generate-Refines draw now user ip client kind only store session token made =
    rw made (refl, emplaced session token store.auth_tokens)
