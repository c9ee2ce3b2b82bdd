-- ===== src/Sessions/Generating.antt =====
-- sessions.hpp, class `SessionStore`: `generateUserSession`.
use crow_core.Common.{
  ℕ, zero, suc, Bytes, codes, List, [], ◌∷◌, Option, none, some, Bool, false, get_or, ◌>>=◌,
}
use crow_core.Sessions.{
  session_token_size, PersistenceType, is_timeout, UserSession, SessionStore, find_token,
}

abbrev pub alphanum : Bytes
alphanum = codes "0123456789ABCDEFGHIJKLMNOPQRSTUVWXYZabcdefghijklmnopqrstuvwxyz"

-- So many characters from the numbers that are drawn, the first of them at an index; an error of the generator ends it.
unfoldable pub random_text : (ℕ → Option ℕ) → ℕ → ℕ → Option Bytes
random_text draw index zero = some []
random_text draw index (suc size) = do
  number ← draw index
  rest ← random_text draw (suc index) size
  some (get_or alphanum number 0 ∷ rest)

-- `emplace` of a token that is there leaves the session that is there.
abbrev pub add_entry :
    UserSession → Option UserSession → List (Bytes × UserSession) → List (Bytes × UserSession)
add_entry session (some there) entries = entries
add_entry session none entries = (session.session_token, session) ∷ entries

abbrev pub session_or : UserSession → Option UserSession → UserSession
session_or session (some there) = there
session_or session none = session

unfoldable pub emplace_session : UserSession → SessionStore → SessionStore × UserSession
emplace_session session store =
    let there = find_token session.session_token store.auth_tokens in
    (
      record store {
        auth_tokens = add_entry session there store.auth_tokens;
        need_write = is_timeout session.persistence;
      },
      session_or session there,
    )

-- The numbers are drawn for the token, for the CSRF token and for the id; without one of them there is no session.
unfoldable pub new_user_session :
    (ℕ → Option ℕ) → ℕ → Bytes → Bytes → Option Bytes → PersistenceType → Bool → Option UserSession
new_user_session draw now user ip client kind configure_self_only = do
  token ← random_text draw 0 session_token_size
  csrf ← random_text draw 20 session_token_size
  uid ← random_text draw 40 10
  some (record {
    unique_id = uid;
    session_token = token;
    username = user;
    csrf_token = csrf;
    client_id = client;
    client_ip = ip;
    last_updated = now;
    persistence = kind;
    cookie_auth = false;
    is_configure_self_only = configure_self_only;
    user_role = [];
    user_groups = [];
  })

abbrev emplace_or_none : Option UserSession → SessionStore → SessionStore × Option UserSession
emplace_or_none none store = (store, none)
emplace_or_none (some session) store =
    let (store', there) = emplace_session session store in (store', some there)

unfoldable pub generate_user_session :
    (ℕ → Option ℕ)
    → ℕ
    → Bytes
    → Bytes
    → Option Bytes
    → PersistenceType
    → Bool
    → SessionStore
    → SessionStore × Option UserSession
unfolding emplace_session
generate_user_session draw now user ip client kind configure_self_only store =
    emplace_or_none (new_user_session draw now user ip client kind configure_self_only) store
