-- ===== src/Persistence/Restored.antt =====
-- http/persistent_data.hpp: the sessions that are read, beside those that were written.
use crow_core.Common.{
  ℕ, suc, Bytes, List, [], ◌∷◌, All, Option, none, some, true, false, if◌then◌else◌, bytes_eq,
  bytes_eq_iff, ◌≡◌, refl, sym, ap, ◌∙◌, subst, Bool-cases, Option-cases, inl, inr, ◌⊎◌,
}
use crow_core.Json.{Json, items_of, items, items_from, member_list}
use crow_core.Sessions.{
  UserSession, SessionStore, PersistenceType, timeout, single_request, find_token, same_persistence,
}
use crow_core.Sessions.Generating.{session_or}
use crow_core.Sessions.Restoring.{
  new_user_session_fields, set_field, read_fields, check_fields, user_session_from_json,
}
use crow_core.Sessions.Lookup.{IsValid}
use crow_core.Sessions.Operations.{emplaced}
use crow_core.Subscriptions.{is_empty}
use crow_core.Persistence.{emplace_restored, read_sessions, session_json, write_sessions}

-- The four texts without which a session is not restored.
abbrev pub HasFields : Bytes × UserSession → Type 0
HasFields (key, session) =
    (is_empty session.unique_id ≡ false)
    × (is_empty session.username ≡ false)
    × (is_empty session.session_token ≡ false)
    × (is_empty session.csrf_token ≡ false)

-- A session as it is restored at a time.
abbrev pub restored : ℕ → UserSession → UserSession
restored now session = record new_user_session_fields {
  unique_id = session.unique_id;
  session_token = session.session_token;
  username = session.username;
  csrf_token = session.csrf_token;
  client_id = session.client_id;
  client_ip = session.client_ip;
  last_updated = now;
  persistence = timeout;
}

-- Only a session that times out is kept.
abbrev pub restored_if : ℕ → UserSession → PersistenceType → Option UserSession
restored_if now session timeout = some (restored now session)
restored_if now session single_request = none

abbrev pub persisted : ℕ → Option UserSession → Option UserSession
persisted now none = none
persisted now (some session) = restored_if now session session.persistence

abbrev or_else : Option UserSession → Option UserSession → Option UserSession
or_else none other = other
or_else (some session) other = some session

session_json-restored :
    (now : ℕ) (key : Bytes) (session : UserSession)
    → HasFields (key, session)
    → user_session_from_json now (session_json session) ≡ some (restored now session)
unfolding user_session_from_json check_fields read_fields set_field items member_list session_json
    bytes_eq
session_json-restored now key session (id, name, token, csrf) =
    elim (Option-cases session.client_id) [
      | inl no_client ↦ rw (no_client, id, name, token, csrf) refl
      | inr (client, has_client) ↦ rw (has_client, id, name, token, csrf) refl
    ]

pub read_sessions-fields :
    (now : ℕ) (elems : List (Bytes × Json)) (store : SessionStore)
    → ((read_sessions now elems store).timeout_in_seconds ≡ store.timeout_in_seconds)
      × ((read_sessions now elems store).auth_methods_config ≡ store.auth_methods_config)
unfolding read_sessions
read_sessions-fields now [] store = (refl, refl)
read_sessions-fields now ((key, elem) ∷ rest) store =
    elim (Option-cases (user_session_from_json now elem)) [
      | inl refused ↦ rw (refused, read_sessions) (read_sessions-fields now rest store)
      | inr (session, made) ↦
          rw (made, read_sessions)
            (read_sessions-fields now rest (emplace_restored (some session) store))
    ]

-- A session that is found first, before those that are read after it.
or_else-first :
    (new : UserSession) (old later : Option UserSession)
    → or_else (some (session_or new old)) later ≡ or_else old (some new)
or_else-first new none later = refl
or_else-first new (some there) later = refl

or_else-none : (old : Option UserSession) → or_else old none ≡ old
or_else-none none = refl
or_else-none (some there) = refl

same_persistence-restored :
    (now : ℕ) (session : UserSession)
    → ((same_persistence session.persistence single_request ≡ true)
        × (persisted now (some session) ≡ none))
      ⊎ ((same_persistence session.persistence single_request ≡ false)
          × (persisted now (some session) ≡ some (restored now session)))
same_persistence-restored now session = kinds session.persistence
  where
    kinds :
        (kind : PersistenceType)
        → ((same_persistence kind single_request ≡ true) × (restored_if now session kind ≡ none))
          ⊎ ((same_persistence kind single_request ≡ false)
              × (restored_if now session kind ≡ some (restored now session)))
    kinds timeout = inr (refl, refl)
    kinds single_request = inl (refl, refl)

persisted-skipped :
    (now : ℕ) (key token : Bytes) (session : UserSession) (entries : List (Bytes × UserSession))
    → find_token key entries ≡ none
    → persisted now (some session) ≡ none
    → persisted now (find_token token entries)
      ≡ persisted now (find_token token ((key, session) ∷ entries))
unfolding find_token
persisted-skipped now key token session entries alone gone =
    elim (Bool-cases (bytes_eq key token)) [
      | inl same ↦
          let absent : find_token token entries ≡ none =
            subst (λ t. find_token t entries ≡ none) ((bytes_eq_iff key token).0 same) alone in
          ap (persisted now) absent ∙ sym gone ∙ ap (persisted now) (found same)
      | inr other ↦ ap (persisted now) (passed other)
    ]
  where
    found : bytes_eq key token ≡ true → some session ≡ find_token token ((key, session) ∷ entries)
    found same = rw same refl

    passed :
        bytes_eq key token ≡ false
        → find_token token entries ≡ find_token token ((key, session) ∷ entries)
    passed other = rw other refl

persisted-kept :
    (now : ℕ) (key token : Bytes) (session : UserSession) (entries : List (Bytes × UserSession))
    (old : Option UserSession)
    → key ≡ session.session_token
    → find_token key entries ≡ none
    → persisted now (some session) ≡ some (restored now session)
    → or_else
        (if bytes_eq session.session_token token
          then some (session_or (restored now session) old)
          else old)
        (persisted now (find_token token entries))
      ≡ or_else old (persisted now (find_token token ((key, session) ∷ entries)))
unfolding find_token
persisted-kept now key token session entries old own alone kept =
    elim (Bool-cases (bytes_eq key token)) [
      | inl same ↦
          let absent : find_token token entries ≡ none =
            subst (λ t. find_token t entries ≡ none) ((bytes_eq_iff key token).0 same) alone in
          let here : bytes_eq session.session_token token ≡ true =
            subst (λ k. bytes_eq k token ≡ true) own same in
          rw (here, same, kept)
            (or_else-first (restored now session) old (persisted now (find_token token entries)))
      | inr other ↦
          let there : bytes_eq session.session_token token ≡ false =
            subst (λ k. bytes_eq k token ≡ false) own other in
          rw (there, other) refl
    ]

pub find_token-restored :
    (now index : ℕ) (token : Bytes) (entries : List (Bytes × UserSession)) (store : SessionStore)
    → IsValid entries
    → All HasFields entries
    → find_token token
        (read_sessions now (items_from index (items_of (write_sessions entries))) store).auth_tokens
      ≡ or_else (find_token token store.auth_tokens) (persisted now (find_token token entries))
unfolding read_sessions items_from items_of write_sessions find_token IsValid
find_token-restored now index token [] store valid fields =
    sym (or_else-none (find_token token store.auth_tokens))
find_token-restored now index token ((key, session) ∷ entries) store (own, alone, valid)
      (has, fields) =
    elim (same_persistence-restored now session) [
      | inl (single, gone) ↦
          let rest = find_token-restored now index token entries store valid fields in
          rw (single, write_sessions)
            (rest
              ∙ ap (or_else (find_token token store.auth_tokens))
                  (persisted-skipped now key token session entries alone gone))
      | inr (lasting, kept) ↦
          let store' = emplace_restored (some (restored now session)) store in
          let rest = find_token-restored now (suc index) token entries store' valid fields in
          let made = session_json-restored now key session has in
          rw (lasting, write_sessions, items_of, items_from, read_sessions, made)
            (rest
              ∙ ap (λ o. or_else o (persisted now (find_token token entries)))
                  (emplaced (restored now session) token store.auth_tokens)
              ∙ persisted-kept now key token session entries (find_token token store.auth_tokens)
                  own alone kept)
    ]
