-- ===== src/Sessions/Tests.antt =====
-- sessions.hpp: a store with concrete sessions.
use crow_core.Common.{
  ℕ, ◌==◌, pos, Bytes, codes, [], Option, none, some, true, false, length, if◌then◌else◌, ◌≡◌, refl,
}
use crow_core.Sessions.{
  UserSession, AuthConfigMethods, SessionStore, timeout, single_request, new_session_store,
  login_session_by_token, update_session_timeout, session_token_size, find_token,
}
use crow_core.Sessions.Generating.{
  generate_user_session, new_user_session, emplace_session, random_text, session_or,
}
use crow_core.Sessions.Lookup.{IsValid, used}
use crow_core.Sessions.Invariant.{generate, Reachable, start, then_step, Reachable-IsValid}
use crow_core.Sessions.Operations.{
  view, alive, after_login, login-Refines, with_session, generate-Refines,
}

abbrev methods : AuthConfigMethods
methods = record { basic = true; session_token = true; xtoken = true; cookie = true; tls = true }

-- A generator that gives the same number each time.
abbrev sevens : ℕ → Option ℕ
sevens index = some 7

abbrev token_of_sevens : Bytes
token_of_sevens = codes "77777777777777777777"

abbrev a_store : SessionStore
unfolding generate_user_session new_session_store
a_store =
    (generate_user_session sevens 5 (codes "root") (codes "10.0.0.1") none timeout false
      (new_session_store methods)).0

a_store-Reachable : Reachable a_store
unfolding a_store
a_store-Reachable =
    then_step (start methods)
      (generate sevens 5 (codes "root") (codes "10.0.0.1") none timeout false)

Reachable-IsValid_example : IsValid a_store.auth_tokens
Reachable-IsValid_example = Reachable-IsValid a_store-Reachable

login-Refines_example :
    ((login_session_by_token 6 7 token_of_sevens a_store).1 ≡ (
      if length token_of_sevens == session_token_size
      then used 7 (alive 6 a_store (view a_store token_of_sevens))
      else none))
    × (view (login_session_by_token 6 7 token_of_sevens a_store).0 token_of_sevens ≡ (
        if length token_of_sevens == session_token_size
        then after_login 7 token_of_sevens (λ t. alive 6 a_store (view a_store t)) token_of_sevens
        else alive 6 a_store (view a_store token_of_sevens)))
login-Refines_example = login-Refines 6 7 token_of_sevens token_of_sevens a_store a_store-Reachable

-- A session for one request that is made takes back that there is something to write.
need_write_runs :
    (generate_user_session sevens 5
      (codes "root")
      (codes "10.0.0.1")
      none
      single_request
      false
      (update_session_timeout (pos 60) (new_session_store methods))).0.need_write
    ≡ false
unfolding generate_user_session new_user_session emplace_session random_text update_session_timeout
    new_session_store find_token
need_write_runs = refl

abbrev made_of_sevens : UserSession
made_of_sevens = record {
  unique_id = codes "7777777777";
  session_token = token_of_sevens;
  username = codes "root";
  csrf_token = token_of_sevens;
  client_id = none;
  client_ip = codes "10.0.0.1";
  last_updated = 8;
  persistence = timeout;
  cookie_auth = false;
  is_configure_self_only = false;
  user_role = [];
  user_groups = [];
}

made_runs :
    new_user_session sevens 8 (codes "root") (codes "10.0.0.1") none timeout false
    ≡ some made_of_sevens
unfolding new_user_session random_text
made_runs = refl

generate-Refines_example :
    ((generate_user_session sevens 8 (codes "root") (codes "10.0.0.1") none timeout false a_store).1
      ≡ some (session_or made_of_sevens (view a_store token_of_sevens)))
    × (view
          (generate_user_session sevens 8
            (codes "root")
            (codes "10.0.0.1")
            none
            timeout
            false
            a_store).0
          (codes "other")
        ≡ with_session made_of_sevens (view a_store) (codes "other"))
generate-Refines_example =
    generate-Refines sevens 8 (codes "root") (codes "10.0.0.1") none timeout false a_store
      made_of_sevens (codes "other") made_runs
