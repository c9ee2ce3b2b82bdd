-- ===== src/Sessions/Lookup.antt =====
-- sessions.hpp: the sessions of a store as a map from tokens, and what the operations on its entries do to it.
use crow_core.Common.{
  ℕ, Bytes, List, [], ◌∷◌, Option, none, some, Bool, true, false, if◌then◌else◌, bytes_eq,
  bytes_eq_iff, ◌≡◌, refl, sym, ◌∙◌, subst, Bool-cases, inl, inr,
}
use crow_core.Json.Access.{bytes_eq_refl}
use crow_core.Sessions.{UserSession, find_token, erase_token, erase_if, refresh}

bytes_eq-apart : (a b : Bytes) → bytes_eq b a ≡ false → bytes_eq a b ≡ false
bytes_eq-apart a b h = elim (Bool-cases (bytes_eq a b)) [
  | inl same ↦
      let equal : a ≡ b = (bytes_eq_iff a b).0 same in
      let back : bytes_eq b a ≡ true = (bytes_eq_iff b a).1 (sym equal) in absurd (cc (back, h))
  | inr other ↦ other
]

-- Every entry stands under its session's own token, and no two under the same.
unfoldable pub IsValid : List (Bytes × UserSession) → Type 0
IsValid [] = Unit
IsValid ((key, session) ∷ entries) =
    (key ≡ session.session_token) × (find_token key entries ≡ none) × IsValid entries

-- The session, if it does not pass the test.
abbrev pub unless : (UserSession → Bool) → Option UserSession → Option UserSession
unless test none = none
unless test (some session) = if test session then none else some session

erase_if-none :
    (test : UserSession → Bool) (token : Bytes) (entries : List (Bytes × UserSession))
    → find_token token entries ≡ none
    → find_token token (erase_if test entries) ≡ none
unfolding find_token erase_if
erase_if-none test token [] h = refl
erase_if-none test token ((key, session) ∷ entries) h = elim (Bool-cases (bytes_eq key token)) [
  | inl same ↦ absurd (cc (rw (same, find_token) at h))
  | inr other ↦
      let rest = erase_if-none test token entries (rw (other, find_token) at h) in
      elim (Bool-cases (test session)) [
        | inl passes ↦ rw (passes, erase_if) rest
        | inr fails ↦ rw (fails, erase_if, find_token, other) rest
      ]
]

pub find_token-erase_if :
    (test : UserSession → Bool) (token : Bytes) (entries : List (Bytes × UserSession))
    → IsValid entries
    → find_token token (erase_if test entries) ≡ unless test (find_token token entries)
unfolding find_token erase_if IsValid
find_token-erase_if test token [] h = refl
find_token-erase_if test token ((key, session) ∷ entries) (own, alone, h) =
    elim (Bool-cases (bytes_eq key token)) [
      | inl same ↦
          let is_key : key ≡ token = (bytes_eq_iff key token).0 same in
          let gone : find_token token entries ≡ none =
            subst (λ k. find_token k entries ≡ none) is_key alone in
          elim (Bool-cases (test session)) [
            | inl passes ↦ rw (same, passes, erase_if) (erase_if-none test token entries gone)
            | inr fails ↦ rw (fails, erase_if, find_token, same, fails) refl
          ]
      | inr other ↦
          let rest = find_token-erase_if test token entries h in
          elim (Bool-cases (test session)) [
            | inl passes ↦ rw (passes, erase_if, other) rest
            | inr fails ↦ rw (fails, erase_if, find_token, other) rest
          ]
    ]

pub erase_if-IsValid :
    (test : UserSession → Bool) (entries : List (Bytes × UserSession))
    → IsValid entries
    → IsValid (erase_if test entries)
unfolding erase_if IsValid
erase_if-IsValid test [] h = tt
erase_if-IsValid test ((key, session) ∷ entries) (own, alone, h) =
    let rest = erase_if-IsValid test entries h in
    elim (Bool-cases (test session)) [
      | inl passes ↦ rw (passes, erase_if) rest
      | inr fails ↦ rw (fails, erase_if, IsValid) (own, erase_if-none test key entries alone, rest)
    ]

pub find_token-erase_token :
    (gone token : Bytes) (entries : List (Bytes × UserSession))
    → find_token token (erase_token gone entries)
      ≡ (if bytes_eq gone token then none else find_token token entries)
unfolding find_token erase_token
find_token-erase_token gone token [] = elim (Bool-cases (bytes_eq gone token)) [
  | inl same ↦ rw same
  | inr other ↦ rw other
]
find_token-erase_token gone token ((key, session) ∷ entries) =
    let rest = find_token-erase_token gone token entries in
    elim (Bool-cases (bytes_eq key gone)) [
      | inl same ↦
          let is_gone : key ≡ gone = (bytes_eq_iff key gone).0 same in
          elim (Bool-cases (bytes_eq gone token)) [
            | inl here ↦ rw (same, here, erase_token) (rw here at rest)
            | inr there ↦ rw (is_gone, bytes_eq_refl gone, there, erase_token) (rw there at rest)
          ]
      | inr other ↦ elim (Bool-cases (bytes_eq key token)) [
        | inl here ↦
            let is_key : key ≡ token = (bytes_eq_iff key token).0 here in
            let apart : bytes_eq gone token ≡ false =
              bytes_eq-apart gone token (subst (λ k. bytes_eq k gone ≡ false) is_key other) in
            rw (other, apart, erase_token, find_token, here) refl
        | inr there ↦ rw (other, there) rest
      ]
    ]

erase_token-none :
    (gone token : Bytes) (entries : List (Bytes × UserSession))
    → find_token token entries ≡ none
    → find_token token (erase_token gone entries) ≡ none
erase_token-none gone token entries h =
    find_token-erase_token gone token entries
    ∙ elim (Bool-cases (bytes_eq gone token)) [ inl same ↦ rw same | inr other ↦ rw other h ]

pub erase_token-IsValid :
    (gone : Bytes) (entries : List (Bytes × UserSession))
    → IsValid entries
    → IsValid (erase_token gone entries)
unfolding erase_token IsValid
erase_token-IsValid gone [] h = tt
erase_token-IsValid gone ((key, session) ∷ entries) (own, alone, h) =
    let rest = erase_token-IsValid gone entries h in
    elim (Bool-cases (bytes_eq key gone)) [
      | inl same ↦ rw (same, erase_token) rest
      | inr other ↦
          rw (other, erase_token, IsValid) (own, erase_token-none gone key entries alone, rest)
    ]

-- A session with the time of its last use.
abbrev pub used_at : ℕ → UserSession → UserSession
used_at now session = record session { last_updated = now }

abbrev pub used : ℕ → Option UserSession → Option UserSession
used now none = none
used now (some session) = some (used_at now session)

pub find_token-refresh :
    (now : ℕ) (token other : Bytes) (entries : List (Bytes × UserSession))
    → find_token other (refresh token now entries) ≡ (
        if bytes_eq token other
        then used now (find_token other entries)
        else find_token other entries)
unfolding find_token refresh
find_token-refresh now token other [] = elim (Bool-cases (bytes_eq token other)) [
  | inl same ↦ rw same
  | inr differ ↦ rw differ
]
find_token-refresh now token other ((key, session) ∷ entries) =
    let rest = find_token-refresh now token other entries in
    elim (Bool-cases (bytes_eq key token)) [
      | inl same ↦
          let is_token : key ≡ token = (bytes_eq_iff key token).0 same in
          elim (Bool-cases (bytes_eq token other)) [
            | inl here ↦ rw (is_token, bytes_eq_refl token, here) refl
            | inr there ↦ rw (is_token, bytes_eq_refl token, there) refl
          ]
      | inr apart ↦ elim (Bool-cases (bytes_eq key other)) [
        | inl here ↦
            let is_key : key ≡ other = (bytes_eq_iff key other).0 here in
            let away : bytes_eq token other ≡ false =
              bytes_eq-apart token other (subst (λ k. bytes_eq k token ≡ false) is_key apart) in
            rw (apart, away, here) refl
        | inr there ↦ rw (apart, there) rest
      ]
    ]

refresh-none :
    (now : ℕ) (token other : Bytes) (entries : List (Bytes × UserSession))
    → find_token other entries ≡ none
    → find_token other (refresh token now entries) ≡ none
refresh-none now token other entries h =
    find_token-refresh now token other entries ∙ elim (Bool-cases (bytes_eq token other)) [
      | inl same ↦ rw (same, h)
      | inr differ ↦ rw differ h
    ]

pub refresh-IsValid :
    (now : ℕ) (token : Bytes) (entries : List (Bytes × UserSession))
    → IsValid entries
    → IsValid (refresh token now entries)
unfolding refresh IsValid
refresh-IsValid now token [] h = tt
refresh-IsValid now token ((key, session) ∷ entries) (own, alone, h) =
    let rest = refresh-IsValid now token entries h in
    elim (Bool-cases (bytes_eq key token)) [
      | inl same ↦ rw (same, refresh, IsValid) (own, alone, h)
      | inr other ↦
          rw (other, refresh, IsValid) (own, refresh-none now token key entries alone, rest)
    ]
