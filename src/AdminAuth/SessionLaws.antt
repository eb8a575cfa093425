-- ===== src/AdminAuth/SessionLaws.antt =====
-- src/adminauth/session.go: when a session counts.
use business2api.Base.{
  ℕ, ◌+◌, ◌≤◌, ◌≡◌, refl, ap, sym, ◌∙◌, Option, none, some, arith, ltb, Bool-cases, Option-cases,
  inl, inr, if◌then◌else◌,
}
use business2api.Text.{Text, eqb, eqb_refl}
use business2api.AdminAuth.Sessions.{
  SessionInfo, SessionManager, create, delete, validate, without_user, delete_by_username,
}

-- What `Validate` says of an entry of the map.
abbrev pub standing : ℕ → Option SessionInfo → Option SessionInfo
standing now none = none
standing now (some info) = if ltb info.expires_at now then none else some info

validate-standing :
    (token : Text) (now : ℕ) (m : SessionManager)
    → (validate token now m).1 ≡ standing now (m.sessions token)
unfolding validate
validate-standing token now m = elim (Option-cases (m.sessions token)) [
  | inl absent ↦ ground arith
  | inr (info, found) ↦ elim (Bool-cases (ltb info.expires_at now)) [
    | inl over ↦ ground arith
    | inr lasts ↦ ground arith
  ]
]

-- A new session counts for its token until its time is over, and no other token is affected.
pub validate-create :
    (token username : Text) (now later : ℕ) (m : SessionManager) (other : Text)
    → (validate other later (create (some token) username now m).0).1 ≡ (
        if eqb token other
        then (if ltb (now + m.ttl) later
            then none
            else some (record { token = token; username = username; expires_at = now + m.ttl }))
        else (validate other later m).1)
unfolding create
validate-create token username now later m other = elim (Bool-cases (eqb token other)) [
  | inl same ↦
      rw (validate-standing other later (create (some token) username now m).0) (rw same refl)
  | inr apart ↦
      rw
        (
          validate-standing other later (create (some token) username now m).0,
          validate-standing other later m,
        )
        (rw apart refl)
]

standing-without_user :
    (username : Text) (now : ℕ) (entry : Option SessionInfo)
    → standing now (without_user username entry) ≡ without_user username (standing now entry)
unfolding without_user
standing-without_user username now none = refl
standing-without_user username now (some info) = ground arith

-- After `DeleteByUsername` no token gives a session of that name, and the other sessions count as
-- before.
pub validate-delete_by_username :
    (username token : Text) (now : ℕ) (m : SessionManager)
    → (validate token now (delete_by_username username m)).1
      ≡ without_user username (validate token now m).1
unfolding delete_by_username
validate-delete_by_username username token now m =
    validate-standing token now (delete_by_username username m)
    ∙ (standing-without_user username now (m.sessions token)
        ∙ ap (without_user username) (sym (validate-standing token now m)))

-- A token that `Validate` refuses is refused at every later time, until a session is created.
pub validate-refused :
    (token : Text) (now later : ℕ) (m : SessionManager)
    → now ≤ later
    → (validate token now m).1 ≡ none
    → (validate token later (validate token now m).0).1 ≡ none
unfolding validate delete
validate-refused token now later m h e = elim (Option-cases (m.sessions token)) [
  | inl absent ↦ ground arith
  | inr (info, found) ↦ elim (Bool-cases (ltb info.expires_at now)) [
    | inl over ↦ ground (arith, eqb_refl token)
    | inr lasts ↦ ground arith
  ]
]
