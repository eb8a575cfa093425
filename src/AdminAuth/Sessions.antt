-- ===== src/AdminAuth/Sessions.antt =====
-- src/adminauth/session.go, `SessionManager`. The sessions are a map from tokens; the mutex makes
-- each operation one step.
use business2api.Base.{ℕ, ◌+◌, ◌*◌, Option, none, some, ltb, ◌==◌, if◌then◌else◌, ℤ, pos, negsuc}
use business2api.Text.{Text, eqb}

pub record SessionInfo : Type 0 where
  pub token : Text
  pub username : Text
  pub expires_at : ℕ

-- An entry that is not there any more is `none`.
pub record SessionManager : Type 0 where
  pub ttl : ℕ
  pub sessions : Text → Option SessionInfo

-- Twelve hours, in nanoseconds.
abbrev pub default_session_ttl : ℕ
default_session_ttl = 12 * 3600 * 1_000_000_000

unfoldable pub new_session_manager : ℤ → SessionManager
new_session_manager (negsuc n) = record { ttl = default_session_ttl; sessions = λ t. none }
new_session_manager (pos n) = record {
  ttl = if n == 0 then default_session_ttl else n;
  sessions = λ t. none;
}

-- `m.sessions[token] = info` and `delete(m.sessions, token)`.
abbrev pub set : Text → Option SessionInfo → SessionManager → SessionManager
set token info m = record m {
  sessions = λ other. if eqb token other then info else m.sessions other;
}

-- `Create` with the token that the random source gives, or without one when it fails.
unfoldable pub create :
    Option Text → Text → ℕ → SessionManager → SessionManager × Option SessionInfo
create none username now m = (m, none)
create (some token) username now m =
    let info : SessionInfo = record {
      token = token;
      username = username;
      expires_at = now + m.ttl;
    } in
    (set token (some info) m, some info)

unfoldable pub delete : Text → SessionManager → SessionManager
delete token m = set token none m

-- `Validate` at the time `now`: a session that is over is deleted.
unfoldable pub validate : Text → ℕ → SessionManager → SessionManager × Option SessionInfo
unfolding delete
validate token now m = elim (m.sessions token) [
  | none ↦ (m, none)
  | some info ↦ if ltb info.expires_at now then (delete token m, none) else (m, some info)
]

-- `DeleteByUsername`: the loop over the map deletes each session of the name.
unfoldable pub without_user : Text → Option SessionInfo → Option SessionInfo
without_user username none = none
without_user username (some info) = if eqb info.username username then none else some info

unfoldable pub delete_by_username : Text → SessionManager → SessionManager
unfolding without_user
delete_by_username username m = record m {
  sessions = λ token. without_user username (m.sessions token);
}
