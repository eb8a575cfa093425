-- ===== src/Api/Chat/Session.antt =====
-- src/main.go, `createSession`: up to three tries for a session.
use business2api.Base.{ℕ, zero, suc, ◌+◌, ◌||◌, [], if◌then◌else◌}
use business2api.Text.{Text, codes, contains}

pub data SessionReply : Type 0 where
  created : Text → SessionReply
  refused : Text → SessionReply

-- `once i` is what the try number `i` answers. An error with 400 is tried again even if it has 401.
unfoldable pub create_session_with_retry : (ℕ → SessionReply) → ℕ → ℕ → SessionReply → SessionReply
unfolding contains
create_session_with_retry once zero i last = last
create_session_with_retry once (suc left) i last =
    let again = create_session_with_retry once left (i + 1) (once i) in
    elim (once i) [
      | created session ↦ created session
      | refused error ↦
          if contains error (codes "400")
          then again
          else if contains error (codes "401") || contains error (codes "403")
          then refused error
          else again
    ]

unfoldable pub create_session : (ℕ → SessionReply) → SessionReply
unfolding create_session_with_retry
create_session once = create_session_with_retry once 3 0 (created [])
