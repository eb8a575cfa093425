-- ===== src/Api/Chat/Answer.antt =====
-- src/main.go, `streamChat`: what the caller gets of an outcome.
use business2api.Base.{
  ℕ, Bool, not, ◌&&◌, List, [], ◌∷◌, ◌++◌, none, some, ltb, if◌then◌else◌, null,
}
use business2api.Text.{Text, codes}
use business2api.Api.Chat.{Outcome, no_account, download_refused, answered, gave_up}

-- What the caller gets: events of a stream that has begun, a stream that is broken off by a reply, or
-- one reply. A good answer is left to the rest of the function.
pub data Event : Type 0 where
  role_chunk : Event
  content_chunk : Text → Event
  stop_chunk done_mark : Event

pub data Response : Type 0 where
  events : List Event → Response
  broken_off : List Event → Text → Response
  json_error : ℕ → Text → Response
  passed_on : ℕ → Text → Response
  answer_of : ℕ → Text → Response

abbrev pub stream_error : Text → Response
stream_error text =
    events (role_chunk ∷ content_chunk (codes "[错误] " ++ text) ∷ stop_chunk ∷ done_mark ∷ [])

unfoldable pub respond : Bool → Outcome → Response
respond streams no_account =
    if streams then stream_error (codes "没有可用账号") else json_error 500 (codes "没有可用账号")
respond streams (download_refused error) =
    if streams then broken_off (role_chunk ∷ []) error else json_error 500 error
respond streams (answered p body) = answer_of p body
respond streams (gave_up failure) = elim failure.error [
  | none ↦
      if streams
      then stream_error (codes "上游返回空响应")
      else json_error 500 (codes "Empty response from Google")
  | some error ↦
      if streams
      then stream_error error
      else if ltb 0 failure.status && not (null failure.body)
      then passed_on failure.status failure.body
      else json_error 500 error
]
