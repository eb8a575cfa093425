-- ===== src/Api/Chat.antt =====
-- src/main.go, `streamChat`: from the messages to the upstream's answer, over the accounts of the pool.
-- The upstream is a parameter: for every round it says what its requests answer. What is made of a
-- good answer, the heartbeat of long requests and the sleeps are left out.
pub mod Session
pub mod Input
pub mod Replies
pub mod Answer
pub mod Rounds
pub mod Throttled
pub mod Outcomes
mod Tests
use business2api.Base.{
  ℕ, zero, suc, ◌+◌, ◌*◌, Bool, true, false, not, ◌&&◌, ◌||◌, List, [], ◌∷◌, ◌++◌, Option, none,
  some, ◌==◌, ltb, if◌then◌else◌, null,
}
use business2api.Text.{Text, codes, eqb, contains, decimal}
use business2api.Pool.Account.{Account, Settings, set_cooldown_multiplier}
use business2api.Pool.State.{AccountPool, modify}
use business2api.Pool.Next.{next}
use business2api.Pool.Queues.{mark_needs_refresh, mark_used_in}
use business2api.Pool.Jwt.{get_jwt}
use business2api.Api.Prompt.{
  Message, MediaInfo, MediaType, parse_message_content, extract_system_prompt,
  needs_conversation_context, convert_messages_to_prompt,
}
use business2api.Api.Chat.Replies.{
  Reply, no_reply, replied, Upstream, Uploads, uploaded, upload_failed, media_refused, upload_all,
  Worth, needs_login, error_only, thought_only, empty, content, worth_of,
}
use business2api.Api.Chat.Session.{SessionReply, created, refused, create_session}

-- The last error, with the last status and body of a refused chat, which later errors leave as they
-- are.
pub record Failure : Type 0 where
  pub error : Option Text
  pub status : ℕ
  pub body : Text

pub data Outcome : Type 0 where
  no_account : Outcome
  download_refused : Text → Outcome
  answered : ℕ → Text → Outcome
  gave_up : Failure → Outcome

-- How a round ends. Only a `counted` one is among the `maxRetries`.
pub data Turn : Type 0 where
  over : Outcome → Turn
  counted uncounted : Failure → Turn

abbrev pub with_error : Text → Failure → Failure
with_error error failure = record failure { error = some error }

-- The error of a refused chat: "HTTP %d: %s".
abbrev pub http_error : ℕ → Text → Text
http_error status body = codes "HTTP " ++ decimal status ++ codes ": " ++ body

-- The text of the query, which is not empty.
abbrev pub query_of : Text → Text
query_of text = if null text then codes " " else text

module _ (s : Settings) (u : Upstream) where
  -- `acc.LastUsed = time.Now().Add(pool.UseCooldown * 3)`.
  abbrev pub rest_longer : Account → Account
  rest_longer acc = record acc { last_used = u.after + s.use_cooldown * 3 }

  -- A chat that is refused with this status.
  unfoldable pub on_status : ℕ → Text → Failure → ℕ → AccountPool → AccountPool × Turn
  unfolding mark_needs_refresh mark_used_in decimal
  on_status status body failure p pool =
      let last : Failure = record {
        error = some (http_error status body);
        status = status;
        body = body;
      } in
      let marked = if status == 401 || status == 403 then mark_needs_refresh s p pool else pool in
      if status == 429
      then (mark_used_in p false (modify p rest_longer pool), uncounted last)
      else (mark_used_in p false marked, counted last)

  -- A chat with the status 200, whose body has this worth.
  unfoldable pub on_worth : Worth → Text → Failure → ℕ → AccountPool → AccountPool × Turn
  unfolding mark_needs_refresh mark_used_in set_cooldown_multiplier
  on_worth needs_login body failure p pool =
      (mark_needs_refresh s p pool, counted (with_error (codes "认证失败，需要刷新账号") failure))
  on_worth content body failure p pool = (mark_used_in p true pool, over (answered p body))
  on_worth (error_only false) body failure p pool =
      (pool, counted (with_error (codes "上游返回错误响应") failure))
  on_worth (error_only true) body failure p pool = (
    mark_used_in p false (modify p (set_cooldown_multiplier s u.after 5) pool),
    counted (with_error (codes "上游返回错误响应") failure),
  )
  on_worth thought_only body failure p pool =
      (pool, counted (with_error (codes "空返回，只有思考内容") failure))
  on_worth empty body failure p pool =
      (mark_used_in p false pool, counted (with_error (codes "空返回，无有效内容") failure))

  unfoldable pub on_reply : Reply → Failure → ℕ → AccountPool → AccountPool × Turn
  unfolding on_status on_worth worth_of
  on_reply (no_reply error) failure p pool = (pool, counted (with_error error failure))
  on_reply (replied status body) failure p pool =
      if status == 200
      then on_worth (worth_of body) body failure p pool
      else on_status status body failure p pool

  unfoldable pub on_uploads : Uploads → Text → Failure → ℕ → AccountPool → AccountPool × Turn
  unfolding on_reply
  on_uploads upload_failed text failure p pool =
      (pool, counted (with_error (codes "媒体上传失败") failure))
  on_uploads (media_refused error) text failure p pool = (pool, over (download_refused error))
  on_uploads (uploaded files) text failure p pool =
      on_reply (u.chat (query_of text) files) failure p pool

  unfoldable pub on_session :
      SessionReply → Text → List MediaInfo → Failure → ℕ → AccountPool → AccountPool × Turn
  unfolding upload_all on_uploads mark_needs_refresh contains
  on_session (refused error) text media failure p pool = (
    (if contains error (codes "401") || contains error (codes "UNAUTHENTICATED")
        then mark_needs_refresh s p pool
        else pool),
    counted (with_error error failure),
  )
  on_session (created session) text media failure p pool =
      on_uploads (upload_all u media) text failure p pool

  -- A round with the account `p`, which has a token or none.
  unfoldable pub on_token :
      Option (Text × Text) → Text → List MediaInfo → Failure → ℕ → AccountPool → AccountPool × Turn
  unfolding create_session on_session
  on_token none text media failure p pool =
      (pool, counted (with_error (codes "JWT 为空，账号未刷新") failure))
  on_token (some token) text media failure p pool =
      on_session (create_session u.session) text media failure p pool

  unfoldable pub on_account :
      AccountPool × Option ℕ → Text → List MediaInfo → Failure → AccountPool × Turn
  unfolding get_jwt on_token
  on_account (pool, none) text media failure = (pool, over no_account)
  on_account (pool, some p) text media failure =
      on_token (get_jwt (pool.heap p)) text media failure p pool

  unfoldable pub round : Text → List MediaInfo → Failure → AccountPool → AccountPool × Turn
  unfolding next on_account
  round text media failure pool = on_account (next s u.now u.later pool) text media failure

-- The loop: `left` rounds that count are left, and `i` rounds have been. `none` says that the fuel
-- was not enough.
unfoldable pub chat_loop :
    Settings
    → (ℕ → Upstream)
    → Text
    → List MediaInfo
    → ℕ
    → ℕ
    → ℕ
    → Failure
    → AccountPool
    → Option (AccountPool × Outcome)
unfolding round
chat_loop s us text media zero left i failure pool = none
chat_loop s us text media (suc fuel) zero i failure pool = some (pool, gave_up failure)
chat_loop s us text media (suc fuel) (suc left) i failure pool =
    let (after, turn) = round s (us i) text media failure pool in
    elim turn [
      | over outcome ↦ some (after, outcome)
      | counted last ↦ chat_loop s us text media fuel left (i + 1) last after
      | uncounted last ↦ chat_loop s us text media fuel (suc left) (i + 1) last after
    ]

abbrev pub max_retries : ℕ
max_retries = 3

abbrev pub no_failure : Failure
no_failure = record { error = none; status = 0; body = [] }

unfoldable pub stream_chat :
    Settings
    → (ℕ → Upstream)
    → ℕ
    → Text
    → List MediaInfo
    → AccountPool
    → Option (AccountPool × Outcome)
unfolding chat_loop
stream_chat s us fuel text media pool = chat_loop s us text media fuel max_retries 0 no_failure pool
