-- ===== src/Api/Chat/Tests.antt =====
-- Runs of `streamChat` of src/main.go, and the theorems at concrete inputs.
use business2api.Base.{
  ℕ, ◌+◌, ◌*◌, ◌≤◌, ◌≡◌, ◌==◌, refl, false, if◌then◌else◌, List, [], ◌∷◌, Option, none, some, arith,
}
use business2api.Text.{Text, codes, eqb, contains, has_prefix}
use business2api.Pool.Account.{Settings, second}
use business2api.Pool.State.{AccountPool}
use business2api.Pool.Samples.{settings, pool_of}
use business2api.Api.Chat.Session.{created, create_session}
use business2api.Api.Chat.{Outcome, answered, stream_chat}
use business2api.Api.Chat.Replies.{Upstream, replied, not_downloaded}
use business2api.Api.Chat.Outcomes.{answers, IsGood, stream_chat-Settles}
use business2api.Api.Chat.Rounds.{is_429}
use business2api.Api.Chat.Throttled.{stream_chat-none}

abbrev serving_pool : AccountPool
serving_pool =
    let pool = pool_of (0 ∷ 1 ∷ []) [] in
    record pool {
      heap = λ p.
          let acc = pool.heap p in
          record acc { jwt = codes "token"; last_used = 0; daily_count = 0 };
    }

abbrev no_limit : Settings
no_limit = record settings { daily_limit = 0 }

-- An upstream that answers every chat alike.
abbrev always : ℕ → Text → Upstream
always status body = record {
  now = 100 * second;
  later = 100 * second;
  after = 101 * second;
  session = λ i. created (codes "s");
  upload_by_url = λ url. none;
  download = λ url kind. not_downloaded [];
  upload = λ mime content. none;
  chat = λ text files. replied status body;
}

-- The first chat is refused with 429, the others have an answer.
abbrev once_busy : ℕ → Upstream
once_busy i = if i == 0 then always 429 [] else always 200 (codes "{\"text\":1}")

abbrev outcome_of : Option (AccountPool × Outcome) → Option Outcome
outcome_of none = none
outcome_of (some (pool, outcome)) = some outcome

second_account_answers :
    outcome_of (stream_chat no_limit once_busy 5 (codes "Hi") [] serving_pool)
    ≡ some (answered 1 (codes "{\"text\":1}"))
unfolding stream_chat eqb contains has_prefix
second_account_answers = refl

stream_chat-Settles_example :
    (after : AccountPool) × (outcome : Outcome) × (stream_chat no_limit once_busy
        (1 + 4)
        (codes "Hi")
        []
        serving_pool
      ≡ some (after, outcome))
    × (after.total_success ≡ serving_pool.total_success + answers outcome)
    × IsGood after outcome
stream_chat-Settles_example =
    stream_chat-Settles no_limit once_busy (codes "Hi") [] 1 serving_pool calm_later
  where
    calm_later :
        (j : ℕ)
        → 1 ≤ j
        → (text : Text) (files : List Text) → is_429 ((once_busy j).chat text files) ≡ false
    calm_later j le text files = ground arith

stream_chat-none_example :
    stream_chat no_limit (λ i. always 429 []) 100 (codes "Hi") [] serving_pool ≡ none
unfolding create_session
stream_chat-none_example =
    stream_chat-none no_limit refl (λ i. always 429 []) 100 (codes "Hi") serving_pool
      (λ j. record { session = codes "s"; makes = refl; body = λ text. []; refuses = λ text. refl })
      (record { solid = refl; tokens = λ p. refl })
