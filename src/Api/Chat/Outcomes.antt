-- ===== src/Api/Chat/Outcomes.antt =====
-- src/main.go, `streamChat`: what an outcome says of the pool and of the answer.
use business2api.Base.{
  ℕ, zero, suc, ◌+◌, ◌≤◌, ◌≡◌, refl, ap, subst, true, false, List, Option, none, some, arith, ◌==◌,
  null, Bool-cases, inl, inr,
}
use business2api.Text.{Text}
use business2api.Pool.Account.{Settings, mark_used}
use business2api.Pool.State.{AccountPool}
use business2api.Pool.Next.{Scan, found, ended, next, finish}
use business2api.Pool.Queues.{
  mark_used_in, mark_needs_refresh, mark_pending, mark_external_refresh_pending,
}
use business2api.Pool.Jwt.{get_jwt}
use business2api.Api.Prompt.{MediaInfo}
use business2api.Api.Chat.Session.{SessionReply, created, refused, create_session}
use business2api.Api.Chat.{
  Turn, over, counted, uncounted, Failure, Outcome, no_account, download_refused, answered, gave_up,
  on_worth, on_status, on_reply, on_uploads, on_session, on_token, on_account, round, chat_loop,
  stream_chat, max_retries, no_failure, query_of,
}
use business2api.Api.Chat.Replies.{
  Upstream, Reply, no_reply, replied, Worth, needs_login, content, error_only, thought_only, empty,
  has_content, worth_of, Uploads, uploaded, upload_failed, media_refused, upload_all,
}
use business2api.Api.Chat.Rounds.{Turn-cases, IsCalm, stream_chat-Ends}

abbrev pub answers : Outcome → ℕ
answers (answered p body) = 1
answers _ = 0

abbrev pub turn_answers : Turn → ℕ
turn_answers (over outcome) = answers outcome
turn_answers _ = 0

-- An answer has content, and the account that gave it has no failures in a row any more.
abbrev pub IsGood : AccountPool → Outcome → Type 0
IsGood pool (answered p body) = (has_content body ≡ true) × ((pool.heap p).fail_count ≡ 0)
IsGood pool no_account = Unit
IsGood pool (download_refused error) = Unit
IsGood pool (gave_up failure) = Unit

abbrev pub IsGoodTurn : AccountPool → Turn → Type 0
IsGoodTurn pool (over outcome) = IsGood pool outcome
IsGoodTurn pool (counted failure) = Unit
IsGoodTurn pool (uncounted failure) = Unit

-- The successes are counted, and the answer is good.
abbrev Settled : ℕ → AccountPool × Turn → Type 0
Settled successes r = (r.0.total_success ≡ successes + turn_answers r.1) × IsGoodTurn r.0 r.1

Settled-total_success :
    (successes : ℕ) (r : AccountPool × Turn)
    → Settled successes r
    → turn_answers r.1 ≡ 0
    → r.0.total_success ≡ successes
Settled-total_success successes r settled none_yet = omega (arith, settled.0)

abbrev IsSettled : ℕ → Option (AccountPool × Outcome) → Type 0
IsSettled successes none = Unit
IsSettled successes (some (pool, outcome)) = Settled successes (pool, over outcome)

mark_needs_refresh-total_success :
    (s : Settings) (p : ℕ) (pool : AccountPool)
    → (mark_needs_refresh s p pool).total_success ≡ pool.total_success
unfolding mark_needs_refresh mark_pending mark_external_refresh_pending
mark_needs_refresh-total_success s p pool = ground arith

next-total_success :
    (s : Settings) (now later : ℕ) (pool : AccountPool)
    → (next s now later pool).0.total_success ≡ pool.total_success
unfolding next
next-total_success s now later pool = elim (Bool-cases (null pool.ready_accounts)) [
  | inl e ↦ rw (e, next) refl
  | inr e ↦ rw (e, next) (finish-total_success _ _)
]
  where
    finish-total_success :
        (q : AccountPool) (r : Scan) → (finish s now later q r).0.total_success ≡ q.total_success
    finish-total_success q (found p) = refl
    finish-total_success q (ended best true) = refl
    finish-total_success q (ended none false) = refl
    finish-total_success q (ended (some p) false) = refl

worth_of-has_content : (body : Text) → worth_of body ≡ content → has_content body ≡ true
unfolding worth_of
worth_of-has_content body e = ground arith

module _ (s : Settings) (u : Upstream) where
  on_worth-Settled :
      (worth : Worth) (body : Text) (failure : Failure) (p : ℕ) (pool : AccountPool)
      → worth_of body ≡ worth
      → Settled pool.total_success (on_worth s u worth body failure p pool)
  unfolding on_worth mark_used_in mark_used
  on_worth-Settled needs_login body failure p pool e =
      (omega (arith, mark_needs_refresh-total_success s p pool), tt)
  on_worth-Settled (error_only false) body failure p pool e = (omega arith, tt)
  on_worth-Settled (error_only true) body failure p pool e = (omega arith, tt)
  on_worth-Settled thought_only body failure p pool e = (omega arith, tt)
  on_worth-Settled empty body failure p pool e = (omega arith, tt)
  on_worth-Settled content body failure p pool e =
      (omega arith, (worth_of-has_content body e, ground arith))

  on_status-Settled :
      (status : ℕ) (body : Text) (failure : Failure) (p : ℕ) (pool : AccountPool)
      → Settled pool.total_success (on_status s u status body failure p pool)
  unfolding on_status mark_used_in
  on_status-Settled status body failure p pool = elim (Bool-cases (status == 429)) [
    | inl limited ↦ rw (limited, on_status) (omega arith, tt)
    | inr other ↦
        rw (other, on_status) (ground (arith, mark_needs_refresh-total_success s p pool), tt)
  ]

  on_reply-Settled :
      (reply : Reply) (failure : Failure) (p : ℕ) (pool : AccountPool)
      → Settled pool.total_success (on_reply s u reply failure p pool)
  unfolding on_reply
  on_reply-Settled (no_reply error) failure p pool = (omega arith, tt)
  on_reply-Settled (replied status body) failure p pool = elim (Bool-cases (status == 200)) [
    | inl good ↦ rw (good, on_reply) (on_worth-Settled (worth_of body) body failure p pool refl)
    | inr bad ↦ rw (bad, on_reply) (on_status-Settled status body failure p pool)
  ]

  module _ (text : Text) (media : List MediaInfo) (failure : Failure) where
    on_uploads-Settled :
        (uploads : Uploads) (p : ℕ) (pool : AccountPool)
        → Settled pool.total_success (on_uploads s u uploads text failure p pool)
    unfolding on_uploads
    on_uploads-Settled upload_failed p pool = (omega arith, tt)
    on_uploads-Settled (media_refused error) p pool = (omega arith, tt)
    on_uploads-Settled (uploaded files) p pool =
        on_reply-Settled (u.chat (query_of text) files) failure p pool

    on_session-Settled :
        (session : SessionReply) (p : ℕ) (pool : AccountPool)
        → Settled pool.total_success (on_session s u session text media failure p pool)
    unfolding on_session
    on_session-Settled (refused error) p pool =
        (ground (arith, mark_needs_refresh-total_success s p pool), tt)
    on_session-Settled (created session) p pool = on_uploads-Settled (upload_all u media) p pool

    on_token-Settled :
        (token : Option (Text × Text)) (p : ℕ) (pool : AccountPool)
        → Settled pool.total_success (on_token s u token text media failure p pool)
    unfolding on_token
    on_token-Settled none p pool = (omega arith, tt)
    on_token-Settled (some token) p pool = on_session-Settled (create_session u.session) p pool

    on_account-Settled :
        (chosen : AccountPool × Option ℕ)
        → Settled chosen.0.total_success (on_account s u chosen text media failure)
    unfolding on_account
    on_account-Settled (pool, none) = (omega arith, tt)
    on_account-Settled (pool, some p) = on_token-Settled (get_jwt (pool.heap p)) p pool

    round-Settled :
        (pool : AccountPool) → Settled pool.total_success (round s u text media failure pool)
    unfolding round
    round-Settled pool =
        let chosen = next s u.now u.later pool in
        subst (λ n. Settled n (on_account s u chosen text media failure))
          (next-total_success s u.now u.later pool) (on_account-Settled chosen)

module _ (s : Settings) (us : ℕ → Upstream) (text : Text) (media : List MediaInfo) where
  chat_loop-IsSettled :
      (fuel left i : ℕ) (failure : Failure) (pool : AccountPool)
      → IsSettled pool.total_success (chat_loop s us text media fuel left i failure pool)
  unfolding chat_loop
  chat_loop-IsSettled zero left i failure pool = tt
  chat_loop-IsSettled (suc fuel) zero i failure pool = (omega arith, tt)
  chat_loop-IsSettled (suc fuel) (suc left) i failure pool =
      let r = round s (us i) text media failure pool in
      let settled = round-Settled s (us i) text media failure pool in
      elim (Turn-cases r.1) [
        | inl (outcome, at) ↦ rw (at, chat_loop) (rw at at settled)
        | inr (inl (last, at)) ↦
            rw (at, chat_loop)
              (subst (λ n. IsSettled n (chat_loop s us text media fuel left (i + 1) last r.0))
                (Settled-total_success pool.total_success r settled (ap turn_answers at))
                (chat_loop-IsSettled fuel left (i + 1) last r.0))
        | inr (inr (last, at)) ↦
            rw (at, chat_loop)
              (subst (λ n. IsSettled n (chat_loop s us text media fuel (suc left) (i + 1) last r.0))
                (Settled-total_success pool.total_success r settled (ap turn_answers at))
                (chat_loop-IsSettled fuel (suc left) (i + 1) last r.0))
      ]

  -- If no chat is answered with the status 429 from the round `k` on, the request comes to an outcome
  -- within `k + 4` steps of the loop. It counts one success if the outcome is an answer and none
  -- otherwise; an answer has content, and its account has no failures in a row any more.
  pub stream_chat-Settles :
      (k : ℕ) (pool : AccountPool)
      → ((j : ℕ) → k ≤ j → IsCalm (us j))
      → (after : AccountPool) × (outcome : Outcome) × (stream_chat s us (k + 4) text media pool
          ≡ some (after, outcome))
        × (after.total_success ≡ pool.total_success + answers outcome)
        × IsGood after outcome
  unfolding stream_chat
  stream_chat-Settles k pool calm =
      let ((after, outcome), at) = stream_chat-Ends s us text media k pool calm in
      let settled = chat_loop-IsSettled (k + 4) max_retries 0 no_failure pool in
      let (counts, good) = rw at at settled in (after, outcome, at, counts, good)
