-- ===== src/Api/Chat/Rounds.antt =====
-- src/main.go, the loop of `streamChat`: when it ends.
use business2api.Base.{
  ℕ, zero, suc, ◌+◌, ◌-◌, ◌≤◌, ◌<◌, ◌≡◌, refl, ap, sym, ◌∙◌, Bool, true, false, List, Option, none,
  some, arith, ◌==◌, Bool-cases, inl, inr, ◌⊎◌, leb,
}
use business2api.Text.{Text}
use business2api.Pool.Account.{Settings}
use business2api.Pool.State.{AccountPool}
use business2api.Pool.Next.{next}
use business2api.Pool.Jwt.{get_jwt}
use business2api.Api.Prompt.{MediaInfo}
use business2api.Api.Chat.Session.{SessionReply, created, refused, create_session}
use business2api.Api.Chat.{
  Turn, over, counted, uncounted, Failure, Outcome, on_worth, on_status, on_reply, on_uploads,
  on_session, on_token, on_account, round, chat_loop, stream_chat, max_retries, no_failure,
  query_of,
}
use business2api.Api.Chat.Replies.{
  Upstream, Reply, no_reply, replied, Worth, needs_login, content, error_only, thought_only, empty,
  worth_of, Uploads, uploaded, upload_failed, media_refused, upload_all,
}

abbrev pub is_429 : Reply → Bool
is_429 (no_reply error) = false
is_429 (replied status body) = status == 429

abbrev pub is_uncounted : Turn → Bool
is_uncounted (uncounted failure) = true
is_uncounted _ = false

-- The upstream does not answer a chat of this round with the status 429.
abbrev pub IsCalm : Upstream → Type 0
IsCalm u = (text : Text) (files : List Text) → is_429 (u.chat text files) ≡ false

pub Turn-cases :
    (turn : Turn)
    → ((outcome : Outcome) × (turn ≡ over outcome))
      ⊎ ((last : Failure) × (turn ≡ counted last))
      ⊎ ((last : Failure) × (turn ≡ uncounted last))
Turn-cases (over outcome) = inl (outcome, refl)
Turn-cases (counted last) = inr (inl (last, refl))
Turn-cases (uncounted last) = inr (inr (last, refl))

le-cases : (m n : ℕ) → (m ≤ n) ⊎ (n < m)
le-cases m n = ground (arith, Bool-cases (leb m n))

module _ (s : Settings) (u : Upstream) where
  on_worth-counted :
      (worth : Worth) (body : Text) (failure : Failure) (p : ℕ) (pool : AccountPool)
      → is_uncounted (on_worth s u worth body failure p pool).1 ≡ false
  unfolding on_worth
  on_worth-counted needs_login body failure p pool = refl
  on_worth-counted (error_only false) body failure p pool = refl
  on_worth-counted (error_only true) body failure p pool = refl
  on_worth-counted thought_only body failure p pool = refl
  on_worth-counted empty body failure p pool = refl
  on_worth-counted content body failure p pool = refl

  on_reply-counted :
      (reply : Reply) (failure : Failure) (p : ℕ) (pool : AccountPool)
      → is_429 reply ≡ false
      → is_uncounted (on_reply s u reply failure p pool).1 ≡ false
  unfolding on_reply on_status
  on_reply-counted (no_reply error) failure p pool calm = refl
  on_reply-counted (replied status body) failure p pool calm = elim (Bool-cases (status == 200)) [
    | inl good ↦ rw (good, on_reply) (on_worth-counted (worth_of body) body failure p pool)
    | inr bad ↦ rw (bad, on_reply) (rw (calm, on_status) refl)
  ]

  module _ (text : Text) (media : List MediaInfo) (failure : Failure) (calm : IsCalm u) where
    on_uploads-counted :
        (uploads : Uploads) (p : ℕ) (pool : AccountPool)
        → is_uncounted (on_uploads s u uploads text failure p pool).1 ≡ false
    unfolding on_uploads
    on_uploads-counted upload_failed p pool = refl
    on_uploads-counted (media_refused error) p pool = refl
    on_uploads-counted (uploaded files) p pool =
        on_reply-counted (u.chat (query_of text) files) failure p pool (calm (query_of text) files)

    on_session-counted :
        (session : SessionReply) (p : ℕ) (pool : AccountPool)
        → is_uncounted (on_session s u session text media failure p pool).1 ≡ false
    unfolding on_session
    on_session-counted (refused error) p pool = refl
    on_session-counted (created session) p pool = on_uploads-counted (upload_all u media) p pool

    on_token-counted :
        (token : Option (Text × Text)) (p : ℕ) (pool : AccountPool)
        → is_uncounted (on_token s u token text media failure p pool).1 ≡ false
    unfolding on_token
    on_token-counted none p pool = refl
    on_token-counted (some token) p pool = on_session-counted (create_session u.session) p pool

    on_account-counted :
        (chosen : AccountPool × Option ℕ)
        → is_uncounted (on_account s u chosen text media failure).1 ≡ false
    unfolding on_account
    on_account-counted (pool, none) = refl
    on_account-counted (pool, some p) = on_token-counted (get_jwt (pool.heap p)) p pool

    round-counted :
        (pool : AccountPool) → is_uncounted (round s u text media failure pool).1 ≡ false
    unfolding round
    round-counted pool = on_account-counted (next s u.now u.later pool)

module _ (s : Settings) (us : ℕ → Upstream) (text : Text) (media : List MediaInfo) where
  abbrev pub Ends : Option (AccountPool × Outcome) → Type 0
  Ends r = (x : AccountPool × Outcome) × (r ≡ some x)

  chat_loop-Ends :
      (k fuel left i : ℕ) (failure : Failure) (pool : AccountPool)
      → ((j : ℕ) → k ≤ j → IsCalm (us j))
      → left + (k - i) < fuel
      → Ends (chat_loop s us text media fuel left i failure pool)
  unfolding chat_loop
  chat_loop-Ends k zero left i failure pool calm enough = absurd (omega arith)
  chat_loop-Ends k (suc fuel) zero i failure pool calm enough = (_, refl)
  chat_loop-Ends k (suc fuel) (suc left) i failure pool calm enough =
      let r = round s (us i) text media failure pool in
      elim (Turn-cases r.1) [
        | inl (outcome, at) ↦ rw (at, chat_loop) (_, refl)
        | inr (inl (last, at)) ↦
            rw (at, chat_loop) (chat_loop-Ends k fuel left (i + 1) last r.0 calm (omega arith))
        | inr (inr (last, at)) ↦ elim (le-cases k i) [
          | inl le ↦
              let turn : true ≡ false =
                ap is_uncounted (sym at)
                ∙ round-counted s (us i) text media failure (calm i le) pool in
              cc
          | inr lt ↦
              rw (at, chat_loop)
                (chat_loop-Ends k fuel (suc left) (i + 1) last r.0 calm (omega arith))
        ]
      ]

  -- If no chat is answered with the status 429 from the round `k` on, three rounds more than `k` and a
  -- last look at their number are enough for an outcome.
  pub stream_chat-Ends :
      (k : ℕ) (pool : AccountPool)
      → ((j : ℕ) → k ≤ j → IsCalm (us j))
      → Ends (stream_chat s us (k + 4) text media pool)
  unfolding stream_chat
  stream_chat-Ends k pool calm =
      chat_loop-Ends k (k + 4) max_retries 0 no_failure pool calm (omega arith)
