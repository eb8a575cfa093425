-- ===== src/Api/Chat/Throttled.antt =====
-- src/main.go, `streamChat`: an upstream that answers every chat with the status 429.
use native.Mathlib.Nat.{mod-lt}
use business2api.Base.{
  ℕ, zero, suc, ◌+◌, ◌%◌, ◌≡◌, refl, Bool, true, false, List, [], ◌∷◌, Option, none, some, arith,
  null, length,
}
use business2api.Text.{Text}
use business2api.Pool.Account.{Account, Settings, check_and_update_daily_count, mark_used}
use business2api.Pool.State.{AccountPool, uint64}
use business2api.Pool.Next.{
  Scan, found, ended, scan, older, exceeded_daily, touch, visits_from, visits, hand_out, finish,
  next,
}
use business2api.Pool.Next.Rotation.{get_elem?-lt}
use business2api.Pool.Queues.{mark_used_in}
use business2api.Pool.Jwt.{get_jwt}
use business2api.Api.Chat.Session.{created, create_session}
use business2api.Api.Chat.{
  Turn, uncounted, Failure, on_status, on_reply, on_uploads, on_session, on_token, on_account,
  round, chat_loop, stream_chat, no_failure, query_of,
}
use business2api.Api.Chat.Replies.{Upstream, replied, upload_all}

visits-solid :
    (xs : List ℕ) (start : ℕ)
    → null xs ≡ false
    → (p : ℕ) × (ps : List ℕ) × (visits xs start ≡ p ∷ ps)
unfolding visits visits_from
visits-solid [] start h = cc
visits-solid (x ∷ xs) start h =
    let (p, at) =
      get_elem?-lt (x ∷ xs) ((start + 0) % uint64 % length (x ∷ xs)) (mod-lt _ (omega arith)) in
    (p, visits_from (x ∷ xs) start (length xs) 1, rw (at, visits_from) refl)

-- The scan has an account to hand out.
abbrev picks : Scan → Bool
picks (found p) = true
picks (ended (some p) false) = true
picks _ = false

-- There are ready accounts, and every account has a token.
pub record IsServing (pool : AccountPool) : Type 0 where
  pub solid : null pool.ready_accounts ≡ false
  pub tokens : (p : ℕ) → null (pool.heap p).jwt ≡ false

module _ (s : Settings) (unlimited : s.daily_limit ≡ 0) where
  exceeded_daily-unlimited : (now : ℕ) (acc : Account) → exceeded_daily s now acc ≡ false
  unfolding exceeded_daily
  exceeded_daily-unlimited now acc = rw unlimited refl

  scan-later :
      (now : ℕ) (heap : ℕ → Account) (ps : List ℕ) (b : ℕ)
      → picks (scan s now heap ps (some b) false) ≡ true
  unfolding scan older
  scan-later now heap [] b = refl
  scan-later now heap (p ∷ ps) b = ground (
    arith,
    exceeded_daily-unlimited now (heap p),
    scan-later now heap ps b,
    scan-later now heap ps p,
  )

  scan-picks :
      (now : ℕ) (heap : ℕ → Account) (p : ℕ) (ps : List ℕ)
      → picks (scan s now heap (p ∷ ps) none true) ≡ true
  unfolding scan older
  scan-picks now heap p ps =
      ground (arith, exceeded_daily-unlimited now (heap p), scan-later now heap ps p)

  -- An account is handed out, and the pool goes on serving.
  abbrev Chooses : AccountPool × Option ℕ → Type 0
  Chooses r = (p : ℕ) × (r.1 ≡ some p) × IsServing r.0

  hand_out-IsServing :
      (now later : ℕ) (pool : AccountPool) (p : ℕ)
      → IsServing pool
      → IsServing (hand_out s now later pool p)
  unfolding hand_out touch check_and_update_daily_count
  hand_out-IsServing now later pool p h = record {
    solid = h.solid;
    tokens = λ q. ground (arith, h.tokens q, h.tokens p);
  }

  finish-Chooses :
      (now later : ℕ) (pool : AccountPool) (r : Scan)
      → picks r ≡ true
      → IsServing pool
      → Chooses (finish s now later pool r)
  unfolding finish
  finish-Chooses now later pool (found p) e h = (p, refl, hand_out-IsServing now later pool p h)
  finish-Chooses now later pool (ended (some p) false) e h =
      (p, refl, hand_out-IsServing now later pool p h)
  finish-Chooses now later pool (ended (some p) true) e h = cc
  finish-Chooses now later pool (ended none false) e h = cc
  finish-Chooses now later pool (ended none true) e h = cc

  next-Chooses :
      (now later : ℕ) (pool : AccountPool) → IsServing pool → Chooses (next s now later pool)
  unfolding next
  next-Chooses now later pool h =
      let (p, ps, at) = visits-solid pool.ready_accounts pool.index h.solid in
      rw (h.solid, next)
        (finish-Chooses now later _ _ (rw at (scan-picks now pool.heap p ps))
          (record { solid = h.solid; tokens = h.tokens }))

  -- Sessions are made, and every chat is refused with 429.
  pub record IsThrottling (u : Upstream) : Type 0 where
    pub session : Text
    pub makes : create_session u.session ≡ created session
    pub body : Text → Text
    pub refuses : (text : Text) → u.chat text [] ≡ replied 429 (body text)

  abbrev GoesOn : AccountPool × Turn → Type 0
  GoesOn r = (last : Failure) × (r.1 ≡ uncounted last) × IsServing r.0

  on_status-GoesOn :
      (u : Upstream) (body : Text) (failure : Failure) (p : ℕ) (pool : AccountPool)
      → IsServing pool
      → GoesOn (on_status s u 429 body failure p pool)
  unfolding on_status mark_used_in mark_used
  on_status-GoesOn u body failure p pool h =
      (_, refl, record { solid = h.solid; tokens = λ q. ground (arith, h.tokens q, h.tokens p) })

  on_account-GoesOn :
      (u : Upstream) (text : Text) (failure : Failure) (p : ℕ) (pool : AccountPool)
      → IsThrottling u
      → IsServing pool
      → GoesOn (on_account s u (pool, some p) text [] failure)
  unfolding on_account get_jwt on_token on_session upload_all on_uploads on_reply
  on_account-GoesOn u text failure p pool t h = rw (h.tokens p) (
      rw (t.makes) (
        rw (t.refuses (query_of text))
          (on_status-GoesOn u (t.body (query_of text)) failure p pool h)))

  round-GoesOn :
      (u : Upstream) (text : Text) (failure : Failure) (pool : AccountPool)
      → IsThrottling u
      → IsServing pool
      → GoesOn (round s u text [] failure pool)
  unfolding round
  round-GoesOn u text failure pool t h =
      let r = next s u.now u.later pool in
      let (p, at, serves) = next-Chooses u.now u.later pool h in
      rw (at, on_account) (on_account-GoesOn u text failure p r.0 t serves)

  chat_loop-none :
      (us : ℕ → Upstream) (text : Text) (fuel left i : ℕ) (failure : Failure) (pool : AccountPool)
      → ((j : ℕ) → IsThrottling (us j))
      → IsServing pool
      → chat_loop s us text [] fuel (suc left) i failure pool ≡ none
  unfolding chat_loop
  chat_loop-none us text zero left i failure pool t h = refl
  chat_loop-none us text (suc fuel) left i failure pool t h =
      let r = round s (us i) text [] failure pool in
      let (last, at, serves) = round-GoesOn (us i) text failure pool (t i) h in
      rw (at, chat_loop) (chat_loop-none us text fuel left (i + 1) last r.0 t serves)

  -- Without a daily limit, a chat without media that the upstream always refuses with the status 429
  -- is tried again for ever, if some account is ready and the accounts have tokens: no fuel is enough.
  pub stream_chat-none :
      (us : ℕ → Upstream) (fuel : ℕ) (text : Text) (pool : AccountPool)
      → ((j : ℕ) → IsThrottling (us j))
      → IsServing pool
      → stream_chat s us fuel text [] pool ≡ none
  unfolding stream_chat
  stream_chat-none us fuel text pool t h = chat_loop-none us text fuel 2 0 no_failure pool t h
