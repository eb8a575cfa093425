-- ===== src/Flow/Refresh.antt =====
-- src/flow/token_pool.go and src/flow/handler.go, the access tokens: `refreshAllAT`,
-- `refreshSingleToken`, `ensureATValid`, `ensureProjectExists` and `updateTokenCredits`.
use business2api.Base.{
  ℕ, ◌+◌, ◌*◌, ◌≤◌, ◌≡◌, Bool, true, false, not, ◌&&◌, ◌||◌, List, [], ◌∷◌, Option, none, some,
  arith, ltb, leb, ◌==◌, if◌then◌else◌, null,
}
use business2api.Text.{Text}
use business2api.Pool.Account.{second}
use business2api.Flow.{FlowToken, is_ready}

-- The service's answer to a session token. `expires` is `none` where the text is empty or no time.
pub record StToAtResponse : Type 0 where
  pub access_token : Text
  pub expires : Option ℕ
  pub email : Text

pub record CreditsResponse : Type 0 where
  pub credits : ℕ
  pub user_paygate_tier : Text

unfoldable pub store_answer : StToAtResponse → FlowToken → FlowToken
store_answer resp token = record token {
  at = resp.access_token;
  at_expires = elim resp.expires [ none ↦ token.at_expires | some t ↦ t ];
  email = resp.email;
}

unfoldable pub revive : StToAtResponse → FlowToken → FlowToken
unfolding store_answer
revive resp token = record (store_answer resp token) { error_count = 0; disabled = false }

-- `none` is an error of the service.
unfoldable pub refresh_single_token : Option StToAtResponse → FlowToken → FlowToken
unfolding revive
refresh_single_token none token = record token { error_count = token.error_count + 1 }
refresh_single_token (some resp) token = revive resp token

-- `token.AT == "" || time.Now().After(token.ATExpires.Add(-5*time.Minute))`.
unfoldable pub need_refresh : ℕ → FlowToken → Bool
need_refresh now token = null token.at || ltb token.at_expires (now + 300 * second)

-- The worker's turn with one token: the third error in a row disables it.
unfoldable pub refresh_turn : ℕ → Option StToAtResponse → FlowToken → FlowToken
unfolding revive need_refresh
refresh_turn now reply token =
    let failed = record token { error_count = token.error_count + 1 } in
    if not (need_refresh now token) then token else elim reply [
      | some resp ↦ revive resp token
      | none ↦ if leb 3 failed.error_count then record failed { disabled = true } else failed
    ]

-- The loop over the pointers of the pool, where `reply` is what the service answers for each.
unfoldable pub refresh_all_at :
    ℕ → (ℕ → Option StToAtResponse) → List ℕ → (ℕ → FlowToken) → ℕ → FlowToken
unfolding refresh_turn
refresh_all_at now reply [] heap = heap
refresh_all_at now reply (p ∷ ps) heap =
    refresh_all_at now reply ps
      (λ q. if p == q then refresh_turn now (reply p) (heap p) else heap q)

-- The token before a generation, with whether it is valid: `now.Before(ATExpires - 5 min)`.
unfoldable pub ensure_at_valid : ℕ → Option StToAtResponse → FlowToken → FlowToken × Bool
unfolding store_answer
ensure_at_valid now reply token =
    if not (null token.at) && ltb (now + 300 * second) token.at_expires
    then (token, true)
    else elim reply [ none ↦ (token, false) | some resp ↦ (store_answer resp token, true) ]

unfoldable pub ensure_project_exists : Option Text → FlowToken → FlowToken × Bool
ensure_project_exists created token =
    if not (null token.project_id)
    then (token, true)
    else elim created [ none ↦ (token, false) | some id ↦ (record token { project_id = id }, true) ]

unfoldable pub update_token_credits : Option CreditsResponse → FlowToken → FlowToken
update_token_credits reply token = if null token.at then token else elim reply [
  | none ↦ token
  | some resp ↦ record token { credits = resp.credits; user_paygate_tier = resp.user_paygate_tier }
]

-- The rounds at these times, in each of which the service refuses the token.
abbrev pub failing_rounds : List ℕ → FlowToken → FlowToken
failing_rounds [] token = token
failing_rounds (now ∷ times) token = failing_rounds times (refresh_turn now none token)

refresh_turn-down :
    (now : ℕ) (token : FlowToken)
    → null token.at ≡ true
    → let after = refresh_turn now none token in
      (null after.at ≡ true)
      × (after.error_count ≡ token.error_count + 1)
      × (after.disabled ≡ (if leb 3 (token.error_count + 1) then true else token.disabled))
unfolding refresh_turn need_refresh
refresh_turn-down now token empty = ground arith

failing_rounds-errors :
    (times : List ℕ) (token : FlowToken)
    → null token.at ≡ true
    → 3 ≤ token.error_count
    → token.disabled ≡ true
    → (failing_rounds times token).disabled ≡ true
failing_rounds-errors [] token empty h d = d
failing_rounds-errors (now ∷ times) token empty h d =
    let (still, more, off) = refresh_turn-down now token empty in
    failing_rounds-errors times (refresh_turn now none token) still (omega arith) (ground arith)

-- A token without an access token that the service refuses in three rounds in a row is disabled, and
-- stays so while it is refused.
pub failing_rounds-disabled :
    (first second third : ℕ) (times : List ℕ) (token : FlowToken)
    → null token.at ≡ true
    → (failing_rounds (first ∷ second ∷ third ∷ times) token).disabled ≡ true
failing_rounds-disabled first second third times token empty =
    let a = refresh_turn-down first token empty in
    let t1 = refresh_turn first none token in
    let b = refresh_turn-down second t1 a.0 in
    let t2 = refresh_turn second none t1 in
    let c = refresh_turn-down third t2 b.0 in
    failing_rounds-errors times (refresh_turn third none t2) c.0 (omega arith) (ground arith)

-- A token that needs a new access token and gets one is ready again, even if it was disabled.
pub refresh_turn-ready :
    (now : ℕ) (resp : StToAtResponse) (token : FlowToken)
    → need_refresh now token ≡ true
    → (is_ready (refresh_turn now (some resp) token) ≡ true)
      × ((refresh_turn now (some resp) token).at ≡ resp.access_token)
unfolding refresh_turn revive store_answer is_ready
refresh_turn-ready now resp token need = ground arith
