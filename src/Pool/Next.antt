-- ===== src/Pool/Next.antt =====
-- src/pool/pool.go, `AccountPool.Next`: the account that serves the next request.
pub mod Choice
pub mod Rotation
pub mod Limit
pub mod Alone
pub mod Calls
pub mod Overlaps
use business2api.Base.{
  ℕ, zero, suc, ◌+◌, ◌%◌, Bool, true, false, not, ◌&&◌, List, [], ◌∷◌, Option, none, some, ltb, leb,
  if◌then◌else◌, length, get_elem?, null,
}
use business2api.Text.{eqb}
use business2api.Pool.Account.{Account, Settings, is_within, check_and_update_daily_count}
use business2api.Pool.State.{AccountPool, update, uint64}

module _ (s : Settings) (now : ℕ) where
  unfoldable pub exceeded_daily : Account → Bool
  exceeded_daily acc =
      let count = if eqb acc.daily_count_date (s.date now) then acc.daily_count else 0 in
      ltb 0 s.daily_limit && leb s.daily_limit count

  unfoldable pub in_use_cooldown : Account → Bool
  in_use_cooldown acc = is_within now acc.last_used s.use_cooldown

  -- What the account gets when it is handed out; `later` is the second read of the clock.
  unfoldable pub touch : ℕ → Account → Account
  unfolding check_and_update_daily_count
  touch later acc =
      (check_and_update_daily_count s later
        (record acc { last_used = now; total_count = acc.total_count + 1 })).0

-- What the loop knows: the account to hand out, or the best one so far, and whether all accounts
-- up to here had used up their day.
pub data Scan : Type 0 where
  found : ℕ → Scan
  ended : Option ℕ → Bool → Scan

-- `bestAccount == nil || lastUsed.Before(oldestUsed)`.
unfoldable pub older : (ℕ → Account) → Option ℕ → ℕ → Option ℕ
older heap none p = some p
older heap (some b) p = if ltb (heap p).last_used (heap b).last_used then some p else some b

-- The loop over the pointers in the order in which it visits them.
unfoldable pub scan : Settings → ℕ → (ℕ → Account) → List ℕ → Option ℕ → Bool → Scan
unfolding exceeded_daily in_use_cooldown older
scan s now heap [] best all_exceeded = ended best all_exceeded
scan s now heap (p ∷ ps) best all_exceeded =
    let skip = scan s now heap ps best all_exceeded in
    let wait = scan s now heap ps (older heap best p) false in
    if exceeded_daily s now (heap p)
    then skip
    else if not (in_use_cooldown s now (heap p))
    then found p
    else wait

-- `readyAccounts[(startIdx+uint64(i))%uint64(n)]` for `k` rounds from round `i` on. The index is
-- below `n`, so the read is in range.
unfoldable pub visits_from : List ℕ → ℕ → ℕ → ℕ → List ℕ
visits_from accounts start zero i = []
visits_from accounts start (suc k) i =
    let rest = visits_from accounts start k (i + 1) in
    elim (get_elem? accounts ((start + i) % uint64 % length accounts)) [
      | none ↦ rest
      | some p ↦ p ∷ rest
    ]

unfoldable pub visits : List ℕ → ℕ → List ℕ
unfolding visits_from
visits accounts start = visits_from accounts start (length accounts) 0

unfoldable pub hand_out : Settings → ℕ → ℕ → AccountPool → ℕ → AccountPool
unfolding touch
hand_out s now later pool p = record pool {
  heap = update pool.heap p (touch s now later (pool.heap p));
  total_requests = pool.total_requests + 1;
}

unfoldable pub finish : Settings → ℕ → ℕ → AccountPool → Scan → AccountPool × Option ℕ
unfolding hand_out
finish s now later pool (found p) = (hand_out s now later pool p, some p)
finish s now later pool (ended best true) = (pool, none)
finish s now later pool (ended none false) = (pool, none)
finish s now later pool (ended (some p) false) = (hand_out s now later pool p, some p)

-- `Next` at the time `now`. `AddUint64(&index, 1) - 1` is the index before the step.
unfoldable pub next : Settings → ℕ → ℕ → AccountPool → AccountPool × Option ℕ
unfolding finish scan visits
next s now later pool =
    if null pool.ready_accounts
    then (pool, none)
    else finish s now later (record pool { index = (pool.index + 1) % uint64 })
        (scan s now pool.heap (visits pool.ready_accounts pool.index) none true)
