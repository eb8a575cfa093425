-- ===== src/Pool/Next/Calls.antt =====
-- src/pool/pool.go, `AccountPool.Next` in calls that overlap. A call holds only the read lock of the
-- pool, and an account's lock once to look at it and once more to mark it, so other calls may come in
-- between.
use business2api.Base.{
  ℕ, ◌+◌, ◌%◌, Bool, true, false, not, List, [], ◌∷◌, Option, none, some, ◌==◌, ltb, if◌then◌else◌,
  null,
}
use business2api.Pool.Account.{Account, Settings}
use business2api.Pool.State.{AccountPool, uint64}
use business2api.Pool.Next.{exceeded_daily, in_use_cooldown, visits, hand_out}

-- Where a call stands: before its start or after its end, at the accounts that the loop has still to
-- look at, with the best one so far and the use of it that was read, or before it marks the account
-- that it returns. `now` is the time at which the call started.
pub data Call : Type 0 where
  idle : Call
  looking : (now : ℕ) → List ℕ → Option (ℕ × ℕ) → Bool → Call
  chosen : (now : ℕ) → ℕ → Call

-- `bestAccount == nil || lastUsed.Before(oldestUsed)`.
unfoldable pub older_read : Option (ℕ × ℕ) → ℕ → ℕ → Option (ℕ × ℕ)
older_read none p last_used = some (p, last_used)
older_read (some (b, oldest)) p last_used =
    if ltb last_used oldest then some (p, last_used) else some (b, oldest)

-- One round of the loop, at the account `p`.
unfoldable pub look : Settings → ℕ → Account → ℕ → List ℕ → Option (ℕ × ℕ) → Bool → Call
unfolding exceeded_daily in_use_cooldown older_read
look s now acc p rest best all_exceeded =
    if exceeded_daily s now acc
    then looking now rest best all_exceeded
    else if not (in_use_cooldown s now acc)
    then chosen now p
    else looking now rest (older_read best p acc.last_used) false

-- After the loop.
unfoldable pub settle : ℕ → Option (ℕ × ℕ) → Bool → Call
settle now best true = idle
settle now none false = idle
settle now (some (b, oldest)) false = chosen now b

-- The start of a call, up to the loop.
unfoldable pub begin : ℕ → AccountPool → AccountPool × Call
unfolding visits
begin now pool = if null pool.ready_accounts then (pool, idle) else (
  record pool { index = (pool.index + 1) % uint64 },
  looking now (visits pool.ready_accounts pool.index) none true,
)

-- One step of a call, with the account that it returns if it ends with one; `later` is the second
-- read of the clock.
unfoldable pub advance : Settings → ℕ → AccountPool → Call → AccountPool × Call × Option ℕ
unfolding look settle hand_out
advance s later pool idle = (pool, idle, none)
advance s later pool (looking now [] best all_exceeded) = (pool, settle now best all_exceeded, none)
advance s later pool (looking now (p ∷ rest) best all_exceeded) =
    (pool, look s now (pool.heap p) p rest best all_exceeded, none)
advance s later pool (chosen now p) = (hand_out s now later pool p, idle, some p)

abbrev pub set_call : (ℕ → Call) → ℕ → Call → ℕ → Call
set_call calls i call j = if i == j then call else calls j

abbrev pub is_idle : Call → Bool
is_idle idle = true
is_idle _ = false

-- The caller `i` starts a call at a time, if it has none in progress, or its call takes a step at a
-- time.
pub data Event : Type 0 where
  starts : ℕ → ℕ → Event
  steps : ℕ → ℕ → Event

abbrev pub Calls : Type 0
Calls = AccountPool × (ℕ → Call)

unfoldable pub happen : Settings → Event → Calls → Calls × Option ℕ
unfolding begin advance
happen s (starts i now) (pool, calls) =
    let (pool', call) = begin now pool in
    if is_idle (calls i) then ((pool', set_call calls i call), none) else ((pool, calls), none)
happen s (steps i later) (pool, calls) =
    let (pool', call, result) = advance s later pool (calls i) in
    ((pool', set_call calls i call), result)

-- The results of the calls, over events in any order.
unfoldable pub happenings : Settings → List Event → Calls → List (Option ℕ)
unfolding happen
happenings s [] calls = []
happenings s (event ∷ events) calls =
    let (after, result) = happen s event calls in result ∷ happenings s events after
