-- ===== src/Pool/Queues/Tests.antt =====
-- Moves between the queues of src/pool/pool.go, and the theorems at concrete inputs.
use business2api.Base.{◌+◌, ◌≡◌, refl, [], ◌∷◌, some, arith}
use business2api.Pool.State.{AccountPool}
use business2api.Pool.Queues.{
  get_pending_account, take_pending, force_refresh_all, sweep, demote_at_once,
}
use business2api.Pool.Queues.Moves.{is_at, queued, get_pending_account-queued}
use business2api.Pool.Queues.Lifecycle.{
  Fleet, IsOnce, Kept, forces, starts, goes, Step-Kept, Run-IsOnce,
}
use business2api.Pool.Samples.{settings, pool_of}

abbrev idle : AccountPool
idle = pool_of (1 ∷ 2 ∷ []) (3 ∷ 0 ∷ [])

-- Account 3 waits for an external refresh, so a worker takes account 0.
takes_next : (get_pending_account idle).1 ≡ some 0
unfolding get_pending_account take_pending
takes_next = refl

forced : (force_refresh_all idle).0.pending_accounts ≡ 3 ∷ 0 ∷ 1 ∷ 2 ∷ []
unfolding force_refresh_all sweep demote_at_once
forced = refl

get_pending_account-queued_example :
    queued 0 idle ≡ is_at 0 0 + queued 0 (get_pending_account idle).0
get_pending_account-queued_example = get_pending_account-queued idle 0 0 takes_next

abbrev fleet : Fleet
fleet = record { pool = idle; held = [] }

fleet-IsOnce : IsOnce fleet
fleet-IsOnce q = ground arith

abbrev forced_fleet : Fleet
forced_fleet = record { pool = (force_refresh_all idle).0; held = [] }

Step-Kept_example : Kept fleet 1 forced_fleet
Step-Kept_example = Step-Kept settings fleet forced_fleet 1 fleet-IsOnce forces

Run-IsOnce_example : IsOnce forced_fleet
Run-IsOnce_example =
    Run-IsOnce settings fleet forced_fleet fleet-IsOnce (goes fleet forced_fleet starts forces)
