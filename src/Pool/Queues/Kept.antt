-- ===== src/Pool/Queues/Kept.antt =====
-- src/pool/pool.go: the operations that leave both queues as they are.
use business2api.Base.{ℕ, ◌≡◌, refl, true, false, none, some, arith, Bool-cases, inl, inr, null, ℤ}
use business2api.Text.{Text}
use business2api.Pool.Account.{Settings}
use business2api.Pool.State.{AccountPool}
use business2api.Pool.Next.{next, finish, hand_out, Scan, found, ended, scan, visits}
use business2api.Pool.External.Defs.{update_external_alert_state}
use business2api.Pool.External.Claim.{claim, finish_claim, claim_limit}
use business2api.Pool.External.Fail.{mark_external_refresh_failed, record_failure}
use business2api.Pool.External.Leases.{claim_elim}
use business2api.Pool.External.Loop.{claim_loop-queues}

-- Both queues are the same.
abbrev pub SameQueues : AccountPool → AccountPool → Type 0
SameQueues before after =
    (after.ready_accounts ≡ before.ready_accounts)
    × (after.pending_accounts ≡ before.pending_accounts)

finish-SameQueues :
    (s : Settings) (now later : ℕ) (pool : AccountPool) (r : Scan)
    → SameQueues pool (finish s now later pool r).0
unfolding finish hand_out
finish-SameQueues s now later pool (found p) = (refl, refl)
finish-SameQueues s now later pool (ended best true) = (refl, refl)
finish-SameQueues s now later pool (ended none false) = (refl, refl)
finish-SameQueues s now later pool (ended (some p) false) = (refl, refl)

pub next-SameQueues :
    (s : Settings) (now later : ℕ) (pool : AccountPool) → SameQueues pool (next s now later pool).0
unfolding next
next-SameQueues s now later pool = elim (Bool-cases (null pool.ready_accounts)) [
  | inl e ↦ rw e (refl, refl)
  | inr e ↦ rw e (
      finish-SameQueues s now later (record pool { index = _ })
        (scan s now pool.heap (visits pool.ready_accounts pool.index) none true))
]

pub claim-SameQueues :
    (rfc3339 : ℕ → Text) (worker_id : Text) (limit lease_sec : ℤ) (now : ℕ) (pool : AccountPool)
    → SameQueues pool (claim rfc3339 worker_id limit lease_sec now pool).0
unfolding finish_claim update_external_alert_state
claim-SameQueues rfc3339 worker_id limit lease_sec now pool =
    claim_elim rfc3339 worker_id limit lease_sec now pool (λ r. SameQueues pool r.0)
      (λ _. (refl, refl))
      (λ _.
        let kept =
          claim_loop-queues rfc3339 _ now _ (claim_limit limit pool) 0 pool pool.pending_accounts in
        (kept.1, kept.0))

pub mark_failed-SameQueues :
    (task_id worker_id : Text) (now : ℕ) (pool : AccountPool)
    → SameQueues pool (mark_external_refresh_failed task_id worker_id now pool).0
unfolding mark_external_refresh_failed record_failure update_external_alert_state
mark_failed-SameQueues task_id worker_id now pool = ground arith
