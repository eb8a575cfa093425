-- ===== src/Pool/External/Fail.antt =====
-- src/pool/pool.go, `MarkExternalRefreshFailed`: a worker gives its task back.
use business2api.Base.{ℕ, ◌+◌, not, ◌&&◌, Option, none, some, if◌then◌else◌, null, add_duration}
use business2api.Text.{Text, eqb, trim_space}
use business2api.Pool.Account.{Account}
use business2api.Pool.State.{AccountPool, update}
use business2api.Pool.External.Defs.{
  external_task_backoff, update_external_alert_state, external_task_by_id, release_lease,
}

pub data FailError : Type 0 where
  empty_task_id unknown_task_id wrong_owner : FailError

-- The failure of a task: the account may be tried again after the backoff.
unfoldable pub fail_task : ℕ → Account → Account
unfolding external_task_backoff release_lease
fail_task now acc =
    let failures = acc.external_fail_count + 1 in
    record (release_lease acc) {
      external_fail_count = failures;
      external_retry_at = add_duration now (external_task_backoff failures);
    }

unfoldable pub record_failure : ℕ → AccountPool → ℕ → AccountPool
record_failure now pool p = record pool {
  heap = update pool.heap p (fail_task now (pool.heap p));
  external_refresh_failed_total = pool.external_refresh_failed_total + 1;
}

unfoldable pub mark_external_refresh_failed :
    Text → Text → ℕ → AccountPool → AccountPool × Option FailError
mark_external_refresh_failed task_id worker_id now pool =
    let task = trim_space task_id in
    let worker = trim_space worker_id in
    if null task
    then (pool, some empty_task_id)
    else elim (external_task_by_id pool.heap task pool.pending_accounts) [
      | none ↦ (pool, some unknown_task_id)
      | some p ↦
          let owner = (pool.heap p).external_lease_owner in
          if not (null worker) && not (null owner) && not (eqb owner worker)
          then (pool, some wrong_owner)
          else (update_external_alert_state (record_failure now pool p), none)
    ]
