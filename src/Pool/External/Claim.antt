-- ===== src/Pool/External/Claim.antt =====
-- src/pool/pool.go, `ExternalRefreshTasks` and `ClaimExternalRefreshTasks`.
use business2api.Base.{
  ℕ, ◌+◌, ◌*◌, ◌%◌, Bool, not, ◌&&◌, List, [], ◌∷◌, Option, none, some, ltb, leb, if◌then◌else◌,
  length, null, ℤ,
}
use business2api.Text.{Text, trim_space}
use business2api.Pool.Account.{Account, is_pending_external, second}
use business2api.Pool.State.{AccountPool, update, uint64}
use business2api.Pool.External.Defs.{
  AccountUploadRequest, normalize_external_claim_limit, normalize_external_lease_sec, is_throttled,
  update_external_alert_state, task_name, release_lease, is_leased, is_lease_over, is_backing_off,
  task_of,
}

-- `rfc3339` prints a time in the program's time zone.
module _ (rfc3339 : ℕ → Text) (worker : Text) (now lease_until : ℕ) where
  unfoldable pub grant : AccountPool → ℕ → AccountPool × Option AccountUploadRequest
  unfolding task_name
  grant pool p =
      let acc = pool.heap p in
      let seq = (pool.external_task_seq + 1) % uint64 in
      let id = task_name seq in
      (
        record pool {
          external_task_seq = seq;
          heap = update pool.heap p (record acc {
            external_task_id = id;
            external_lease_owner = worker;
            external_lease_until = lease_until;
          });
        },
        some (record (task_of acc.account_data) {
          task_id = id;
          worker_id = worker;
          lease_until = rfc3339 lease_until;
        }),
      )

  unfoldable pub reclaim : AccountPool → ℕ → AccountPool
  unfolding release_lease
  reclaim pool p =
      if is_lease_over now (pool.heap p)
      then record pool {
        heap = update pool.heap p (release_lease (pool.heap p));
        external_refresh_lease_expired = pool.external_refresh_lease_expired + 1;
      }
      else pool

  -- An account that is held by another worker or backs off is passed over.
  unfoldable pub offer : AccountPool → ℕ → AccountPool × Option AccountUploadRequest
  offer pool p =
      if is_leased now (pool.heap p)
      then (pool, none)
      else if is_backing_off now (pool.heap p)
      then (pool, none)
      else grant pool p

  -- One round of the loop: the state after it, and the task if the account is given out.
  unfoldable pub claim_one : AccountPool → ℕ → AccountPool × Option AccountUploadRequest
  claim_one pool p =
      if not (is_pending_external (pool.heap p).status)
      then (pool, none)
      else offer (reclaim pool p) p

  -- The loop over the pending accounts, with `taken` tasks so far.
  unfoldable pub claim_loop : ℕ → ℕ → AccountPool → List ℕ → AccountPool × List AccountUploadRequest
  claim_loop limit taken pool [] = (pool, [])
  claim_loop limit taken pool (p ∷ ps) =
      let (pool', result) = claim_one pool p in
      elim result [
        | none ↦ claim_loop limit taken pool' ps
        | some task ↦
            let (after, tasks) = claim_loop limit (taken + 1) pool' ps in
            if leb limit (taken + 1) then (pool', task ∷ []) else (after, task ∷ tasks)
      ]

-- The limit of a claim: one task while the fallback ratio throttles.
unfoldable pub claim_limit : ℤ → AccountPool → ℕ
claim_limit limit pool =
    let most = normalize_external_claim_limit limit in
    if is_throttled pool && ltb 1 most then 1 else most

unfoldable pub finish_claim :
    AccountPool × List AccountUploadRequest → AccountPool × List AccountUploadRequest
finish_claim (pool, tasks) = (
  update_external_alert_state (record pool {
    external_refresh_claim_total = pool.external_refresh_claim_total + length tasks;
  }),
  tasks,
)

unfoldable pub claim :
    (ℕ → Text) → Text → ℤ → ℤ → ℕ → AccountPool → AccountPool × List AccountUploadRequest
claim rfc3339 worker_id limit lease_sec now pool =
    let worker = trim_space worker_id in
    let lease_until = now + normalize_external_lease_sec lease_sec * second in
    if null worker
    then (pool, [])
    else finish_claim (
        claim_loop rfc3339 worker now lease_until (claim_limit limit pool) 0 pool
          pool.pending_accounts)

-- `ExternalRefreshTasks`: the tasks that could be claimed now, with nothing leased.
unfoldable pub is_offered : ℕ → Account → Bool
is_offered now acc =
    is_pending_external acc.status && not (is_backing_off now acc) && not (is_leased now acc)

unfoldable pub offer_loop : ℕ → ℕ → ℕ → (ℕ → Account) → List ℕ → List AccountUploadRequest
unfolding is_offered
offer_loop now limit taken heap [] = []
offer_loop now limit taken heap (p ∷ ps) =
    let skip = offer_loop now limit taken heap ps in
    let more = offer_loop now limit (taken + 1) heap ps in
    let task = task_of (heap p).account_data in
    if not (is_offered now (heap p))
    then skip
    else if leb limit (taken + 1)
    then task ∷ []
    else task ∷ more

unfoldable pub external_refresh_tasks : ℤ → ℕ → AccountPool → List AccountUploadRequest
unfolding offer_loop normalize_external_claim_limit
external_refresh_tasks limit now pool =
    offer_loop now (normalize_external_claim_limit limit) 0 pool.heap pool.pending_accounts
