-- ===== src/Pool/External/Failures.antt =====
-- src/pool/pool.go, `MarkExternalRefreshFailed` and its interplay with the claims.
use business2api.Base.{
  ℕ, suc, ◌+◌, ◌*◌, ◌^◌, ◌≤◌, ◌<◌, ◌≡◌, ◌≢◌, refl, ap, sym, ◌∙◌, inl, inr, true, false, List, [],
  ◌∷◌, none, some, arith, null, elem, min, ℤ, pos, add_duration, Bool-cases, ltb, ltb→lt,
  if◌then◌else◌,
}
use native.Mathlib.Decide.{ℕ_discrete}
use business2api.Text.{
  Text, codes, eqb, eqb_iff, eqb_refl, trim_space, trim_space-eq_self, is_space,
  append-decimal-StartsSolid,
}
use business2api.Pool.Account.{Account, second}
use business2api.Pool.State.{AccountPool}
use business2api.Pool.External.Defs.{
  task_name, release_lease, external_task_by_id, external_task_backoff, update_external_alert_state,
  is_backing_off,
}
use business2api.Pool.External.Backoff.{external_task_backoff-doubles, external_task_backoff-wraps}
use business2api.Pool.External.Claim.{claim}
use business2api.Pool.External.Round.{is_busy}
use business2api.Pool.External.Leases.{claim-busy}
use business2api.Pool.External.Loop.{null-task_name}
use business2api.Pool.External.Tickets.{IsTicketed, task_of_account, name-ne-nil, clear-IsTicketed}
use business2api.Pool.External.Fail.{
  wrong_owner, fail_task, record_failure, mark_external_refresh_failed,
}

-- The wait after a failure, with `failures` earlier ones: 30 seconds, doubled each time, 300 at most.
abbrev pub backoff : ℕ → ℕ
backoff failures = min (30 * 2 ^ failures) 300 * second

-- What is left of that wait: from the 60th failure in a row on, there is none.
abbrev pub wait_after : ℕ → ℕ
wait_after failures = if ltb failures 59 then backoff failures else 0

-- The account `after` is `before` with a failure of its external task: the lease is given up, the
-- failure counted and the wait until the next claim set.
pub record IsPutOff (now : ℕ) (before after : Account) : Type 0 where
  pub counted : after.external_fail_count ≡ before.external_fail_count + 1
  pub waits : after.external_retry_at ≡ now + wait_after before.external_fail_count
  pub no_task : after.external_task_id ≡ []
  pub no_owner : after.external_lease_owner ≡ []
  pub no_lease : after.external_lease_until ≡ 0
  pub same_data : after.account_data ≡ before.account_data
  pub same_status : after.status ≡ before.status

external_task_backoff-eq :
    (failures : ℕ) → external_task_backoff (failures + 1) ≡ pos (wait_after failures)
external_task_backoff-eq failures =
    ap external_task_backoff {x = failures + 1} {y = suc failures} (omega arith)
    ∙ elim (Bool-cases (ltb failures 59)) [
      | inl few ↦ rw few (external_task_backoff-doubles failures (ltb→lt failures 59 few))
      | inr many ↦ rw many (external_task_backoff-wraps (suc failures) (ground arith))
    ]

fail_task-IsPutOff : (now : ℕ) (acc : Account) → IsPutOff now acc (fail_task now acc)
unfolding fail_task release_lease add_duration
fail_task-IsPutOff now acc = record {
  counted = refl;
  waits = rw (external_task_backoff-eq acc.external_fail_count) refl;
  no_task = refl;
  no_owner = refl;
  no_lease = refl;
  same_data = refl;
  same_status = refl;
}

trim_space-task_name : (n : ℕ) → trim_space (task_name n) ≡ task_name n
unfolding task_name is_space
trim_space-task_name n =
    trim_space-eq_self (task_name n) refl (append-decimal-StartsSolid (codes "ext-refresh-") n)

-- With distinct identifiers, the search finds the account that holds the task.
external_task_by_id-eq :
    (pool : AccountPool) (ps : List ℕ) (p : ℕ)
    → IsTicketed pool
    → task_of_account pool p ≢ []
    → elem p ps ≡ true
    → external_task_by_id pool.heap (task_of_account pool p) ps ≡ some p
unfolding external_task_by_id
external_task_by_id-eq pool [] p v held m = cc
external_task_by_id-eq pool (q ∷ ps) p v held m = elim (ℕ_discrete q p) [
  | yes e ↦ rw (e, eqb_refl (task_of_account pool p), external_task_by_id)
  | no d ↦ elim (Bool-cases (eqb (task_of_account pool q) (task_of_account pool p))) [
    | inl alike ↦
        let same = (eqb_iff _ _).0 alike in absurd (held (sym same ∙ v.distinct q p d same))
    | inr apart ↦
        rw (apart, external_task_by_id) (external_task_by_id-eq pool ps p v held (ground arith))
  ]
]

module _ (pool : AccountPool) (p n : ℕ) (now : ℕ) (v : IsTicketed pool)
    (m : elem p pool.pending_accounts ≡ true) (held : task_of_account pool p ≡ task_name n) where
  abbrev owner : Text
  owner = (pool.heap p).external_lease_owner

  found : external_task_by_id pool.heap (trim_space (task_name n)) pool.pending_accounts ≡ some p
  found =
      rw (trim_space-task_name n, ← held)
        (external_task_by_id-eq pool pool.pending_accounts p v (λ e. name-ne-nil n (sym held ∙ e))
          m)

  abbrev failed : AccountPool
  failed = update_external_alert_state (record_failure now pool p)

  failed-IsTicketed : IsTicketed failed
  unfolding update_external_alert_state record_failure fail_task release_lease
  failed-IsTicketed =
      clear-IsTicketed pool failed p (λ q d. ground arith) v (omega arith) (inl (ground arith))

  failed_lem :
      (failed.heap p ≡ fail_task now (pool.heap p))
      × ((q : ℕ) → p ≢ q → failed.heap q ≡ pool.heap q)
      × (failed.external_refresh_failed_total ≡ pool.external_refresh_failed_total + 1)
      × (failed.pending_accounts ≡ pool.pending_accounts)
  unfolding update_external_alert_state record_failure
  failed_lem = (ground arith, λ q d. ground arith, refl, refl)

  name_present : null (trim_space (task_name n)) ≡ false
  name_present = rw (trim_space-task_name n) (null-task_name n)

  -- Where the tasks have distinct identifiers, a worker that gives its name cannot report the failure
  -- of a task that a worker of another name holds: nothing changes.
  pub mark_failed-wrong_owner :
      (worker_id : Text)
      → null (trim_space worker_id) ≡ false
      → null owner ≡ false
      → owner ≢ trim_space worker_id
      → mark_external_refresh_failed (task_name n) worker_id now pool ≡ (pool, some wrong_owner)
  unfolding mark_external_refresh_failed
  mark_failed-wrong_owner worker_id named owned foreign =
      let apart : eqb owner (trim_space worker_id) ≡ false =
        elim (Bool-cases (eqb owner (trim_space worker_id))) [
          | inl e ↦ absurd (foreign ((eqb_iff _ _).0 e))
          | inr e ↦ e
        ] in
      rw (name_present, found, named, owned, apart, mark_external_refresh_failed)

  accepted :
      (worker_id : Text)
      → owner ≡ trim_space worker_id
      → mark_external_refresh_failed (task_name n) worker_id now pool ≡ (failed, none)
  unfolding mark_external_refresh_failed
  accepted worker_id same =
      rw (name_present, found, same, eqb_refl (trim_space worker_id), mark_external_refresh_failed)
        (ground arith)

  mark_failed-heap :
      (worker_id : Text)
      → owner ≡ trim_space worker_id
      → (mark_external_refresh_failed (task_name n) worker_id now pool).0.heap p
        ≡ fail_task now (pool.heap p)
  mark_failed-heap worker_id same =
      let done : mark_external_refresh_failed (task_name n) worker_id now pool ≡ (failed, none) =
        accepted worker_id same in
      rw done failed_lem.0

  -- Where the tasks have distinct identifiers, the worker that holds a pending account's task reports
  -- its failure: the account gives up the lease and counts the failure, and its next claim is put off
  -- by 30 seconds, doubled by each earlier failure and 300 at most, or not at all from the 60th failure
  -- in a row on. No other account and no queue of pending accounts changes, and the identifiers stay
  -- distinct.
  pub mark_failed-own :
      (worker_id : Text)
      → owner ≡ trim_space worker_id
      → let r = mark_external_refresh_failed (task_name n) worker_id now pool in
        (r.1 ≡ none)
        × IsPutOff now (pool.heap p) (r.0.heap p)
        × ((q : ℕ) → p ≢ q → r.0.heap q ≡ pool.heap q)
        × (r.0.external_refresh_failed_total ≡ pool.external_refresh_failed_total + 1)
        × (r.0.pending_accounts ≡ pool.pending_accounts)
        × IsTicketed r.0
  mark_failed-own worker_id same =
      let done : mark_external_refresh_failed (task_name n) worker_id now pool ≡ (failed, none) =
        accepted worker_id same in
      rw done (
        refl,
        rw failed_lem.0 (fail_task-IsPutOff now (pool.heap p)),
        failed_lem.1,
        failed_lem.2,
        failed_lem.3,
        failed-IsTicketed,
      )

fail_task-is_busy :
    (now later : ℕ) (acc : Account)
    → acc.external_fail_count < 59
    → later < now + backoff acc.external_fail_count
    → is_busy later (fail_task now acc) ≡ true
unfolding fail_task release_lease add_duration
fail_task-is_busy now later acc few soon =
    let e : external_task_backoff (acc.external_fail_count + 1)
        ≡ pos (backoff acc.external_fail_count) =
      ap external_task_backoff {x = acc.external_fail_count + 1} {y = suc acc.external_fail_count}
        (omega arith)
      ∙ external_task_backoff-doubles acc.external_fail_count few in
    rw e (ground arith)

-- After a failure that the holder of a pending account's task reports, with distinct identifiers, no
-- claim gives the account out or changes it before its backoff is over, where it is at most the 59th
-- failure in a row.
pub mark_failed-backs_off :
    (pool : AccountPool) (p n now : ℕ) (worker_id : Text)
    → IsTicketed pool
    → elem p pool.pending_accounts ≡ true
    → task_of_account pool p ≡ task_name n
    → (pool.heap p).external_lease_owner ≡ trim_space worker_id
    → (pool.heap p).external_fail_count < 59
    → (rfc3339 : ℕ → Text) (other : Text) (limit lease_sec : ℤ) (later : ℕ)
    → later < now + backoff (pool.heap p).external_fail_count
    → let after = (mark_external_refresh_failed (task_name n) worker_id now pool).0 in
      (claim rfc3339 other limit lease_sec later after).0.heap p ≡ fail_task now (pool.heap p)
mark_failed-backs_off pool p n now worker_id v m held same few rfc3339 other limit lease_sec later
      soon =
    let after = (mark_external_refresh_failed (task_name n) worker_id now pool).0 in
    let failed = mark_failed-heap pool p n now v m held worker_id same in
    claim-busy rfc3339 other limit lease_sec later after p
      (rw failed (fail_task-is_busy now later (pool.heap p) few soon))
    ∙ failed

-- From the 60th failure in a row on there is no backoff left: the account can be claimed again at
-- once.
pub fail_task-no_backoff :
    (now later : ℕ) (acc : Account)
    → 59 ≤ acc.external_fail_count
    → now ≤ later
    → is_backing_off later (fail_task now acc) ≡ false
unfolding fail_task release_lease add_duration
fail_task-no_backoff now later acc many h =
    let e : external_task_backoff (acc.external_fail_count + 1) ≡ pos 0 =
      external_task_backoff-wraps (acc.external_fail_count + 1) (omega arith) in
    rw e (ground arith)
