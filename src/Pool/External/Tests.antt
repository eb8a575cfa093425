-- ===== src/Pool/External/Tests.antt =====
-- Runs of the external refresh tasks of src/pool/pool.go, and the theorems at concrete inputs.
use business2api.Base.{
  ℕ, ◌+◌, ◌*◌, ◌≡◌, ◌≢◌, refl, sym, ◌∙◌, true, false, [], ◌∷◌, none, inl, arith, null, All, pos,
  elem,
}
use business2api.Text.{codes, eqb, eqb_iff, trim_space, drop_space, is_space, decimal, decimal_fuel}
use business2api.Pool.Account.{Account, second}
use business2api.Pool.State.{AccountPool}
use business2api.Pool.External.Defs.{
  task_name, release_lease, external_task_backoff, update_external_alert_state, is_throttled,
  normalize_external_claim_limit, normalize_external_lease_sec,
}
use business2api.Pool.External.Claim.{
  claim, claim_loop, claim_one, claim_limit, offer, grant, reclaim, finish_claim,
}
use business2api.Pool.External.Fail.{mark_external_refresh_failed}
use business2api.Pool.External.Round.{is_busy}
use business2api.Pool.External.Loop.{Held}
use business2api.Pool.External.Backoff.{external_task_backoff-wraps}
use business2api.Pool.External.Leases.{claim-busy, claim-Held, lease_end}
use business2api.Pool.External.Tickets.{IsTicketed, claim-IsTicketed, task_of_account}
use business2api.Pool.External.Failures.{IsPutOff, mark_failed-own}
use business2api.Pool.Samples.{pool_of}

abbrev start : ℕ
start = 100 * second

-- Two accounts wait for an external refresh, and a worker asks for one task.
abbrev waiting : AccountPool
waiting = pool_of [] (3 ∷ 4 ∷ [])

abbrev lent : AccountPool
lent = (claim decimal (codes "w") (pos 1) (pos 60) start waiting).0

lent_task : (lent.heap 3).external_task_id ≡ codes "ext-refresh-1"
unfolding claim claim_loop claim_one claim_limit offer grant reclaim finish_claim trim_space
    drop_space is_space is_throttled normalize_external_claim_limit normalize_external_lease_sec
    task_name decimal decimal_fuel update_external_alert_state release_lease
lent_task = refl

lent_lem :
    (task_of_account lent 3 ≡ task_name 1)
    × ((lent.heap 3).external_lease_owner ≡ codes "w")
    × (is_busy (101 * second) (lent.heap 3) ≡ true)
    × (elem 3 lent.pending_accounts ≡ true)
    × ((lent.heap 3).external_fail_count ≡ 0)
unfolding claim claim_loop claim_one claim_limit offer grant reclaim finish_claim trim_space
    drop_space is_space is_throttled normalize_external_claim_limit normalize_external_lease_sec
    task_name update_external_alert_state
lent_lem = (refl, refl, refl, refl, refl)

worker_name : trim_space (codes "w") ≡ codes "w"
unfolding trim_space drop_space is_space
worker_name = refl

waiting-IsTicketed : IsTicketed waiting
waiting-IsTicketed = record { named = λ p. inl (ground arith); distinct = λ p q d e. ground arith }

lent-IsTicketed : IsTicketed lent
lent-IsTicketed =
    claim-IsTicketed decimal (codes "w") (pos 1) (pos 60) start waiting (omega arith)
      waiting-IsTicketed

claim-IsTicketed_example : IsTicketed lent
claim-IsTicketed_example =
    claim-IsTicketed decimal (codes "w") (pos 1) (pos 60) start waiting (omega arith)
      waiting-IsTicketed

claim-busy_example :
    (claim decimal (codes "x") (pos 9) (pos 60) (101 * second) lent).0.heap 3 ≡ lent.heap 3
claim-busy_example =
    claim-busy decimal (codes "x") (pos 9) (pos 60) (101 * second) lent 3 lent_lem.2

claim-Held_example :
    All
      (Held decimal
        (trim_space (codes "w"))
        start
        (lease_end decimal (codes "w") (pos 1) (pos 60) start waiting)
        lent.heap
        waiting.pending_accounts)
      (claim decimal (codes "w") (pos 1) (pos 60) start waiting).1
claim-Held_example = claim-Held decimal (codes "w") (pos 1) (pos 60) start waiting

external_task_backoff-wraps_example : external_task_backoff 60 ≡ pos 0
external_task_backoff-wraps_example = external_task_backoff-wraps 60 (omega arith)

foreign_name : null (trim_space (codes "x")) ≡ false
unfolding trim_space drop_space is_space
foreign_name = refl

foreign_lem : trim_space (codes "x") ≡ codes "x"
unfolding trim_space drop_space is_space
foreign_lem = refl

false-ne-true : false ≢ true
false-ne-true e = cc

foreign : codes "w" ≢ codes "x"
unfolding eqb
foreign e = false-ne-true ((eqb_iff (codes "w") (codes "x")).1 e)

mark_failed-own_example :
    let r = mark_external_refresh_failed (task_name 1) (codes "w") start lent in
    (r.1 ≡ none)
    × IsPutOff start (lent.heap 3) (r.0.heap 3)
    × ((q : ℕ) → 3 ≢ q → r.0.heap q ≡ lent.heap q)
    × (r.0.external_refresh_failed_total ≡ lent.external_refresh_failed_total + 1)
    × (r.0.pending_accounts ≡ lent.pending_accounts)
    × IsTicketed r.0
mark_failed-own_example =
    mark_failed-own lent 3 1 start lent-IsTicketed lent_lem.3 lent_lem.0 (codes "w")
      (lent_lem.1 ∙ sym worker_name)

abbrev often_failed : Account
often_failed = record (lent.heap 3) { external_fail_count = 59 }
