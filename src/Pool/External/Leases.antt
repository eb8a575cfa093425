-- ===== src/Pool/External/Leases.antt =====
-- src/pool/pool.go, `ClaimExternalRefreshTasks` as a whole: how many tasks a claim gives out, that a
-- task in another worker's hands stays there, and that the claiming worker holds what it gets.
use business2api.Base.{
  ℕ, ◌+◌, ◌*◌, ◌≤◌, ◌≡◌, refl, true, false, List, [], arith, Bool-cases, inl, inr, if◌then◌else◌,
  length, null, All, ℤ,
}
use business2api.Text.{Text, trim_space}
use business2api.Pool.Account.{second}
use business2api.Pool.State.{AccountPool}
use business2api.Pool.External.Defs.{
  AccountUploadRequest, normalize_external_claim_limit, normalize_external_lease_sec, is_throttled,
  update_external_alert_state,
}
use business2api.Pool.External.Claim.{claim_loop, claim_limit, finish_claim, claim}
use business2api.Pool.External.Round.{is_busy}
use business2api.Pool.External.Loop.{
  normalize_external_claim_limit_bounds, normalize_external_lease_sec_bounds, claim_loop-length,
  claim_loop-busy, claim_loop-Held, Held,
}

-- The operation as a whole.
module _ (rfc3339 : ℕ → Text) (worker_id : Text) (limit lease_sec : ℤ) (now : ℕ)
    (pool : AccountPool) where
  abbrev pub claimed : AccountPool × List AccountUploadRequest
  claimed = claim rfc3339 worker_id limit lease_sec now pool

  abbrev pub lease_end : ℕ
  lease_end = now + normalize_external_lease_sec lease_sec * second

  abbrev pub looped : AccountPool × List AccountUploadRequest
  looped =
      claim_loop rfc3339 (trim_space worker_id) now lease_end (claim_limit limit pool) 0 pool
        pool.pending_accounts

  -- A property of the result follows from the refusal of a nameless worker and from the loop.
  pub claim_elim {ℓ} :
      (P : AccountPool × List AccountUploadRequest → Type ℓ)
      → (null (trim_space worker_id) ≡ true → P (pool, []))
      → (null (trim_space worker_id) ≡ false → P (finish_claim looped))
      → P claimed
  unfolding claim
  claim_elim P nameless named = elim (Bool-cases (null (trim_space worker_id))) [
    | inl e ↦ rw (e, claim) (nameless e)
    | inr e ↦ rw (e, claim) (named e)
  ]

  claim_limit_bounds :
      (1 ≤ claim_limit limit pool)
      × (claim_limit limit pool ≤ 200)
      × (claim_limit limit pool
          ≤ (if is_throttled pool then 1 else normalize_external_claim_limit limit))
  unfolding claim_limit
  claim_limit_bounds = ground (arith, normalize_external_claim_limit_bounds limit)

  -- How many tasks a claim may give out.
  abbrev pub allowance : ℕ
  allowance =
      if null (trim_space worker_id)
      then 0
      else if is_throttled pool
      then 1
      else normalize_external_claim_limit limit

  -- A claim gives out no task to a worker without a name, at most one while the fallback ratio
  -- throttles, else at most the normalised limit, which is 200 at the very most.
  pub claim-length : (length claimed.1 ≤ allowance) × (length claimed.1 ≤ 200)
  unfolding finish_claim
  claim-length =
      claim_elim (λ r. (length r.1 ≤ allowance) × (length r.1 ≤ 200))
        (λ e. (omega arith, omega arith))
        (λ e.
          let len =
            claim_loop-length rfc3339 (trim_space worker_id) now lease_end (claim_limit limit pool)
              0 pool pool.pending_accounts claim_limit_bounds.0 in
          (ground (arith, len, claim_limit_bounds), ground (arith, len, claim_limit_bounds)))

  -- While a worker's lease lasts, a claim by anyone leaves the account as it is; the same goes for an
  -- account that waits for no external refresh, and for one without a task that backs off.
  pub claim-busy : (p : ℕ) → is_busy now (pool.heap p) ≡ true → claimed.0.heap p ≡ pool.heap p
  unfolding finish_claim update_external_alert_state
  claim-busy p b =
      claim_elim (λ r. r.0.heap p ≡ pool.heap p) (λ _. refl)
        (λ _. claim_loop-busy rfc3339 _ now lease_end _ 0 pool pool.pending_accounts p b)

  -- Each task that a claim returns is held by the worker, in a pending account, until the lease ends.
  pub claim-Held :
      All
        (Held rfc3339 (trim_space worker_id) now lease_end claimed.0.heap pool.pending_accounts)
        claimed.1
  unfolding finish_claim update_external_alert_state
  claim-Held =
      claim_elim
        (λ r.
          All (Held rfc3339 (trim_space worker_id) now lease_end r.0.heap pool.pending_accounts)
            r.1)
        (λ _. tt)
        (λ _.
          claim_loop-Held rfc3339 _ now lease_end _ 0 pool pool.pending_accounts
            (omega (arith, normalize_external_lease_sec_bounds lease_sec)))
