-- ===== src/Pool/Worker/Endings.antt =====
-- src/pool/pool.go, `refreshWorker`: the ways in which a turn of a worker ends, and the
-- steps that end it.
use business2api.Base.{
  ℕ, ◌+◌, ◌*◌, ◌≤◌, ◌≡◌, ap, ◌∙◌, true, false, ◌⊎◌, inl, inr, [], ◌∷◌, ◌++◌, arith, Bool-cases, leb,
  leb→le, max,
}
use business2api.Pool.Account.{Account, Settings, ready, invalid, pending_external}
use business2api.Pool.State.{AccountPool, modify, update}
use business2api.Pool.Queues.{mark_ready, requeue, remove_first, remove_all}
use business2api.Pool.Worker.{
  Outside, Disk, BrowserRefreshResult, on_other_error, drop_account, remove_account, save_to_file,
  strike, readopt, adopt, is_last_strike,
}

-- Why an account may be dropped: authentication failed and the settings say to delete it, or it
-- failed at least ten times, or another error came for the last time.
abbrev pub DropReason : Settings → Account → Type 0
DropReason s acc =
    ((s.external_refresh_mode ≡ false) × (s.auto_delete_401 ≡ true))
    ⊎ (((s.external_refresh_mode ≡ false)
          × (s.browser_refresh_max_retry ≤ acc.browser_refresh_count)
          × (max 10 (s.max_fail_count * 3) ≤ acc.fail_count))
        ⊎ (s.max_fail_count ≤ acc.fail_count))

-- The ways a turn ends, in the order ready, pending again, handed to the external workers, dropped.
pub data Ends (s : Settings) (before : AccountPool) (p : ℕ) (after : AccountPool) : Type 0 where
  promoted :
      after.ready_accounts ≡ before.ready_accounts ++ p ∷ []
      → after.pending_accounts ≡ before.pending_accounts
      → (after.heap p).status ≡ ready
      → Ends s before p after
  requeued :
      after.ready_accounts ≡ before.ready_accounts
      → after.pending_accounts ≡ before.pending_accounts ++ p ∷ []
      → Ends s before p after
  handed_over :
      s.external_refresh_mode ≡ true
      → after.ready_accounts ≡ remove_first p before.ready_accounts
      → after.pending_accounts ≡ remove_all p before.pending_accounts ++ p ∷ []
      → (after.heap p).status ≡ pending_external
      → Ends s before p after
  dropped :
      after.ready_accounts ≡ before.ready_accounts
      → after.pending_accounts ≡ before.pending_accounts
      → (after.heap p).status ≡ invalid
      → DropReason s (after.heap p)
      → Ends s before p after

-- The account after the write at `p`.
pub update_same : (heap : ℕ → Account) (p : ℕ) (acc : Account) → update heap p acc p ≡ acc
update_same heap p acc = ground arith

module _ (s : Settings) (out : Outside) (now : ℕ) where
  pub remove_account-pool :
      (w : AccountPool × Disk) (p : ℕ) → (remove_account s out now w p).0 ≡ w.0
  unfolding remove_account
  remove_account-pool (pool, disk) p = ground arith

  pub save_to_file-queues :
      (w : AccountPool × Disk) (p : ℕ)
      → ((save_to_file s out now w p).0.ready_accounts ≡ w.0.ready_accounts)
        × ((save_to_file s out now w p).0.pending_accounts ≡ w.0.pending_accounts)
  unfolding save_to_file
  save_to_file-queues (pool, disk) p = ground arith

  pub drop_account-Ends :
      (before : AccountPool) (w : AccountPool × Disk) (p : ℕ)
      → w.0.ready_accounts ≡ before.ready_accounts
      → w.0.pending_accounts ≡ before.pending_accounts
      → DropReason s (w.0.heap p)
      → Ends s before p (drop_account s out now w p).0
  unfolding drop_account
  drop_account-Ends before (pool, disk) p r q reason =
      rw (remove_account-pool (modify p (λ a. record a { status = invalid }) pool, disk) p) (
        dropped r q (ap (λ a. a.status) (update_same pool.heap p _))
          (rw (update_same pool.heap p (record (pool.heap p) { status = invalid })) reason))

  pub requeue-Ends :
      (before : AccountPool) (pool : AccountPool) (p : ℕ)
      → pool.ready_accounts ≡ before.ready_accounts
      → pool.pending_accounts ≡ before.pending_accounts
      → Ends s before p (requeue p pool)
  unfolding requeue
  requeue-Ends before pool p r q = requeued r (ap (λ xs. xs ++ p ∷ []) q)

  pub mark_ready-Ends :
      (before : AccountPool) (pool : AccountPool) (p : ℕ)
      → pool.ready_accounts ≡ before.ready_accounts
      → pool.pending_accounts ≡ before.pending_accounts
      → Ends s before p (mark_ready p pool)
  unfolding mark_ready
  mark_ready-Ends before pool p r q =
      promoted (ap (λ xs. xs ++ p ∷ []) r) q (ap (λ a. a.status) (update_same pool.heap p _))

  pub readopt-Ends :
      (r : BrowserRefreshResult) (before : AccountPool) (w : AccountPool × Disk) (p : ℕ)
      → w.0.ready_accounts ≡ before.ready_accounts
      → w.0.pending_accounts ≡ before.pending_accounts
      → Ends s before p (readopt s out now r w p).0
  unfolding readopt
  readopt-Ends r before (pool, disk) p e q =
      let kept = save_to_file-queues (modify p (adopt r) pool, disk) p in
      requeue-Ends before _ p (kept.0 ∙ e) (kept.1 ∙ q)

  last_strike_bounds :
      (acc : Account)
      → is_last_strike s out now acc ≡ true
      → (s.browser_refresh_max_retry ≤ acc.browser_refresh_count)
        × (max 10 (s.max_fail_count * 3) ≤ acc.fail_count)
  unfolding is_last_strike
  last_strike_bounds acc e = ground arith

  pub strike-Ends :
      (before : AccountPool) (w : AccountPool × Disk) (p : ℕ)
      → s.external_refresh_mode ≡ false
      → w.0.ready_accounts ≡ before.ready_accounts
      → w.0.pending_accounts ≡ before.pending_accounts
      → Ends s before p (strike s out now w p).0
  unfolding strike
  strike-Ends before (pool, disk) p internal r q =
      let failed = modify p (λ a. record a { fail_count = a.fail_count + 1 }) pool in
      elim (Bool-cases (is_last_strike s out now (failed.heap p))) [
        | inl last ↦
            let bounds = last_strike_bounds (failed.heap p) last in
            rw last (
              drop_account-Ends before (failed, disk) p r q
                (inr (inl (internal, bounds.0, bounds.1))))
        | inr again ↦ rw again (requeue-Ends before failed p r q)
      ]

  pub on_other_error-Ends :
      (before : AccountPool) (w : AccountPool × Disk) (p : ℕ)
      → w.0.ready_accounts ≡ before.ready_accounts
      → w.0.pending_accounts ≡ before.pending_accounts
      → Ends s before p (on_other_error s out now w p).0
  unfolding on_other_error
  on_other_error-Ends before (pool, disk) p r q =
      let failed = modify p (λ a. record a { fail_count = a.fail_count + 1 }) pool in
      elim (Bool-cases (leb s.max_fail_count (failed.heap p).fail_count)) [
        | inl last ↦
            rw last (drop_account-Ends before (failed, disk) p r q (inr (inr (leb→le _ _ last))))
        | inr again ↦ rw again (requeue-Ends before failed p r q)
      ]
