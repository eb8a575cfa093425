-- ===== src/Pool/Worker/Ends.antt =====
-- src/pool/pool.go, `refreshWorker`: how a turn of a worker ends for the account that it took.
use business2api.Base.{
  ℕ, ◌+◌, ◌≡◌, refl, ap, ◌∙◌, true, false, inl, inr, [], ◌∷◌, ◌++◌, Option, none, some, Bool-cases,
  Option-cases,
}
use business2api.Pool.Account.{Account, Settings, is_within, ready}
use business2api.Pool.State.{AccountPool, modify}
use business2api.Pool.Queues.{mark_external_refresh_pending, remove_first, remove_all}
use business2api.Pool.Jwt.{RefreshError}
use business2api.Pool.Worker.{
  Outside, Disk, BrowserRefreshResult, work, on_outcome, on_success, on_auth_error, accept,
  try_browser, may_use_browser, is_auth_error, is_cooling_error,
}
use business2api.Pool.Worker.Endings.{
  Ends, handed_over, update_same, save_to_file-queues, drop_account-Ends, mark_ready-Ends,
  readopt-Ends, strike-Ends, on_other_error-Ends,
}

module _ (s : Settings) (out : Outside) (now : ℕ) where
  try_browser-Ends :
      (browser : Account → BrowserRefreshResult) (before : AccountPool) (w : AccountPool × Disk)
      (p : ℕ)
      → s.external_refresh_mode ≡ false
      → w.0.ready_accounts ≡ before.ready_accounts
      → w.0.pending_accounts ≡ before.pending_accounts
      → Ends s before p (try_browser s out now browser w p).0
  unfolding try_browser
  try_browser-Ends browser before (pool, disk) p internal r q =
      let tried =
        modify p (λ a. record a { browser_refresh_count = a.browser_refresh_count + 1 }) pool in
      elim (Bool-cases (browser (tried.heap p)).success) [
        | inl won ↦
            rw won (readopt-Ends s out now (browser (tried.heap p)) before (tried, disk) p r q)
        | inr lost ↦ rw lost (strike-Ends s out now before (tried, disk) p internal r q)
      ]

  mark_external-Ends :
      (before : AccountPool) (pool : AccountPool) (p : ℕ)
      → s.external_refresh_mode ≡ true
      → pool.ready_accounts ≡ before.ready_accounts
      → pool.pending_accounts ≡ before.pending_accounts
      → Ends s before p (mark_external_refresh_pending p pool)
  unfolding mark_external_refresh_pending
  mark_external-Ends before pool p external r q =
      handed_over external (ap (remove_first p) r) (ap (λ xs. remove_all p xs ++ p ∷ []) q)
        (ap (λ a. a.status) (update_same pool.heap p _))

  on_auth_error-Ends :
      (before : AccountPool) (w : AccountPool × Disk) (p : ℕ)
      → w.0.ready_accounts ≡ before.ready_accounts
      → w.0.pending_accounts ≡ before.pending_accounts
      → Ends s before p (on_auth_error s out now w p).0
  unfolding on_auth_error
  on_auth_error-Ends before w p r q = elim (Bool-cases s.external_refresh_mode) [
    | inl external ↦ simp external (mark_external-Ends before w.0 p external r q)
    | inr internal ↦ elim (Bool-cases s.auto_delete_401) [
      | inl deletes ↦
          simp (internal, deletes)
            (drop_account-Ends s out now before w p r q (inl (internal, deletes)))
      | inr keeps ↦ elim (Bool-cases (may_use_browser s out now (w.0.heap p))) [
        | inl may ↦ elim (Option-cases out.browser) [
          | inl absent ↦
              simp (internal, keeps, may, absent) (strike-Ends s out now before w p internal r q)
          | inr (browser, present) ↦
              simp (internal, keeps, may, present)
                (try_browser-Ends browser before w p internal r q)
        ]
        | inr may_not ↦
            simp (internal, keeps, may_not) (strike-Ends s out now before w p internal r q)
      ]
    ]
  ]

  on_success-Ends :
      (before : AccountPool) (w : AccountPool × Disk) (p : ℕ)
      → w.0.ready_accounts ≡ before.ready_accounts
      → w.0.pending_accounts ≡ before.pending_accounts
      → Ends s before p (on_success s out now w p).0
  unfolding on_success
  on_success-Ends before (pool, disk) p r q =
      let kept =
        save_to_file-queues s out now
          (modify p (λ a. record a { fail_count = 0; status = ready }) pool, disk) p in
      mark_ready-Ends s out now before _ p (kept.0 ∙ r) (kept.1 ∙ q)

  accept-Ends :
      (before : AccountPool) (w : AccountPool × Disk) (p : ℕ)
      → w.0.ready_accounts ≡ before.ready_accounts
      → w.0.pending_accounts ≡ before.pending_accounts
      → Ends s before p (accept s out now w p).0
  unfolding accept
  accept-Ends before (pool, disk) p r q = mark_ready-Ends s out now before _ p r q

  on_outcome-Ends :
      (outcome : Option RefreshError) (before : AccountPool) (w : AccountPool × Disk) (p : ℕ)
      → w.0.ready_accounts ≡ before.ready_accounts
      → w.0.pending_accounts ≡ before.pending_accounts
      → Ends s before p (on_outcome s out now outcome w p).0
  unfolding on_outcome
  on_outcome-Ends none before w p r q = on_success-Ends before w p r q
  on_outcome-Ends (some e) before w p r q = elim (Bool-cases (is_auth_error e)) [
    | inl auth ↦ rw auth (on_auth_error-Ends before w p r q)
    | inr not_auth ↦ elim (Bool-cases (is_cooling_error e)) [
      | inl cools ↦ rw (not_auth, cools) (accept-Ends before w p r q)
      | inr fails ↦ rw (not_auth, fails) (on_other_error-Ends s out now before w p r q)
    ]
  ]

  -- Whatever the token service and the browser answer, a turn of the worker ends in one of four ways:
  -- the account becomes ready, is queued as pending once more, is handed to the external workers, or
  -- is dropped for a reason that the settings and its failures give.
  pub work-Ends :
      (refresh : Account → Account × Option RefreshError) (w : AccountPool × Disk) (p : ℕ)
      → Ends s w.0 p (work s out now refresh w p).0
  unfolding work
  work-Ends refresh (pool, disk) p =
      elim (Bool-cases (is_within now (pool.heap p).last_refresh s.refresh_cooldown)) [
        | inl cools ↦ rw cools (accept-Ends pool (pool, disk) p refl refl)
        | inr due ↦
            let acc = (refresh (record (pool.heap p) { jwt_expires = 0 })).0 in
            rw due (on_outcome-Ends _ pool (modify p (λ a. acc) pool, disk) p refl refl)
      ]
