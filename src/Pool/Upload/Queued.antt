-- ===== src/Pool/Upload/Queued.antt =====
-- src/pool/pool_server.go, `ProcessAccountUpload`: what an upload does to the queues.
use business2api.Base.{
  ℕ, ◌≡◌, refl, ◌∙◌, true, not, ◌&&◌, ◌⊎◌, [], ◌∷◌, ◌++◌, Option, none, arith, null, Bool-cases,
  inl, inr, Option-cases, elem, count-append,
}
use business2api.Pool.Account.{AccountData}
use business2api.Pool.State.{AccountPool}
use business2api.Pool.Queues.{remove_first}
use business2api.Pool.Queues.Moves.{queued, count-remove_first}
use business2api.Pool.External.Defs.{AccountUploadRequest, update_external_alert_state}
use business2api.Pool.Upload.{
  UploadError, check_task_ownership, find_email, renewed, count_success, upload_pending,
  upload_ready, upload_in_pool,
}
use business2api.Pool.Upload.Ownership.{find_email-some}

module _ (now : ℕ) (d : AccountData) (req : AccountUploadRequest) (q : ℕ) where
  -- Nothing has changed, or the upload is accepted and each account is queued as often as before.
  abbrev Settled : AccountPool → AccountPool × Option UploadError → Type 0
  Settled pool r = (queued q r.0 ≡ queued q pool) × ((r.1 ≡ none) ⊎ (r.0 ≡ pool))

  renewed-queued :
      (p : ℕ) (pool : AccountPool) → queued q (renewed now d req p pool) ≡ queued q pool
  unfolding renewed count_success
  renewed-queued p pool = ground arith

  moved-queued :
      (p : ℕ) (pool : AccountPool)
      → elem p pool.ready_accounts ≡ true
      → queued q (record pool {
        ready_accounts = remove_first p pool.ready_accounts;
        pending_accounts = pool.pending_accounts ++ p ∷ [];
      })
        ≡ queued q pool
  moved-queued p pool m = ground (
    arith,
    count-remove_first p q pool.ready_accounts,
    count-append q pool.pending_accounts (p ∷ []),
  )

  renewed-ready :
      (p : ℕ) (pool : AccountPool) → (renewed now d req p pool).ready_accounts ≡ pool.ready_accounts
  unfolding renewed count_success
  renewed-ready p pool = ground arith

  upload_pending-Settled :
      (p : ℕ) (pool : AccountPool) → Settled pool (upload_pending now d req p pool)
  unfolding upload_pending update_external_alert_state
  upload_pending-Settled p pool = elim (Option-cases (check_task_ownership now req (pool.heap p))) [
    | inl owns ↦ rw (owns, upload_pending) (renewed-queued p pool, inl refl)
    | inr (error, refused) ↦ rw (refused, upload_pending) (refl, inr refl)
  ]

  upload_ready-Settled :
      (p : ℕ) (pool : AccountPool)
      → elem p pool.ready_accounts ≡ true
      → Settled pool (upload_ready now d req p pool)
  unfolding upload_ready update_external_alert_state
  upload_ready-Settled p pool m = elim (Option-cases (check_task_ownership now req (pool.heap p))) [
    | inl owns ↦
        rw (owns, upload_ready)
          (
            moved-queued p (renewed now d req p pool) (rw (renewed-ready p pool) m)
                ∙ renewed-queued p pool,
            inl refl,
          )
    | inr (error, refused) ↦ rw (refused, upload_ready) (refl, inr refl)
  ]

  -- A refused result changes nothing in memory, and an accepted one leaves every account queued as
  -- often as before.
  pub upload_in_pool-queued :
      (pool : AccountPool)
      → (queued q (upload_in_pool now d req pool).0 ≡ queued q pool)
        × (((upload_in_pool now d req pool).1 ≡ none) ⊎ ((upload_in_pool now d req pool).0 ≡ pool))
  unfolding upload_in_pool
  upload_in_pool-queued pool =
      elim (Option-cases (find_email pool.heap req.email pool.pending_accounts)) [
        | inr (p, found) ↦ rw (found, upload_in_pool) (upload_pending-Settled p pool)
        | inl absent ↦ elim (Option-cases (find_email pool.heap req.email pool.ready_accounts)) [
          | inr (p, found) ↦
              rw (absent, found, upload_in_pool)
                (upload_ready-Settled p pool
                  (find_email-some pool.heap req.email pool.ready_accounts p found).1)
          | inl missing ↦ elim (Bool-cases (not req.is_new && not (null req.task_id))) [
            | inl tasked ↦ rw (absent, missing, tasked, upload_in_pool) (refl, inr refl)
            | inr free ↦ rw (absent, missing, free, upload_in_pool) (refl, inl refl)
          ]
        ]
      ]
