-- ===== src/Pool/Upload/Ownership.antt =====
-- src/pool/pool_server.go, `ProcessAccountUpload`: the result of an external task is taken only from
-- the holder of the task.
use business2api.Base.{
  ℕ, ◌≤◌, ◌≡◌, true, false, ◌⊎◌, List, [], ◌∷◌, some, arith, null, Bool-cases, inl, inr, elem,
}
use business2api.Text.{Text, eqb, eqb_iff}
use business2api.Pool.Account.{Account, AccountData, pending}
use business2api.Pool.State.{AccountPool}
use business2api.Pool.External.Defs.{AccountUploadRequest}
use business2api.Pool.Upload.{find_email}

-- The request's task is the account's, its worker is the holder where both are named, and the lease
-- is not over.
pub record OwnsTask (now : ℕ) (req : AccountUploadRequest) (acc : Account) : Type 0 where
  pub same_task : acc.external_task_id ≡ req.task_id
  pub same_worker :
      (null req.worker_id ≡ true)
      ⊎ ((null acc.external_lease_owner ≡ true) ⊎ (acc.external_lease_owner ≡ req.worker_id))
  pub in_time : (acc.external_lease_until ≡ 0) ⊎ (now ≤ acc.external_lease_until)

pub find_email-some :
    (heap : ℕ → Account) (email : Text) (ps : List ℕ) (p : ℕ)
    → find_email heap email ps ≡ some p
    → ((heap p).account_data.email ≡ email) × (elem p ps ≡ true)
unfolding find_email
find_email-some heap email [] p e = cc
find_email-some heap email (q ∷ ps) p e =
    elim (Bool-cases (eqb (heap q).account_data.email email)) [
      | inl same ↦ ground (arith, (eqb_iff (heap q).account_data.email email).0 same)
      | inr other ↦ ground (arith, find_email-some heap email ps p)
    ]

module _ (now : ℕ) (d : AccountData) (req : AccountUploadRequest) where
  -- The account has the new credentials, and neither a task nor a failure nor a token of the old ones
  -- is left.
  pub record IsRenewed (acc : Account) : Type 0 where
    pub data_new : acc.account_data ≡ d
    pub config_new : acc.config_id ≡ req.config_id
    pub csesidx_new : acc.csesidx ≡ req.csesidx
    pub waits : acc.status ≡ pending
    pub stale : acc.refreshed ≡ false
    pub no_jwt : acc.jwt_expires ≡ 0
    pub no_failures : acc.fail_count ≡ 0
    pub no_browser : acc.browser_refresh_count ≡ 0
    pub no_external_failures : acc.external_fail_count ≡ 0
    pub no_retry : acc.external_retry_at ≡ 0
    pub no_task : acc.external_task_id ≡ []
    pub no_owner : acc.external_lease_owner ≡ []
    pub no_lease : acc.external_lease_until ≡ 0

  -- The account after an accepted result, which its worker held before.
  abbrev pub Renewed : AccountPool → AccountPool → ℕ → Type 0
  Renewed pool after p =
      OwnsTask now req (pool.heap p)
      × IsRenewed (after.heap p)
      × (elem p after.pending_accounts ≡ true)
