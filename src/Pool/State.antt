-- ===== src/Pool/State.antt =====
-- src/pool/pool.go, the state of the pool. An account is a shared object: the two queues and the
-- workers hold pointers to it, so the model has a heap of accounts, and a pointer is a number.
-- An operation under the pool's write lock is one step. `Next` holds only the read lock.
use business2api.Base.{ℕ, ◌+◌, ◌^◌, Bool, List, ◌==◌, if◌then◌else◌, length}
use business2api.Pool.Account.{Account}

pub record AccountPool : Type 0 where
  pub heap : ℕ → Account
  pub next_pointer : ℕ
  pub ready_accounts : List ℕ
  pub pending_accounts : List ℕ
  pub index : ℕ
  pub total_success : ℕ
  pub total_failed : ℕ
  pub total_requests : ℕ
  pub external_task_seq : ℕ
  pub external_refresh_claim_total : ℕ
  pub external_refresh_success_total : ℕ
  pub external_refresh_failed_total : ℕ
  pub external_refresh_lease_expired : ℕ
  pub external_refresh_fallback_total : ℕ
  pub external_refresh_throttle_active : Bool
  pub external_refresh_fail_alert : Bool
  pub external_refresh_fallback_alert : Bool

-- A write through the pointer `p`.
abbrev pub update : (ℕ → Account) → ℕ → Account → ℕ → Account
update heap p acc q = if p == q then acc else heap q

abbrev pub uint64 : ℕ
uint64 = 2 ^ 64

abbrev pub modify : ℕ → (Account → Account) → AccountPool → AccountPool
modify p f pool = record pool { heap = update pool.heap p (f (pool.heap p)) }

unfoldable pub count : AccountPool → ℕ
count pool = length pool.ready_accounts

unfoldable pub pending_count : AccountPool → ℕ
pending_count pool = length pool.pending_accounts

unfoldable pub total_count : AccountPool → ℕ
total_count pool = length pool.ready_accounts + length pool.pending_accounts
