-- ===== src/Pool/Queues.antt =====
-- src/pool/pool.go, the moves of accounts between the ready and the pending queue.
pub mod Moves
pub mod Kept
pub mod Lifecycle
mod Tests
use business2api.Base.{
  ℕ, ◌+◌, ◌*◌, ◌-◌, Bool, true, false, not, ◌&&◌, ◌||◌, List, [], ◌∷◌, ◌++◌, Option, none, some,
  ltb, ◌==◌, if◌then◌else◌, length,
}
use business2api.Pool.Account.{
  Account, AccountStatus, pending, ready, pending_external, is_pending_external, Settings,
  is_within, mark_used,
}
use business2api.Pool.State.{AccountPool, update, modify}

-- The first occurrence of a pointer is taken out: `append(l[:i], l[i+1:]...)` and `break`.
unfoldable pub remove_first : ℕ → List ℕ → List ℕ
remove_first p [] = []
remove_first p (q ∷ qs) = if q == p then qs else q ∷ remove_first p qs

-- All occurrences are taken out, by the loop from the back.
unfoldable pub remove_all : ℕ → List ℕ → List ℕ
remove_all p [] = []
remove_all p (q ∷ qs) = if q == p then remove_all p qs else q ∷ remove_all p qs

-- The first pending account that is not waiting for an external refresh, and the others.
unfoldable pub take_pending : (ℕ → Account) → List ℕ → Option (ℕ × List ℕ)
take_pending heap [] = none
take_pending heap (p ∷ ps) =
    let rest = take_pending heap ps in
    if is_pending_external (heap p).status
    then elim rest [ none ↦ none | some (q, qs) ↦ some (q, p ∷ qs) ]
    else some (p, ps)

unfoldable pub get_pending_account : AccountPool → AccountPool × Option ℕ
unfolding take_pending
get_pending_account pool = elim (take_pending pool.heap pool.pending_accounts) [
  | none ↦ (pool, none)
  | some (p, rest) ↦ (record pool { pending_accounts = rest }, some p)
]

unfoldable pub mark_ready : ℕ → AccountPool → AccountPool
mark_ready p pool =
    let acc = pool.heap p in
    record pool {
      heap = update pool.heap p (record acc { refreshed = true; status = ready });
      ready_accounts = pool.ready_accounts ++ p ∷ [];
    }

unfoldable pub mark_pending : ℕ → AccountPool → AccountPool
unfolding remove_first
mark_pending p pool =
    let acc = pool.heap p in
    record pool {
      heap = update pool.heap p (record acc { refreshed = false; status = pending });
      ready_accounts = remove_first p pool.ready_accounts;
      pending_accounts = pool.pending_accounts ++ p ∷ [];
    }

unfoldable pub mark_external_refresh_pending : ℕ → AccountPool → AccountPool
unfolding remove_first remove_all
mark_external_refresh_pending p pool =
    let acc = pool.heap p in
    record pool {
      heap = update pool.heap p (record acc {
        refreshed = false;
        last_refresh = 0;
        status = pending_external;
        external_task_id = [];
        external_lease_owner = [];
        external_lease_until = 0;
        external_retry_at = 0;
      });
      ready_accounts = remove_first p pool.ready_accounts;
      pending_accounts = remove_all p pool.pending_accounts ++ p ∷ [];
    }

unfoldable pub mark_needs_refresh : Settings → ℕ → AccountPool → AccountPool
mark_needs_refresh s p pool =
    let acc = pool.heap p in
    if s.external_refresh_mode
    then mark_external_refresh_pending p pool
    else mark_pending p
        (record pool { heap = update pool.heap p (record acc { last_refresh = 0 }) })

unfoldable pub mark_used_in : ℕ → Bool → AccountPool → AccountPool
unfolding mark_used
mark_used_in p success pool =
    let acc = mark_used success (pool.heap p) in
    if success
    then record pool { heap = update pool.heap p acc; total_success = pool.total_success + 1 }
    else record pool { heap = update pool.heap p acc; total_failed = pool.total_failed + 1 }

-- The loop that the three scans share: each ready account that the test picks is changed by `f` and
-- queued as pending, and the others stay ready, in their order.
unfoldable pub sweep :
    (ℕ → Account → Bool) → (Account → Account) → List ℕ → AccountPool → AccountPool
sweep picks f [] pool = record pool { ready_accounts = [] }
sweep picks f (p ∷ ps) pool =
    let acc = pool.heap p in
    let moved = sweep picks f ps (record pool {
      heap = update pool.heap p (f acc);
      pending_accounts = pool.pending_accounts ++ p ∷ [];
    }) in
    let stays = sweep picks f ps pool in
    if picks p acc then moved else record stays { ready_accounts = p ∷ stays.ready_accounts }

-- `jwtExpires.IsZero() || now.Add(JWTRefreshThreshold).After(jwtExpires)`, out of the cooldown.
unfoldable pub needs_refresh : Settings → ℕ → Account → Bool
needs_refresh s now acc =
    (acc.jwt_expires == 0 || ltb acc.jwt_expires (now + s.jwt_refresh_threshold))
    && not (is_within now acc.last_refresh s.refresh_cooldown)

-- What the scans write to an account that they queue.
unfoldable pub demote : Account → Account
demote acc = record acc { refreshed = false; status = pending }

unfoldable pub demote_without_jwt : Account → Account
demote_without_jwt acc = record acc { refreshed = false; jwt_expires = 0; status = pending }

unfoldable pub demote_at_once : Account → Account
demote_at_once acc = record acc {
  refreshed = false;
  jwt_expires = 0;
  last_refresh = 0;
  status = pending;
}

unfoldable pub refresh_expired_accounts : Settings → ℕ → AccountPool → AccountPool
refresh_expired_accounts s now pool =
    sweep (λ p acc. needs_refresh s now acc) demote pool.ready_accounts pool

-- `time.Since` reads the clock for each account: `clock p` is the time read at the account `p`.
unfoldable pub refresh_all_accounts : Settings → (ℕ → ℕ) → AccountPool → AccountPool
refresh_all_accounts s clock pool =
    sweep (λ p acc. not (is_within (clock p) acc.last_refresh s.refresh_cooldown))
      demote_without_jwt pool.ready_accounts pool

unfoldable pub force_refresh_all : AccountPool → AccountPool × ℕ
force_refresh_all pool =
    (sweep (λ p acc. true) demote_at_once pool.ready_accounts pool, length pool.ready_accounts)

-- A worker puts the account that it holds back at the end of the pending queue.
unfoldable pub requeue : ℕ → AccountPool → AccountPool
requeue p pool = record pool { pending_accounts = pool.pending_accounts ++ p ∷ [] }
