-- ===== src/Pool/Queues/Moves.antt =====
-- src/pool/pool.go: where each account stands after an operation on the queues. The accounts that
-- a refresh worker holds stand in neither queue.
use business2api.Base.{
  ℕ, ◌+◌, ◌≤◌, ◌<◌, ◌≡◌, ◌∙◌, Bool, true, not, List, [], ◌∷◌, some, arith, ◌==◌, if◌then◌else◌, inl,
  inr, Bool-cases, Option-cases, elem, count, count-append,
}
use business2api.Pool.Account.{Account, Settings, is_within}
use business2api.Pool.State.{AccountPool}
use business2api.Pool.Queues.{
  remove_first, remove_all, take_pending, get_pending_account, mark_ready, mark_pending,
  mark_external_refresh_pending, mark_needs_refresh, sweep, refresh_expired_accounts,
  refresh_all_accounts, force_refresh_all, needs_refresh, demote, demote_without_jwt,
  demote_at_once, requeue,
}

abbrev pub is_at : ℕ → ℕ → ℕ
is_at p q = if p == q then 1 else 0

-- How often the account is queued.
abbrev pub queued : ℕ → AccountPool → ℕ
queued q pool = count q pool.ready_accounts + count q pool.pending_accounts

pub count-remove_first :
    (p q : ℕ) (xs : List ℕ)
    → count q (remove_first p xs) + (if elem p xs then is_at p q else 0) ≡ count q xs
unfolding remove_first
count-remove_first p q [] = omega arith
count-remove_first p q (x ∷ xs) = ground (arith, count-remove_first p q xs)

pub count-remove_all :
    (p q : ℕ) (xs : List ℕ) → count q (remove_all p xs) ≡ (if p == q then 0 else count q xs)
unfolding remove_all
count-remove_all p q [] = ground arith
count-remove_all p q (x ∷ xs) = ground (arith, count-remove_all p q xs)

pub elem-pos : (p : ℕ) (xs : List ℕ) → elem p xs ≡ true → 0 < count p xs
elem-pos p [] e = cc
elem-pos p (x ∷ xs) e = ground (arith, elem-pos p xs)

count_of_take_pending :
    (heap : ℕ → Account) (q p : ℕ) (xs rest : List ℕ)
    → take_pending heap xs ≡ some (p, rest)
    → count q xs ≡ is_at p q + count q rest
unfolding take_pending
count_of_take_pending heap q p [] rest e = cc
count_of_take_pending heap q p (x ∷ xs) rest e = elim (Option-cases (take_pending heap xs)) [
  | inl absent ↦ ground arith
  | inr (w, m) ↦ ground (arith, count_of_take_pending heap q w.0 xs w.1 m)
]

-- A worker takes one account out of the pending queue, and never one that waits for an external
-- refresh.
pub get_pending_account-queued :
    (pool : AccountPool) (q p : ℕ)
    → (get_pending_account pool).1 ≡ some p
    → queued q pool ≡ is_at p q + queued q (get_pending_account pool).0
unfolding get_pending_account
get_pending_account-queued pool q p e =
    elim (Option-cases (take_pending pool.heap pool.pending_accounts)) [
      | inl absent ↦ ground arith
      | inr (w, m) ↦
          ground (arith, count_of_take_pending pool.heap q w.0 pool.pending_accounts w.1 m)
    ]

sweep-queued :
    (picks : ℕ → Account → Bool) (f : Account → Account) (ps : List ℕ) (pool : AccountPool) (q : ℕ)
    → queued q (sweep picks f ps pool) ≡ count q ps + count q pool.pending_accounts
unfolding sweep
sweep-queued picks f [] pool q = omega arith
sweep-queued picks f (p ∷ ps) pool q = elim (Bool-cases (picks p (pool.heap p))) [
  | inl moves ↦
      rw (moves, sweep)
        (omega (arith, sweep-queued picks f ps _ q, count-append q pool.pending_accounts (p ∷ [])))
  | inr stays ↦ rw (stays, sweep) (omega (arith, sweep-queued picks f ps pool q))
]

-- The three scans lose no account and queue none twice: each is queued as often as before.
pub scans-queued :
    (s : Settings) (now : ℕ) (clock : ℕ → ℕ) (pool : AccountPool) (q : ℕ)
    → (queued q (refresh_expired_accounts s now pool) ≡ queued q pool)
      × (queued q (refresh_all_accounts s clock pool) ≡ queued q pool)
      × (queued q (force_refresh_all pool).0 ≡ queued q pool)
unfolding refresh_expired_accounts refresh_all_accounts force_refresh_all
scans-queued s now clock pool q = (
  sweep-queued (λ p acc. needs_refresh s now acc) demote pool.ready_accounts pool q,
  sweep-queued (λ p acc. not (is_within (clock p) acc.last_refresh s.refresh_cooldown))
      demote_without_jwt pool.ready_accounts pool q,
  sweep-queued (λ p acc. true) demote_at_once pool.ready_accounts pool q,
)

pub mark_ready-queued :
    (p : ℕ) (pool : AccountPool) (q : ℕ) → queued q (mark_ready p pool) ≡ is_at p q + queued q pool
unfolding mark_ready
mark_ready-queued p pool q = ground (arith, count-append q pool.ready_accounts (p ∷ []))

-- `MarkPending` moves an account that is ready, and queues one that is not once more.
pub mark_pending-queued :
    (p : ℕ) (pool : AccountPool) (q : ℕ)
    → queued q (mark_pending p pool)
      ≡ (if elem p pool.ready_accounts then 0 else is_at p q) + queued q pool
unfolding mark_pending
mark_pending-queued p pool q = ground (
  arith,
  count-append q pool.pending_accounts (p ∷ []),
  count-remove_first p q pool.ready_accounts,
)

-- After `MarkExternalRefreshPending` the account stands once in the pending queue, and in the ready
-- queue once less than before, if it was there; every other account is queued as often as before.
pub mark_external_refresh_pending-queued :
    (p : ℕ) (pool : AccountPool) (q : ℕ)
    → queued q (mark_external_refresh_pending p pool)
      ≡ (if p == q then 1 + count q (remove_first p pool.ready_accounts) else queued q pool)
unfolding mark_external_refresh_pending
mark_external_refresh_pending-queued p pool q = ground (
  arith,
  count-append q (remove_all p pool.pending_accounts) (p ∷ []),
  count-remove_first p q pool.ready_accounts,
  count-remove_all p q pool.pending_accounts,
)

pub requeue-queued :
    (p : ℕ) (pool : AccountPool) (q : ℕ) → queued q (requeue p pool) ≡ is_at p q + queued q pool
unfolding requeue
requeue-queued p pool q = ground (arith, count-append q pool.pending_accounts (p ∷ []))

mark_pending_ready-queued :
    (p : ℕ) (pool : AccountPool) (q : ℕ)
    → elem p pool.ready_accounts ≡ true
    → queued q (mark_pending p pool) ≡ queued q pool
mark_pending_ready-queued p pool q m = mark_pending-queued p pool q ∙ rw m (omega arith)

removed_once :
    (p : ℕ) (xs : List ℕ) → elem p xs ≡ true → 1 + count p (remove_first p xs) ≡ count p xs
removed_once p xs m = ground (arith, count-remove_first p p xs)

-- An account that is ready once and not pending is queued once after either form of the request to
-- refresh it.
pub mark_needs_refresh-queued :
    (s : Settings) (p : ℕ) (pool : AccountPool) (q : ℕ)
    → elem p pool.ready_accounts ≡ true
    → queued p pool ≤ 1
    → queued q (mark_needs_refresh s p pool) ≡ queued q pool
unfolding mark_needs_refresh
mark_needs_refresh-queued s p pool q m once = elim (Bool-cases s.external_refresh_mode) [
  | inl external ↦ rw external (
      ground (
        arith,
        mark_external_refresh_pending-queued p pool q,
        removed_once p pool.ready_accounts m,
      ))
  | inr internal ↦
      rw internal (omega (arith, mark_pending_ready-queued p (record pool { heap = _ }) q m))
]
