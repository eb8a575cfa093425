-- ===== src/Pool/Queues/Lifecycle.antt =====
-- src/pool/pool.go: the accounts between the two queues and the refresh workers, as the operations
-- move them one after the other. A worker that took an account holds it until its turn ends.
use native.Mathlib.Decide.{ℕ_discrete}
use business2api.Base.{
  ℕ, ◌+◌, ◌≤◌, ◌≡◌, ◌≢◌, refl, ap, sym, ◌∙◌, true, ◌⊎◌, inl, inr, List, [], ◌∷◌, Option, some,
  arith, elem, count, count-append, ℤ,
}
use business2api.Text.{Text}
use business2api.Pool.Account.{AccountData, Account, Settings, invalid}
use business2api.Pool.State.{AccountPool}
use business2api.Pool.Jwt.{RefreshError}
use business2api.Pool.Next.{next}
use business2api.Pool.Queues.{
  get_pending_account, mark_needs_refresh, refresh_expired_accounts, refresh_all_accounts,
  force_refresh_all, remove_first, remove_all,
}
use business2api.Pool.Queues.Moves.{
  is_at, queued, elem-pos, count-remove_first, count-remove_all, get_pending_account-queued,
  scans-queued, mark_needs_refresh-queued,
}
use business2api.Pool.Queues.Kept.{
  SameQueues, next-SameQueues, claim-SameQueues, mark_failed-SameQueues,
}
use business2api.Pool.Upload.{upload_in_pool}
use business2api.Pool.Upload.Queued.{upload_in_pool-queued}
use business2api.Pool.External.Defs.{AccountUploadRequest}
use business2api.Pool.Worker.{Outside, Disk, work}
use business2api.Pool.Worker.Endings.{Ends, promoted, requeued, handed_over, dropped}
use business2api.Pool.Worker.Ends.{work-Ends}
use business2api.Pool.External.Claim.{claim}
use business2api.Pool.External.Fail.{mark_external_refresh_failed}

-- The pool and the accounts that the workers hold.
pub record Fleet : Type 0 where
  pub pool : AccountPool
  pub held : List ℕ

-- In how many places an account stands.
abbrev pub places : ℕ → Fleet → ℕ
places q f = queued q f.pool + count q f.held

-- No account stands in two places.
abbrev pub IsOnce : Fleet → Type 0
IsOnce f = (q : ℕ) → places q f ≤ 1

-- An account stands where it stood in number, or the worker that held it has just dropped it.
abbrev pub Kept : Fleet → ℕ → Fleet → Type 0
Kept f q g = (places q g ≡ places q f) ⊎ ((places q g ≡ 0) × ((g.pool.heap q).status ≡ invalid))

-- One operation. A request to refresh an account concerns one that is ready.
pub data Step (s : Settings) (f : Fleet) : Fleet → Type 0 where
  takes :
      (p : ℕ)
      → (get_pending_account f.pool).1 ≡ some p
      → Step s f (record { pool = (get_pending_account f.pool).0; held = p ∷ f.held })
  works :
      (out : Outside) (now : ℕ) (refresh : Account → Account × Option RefreshError) (disk : Disk)
      (p : ℕ)
      → elem p f.held ≡ true
      → Step s f (record {
        pool = (work s out now refresh (f.pool, disk) p).0;
        held = remove_first p f.held;
      })
  scans_expired : (now : ℕ) → Step s f (record f { pool = refresh_expired_accounts s now f.pool })
  scans_all : (clock : ℕ → ℕ) → Step s f (record f { pool = refresh_all_accounts s clock f.pool })
  forces : Step s f (record f { pool = (force_refresh_all f.pool).0 })
  hands_out : (now later : ℕ) → Step s f (record f { pool = (next s now later f.pool).0 })
  rejects :
      (p : ℕ)
      → elem p f.pool.ready_accounts ≡ true
      → Step s f (record f { pool = mark_needs_refresh s p f.pool })
  claims :
      (rfc3339 : ℕ → Text) (worker_id : Text) (limit lease_sec : ℤ) (now : ℕ)
      → Step s f (record f { pool = (claim rfc3339 worker_id limit lease_sec now f.pool).0 })
  fails :
      (task_id worker_id : Text) (now : ℕ)
      → Step s f (record f { pool = (mark_external_refresh_failed task_id worker_id now f.pool).0 })
  uploads :
      (now : ℕ) (d : AccountData) (req : AccountUploadRequest)
      → Step s f (record f { pool = (upload_in_pool now d req f.pool).0 })

SameQueues-Kept :
    (f : Fleet) (q : ℕ) (after : AccountPool)
    → SameQueues f.pool after
    → Kept f q (record f { pool = after })
SameQueues-Kept f q after (r, e) = inl (rw (r, e) refl)

-- What the end of a turn means for the number of places, when the account is nowhere queued.
turn_queued :
    (s : Settings) (before after : AccountPool) (p q : ℕ)
    → queued p before ≡ 0
    → Ends s before p after
    → (queued q after ≡ is_at p q + queued q before)
      ⊎ ((queued q after ≡ queued q before) × ((after.heap p).status ≡ invalid))
turn_queued s before after p q fresh (promoted r e _) =
    inl (rw (r, e) (ground (arith, count-append q before.ready_accounts (p ∷ []))))
turn_queued s before after p q fresh (requeued r e) =
    inl (rw (r, e) (ground (arith, count-append q before.pending_accounts (p ∷ []))))
turn_queued s before after p q fresh (handed_over _ r e _) = inl (
    rw (r, e)
      (ground (
        arith,
        count-append q (remove_all p before.pending_accounts) (p ∷ []),
        count-remove_first p q before.ready_accounts,
        count-remove_all p q before.pending_accounts,
      )))
turn_queued s before after p q fresh (dropped r e gone _) = inr (rw (r, e) refl, gone)

removed :
    (p q : ℕ) (xs : List ℕ)
    → elem p xs ≡ true
    → count q (remove_first p xs) + is_at p q ≡ count q xs
removed p q xs m = ground (arith, count-remove_first p q xs)

is_at-same : (p q : ℕ) → p ≡ q → is_at p q ≡ 1
is_at-same p q e = ground arith

is_at-other : (p q : ℕ) → p ≢ q → is_at p q ≡ 0
is_at-other p q d = ground arith

-- The end of a turn of the worker that holds `p`.
works-Kept :
    (s : Settings) (f : Fleet) (after : AccountPool) (p q : ℕ)
    → IsOnce f
    → elem p f.held ≡ true
    → Ends s f.pool p after
    → Kept f q (record { pool = after; held = remove_first p f.held })
works-Kept s f after p q once m ends =
    elim (turn_queued s f.pool after p q (omega (arith, once p, elem-pos p f.held m)) ends) [
      | inl back ↦ inl (omega (arith, back, removed p q f.held m))
      | inr (gone, is_invalid) ↦ elim (ℕ_discrete p q) [
        | yes pq ↦ inr (
          omega (arith, gone, removed p q f.held m, once q, is_at-same p q pq),
          ap (λ r. (after.heap r).status) (sym pq) ∙ is_invalid,
        )
        | no d ↦ inl (omega (arith, gone, removed p q f.held m, is_at-other p q d))
      ]
    ]

-- Where no account stands in two places, an operation takes none into a second place and loses none,
-- except one that its worker drops as invalid. The operations are a worker's taking an account and the
-- end of its turn, the scans, `Next`, a request to refresh an account that is ready, a claim, a reported
-- failure, and an upload's part under the lock.
pub Step-Kept : (s : Settings) (f g : Fleet) (q : ℕ) → IsOnce f → Step s f g → Kept f q g
Step-Kept s f g q once (takes p e) = inl (ground (arith, get_pending_account-queued f.pool q p e))
Step-Kept s f g q once (works out now refresh disk p m) =
    works-Kept s f _ p q once m (work-Ends s out now refresh (f.pool, disk) p)
Step-Kept s f g q once (scans_expired now) =
    inl (omega (arith, (scans-queued s now (λ p. 0) f.pool q).0))
Step-Kept s f g q once (scans_all clock) = inl (omega (arith, (scans-queued s 0 clock f.pool q).1))
Step-Kept s f g q once forces = inl (omega (arith, (scans-queued s 0 (λ p. 0) f.pool q).2))
Step-Kept s f g q once (hands_out now later) =
    SameQueues-Kept f q (next s now later f.pool).0 (next-SameQueues s now later f.pool)
Step-Kept s f g q once (rejects p m) =
    inl (omega (arith, mark_needs_refresh-queued s p f.pool q m (omega (arith, once p))))
Step-Kept s f g q once (claims rfc3339 worker_id limit lease_sec now) =
    SameQueues-Kept f q (claim rfc3339 worker_id limit lease_sec now f.pool).0
      (claim-SameQueues rfc3339 worker_id limit lease_sec now f.pool)
Step-Kept s f g q once (fails task_id worker_id now) =
    SameQueues-Kept f q (mark_external_refresh_failed task_id worker_id now f.pool).0
      (mark_failed-SameQueues task_id worker_id now f.pool)
Step-Kept s f g q once (uploads now d req) =
    let same = (upload_in_pool-queued now d req q f.pool).0 in
    inl (ap (λ n. n + count q f.held) same)

-- Any number of operations.
pub data Run (s : Settings) (f : Fleet) : Fleet → Type 0 where
  starts : Run s f f
  goes : (g h : Fleet) → Run s f g → Step s g h → Run s f h

Kept-le : (f : Fleet) (q : ℕ) (g : Fleet) → places q f ≤ 1 → Kept f q g → places q g ≤ 1
Kept-le f q g h (inl e) = omega arith
Kept-le f q g h (inr (e, _)) = omega arith

-- From a pool in which no account stands in two places, among the two queues and the workers, these
-- operations lead in any number and order only to such pools: no account is ever refreshed by two
-- workers at once, as long as only ready accounts are marked for a refresh and nothing is loaded.
pub Run-IsOnce : (s : Settings) (f g : Fleet) → IsOnce f → Run s f g → IsOnce g
Run-IsOnce s f g once starts q = once q
Run-IsOnce s f h once (goes g _ run step) q =
    let before = Run-IsOnce s f g once run in
    Kept-le g q h (before q) (Step-Kept s g h q before step)
