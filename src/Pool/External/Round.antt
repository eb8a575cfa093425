-- ===== src/Pool/External/Round.antt =====
-- src/pool/pool.go, `ClaimExternalRefreshTasks`: what one round of its loop may do to an account.
use business2api.Base.{
  ℕ, ◌+◌, ◌%◌, ◌≡◌, ◌≢◌, refl, ap, Bool, true, false, not, ◌&&◌, ◌||◌, Option, none, some, arith,
  Bool-cases, inl, inr, null,
}
use business2api.Text.{Text}
use business2api.Pool.Account.{Account, is_pending_external}
use business2api.Pool.State.{AccountPool, uint64}
use business2api.Pool.External.Defs.{
  AccountUploadRequest, task_name, release_lease, is_leased, is_lease_over, is_backing_off,
}
use business2api.Pool.External.Claim.{claim_one, offer, grant, reclaim}

abbrev pub next_seq : AccountPool → ℕ
next_seq pool = (pool.external_task_seq + 1) % uint64

-- The account with the task `id`, leased to a worker.
abbrev pub leased_to : Text → ℕ → Text → Account → Account
leased_to worker lease_until id acc = record acc {
  external_task_id = id;
  external_lease_owner = worker;
  external_lease_until = lease_until;
}

-- The account can neither be given out nor reclaimed at the time `now`: it waits for no external
-- refresh, a worker holds its task, or it backs off with no task.
abbrev pub is_busy : ℕ → Account → Bool
is_busy now acc =
    not (is_pending_external acc.status)
    || is_leased now acc
    || (null acc.external_task_id && is_backing_off now acc)

module _ (worker : Text) (now lease_until : ℕ) where
  abbrev pub Untouched : AccountPool → ℕ → AccountPool → Type 0
  Untouched pool p after = (q : ℕ) → p ≢ q → after.heap q ≡ pool.heap q

  pub data Round (pool : AccountPool) (p : ℕ) (r : AccountPool × Option AccountUploadRequest)
      : Type 0 where
    passed :
        r.1 ≡ none
        → r.0.external_task_seq ≡ pool.external_task_seq
        → r.0.heap p ≡ pool.heap p
        → Untouched pool p r.0
        → Round pool p r
    reclaimed :
        is_busy now (pool.heap p) ≡ false
        → r.1 ≡ none
        → r.0.external_task_seq ≡ pool.external_task_seq
        → r.0.heap p ≡ release_lease (pool.heap p)
        → Untouched pool p r.0
        → Round pool p r
    granted :
        (task : AccountUploadRequest)
        → is_busy now (pool.heap p) ≡ false
        → r.1 ≡ some task
        → task.task_id ≡ task_name (next_seq pool)
        → r.0.external_task_seq ≡ next_seq pool
        → r.0.heap p ≡ leased_to worker lease_until (task_name (next_seq pool)) (pool.heap p)
        → Untouched pool p r.0
        → Round pool p r

  module _ (rfc3339 : ℕ → Text) (p : ℕ) where
    granted-Round :
        (pool before : AccountPool)
        → is_busy now (before.heap p) ≡ false
        → pool.external_task_seq ≡ before.external_task_seq
        → ((id : Text)
            → leased_to worker lease_until id (pool.heap p)
              ≡ leased_to worker lease_until id (before.heap p))
        → Untouched before p pool
        → Round before p (grant rfc3339 worker now lease_until pool p)
    unfolding grant
    granted-Round pool before free seq same rest =
        granted _ free refl (ap (λ n. task_name ((n + 1) % uint64)) seq)
          (ap (λ n. (n + 1) % uint64) seq) (ground (arith, seq, same (task_name (next_seq pool))))
          (λ q d. ground (arith, rest q d))

    reclaim-current :
        (pool : AccountPool)
        → is_lease_over now (pool.heap p) ≡ false
        → reclaim rfc3339 worker now lease_until pool p ≡ pool
    unfolding reclaim
    reclaim-current pool e = rw e

    reclaim-over :
        (pool : AccountPool)
        → is_lease_over now (pool.heap p) ≡ true
        → ((reclaim rfc3339 worker now lease_until pool p).heap p ≡ release_lease (pool.heap p))
          × ((reclaim rfc3339 worker now lease_until pool p).external_task_seq
              ≡ pool.external_task_seq)
          × Untouched pool p (reclaim rfc3339 worker now lease_until pool p)
    unfolding reclaim
    reclaim-over pool e = rw e (ground arith, refl, λ q d. ground arith)

    offer-Round :
        (pool : AccountPool)
        → is_pending_external (pool.heap p).status ≡ true
        → is_lease_over now (pool.heap p) ≡ false
        → Round pool p (offer rfc3339 worker now lease_until pool p)
    unfolding offer
    offer-Round pool here current = elim (Bool-cases (is_leased now (pool.heap p))) [
      | inl held ↦ rw (held, offer) (passed refl refl refl (λ q d. refl))
      | inr open_task ↦ elim (Bool-cases (is_backing_off now (pool.heap p))) [
        | inl waits ↦ rw (open_task, waits, offer) (passed refl refl refl (λ q d. refl))
        | inr due ↦
            rw (open_task, due, offer)
              (granted-Round pool pool (ground arith) refl (λ id. refl) (λ q d. refl))
      ]
    ]

    offer_over-Round :
        (pool before : AccountPool)
        → is_busy now (before.heap p) ≡ false
        → pool.external_task_seq ≡ before.external_task_seq
        → pool.heap p ≡ release_lease (before.heap p)
        → Untouched before p pool
        → Round before p (offer rfc3339 worker now lease_until pool p)
    unfolding offer
    offer_over-Round pool before free seq same rest =
        let open_task : is_leased now (pool.heap p) ≡ false = unfold release_lease in rw same in
        elim (Bool-cases (is_backing_off now (pool.heap p))) [
          | inl waits ↦ rw (open_task, waits, offer) (reclaimed free refl seq same rest)
          | inr due ↦
              rw (open_task, due, offer)
                (granted-Round pool before free seq (λ id. unfold release_lease in rw same) rest)
        ]

    pub claim_one-Round :
        (pool : AccountPool) → Round pool p (claim_one rfc3339 worker now lease_until pool p)
    unfolding claim_one
    claim_one-Round pool = elim (Bool-cases (is_pending_external (pool.heap p).status)) [
      | inr away ↦ rw (away, claim_one) (passed refl refl refl (λ q d. refl))
      | inl here ↦ elim (Bool-cases (is_lease_over now (pool.heap p))) [
        | inl over ↦
            let (same, seq, rest) = reclaim-over pool over in
            rw (here, claim_one) (offer_over-Round _ pool (ground arith) seq same rest)
        | inr current ↦
            rw (here, claim_one) (rw (reclaim-current pool current) (offer-Round pool here current))
      ]
    ]
