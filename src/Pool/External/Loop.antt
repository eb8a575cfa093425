-- ===== src/Pool/External/Loop.antt =====
-- src/pool/pool.go, the loop of `ClaimExternalRefreshTasks`: how many tasks it gives out, what it
-- leaves alone, and that each task given out is held by its worker.
use business2api.Base.{
  ℕ, suc, ◌+◌, ◌≤◌, ◌<◌, ◌≡◌, refl, ap, subst, ◌∙◌, true, false, List, [], ◌∷◌, Option, some, arith,
  leb, Bool-cases, Option-cases, inl, inr, length, null, All, elem, ℤ, pos, negsuc,
}
use native.Mathlib.Decide.{ℕ_discrete}
use business2api.Text.{Text}
use business2api.Pool.Account.{Account}
use business2api.Pool.State.{AccountPool}
use business2api.Pool.External.Defs.{
  AccountUploadRequest, normalize_external_claim_limit, normalize_external_lease_sec, is_leased,
  task_name,
}
use business2api.Pool.External.Claim.{claim_one, offer, grant, reclaim, claim_loop}
use business2api.Pool.External.Round.{
  Round, passed, reclaimed, granted, claim_one-Round, is_busy, next_seq,
}

pub normalize_external_claim_limit_bounds :
    (limit : ℤ)
    → (1 ≤ normalize_external_claim_limit limit) × (normalize_external_claim_limit limit ≤ 200)
unfolding normalize_external_claim_limit
normalize_external_claim_limit_bounds (pos n) = ground arith
normalize_external_claim_limit_bounds (negsuc n) = omega arith

pub normalize_external_lease_sec_bounds :
    (sec : ℤ) → (1 ≤ normalize_external_lease_sec sec) × (normalize_external_lease_sec sec ≤ 1800)
unfolding normalize_external_lease_sec
normalize_external_lease_sec_bounds (pos n) = ground arith
normalize_external_lease_sec_bounds (negsuc n) = omega arith

pub null-task_name : (n : ℕ) → null (task_name n) ≡ false
unfolding task_name
null-task_name n = refl

module _ (rfc3339 : ℕ → Text) (worker : Text) (now lease_until : ℕ) where
  abbrev pub round : AccountPool → ℕ → AccountPool × Option AccountUploadRequest
  round = claim_one rfc3339 worker now lease_until

  abbrev pub loop : ℕ → ℕ → AccountPool → List ℕ → AccountPool × List AccountUploadRequest
  loop = claim_loop rfc3339 worker now lease_until

  pub claim_loop-length :
      (limit taken : ℕ) (pool : AccountPool) (ps : List ℕ)
      → taken < limit
      → taken + length (loop limit taken pool ps).1 ≤ limit
  unfolding claim_loop
  claim_loop-length limit taken pool [] h = omega arith
  claim_loop-length limit taken pool (p ∷ ps) h = elim (Option-cases (round pool p).1) [
    | inl e ↦ rw (e, claim_loop) (claim_loop-length limit taken (round pool p).0 ps h)
    | inr (task, e) ↦
        rw (e, claim_loop) (ground (arith, claim_loop-length limit (taken + 1) (round pool p).0 ps))
  ]

  -- The loop keeps what each round keeps; `k` counts the rounds that are left.
  pub claim_loop_ind {ℓ} :
      (P : ℕ → AccountPool → Type ℓ)
      → ((k : ℕ) (pool : AccountPool) (p : ℕ) → P (suc k) pool → P k (round pool p).0)
      → (limit taken : ℕ) (pool : AccountPool) (ps : List ℕ) → P (length ps) pool
      → (k : ℕ) × P k (loop limit taken pool ps).0
  unfolding claim_loop
  claim_loop_ind P step limit taken pool [] h = (0, h)
  claim_loop_ind P step limit taken pool (p ∷ ps) h =
      let h' = step (length ps) pool p h in
      elim (Option-cases (round pool p).1) [
        | inl e ↦ rw (e, claim_loop) (claim_loop_ind P step limit taken (round pool p).0 ps h')
        | inr (task, e) ↦ elim (Bool-cases (leb limit (taken + 1))) [
          | inl full ↦ rw (e, full, claim_loop) (length ps, h')
          | inr more ↦
              rw (e, more, claim_loop)
                (claim_loop_ind P step limit (taken + 1) (round pool p).0 ps h')
        ]
      ]

  busy_of_Round :
      (pool : AccountPool) (p q : ℕ) {r : AccountPool × Option AccountUploadRequest}
      → is_busy now (pool.heap p) ≡ true
      → Round worker now lease_until pool q r
      → r.0.heap p ≡ pool.heap p
  busy_of_Round pool p q {r} b (passed _ _ same rest) = elim (ℕ_discrete q p) [
    | yes e ↦ subst (λ x. r.0.heap x ≡ pool.heap x) e same
    | no d ↦ rest p d
  ]
  busy_of_Round pool p q b (reclaimed free _ _ _ rest) = elim (ℕ_discrete q p) [
    | yes e ↦ cc (ap (λ x. is_busy now (pool.heap x)) e)
    | no d ↦ rest p d
  ]
  busy_of_Round pool p q b (granted _ free _ _ _ _ rest) = elim (ℕ_discrete q p) [
    | yes e ↦ cc (ap (λ x. is_busy now (pool.heap x)) e)
    | no d ↦ rest p d
  ]

  -- A busy account is left as it is.
  pub claim_loop-busy :
      (limit taken : ℕ) (pool : AccountPool) (ps : List ℕ) (p : ℕ)
      → is_busy now (pool.heap p) ≡ true
      → (loop limit taken pool ps).0.heap p ≡ pool.heap p
  claim_loop-busy limit taken pool ps p b =
      (claim_loop_ind (λ _ other. other.heap p ≡ pool.heap p)
        (λ k other q same.
          busy_of_Round other p q (rw same b)
            (claim_one-Round worker now lease_until rfc3339 q other)
          ∙ same)
        limit taken pool ps refl).1

  claim_one-queues :
      (pool : AccountPool) (p : ℕ)
      → ((round pool p).0.pending_accounts ≡ pool.pending_accounts)
        × ((round pool p).0.ready_accounts ≡ pool.ready_accounts)
  unfolding claim_one offer grant reclaim
  claim_one-queues pool p = ground arith

  pub claim_loop-queues :
      (limit taken : ℕ) (pool : AccountPool) (ps : List ℕ)
      → ((loop limit taken pool ps).0.pending_accounts ≡ pool.pending_accounts)
        × ((loop limit taken pool ps).0.ready_accounts ≡ pool.ready_accounts)
  claim_loop-queues limit taken pool ps =
      (claim_loop_ind
        (λ _ other.
          (other.pending_accounts ≡ pool.pending_accounts)
          × (other.ready_accounts ≡ pool.ready_accounts))
        (λ k other q same.
          let keeps = claim_one-queues other q in (keeps.0 ∙ same.0, keeps.1 ∙ same.1))
        limit taken pool ps (refl, refl)).1

  -- The account `p` holds the task for the worker.
  pub record Holds (heap : ℕ → Account) (task : AccountUploadRequest) (p : ℕ) : Type 0 where
    pub id : (heap p).external_task_id ≡ task.task_id
    pub owner : (heap p).external_lease_owner ≡ worker
    pub until : (heap p).external_lease_until ≡ lease_until
    pub is_held : is_leased now (heap p) ≡ true

  abbrev pub Held : (ℕ → Account) → List ℕ → AccountUploadRequest → Type 0
  Held heap ps task = (p : ℕ) × (elem p ps ≡ true) × Holds heap task p

  Held-cons :
      (heap : ℕ → Account) (p : ℕ) (ps : List ℕ) (tasks : List AccountUploadRequest)
      → All (Held heap ps) tasks
      → All (Held heap (p ∷ ps)) tasks
  Held-cons heap p ps [] h = tt
  Held-cons heap p ps (task ∷ tasks) ((q, m, held), h) =
      ((q, ground arith, held), Held-cons heap p ps tasks h)

  granted-Holds :
      (pool : AccountPool) (p : ℕ) (task : AccountUploadRequest)
      {r : AccountPool × Option AccountUploadRequest}
      → now < lease_until
      → r.1 ≡ some task
      → Round worker now lease_until pool p r
      → Holds r.0.heap task p
  granted-Holds pool p task h e (passed absent _ _ _) = cc
  granted-Holds pool p task h e (reclaimed _ absent _ _ _) = cc
  granted-Holds pool p task h e (granted t free given named seq same rest) = record {
    id = cc (ap (λ a. a.external_task_id) same);
    owner = ap (λ a. a.external_lease_owner) same;
    until = ap (λ a. a.external_lease_until) same;
    is_held = rw same (ground (arith, null-task_name (next_seq pool)));
  }

  same_holder :
      {heap heap' : ℕ → Account} (task : AccountUploadRequest) (p : ℕ)
      → heap' p ≡ heap p
      → Holds heap task p
      → Holds heap' task p
  same_holder task p e held = record {
    id = rw e held.id;
    owner = rw e held.owner;
    until = rw e held.until;
    is_held = rw e held.is_held;
  }

  pub claim_loop-Held :
      (limit taken : ℕ) (pool : AccountPool) (ps : List ℕ)
      → now < lease_until
      → All (Held (loop limit taken pool ps).0.heap ps) (loop limit taken pool ps).1
  unfolding claim_loop
  claim_loop-Held limit taken pool [] h = tt
  claim_loop-Held limit taken pool (p ∷ ps) h = elim (Option-cases (round pool p).1) [
    | inl e ↦
        rw (e, claim_loop) (Held-cons _ p ps _ (claim_loop-Held limit taken (round pool p).0 ps h))
    | inr (task, e) ↦
        let after = (round pool p).0 in
        let held : Holds after.heap task p =
          granted-Holds pool p task h e (claim_one-Round worker now lease_until rfc3339 p pool) in
        elim (Bool-cases (leb limit (taken + 1))) [
          | inl full ↦ rw (e, full, claim_loop) ((p, ground arith, held), tt)
          | inr more ↦
              rw (e, more, claim_loop)
                (
                  (
                    p,
                    ground arith,
                    same_holder task p
                        (claim_loop-busy limit (taken + 1) after ps p
                          (ground (arith, held.is_held)))
                        held,
                  ),
                  Held-cons _ p ps _ (claim_loop-Held limit (taken + 1) after ps h),
                )
        ]
  ]
