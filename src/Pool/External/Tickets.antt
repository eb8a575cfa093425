-- ===== src/Pool/External/Tickets.antt =====
-- src/pool/pool.go, the task identifiers: no two accounts ever hold the same one.
use native.Mathlib.Decide.{ℕ_discrete}
use native.Mathlib.Nat.{mod-eq_of_lt}
use mathlib.Core.List.{append_cancel_left}
use business2api.Base.{
  ℕ, suc, ◌+◌, ◌≤◌, ◌<◌, ◌≡◌, ◌≢◌, ap, sym, subst, ◌∙◌, ◌⊎◌, inl, inr, List, [], Option, arith,
  length, ℤ,
}
use business2api.Text.{Text, codes, decimal, decimal-injective, trim_space}
use business2api.Pool.State.{AccountPool, uint64}
use business2api.Pool.External.Defs.{
  AccountUploadRequest, task_name, release_lease, update_external_alert_state,
}
use business2api.Pool.External.Claim.{claim_one, claim_limit, finish_claim, claim}
use business2api.Pool.External.Round.{Round, passed, reclaimed, granted, claim_one-Round, next_seq}
use business2api.Pool.External.Leases.{claim_elim, lease_end}
use business2api.Pool.External.Loop.{claim_loop_ind}

task_name-injective : (m n : ℕ) → task_name m ≡ task_name n → m ≡ n
unfolding task_name
task_name-injective m n e =
    decimal-injective m n (append_cancel_left (codes "ext-refresh-") (decimal m) (decimal n) e)

pub name-ne-nil : (n : ℕ) → task_name n ≢ []
unfolding task_name
name-ne-nil n e = cc

abbrev pub task_of_account : AccountPool → ℕ → Text
task_of_account pool p = (pool.heap p).external_task_id

-- The identifier is none, or numbered by a value that the counter has passed.
abbrev pub IsNamed : Text → ℕ → Type 0
IsNamed t seq = (t ≡ []) ⊎ ((n : ℕ) × (t ≡ task_name n) × (n ≤ seq))

IsNamed-mono : (t : Text) {m n : ℕ} → m ≤ n → IsNamed t m → IsNamed t n
IsNamed-mono t h (inl e) = inl e
IsNamed-mono t h (inr (k, e, b)) = inr (k, e, omega arith)

-- Each account's task, if it has one, carries a number that was given out, and no other account has
-- the same.
pub record IsTicketed (pool : AccountPool) : Type 0 where
  pub named : (p : ℕ) → IsNamed (task_of_account pool p) pool.external_task_seq
  pub distinct :
      (p q : ℕ)
      → p ≢ q
      → task_of_account pool p ≡ task_of_account pool q
      → task_of_account pool p ≡ []

module _ (pool after : AccountPool) (p : ℕ) (rest : (q : ℕ) → p ≢ q → after.heap q ≡ pool.heap q)
    (v : IsTicketed pool) where
  other_task : (q : ℕ) → p ≢ q → task_of_account after q ≡ task_of_account pool q
  other_task q d = ap (λ a. a.external_task_id) (rest q d)

  -- The identifiers stay distinct if the one that `p` has now is no other account's.
  write-IsTicketed :
      pool.external_task_seq ≤ after.external_task_seq
      → IsNamed (task_of_account after p) after.external_task_seq
      → ((q : ℕ)
          → p ≢ q
          → task_of_account after p ≡ task_of_account pool q
          → task_of_account after p ≡ [])
      → IsTicketed after
  write-IsTicketed grows own apart = record {
    named = λ q. elim (ℕ_discrete p q) [
      | yes e ↦ subst (λ x. IsNamed (task_of_account after x) after.external_task_seq) e own
      | no d ↦ rw (other_task q d) (IsNamed-mono _ grows (v.named q))
    ];
    distinct = λ q r d e. elim (ℕ_discrete p q) [
      | yes pq ↦
          let pr : p ≢ r = λ x. d (sym pq ∙ x) in
          let here = ap (task_of_account after) pq in
          sym here ∙ apart r pr (here ∙ (e ∙ other_task r pr))
      | no nq ↦ elim (ℕ_discrete p r) [
        | yes pr ↦
            let there = e ∙ ap (task_of_account after) (sym pr) in
            there ∙ apart q nq (sym there ∙ other_task q nq)
        | no nr ↦ other_task q nq ∙ v.distinct q r d (sym (other_task q nq) ∙ (e ∙ other_task r nr))
      ]
    ];
  }

  -- A write that clears the task of one account, or leaves it.
  pub clear-IsTicketed :
      pool.external_task_seq ≤ after.external_task_seq
      → (task_of_account after p ≡ []) ⊎ (task_of_account after p ≡ task_of_account pool p)
      → IsTicketed after
  clear-IsTicketed grows (inl e) = write-IsTicketed grows (inl e) (λ q d same. e)
  clear-IsTicketed grows (inr e) =
      write-IsTicketed grows (rw e (IsNamed-mono _ grows (v.named p)))
        (λ q d same. e ∙ v.distinct p q d (sym e ∙ same))

  -- A write that gives one account the next number.
  pub grant-IsTicketed :
      after.external_task_seq ≡ suc pool.external_task_seq
      → task_of_account after p ≡ task_name (suc pool.external_task_seq)
      → IsTicketed after
  grant-IsTicketed grows own =
      write-IsTicketed (omega arith) (inr (suc pool.external_task_seq, own, omega arith))
        (λ q d same. absurd (fresh q (sym own ∙ same) (v.named q)))
    where
      fresh :
          (q : ℕ)
          → task_name (suc pool.external_task_seq) ≡ task_of_account pool q
          → IsNamed (task_of_account pool q) pool.external_task_seq
          → ⊥
      fresh q e (inl absent) = name-ne-nil _ (e ∙ absent)
      fresh q e (inr (k, e', b)) =
          let same : suc pool.external_task_seq ≡ k = task_name-injective _ k (e ∙ e') in
          omega arith

module _ (worker : Text) (now lease_until : ℕ) where
  Round-IsTicketed :
      (pool : AccountPool) (p : ℕ) (r : AccountPool × Option AccountUploadRequest)
      → pool.external_task_seq + 1 < uint64
      → IsTicketed pool
      → Round worker now lease_until pool p r
      → IsTicketed r.0 × (r.0.external_task_seq ≤ pool.external_task_seq + 1)
  Round-IsTicketed pool p r small v (passed _ seq same rest) = (
    clear-IsTicketed pool r.0 p rest v (omega arith) (inr (ap (λ a. a.external_task_id) same)),
    omega arith,
  )
  Round-IsTicketed pool p r small v (reclaimed _ _ seq same rest) = (
    clear-IsTicketed pool r.0 p rest v (omega arith)
        (inl (unfold release_lease in ap (λ a. a.external_task_id) same)),
    omega arith,
  )
  Round-IsTicketed pool p r small v (granted _ _ _ _ seq same rest) =
      let next : next_seq pool ≡ suc pool.external_task_seq = mod-eq_of_lt small ∙ omega arith in
      (
        grant-IsTicketed pool r.0 p rest v (seq ∙ next)
            (ap (λ a. a.external_task_id) same ∙ ap task_name next),
        omega arith,
      )

-- What the loop keeps with `k` rounds left.
abbrev Budget : ℕ → AccountPool → Type 0
Budget k pool = IsTicketed pool × (pool.external_task_seq + k < uint64)

finish_claim-IsTicketed :
    (r : AccountPool × List AccountUploadRequest) → IsTicketed r.0 → IsTicketed (finish_claim r).0
unfolding finish_claim update_external_alert_state
finish_claim-IsTicketed r v = record { named = v.named; distinct = v.distinct }

module _ (rfc3339 : ℕ → Text) (worker_id : Text) (limit lease_sec : ℤ) (now : ℕ)
    (pool : AccountPool) where
  claim_one-Budget :
      (k : ℕ) (other : AccountPool) (p : ℕ)
      → Budget (suc k) other
      → Budget k
          (claim_one rfc3339
            (trim_space worker_id)
            now
            (lease_end rfc3339 worker_id limit lease_sec now pool)
            other
            p).0
  claim_one-Budget k other p (v, small) =
      let kept =
        Round-IsTicketed _ now _ other p _ (omega arith) v
          (claim_one-Round _ now _ rfc3339 p other) in
      (kept.0, omega (arith, kept.1))

  -- As long as the counter does not wrap, a claim keeps the identifiers distinct over all accounts,
  -- and each of them one that was given out.
  pub claim-IsTicketed :
      pool.external_task_seq + length pool.pending_accounts < uint64
      → IsTicketed pool
      → IsTicketed (claim rfc3339 worker_id limit lease_sec now pool).0
  claim-IsTicketed small v =
      claim_elim rfc3339 worker_id limit lease_sec now pool (λ r. IsTicketed r.0) (λ _. v)
        (λ _.
          finish_claim-IsTicketed _
            (claim_loop_ind rfc3339 (trim_space worker_id) now _ Budget claim_one-Budget
              (claim_limit limit pool) 0 pool pool.pending_accounts (v, small)).1.0)
