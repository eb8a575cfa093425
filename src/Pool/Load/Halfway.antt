-- ===== src/Pool/Load/Halfway.antt =====
-- src/pool/pool.go, `Load`: what holds between two files, and that a known and a new account keep it.
use native.Mathlib.Decide.{ℕ_discrete}
use business2api.Base.{
  ℕ, ◌+◌, ◌≤◌, ◌<◌, ◌≡◌, ◌≢◌, refl, ap, sym, ◌∙◌, [], ◌∷◌, Option, some, arith, inl, inr,
  Bool-cases, count-append,
}
use business2api.Text.{Text}
use business2api.Pool.Account.{Account, Settings}
use business2api.Pool.State.{AccountPool}
use business2api.Pool.Jwt.{Codecs}
use business2api.Pool.Queues.Moves.{queued, is_at}
use business2api.Pool.Load.{keep_known, add_new, forget}
use business2api.Pool.Load.Known.{forget-other}

-- Between two files: pointers from the next one on are unused, the known accounts are not queued yet
-- and have the path under which they are known, and no account is queued twice.
pub record Halfway (known : Text → Option ℕ) (pool : AccountPool) : Type 0 where
  pub fresh : (p : ℕ) → pool.next_pointer ≤ p → queued p pool ≡ 0
  pub path : (path : Text) (p : ℕ) → known path ≡ some p → (pool.heap p).file_path ≡ path
  pub old : (path : Text) (p : ℕ) → known path ≡ some p → p < pool.next_pointer
  pub absent : (path : Text) (p : ℕ) → known path ≡ some p → queued p pool ≡ 0
  pub once : (p : ℕ) → queued p pool ≤ 1

pub forget-Halfway :
    (path : Text) (known : Text → Option ℕ) (pool : AccountPool)
    → Halfway known pool
    → Halfway (forget path known) pool
forget-Halfway path known pool v = record {
  fresh = v.fresh;
  path = λ other p e. v.path other p (forget-other path other known p e).1;
  old = λ other p e. v.old other p (forget-other path other known p e).1;
  absent = λ other p e. v.absent other p (forget-other path other known p e).1;
  once = v.once;
}

is_at-apart : (p q : ℕ) → p ≢ q → is_at p q ≡ 0
is_at-apart p q d = ground arith

is_at-le : (p q : ℕ) → is_at p q ≤ 1
is_at-le p q = ground arith

module _ (lib : Codecs) (s : Settings) where
  keep_known-queued :
      (p q : ℕ) (pool : AccountPool)
      → queued q (keep_known lib s p pool) ≡ is_at p q + queued q pool
  unfolding keep_known
  keep_known-queued p q pool = ground (
    arith,
    count-append q pool.ready_accounts (p ∷ []),
    count-append q pool.pending_accounts (p ∷ []),
  )

  keep_known-heap :
      (p : ℕ) (pool : AccountPool)
      → ((keep_known lib s p pool).heap ≡ pool.heap)
        × ((keep_known lib s p pool).next_pointer ≡ pool.next_pointer)
  unfolding keep_known
  keep_known-heap p pool = elim (Bool-cases (pool.heap p).refreshed) [
    | inl e ↦ rw e (refl, refl)
    | inr e ↦ rw e (refl, refl)
  ]

  pub keep_known-Halfway :
      (path : Text) (p : ℕ) (known : Text → Option ℕ) (pool : AccountPool)
      → known path ≡ some p
      → Halfway known pool
      → Halfway (forget path known) (keep_known lib s p pool)
  keep_known-Halfway path p known pool found v =
      let kept = keep_known-heap p pool in
      record {
        fresh = λ q h. omega (
          arith,
          keep_known-queued p q pool,
          is_at-apart p q (λ e. later q (rw kept.1 at h) e),
          v.fresh q (rw kept.1 at h),
        );
        path = λ other q e.
            ap (λ heap. (heap q).file_path) kept.0
            ∙ v.path other q (forget-other path other known q e).1;
        old = λ other q e. rw kept.1 (v.old other q (forget-other path other known q e).1);
        absent = λ other q e.
            let kept_known = forget-other path other known q e in
            omega (
              arith,
              keep_known-queued p q pool,
              is_at-apart p q (λ pq. kept_known.0 (same_path other q kept_known.1 pq)),
              v.absent other q kept_known.1,
            );
        once = λ q. elim (ℕ_discrete p q) [
          | yes pq ↦ omega (
            arith,
            keep_known-queued p q pool,
            is_at-le p q,
            v.absent path q (found ∙ ap (λ r. some r) pq),
          )
          | no d ↦ omega (arith, keep_known-queued p q pool, is_at-apart p q d, v.once q)
        ];
      }
    where
      later : (q : ℕ) → pool.next_pointer ≤ q → p ≡ q → ⊥
      later q h e = let old : p < pool.next_pointer = v.old path p found in omega arith

      same_path : (other : Text) (q : ℕ) → known other ≡ some q → p ≡ q → path ≡ other
      same_path other q e pq =
          sym (v.path path p found) ∙ (ap (λ r. (pool.heap r).file_path) pq ∙ v.path other q e)

  add_new-queued :
      (acc : Account) (q : ℕ) (pool : AccountPool)
      → queued q (add_new lib s acc pool) ≡ is_at pool.next_pointer q + queued q pool
  unfolding add_new
  add_new-queued acc q pool =
      ground (arith, count-append q pool.pending_accounts (pool.next_pointer ∷ []))

  add_new-heap :
      (acc : Account) (q : ℕ) (pool : AccountPool)
      → q < pool.next_pointer
      → (add_new lib s acc pool).heap q ≡ pool.heap q
  unfolding add_new
  add_new-heap acc q pool h = ground arith

  add_new-next :
      (acc : Account) (pool : AccountPool)
      → (add_new lib s acc pool).next_pointer ≡ pool.next_pointer + 1
  unfolding add_new
  add_new-next acc pool = refl

  pub add_new-Halfway :
      (acc : Account) (known : Text → Option ℕ) (pool : AccountPool)
      → Halfway known pool
      → Halfway known (add_new lib s acc pool)
  add_new-Halfway acc known pool v = record {
    fresh = λ q h.
        let above : pool.next_pointer + 1 ≤ q = rw (add_new-next acc pool) at h in
        omega (
          arith,
          add_new-queued acc q pool,
          is_at-apart pool.next_pointer q (λ e. omega arith),
          v.fresh q (omega arith),
        );
    path = λ other q e.
        ap (λ a. a.file_path) (add_new-heap acc q pool (v.old other q e)) ∙ v.path other q e;
    old = λ other q e. omega (arith, add_new-next acc pool, v.old other q e);
    absent = λ other q e.
        let old : q < pool.next_pointer = v.old other q e in
        omega (
          arith,
          add_new-queued acc q pool,
          is_at-apart pool.next_pointer q (λ e. omega arith),
          v.absent other q e,
        );
    once = λ q. elim (ℕ_discrete pool.next_pointer q) [
      | yes e ↦
          omega (
            arith,
            add_new-queued acc q pool,
            is_at-le pool.next_pointer q,
            v.fresh q (omega arith),
          )
      | no d ↦ omega (arith, add_new-queued acc q pool, is_at-apart pool.next_pointer q d, v.once q)
    ];
  }
