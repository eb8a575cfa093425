-- ===== src/Pool/External/Backoff.antt =====
-- src/pool/pool.go, `externalTaskBackoff` in 64-bit arithmetic.
use native.Mathlib.Decide.{dec_lt}
use native.Mathlib.Nat.{pow-suc, add-suc}
use business2api.Base.{
  ℕ, zero, suc, ◌+◌, ◌-◌, ◌*◌, ◌^◌, ◌%◌, ◌≤◌, ◌<◌, ◌≡◌, refl, ap, ◌∙◌, Bool, true, false, arith,
  ◌==◌, if◌then◌else◌, min, ℤ, pos, negsuc,
}
use business2api.Pool.Account.{second}
use business2api.Pool.State.{uint64}
use business2api.Pool.External.Defs.{backoff_of_shift, external_task_backoff}

-- The rows of a table up to a number of shifts, each tested by evaluation.
rows : (ℕ → Bool) → ℕ → Bool
rows row zero = true
rows row (suc k) = if row k then rows row k else false

row_of_rows : (row : ℕ → Bool) (k i : ℕ) → i < k → rows row k ≡ true → row i ≡ true
unfolding rows
row_of_rows row zero i below all = absurd (omega arith)
row_of_rows row (suc k) i below all = ground (arith, row_of_rows row k i)

-- The value of a duration that is not negative.
abbrev is_pos : ℕ → ℤ → Bool
is_pos n (pos d) = d == n
is_pos n (negsuc d) = false

is_pos-eq : (n : ℕ) (z : ℤ) → is_pos n z ≡ true → z ≡ pos n
is_pos-eq n (pos d) e = ground arith
is_pos-eq n (negsuc d) e = cc

short_table :
    rows (λ k. is_pos (min (30 * 2 ^ k) 300 * second) (external_task_backoff (suc k))) 59 ≡ true
unfolding rows external_task_backoff
short_table = refl

wrapped_table : rows (λ k. is_pos 0 (external_task_backoff (60 + k))) 5 ≡ true
unfolding rows external_task_backoff
wrapped_table = refl

-- Up to 59 failures in a row the wait is 30 seconds, doubled by each further failure, and 300
-- seconds at most.
pub external_task_backoff-doubles :
    (failures : ℕ)
    → failures < 59
    → external_task_backoff (suc failures) ≡ pos (min (30 * 2 ^ failures) 300 * second)
external_task_backoff-doubles k h = is_pos-eq _ _ (row_of_rows _ 59 k h short_table)

pow-wraps : (k : ℕ) → 2 ^ (64 + k) % uint64 ≡ 0
pow-wraps zero = refl
pow-wraps (suc k) = let ih = pow-wraps k in rw add-suc (rw pow-suc (omega arith))

wrapped_far : (k : ℕ) → external_task_backoff (suc (64 + k)) ≡ pos 0
unfolding external_task_backoff
wrapped_far k =
    let shift : (if suc (64 + k) == 0 then 1 else suc (64 + k)) - 1 ≡ 64 + k = ground arith in
    ap (λ m. backoff_of_shift (2 ^ m % uint64)) shift ∙ ap backoff_of_shift (pow-wraps k)

-- From the 60th failure in a row on, the shift has wrapped and there is no wait at all.
pub external_task_backoff-wraps :
    (failures : ℕ) → 60 ≤ failures → external_task_backoff failures ≡ pos 0
external_task_backoff-wraps n h = elim (dec_lt n 65) [
  | yes near ↦
      let e : 60 + (n - 60) ≡ n = omega arith in
      rw e at (
        is_pos-eq 0 (external_task_backoff (60 + (n - 60)))
          (row_of_rows _ 5 (n - 60) (omega arith) wrapped_table))
  | no far ↦ let e : suc (64 + (n - 65)) ≡ n = omega arith in rw e at (wrapped_far (n - 65))
]
