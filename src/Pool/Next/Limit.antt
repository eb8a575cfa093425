-- ===== src/Pool/Next/Limit.antt =====
-- src/pool/pool.go, `AccountPool.Next` and `checkAndUpdateDailyCount`: what handing an account out
-- changes, and what the test of the limit of a day says.
use business2api.Base.{
  ℕ, ◌+◌, ◌<◌, ◌≡◌, false, List, [], ◌∷◌, Option, none, some, arith, ◌==◌, if◌then◌else◌,
}
use business2api.Text.{Text, eqb}
use business2api.Pool.Account.{Account, Settings}
use business2api.Pool.Next.{exceeded_daily}

-- How often the account was handed out on the day `d`.
abbrev pub used_on : Text → Account → ℕ
used_on d acc = if eqb acc.daily_count_date d then acc.daily_count else 0

abbrev pub handed : ℕ → Option ℕ → ℕ
handed p none = 0
handed p (some q) = if q == p then 1 else 0

-- An account that passes the test of the limit was handed out less often on the day `d`.
module _ (s : Settings) (now : ℕ) {d : Text} (today : s.date now ≡ d) where
  pub exceeded_daily-lt :
      (acc : Account)
      → 0 < s.daily_limit
      → exceeded_daily s now acc ≡ false
      → used_on d acc < s.daily_limit
  unfolding exceeded_daily
  exceeded_daily-lt acc pos x = ground arith

-- How often the account is among the results of calls.
abbrev pub times_handed : ℕ → List (Option ℕ) → ℕ
times_handed p [] = 0
times_handed p (o ∷ os) = handed p o + times_handed p os
