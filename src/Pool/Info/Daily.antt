-- ===== src/Pool/Info/Daily.antt =====
-- src/pool/pool.go, `Stats` and `Next`: the accounts that are shown as available today.
use business2api.Base.{ℕ, ◌+◌, ◌≡◌, refl, not, List, [], ◌∷◌, length, arith, keep}
use business2api.Pool.Account.{Account, Settings}
use business2api.Pool.State.{AccountPool}
use business2api.Pool.Next.{exceeded_daily}
use business2api.Pool.Info.{stats, available_today, exceeded_today, count_today}

available_today-keep :
    (s : Settings) (now : ℕ) (heap : ℕ → Account) (ps : List ℕ)
    → (available_today s now heap ps ≡ length (keep (λ p. not (exceeded_daily s now (heap p))) ps))
      × (available_today s now heap ps + exceeded_today s now heap ps ≡ length ps)
unfolding available_today exceeded_today exceeded_daily count_today
available_today-keep s now heap [] = (refl, refl)
available_today-keep s now heap (p ∷ ps) = ground (arith, available_today-keep s now heap ps)

-- The accounts that the statistics show as available today are the ready ones that `Next` does not
-- skip for their daily limit, and with those shown as exhausted they are all the ready ones.
pub stats-keep :
    (s : Settings) (now : ℕ) (pool : AccountPool)
    → ((stats s now pool).available
        ≡ length (keep (λ p. not (exceeded_daily s now (pool.heap p))) pool.ready_accounts))
      × ((stats s now pool).available + (stats s now pool).exceeded ≡ length pool.ready_accounts)
unfolding stats
stats-keep s now pool = available_today-keep s now pool.heap pool.ready_accounts
