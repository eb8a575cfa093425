-- ===== src/Pool/Info/Tests.antt =====
-- The statistics of src/pool/pool.go at a concrete input.
use business2api.Base.{◌+◌, ◌*◌, ◌≡◌, refl, not, [], ◌∷◌, length, keep}
use business2api.Text.{eqb}
use business2api.Pool.Account.{second}
use business2api.Pool.Next.{exceeded_daily}
use business2api.Pool.Samples.{settings, pool_of}
use business2api.Pool.Info.{stats}
use business2api.Pool.Info.Daily.{stats-keep}

-- The first account is used up.
available_of_pool : (stats settings (100 * second) (pool_of (0 ∷ 1 ∷ 2 ∷ []) [])).available ≡ 2
unfolding stats eqb
available_of_pool = refl

stats-keep_example :
    let pool = pool_of (0 ∷ 1 ∷ 2 ∷ []) [] in
    ((stats settings (100 * second) pool).available
      ≡ length (
          keep
            (λ p. not (exceeded_daily settings (100 * second) (pool.heap p)))
            pool.ready_accounts))
    × ((stats settings (100 * second) pool).available
          + (stats settings (100 * second) pool).exceeded
        ≡ length pool.ready_accounts)
stats-keep_example = stats-keep settings (100 * second) (pool_of (0 ∷ 1 ∷ 2 ∷ []) [])
