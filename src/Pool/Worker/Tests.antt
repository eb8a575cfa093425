-- ===== src/Pool/Worker/Tests.antt =====
-- Turns of the refresh worker of src/pool/pool.go, and the theorems at concrete inputs.
use business2api.Base.{ℕ, ◌*◌, ◌≡◌, refl, true, false, [], ◌∷◌, Option, none, some}
use business2api.Text.{contains, has_prefix, decimal, decimal_fuel}
use business2api.Pool.Account.{Account, Settings, second}
use business2api.Pool.Queues.{requeue, mark_external_refresh_pending}
use business2api.Pool.Jwt.{RefreshError, message, auth_rejected, server_error}
use business2api.Pool.Worker.{
  Outside, Disk, work, on_outcome, on_auth_error, on_other_error, is_auth_error, is_cooling_error,
}
use business2api.Pool.Worker.Endings.{Ends}
use business2api.Pool.Worker.Ends.{work-Ends}
use business2api.Pool.Samples.{settings, pool_of}

abbrev outside : Outside
outside = record {
  browser = none;
  can_write = λ path. true;
  can_remove = λ path. true;
  rfc3339 = decimal;
}

abbrev internal : Settings
internal = record settings { external_refresh_mode = false; enable_browser_refresh = false }

abbrev disk : Disk
disk path = none

abbrev rejected : Account → Account × Option RefreshError
rejected acc = (acc, some (auth_rejected 401))

abbrev unanswered : Account → Account × Option RefreshError
unanswered acc = (acc, some (server_error 503))

abbrev start : ℕ
start = 1000 * second

work_hands_over :
    (work settings outside start rejected (pool_of [] [], disk) 2).0.pending_accounts ≡ 2 ∷ []
unfolding work on_outcome on_auth_error is_auth_error message contains has_prefix decimal
    decimal_fuel mark_external_refresh_pending
work_hands_over = refl

work_retries :
    (work internal outside start unanswered (pool_of [] [], disk) 2).0.pending_accounts ≡ 2 ∷ []
unfolding work on_outcome on_other_error is_auth_error is_cooling_error message contains has_prefix
    decimal decimal_fuel requeue
work_retries = refl

work-Ends_example :
    Ends settings (pool_of [] []) 2 (work settings outside start rejected (pool_of [] [], disk) 2).0
work-Ends_example = work-Ends settings outside start rejected (pool_of [] [], disk) 2
