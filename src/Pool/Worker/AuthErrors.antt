-- ===== src/Pool/Worker/AuthErrors.antt =====
-- src/pool/pool.go, `refreshWorker`: which errors count as a refused authentication, and what follows.
use business2api.Base.{
  ℕ, ◌+◌, ◌<◌, ◌≡◌, refl, true, false, ◌||◌, [], ◌∷◌, ◌++◌, arith, ◌⊎◌, inl, inr,
}
use business2api.Text.{Text, codes, contains, decimal, has_prefix}
use business2api.Pool.Account.{Settings}
use business2api.Pool.State.{AccountPool}
use business2api.Pool.Queues.{requeue}
use business2api.Pool.Jwt.{message, error_of_status, auth_rejected, bad_status}
use business2api.Pool.Worker.{
  Outside, Disk, on_auth_error, strike, is_last_strike, may_use_browser, is_auth_error,
}

contains-prefix : (s t p : Text) → contains t p ≡ true → contains (s ++ t) p ≡ true
unfolding contains
contains-prefix [] t p h = h
contains-prefix (c ∷ s) t p h = ground (arith, contains-prefix s t p h)

auth_rejected-contains : (code : ℕ) → contains (message (auth_rejected code)) (codes "账号失效") ≡ true
unfolding contains has_prefix message
auth_rejected-contains code = refl

bad_status-contains :
    (code : ℕ) (body p : Text)
    → contains body p ≡ true
    → contains (message (bad_status code body)) p ≡ true
unfolding message
bad_status-contains code body p h =
    contains-prefix (codes "getoxsrf 失败: ") _ p
      (contains-prefix (decimal code) _ p (contains-prefix (codes " ") body p h))

-- A status 401 or 403 counts as a refused authentication, and so does any status that has no class
-- of its own, whatever it is, when the text that comes with it holds the digits 401 or 403 anywhere.
pub is_auth_error-body :
    (code : ℕ) (body : Text)
    → (error_of_status code body ≡ auth_rejected code)
      ⊎ ((error_of_status code body ≡ bad_status code body)
          × (contains body (codes "401") || contains body (codes "403") ≡ true))
    → is_auth_error (error_of_status code body) ≡ true
unfolding is_auth_error
is_auth_error-body code body (inl e) = rw e (rw (auth_rejected-contains code) refl)
is_auth_error-body code body (inr (e, m)) = rw e (
    ground (
      arith,
      bad_status-contains code body (codes "401"),
      bad_status-contains code body (codes "403"),
    ))

module _ (s : Settings) (out : Outside) (now : ℕ) where
  -- While the browser is switched off and its retries are not used up, authentication failures never
  -- end an account that is not deleted at once: it is queued again, however often it has failed.
  pub on_auth_error-retries :
      (w : AccountPool × Disk) (p : ℕ)
      → s.external_refresh_mode ≡ false
      → s.auto_delete_401 ≡ false
      → s.enable_browser_refresh ≡ false
      → (w.0.heap p).browser_refresh_count < s.browser_refresh_max_retry
      → ((on_auth_error s out now w p).0.pending_accounts ≡ w.0.pending_accounts ++ p ∷ [])
        × (((on_auth_error s out now w p).0.heap p).fail_count ≡ (w.0.heap p).fail_count + 1)
        × ((on_auth_error s out now w p).1 ≡ w.1)
  unfolding on_auth_error may_use_browser strike is_last_strike requeue
  on_auth_error-retries (pool, disk) p internal keeps off below = ground arith
