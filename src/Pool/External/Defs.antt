-- ===== src/Pool/External/Defs.antt =====
-- src/pool/pool.go, the operations on external refresh tasks. The ratio tests on floats are
-- written as tests on the counters, which decide them alike while the counters stay below 2 ^ 40.
use business2api.Base.{
  ℕ, ◌+◌, ◌-◌, ◌*◌, ◌^◌, ◌%◌, Bool, false, not, ◌&&◌, List, [], ◌∷◌, ◌++◌, Option, none, some, ltb,
  leb, ◌==◌, if◌then◌else◌, null, ℤ, pos, negsuc, int64,
}
use business2api.Text.{Text, codes, eqb, trim_space, decimal}
use business2api.Pool.Account.{Account, AccountData, Cookie, second}
use business2api.Pool.Cookies.{build_cookie_string}
use business2api.Pool.State.{AccountPool, uint64}

pub record AccountUploadRequest : Type 0 where
  pub email : Text
  pub full_name : Text
  pub mail_provider : Text
  pub mail_password : Text
  pub cookies : List Cookie
  pub cookie_string : Text
  pub authorization : Text
  pub config_id : Text
  pub csesidx : Text
  pub is_new : Bool
  pub task_id : Text
  pub worker_id : Text
  pub lease_until : Text
  pub fallback_used : Bool
  pub authorization_source : Text

unfoldable pub normalize_external_claim_limit : ℤ → ℕ
normalize_external_claim_limit (negsuc n) = 20
normalize_external_claim_limit (pos n) = if n == 0 then 20 else if ltb 200 n then 200 else n

unfoldable pub normalize_external_lease_sec : ℤ → ℕ
normalize_external_lease_sec (negsuc n) = 180
normalize_external_lease_sec (pos n) = if n == 0 then 180 else if ltb 1800 n then 1800 else n

-- `30 * shift`, the cap and the product with `time.Second` in 64-bit arithmetic.
unfoldable pub backoff_of_shift : ℕ → ℤ
unfolding int64
backoff_of_shift shift =
    let sec = 30 * shift % uint64 in
    let capped = if ltb 300 sec && ltb sec (2 ^ 63) then 300 else sec in
    int64 (capped * second % uint64)

-- The shift is `1 << (failCount - 1)`.
unfoldable pub external_task_backoff : ℕ → ℤ
unfolding backoff_of_shift
external_task_backoff fail_count =
    let n = if fail_count == 0 then 1 else fail_count in backoff_of_shift (2 ^ (n - 1) % uint64)

-- `completed >= 20 && fallbackRatio >= 0.5`.
unfoldable pub is_throttled : AccountPool → Bool
is_throttled pool =
    let completed = pool.external_refresh_success_total + pool.external_refresh_failed_total in
    leb 20 completed && leb completed (2 * pool.external_refresh_fallback_total)

unfoldable pub update_external_alert_state : AccountPool → AccountPool
unfolding is_throttled
update_external_alert_state pool =
    let failed = pool.external_refresh_failed_total in
    let completed = pool.external_refresh_success_total + failed in
    record pool {
      external_refresh_fail_alert = ltb 0 completed && leb (3 * completed) (10 * failed);
      external_refresh_fallback_alert =
          ltb 0 completed && leb completed (5 * pool.external_refresh_fallback_total);
      external_refresh_throttle_active = is_throttled pool;
    }

unfoldable pub external_task_by_id : (ℕ → Account) → Text → List ℕ → Option ℕ
external_task_by_id heap task_id [] = none
external_task_by_id heap task_id (p ∷ ps) =
    if eqb (heap p).external_task_id task_id then some p else external_task_by_id heap task_id ps

-- `fmt.Sprintf("ext-refresh-%d", n)`.
unfoldable pub task_name : ℕ → Text
task_name n = codes "ext-refresh-" ++ decimal n

unfoldable pub release_lease : Account → Account
release_lease acc = record acc {
  external_task_id = [];
  external_lease_owner = [];
  external_lease_until = 0;
}

abbrev pub has_task : Account → Bool
has_task acc = not (null acc.external_task_id)

-- The lease stands at the time `now`: another worker holds the task.
abbrev pub is_leased : ℕ → Account → Bool
is_leased now acc =
    has_task acc && not (acc.external_lease_until == 0) && ltb now acc.external_lease_until

abbrev pub is_lease_over : ℕ → Account → Bool
is_lease_over now acc =
    has_task acc && not (acc.external_lease_until == 0) && ltb acc.external_lease_until now

abbrev pub is_backing_off : ℕ → Account → Bool
is_backing_off now acc = not (acc.external_retry_at == 0) && ltb now acc.external_retry_at

abbrev pub task_of : AccountData → AccountUploadRequest
task_of d = record {
  email = d.email;
  full_name = d.full_name;
  mail_provider = d.mail_provider;
  mail_password = d.mail_password;
  cookies = d.cookies;
  cookie_string =
      let own = trim_space d.cookie_string in
      if null own then build_cookie_string d.cookies else own;
  authorization = d.authorization;
  config_id = d.config_id;
  csesidx = d.csesidx;
  is_new = false;
  task_id = [];
  worker_id = [];
  lease_until = [];
  fallback_used = false;
  authorization_source = [];
}
