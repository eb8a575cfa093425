-- ===== src/Pool/Account.antt =====
-- src/pool/pool.go, the data of an account: cookies, the account file's content, the status,
-- and the record that the pool keeps for it. A `time.Time` is the number of nanoseconds since
-- the zero time, which is 0 itself, and a `time.Duration` is a number of nanoseconds.
use business2api.Base.{ℕ, ◌+◌, ◌-◌, ◌*◌, Bool, true, false, ◌&&◌, List, ltb, leb, if◌then◌else◌}
use business2api.Text.{Text, eqb}

pub record Cookie : Type 0 where
  pub name : Text
  pub value : Text
  pub domain : Text

pub record AccountData : Type 0 where
  pub email : Text
  pub full_name : Text
  pub mail_provider : Text
  pub mail_password : Text
  pub authorization : Text
  pub cookies : List Cookie
  pub cookie_string : Text
  pub response_headers : List (Text × Text)
  pub timestamp : Text
  pub config_id : Text
  pub csesidx : Text

pub data AccountStatus : Type 0 where
  pending ready cooldown invalid pending_external : AccountStatus

abbrev pub is_pending_external : AccountStatus → Bool
is_pending_external pending_external = true
is_pending_external _ = false

pub record Account : Type 0 where
  pub account_data : AccountData
  pub file_path : Text
  pub jwt : Text
  pub jwt_expires : ℕ
  pub config_id : Text
  pub csesidx : Text
  pub last_refresh : ℕ
  pub last_used : ℕ
  pub refreshed : Bool
  pub fail_count : ℕ
  pub browser_refresh_count : ℕ
  pub success_count : ℕ
  pub total_count : ℕ
  pub daily_count : ℕ
  pub daily_count_date : Text
  pub external_task_id : Text
  pub external_lease_owner : Text
  pub external_lease_until : ℕ
  pub external_fail_count : ℕ
  pub external_retry_at : ℕ
  pub status : AccountStatus

abbrev pub second : ℕ
second = 1_000_000_000

-- The package variables that the pool reads, and the time zone's calendar: the day of a time in
-- the form YYYY-MM-DD.
pub record Settings : Type 0 where
  pub refresh_cooldown : ℕ
  pub use_cooldown : ℕ
  pub jwt_refresh_threshold : ℕ
  pub max_fail_count : ℕ
  pub enable_browser_refresh : Bool
  pub browser_refresh_max_retry : ℕ
  pub auto_delete_401 : Bool
  pub external_refresh_mode : Bool
  pub daily_limit : ℕ
  pub default_config : Text
  pub jwt_ttl : ℕ
  pub date : ℕ → Text

-- `now.Sub(t) < d`. The program saturates the difference at 292 years; the cooldowns are shorter.
abbrev pub is_within : ℕ → ℕ → ℕ → Bool
is_within now t d = ltb now (t + d)

-- A second read of the clock gives `now`. `true` says that the day's limit is reached.
unfoldable pub check_and_update_daily_count : Settings → ℕ → Account → Account × Bool
check_and_update_daily_count s now acc =
    let today = s.date now in
    let count = if eqb acc.daily_count_date today then acc.daily_count else 0 in
    if ltb 0 s.daily_limit && leb s.daily_limit count
    then (record acc { daily_count = count; daily_count_date = today }, true)
    else (record acc { daily_count = count + 1; daily_count_date = today }, false)

unfoldable pub get_daily_usage : Settings → ℕ → Account → ℕ × ℕ × Text
get_daily_usage s now acc =
    let today = s.date now in
    if eqb acc.daily_count_date today
    then (acc.daily_count, s.daily_limit, acc.daily_count_date)
    else (0, s.daily_limit, today)

-- The caller's multiplier is a constant and at least 1.
unfoldable pub set_cooldown_multiplier : Settings → ℕ → ℕ → Account → Account
set_cooldown_multiplier s now multiplier acc = record acc {
  last_used = now + s.use_cooldown * (multiplier - 1);
}

unfoldable pub mark_used : Bool → Account → Account
mark_used success acc =
    if success
    then record acc { success_count = acc.success_count + 1; fail_count = 0 }
    else record acc { fail_count = acc.fail_count + 1 }
