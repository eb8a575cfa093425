-- ===== src/Pool/Info.antt =====
-- src/pool/pool.go, what the pool shows of its accounts, and the settings that are changed while it
-- runs.
pub mod Daily
mod Tests
use business2api.Base.{
  ℕ, ◌+◌, ◌-◌, ◌*◌, Bool, true, false, not, ◌&&◌, ◌||◌, List, [], ◌∷◌, ◌++◌, Option, none, some,
  ltb, leb, ◌==◌, if◌then◌else◌, length, map, ℤ, pos, negsuc,
}
use business2api.Text.{Text, codes, eqb, trim_space, lower_ascii}
use business2api.Pool.Account.{
  Account, AccountStatus, pending, ready, cooldown, invalid, pending_external, is_pending_external,
  Settings, second,
}
use business2api.Pool.State.{AccountPool}

-- A status in lower case, which a status that is known is in ASCII.
unfoldable pub normalize_status : Text → Text
unfolding trim_space lower_ascii
normalize_status status = map lower_ascii (trim_space status)

unfoldable pub is_active_status : Text → Bool
unfolding normalize_status eqb
is_active_status status =
    let s = normalize_status status in
    eqb s (codes "ready")
    || eqb s (codes "pending")
    || eqb s (codes "cooldown")
    || eqb s (codes "pending_external")

unfoldable pub status_name : AccountStatus → Text
status_name pending = codes "pending"
status_name ready = codes "ready"
status_name cooldown = codes "cooldown"
status_name invalid = codes "invalid"
status_name pending_external = codes "pending_external"

pub record AccountInfo : Type 0 where
  pub email : Text
  pub status : Text
  pub last_refresh : ℕ
  pub last_used : ℕ
  pub fail_count : ℕ
  pub success_count : ℕ
  pub total_count : ℕ
  pub daily_count : ℕ
  pub daily_limit : ℕ
  pub daily_remaining : ℤ
  pub jwt_expires : ℕ

module _ (s : Settings) (now : ℕ) where
  -- The count of today, on the day of the time `now`.
  unfoldable pub count_today : Account → ℕ
  count_today acc = if eqb acc.daily_count_date (s.date now) then acc.daily_count else 0

  -- -1 stands for no limit.
  unfoldable pub remaining_today : Account → ℤ
  unfolding count_today
  remaining_today acc =
      if s.daily_limit == 0 then negsuc 0 else pos (s.daily_limit - count_today acc)

  unfoldable pub info_of : Account → AccountInfo
  unfolding count_today remaining_today status_name
  info_of acc = record {
    email = acc.account_data.email;
    status = status_name acc.status;
    last_refresh = acc.last_refresh;
    last_used = acc.last_used;
    fail_count = acc.fail_count;
    success_count = acc.success_count;
    total_count = acc.total_count;
    daily_count = count_today acc;
    daily_limit = s.daily_limit;
    daily_remaining = remaining_today acc;
    jwt_expires = acc.jwt_expires;
  }

  abbrev pub infos_of : (ℕ → Account) → List ℕ → List AccountInfo
  infos_of heap [] = []
  infos_of heap (p ∷ ps) = info_of (heap p) ∷ infos_of heap ps

  unfoldable pub list_accounts : AccountPool → List AccountInfo
  unfolding info_of
  list_accounts pool =
      infos_of pool.heap pool.ready_accounts ++ infos_of pool.heap pool.pending_accounts

  -- The ready accounts that may still be used today, and the others.
  unfoldable pub available_today : (ℕ → Account) → List ℕ → ℕ
  unfolding count_today
  available_today heap [] = 0
  available_today heap (p ∷ ps) =
      (if s.daily_limit == 0 || ltb (count_today (heap p)) s.daily_limit then 1 else 0)
      + available_today heap ps

  unfoldable pub exceeded_today : (ℕ → Account) → List ℕ → ℕ
  unfolding count_today
  exceeded_today heap [] = 0
  exceeded_today heap (p ∷ ps) =
      (if s.daily_limit == 0 || ltb (count_today (heap p)) s.daily_limit then 0 else 1)
      + exceeded_today heap ps

  unfoldable pub waiting_external : (ℕ → Account) → List ℕ → ℕ
  waiting_external heap [] = 0
  waiting_external heap (p ∷ ps) =
      (if is_pending_external (heap p).status then 1 else 0) + waiting_external heap ps

-- The numbers of `Stats`; the rates are left out.
pub record Stats : Type 0 where
  pub ready : ℕ
  pub pending : ℕ
  pub pending_external : ℕ
  pub total : ℕ
  pub available : ℕ
  pub exceeded : ℕ
  pub total_requests : ℕ
  pub total_success : ℕ
  pub total_failed : ℕ
  pub daily_limit : ℕ

unfoldable pub stats : Settings → ℕ → AccountPool → Stats
unfolding available_today exceeded_today waiting_external
stats s now pool = record {
  ready = length pool.ready_accounts;
  pending = length pool.pending_accounts;
  pending_external = waiting_external s now pool.heap pool.pending_accounts;
  total = length pool.ready_accounts + length pool.pending_accounts;
  available = available_today s now pool.heap pool.ready_accounts;
  exceeded = exceeded_today s now pool.heap pool.ready_accounts;
  total_requests = pool.total_requests;
  total_success = pool.total_success;
  total_failed = pool.total_failed;
  daily_limit = s.daily_limit;
}

-- Only positive numbers of seconds change a cooldown.
abbrev pub over_seconds : ℕ → ℤ → ℕ
over_seconds old (negsuc n) = old
over_seconds old (pos n) = if n == 0 then old else n * second

unfoldable pub set_cooldowns : ℤ → ℤ → Settings → Settings
set_cooldowns refresh_sec use_sec s = record s {
  refresh_cooldown = over_seconds s.refresh_cooldown refresh_sec;
  use_cooldown = over_seconds s.use_cooldown use_sec;
}

-- A negative limit changes nothing, and 0 is no limit.
unfoldable pub set_daily_limit : ℤ → Settings → Settings
set_daily_limit (negsuc n) s = s
set_daily_limit (pos n) s = record s { daily_limit = n }
