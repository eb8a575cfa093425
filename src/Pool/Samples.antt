-- ===== src/Pool/Samples.antt =====
-- Small pools for the tests of src/pool.
use business2api.Base.{ℕ, ◌*◌, ◌==◌, if◌then◌else◌, true, false, List, [], ◌∷◌, some, inr}
use business2api.Text.{Text, codes, decimal}
use business2api.Pool.Account.{
  Account, AccountData, Cookie, Settings, AccountStatus, ready, pending_external, second,
}
use business2api.Pool.State.{AccountPool}
use business2api.Pool.Jwt.{Codecs}

abbrev pub settings : Settings
settings = record {
  refresh_cooldown = 240 * second;
  use_cooldown = 15 * second;
  jwt_refresh_threshold = 60 * second;
  max_fail_count = 3;
  enable_browser_refresh = true;
  browser_refresh_max_retry = 1;
  auto_delete_401 = false;
  external_refresh_mode = true;
  daily_limit = 2;
  default_config = [];
  jwt_ttl = 270 * second;
  date = λ t. codes "2026-02-03";
}

abbrev pub session_cookie : Cookie
session_cookie = record { name = codes "c"; value = codes "v"; domain = codes ".gemini.google" }

abbrev pub data_of : Text → AccountData
data_of email = record {
  email = email;
  full_name = codes "A B";
  mail_provider = [];
  mail_password = [];
  authorization = codes "Bearer x";
  cookies = session_cookie ∷ [];
  cookie_string = codes "c=v";
  response_headers = [];
  timestamp = [];
  config_id = codes "cfg";
  csesidx = codes "7";
}

abbrev pub account : Text → AccountStatus → ℕ → ℕ → Account
account email status last_used daily_count = record {
  account_data = data_of email;
  file_path = email;
  jwt = [];
  jwt_expires = 0;
  config_id = codes "cfg";
  csesidx = codes "7";
  last_refresh = 0;
  last_used = last_used;
  refreshed = true;
  fail_count = 0;
  browser_refresh_count = 0;
  success_count = 0;
  total_count = 0;
  daily_count = daily_count;
  daily_count_date = codes "2026-02-03";
  external_task_id = [];
  external_lease_owner = [];
  external_lease_until = 0;
  external_fail_count = 0;
  external_retry_at = 0;
  status = status;
}

-- Account 0 has used up its day, 1 was used a moment ago, 2 and 3 are free.
abbrev pub heap : ℕ → Account
heap p =
    if p == 0
    then account (codes "a") ready 0 2
    else if p == 1
    then account (codes "b") ready (99 * second) 1
    else if p == 2
    then account (codes "c") ready (20 * second) 1
    else account (codes "d") pending_external 0 0

abbrev pub pool_of : List ℕ → List ℕ → AccountPool
pool_of now_ready now_pending = record {
  heap = heap;
  next_pointer = 9;
  ready_accounts = now_ready;
  pending_accounts = now_pending;
  index = 0;
  total_success = 0;
  total_failed = 0;
  total_requests = 0;
  external_task_seq = 0;
  external_refresh_claim_total = 0;
  external_refresh_success_total = 0;
  external_refresh_failed_total = 0;
  external_refresh_lease_expired = 0;
  external_refresh_fallback_total = 0;
  external_refresh_throttle_active = false;
  external_refresh_fail_alert = false;
  external_refresh_fallback_alert = false;
}

-- Codecs that keep a text as it is.
abbrev pub codecs : Codecs
codecs = record {
  base64 = λ bytes. bytes;
  unbase64 = λ t. inr t;
  hmac = λ key t. key;
  header_json = λ kid. kid;
  payload_json = λ sub iat exp nbf. sub;
  xsrf_of_json = λ t. inr (t, codes "k");
  raw_unbase64 = λ t. some t;
  sub_of_json = λ t. some t;
  seconds_text = decimal;
}
