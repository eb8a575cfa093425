-- ===== src/Pool/Worker.antt =====
-- src/pool/pool.go, `refreshWorker`: what a worker does with the account that it took out of the
-- pending queue, `RemoveAccount` and `SaveToFile`. The account files are a map from paths.
pub mod Endings
pub mod Ends
pub mod AuthErrors
mod Tests
use business2api.Base.{
  ℕ, ◌+◌, ◌*◌, Bool, true, false, not, ◌&&◌, ◌||◌, List, [], ◌∷◌, ◌++◌, Option, none, some, ltb,
  leb, if◌then◌else◌, null, max,
}
use business2api.Text.{Text, codes, eqb, contains}
use business2api.Pool.Account.{
  Account, AccountData, AccountStatus, Cookie, Settings, is_within, pending, ready, invalid,
}
use business2api.Pool.Cookies.{build_cookie_string}
use business2api.Pool.State.{AccountPool, update, modify}
use business2api.Pool.Queues.{mark_ready, mark_external_refresh_pending, requeue}
use business2api.Pool.Jwt.{RefreshError, message}

-- What a browser session returns.
pub record BrowserRefreshResult : Type 0 where
  pub success : Bool
  pub secure_cookies : List Cookie
  pub config_id : Text
  pub csesidx : Text
  pub authorization : Text
  pub response_headers : List (Text × Text)

abbrev pub Disk : Type 0
Disk = Text → Option AccountData

abbrev pub put : Text → Option AccountData → Disk → Disk
put path content disk other = if eqb path other then content else disk other

-- What the worker's surroundings give it: the browser, if there is one, the file system's consent to
-- a write or a removal, and the format of a time.
pub record Outside : Type 0 where
  pub browser : Option (Account → BrowserRefreshResult)
  pub can_write : Text → Bool
  pub can_remove : Text → Bool
  pub rfc3339 : ℕ → Text

-- `Contains(errMsg, "账号失效") || Contains(errMsg, "401") || Contains(errMsg, "403")`.
unfoldable pub is_auth_error : RefreshError → Bool
unfolding message contains
is_auth_error e =
    contains (message e) (codes "账号失效")
    || contains (message e) (codes "401")
    || contains (message e) (codes "403")

unfoldable pub is_cooling_error : RefreshError → Bool
unfolding message contains
is_cooling_error e = contains (message e) (codes "刷新冷却中")

-- The account with what the browser brought.
unfoldable pub adopt : BrowserRefreshResult → Account → Account
adopt r acc =
    let d = acc.account_data in
    record acc {
      account_data = record d {
        cookies = r.secure_cookies;
        authorization = if null r.authorization then d.authorization else r.authorization;
        config_id = if null r.config_id then d.config_id else r.config_id;
        csesidx = if null r.csesidx then d.csesidx else r.csesidx;
        response_headers =
            if null r.response_headers then d.response_headers else r.response_headers;
      };
      config_id = if null r.config_id then acc.config_id else r.config_id;
      csesidx = if null r.csesidx then acc.csesidx else r.csesidx;
      fail_count = 0;
      browser_refresh_count = 0;
      jwt_expires = 0;
      status = pending;
    }

module _ (s : Settings) (out : Outside) (now : ℕ) where
  unfoldable pub remove_account : AccountPool × Disk → ℕ → AccountPool × Disk
  remove_account (pool, disk) p =
      let path = (pool.heap p).file_path in
      if out.can_remove path then (pool, put path none disk) else (pool, disk)

  unfoldable pub save_to_file : AccountPool × Disk → ℕ → AccountPool × Disk
  save_to_file (pool, disk) p =
      let acc = pool.heap p in
      let d = acc.account_data in
      let stamped : AccountData = record d {
        timestamp = out.rfc3339 now;
        cookie_string = if null d.cookies then d.cookie_string else build_cookie_string d.cookies;
      } in
      let pool' = modify p (λ a. record a { account_data = stamped }) pool in
      if out.can_write acc.file_path
      then (pool', put acc.file_path (some stamped) disk)
      else (pool', disk)

  abbrev pub in_pool : (AccountPool → AccountPool) → AccountPool × Disk → AccountPool × Disk
  in_pool f (pool, disk) = (f pool, disk)

  abbrev pub write : (Account → Account) → ℕ → AccountPool × Disk → AccountPool × Disk
  write f p = in_pool (modify p f)

  -- `StatusInvalid` and `RemoveAccount`: the account is in no queue any more.
  unfoldable pub drop_account : AccountPool × Disk → ℕ → AccountPool × Disk
  unfolding remove_account
  drop_account w p = remove_account (write (λ a. record a { status = invalid }) p w) p

  -- The account is ready as it is.
  unfoldable pub accept : AccountPool × Disk → ℕ → AccountPool × Disk
  accept w p =
      in_pool (mark_ready p) (write (λ a. record a { refreshed = true; status = ready }) p w)

  -- The browser brought new cookies: they are saved, and the account waits for its next turn.
  unfoldable pub readopt : BrowserRefreshResult → AccountPool × Disk → ℕ → AccountPool × Disk
  unfolding adopt save_to_file
  readopt r w p = in_pool (requeue p) (save_to_file (write (adopt r) p w) p)

  abbrev pub max_retry : ℕ
  max_retry = max 10 (s.max_fail_count * 3)

  unfoldable pub is_last_strike : Account → Bool
  is_last_strike acc =
      leb s.browser_refresh_max_retry acc.browser_refresh_count && leb max_retry acc.fail_count

  -- A further authentication failure: the last one ends the account, else it waits and is retried.
  unfoldable pub strike : AccountPool × Disk → ℕ → AccountPool × Disk
  unfolding is_last_strike
  strike w p =
      let w' = write (λ a. record a { fail_count = a.fail_count + 1 }) p w in
      if is_last_strike (w'.0.heap p) then drop_account w' p else in_pool (requeue p) w'

  -- The attempt with the browser, which counts as tried before it starts.
  unfoldable pub try_browser :
      (Account → BrowserRefreshResult) → AccountPool × Disk → ℕ → AccountPool × Disk
  unfolding strike readopt
  try_browser browser w p =
      let w' = write (λ a. record a { browser_refresh_count = a.browser_refresh_count + 1 }) p w in
      let result = browser (w'.0.heap p) in
      if result.success then readopt result w' p else strike w' p

  unfoldable pub may_use_browser : Account → Bool
  may_use_browser acc =
      s.enable_browser_refresh
      && ltb 0 s.browser_refresh_max_retry
      && ltb acc.browser_refresh_count s.browser_refresh_max_retry

  unfoldable pub on_auth_error : AccountPool × Disk → ℕ → AccountPool × Disk
  unfolding drop_account strike try_browser may_use_browser
  on_auth_error w p =
      if s.external_refresh_mode
      then in_pool (mark_external_refresh_pending p) w
      else if s.auto_delete_401
      then drop_account w p
      else if may_use_browser (w.0.heap p)
      then elim out.browser [ none ↦ strike w p | some browser ↦ try_browser browser w p ]
      else strike w p

  -- Another error: the account is retried until it has failed too often.
  unfoldable pub on_other_error : AccountPool × Disk → ℕ → AccountPool × Disk
  unfolding drop_account
  on_other_error w p =
      let w' = write (λ a. record a { fail_count = a.fail_count + 1 }) p w in
      if leb s.max_fail_count (w'.0.heap p).fail_count
      then drop_account w' p
      else in_pool (requeue p) w'

  unfoldable pub on_success : AccountPool × Disk → ℕ → AccountPool × Disk
  unfolding save_to_file
  on_success w p =
      in_pool (mark_ready p)
        (save_to_file (write (λ a. record a { fail_count = 0; status = ready }) p w) p)

  unfoldable pub on_outcome : Option RefreshError → AccountPool × Disk → ℕ → AccountPool × Disk
  unfolding on_success on_auth_error on_other_error accept is_auth_error is_cooling_error
  on_outcome none w p = on_success w p
  on_outcome (some e) w p =
      if is_auth_error e
      then on_auth_error w p
      else if is_cooling_error e
      then accept w p
      else on_other_error w p

  -- One turn of the worker with the account that it took; `refresh` is `RefreshJWT`.
  unfoldable pub work :
      (Account → Account × Option RefreshError) → AccountPool × Disk → ℕ → AccountPool × Disk
  unfolding on_outcome accept
  work refresh w p =
      let outdated : Account = record (w.0.heap p) { jwt_expires = 0 } in
      let (acc, outcome) = refresh outdated in
      if is_within now (w.0.heap p).last_refresh s.refresh_cooldown
      then accept w p
      else on_outcome outcome (write (λ a. acc) p w) p
