-- ===== src/Pool/Upload.antt =====
-- src/pool/pool_server.go, `ProcessAccountUpload`: a client or an external worker sends an account's
-- new credentials.
pub mod Checks
pub mod Ownership
pub mod Queued
mod Tests
use business2api.Base.{
  ℕ, ◌+◌, Bool, true, false, not, ◌&&◌, ◌||◌, List, [], ◌∷◌, ◌++◌, Option, none, some, ltb, ◌==◌,
  if◌then◌else◌, null,
}
use business2api.Text.{Text, codes, eqb, trim_space}
use business2api.Pool.Account.{Account, AccountData, Settings, pending}
use business2api.Pool.Cookies.{build_cookie_string}
use business2api.Pool.State.{AccountPool, update, modify}
use business2api.Pool.Jwt.{Codecs}
use business2api.Pool.Worker.{Disk, put}
use business2api.Pool.Queues.{remove_first}
use business2api.Pool.Load.{load}
use business2api.Pool.External.Defs.{
  AccountUploadRequest, release_lease, update_external_alert_state,
}

pub data UploadError : Type 0 where
  no_email no_full_name no_cookies no_authorization no_config_id no_csesidx new_with_task :
      UploadError
  not_written task_gone task_differs worker_differs task_over task_unknown : UploadError

unfoldable pub trimmed : AccountUploadRequest → AccountUploadRequest
trimmed req = record req {
  email = trim_space req.email;
  full_name = trim_space req.full_name;
  mail_provider = trim_space req.mail_provider;
  mail_password = trim_space req.mail_password;
  authorization = trim_space req.authorization;
  config_id = trim_space req.config_id;
  csesidx = trim_space req.csesidx;
  cookie_string = trim_space req.cookie_string;
  task_id = trim_space req.task_id;
  worker_id = trim_space req.worker_id;
  lease_until = trim_space req.lease_until;
  authorization_source = trim_space req.authorization_source;
}

-- What is wrong with a trimmed request.
unfoldable pub invalid_upload : AccountUploadRequest → Option UploadError
invalid_upload req =
    if null req.email
    then some no_email
    else if req.is_new && null req.full_name
    then some no_full_name
    else if null req.cookies
    then some no_cookies
    else if null req.authorization
    then some no_authorization
    else if null req.config_id
    then some no_config_id
    else if null req.csesidx
    then some no_csesidx
    else if not (null req.task_id) && req.is_new
    then some new_with_task
    else none

-- Fields that the request leaves out come from the file that is there, and the cookie string from
-- the cookies.
abbrev pub or_else : Text → Text → Text
or_else given other = if null given then other else given

unfoldable pub with_existing : Option AccountData → AccountUploadRequest → AccountUploadRequest
with_existing none req = req
with_existing (some d) req = record req {
  full_name = or_else req.full_name d.full_name;
  mail_provider = or_else req.mail_provider d.mail_provider;
  mail_password = or_else req.mail_password d.mail_password;
}

unfoldable pub with_cookie_string : AccountUploadRequest → AccountUploadRequest
with_cookie_string req = record req {
  cookie_string = or_else req.cookie_string (build_cookie_string req.cookies);
}

unfoldable pub data_of_request : Text → AccountUploadRequest → AccountData
data_of_request timestamp req = record {
  email = req.email;
  full_name = req.full_name;
  mail_provider = req.mail_provider;
  mail_password = req.mail_password;
  authorization = req.authorization;
  cookies = req.cookies;
  cookie_string = req.cookie_string;
  response_headers = [];
  timestamp = timestamp;
  config_id = req.config_id;
  csesidx = req.csesidx;
}

-- `checkTaskOwnershipLocked` at the time `now`.
unfoldable pub check_task_ownership : ℕ → AccountUploadRequest → Account → Option UploadError
check_task_ownership now req acc =
    if req.is_new || null req.task_id
    then none
    else if null acc.external_task_id
    then some task_gone
    else if not (eqb acc.external_task_id req.task_id)
    then some task_differs
    else if not (null req.worker_id)
        && not (null acc.external_lease_owner)
        && not (eqb acc.external_lease_owner req.worker_id)
    then some worker_differs
    else if not (acc.external_lease_until == 0) && ltb acc.external_lease_until now
    then some task_over
    else none

-- What a good upload writes to the account.
unfoldable pub renew : AccountData → AccountUploadRequest → Account → Account
unfolding release_lease
renew d req acc =
    let new : Account = record acc {
      account_data = d;
      config_id = req.config_id;
      csesidx = req.csesidx;
      fail_count = 0;
      browser_refresh_count = 0;
      jwt_expires = 0;
      refreshed = false;
      status = pending;
    } in
    release_lease
      (if req.is_new then new else record new { external_fail_count = 0; external_retry_at = 0 })

-- `recordRefreshSuccessLocked`, the counters.
unfoldable pub count_success : AccountUploadRequest → AccountPool → AccountPool
count_success req pool = if req.is_new then pool else record pool {
  external_refresh_success_total = pool.external_refresh_success_total + 1;
  external_refresh_fallback_total =
      if req.fallback_used
      then pool.external_refresh_fallback_total + 1
      else pool.external_refresh_fallback_total;
}

unfoldable pub find_email : (ℕ → Account) → Text → List ℕ → Option ℕ
find_email heap email [] = none
find_email heap email (p ∷ ps) =
    let rest = find_email heap email ps in
    if eqb (heap p).account_data.email email then some p else rest

module _ (now : ℕ) (d : AccountData) (req : AccountUploadRequest) where
  unfoldable pub renewed : ℕ → AccountPool → AccountPool
  unfolding renew count_success
  renewed p pool = count_success req (modify p (renew d req) pool)

  unfoldable pub upload_pending : ℕ → AccountPool → AccountPool × Option UploadError
  unfolding check_task_ownership renewed
  upload_pending p pool = elim (check_task_ownership now req (pool.heap p)) [
    | some e ↦ (pool, some e)
    | none ↦ (update_external_alert_state (renewed p pool), none)
  ]

  unfoldable pub upload_ready : ℕ → AccountPool → AccountPool × Option UploadError
  unfolding check_task_ownership renewed
  upload_ready p pool = elim (check_task_ownership now req (pool.heap p)) [
    | some e ↦ (pool, some e)
    | none ↦
        let done = renewed p pool in
        (
          update_external_alert_state (record done {
            ready_accounts = remove_first p done.ready_accounts;
            pending_accounts = done.pending_accounts ++ p ∷ [];
          }),
          none,
        )
  ]

  -- The part under the lock: the account of the address, among the pending ones first.
  unfoldable pub upload_in_pool : AccountPool → AccountPool × Option UploadError
  unfolding find_email upload_pending upload_ready
  upload_in_pool pool = elim (find_email pool.heap req.email pool.pending_accounts) [
    | some p ↦ upload_pending p pool
    | none ↦ elim (find_email pool.heap req.email pool.ready_accounts) [
      | some p ↦ upload_ready p pool
      | none ↦
          if not req.is_new && not (null req.task_id)
          then (pool, some task_unknown)
          else (pool, none)
    ]
  ]

-- `path_of` is the path that `filepath.Join` gives for the address in the data directory, `glob` what
-- `Glob` finds in it.
module _ (lib : Codecs) (s : Settings) (path_of : Text → Text) (glob : Disk → List Text)
    (can_write : Text → Bool) (rfc3339 : ℕ → Text) (now : ℕ) where
  unfoldable pub completed : Disk → AccountUploadRequest → AccountUploadRequest
  unfolding with_existing with_cookie_string
  completed disk req = with_cookie_string (with_existing (disk (path_of req.email)) req)

  unfoldable pub store_upload :
      AccountUploadRequest → AccountPool → Disk → AccountPool × Disk × Option UploadError
  unfolding completed data_of_request upload_in_pool
  store_upload req pool disk =
      let full = completed disk req in
      let d = data_of_request (rfc3339 now) full in
      let path = path_of req.email in
      let disk' = put path (some d) disk in
      let (pool', outcome) = upload_in_pool now d full (load lib s disk' (glob disk') pool) in
      if can_write path then (pool', disk', outcome) else (pool, disk, some not_written)

  unfoldable pub process_account_upload :
      AccountUploadRequest → AccountPool → Disk → AccountPool × Disk × Option UploadError
  unfolding trimmed invalid_upload store_upload
  process_account_upload req pool disk = elim (invalid_upload (trimmed req)) [
    | some e ↦ (pool, disk, some e)
    | none ↦ store_upload (trimmed req) pool disk
  ]
