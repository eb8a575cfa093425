-- ===== src/Pool/Upload/Tests.antt =====
-- Uploads of src/pool/pool_server.go, and the theorems at concrete inputs.
use business2api.Base.{ℕ, ◌*◌, ◌≡◌, refl, true, false, [], ◌∷◌, none, some}
use business2api.Text.{Text, codes, eqb, trim_space, drop_space, is_space, decimal}
use business2api.Pool.Account.{AccountData, second}
use business2api.Pool.State.{AccountPool}
use business2api.Pool.Worker.{Disk}
use business2api.Pool.Load.{validate_account_data}
use business2api.Pool.External.Defs.{AccountUploadRequest}
use business2api.Pool.Upload.{
  trimmed, invalid_upload, check_task_ownership, find_email, upload_pending, upload_in_pool,
  process_account_upload, worker_differs,
}
use business2api.Pool.Upload.Checks.{process_account_upload-validate_account_data}
use business2api.Pool.Samples.{settings, pool_of, data_of, codecs, session_cookie}

abbrev start : ℕ
start = 100 * second

-- The result of the task "t" from the worker "w", for the account "d".
abbrev result : AccountUploadRequest
result = record {
  email = codes "d";
  full_name = [];
  mail_provider = [];
  mail_password = [];
  cookies = session_cookie ∷ [];
  cookie_string = codes "c=v";
  authorization = codes "Bearer y";
  config_id = codes "cfg";
  csesidx = codes "7";
  is_new = false;
  task_id = codes "t";
  worker_id = codes "w";
  lease_until = [];
  fallback_used = false;
  authorization_source = [];
}

-- Account 3 is pending and lent to the worker.
abbrev lent_to : Text → AccountPool
lent_to worker =
    let idle = pool_of [] (3 ∷ []) in
    record idle {
      heap = λ p. record (idle.heap p) {
        external_task_id = codes "t";
        external_lease_owner = worker;
        external_lease_until = 200 * second;
      };
    }

refuses_other :
    (upload_in_pool start (data_of (codes "d")) result (lent_to (codes "x"))).1
    ≡ some worker_differs
unfolding upload_in_pool upload_pending find_email check_task_ownership eqb
refuses_other = refl

result_valid : invalid_upload (trimmed result) ≡ none
unfolding invalid_upload trimmed trim_space drop_space is_space
result_valid = refl

abbrev empty : Disk
empty path = none

-- The worker "w" is not the holder of the task, and the file is written all the same.
process_account_upload-validate_account_data_example :
    (d : AccountData) × ((process_account_upload codecs settings
          (λ email. email)
          (λ disk. [])
          (λ path. true)
          decimal
          start
          result
          (lent_to (codes "x"))
          empty).1
        (trimmed result).email
      ≡ some d)
    × (validate_account_data d ≡ none)
process_account_upload-validate_account_data_example =
    process_account_upload-validate_account_data codecs settings (λ email. email) (λ disk. [])
      (λ path. true) decimal start result (lent_to (codes "x")) empty result_valid refl
