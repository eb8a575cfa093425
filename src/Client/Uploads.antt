-- ===== src/Client/Uploads.antt =====
-- src/pool/pool_client.go, what the client uploads, and how often it tries.
use business2api.Base.{
  ℕ, zero, suc, ◌+◌, true, false, List, [], ◌∷◌, ◌++◌, Option, none, some, if◌then◌else◌, null,
}
use business2api.Text.{Text, codes, join}
use business2api.Pool.Account.{Cookie}
use business2api.Pool.External.Defs.{AccountUploadRequest}
use business2api.Pool.Worker.{BrowserRefreshResult}
use business2api.Server.{RefreshTask}

-- A successful `BrowserRegisterResult`.
pub record RegisterResult : Type 0 where
  pub email : Text
  pub full_name : Text
  pub mail_provider : Text
  pub mail_password : Text
  pub secure_cookies : List Cookie
  pub authorization : Text
  pub config_id : Text
  pub csesidx : Text

-- The server's answer to one try: it took the account, or the try ended with this error.
pub data UploadReply : Type 0 where
  stored : UploadReply
  upload_error : Text → UploadReply

-- Every pair, also one without a name.
unfoldable pub cookie_pairs : List Cookie → List Text
cookie_pairs [] = []
cookie_pairs (c ∷ cs) = (c.name ++ b'=' ∷ c.value) ∷ cookie_pairs cs

unfoldable pub register_request : RegisterResult → AccountUploadRequest
unfolding cookie_pairs join
register_request result = record {
  email = result.email;
  full_name = result.full_name;
  mail_provider = result.mail_provider;
  mail_password = result.mail_password;
  cookies = result.secure_cookies;
  cookie_string = join (codes "; ") (cookie_pairs result.secure_cookies);
  authorization = result.authorization;
  config_id = result.config_id;
  csesidx = result.csesidx;
  is_new = true;
  task_id = [];
  worker_id = [];
  lease_until = [];
  fallback_used = false;
  authorization_source = [];
}

abbrev pub newer : Text → Text → Text
newer old new = if null new then old else new

-- The values of the browser where it has any, and those of the task otherwise.
unfoldable pub refresh_request : RefreshTask → BrowserRefreshResult → AccountUploadRequest
refresh_request task result = record {
  email = task.email;
  full_name = [];
  mail_provider = task.mail_provider;
  mail_password = task.mail_password;
  cookies = result.secure_cookies;
  cookie_string = [];
  authorization = newer task.authorization result.authorization;
  config_id = newer task.config_id result.config_id;
  csesidx = newer task.csesidx result.csesidx;
  is_new = false;
  task_id = [];
  worker_id = [];
  lease_until = [];
  fallback_used = false;
  authorization_source = [];
}

-- `left` tries are left, and `i` have been; `last` is the last error. `none` is success.
unfoldable pub upload_tries : (ℕ → UploadReply) → ℕ → ℕ → Text → Option Text
upload_tries replies zero i last = some (codes "上传失败（重试3次）: " ++ last)
upload_tries replies (suc left) i last =
    let stored_later = upload_tries replies left (i + 1) in
    elim (replies i) [ stored ↦ none | upload_error error ↦ stored_later error ]

-- `server` says what the tries of a request are answered.
unfoldable pub upload_account_data :
    (AccountUploadRequest → ℕ → UploadReply) → AccountUploadRequest → Option Text
unfolding upload_tries
upload_account_data server req = upload_tries (server req) 3 0 []

unfoldable pub upload_account :
    (AccountUploadRequest → ℕ → UploadReply) → RegisterResult → Option Text
unfolding upload_account_data register_request
upload_account server result = upload_account_data server (register_request result)
