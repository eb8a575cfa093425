-- ===== src/Pool/Upload/Checks.antt =====
-- src/pool/pool_server.go and src/pool/pool.go: an upload writes only complete account data.
use business2api.Base.{
  ℕ, ◌≡◌, refl, ap, ◌∙◌, Bool, true, false, List, Option, none, some, arith, null,
}
use business2api.Text.{Text, trim_space, trim_space-idempotent, eqb_refl}
use business2api.Pool.Account.{AccountData, Settings}
use business2api.Pool.State.{AccountPool}
use business2api.Pool.Jwt.{Codecs}
use business2api.Pool.Worker.{Disk}
use business2api.Pool.Load.{validate_account_data}
use business2api.Pool.External.Defs.{AccountUploadRequest}
use business2api.Pool.Upload.{
  trimmed, invalid_upload, completed, data_of_request, store_upload, process_account_upload,
  with_existing, with_cookie_string,
}

null-trim_space :
    (s : Text) → null (trim_space s) ≡ false → null (trim_space (trim_space s)) ≡ false
null-trim_space s h = ap null (trim_space-idempotent s) ∙ h

with_existing-kept :
    (o : Option AccountData) (req : AccountUploadRequest)
    → let full = with_cookie_string (with_existing o req) in
      (full.email ≡ req.email)
      × (full.cookies ≡ req.cookies)
      × (full.authorization ≡ req.authorization)
      × (full.config_id ≡ req.config_id)
      × (full.csesidx ≡ req.csesidx)
unfolding with_existing with_cookie_string
with_existing-kept none req = (refl, refl, refl, refl, refl)
with_existing-kept (some d) req = (refl, refl, refl, refl, refl)

valid_fields :
    (req : AccountUploadRequest)
    → invalid_upload (trimmed req) ≡ none
    → (null (trim_space req.email) ≡ false)
      × (null req.cookies ≡ false)
      × (null (trim_space req.authorization) ≡ false)
      × (null (trim_space req.config_id) ≡ false)
      × (null (trim_space req.csesidx) ≡ false)
unfolding invalid_upload trimmed
valid_fields req e = ground arith

trimmed_fields :
    (req : AccountUploadRequest)
    → invalid_upload (trimmed req) ≡ none
    → (null (trim_space (trimmed req).email) ≡ false)
      × (null (trimmed req).cookies ≡ false)
      × (null (trim_space (trimmed req).authorization) ≡ false)
      × (null (trim_space (trimmed req).config_id) ≡ false)
      × (null (trim_space (trimmed req).csesidx) ≡ false)
trimmed_fields req e =
    let fields = valid_fields req e in
    unfold trimmed in
    (
      null-trim_space req.email fields.0,
      fields.1,
      null-trim_space req.authorization fields.2,
      null-trim_space req.config_id fields.3,
      null-trim_space req.csesidx fields.4,
    )

-- The data that an accepted request gives passes the check of account data.
complete_data :
    (o : Option AccountData) (timestamp : Text) (req : AccountUploadRequest)
    → invalid_upload (trimmed req) ≡ none
    → validate_account_data
        (data_of_request timestamp (with_cookie_string (with_existing o (trimmed req))))
      ≡ none
unfolding validate_account_data data_of_request
complete_data o timestamp req e =
    let kept = with_existing-kept o (trimmed req) in
    let fields = trimmed_fields req e in
    rw (kept.0, kept.1, kept.2, kept.3, kept.4, fields.0, fields.1, fields.2, fields.3, fields.4)
      (rw fields.1 refl)

module _ (lib : Codecs) (s : Settings) (path_of : Text → Text) (glob : Disk → List Text)
    (can_write : Text → Bool) (rfc3339 : ℕ → Text) (now : ℕ) where
  accepted_upload :
      (req : AccountUploadRequest) (pool : AccountPool) (disk : Disk)
      → invalid_upload (trimmed req) ≡ none
      → process_account_upload lib s path_of glob can_write rfc3339 now req pool disk
        ≡ store_upload lib s path_of glob can_write rfc3339 now (trimmed req) pool disk
  unfolding process_account_upload store_upload
  accepted_upload req pool disk valid = rw (valid, process_account_upload) refl

  stored_file :
      (req : AccountUploadRequest) (pool : AccountPool) (disk : Disk)
      → can_write (path_of req.email) ≡ true
      → (store_upload lib s path_of glob can_write rfc3339 now req pool disk).1 (path_of req.email)
        ≡ some (
            data_of_request
              (rfc3339 now)
              (completed lib s path_of glob can_write rfc3339 now disk req))
  unfolding store_upload
  stored_file req pool disk writable = rw writable (rw (eqb_refl (path_of req.email)) refl)

  -- An upload that passes the first checks and can be written leaves a file at the account's path
  -- whose data `ValidateAccountData` finds complete, whatever becomes of the upload afterwards.
  pub process_account_upload-validate_account_data :
      (req : AccountUploadRequest) (pool : AccountPool) (disk : Disk)
      → invalid_upload (trimmed req) ≡ none
      → can_write (path_of (trimmed req).email) ≡ true
      → (d : AccountData) × ((process_account_upload lib s path_of glob can_write rfc3339 now req
              pool disk).1
            (path_of (trimmed req).email)
          ≡ some d)
        × (validate_account_data d ≡ none)
  unfolding completed
  process_account_upload-validate_account_data req pool disk valid writable =
      let path = path_of (trimmed req).email in
      (
        data_of_request (rfc3339 now)
            (with_cookie_string (with_existing (disk path) (trimmed req))),
        rw (accepted_upload req pool disk valid) (stored_file (trimmed req) pool disk writable),
        complete_data (disk path) (rfc3339 now) req valid,
      )
