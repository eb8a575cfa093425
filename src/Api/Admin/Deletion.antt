-- ===== src/Api/Admin/Deletion.antt =====
-- src/main.go, `buildDeleteInvalidCandidates` and `handleDeleteInvalidExecute`: which files of the pool
-- may be deleted as invalid, and the deletion.
use business2api.Base.{
  Bool, true, false, not, ◌&&◌, ◌||◌, List, [], ◌∷◌, none, some, if◌then◌else◌, null, reverse,
}
use business2api.Text.{Text, codes, eqb, trim_space, split_on, has_prefix}
use business2api.Pool.Load.{base_name}
use business2api.Pool.Info.{normalize_status}
use business2api.Api.Admin.{
  FileContent, no_stat, no_read, InvalidReason, PoolFileRecord, to_lower, is_among,
}

pub data DeleteReason : Type 0 where
  no_reason status_invalid : DeleteReason
  broken : InvalidReason → DeleteReason

pub record DeleteCandidate : Type 0 where
  pub file_name : Text
  pub email : Text
  pub reason : DeleteReason
  pub status : Text
  pub scope_matched : Bool

unfoldable pub reason_of : PoolFileRecord → DeleteReason
unfolding normalize_status eqb
reason_of rec = elim rec.invalid_reason [
  | some r ↦ broken r
  | none ↦
      if eqb (normalize_status rec.pool_status) (codes "invalid") then status_invalid else no_reason
]

unfoldable pub candidate_of : PoolFileRecord → DeleteCandidate
unfolding reason_of trim_space
candidate_of rec = record {
  file_name = rec.file_name;
  email =
      if null (trim_space rec.account_email)
      then rec.email_from_filename
      else trim_space rec.account_email;
  reason = reason_of rec;
  status = rec.pool_status;
  scope_matched = elim (reason_of rec) [ no_reason ↦ false | _ ↦ true ];
}

abbrev pub invalid_scope : Text
invalid_scope = codes "invalid_files_and_invalid_accounts"

unfoldable pub build_delete_invalid_candidates : List PoolFileRecord → Text → List DeleteCandidate
unfolding candidate_of eqb
build_delete_invalid_candidates [] scope = []
build_delete_invalid_candidates (rec ∷ recs) scope =
    let c = candidate_of rec in
    let rest = build_delete_invalid_candidates recs scope in
    if eqb scope invalid_scope && not c.scope_matched then rest else c ∷ rest

abbrev pub names_a_candidate : Text → List DeleteCandidate → Bool
names_a_candidate name [] = false
names_a_candidate name (c ∷ cs) = eqb c.file_name name || names_a_candidate name cs

-- A name without a directory that ends in `.json`.
unfoldable pub is_plain_json : Text → Bool
unfolding base_name split_on has_prefix eqb
is_plain_json name =
    not (null name)
    && eqb (base_name (split_on b'/' name)) name
    && has_prefix (reverse (to_lower name)) (reverse (codes ".json"))

-- The requested files that may be deleted, each once.
unfoldable pub unique_files : List DeleteCandidate → List Text → List Text → List Text
unfolding is_plain_json trim_space
unique_files allowed seen [] = []
unique_files allowed seen (file ∷ files) =
    let name = trim_space file in
    let skipped = unique_files allowed seen files in
    let taken = unique_files allowed (name ∷ seen) files in
    if is_plain_json name && names_a_candidate name allowed && not (is_among name seen)
    then name ∷ taken
    else skipped

unfoldable pub can_be_read : FileContent → Bool
can_be_read no_stat = false
can_be_read no_read = false
can_be_read _ = true

-- `createBackupZip`, with whether it succeeds: every file must be read, and `can_archive` says whether
-- the archive can be created and written.
unfoldable pub create_backup_zip : Bool → (Text → FileContent) → List Text → Bool
unfolding can_be_read
create_backup_zip can_archive disk [] = can_archive
create_backup_zip can_archive disk (name ∷ names) =
    can_be_read (disk name) && create_backup_zip can_archive disk names

-- The answer to the request, with the account files that are left where it deletes any. The other
-- answers leave all of them.
pub data DeleteAnswer : Type 0 where
  nothing_to_delete backup_failed : DeleteAnswer
  deleted : (Text → FileContent) → DeleteAnswer

-- `auto_backup` is what the request says, which is true if it says nothing.
unfoldable pub delete_invalid_execute :
    (Text → Bool)
    → Bool
    → Bool
    → List PoolFileRecord
    → List Text
    → (Text → FileContent)
    → DeleteAnswer
unfolding build_delete_invalid_candidates unique_files create_backup_zip
delete_invalid_execute can_remove can_archive auto_backup records files disk =
    let allowed = build_delete_invalid_candidates records invalid_scope in
    let names = unique_files allowed [] files in
    if null names
    then nothing_to_delete
    else if auto_backup && not (create_backup_zip can_archive disk names)
    then backup_failed
    else deleted (λ name. if is_among name names && can_remove name then no_stat else disk name)
