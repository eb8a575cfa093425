-- ===== src/Api/Admin/Credentials.antt =====
-- src/main.go, `handleDeleteInvalidExecute`: which files a request may delete.
use business2api.Base.{
  ◌≡◌, refl, Bool, true, List, [], ◌∷◌, some, not, ◌&&◌, if◌then◌else◌, arith, Bool-cases, inl, inr,
}
use business2api.Text.{Text, eqb, eqb_iff, eqb_refl, StringMap, trim_space}
use business2api.Pool.Account.{AccountData}
use business2api.Pool.Load.{Flaw, validate_account_data}
use business2api.Api.Admin.{
  FileContent, parsed, no_stat, PoolFileRecord, record_of, new_record, flawed,
  collect_pool_file_records, is_among,
}
use business2api.Api.Admin.Deletion.{
  build_delete_invalid_candidates, candidate_of, reason_of, invalid_scope, names_a_candidate,
  is_plain_json, unique_files, delete_invalid_execute, can_be_read, create_backup_zip,
  backup_failed, deleted,
}

record_of-flawed :
    (index : StringMap Text) (name : Text) (d : AccountData) (f : Flaw)
    → validate_account_data d ≡ some f
    → ((record_of index name (parsed d)).invalid_reason ≡ some (flawed f))
      × ((record_of index name (parsed d)).file_name ≡ name)
unfolding record_of new_record
record_of-flawed index name d f flaw = rw (flaw, record_of) (refl, refl)

candidate_of-flawed :
    (rec : PoolFileRecord) (f : Flaw)
    → rec.invalid_reason ≡ some (flawed f)
    → ((candidate_of rec).scope_matched ≡ true) × ((candidate_of rec).file_name ≡ rec.file_name)
unfolding candidate_of reason_of
candidate_of-flawed rec f e = rw (e, candidate_of) (refl, refl)

names_a_candidate-here :
    (rec : PoolFileRecord) (recs : List PoolFileRecord) (f : Flaw)
    → rec.invalid_reason ≡ some (flawed f)
    → names_a_candidate rec.file_name (build_delete_invalid_candidates (rec ∷ recs) invalid_scope)
      ≡ true
unfolding build_delete_invalid_candidates
names_a_candidate-here rec recs f e =
    let (matched, named) = candidate_of-flawed rec f e in
    rw matched (rw (named, eqb_refl rec.file_name) refl)

names_a_candidate-later :
    (name : Text) (rec : PoolFileRecord) (recs : List PoolFileRecord)
    → names_a_candidate name (build_delete_invalid_candidates recs invalid_scope) ≡ true
    → names_a_candidate name (build_delete_invalid_candidates (rec ∷ recs) invalid_scope) ≡ true
unfolding build_delete_invalid_candidates
names_a_candidate-later name rec recs h = elim (Bool-cases (candidate_of rec).scope_matched) [
  | inl matched ↦ rw matched (ground arith)
  | inr other ↦ rw other h
]

names_a_candidate-flawed :
    (index : StringMap Text) (files : Text → FileContent) (names : List Text) (name : Text)
    (d : AccountData) (f : Flaw)
    → is_among name names ≡ true
    → files name ≡ parsed d
    → validate_account_data d ≡ some f
    → names_a_candidate name (
        build_delete_invalid_candidates (collect_pool_file_records index files names) invalid_scope)
      ≡ true
unfolding collect_pool_file_records
names_a_candidate-flawed index files [] name d f e read flaw = cc
names_a_candidate-flawed index files (n ∷ ns) name d f e read flaw =
    let rec = record_of index n (files n) in
    let later = names_a_candidate-flawed index files ns name d f in
    elim (Bool-cases (eqb n name)) [
      | inl same ↦
          let at : n ≡ name = (eqb_iff n name).0 same in
          let rest = collect_pool_file_records index files ns in
          let (reason, named) = record_of-flawed index name d f flaw in
          let here = names_a_candidate-here (record_of index name (parsed d)) rest f reason in
          rw at (rw read (rw named at here))
      | inr other ↦
          names_a_candidate-later name (record_of index n (files n))
            (collect_pool_file_records index files ns)
            (names_a_candidate-flawed index files ns name d f (ground arith) read flaw)
    ]

create_backup_zip-parsed :
    (can_archive : Bool) (disk : Text → FileContent) (name : Text) (d : AccountData)
    → disk name ≡ parsed d
    → create_backup_zip can_archive disk (name ∷ []) ≡ can_archive
unfolding create_backup_zip can_be_read
create_backup_zip-parsed can_archive disk name d read = rw read refl

-- A file among those listed, whose content as an account has a flaw, is gone after a request that
-- names it alone, where the name has no white space around it and no directory, ends in `.json`, and
-- can be removed; only where the request asks for an archive and it cannot be written, the answer is
-- that the backup failed, and no file is deleted.
pub delete_invalid_execute-flawed :
    (can_remove : Text → Bool) (can_archive auto_backup : Bool) (index : StringMap Text)
    (files : Text → FileContent) (names : List Text) (name : Text) (d : AccountData) (f : Flaw)
    → is_among name names ≡ true
    → files name ≡ parsed d
    → validate_account_data d ≡ some f
    → trim_space name ≡ name
    → is_plain_json name ≡ true
    → can_remove name ≡ true
    → let records = collect_pool_file_records index files names in
      (after : Text → FileContent) × (delete_invalid_execute can_remove can_archive auto_backup
          records
          (name ∷ [])
          files
        ≡ (if auto_backup && not can_archive then backup_failed else deleted after))
      × (after name ≡ no_stat)
unfolding delete_invalid_execute unique_files
delete_invalid_execute-flawed can_remove can_archive auto_backup index files names name d f among
      read flaw trimmed plain can =
    let candidate = names_a_candidate-flawed index files names name d f among read flaw in
    let backed = create_backup_zip-parsed can_archive files name d read in
    rw (trimmed, plain, candidate, backed) (_, refl, rw (eqb_refl name, can) refl)
