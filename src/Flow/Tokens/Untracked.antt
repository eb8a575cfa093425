-- ===== src/Flow/Tokens/Untracked.antt =====
-- src/flow/token_pool.go: a token that `LoadFromDir` read is not tied to its file.
use business2api.Base.{
  ◌≡◌, refl, Bool, true, false, Option, none, some, arith, null, Option-cases, inl, inr,
}
use business2api.Text.{Text, eqb_refl, find_entry, find_entry-set_entry}
use business2api.Flow.{TokenPool, insert_token}
use business2api.Flow.Tokens.{extract_session_token, load_file, remove_token_by_file}

abbrev is_some {ℓ} : {A : Type ℓ} → Option A → Bool
is_some none = false
is_some (some a) = true

module _ (md5 : Text → Text) (can_write can_remove : Text → Bool) where
  load_file-index :
      (name : Text) (pool : TokenPool)
      → (load_file md5 can_write can_remove name pool).0.file_index ≡ pool.file_index
  unfolding load_file insert_token
  load_file-index name pool = ground arith

  load_file-holds :
      (name content : Text) (pool : TokenPool)
      → pool.files name ≡ some content
      → null (extract_session_token content) ≡ false
      → is_some (
          find_entry
            (md5 (extract_session_token content))
            (load_file md5 can_write can_remove name pool).0.tokens)
        ≡ true
  unfolding load_file insert_token
  load_file-holds name content pool read solid =
      let id = md5 (extract_session_token content) in
      elim (Option-cases (find_entry id pool.tokens)) [
        | inl absent ↦
            rw (read, load_file)
              (rw (solid, load_file)
                (rw (absent, load_file)
                  (rw (find_entry-set_entry id pool.next_pointer pool.tokens id, eqb_refl id)
                    refl)))
        | inr (p, there) ↦
            rw (read, load_file) (rw (solid, load_file) (rw (there, load_file) (rw there refl)))
      ]

  -- The token of a file that was there at the start stays in the pool when the watcher reports that
  -- the file is gone.
  pub remove_token_by_file-load_file :
      (name content : Text) (pool : TokenPool)
      → find_entry name pool.file_index ≡ none
      → pool.files name ≡ some content
      → null (extract_session_token content) ≡ false
      → let after =
          remove_token_by_file md5 can_write can_remove name
            (load_file md5 can_write can_remove name pool).0 in
        is_some (find_entry (md5 (extract_session_token content)) after.tokens) ≡ true
  unfolding remove_token_by_file
  remove_token_by_file-load_file name content pool new read solid =
      let loaded = (load_file md5 can_write can_remove name pool).0 in
      let absent : find_entry name loaded.file_index ≡ none = rw (load_file-index name pool) new in
      rw (absent, remove_token_by_file) (load_file-holds name content pool read solid)
