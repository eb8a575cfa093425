-- ===== src/Flow/Tokens.antt =====
-- src/flow/token_pool.go: tokens are added from cookies and from files, and removed.
pub mod Events
pub mod Extract
pub mod Sound
pub mod Untracked
use business2api.Base.{
  ℕ, ◌+◌, Bool, true, false, not, ◌&&◌, ◌||◌, List, [], ◌∷◌, Option, none, some, ◌==◌, ltb,
  if◌then◌else◌, null, take, map, length, ◌++◌, ◌⊎◌, inl, inr,
}
use business2api.Text.{
  Text, codes, eqb, trim_space, has_prefix, drop_prefix, contains, find_entry, set_entry,
  delete_entry, byte_length,
}
use business2api.Pool.Load.{fold}
use business2api.Flow.{TokenPool, FlowToken, insert_token, is_ready}

abbrev pub marker : Text
marker = codes "__Secure-next-auth.session-token="

-- The class `[;\s]` of the pattern.
unfoldable pub ends_token : ℕ → Bool
ends_token c = c == b';' || c == 9 || c == 10 || c == 12 || c == 13 || c == 32

unfoldable pub token_run : Text → Text
unfolding ends_token
token_run [] = []
token_run (c ∷ s) = if ends_token c then [] else c ∷ token_run s

-- The first match of the pattern. Both patterns match the same strings.
unfoldable pub find_token : Text → Option Text
unfolding token_run has_prefix drop_prefix
find_token [] = none
find_token (c ∷ s) =
    let run = token_run (drop_prefix (c ∷ s) marker) in
    if has_prefix (c ∷ s) marker && not (null run) then some run else find_token s

-- The empty string says that there is no token.
unfoldable pub extract_session_token : Text → Text
unfolding find_token trim_space contains byte_length
extract_session_token cookie = elim (find_token cookie) [
  | some run ↦ trim_space run
  | none ↦
      let trimmed = trim_space cookie in
      if not (contains trimmed (codes "=")) && ltb 100 (byte_length trimmed) then trimmed else []
]

pub data AddError : Type 0 where
  no_token already_there : AddError

-- `md5` is the digest in hexadecimal, of 32 digits, and `can_write` and `can_remove` say whether the
-- system lets a file of this name be written or removed.
module _ (md5 : Text → Text) (can_write can_remove : Text → Bool) where
  abbrev pub generate_token_id : Text → Text
  generate_token_id st = md5 st

  abbrev pub put_file : Text → Option Text → (Text → Option Text) → Text → Option Text
  put_file name content files other = if eqb name other then content else files other

  -- One file of the directory, with whether it brought a token.
  unfoldable pub load_file : Text → TokenPool → TokenPool × Bool
  unfolding extract_session_token insert_token find_entry
  load_file name pool = elim (pool.files name) [
    | none ↦ (pool, false)
    | some content ↦
        let st = extract_session_token content in
        if null st then (pool, false) else elim (find_entry (md5 st) pool.tokens) [
          | some p ↦ (pool, false)
          | none ↦ (insert_token (md5 st) st pool, true)
        ]
  ]

  -- `listing` are the names of the files that `ReadDir` gives, without directories.
  unfoldable pub load_from_dir : List Text → TokenPool → TokenPool × ℕ
  unfolding load_file
  load_from_dir [] pool = (pool, 0)
  load_from_dir (name ∷ names) pool =
      let (pool', loaded) = load_file name pool in
      let (pool'', more) = load_from_dir names pool' in (pool'', (if loaded then 1 else 0) + more)

  unfoldable pub token_file : Text → Text
  token_file id = take 16 id ++ codes ".txt"

  -- A failure to save is only logged.
  unfoldable pub save_token_to_file : Text → Text → TokenPool → TokenPool
  unfolding token_file
  save_token_to_file id cookie pool =
      if can_write (token_file id)
      then record pool { files = put_file (token_file id) (some cookie) pool.files }
      else pool

  unfoldable pub add_from_cookie : Text → TokenPool → TokenPool × (Text ⊎ AddError)
  unfolding extract_session_token find_entry insert_token save_token_to_file
  add_from_cookie cookie pool =
      let st = extract_session_token cookie in
      let id = md5 st in
      if null st then (pool, inr no_token) else elim (find_entry id pool.tokens) [
        | some p ↦ (pool, inr already_there)
        | none ↦ (save_token_to_file id cookie (insert_token id st pool), inl id)
      ]

  -- The first file whose name starts with the digits of the token is removed.
  unfoldable pub remove_file : Text → List Text → (Text → Option Text) → Text → Option Text
  unfolding has_prefix
  remove_file digits [] files = files
  remove_file digits (name ∷ names) files =
      if has_prefix name digits
      then if can_remove name then put_file name none files else files
      else remove_file digits names files

  -- `false` is the error that there is no such token.
  unfoldable pub remove_token : Text → List Text → TokenPool → TokenPool × Bool
  unfolding find_entry delete_entry remove_file
  remove_token id listing pool = elim (find_entry id pool.tokens) [
    | none ↦ (pool, false)
    | some p ↦ (
      record pool {
        tokens = delete_entry id pool.tokens;
        files = remove_file (take 16 id) listing pool.files;
      },
      true,
    )
  ]

  -- The token that a file held before gives way to the file's new one.
  unfoldable pub drop_old : Text → Text → TokenPool → TokenPool
  unfolding delete_entry
  drop_old name old pool = record pool { tokens = delete_entry old pool.tokens }

  unfoldable pub index_token : Text → Text → Text → TokenPool → TokenPool
  unfolding find_entry set_entry insert_token
  index_token name id st pool = elim (find_entry id pool.tokens) [
    | some p ↦ pool
    | none ↦ record (insert_token id st pool) { file_index = set_entry name id pool.file_index }
  ]

  unfoldable pub load_token_from_file : Text → TokenPool → TokenPool
  unfolding extract_session_token find_entry drop_old index_token
  load_token_from_file name pool = elim (pool.files name) [
    | none ↦ pool
    | some content ↦
        let st = extract_session_token content in
        let id = md5 st in
        if null st then pool else elim (find_entry name pool.file_index) [
          | none ↦ index_token name id st pool
          | some old ↦ if eqb old id then pool else index_token name id st (drop_old name old pool)
        ]
  ]

  unfoldable pub remove_token_by_file : Text → TokenPool → TokenPool
  unfolding find_entry delete_entry
  remove_token_by_file name pool = elim (find_entry name pool.file_index) [
    | none ↦ pool
    | some id ↦ record pool {
      tokens = delete_entry id pool.tokens;
      file_index = delete_entry name pool.file_index;
    }
  ]

-- `len(p.tokens)`.
unfoldable pub count_tokens : TokenPool → ℕ
count_tokens pool = length pool.tokens

unfoldable pub ready_of : (ℕ → FlowToken) → List (Text × ℕ) → ℕ
unfolding is_ready
ready_of heap [] = 0
ready_of heap ((id, p) ∷ es) = (if is_ready (heap p) then 1 else 0) + ready_of heap es

unfoldable pub ready_count : TokenPool → ℕ
unfolding ready_of
ready_count pool = ready_of pool.heap pool.tokens
