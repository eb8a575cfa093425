-- ===== src/Flow/Tokens/Events.antt =====
-- src/flow/token_pool.go: the events on the pool of tokens.
use business2api.Base.{Bool, List, [], ◌∷◌, Option}
use business2api.Text.{Text}
use business2api.Flow.{TokenPool}
use business2api.Flow.Tokens.{
  load_file, add_from_cookie, remove_token, load_token_from_file, remove_token_by_file, put_file,
}

-- What can happen: a file is read at the start, a cookie is added, a token is removed, the watcher
-- reports a file that was written or removed, and another program changes a file.
pub data Op : Type 0 where
  load : Text → Op
  add : Text → Op
  remove : Text → List Text → Op
  file_written : Text → Op
  file_removed : Text → Op
  edit : Text → Option Text → Op

module _ (md5 : Text → Text) (can_write can_remove : Text → Bool) where
  unfoldable pub apply : Op → TokenPool → TokenPool
  unfolding load_file add_from_cookie remove_token load_token_from_file remove_token_by_file
  apply (load name) pool = (load_file md5 can_write can_remove name pool).0
  apply (add cookie) pool = (add_from_cookie md5 can_write can_remove cookie pool).0
  apply (remove id listing) pool = (remove_token md5 can_write can_remove id listing pool).0
  apply (file_written name) pool = load_token_from_file md5 can_write can_remove name pool
  apply (file_removed name) pool = remove_token_by_file md5 can_write can_remove name pool
  apply (edit name content) pool = record pool {
    files = put_file md5 can_write can_remove name content pool.files;
  }

  unfoldable pub run : List Op → TokenPool → TokenPool
  unfolding apply
  run [] pool = pool
  run (op ∷ ops) pool = run ops (apply op pool)
