-- ===== src/Server/Results.antt =====
-- src/pool/pool_server.go, what the clients report, `handleMessage`, and the handlers that mark an
-- account. JSON is read by the standard library: the model has the values that the code asks for.
pub mod Crash
pub mod Overshoot
pub mod Deleted
use business2api.Base.{
  ℕ, zero, suc, ◌+◌, ◌*◌, Bool, true, false, List, [], ◌∷◌, ◌++◌, Option, none, some, ltb, ◌==◌,
  if◌then◌else◌, null, max, decrement_int32, difference, int32, ℤ, pos, negsuc,
}
use business2api.Text.{Text, codes, eqb}
use business2api.Pool.Account.{Account, AccountData, Cookie, Settings}
use business2api.Pool.State.{AccountPool, modify, total_count}
use business2api.Pool.Worker.{Outside, Disk, save_to_file, put}
use business2api.Pool.Queues.{mark_used_in, mark_needs_refresh}
use business2api.Pool.Jwt.{Codecs}
use business2api.Pool.Load.{load}
use business2api.Pool.Upload.{find_email}
use business2api.Server.{PoolServer, WsClient, WsMessage, status, try_send, need_count, shortage}
use business2api.Server.Assign.{assign_task}

-- An element of the list of cookies: an object, with the fields that are strings, or another value.
pub data CookieEntry : Type 0 where
  no_object : CookieEntry
  object : Option Text → Option Text → Option Text → CookieEntry

-- The field `cookies` of a result.
pub data CookiesData : Type 0 where
  no_list : CookiesData
  cookie_list : List CookieEntry → CookiesData

abbrev pub prepend : Cookie → Option (List Cookie) → Option (List Cookie)
prepend c none = none
prepend c (some cs) = some (c ∷ cs)

-- The assertion `cm["name"].(string)` ends the process where the field is no string: `none`.
unfoldable pub new_cookies : List CookieEntry → Option (List Cookie)
new_cookies [] = some []
new_cookies (no_object ∷ entries) = new_cookies entries
new_cookies (object (some name) (some value) (some domain) ∷ entries) =
    prepend (record { name = name; value = value; domain = domain }) (new_cookies entries)
new_cookies (object name value domain ∷ entries) = none

-- The first account of this email leaves the queue.
unfoldable pub without_email : (ℕ → Account) → Text → List ℕ → List ℕ
without_email heap email [] = []
without_email heap email (p ∷ ps) =
    if eqb (heap p).account_data.email email then ps else p ∷ without_email heap email ps

module _ (codecs : Codecs) (s : Settings) (out : Outside) (now : ℕ) where
  unfoldable pub remove_path : Text → Disk → Disk
  remove_path path disk =
      if null path then disk else if out.can_remove path then put path none disk else disk

  unfoldable pub delete_account : Text → PoolServer → PoolServer
  unfolding find_email without_email remove_path
  delete_account email ps =
      let pool = ps.pool in
      let gone = λ (p : ℕ). remove_path (pool.heap p).file_path ps.disk in
      elim (find_email pool.heap email pool.pending_accounts) [
        | some p ↦ record ps {
          pool = record pool {
            pending_accounts = without_email pool.heap email pool.pending_accounts;
          };
          disk = gone p;
        }
        | none ↦ elim (find_email pool.heap email pool.ready_accounts) [
          | some p ↦ record ps {
            pool = record pool {
              ready_accounts = without_email pool.heap email pool.ready_accounts;
            };
            disk = gone p;
          }
          | none ↦ ps
        ]
      ]

  abbrev pub fresh : List Cookie → Account → Account
  fresh cookies acc =
      let d = acc.account_data in
      record acc { account_data = record d { cookies = cookies }; refreshed = true; fail_count = 0 }

  -- `none` is the end of the process.
  unfoldable pub update_account_cookies : Text → CookiesData → PoolServer → Option PoolServer
  unfolding find_email new_cookies save_to_file
  update_account_cookies email no_list ps = some ps
  update_account_cookies email (cookie_list entries) ps =
      elim (find_email ps.pool.heap email ps.pool.ready_accounts) [
        | none ↦ some ps
        | some p ↦ elim (new_cookies entries) [
          | none ↦ none
          | some cookies ↦
              let (pool, disk) =
                save_to_file s out now (modify p (fresh cookies) ps.pool, ps.disk) p in
              some (record ps { pool = pool; disk = disk })
        ]
      ]

  -- The action on an account whose refresh failed: `delete` and anything unknown delete it.
  unfoldable pub keeps_expired : Text → Bool
  unfolding eqb
  keeps_expired action = if eqb action (codes "queue") then true else eqb action (codes "refresh")

  unfoldable pub handle_refresh_result :
      Text → Bool → Option CookiesData → PoolServer → Option PoolServer
  unfolding update_account_cookies keeps_expired delete_account
  handle_refresh_result email true none ps = some ps
  handle_refresh_result email true (some cookies) ps = update_account_cookies email cookies ps
  handle_refresh_result email false cookies ps =
      if keeps_expired ps.config.expired_action then some ps else some (delete_account email ps)

  -- `files` are the paths that `Load` finds. An error of `Load` is not looked at.
  unfoldable pub handle_register_result : List Text → Bool → PoolServer → PoolServer
  unfolding load
  handle_register_result files success ps =
      let counted = record ps {
        pending_register_count = decrement_int32 ps.pending_register_count;
      } in
      if success then record counted { pool = load codecs s ps.disk files ps.pool } else counted

  unfoldable pub send_status_to : WsClient → PoolServer → WsClient
  unfolding need_count try_send
  send_status_to client ps =
      (try_send
        (record {
          timestamp = now;
          payload =
              status (total_count ps.pool) (int32 ps.pending_register_count) ps.config.target_count
                (need_count ps);
        })
        client).0

unfoldable pub handle_mark : Text → Bool → PoolServer → PoolServer
unfolding find_email mark_used_in
handle_mark email success ps = elim (find_email ps.pool.heap email ps.pool.ready_accounts) [
  | none ↦ ps
  | some p ↦ record ps { pool = mark_used_in p success ps.pool }
]

unfoldable pub handle_refresh : Settings → Text → PoolServer → PoolServer
unfolding find_email mark_needs_refresh
handle_refresh s email ps = elim (find_email ps.pool.heap email ps.pool.ready_accounts) [
  | none ↦ ps
  | some p ↦ record ps { pool = mark_needs_refresh s p ps.pool }
]

-- `MaxThreads` over the clients, the dead ones included.
unfoldable pub get_total_threads : List WsClient → ℕ
get_total_threads [] = 0
get_total_threads (c ∷ cs) = c.max_threads + get_total_threads cs
