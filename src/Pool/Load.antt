-- ===== src/Pool/Load.antt =====
-- src/pool/pool.go, `ValidateAccountData` and `Load`: the queues are rebuilt from the account files.
pub mod Known
pub mod Halfway
pub mod Once
pub mod Second
mod Tests
use business2api.Base.{
  ℕ, ◌+◌, Bool, true, false, not, ◌&&◌, List, [], ◌∷◌, ◌++◌, Option, none, some, ◌==◌,
  if◌then◌else◌, null, map,
}
use business2api.Text.{Text, codes, eqb, trim_space, split_on, lower_ascii}
use business2api.Pool.Account.{Account, AccountData, Settings, pending}
use business2api.Pool.Cookies.{get_all_cookies, parse_cookie_string}
use business2api.Pool.State.{AccountPool, update}
use business2api.Pool.Jwt.{Codecs, extract_csesidx}
use business2api.Pool.Worker.{Disk}

pub data Flaw : Type 0 where
  missing_email missing_cookies missing_authorization missing_config_id missing_csesidx : Flaw

-- `none` says that the data is complete.
unfoldable pub validate_account_data : AccountData → Option Flaw
validate_account_data d =
    let cookies =
      if null d.cookies && not (null (trim_space d.cookie_string))
      then parse_cookie_string d.cookie_string
      else d.cookies in
    if null (trim_space d.email)
    then some missing_email
    else if null cookies
    then some missing_cookies
    else if null (trim_space d.authorization)
    then some missing_authorization
    else if null (trim_space d.config_id)
    then some missing_config_id
    else if null (trim_space d.csesidx)
    then some missing_csesidx
    else none

-- `filepath.Base` of a path that does not end in a slash.
unfoldable pub base_name : List Text → Text
base_name [] = []
base_name (part ∷ []) = part
base_name (part ∷ next ∷ parts) = base_name (next ∷ parts)

-- The case folding of `strings.EqualFold`, on ASCII and the two runes that fold to ASCII letters.
unfoldable pub fold : ℕ → ℕ
unfolding lower_ascii
fold c = if c == 0x212a then b'k' else if c == 0x17f then b's' else lower_ascii c

unfoldable pub should_skip_account_file : Text → Bool
unfolding base_name fold
should_skip_account_file path =
    eqb (map fold (base_name (split_on b'/' path))) (codes "admin_panel_auth.json")

-- `existingAccounts`: the queued account of a path, the last one if there are several.
unfoldable pub known_of : (ℕ → Account) → List ℕ → Text → Option ℕ
known_of heap [] path = none
known_of heap (p ∷ ps) path =
    let rest = known_of heap ps path in
    elim rest [ some q ↦ some q | none ↦ if eqb (heap p).file_path path then some p else none ]

-- `delete(existingAccounts, f)`.
abbrev pub forget : Text → (Text → Option ℕ) → Text → Option ℕ
forget path known other = if eqb path other then none else known other

module _ (lib : Codecs) (s : Settings) where
  unfoldable pub csesidx_of : AccountData → Text
  csesidx_of d = if null d.csesidx then extract_csesidx lib d.authorization else d.csesidx

  -- The account that a file's data gives, if its session index is known.
  unfoldable pub account_of_data : Text → AccountData → Account
  unfolding csesidx_of
  account_of_data path d = record {
    account_data = d;
    file_path = path;
    jwt = [];
    jwt_expires = 0;
    config_id =
        if null d.config_id && not (null s.default_config) then s.default_config else d.config_id;
    csesidx = csesidx_of d;
    last_refresh = 0;
    last_used = 0;
    refreshed = false;
    fail_count = 0;
    browser_refresh_count = 0;
    success_count = 0;
    total_count = 0;
    daily_count = 0;
    daily_count_date = [];
    external_task_id = [];
    external_lease_owner = [];
    external_lease_until = 0;
    external_fail_count = 0;
    external_retry_at = 0;
    status = pending;
  }

  -- A known account joins the queue that its flag names.
  unfoldable pub keep_known : ℕ → AccountPool → AccountPool
  keep_known p pool =
      if (pool.heap p).refreshed
      then record pool { ready_accounts = pool.ready_accounts ++ p ∷ [] }
      else record pool { pending_accounts = pool.pending_accounts ++ p ∷ [] }

  -- A new account gets a pointer of its own and is queued as pending.
  unfoldable pub add_new : Account → AccountPool → AccountPool
  add_new acc pool = record pool {
    heap = update pool.heap pool.next_pointer acc;
    next_pointer = pool.next_pointer + 1;
    pending_accounts = pool.pending_accounts ++ pool.next_pointer ∷ [];
  }

  unfoldable pub read_file : Text → AccountData → AccountPool → AccountPool
  unfolding account_of_data add_new
  read_file path d pool =
      if null (csesidx_of d) then pool else add_new (account_of_data path d) pool

  -- One file of the directory. A file that cannot be read or parsed is no content on the disk.
  unfoldable pub load_file : Disk → Text → (Text → Option ℕ) → AccountPool → AccountPool
  unfolding keep_known read_file
  load_file disk path known pool =
      if should_skip_account_file path then pool else elim (known path) [
        | some p ↦ keep_known p pool
        | none ↦ elim (disk path) [ none ↦ pool | some d ↦ read_file path d pool ]
      ]

  unfoldable pub load_files : Disk → List Text → (Text → Option ℕ) → AccountPool → AccountPool
  load_files disk [] known pool = pool
  load_files disk (path ∷ paths) known pool =
      load_files disk paths (forget path known) (load_file disk path known pool)

  abbrev pub known_in : AccountPool → Text → Option ℕ
  known_in pool = known_of pool.heap (pool.ready_accounts ++ pool.pending_accounts)

  -- `files` are the paths that `Glob` finds.
  unfoldable pub load : Disk → List Text → AccountPool → AccountPool
  unfolding load_files
  load disk files pool =
      load_files disk files (known_in pool)
        (record pool { ready_accounts = []; pending_accounts = [] })
