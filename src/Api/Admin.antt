-- ===== src/Api/Admin.antt =====
-- src/main.go, the administrator's lists: the files of the pool, how they are paged, how an address
-- is masked, and which files may be deleted as invalid. The sort of the lists for display, the
-- further columns of the views with their masked addresses, and what stands in the archive of the
-- deleted files are left out.
pub mod Deletion
pub mod Paging
pub mod Masking
pub mod Credentials
mod Tests
use business2api.Base.{
  ℕ, zero, suc, ◌+◌, ◌-◌, ◌*◌, ◌%◌, ◌^◌, Bool, true, false, not, ◌&&◌, ◌||◌, List, [], ◌∷◌, ◌++◌,
  Option, none, some, ltb, leb, ◌==◌, if◌then◌else◌, null, length, take, drop, map, reverse, min, ℤ,
  pos, negsuc, int64,
}
use business2api.Text.{
  Text, codes, eqb, trim_space, lower_ascii, split_on, has_prefix, contains, StringMap, find_entry,
  set_entry,
}
use business2api.Pool.Account.{AccountData, Settings}
use business2api.Pool.State.{AccountPool}
use business2api.Pool.Load.{Flaw, validate_account_data, base_name}
use business2api.Pool.Info.{AccountInfo, list_accounts, normalize_status, is_active_status}

-- What the system gives for a path: no metadata, no content, content that is no JSON, or the account
-- that the JSON holds, whose missing fields are empty.
pub data FileContent : Type 0 where
  no_stat no_read no_json : FileContent
  parsed : AccountData → FileContent

pub data InvalidReason : Type 0 where
  stat_failed read_failed json_parse_error : InvalidReason
  flawed : Flaw → InvalidReason

pub record PoolFileRecord : Type 0 where
  pub file_name : Text
  pub email_from_filename : Text
  pub account_email : Text
  pub parse_ok : Bool
  pub exists_in_pool : Bool
  pub pool_status : Text
  pub invalid_reason : Option InvalidReason

abbrev pub to_lower : Text → Text
to_lower = map lower_ascii

-- `strings.TrimSuffix(name, filepath.Ext(name))`, on the reversed name: the part after the last dot
-- is dropped, if there is a dot.
unfoldable pub drop_extension : Text → Text
drop_extension [] = []
drop_extension (c ∷ s) = if c == b'.' then s else drop_extension s

unfoldable pub stem : Text → Text
unfolding drop_extension contains
stem name = if contains name (codes ".") then reverse (drop_extension (reverse name)) else name

-- The statuses of the queued accounts by their addresses; the last account of an address counts.
unfoldable pub index_from : List AccountInfo → StringMap Text → StringMap Text
unfolding set_entry trim_space
index_from [] index = index
index_from (info ∷ infos) index =
    let email = to_lower (trim_space info.email) in
    let rest = index_from infos index in
    let more = index_from infos (set_entry email info.status index) in
    if null email then rest else more

unfoldable pub get_pool_account_index : Settings → ℕ → AccountPool → StringMap Text
unfolding index_from list_accounts
get_pool_account_index s now pool = index_from (list_accounts s now pool) []

unfoldable pub new_record : Text → PoolFileRecord
unfolding stem
new_record name = record {
  file_name = name;
  email_from_filename = stem name;
  account_email = stem name;
  parse_ok = false;
  exists_in_pool = false;
  pool_status = codes "invalid";
  invalid_reason = none;
}

-- The record of a file of this name, among the accounts of the index.
unfoldable pub record_of : StringMap Text → Text → FileContent → PoolFileRecord
unfolding new_record trim_space validate_account_data find_entry normalize_status
record_of index name no_stat = record (new_record name) { invalid_reason = some stat_failed }
record_of index name no_read = record (new_record name) { invalid_reason = some read_failed }
record_of index name no_json = record (new_record name) { invalid_reason = some json_parse_error }
record_of index name (parsed d) =
    let email = if null (trim_space d.email) then stem name else trim_space d.email in
    let flaw = validate_account_data d in
    let listed = find_entry (to_lower email) index in
    record (new_record name) {
      account_email = email;
      parse_ok = true;
      invalid_reason = elim flaw [ none ↦ none | some f ↦ some (flawed f) ];
      exists_in_pool = elim listed [ none ↦ false | some st ↦ true ];
      pool_status = elim listed [
        | some st ↦ normalize_status st
        | none ↦ elim flaw [ none ↦ codes "unknown" | some f ↦ codes "invalid" ]
      ];
    }

-- `names` are the files that `Glob` finds for `*.json` in the directory.
unfoldable pub collect_pool_file_records :
    StringMap Text → (Text → FileContent) → List Text → List PoolFileRecord
unfolding record_of
collect_pool_file_records index files [] = []
collect_pool_file_records index files (name ∷ names) =
    record_of index name (files name) ∷ collect_pool_file_records index files names

abbrev pub is_among : Text → List Text → Bool
is_among name [] = false
is_among name (n ∷ ns) = eqb n name || is_among name ns

unfoldable pub contains_ignore_case : Text → Text → Bool
unfolding trim_space contains
contains_ignore_case haystack needle =
    if null (trim_space needle)
    then true
    else contains (to_lower haystack) (to_lower (trim_space needle))

unfoldable pub match_state : Text → Text → Bool
unfolding is_active_status eqb
match_state status state =
    if eqb state (codes "active")
    then is_active_status status
    else if eqb state (codes "invalid")
    then not (is_active_status status)
    else true

-- An empty filter lets every status through.
unfoldable pub contains_status : List Text → Text → Bool
unfolding normalize_status
contains_status filter status =
    if null filter then true else is_among (normalize_status status) filter

unfoldable pub filter_pool_file_records :
    List PoolFileRecord → Text → List Text → Text → List PoolFileRecord
unfolding match_state contains_status contains_ignore_case normalize_status
filter_pool_file_records [] state filter q = []
filter_pool_file_records (rec ∷ recs) state filter q =
    let status = normalize_status rec.pool_status in
    let rest = filter_pool_file_records recs state filter q in
    if match_state status state
      && contains_status filter status
      && (contains_ignore_case rec.file_name q || contains_ignore_case rec.account_email q)
    then rec ∷ rest
    else rest

-- The page of the list and its length. `none` is the panic of a slice from a negative index: the
-- product of the parameters is a signed number of 64 bits.
unfoldable pub paginate_pool_file_views {ℓ} : {A : Type ℓ} → List A → ℕ → ℕ → Option (List A × ℕ)
unfolding int64
paginate_pool_file_views items page size =
    let total = length items in
    if total == 0 then some ([], 0) else elim (int64 ((page - 1) * size % 2 ^ 64)) [
      | negsuc n ↦ none
      | pos start ↦
          if leb total start
          then some ([], total)
          else some (take (min (start + size) total - start) (drop start items), total)
    ]

abbrev pub last_of : Text → Text
last_of s = take 1 (reverse s)

-- An address in ASCII, without white space around it. `none` is the panic of `local[:1]` on an empty
-- text.
unfoldable pub mask_trimmed : Text → Option Text
unfolding split_on
mask_trimmed email =
    let whole =
      if leb (length email) 3 then codes "***" else take 1 email ++ codes "***" ++ last_of email in
    elim (split_on b'@' email) [
      | local ∷ domain ∷ [] ↦
          if null local
          then none
          else if leb (length local) 2
          then some (take 1 local ++ codes "***" ++ b'@' ∷ domain)
          else some (take 1 local ++ codes "***" ++ last_of local ++ b'@' ∷ domain)
      | _ ↦ some whole
    ]

unfoldable pub mask_email : Text → Option Text
unfolding mask_trimmed trim_space
mask_email email = mask_trimmed (trim_space email)
