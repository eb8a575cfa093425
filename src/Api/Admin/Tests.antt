-- ===== src/Api/Admin/Tests.antt =====
-- Runs of the administrator's lists of src/main.go, and the theorems at concrete inputs.
use business2api.Base.{ℕ, ◌*◌, ◌≡◌, refl, true, List, [], ◌∷◌, some, take, if◌then◌else◌, arith}
use business2api.Text.{Text, codes, eqb, trim_space, lower_ascii}
use business2api.Pool.Account.{AccountData}
use business2api.Pool.Load.{missing_email, validate_account_data}
use business2api.Pool.Samples.{data_of}
use business2api.Api.Admin.{
  FileContent, parsed, no_stat, collect_pool_file_records, paginate_pool_file_views, mask_email,
}
use business2api.Api.Admin.Deletion.{deleted, delete_invalid_execute, is_plain_json}
use business2api.Api.Admin.Paging.{first_pages, paginate_pool_file_views-take}
use business2api.Api.Admin.Credentials.{delete_invalid_execute-flawed}

abbrev three : List ℕ
three = 1 ∷ 2 ∷ 3 ∷ []

second_page : paginate_pool_file_views three 2 2 ≡ some (3 ∷ [], 3)
unfolding paginate_pool_file_views
second_page = refl

paginate_pool_file_views-take_example : first_pages three 2 2 ≡ some (take (2 * 2) three)
paginate_pool_file_views-take_example = paginate_pool_file_views-take three 2 2 (omega arith)

masked : mask_email (codes "abcd@x.y") ≡ some (codes "a***d@x.y")
unfolding mask_email
masked = refl

abbrev panel_file : Text
panel_file = codes "admin_panel_auth.json"

-- The file of the credentials has none of an account's fields.
abbrev no_account : AccountData
no_account = record (data_of []) { cookies = []; cookie_string = []; authorization = [] }

abbrev disk : Text → FileContent
disk name = if eqb name panel_file then parsed no_account else parsed (data_of (codes "a"))

abbrev disk_names : List Text
disk_names = codes "a.json" ∷ panel_file ∷ []

delete_invalid_execute-flawed_example :
    let records = collect_pool_file_records [] disk disk_names in
    (after : Text → FileContent) × (delete_invalid_execute
        (λ name. true)
        true
        true
        records
        (panel_file ∷ [])
        disk
      ≡ deleted after)
    × (after panel_file ≡ no_stat)
unfolding is_plain_json validate_account_data eqb trim_space lower_ascii
delete_invalid_execute-flawed_example =
    delete_invalid_execute-flawed (λ name. true) true true [] disk disk_names panel_file no_account
      missing_email refl refl refl refl refl refl
