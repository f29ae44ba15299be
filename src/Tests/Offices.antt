-- ===== src/Tests/Offices.antt =====
-- The theorems on work orders, on the interface and on the environment, applied.
use rooeel_backend_api.Prelude.{
  false, inl, none, some, List, [], ◌∷◌, if◌then◌else◌, ◌≡◌, refl, arith, ◌↔◌,
}
use rooeel_backend_api.Text.{Text, codes}
use rooeel_backend_api.Prelude.{All}
use rooeel_backend_api.Text.{
  trim, trim_start, trim_end, is_space, cons_trimmed, text_eq, to_lower_case, lower, includes,
}
use rooeel_backend_api.Prisma.Memory.{memory}
use rooeel_backend_api.Prelude.{ok, err, not_found, ◌==◌}
use rooeel_backend_api.Schema.{WorkOrderPdf}
use rooeel_backend_api.Storage.{ObjectStore, key_of_file, last_part_from}
use rooeel_backend_api.Project.WorkOrders.Viewing.{upload_work_order-view}
use rooeel_backend_api.Project.WorkOrders.{
  get_work_order_for_viewing, get_work_order_view_url, Office, Upload, upload_work_order,
  delete_work_order,
}
use rooeel_backend_api.Project.WorkOrders.Names.{display_name, is_word}
use rooeel_backend_api.Project.WorkOrders.Safety.{IsPlain as IsPlainText, display_name-IsPlain}
use rooeel_backend_api.Project.WorkOrders.Backing.{
  IsOfficeBacked, upload, drop, here, next, Reach-IsBacked,
}
use rooeel_backend_api.Project.Rights.{kept}
use rooeel_backend_api.Api.Cookies.{
  Cookie, IsCookie, extract_refresh_token_from_cookies, extract-header_of,
}
use rooeel_backend_api.Api.Guards.{Caller}
use rooeel_backend_api.Api.Guards.Refusal.{IsPlain}
use rooeel_backend_api.Api.Projects.{content, unassign_user_from_project}
use rooeel_backend_api.Api.Projects.Serve.{serve}
use rooeel_backend_api.Api.Projects.Safety.{serve_keeps_rights}
use rooeel_backend_api.Api.Accounts.{of_users, change_my_password}
use rooeel_backend_api.Api.Accounts.Serve as Accounts
use rooeel_backend_api.Api.Accounts.Serve.{Drawn}
use rooeel_backend_api.Api.Accounts.Safety.{IsOther, spared, serve_spares_others}
use rooeel_backend_api.Environment.{Env, validate_env, valid}
use rooeel_backend_api.Environment.Contract.{IsComplete, validate_env_iff}
use rooeel_backend_api.Environment.Credentials.{HasCredentials, accepted-HasCredentials}
use rooeel_backend_api.Tests.Samples.{plain_services, plain_tokens}
use rooeel_backend_api.Tests.Projects.{plain_host, plain_store, site}

abbrev date_text : Text
date_text = codes "26 Nov 2026"

display_name-IsPlain_example :
    All IsPlainText (display_name (some (codes "a/b\"c")) (codes "scan.pdf") date_text)
unfolding is_word
display_name-IsPlain_example =
    display_name-IsPlain (some (codes "a/b\"c")) (codes "scan.pdf") date_text (ground arith)

abbrev office : Office memory
office = record { world = site; files = [] }

abbrev scan : Upload
scan = record { original_name = codes "scan.pdf"; name = none; uuid = codes "u"; date = date_text }

office-IsBacked : IsOfficeBacked memory [] office
office-IsBacked = record { backed = λ i r at. cc; unique = λ i j a b hi hj e. cc }

abbrev with_scan : Office memory
with_scan = (upload_work_order memory plain_store 1 7 scan office).1

-- The database fails at the deletion.
abbrev cut_short : Office memory
cut_short = (delete_work_order memory plain_store 1 false with_scan).1

Reach-IsBacked_example : IsOfficeBacked memory (1 ∷ []) cut_short
Reach-IsBacked_example =
    Reach-IsBacked memory office cut_short (1 ∷ [])
      (next (next here (upload plain_store 1 7 scan (λ i r at. cc))) (drop plain_store 1 false))
      office-IsBacked

-- The store an hour later.
abbrev later_store : ObjectStore
later_store = record plain_store { now = 3600 }

abbrev scanned : WorkOrderPdf
scanned = record {
  project_id = 1;
  file_key = key_of_file (codes "work-orders") scan.uuid scan.original_name;
  file_name = display_name scan.name scan.original_name scan.date;
  uploaded_by = 7;
}

upload_work_order-view_example :
    (plain_store.signs 0 900 scanned.file_key scanned.file_name ≡ some scanned.file_key)
    × (get_work_order_for_viewing memory later_store 2 1 with_scan.world ≡ (
        if 2 == 1
        then (ok (scanned.file_key, scanned.file_name), with_scan.world)
        else (err (not_found "Work order not found in project"), with_scan.world)))
    × (get_work_order_view_url memory later_store 2 1 with_scan.world ≡ (
        if 2 == 1
        then (ok (scanned.file_name, scanned.file_key), with_scan.world)
        else (err (not_found "Work order not found in project"), with_scan.world)))
unfolding upload_work_order key_of_file last_part_from
upload_work_order-view_example =
    upload_work_order-view memory plain_store 1 7 scan 1 scanned scanned.file_key office with_scan
      refl later_store 2 scanned.file_key scanned.file_key refl refl

-- Ann's token.
abbrev ann_calls : Caller
ann_calls = record { now = 0; bearer = some "token" }

ann-IsPlain : IsPlain plain_tokens ann_calls
ann-IsPlain token payload given verified = ground arith

serve_keeps_rights_example :
    kept memory
      (serve memory plain_host plain_store plain_tokens ann_calls
        (content (unassign_user_from_project 1 2))
        office).1.world
    ≡ kept memory site
serve_keeps_rights_example =
    serve_keeps_rights memory plain_host plain_store plain_tokens ann_calls
      (content (unassign_user_from_project 1 2)) office ann-IsPlain

abbrev drawn : Drawn
drawn = record { salt = 1; password = "drawn" }

ann-IsOther : IsOther plain_tokens ann_calls 2
ann-IsOther token payload given verified = (ground arith, ground arith)

serve_spares_others_example :
    spared memory 2
      (Accounts.serve memory plain_services plain_tokens ann_calls drawn
        (of_users (change_my_password "secret" "fresh"))
        site).1.accounts
    ≡ spared memory 2 site.accounts
serve_spares_others_example =
    serve_spares_others memory plain_services plain_tokens ann_calls drawn 2
      (of_users (change_my_password "secret" "fresh")) site ann-IsOther refl

-- Every variable is "true", and the mode is "test".
abbrev full_env : Env
full_env key = if text_eq key (codes "NODE_ENV") then some (codes "test") else some (codes "true")

validate_env_iff_example : (validate_env full_env ≡ valid) ↔ IsComplete full_env
validate_env_iff_example = validate_env_iff full_env

accepted-HasCredentials_example : HasCredentials full_env
unfolding validate_env includes text_eq trim trim_end trim_start is_space cons_trimmed to_lower_case
    lower
accepted-HasCredentials_example = accepted-HasCredentials full_env refl (inl refl)

abbrev cookies : List Cookie
cookies =
    record { name = codes "theme"; value = codes "dark" }
    ∷ record { name = codes "refreshToken"; value = codes "abc" }
    ∷ []

cookies-IsCookie : All IsCookie cookies
unfolding is_space
cookies-IsCookie = (
  record { name_chars = ground arith; value_chars = ground arith },
  (record { name_chars = ground arith; value_chars = ground arith }, tt),
)

extract-header_of_example :
    extract_refresh_token_from_cookies (some (codes "theme=dark; refreshToken=abc"))
    ≡ some (codes "abc")
unfolding text_eq
extract-header_of_example = extract-header_of cookies cookies-IsCookie
