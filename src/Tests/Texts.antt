-- ===== src/Tests/Texts.antt =====
-- The theorems on access maps, applied.
use rooeel_backend_api.Prelude.{true, false, List, [], ◌∷◌, ◌≡◌, refl}
use rooeel_backend_api.Text.{
  codes, trim, trim_end, trim_start, is_space, cons_trimmed, to_upper_case, upper,
}
use rooeel_backend_api.Schema.{Flags}
use rooeel_backend_api.Access.{can_edit, normalize_resource, can_access}
use rooeel_backend_api.Access.Effective.{Grant, build_access_map, view_only}
use rooeel_backend_api.Access.Precedence.{can_access-build_access_map, is_granted}

abbrev edit_tasks : Flags
edit_tasks = record { can_view = true; can_create = false; can_edit = true; can_delete = false }

-- The department role only views tasks, whatever the project role adds.
abbrev policies : List Grant
policies = (codes "TASK", view_only) ∷ []

abbrev permissions : List Grant
permissions = (codes " task", edit_tasks) ∷ (codes "FIELD", edit_tasks) ∷ []

can_access-build_access_map_example :
    can_access (build_access_map policies permissions) (codes "Task ") can_edit
    ≡ is_granted policies permissions (normalize_resource (codes "Task ")) can_edit
unfolding normalize_resource trim trim_end trim_start is_space cons_trimmed to_upper_case upper
can_access-build_access_map_example =
    can_access-build_access_map policies permissions (codes "Task ") can_edit refl
