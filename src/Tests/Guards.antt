-- ===== src/Tests/Guards.antt =====
-- The theorems on the guard of projects, applied.
use rooeel_backend_api.Prelude.{true, none, some, [], ◌∷◌, ◌≡◌, ◌⊎◌, refl}
use rooeel_backend_api.Text.{
  codes, trim, trim_end, trim_start, is_space, cons_trimmed, to_upper_case, upper, text_eq,
  includes,
}
use rooeel_backend_api.Prisma.Memory.{memory, no_rows}
use rooeel_backend_api.Schema.{is_admin, DepartmentRolePolicy}
use rooeel_backend_api.World.{World}
use rooeel_backend_api.Tokens.{Claims}
use rooeel_backend_api.Access.{can_view, can_access, normalize_resource}
use rooeel_backend_api.Access.Effective.{view_only, build_access_map}
use rooeel_backend_api.Access.Precedence.{last_about}
use rooeel_backend_api.Auth.Guard.{Metadata, Args, can_activate, decide}
use rooeel_backend_api.Auth.Guard.Admission.{
  IsAdmitted, is_ok, can_activate-IsAdmitted, decide-can_access,
}
use rooeel_backend_api.Tests.Samples.{plain_tokens}
use rooeel_backend_api.Tests.Teams.{team, world}

abbrev view_tasks : Metadata
view_tasks = record { resource = codes "TASK"; action = can_view }

abbrev in_project_1 : Args
in_project_1 = record {
  project_id = some 1;
  field_id = none;
  work_order_id = none;
  id = none;
  task_id = none;
}

abbrev leads_view_tasks : DepartmentRolePolicy
leads_view_tasks = record { department_role_id = 1; resource = codes "TASK"; flags = view_only }

abbrev pub world_with_policy : World memory
world_with_policy = record world {
  team = record team { policies = memory.put no_rows 1 leads_view_tasks };
}

can_activate-IsAdmitted_example :
    (payload : Claims) × (plain_tokens.verify 0 "token" ≡ some payload)
    × ((is_admin payload.role ≡ true)
        ⊎ IsAdmitted memory view_tasks payload in_project_1 world_with_policy)
unfolding can_activate to_upper_case upper text_eq includes
can_activate-IsAdmitted_example =
    can_activate-IsAdmitted memory plain_tokens 0 "token" view_tasks in_project_1 world_with_policy
      refl

decide-can_access_example :
    is_ok (decide view_tasks (some 1) none (some leads_view_tasks))
    ≡ can_access (build_access_map ((codes "task", view_only) ∷ []) []) (codes "TASK") can_view
unfolding last_about normalize_resource trim trim_end trim_start is_space cons_trimmed to_upper_case
    upper text_eq
decide-can_access_example =
    decide-can_access view_tasks (some 1) none leads_view_tasks ((codes "task", view_only) ∷ []) []
      refl refl refl
