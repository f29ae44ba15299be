-- ===== src/Tests/Teams.antt =====
-- The theorem on the members of projects, applied.
use rooeel_backend_api.Text.{
  to_upper_case, upper, trim, trim_start, trim_end, cons_trimmed, is_space, includes, text_eq,
}
use rooeel_backend_api.Access.{
  can_edit, normalize_resource, aliases, allowed_policy_resources, default_user_view_resources,
  project_field_resources, hardcoded_task_resources, hardcoded_view_only_resources, can_access,
  flag,
}
use rooeel_backend_api.Access.Effective.{get_access_map_for_project_user}
use rooeel_backend_api.Access.Policy.{
  alias_of, is_hardcoded_task_resource, is_hardcoded_view_only_resource, normalize_policy_resource,
  build_policy_flags,
}
use rooeel_backend_api.Project.Departments.{set_department_role_policy}
use rooeel_backend_api.Project.Policies.{ArePolicies, set_department_role_policy-can_access}
use rooeel_backend_api.Schema.{Flags, DepartmentRolePolicy}
use rooeel_backend_api.Prelude.{false, true, ◌≡◌}
use rooeel_backend_api.Prelude.{none, some, List, [], ◌∷◌, refl}
use rooeel_backend_api.Text.{codes}
use rooeel_backend_api.Prisma.Memory.{memory, no_rows}
use rooeel_backend_api.Schema.{Project, ProjectUser}
use rooeel_backend_api.World.{World, Team}
use rooeel_backend_api.Project.Calls.{TeamCall, run_team_calls, run_team_calls-IsPlaced}
use rooeel_backend_api.Project.Placement.{IsPlaced, put_member-IsPlaced}
use rooeel_backend_api.Tests.Samples.{accounts}

-- The departments 1 and 2, the role 1 of the first, and Ann and Bob in the project 1.
abbrev empty_team : Team memory
empty_team = record {
  departments =
      memory.put (memory.put no_rows 1 (record { project_id = 1; name = codes "Site" })) 2
        (record { project_id = 1; name = codes "Office" });
  department_roles = memory.put no_rows 1 (record { department_id = 1; name = codes "Lead" });
  policies = no_rows;
  roles = no_rows;
  permissions = no_rows;
  members = no_rows;
}

abbrev pub ann_in_site : ProjectUser
ann_in_site = record {
  project_id = 1;
  user_id = 1;
  project_role_id = none;
  department_id = some 1;
  department_role_id = some 1;
}

abbrev pub team : Team memory
team = record empty_team { members = memory.put no_rows 1 ann_in_site }

abbrev pub plant : Project
plant = record {
  name = "Plant";
  description = none;
  image = none;
  status = "active";
  created_by = 7;
}

abbrev pub world : World memory
world = record {
  accounts = accounts;
  team = team;
  content = record {
    projects = memory.put no_rows 1 plant;
    work_orders = no_rows;
    fields = no_rows;
    field_values = no_rows;
    tasks = no_rows;
    subtasks = no_rows;
  };
}

team-IsPlaced : IsPlaced memory team
team-IsPlaced = put_member-IsPlaced memory empty_team (λ i m e. cc) 1 ann_in_site refl

abbrev calls : List TeamCall
calls =
    TeamCall.assign 1 2
    ∷ TeamCall.give_department_role 1 2 1
    ∷ TeamCall.move 1 1 2
    ∷ TeamCall.drop_department 1
    ∷ []

run_team_calls-IsPlaced_example : IsPlaced memory (run_team_calls memory calls world).team
run_team_calls-IsPlaced_example = run_team_calls-IsPlaced memory calls world team-IsPlaced

-- The lead may edit the members of the site.
abbrev lead_flags : Flags
lead_flags = record { can_view = true; can_create = false; can_edit = true; can_delete = false }

abbrev with_policy : World memory
with_policy = (set_department_role_policy memory 1 (codes "task") lead_flags world).1

abbrev lead_policy : DepartmentRolePolicy
lead_policy = record { department_role_id = 1; resource = codes "TASK"; flags = lead_flags }

pub no_policies : ArePolicies memory no_rows
no_policies = record { alone = λ i j a b hi hj role name. cc; allowed = λ i a hi. cc }

set_department_role_policy-can_access_example :
    can_access
      (get_access_map_for_project_user memory ann_in_site with_policy.team)
      (normalize_policy_resource (codes "task"))
      can_edit
    ≡ flag (build_policy_flags (normalize_policy_resource (codes "task")) lead_flags) can_edit
unfolding set_department_role_policy normalize_policy_resource alias_of aliases normalize_resource
    to_upper_case upper trim trim_start trim_end cons_trimmed is_space includes text_eq
    allowed_policy_resources default_user_view_resources project_field_resources
    hardcoded_task_resources hardcoded_view_only_resources build_policy_flags
    is_hardcoded_task_resource is_hardcoded_view_only_resource
set_department_role_policy-can_access_example =
    set_department_role_policy-can_access memory 1 (codes "task") lead_flags lead_policy world
      with_policy ann_in_site can_edit no_policies refl refl
