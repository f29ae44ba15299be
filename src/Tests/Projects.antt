-- ===== src/Tests/Projects.antt =====
-- A project with one task, and the store of its files.
use rooeel_backend_api.Prelude.{
  ℕ, true, Option, none, some, [], err, not_found, ◌≡◌, refl, arith, ◌↔◌, In,
}
use rooeel_backend_api.Text.{codes}
use rooeel_backend_api.Text.{
  trim, trim_start, trim_end, is_space, cons_trimmed, text_eq, to_upper_case, upper, to_lower_case,
  lower, includes,
}
use rooeel_backend_api.Prisma.Memory.{memory, no_rows}
use rooeel_backend_api.Schema.{ProjectUser, Task, Role, Json, num, obj, field, end}
use rooeel_backend_api.World.{World}
use rooeel_backend_api.Json.{JsonHost, parse_json_like, field_of, put_field, serialize_json}
use rooeel_backend_api.Storage.{ObjectStore}
use rooeel_backend_api.Access.{
  put_entry, entry, set_access, merge_access, can_access, can_perform_task_resource_action,
  has_policy_for_any_resource, normalize_resource, hardcoded_task_resources,
  default_user_view_resources,
}
use rooeel_backend_api.Access.Effective.{
  get_access_map_for_project_user, build_access_map, set_all, set_missing, merge_all, grant_views,
  fill_missing,
}
use rooeel_backend_api.Project.Tasks.Resource.{
  after_prefix, match_resource, resource_of_fields, resource_of_schema, resolve_task_resource,
  resolve_task_creator_id, serialize_task, get_project_user_context,
}
use rooeel_backend_api.Project.Tasks.Handlers.{
  Viewer, CreateTask, UpdateTask, new_task, with_creator, apply_task, view_of, get_tasks,
  create_task, insert_task, update_task, save_task,
}
use rooeel_backend_api.Project.Tasks.Authorization.{IsAuthorised, update_task-IsAuthorised}
use rooeel_backend_api.Project.Tasks.Creation.{IsCreated, create_task-IsCreated}
use rooeel_backend_api.Project.Tasks.Listing.{IsVisible, get_tasks_exact}
use rooeel_backend_api.Project.View.{
  find_one, sign_orders, with_work_orders, apply_viewer_policy_on_project, read_project,
}
use rooeel_backend_api.Project.View.Filter.{
  IsMember, IsFiltered, find_one_hides, find_one-IsFiltered,
}
use rooeel_backend_api.Tests.Teams.{world, plant, ann_in_site}
use rooeel_backend_api.Tests.Guards.{world_with_policy}

abbrev number_of_json : Json → Option ℕ
number_of_json (num n) = some n
number_of_json _ = none

abbrev pub plain_host : JsonHost
plain_host = record {
  parse = λ t. none;
  stringify = λ j. [];
  text_of = λ j. [];
  number_of = number_of_json;
  number_of-num = λ n. refl;
}

-- Ann made the task and is to do it.
abbrev pub inspection : Task
inspection = record {
  project_id = 1;
  department_id = some 1;
  title = "Inspection";
  description = none;
  status = codes "pending";
  kind = codes "basic";
  form_schema = some (obj (field (codes "createdBy") (num 1) end));
  submission_data = none;
  assigned_to = some 1;
}

abbrev pub ann_viewer : Viewer
ann_viewer = record { user_id = 1; role = Role.user }

abbrev pub site : World memory
site = record world_with_policy {
  content = record world.content { tasks = memory.put no_rows 1 inspection };
}

abbrev pub plain_store : ObjectStore
plain_store = record {
  now = 0;
  takes = λ key. true;
  drops = λ key. true;
  signs = λ now life key name. some key;
  reads = λ key. some key;
}

abbrev pub bob_viewer : Viewer
bob_viewer = record { user_id = 2; role = Role.user }

abbrev finish : UpdateTask
finish = record {
  title = none;
  description = none;
  status = some (codes "done");
  assigned_to = none;
  submission_data = none;
}

abbrev finished : Task
finished = record inspection { status = codes "done" }

abbrev finished_site : World memory
finished_site = record site {
  content = record site.content { tasks = memory.put site.content.tasks 1 finished };
}

update_task-IsAuthorised_example :
    IsAuthorised memory plain_host 1 finish ann_viewer site finished_site
unfolding update_task save_task apply_task get_project_user_context get_access_map_for_project_user
    build_access_map set_all set_missing merge_all grant_views fill_missing set_access merge_access
    put_entry entry can_perform_task_resource_action can_access has_policy_for_any_resource
    normalize_resource resolve_task_resource resource_of_schema resource_of_fields
    resolve_task_creator_id parse_json_like field_of match_resource after_prefix to_upper_case upper
    to_lower_case lower trim trim_start trim_end is_space cons_trimmed text_eq serialize_task
    serialize_json hardcoded_task_resources default_user_view_resources includes
update_task-IsAuthorised_example =
    update_task-IsAuthorised memory plain_host 1 finish ann_viewer site finished_site
      (view_of memory plain_host finished_site (1, finished)) refl refl

abbrev survey : CreateTask
survey = record {
  title = "Survey";
  description = none;
  department_id = some 1;
  assigned_to = none;
  kind = some (codes "basic");
  form_schema = none;
}

abbrev boss : Viewer
boss = record { user_id = 7; role = Role.admin }

abbrev surveyed : Task
surveyed = new_task 1 survey (with_creator (some 7) none) (some 1) none

abbrev surveyed_site : World memory
surveyed_site = record site {
  content = record site.content { tasks = memory.put site.content.tasks 2 surveyed };
}

create_task-IsCreated_example : IsCreated memory plain_host 1 survey boss 2 site surveyed_site
unfolding create_task insert_task parse_json_like put_field text_eq serialize_task serialize_json
create_task-IsCreated_example =
    create_task-IsCreated memory plain_host 1 survey boss 2 (serialize_task plain_host surveyed [])
      site surveyed_site (λ e. cc) refl

get_tasks_exact_example :
    In
      (view_of memory plain_host site (1, inspection))
      (get_tasks memory plain_host 1 none (some ann_viewer) site)
    ↔ ((i : ℕ) × (t : Task) × (memory.row site.content.tasks i ≡ some t)
        × IsVisible memory plain_host 1 none 1 ann_in_site t site
        × (view_of memory plain_host site (i, t) ≡ view_of memory plain_host site (1, inspection)))
get_tasks_exact_example =
    get_tasks_exact memory plain_host 1 none ann_viewer site 1 ann_in_site refl refl
      (view_of memory plain_host site (1, inspection))

outsider :
    (i : ℕ) (m : ProjectUser)
    → memory.row site.team.members i ≡ some m
    → IsMember memory plain_host plain_store 1 bob_viewer site m
    → ⊥
outsider i m at (of_project, of_bob) = ground (arith, memory.row-put no_rows 1 ann_in_site i)

find_one_hides_example :
    find_one memory plain_host plain_store 1 (some bob_viewer) site
    ≡ (err (not_found "Project with ID not found"), site)
find_one_hides_example =
    find_one_hides memory plain_host plain_store 1 bob_viewer site refl outsider

find_one-IsFiltered_example :
    (i : ℕ) × (m : ProjectUser) × (memory.row site.team.members i ≡ some m)
    × IsMember memory plain_host plain_store 1 ann_viewer site m
    × IsFiltered memory plain_host plain_store 1 ann_viewer site m (
        with_work_orders
          (apply_viewer_policy_on_project memory plain_host
            (read_project memory site 1 plant)
            1
            site.team)
          [])
unfolding find_one sign_orders can_access get_access_map_for_project_user hardcoded_task_resources
    normalize_resource to_upper_case trim trim_end trim_start is_space cons_trimmed text_eq upper
find_one-IsFiltered_example =
    find_one-IsFiltered memory plain_host plain_store 1 ann_viewer site site
      (with_work_orders
        (apply_viewer_policy_on_project memory plain_host (read_project memory site 1 plant) 1
          site.team)
        [])
      refl refl
