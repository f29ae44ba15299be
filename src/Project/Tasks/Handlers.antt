-- ===== src/Project/Tasks/Handlers.antt =====
-- `getTasks`, `createTask`, `updateTask` and `removeTask`, and `getUserPermission`.
use rooeel_backend_api.Prelude.{
  ℕ, ◌==◌, ◌&&◌, ◌||◌, not, String, Bool, true, false, Option, none, some, List, [], map,
  if◌then◌else◌, or_maybe, or_else, Action, ok, err, ◌>>=◌, ◌>>◌, pure, throw_if, forbidden,
  invalid_data, is_some, is_id, truthy, keep,
}
use rooeel_backend_api.Text.{Text, codes, text_eq, to_lower_case}
use rooeel_backend_api.Prisma.{Engine, find_by_id_or_throw, create, update}
use rooeel_backend_api.Schema.{
  Json, null, num, str, obj, Fields, end, Role, is_admin, Task, SubTask, Permission, ProjectUser,
}
use rooeel_backend_api.World.{World, projects, tasks, departments, delete_tasks}
use rooeel_backend_api.Json.{JsonHost, put_field, object_of, parse_json_like}
use rooeel_backend_api.Access
use rooeel_backend_api.Access.{
  AccessMap, can_view, can_create, can_edit, can_delete, can_perform_task_resource_action,
}
use rooeel_backend_api.Project.Lookup.{referenced, member_of}
use rooeel_backend_api.Project.Members.{user_exists}
use rooeel_backend_api.Project.Tasks.Resource.{
  TaskView, resolve_task_resource, resolve_task_creator_id, serialize_task,
  get_project_user_context,
}

-- `viewer`: the user of the request.
pub record Viewer : Type 0 where
  pub user_id : ℕ
  pub role : Role

-- Whom the checks are for: `viewer && viewer.role !== 'admin'`.
abbrev pub restricted : Option Viewer → Option ℕ
restricted none = none
restricted (some v) = if is_admin v.role then none else some v.user_id

pub record CreateTask : Type 0 where
  pub title : String
  pub description : Option String
  pub department_id : Option ℕ
  pub assigned_to : Option ℕ
  pub kind : Option Text
  pub form_schema : Option Text

-- `UpdateTaskInput`: every field may be left out, and a column that may be empty can be set to
-- `null`, which is `some none`.
pub record UpdateTask : Type 0 where
  pub title : Option String
  pub description : Option (Option String)
  pub status : Option Text
  pub assigned_to : Option (Option ℕ)
  pub submission_data : Option Text

abbrev pub json_text : Option Text → Option Json
json_text none = none
json_text (some s) = some (str s)

abbrev pub is_null : Option Json → Bool
is_null (some null) = true
is_null _ = false

-- The form of a new task with its creator: `viewer?.userId` decides, and 0 counts as absent.
abbrev pub form_with_creator : ℕ → Option Fields → Fields
form_with_creator id none = put_field (codes "createdBy") (num id) end
form_with_creator id (some fs) = put_field (codes "createdBy") (num id) fs

abbrev pub with_creator : Option ℕ → Option Json → Option Json
with_creator none schema = schema
with_creator (some id) schema = some (obj (form_with_creator id (object_of schema)))

abbrev pub viewer_id : Option Viewer → Option ℕ
viewer_id none = none
viewer_id (some v) = truthy (some v.user_id)

-- The row of a new task, with the form and with the department and the assignee that it gets.
abbrev pub new_task : ℕ → CreateTask → Option Json → Option ℕ → Option ℕ → Task
new_task project_id dto schema department assignee = record {
  project_id = project_id;
  department_id = department;
  title = dto.title;
  description = dto.description;
  status = codes "pending";
  kind = or_else dto.kind (codes "basic");
  form_schema = schema;
  submission_data = none;
  assigned_to = assignee;
}

-- The data of an update.
unfoldable pub apply_task : UpdateTask → Option Json → Task → Task
apply_task dto submission t = record t {
  title = or_else dto.title t.title;
  description = or_else dto.description t.description;
  status = or_else dto.status t.status;
  assigned_to = or_else dto.assigned_to t.assigned_to;
  submission_data = or_maybe submission t.submission_data;
}

-- `(data.status || '').toLowerCase() === 'done'`
abbrev pub is_done : Option Text → Bool
is_done status = text_eq (to_lower_case (or_else status [])) (codes "done")

-- Whether a task stands in the department of the query, or in the scope of its viewer.
abbrev pub in_department : Option ℕ → Task → Bool
in_department none t = true
in_department (some d) t = is_id t.department_id d

abbrev pub in_viewer_scope : Option ℕ → Option ℕ → ℕ → Task → Bool
in_viewer_scope none (some own) viewer t =
    is_id t.department_id own || not (is_some t.department_id) || is_id t.assigned_to viewer
in_viewer_scope none none viewer t = true
in_viewer_scope (some d) own viewer t = true

abbrev pub other_department : Option ℕ → Option ℕ → Bool
other_department (some d) (some own) = not (d == own)
other_department _ _ = false

abbrev pub user_given : {db : Engine} → Option ℕ → Action (World db) (Unit {0})
user_given none = pure tt
user_given {db} (some id) = user_exists db id

abbrev pub assignee_given : {db : Engine} → Option (Option ℕ) → Action (World db) (Unit {0})
assignee_given none = pure tt
assignee_given (some a) = user_given a

module _ (db : Engine) where
  abbrev pub department_given : Option ℕ → Action (World db) (Unit {0})
  department_given none = pure tt
  department_given (some d) = do referenced db (departments db) d; pure tt

  abbrev pub subtasks_of : ℕ → World db → List (ℕ × SubTask)
  subtasks_of id w = db.find_all w.content.subtasks (λ i s. s.task_id == id)

module _ (db : Engine) (host : JsonHost) where
  abbrev pub resource_of : Task → Text
  resource_of t = resolve_task_resource host (some t.kind) t.form_schema

  abbrev pub view_of : World db → ℕ × Task → ℕ × TaskView
  view_of w (i, t) = (i, serialize_task host t (subtasks_of db i w))

  abbrev pub answer_task : ℕ → Task → Action (World db) (ℕ × TaskView)
  answer_task id t w = (ok (view_of w (id, t)), w)

  abbrev pub all_tasks : ℕ → Option ℕ → World db → List (ℕ × Task)
  all_tasks project_id department_id w =
      db.find_all w.content.tasks
        (λ i t. t.project_id == project_id && in_department department_id t)

  -- The order of the answer, by `createdAt`, is left out.
  abbrev pub tasks_for : ℕ → Option ℕ → ℕ → ProjectUser × AccessMap → World db → List (ℕ × Task)
  tasks_for project_id department_id viewer (m, access_map) w =
      if other_department department_id (truthy m.department_id)
      then []
      else keep (λ x. can_perform_task_resource_action access_map (resource_of x.1) can_view)
          (db.find_all w.content.tasks (λ i t.
            t.project_id == project_id
            && in_viewer_scope department_id (truthy m.department_id) viewer t
            && in_department department_id t))

  -- A query changes nothing.
  unfoldable pub get_tasks : ℕ → Option ℕ → Option Viewer → World db → List (ℕ × TaskView)
  unfolding get_project_user_context
  get_tasks project_id department_id viewer w = elim (restricted viewer) [
    | none ↦ map (view_of w) (all_tasks project_id (truthy department_id) w)
    | some v ↦ elim (get_project_user_context db project_id v w) [
      | none ↦ []
      | some c ↦ map (view_of w) (tasks_for project_id (truthy department_id) v c w)
    ]
  ]

  -- The member for whom the checks are made; `none` if there are none to make.
  abbrev pub context_of : ℕ → Option Viewer → Action (World db) (Option (ProjectUser × AccessMap))
  context_of project_id viewer w = elim (restricted viewer) [
    | none ↦ (ok none, w)
    | some v ↦ elim (get_project_user_context db project_id v w) [
      | none ↦ (err (forbidden "You are not assigned to this project"), w)
      | some c ↦ (ok (some c), w)
    ]
  ]

  abbrev pub denies : Access.Action → Text → Option (ProjectUser × AccessMap) → Bool
  denies a resource none = false
  denies a resource (some (m, access_map)) =
      not (can_perform_task_resource_action access_map resource a)

  abbrev pub own_department : Option (ProjectUser × AccessMap) → Option ℕ
  own_department none = none
  own_department (some (m, access_map)) = m.department_id

  -- The insertion of a new task, once it is allowed.
  unfoldable pub insert_task : Task → Action (World db) (ℕ × TaskView)
  insert_task t = do
    throw_if (is_null t.form_schema) invalid_data
    referenced db (projects db) t.project_id
    department_given db t.department_id
    user_given t.assigned_to
    made ← create db (tasks db) none t
    answer_task made.0 made.1

  unfoldable pub create_task : ℕ → CreateTask → Option Viewer → Action (World db) (ℕ × TaskView)
  create_task project_id dto viewer = do
    context ← context_of project_id viewer
    throw_if
        (denies can_create (resolve_task_resource host dto.kind (json_text dto.form_schema))
          context)
        (forbidden "You do not have create access for the resource")
    insert_task (
        new_task project_id dto
          (with_creator (viewer_id viewer) (parse_json_like host (json_text dto.form_schema)))
          (or_maybe dto.department_id (own_department context))
          (or_maybe dto.assigned_to (restricted viewer)))

  -- Whether a viewer who is restricted is not the creator of the task.
  abbrev pub is_foreign : Task → Option ℕ → Bool
  is_foreign t none = false
  is_foreign t (some v) = not (is_id (resolve_task_creator_id host t.form_schema) v)

  -- `isAssignedWorker && !changesDefinitionOrDelegation`
  abbrev pub reports_own : Task → UpdateTask → Option ℕ → Bool
  reports_own t dto none = true
  reports_own t dto (some v) =
      is_id t.assigned_to v
      && not (is_some dto.title || is_some dto.description || is_some dto.assigned_to)

  -- The write of an update, once it is allowed.
  unfoldable pub save_task : ℕ → UpdateTask → Option Json → Action (World db) (ℕ × TaskView)
  save_task id dto submission = do
    throw_if (is_null submission) invalid_data
    assignee_given dto.assigned_to
    written ← update db (tasks db) none id (apply_task dto submission)
    answer_task id written

  unfoldable pub update_task : ℕ → UpdateTask → Option Viewer → Action (World db) (ℕ × TaskView)
  update_task id dto viewer = do
    t ← find_by_id_or_throw db (tasks db) id
    context ← context_of t.project_id viewer
    throw_if (is_some dto.assigned_to && is_foreign t (restricted viewer))
        (forbidden "Only the task creator can delegate this task")
    throw_if (is_done dto.status && is_foreign t (restricted viewer))
        (forbidden "Only the task creator can validate task completion")
    throw_if
        (denies can_edit (resource_of t) context && not (reports_own t dto (restricted viewer)))
        (forbidden "You do not have edit access for the resource")
    save_task id dto (parse_json_like host (json_text dto.submission_data))

  unfoldable pub remove_task : ℕ → Option Viewer → Action (World db) (Unit {0})
  unfolding delete_tasks
  remove_task id viewer = do
    t ← find_by_id_or_throw db (tasks db) id
    context ← context_of t.project_id viewer
    throw_if (denies can_delete (resource_of t) context)
        (forbidden "You do not have delete access for the resource")
    λ w. (ok tt, record w { content = delete_tasks db (λ i. id == i) w.content })

module _ (db : Engine) where
  abbrev scoped_permission : ℕ → Text → Option ℕ → World db → Option (ℕ × Permission)
  scoped_permission role resource none w = none
  scoped_permission role resource (some d) w =
      db.find w.team.permissions
        (λ i p. p.project_role_id == role && text_eq p.resource resource && is_id p.department_id d)

  -- The row for the department if there is one, else the row for the whole project. It looks the
  -- resource up as it is given.
  unfoldable pub get_user_permission : ℕ → ℕ → Text → Option ℕ → World db → Option (ℕ × Permission)
  get_user_permission user_id project_id resource department_id w =
      elim (db.find w.team.members (member_of db project_id user_id)) [
        | none ↦ none
        | some (i, m) ↦ elim (truthy m.project_role_id) [
          | none ↦ none
          | some role ↦ or_maybe (scoped_permission role resource (truthy department_id) w) (
              db.find w.team.permissions (λ i p.
                p.project_role_id == role
                && text_eq p.resource resource
                && not (is_some p.department_id)))
        ]
      ]
