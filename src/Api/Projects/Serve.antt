-- ===== src/Api/Projects/Serve.antt =====
-- The handlers of src/project/project.resolver.ts and src/project/project.controller.ts.
use rooeel_backend_api.Prelude.{ℕ, Option, none, some, Action, ok, err, ◌>>◌, throw}
use rooeel_backend_api.Text.{Text, codes}
use rooeel_backend_api.Prelude.{bad_request}
use rooeel_backend_api.Schema.{WorkOrderPdf}
use rooeel_backend_api.Prisma.{Engine}
use rooeel_backend_api.World.{World, Accounts}
use rooeel_backend_api.Tokens.{Tokens}
use rooeel_backend_api.Json.{JsonHost}
use rooeel_backend_api.Storage.{ObjectStore}
use rooeel_backend_api.Access
use rooeel_backend_api.Auth.Guard
use rooeel_backend_api.Api.Guards.{Caller, as_admin, as_gql_user, as_rest_user}
use rooeel_backend_api.Api.Projects.{
  ProjectCall, ContentCall, content, RoleCall, role, DepartmentCall, department, PermissionCall,
  permission, TaskCall, task, RouteCall, route, create_project, all_projects, my_projects,
  one_project, update_project, remove_project, project_fields, add_project_field,
  remove_project_field, set_field_value, project_users, assign_user_to_project,
  unassign_user_from_project, work_orders, delete_work_order, project_roles, create_project_role,
  update_project_role, remove_project_role, set_user_role, change_user_role, unset_user_role,
  departments, create_department, update_department, remove_department, assign_user_to_department,
  remove_user_from_department, set_user_department_role, unset_user_department_role,
  department_roles, create_department_role, update_department_role, remove_department_role,
  department_role_policies, set_department_role_policy, remove_department_role_policy, permissions,
  set_permission, remove_permission, tasks, create_task, update_task, remove_task, create_sub_task,
  update_sub_task, remove_sub_task, upload_by_rest, delete_by_rest, view_by_rest, Attachment,
  no_file, other_type, pdf,
}
use rooeel_backend_api.Project.Crud
use rooeel_backend_api.Project.View
use rooeel_backend_api.Project.Members
use rooeel_backend_api.Project.Roles
use rooeel_backend_api.Project.Departments
use rooeel_backend_api.Project.WorkOrders
use rooeel_backend_api.Project.WorkOrders.{Office, in_world}
use rooeel_backend_api.Project.Tasks.Handlers
use rooeel_backend_api.Project.Tasks.Handlers.{Viewer}
use rooeel_backend_api.Project.Tasks.Subtasks

abbrev view_action : Access.Action
view_action = Access.can_view

abbrev pub no_args : Guard.Args
no_args = record {
  project_id = none;
  field_id = none;
  work_order_id = none;
  id = none;
  task_id = none;
}

abbrev pub needs : Text → Access.Action → Guard.Metadata
needs resource action = record { resource = resource; action = action }

module _ (db : Engine) (host : JsonHost) (s3 : ObjectStore) (jwt : Tokens) (caller : Caller) where
  abbrev pub accounts_of : Office db → Accounts db
  accounts_of o = o.world.accounts

  module _ {A : Type 0} where
    abbrev pub admin_only : (Viewer → Action (World db) A) → Action (Office db) A
    admin_only run = as_admin db jwt caller accounts_of (λ v. in_world (run v))

    abbrev pub any_user : (Viewer → Action (World db) A) → Action (Office db) A
    any_user run = as_gql_user db jwt caller accounts_of (λ v. in_world (run v))

    abbrev pub reading : (World db → A) → Action (World db) A
    reading f w = (ok (f w), w)

    -- `ProjectPermissionGuard` with `@CheckPermission(…)`
    abbrev pub with_permission :
        Text → Access.Action → Guard.Args → Action (Office db) A → Action (Office db) A
    with_permission resource action args run o =
        elim (Guard.can_activate db jwt caller.now caller.bearer (some (needs resource action)) args
          o.world) [ err e ↦ (err e, o) | ok _ ↦ run o ]

  abbrev pub upload :
      ℕ → ℕ → Option Text → Attachment → Action (Office db) (ℕ × WorkOrderPdf × Text)
  upload project_id admin_id name no_file = throw (bad_request "No file provided")
  upload project_id admin_id name other_type = throw (bad_request "Only PDF files are allowed")
  upload project_id admin_id name (pdf file) =
      WorkOrders.upload_work_order db s3 project_id admin_id (record file { name = name })

  -- The handler of a call behind its guard.
  unfoldable pub serve_content : {A : Type 0} → ContentCall A → Action (Office db) A
  serve_content (create_project input) = admin_only λ v. Crud.create db v.user_id input
  serve_content all_projects = admin_only λ v. Crud.find_all db
  serve_content my_projects = any_user λ v. View.get_user_projects db host s3 v.user_id
  serve_content (one_project id) = any_user λ v. View.find_one db host s3 id (some v)
  serve_content (update_project id input) = admin_only λ v. Crud.update db id input
  serve_content (remove_project id) = admin_only λ v. Crud.remove db id
  serve_content (project_fields p) =
      with_permission (codes "PROJECT_FIELD") view_action (record no_args { project_id = some p })
        (in_world (Crud.get_fields db p))
  serve_content (add_project_field p input) = admin_only λ v. Crud.create_field db p input
  serve_content (remove_project_field f) = admin_only λ v. Crud.delete_field db f
  serve_content (set_field_value p f value) =
      with_permission (codes "PROJECT_FIELD") Access.can_edit
        (record no_args { project_id = some p; field_id = some f })
        (in_world (Crud.set_field_value db p f value))
  serve_content (project_users p) = any_user λ v. Members.get_users db p
  serve_content (assign_user_to_project p u) = admin_only λ v. Members.assign_user db p u
  serve_content (unassign_user_from_project p u) = admin_only λ v. Members.unassign_user db p u
  serve_content (work_orders p) =
      with_permission (codes "WORK_ORDER") view_action (record no_args { project_id = some p })
        (in_world (WorkOrders.get_work_orders db s3 p))
  serve_content (delete_work_order o row_goes) =
      with_permission (codes "WORK_ORDER") Access.can_delete
        (record no_args { work_order_id = some o }) (WorkOrders.delete_work_order db s3 o row_goes)

  unfoldable pub serve_role : {A : Type 0} → RoleCall A → Action (Office db) A
  serve_role (project_roles p) = admin_only λ v. Roles.get_roles db p
  serve_role (create_project_role p name) = admin_only λ v. Roles.create_role db p name
  serve_role (update_project_role r name) = admin_only λ v. Roles.update_role db r name
  serve_role (remove_project_role r) = admin_only λ v. Roles.remove_role db r
  serve_role (set_user_role p u r) = admin_only λ v. Members.set_user_role db p u r
  serve_role (change_user_role p u r) = admin_only λ v. Members.set_user_role db p u r
  serve_role (unset_user_role p u) = admin_only λ v. Members.unset_user_role db p u

  unfoldable pub serve_department : {A : Type 0} → DepartmentCall A → Action (Office db) A
  serve_department (departments p) = any_user λ v. Departments.get_departments db p
  serve_department (create_department p name) =
      admin_only λ v. Departments.create_department db p name
  serve_department (update_department d name) =
      admin_only λ v. Departments.update_department db d name
  serve_department (remove_department d) = admin_only λ v. Departments.remove_department db d
  serve_department (assign_user_to_department p u d) =
      admin_only λ v. Members.assign_user_to_department db p u d
  serve_department (remove_user_from_department p u) =
      admin_only λ v. Members.remove_user_from_department db p u
  serve_department (set_user_department_role p u r) =
      admin_only λ v. Members.set_user_department_role db p u r
  serve_department (unset_user_department_role p u) =
      admin_only λ v. Members.unset_user_department_role db p u
  serve_department (department_roles d) = admin_only λ v. Departments.get_department_roles db d
  serve_department (create_department_role d name) =
      admin_only λ v. Departments.create_department_role db d name
  serve_department (update_department_role r name) =
      admin_only λ v. Departments.update_department_role db r name
  serve_department (remove_department_role r) =
      admin_only λ v. Departments.remove_department_role db r
  serve_department (department_role_policies r) =
      admin_only λ v. Departments.get_department_role_policies db r
  serve_department (set_department_role_policy r resource flags) =
      admin_only λ v. Departments.set_department_role_policy db r resource flags
  serve_department (remove_department_role_policy id) =
      admin_only λ v. Departments.remove_department_role_policy db id

  unfoldable pub serve_permission : {A : Type 0} → PermissionCall A → Action (Office db) A
  serve_permission (permissions r) = admin_only λ v. Roles.get_permissions db r
  serve_permission (set_permission r resource d flags) =
      admin_only λ v. Roles.set_permission db r resource d flags
  serve_permission (remove_permission id) = admin_only λ v. Roles.remove_permission db id

  unfoldable pub serve_task : {A : Type 0} → TaskCall A → Action (Office db) A
  serve_task (tasks p d) = any_user λ v. reading (Handlers.get_tasks db host p d (some v))
  serve_task (create_task p input) = any_user λ v. Handlers.create_task db host p input (some v)
  serve_task (update_task id input) = any_user λ v. Handlers.update_task db host id input (some v)
  serve_task (remove_task id) = any_user λ v. Handlers.remove_task db host id (some v)
  serve_task (create_sub_task task_id input) =
      with_permission (codes "SUBTASK") Access.can_create
        (record no_args { task_id = some task_id })
        (in_world (Subtasks.create_subtask db task_id input))
  serve_task (update_sub_task id input) =
      with_permission (codes "SUBTASK") Access.can_edit (record no_args { id = some id })
        (in_world (Subtasks.update_subtask db id input))
  serve_task (remove_sub_task id) =
      with_permission (codes "SUBTASK") Access.can_delete (record no_args { id = some id })
        (in_world (Subtasks.remove_subtask db id))

  unfoldable pub serve_route : {A : Type 0} → RouteCall A → Action (Office db) A
  serve_route (upload_by_rest p attachment name) =
      as_admin db jwt caller accounts_of (λ v. upload p v.user_id name attachment)
  serve_route (delete_by_rest o row_goes) =
      as_admin db jwt caller accounts_of (λ v. WorkOrders.delete_work_order db s3 o row_goes)
  serve_route (view_by_rest p o) = as_rest_user db jwt caller accounts_of λ v.
      in_world (
        WorkOrders.assert_can_view_work_order db p v
        >> WorkOrders.get_work_order_view_url db s3 p o)

  unfoldable pub serve : {A : Type 0} → ProjectCall A → Action (Office db) A
  unfolding serve_content serve_role serve_department serve_permission serve_task serve_route
  serve (content c) = serve_content c
  serve (role c) = serve_role c
  serve (department c) = serve_department c
  serve (permission c) = serve_permission c
  serve (task c) = serve_task c
  serve (route c) = serve_route c
