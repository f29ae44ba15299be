-- ===== src/Api/Projects/Safety.antt =====
-- Who may change the tables of members, roles and rights.
use rooeel_backend_api.Prelude.{some, ◌≡◌}
use rooeel_backend_api.Prisma.{Engine}
use rooeel_backend_api.Tokens.{Tokens}
use rooeel_backend_api.Json.{JsonHost}
use rooeel_backend_api.Storage.{ObjectStore}
use rooeel_backend_api.Api.Guards.{Caller}
use rooeel_backend_api.Api.Guards.Refusal.{IsPlain}
use rooeel_backend_api.Api.Projects.{
  ProjectCall, ContentCall, content, RoleCall, role, DepartmentCall, department, PermissionCall,
  permission, TaskCall, task, RouteCall, route, create_project, all_projects, my_projects,
  one_project, update_project, remove_project, project_fields, add_project_field,
  remove_project_field, set_field_value, project_users, assign_user_to_project,
  unassign_user_from_project, work_orders, delete_work_order, project_roles, create_project_role,
  update_project_role, remove_project_role, set_user_role, change_user_role, unset_user_role,
  departments, create_department, update_department, remove_department, assign_user_to_department,
  remove_user_from_department, set_user_department_role, unset_user_department_role,
  department_roles, create_department_role, update_department_role, remove_department_role,
  department_role_policies, set_department_role_policy, remove_department_role_policy, permissions,
  set_permission, remove_permission, tasks, create_task, update_task, remove_task, create_sub_task,
  update_sub_task, remove_sub_task, upload_by_rest, delete_by_rest, view_by_rest,
}
use rooeel_backend_api.Api.Projects.Serve.{
  serve, serve_content, serve_role, serve_department, serve_permission, serve_task, serve_route,
}
use rooeel_backend_api.Project.Crud
use rooeel_backend_api.Project.WorkOrders
use rooeel_backend_api.Project.Rights.{
  kept, get_user_projects-Holds, find_one-Holds, set_field_value-Holds, create_task-Holds,
  update_task-Holds, remove_task-Holds, create_subtask-Holds, update_subtask-Holds,
  remove_subtask-Holds,
}
use rooeel_backend_api.Project.WorkOrders.{Office, in_world}
use rooeel_backend_api.Project.Tasks.Handlers
use rooeel_backend_api.Project.Tasks.Handlers.{Viewer}
use rooeel_backend_api.Api.Projects.Keeping.{
  Keeps, as_admin-Keeps, as_gql_user-Keeps, as_rest_user-Keeps, with_permission-Keeps,
  in_world-Keeps, delete_work_order-Keeps, get_fields-Holds, get_users-Holds, get_departments-Holds,
  get_work_orders-Holds, reading-Holds, view-Holds,
}

module _ (db : Engine) (host : JsonHost) (s3 : ObjectStore) (jwt : Tokens) (caller : Caller) where
  serve_content-Keeps :
      {A : Type 0} (c : ContentCall A)
      → IsPlain jwt caller
      → Keeps db (serve_content db host s3 jwt caller c)
  unfolding serve_content
  serve_content-Keeps my_projects plain =
      as_gql_user-Keeps db host s3 jwt caller _ λ v. get_user_projects-Holds db host s3 v.user_id
  serve_content-Keeps (one_project id) plain =
      as_gql_user-Keeps db host s3 jwt caller _ λ v. find_one-Holds db host s3 id (some v)
  serve_content-Keeps (project_fields p) plain =
      with_permission-Keeps db host s3 jwt caller _ _ _ _
        (in_world-Keeps db (Crud.get_fields db p) (get_fields-Holds db p))
  serve_content-Keeps (set_field_value p f value) plain =
      with_permission-Keeps db host s3 jwt caller _ _ _ _
        (in_world-Keeps db _ (set_field_value-Holds db p f value))
  serve_content-Keeps (project_users p) plain =
      as_gql_user-Keeps db host s3 jwt caller _ λ v. get_users-Holds db p
  serve_content-Keeps (work_orders p) plain =
      with_permission-Keeps db host s3 jwt caller _ _ _ _
        (in_world-Keeps db (WorkOrders.get_work_orders db s3 p) (get_work_orders-Holds db s3 p))
  serve_content-Keeps (delete_work_order id row_goes) plain =
      with_permission-Keeps db host s3 jwt caller _ _ _ _
        (delete_work_order-Keeps db s3 id row_goes)
  serve_content-Keeps (create_project input) plain = as_admin-Keeps db host s3 jwt caller _ plain
  serve_content-Keeps all_projects plain = as_admin-Keeps db host s3 jwt caller _ plain
  serve_content-Keeps (update_project id input) plain = as_admin-Keeps db host s3 jwt caller _ plain
  serve_content-Keeps (remove_project id) plain = as_admin-Keeps db host s3 jwt caller _ plain
  serve_content-Keeps (add_project_field p input) plain =
      as_admin-Keeps db host s3 jwt caller _ plain
  serve_content-Keeps (remove_project_field f) plain = as_admin-Keeps db host s3 jwt caller _ plain
  serve_content-Keeps (assign_user_to_project p u) plain =
      as_admin-Keeps db host s3 jwt caller _ plain
  serve_content-Keeps (unassign_user_from_project p u) plain =
      as_admin-Keeps db host s3 jwt caller _ plain

  serve_role-Keeps :
      {A : Type 0} (c : RoleCall A)
      → IsPlain jwt caller
      → Keeps db (serve_role db host s3 jwt caller c)
  unfolding serve_role
  serve_role-Keeps (project_roles p) plain = as_admin-Keeps db host s3 jwt caller _ plain
  serve_role-Keeps (create_project_role p name) plain = as_admin-Keeps db host s3 jwt caller _ plain
  serve_role-Keeps (update_project_role r name) plain = as_admin-Keeps db host s3 jwt caller _ plain
  serve_role-Keeps (remove_project_role r) plain = as_admin-Keeps db host s3 jwt caller _ plain
  serve_role-Keeps (set_user_role p u r) plain = as_admin-Keeps db host s3 jwt caller _ plain
  serve_role-Keeps (change_user_role p u r) plain = as_admin-Keeps db host s3 jwt caller _ plain
  serve_role-Keeps (unset_user_role p u) plain = as_admin-Keeps db host s3 jwt caller _ plain

  serve_department-Keeps :
      {A : Type 0} (c : DepartmentCall A)
      → IsPlain jwt caller
      → Keeps db (serve_department db host s3 jwt caller c)
  unfolding serve_department
  serve_department-Keeps (departments p) plain =
      as_gql_user-Keeps db host s3 jwt caller _ λ v. get_departments-Holds db p
  serve_department-Keeps (create_department p name) plain =
      as_admin-Keeps db host s3 jwt caller _ plain
  serve_department-Keeps (update_department d name) plain =
      as_admin-Keeps db host s3 jwt caller _ plain
  serve_department-Keeps (remove_department d) plain = as_admin-Keeps db host s3 jwt caller _ plain
  serve_department-Keeps (assign_user_to_department p u d) plain =
      as_admin-Keeps db host s3 jwt caller _ plain
  serve_department-Keeps (remove_user_from_department p u) plain =
      as_admin-Keeps db host s3 jwt caller _ plain
  serve_department-Keeps (set_user_department_role p u r) plain =
      as_admin-Keeps db host s3 jwt caller _ plain
  serve_department-Keeps (unset_user_department_role p u) plain =
      as_admin-Keeps db host s3 jwt caller _ plain
  serve_department-Keeps (department_roles d) plain = as_admin-Keeps db host s3 jwt caller _ plain
  serve_department-Keeps (create_department_role d name) plain =
      as_admin-Keeps db host s3 jwt caller _ plain
  serve_department-Keeps (update_department_role r name) plain =
      as_admin-Keeps db host s3 jwt caller _ plain
  serve_department-Keeps (remove_department_role r) plain =
      as_admin-Keeps db host s3 jwt caller _ plain
  serve_department-Keeps (department_role_policies r) plain =
      as_admin-Keeps db host s3 jwt caller _ plain
  serve_department-Keeps (set_department_role_policy r resource flags) plain =
      as_admin-Keeps db host s3 jwt caller _ plain
  serve_department-Keeps (remove_department_role_policy id) plain =
      as_admin-Keeps db host s3 jwt caller _ plain

  serve_permission-Keeps :
      {A : Type 0} (c : PermissionCall A)
      → IsPlain jwt caller
      → Keeps db (serve_permission db host s3 jwt caller c)
  unfolding serve_permission
  serve_permission-Keeps (permissions r) plain = as_admin-Keeps db host s3 jwt caller _ plain
  serve_permission-Keeps (set_permission r resource d flags) plain =
      as_admin-Keeps db host s3 jwt caller _ plain
  serve_permission-Keeps (remove_permission id) plain = as_admin-Keeps db host s3 jwt caller _ plain

  serve_task-Keeps :
      {A : Type 0} (c : TaskCall A)
      → IsPlain jwt caller
      → Keeps db (serve_task db host s3 jwt caller c)
  unfolding serve_task
  serve_task-Keeps (tasks p d) plain =
      as_gql_user-Keeps db host s3 jwt caller _
        λ v. reading-Holds db (Handlers.get_tasks db host p d (some v))
  serve_task-Keeps (create_task p input) plain =
      as_gql_user-Keeps db host s3 jwt caller _ λ v. create_task-Holds db host p input (some v)
  serve_task-Keeps (update_task id input) plain =
      as_gql_user-Keeps db host s3 jwt caller _ λ v. update_task-Holds db host id input (some v)
  serve_task-Keeps (remove_task id) plain =
      as_gql_user-Keeps db host s3 jwt caller _ λ v. remove_task-Holds db host id (some v)
  serve_task-Keeps (create_sub_task id input) plain =
      with_permission-Keeps db host s3 jwt caller _ _ _ _
        (in_world-Keeps db _ (create_subtask-Holds db id input))
  serve_task-Keeps (update_sub_task id input) plain =
      with_permission-Keeps db host s3 jwt caller _ _ _ _
        (in_world-Keeps db _ (update_subtask-Holds db id input))
  serve_task-Keeps (remove_sub_task id) plain =
      with_permission-Keeps db host s3 jwt caller _ _ _ _
        (in_world-Keeps db _ (remove_subtask-Holds db id))

  serve_route-Keeps :
      {A : Type 0} (c : RouteCall A)
      → IsPlain jwt caller
      → Keeps db (serve_route db host s3 jwt caller c)
  unfolding serve_route
  serve_route-Keeps (view_by_rest p id) plain =
      as_rest_user-Keeps db host s3 jwt caller _ λ v. view-Holds db s3 p id v
  serve_route-Keeps (upload_by_rest p attachment name) plain =
      as_admin-Keeps db host s3 jwt caller _ plain
  serve_route-Keeps (delete_by_rest o row_goes) plain = as_admin-Keeps db host s3 jwt caller _ plain

  serve-Keeps :
      {A : Type 0} (c : ProjectCall A)
      → IsPlain jwt caller
      → Keeps db (serve db host s3 jwt caller c)
  unfolding serve
  serve-Keeps (content c) plain = serve_content-Keeps c plain
  serve-Keeps (role c) plain = serve_role-Keeps c plain
  serve-Keeps (department c) plain = serve_department-Keeps c plain
  serve-Keeps (permission c) plain = serve_permission-Keeps c plain
  serve-Keeps (task c) plain = serve_task-Keeps c plain
  serve-Keeps (route c) plain = serve_route-Keeps c plain

-- Whatever a caller whose token is of no admin, or who has none, asks of projects, by GraphQL or by
-- REST, and whether the call answers or throws: every account, the members, departments, roles,
-- permissions and policies of all projects, the projects and the definitions of their fields are as
-- they were before.
pub serve_keeps_rights :
    (db : Engine) (host : JsonHost) (s3 : ObjectStore) (jwt : Tokens) (caller : Caller) {A : Type 0}
    (c : ProjectCall A) (o : Office db)
    → IsPlain jwt caller
    → kept db (serve db host s3 jwt caller c o).1.world ≡ kept db o.world
serve_keeps_rights db host s3 jwt caller c o plain =
    (serve-Keeps db host s3 jwt caller c plain).same o
