-- ===== src/Api/Projects/Policies.antt =====
-- Sequences of calls on projects, by anyone, and the policies of department roles.
use rooeel_backend_api.Prelude.{some}
use rooeel_backend_api.Prisma.{Engine}
use rooeel_backend_api.Tokens.{Tokens}
use rooeel_backend_api.Json.{JsonHost}
use rooeel_backend_api.Storage.{ObjectStore}
use rooeel_backend_api.Api.Guards.{Caller}
use rooeel_backend_api.Api.Projects.{
  ProjectCall, ContentCall, content, RoleCall, role, DepartmentCall, department, PermissionCall,
  permission, TaskCall, task, RouteCall, route, create_project, all_projects, my_projects,
  one_project, update_project, remove_project, project_fields, add_project_field,
  remove_project_field, set_field_value, project_users, assign_user_to_project,
  unassign_user_from_project, work_orders, delete_work_order, project_roles, create_project_role,
  update_project_role, remove_project_role, set_user_role, change_user_role, unset_user_role,
  departments, create_department, update_department, remove_department, assign_user_to_department,
  remove_user_from_department, set_user_department_role, unset_user_department_role,
  department_roles, create_department_role, update_department_role, remove_department_role,
  department_role_policies, set_department_role_policy, remove_department_role_policy, permissions,
  set_permission, remove_permission, tasks, create_task, update_task, remove_task, create_sub_task,
  update_sub_task, remove_sub_task, upload_by_rest, delete_by_rest, view_by_rest,
}
use rooeel_backend_api.Api.Projects.Serve.{
  serve, serve_content, serve_role, serve_department, serve_permission, serve_task, serve_route,
}
use rooeel_backend_api.Project.Crud
use rooeel_backend_api.Project.WorkOrders
use rooeel_backend_api.Project.Rights.{
  get_user_projects-Holds, find_one-Holds, set_field_value-Holds, create_task-Holds,
  update_task-Holds, remove_task-Holds, create_subtask-Holds, update_subtask-Holds,
  remove_subtask-Holds,
}
use rooeel_backend_api.Project.WorkOrders.{Office, in_world}
use rooeel_backend_api.Project.Tasks.Handlers
use rooeel_backend_api.Project.Tasks.Handlers.{Viewer}
use rooeel_backend_api.Api.Projects.Keeping.{
  as_gql_user-Keeps, as_rest_user-Keeps, with_permission-Keeps, in_world-Keeps,
  delete_work_order-Keeps, get_fields-Holds, get_users-Holds, get_departments-Holds,
  get_work_orders-Holds, reading-Holds, view-Holds,
}
use rooeel_backend_api.Prelude.{List, [], ◌∷◌}
use rooeel_backend_api.Project.Policies.{ArePolicies}
use rooeel_backend_api.Project.Policies.Kept.{
  remove_project-Keeps, remove_department-Keeps, remove_department_role-Keeps,
  remove_department_role_policy-Keeps, set_department_role_policy-Keeps,
}
use rooeel_backend_api.Project.Policies.Spared.{
  create-Spares, find_all-Spares, update-Spares, create_field-Spares, delete_field-Spares,
  assign_user-Spares, unassign_user-Spares, set_user_role-Spares, unset_user_role-Spares,
  assign_user_to_department-Spares, remove_user_from_department-Spares,
  set_user_department_role-Spares, unset_user_department_role-Spares, get_roles-Spares,
  create_role-Spares, update_role-Spares, remove_role-Spares, get_permissions-Spares,
  set_permission-Spares, remove_permission-Spares, create_department-Spares,
  update_department-Spares, get_department_roles-Spares, create_department_role-Spares,
  update_department_role-Spares, get_department_role_policies-Spares,
}
use rooeel_backend_api.Api.Projects.Orders.{
  Orders, Keeps-Orders, as_admin-Orders, admin_only-Orders, spared-Orders, upload-Orders,
}

module _ (db : Engine) (host : JsonHost) (s3 : ObjectStore) (jwt : Tokens) (caller : Caller) where
  serve_content-Orders :
      {A : Type 0} (c : ContentCall A) → Orders db (serve_content db host s3 jwt caller c)
  unfolding serve_content
  serve_content-Orders my_projects =
      Keeps-Orders db _ (
        as_gql_user-Keeps db host s3 jwt caller _ λ v. get_user_projects-Holds db host s3 v.user_id)
  serve_content-Orders (one_project id) =
      Keeps-Orders db _
        (as_gql_user-Keeps db host s3 jwt caller _ λ v. find_one-Holds db host s3 id (some v))
  serve_content-Orders (project_fields p) = Keeps-Orders db _ (
      with_permission-Keeps db host s3 jwt caller _ _ _ _
        (in_world-Keeps db (Crud.get_fields db p) (get_fields-Holds db p)))
  serve_content-Orders (set_field_value p f value) = Keeps-Orders db _ (
      with_permission-Keeps db host s3 jwt caller _ _ _ _
        (in_world-Keeps db _ (set_field_value-Holds db p f value)))
  serve_content-Orders (project_users p) =
      Keeps-Orders db _ (as_gql_user-Keeps db host s3 jwt caller _ λ v. get_users-Holds db p)
  serve_content-Orders (work_orders p) = Keeps-Orders db _ (
      with_permission-Keeps db host s3 jwt caller _ _ _ _
        (in_world-Keeps db (WorkOrders.get_work_orders db s3 p) (get_work_orders-Holds db s3 p)))
  serve_content-Orders (delete_work_order id row_goes) = Keeps-Orders db _ (
      with_permission-Keeps db host s3 jwt caller _ _ _ _
        (delete_work_order-Keeps db s3 id row_goes))
  serve_content-Orders (create_project input) =
      spared-Orders db host s3 jwt caller _ λ v. create-Spares db v.user_id input
  serve_content-Orders all_projects = spared-Orders db host s3 jwt caller _ λ v. find_all-Spares db
  serve_content-Orders (update_project id input) =
      spared-Orders db host s3 jwt caller _ λ v. update-Spares db id input
  serve_content-Orders (remove_project id) =
      admin_only-Orders db host s3 jwt caller _ λ v. remove_project-Keeps db id
  serve_content-Orders (add_project_field p input) =
      spared-Orders db host s3 jwt caller _ λ v. create_field-Spares db p input
  serve_content-Orders (remove_project_field f) =
      spared-Orders db host s3 jwt caller _ λ v. delete_field-Spares db f
  serve_content-Orders (assign_user_to_project p u) =
      spared-Orders db host s3 jwt caller _ λ v. assign_user-Spares db p u
  serve_content-Orders (unassign_user_from_project p u) =
      spared-Orders db host s3 jwt caller _ λ v. unassign_user-Spares db p u

  serve_role-Orders : {A : Type 0} (c : RoleCall A) → Orders db (serve_role db host s3 jwt caller c)
  unfolding serve_role
  serve_role-Orders (project_roles p) =
      spared-Orders db host s3 jwt caller _ λ v. get_roles-Spares db p
  serve_role-Orders (create_project_role p name) =
      spared-Orders db host s3 jwt caller _ λ v. create_role-Spares db p name
  serve_role-Orders (update_project_role r name) =
      spared-Orders db host s3 jwt caller _ λ v. update_role-Spares db r name
  serve_role-Orders (remove_project_role r) =
      spared-Orders db host s3 jwt caller _ λ v. remove_role-Spares db r
  serve_role-Orders (set_user_role p u r) =
      spared-Orders db host s3 jwt caller _ λ v. set_user_role-Spares db p u r
  serve_role-Orders (change_user_role p u r) =
      spared-Orders db host s3 jwt caller _ λ v. set_user_role-Spares db p u r
  serve_role-Orders (unset_user_role p u) =
      spared-Orders db host s3 jwt caller _ λ v. unset_user_role-Spares db p u

  serve_department-Orders :
      {A : Type 0} (c : DepartmentCall A) → Orders db (serve_department db host s3 jwt caller c)
  unfolding serve_department
  serve_department-Orders (departments p) =
      Keeps-Orders db _ (as_gql_user-Keeps db host s3 jwt caller _ λ v. get_departments-Holds db p)
  serve_department-Orders (create_department p name) =
      spared-Orders db host s3 jwt caller _ λ v. create_department-Spares db p name
  serve_department-Orders (update_department d name) =
      spared-Orders db host s3 jwt caller _ λ v. update_department-Spares db d name
  serve_department-Orders (remove_department d) =
      admin_only-Orders db host s3 jwt caller _ λ v. remove_department-Keeps db d
  serve_department-Orders (assign_user_to_department p u d) =
      spared-Orders db host s3 jwt caller _ λ v. assign_user_to_department-Spares db p u d
  serve_department-Orders (remove_user_from_department p u) =
      spared-Orders db host s3 jwt caller _ λ v. remove_user_from_department-Spares db p u
  serve_department-Orders (set_user_department_role p u r) =
      spared-Orders db host s3 jwt caller _ λ v. set_user_department_role-Spares db p u r
  serve_department-Orders (unset_user_department_role p u) =
      spared-Orders db host s3 jwt caller _ λ v. unset_user_department_role-Spares db p u
  serve_department-Orders (department_roles d) =
      spared-Orders db host s3 jwt caller _ λ v. get_department_roles-Spares db d
  serve_department-Orders (create_department_role d name) =
      spared-Orders db host s3 jwt caller _ λ v. create_department_role-Spares db d name
  serve_department-Orders (update_department_role r name) =
      spared-Orders db host s3 jwt caller _ λ v. update_department_role-Spares db r name
  serve_department-Orders (remove_department_role r) =
      admin_only-Orders db host s3 jwt caller _ λ v. remove_department_role-Keeps db r
  serve_department-Orders (department_role_policies r) =
      spared-Orders db host s3 jwt caller _ λ v. get_department_role_policies-Spares db r
  serve_department-Orders (set_department_role_policy r resource flags) =
      admin_only-Orders db host s3 jwt caller _
        λ v. set_department_role_policy-Keeps db r resource flags
  serve_department-Orders (remove_department_role_policy id) =
      admin_only-Orders db host s3 jwt caller _ λ v. remove_department_role_policy-Keeps db id

  serve_permission-Orders :
      {A : Type 0} (c : PermissionCall A) → Orders db (serve_permission db host s3 jwt caller c)
  unfolding serve_permission
  serve_permission-Orders (permissions r) =
      spared-Orders db host s3 jwt caller _ λ v. get_permissions-Spares db r
  serve_permission-Orders (set_permission r resource d flags) =
      spared-Orders db host s3 jwt caller _ λ v. set_permission-Spares db r resource d flags
  serve_permission-Orders (remove_permission id) =
      spared-Orders db host s3 jwt caller _ λ v. remove_permission-Spares db id

  serve_task-Orders : {A : Type 0} (c : TaskCall A) → Orders db (serve_task db host s3 jwt caller c)
  unfolding serve_task
  serve_task-Orders (tasks p d) = Keeps-Orders db _ (
      as_gql_user-Keeps db host s3 jwt caller _
        λ v. reading-Holds db (Handlers.get_tasks db host p d (some v)))
  serve_task-Orders (create_task p input) =
      Keeps-Orders db _
        (as_gql_user-Keeps db host s3 jwt caller _ λ v. create_task-Holds db host p input (some v))
  serve_task-Orders (update_task id input) =
      Keeps-Orders db _
        (as_gql_user-Keeps db host s3 jwt caller _ λ v. update_task-Holds db host id input (some v))
  serve_task-Orders (remove_task id) =
      Keeps-Orders db _
        (as_gql_user-Keeps db host s3 jwt caller _ λ v. remove_task-Holds db host id (some v))
  serve_task-Orders (create_sub_task id input) = Keeps-Orders db _ (
      with_permission-Keeps db host s3 jwt caller _ _ _ _
        (in_world-Keeps db _ (create_subtask-Holds db id input)))
  serve_task-Orders (update_sub_task id input) = Keeps-Orders db _ (
      with_permission-Keeps db host s3 jwt caller _ _ _ _
        (in_world-Keeps db _ (update_subtask-Holds db id input)))
  serve_task-Orders (remove_sub_task id) = Keeps-Orders db _ (
      with_permission-Keeps db host s3 jwt caller _ _ _ _
        (in_world-Keeps db _ (remove_subtask-Holds db id)))

  serve_route-Orders :
      {A : Type 0} (c : RouteCall A) → Orders db (serve_route db host s3 jwt caller c)
  unfolding serve_route
  serve_route-Orders (view_by_rest p id) =
      Keeps-Orders db _ (as_rest_user-Keeps db host s3 jwt caller _ λ v. view-Holds db s3 p id v)
  serve_route-Orders (upload_by_rest p attachment name) =
      as_admin-Orders db host s3 jwt caller _
        λ v. upload-Orders db host s3 jwt caller p v.user_id name attachment
  serve_route-Orders (delete_by_rest o row_goes) =
      as_admin-Orders db host s3 jwt caller _
        λ v. Keeps-Orders db _ (delete_work_order-Keeps db s3 o row_goes)

  serve-Orders : {A : Type 0} (c : ProjectCall A) → Orders db (serve db host s3 jwt caller c)
  unfolding serve
  serve-Orders (content c) = serve_content-Orders c
  serve-Orders (role c) = serve_role-Orders c
  serve-Orders (department c) = serve_department-Orders c
  serve-Orders (permission c) = serve_permission-Orders c
  serve-Orders (task c) = serve_task-Orders c
  serve-Orders (route c) = serve_route-Orders c

-- A call as it arrives, with the store as it behaves then.
pub record Event : Type 1 where
  pub answer : Type 0
  pub call : ProjectCall answer
  pub caller : Caller
  pub s3 : ObjectStore

module _ (db : Engine) (host : JsonHost) (jwt : Tokens) where
  -- The state after the calls, whether each answered or threw.
  unfoldable pub run : List Event → Office db → Office db
  run [] o = o
  run (e ∷ es) o = run es (serve db host e.s3 jwt e.caller e.call o).1

  -- If each department role has one policy at most about a resource and all are about allowed
  -- resources, then this holds after any sequence of queries, mutations and routes on projects, by
  -- whatever callers, and whether they answer or throw.
  pub run-ArePolicies :
      (es : List Event) (o : Office db)
      → ArePolicies db o.world.team.policies
      → ArePolicies db (run es o).world.team.policies
  unfolding run
  run-ArePolicies [] o good = good
  run-ArePolicies (e ∷ es) o good =
      run-ArePolicies es (serve db host e.s3 jwt e.caller e.call o).1
        ((serve-Orders db host e.s3 jwt e.caller e.call).kept o good)
