-- ===== src/Api/Projects.antt =====
-- src/project/project.resolver.ts and src/project/project.controller.ts.
pub mod Serve
pub mod Keeping
pub mod Safety
pub mod Orders
pub mod Policies
use rooeel_backend_api.Prelude.{
  ℕ, ◌==◌, ◌&&◌, ◌||◌, not, Bool, true, false, String, Option, none, some, List, [], ◌∷◌, map, keep,
  any, first, if◌then◌else◌, is_some, truthy, or_else, or_maybe, is_id, Action, Result, ok, err,
  ◌>>=◌, ◌>>◌, pure, throw, throw_if, or_throw, gets, not_found, unauthorized, forbidden, Exception,
  ◌≡◌, refl, sym, arith, inl, inr, ◌⊎◌, ◌↔◌, In, Bool-cases, Option-cases, keep_sound, In-keep,
  In-map, map_sound,
}
use rooeel_backend_api.Text.{Text, codes}
use rooeel_backend_api.Schema.{
  Project, ProjectField, ProjectFieldValue, ProjectUser, WorkOrderPdf, ProjectRole, Department,
  DepartmentRole, DepartmentRolePolicy, Permission, Flags, SubTask,
}
use rooeel_backend_api.Project.Crud.{CreateProject, UpdateProject, CreateField}
use rooeel_backend_api.Project.View.{SignedProject, SignedOrder}
use rooeel_backend_api.Project.WorkOrders.{Upload}
use rooeel_backend_api.Project.Tasks.Resource.{TaskView}
use rooeel_backend_api.Project.Tasks.Handlers.{CreateTask, UpdateTask}
use rooeel_backend_api.Project.Tasks.Subtasks.{CreateSubTask}

-- What a request brings as its file: none, one that is no PDF, or one that is.
pub data Attachment : Type 0 where
  no_file other_type : Attachment
  pdf : Upload → Attachment

-- The queries and mutations, by the part of the resolver that they stand in, and the routes; each with
-- its arguments, and by what it answers.
pub data ContentCall : Type 0 → Type 1 where
  create_project : CreateProject → ContentCall (ℕ × Project)
  all_projects : ContentCall (List (ℕ × Project))
  my_projects : ContentCall (List SignedProject)
  one_project : ℕ → ContentCall SignedProject
  update_project : ℕ → UpdateProject → ContentCall Project
  remove_project : ℕ → ContentCall Project
  project_fields : ℕ → ContentCall (List (ℕ × ProjectField))
  add_project_field : ℕ → CreateField → ContentCall (ℕ × ProjectField)
  remove_project_field : ℕ → ContentCall (Unit {0})
  set_field_value : ℕ → ℕ → String → ContentCall ProjectFieldValue
  project_users : ℕ → ContentCall (List (ℕ × ProjectUser))
  assign_user_to_project : ℕ → ℕ → ContentCall (ℕ × ProjectUser)
  unassign_user_from_project : ℕ → ℕ → ContentCall (Unit {0})
  work_orders : ℕ → ContentCall (List SignedOrder)
  -- With whether the database carries the deletion of the row out.
  delete_work_order : ℕ → Bool → ContentCall (Unit {0})

pub data RoleCall : Type 0 → Type 1 where
  project_roles : ℕ → RoleCall (List (ℕ × ProjectRole))
  create_project_role : ℕ → Text → RoleCall (ℕ × ProjectRole)
  update_project_role : ℕ → Text → RoleCall ProjectRole
  remove_project_role : ℕ → RoleCall (Unit {0})
  set_user_role change_user_role : ℕ → ℕ → ℕ → RoleCall ProjectUser
  unset_user_role : ℕ → ℕ → RoleCall ProjectUser

pub data DepartmentCall : Type 0 → Type 1 where
  departments : ℕ → DepartmentCall (List (ℕ × Department))
  create_department : ℕ → Text → DepartmentCall (ℕ × Department)
  update_department : ℕ → Text → DepartmentCall Department
  remove_department : ℕ → DepartmentCall (Unit {0})
  assign_user_to_department : ℕ → ℕ → ℕ → DepartmentCall ProjectUser
  remove_user_from_department : ℕ → ℕ → DepartmentCall ProjectUser
  set_user_department_role : ℕ → ℕ → ℕ → DepartmentCall ProjectUser
  unset_user_department_role : ℕ → ℕ → DepartmentCall ProjectUser
  department_roles : ℕ → DepartmentCall (List (ℕ × DepartmentRole))
  create_department_role : ℕ → Text → DepartmentCall (ℕ × DepartmentRole)
  update_department_role : ℕ → Text → DepartmentCall DepartmentRole
  remove_department_role : ℕ → DepartmentCall (Unit {0})
  department_role_policies : ℕ → DepartmentCall (List (ℕ × DepartmentRolePolicy))
  set_department_role_policy : ℕ → Text → Flags → DepartmentCall DepartmentRolePolicy
  remove_department_role_policy : ℕ → DepartmentCall (Unit {0})

pub data PermissionCall : Type 0 → Type 1 where
  permissions : ℕ → PermissionCall (List (ℕ × Permission))
  set_permission : ℕ → Text → Option ℕ → Flags → PermissionCall Permission
  remove_permission : ℕ → PermissionCall (Unit {0})

pub data TaskCall : Type 0 → Type 1 where
  tasks : ℕ → Option ℕ → TaskCall (List (ℕ × TaskView))
  create_task : ℕ → CreateTask → TaskCall (ℕ × TaskView)
  update_task : ℕ → UpdateTask → TaskCall (ℕ × TaskView)
  remove_task : ℕ → TaskCall (Unit {0})
  create_sub_task : ℕ → CreateSubTask → TaskCall (ℕ × SubTask)
  update_sub_task : ℕ → UpdateTask → TaskCall SubTask
  remove_sub_task : ℕ → TaskCall (Unit {0})

pub data RouteCall : Type 0 → Type 1 where
  upload_by_rest : ℕ → Attachment → Option Text → RouteCall (ℕ × WorkOrderPdf × Text)
  delete_by_rest : ℕ → Bool → RouteCall (Unit {0})
  view_by_rest : ℕ → ℕ → RouteCall (Text × Text)

pub data ProjectCall : Type 0 → Type 1 where
  content : {A : Type 0} → ContentCall A → ProjectCall A
  role : {A : Type 0} → RoleCall A → ProjectCall A
  department : {A : Type 0} → DepartmentCall A → ProjectCall A
  permission : {A : Type 0} → PermissionCall A → ProjectCall A
  task : {A : Type 0} → TaskCall A → ProjectCall A
  route : {A : Type 0} → RouteCall A → ProjectCall A
