-- ===== src/Project/Policies/Spared.antt =====
-- The calls of src/project/services/project.service.ts that leave the policies of department roles
-- alone.
use rooeel_backend_api.Prelude.{ℕ, Option, Action, ◌≡◌, arith}
use rooeel_backend_api.Text.{Text}
use rooeel_backend_api.Schema.{Flags}
use rooeel_backend_api.Prisma.{Engine}
use rooeel_backend_api.World.{World, delete_roles}
use rooeel_backend_api.Project.Crud
use rooeel_backend_api.Project.Members
use rooeel_backend_api.Project.Roles
use rooeel_backend_api.Project.Departments

-- An action after which the policies are as before.
pub record Spares (db : Engine) {A : Type 0} (m : Action (World db) A) : Type 0 where
  pub same : (w : World db) → (m w).1.team.policies ≡ w.team.policies

module _ (db : Engine) where
  pub create-Spares :
      (admin_id : ℕ) (dto : Crud.CreateProject) → Spares db (Crud.create db admin_id dto)
  unfolding Crud.create
  create-Spares admin_id dto = record { same = λ w. ground arith }

  pub find_all-Spares : Spares db (Crud.find_all db)
  unfolding Crud.find_all
  find_all-Spares = record { same = λ w. ground arith }

  pub update-Spares : (id : ℕ) (dto : Crud.UpdateProject) → Spares db (Crud.update db id dto)
  unfolding Crud.update
  update-Spares id dto = record { same = λ w. ground arith }

  pub create_field-Spares :
      (project_id : ℕ) (dto : Crud.CreateField) → Spares db (Crud.create_field db project_id dto)
  unfolding Crud.create_field
  create_field-Spares project_id dto = record { same = λ w. ground arith }

  pub delete_field-Spares : (id : ℕ) → Spares db (Crud.delete_field db id)
  unfolding Crud.delete_field
  delete_field-Spares id = record { same = λ w. ground arith }

  pub assign_user-Spares :
      (project_id user_id : ℕ) → Spares db (Members.assign_user db project_id user_id)
  unfolding Members.assign_user
  assign_user-Spares project_id user_id = record { same = λ w. ground arith }

  pub unassign_user-Spares :
      (project_id user_id : ℕ) → Spares db (Members.unassign_user db project_id user_id)
  unfolding Members.unassign_user
  unassign_user-Spares project_id user_id = record { same = λ w. ground arith }

  pub set_user_role-Spares :
      (project_id user_id role_id : ℕ)
      → Spares db (Members.set_user_role db project_id user_id role_id)
  unfolding Members.set_user_role
  set_user_role-Spares project_id user_id role_id = record { same = λ w. ground arith }

  pub unset_user_role-Spares :
      (project_id user_id : ℕ) → Spares db (Members.unset_user_role db project_id user_id)
  unfolding Members.unset_user_role
  unset_user_role-Spares project_id user_id = record { same = λ w. ground arith }

  pub assign_user_to_department-Spares :
      (project_id user_id department_id : ℕ)
      → Spares db (Members.assign_user_to_department db project_id user_id department_id)
  unfolding Members.assign_user_to_department
  assign_user_to_department-Spares project_id user_id department_id = record {
    same = λ w. ground arith;
  }

  pub remove_user_from_department-Spares :
      (project_id user_id : ℕ)
      → Spares db (Members.remove_user_from_department db project_id user_id)
  unfolding Members.remove_user_from_department
  remove_user_from_department-Spares project_id user_id = record { same = λ w. ground arith }

  pub set_user_department_role-Spares :
      (project_id user_id role_id : ℕ)
      → Spares db (Members.set_user_department_role db project_id user_id role_id)
  unfolding Members.set_user_department_role
  set_user_department_role-Spares project_id user_id role_id = record { same = λ w. ground arith }

  pub unset_user_department_role-Spares :
      (project_id user_id : ℕ)
      → Spares db (Members.unset_user_department_role db project_id user_id)
  unfolding Members.unset_user_department_role
  unset_user_department_role-Spares project_id user_id = record { same = λ w. ground arith }

  pub get_roles-Spares : (project_id : ℕ) → Spares db (Roles.get_roles db project_id)
  unfolding Roles.get_roles
  get_roles-Spares project_id = record { same = λ w. ground arith }

  pub create_role-Spares :
      (project_id : ℕ) (name : Text) → Spares db (Roles.create_role db project_id name)
  unfolding Roles.create_role
  create_role-Spares project_id name = record { same = λ w. ground arith }

  pub update_role-Spares : (id : ℕ) (name : Text) → Spares db (Roles.update_role db id name)
  unfolding Roles.update_role
  update_role-Spares id name = record { same = λ w. ground arith }

  pub remove_role-Spares : (id : ℕ) → Spares db (Roles.remove_role db id)
  unfolding Roles.remove_role delete_roles
  remove_role-Spares id = record { same = λ w. ground arith }

  pub get_permissions-Spares : (role_id : ℕ) → Spares db (Roles.get_permissions db role_id)
  unfolding Roles.get_permissions
  get_permissions-Spares role_id = record { same = λ w. ground arith }

  pub set_permission-Spares :
      (role_id : ℕ) (resource : Text) (department_id : Option ℕ) (flags : Flags)
      → Spares db (Roles.set_permission db role_id resource department_id flags)
  unfolding Roles.set_permission
  set_permission-Spares role_id resource department_id flags = record { same = λ w. ground arith }

  pub remove_permission-Spares : (id : ℕ) → Spares db (Roles.remove_permission db id)
  unfolding Roles.remove_permission
  remove_permission-Spares id = record { same = λ w. ground arith }

  pub create_department-Spares :
      (project_id : ℕ) (name : Text) → Spares db (Departments.create_department db project_id name)
  unfolding Departments.create_department
  create_department-Spares project_id name = record { same = λ w. ground arith }

  pub update_department-Spares :
      (id : ℕ) (name : Text) → Spares db (Departments.update_department db id name)
  unfolding Departments.update_department
  update_department-Spares id name = record { same = λ w. ground arith }

  pub get_department_roles-Spares :
      (department_id : ℕ) → Spares db (Departments.get_department_roles db department_id)
  unfolding Departments.get_department_roles
  get_department_roles-Spares department_id = record { same = λ w. ground arith }

  pub create_department_role-Spares :
      (department_id : ℕ) (name : Text)
      → Spares db (Departments.create_department_role db department_id name)
  unfolding Departments.create_department_role
  create_department_role-Spares department_id name = record { same = λ w. ground arith }

  pub update_department_role-Spares :
      (id : ℕ) (name : Text) → Spares db (Departments.update_department_role db id name)
  unfolding Departments.update_department_role
  update_department_role-Spares id name = record { same = λ w. ground arith }

  pub get_department_role_policies-Spares :
      (role_id : ℕ) → Spares db (Departments.get_department_role_policies db role_id)
  unfolding Departments.get_department_role_policies
  get_department_role_policies-Spares role_id = record { same = λ w. ground arith }
