-- ===== src/Project/Members.antt =====
-- The members of a project, and the role, department and department role of each.
use rooeel_backend_api.Prelude.{
  reference_missing, ℕ, not, ◌==◌, Option, none, some, Action, ok, err, ◌>>=◌, ◌>>◌, pure, throw_if,
  conflict, is_some, List,
}
use rooeel_backend_api.Prisma.{Engine, find_by_id_or_throw, find_first, find_many, create, delete}
use rooeel_backend_api.Schema.{ProjectUser, project_user_clash}
use rooeel_backend_api.World.{World, members, roles, departments, department_roles}
use rooeel_backend_api.Project.Lookup.{
  found_project, referenced, member_of, found_member, update_member,
}

-- `{ departmentId, departmentRoleId }` as the data of an update.
abbrev pub place : Option ℕ → Option ℕ → ProjectUser → ProjectUser
place department role m = record m { department_id = department; department_role_id = role }

abbrev pub give_role : Option ℕ → ProjectUser → ProjectUser
give_role role m = record m { project_role_id = role }

module _ (db : Engine) where
  abbrev pub user_exists : ℕ → Action (World db) (Unit {0})
  user_exists id w = elim (db.row w.accounts.users id) [
    | none ↦ (err reference_missing, w)
    | some u ↦ (ok tt, w)
  ]

  unfoldable pub get_users : ℕ → Action (World db) (List (ℕ × ProjectUser))
  get_users project_id = find_many db (members db) (λ i m. m.project_id == project_id)

  unfoldable pub assign_user : ℕ → ℕ → Action (World db) (ℕ × ProjectUser)
  assign_user project_id user_id = do
    found_project db project_id
    existing ← find_first db (members db) (member_of db project_id user_id)
    throw_if (is_some existing) (conflict "User is already assigned to this project")
    user_exists user_id
    create db (members db) project_user_clash (record {
      project_id = project_id;
      user_id = user_id;
      project_role_id = none;
      department_id = none;
      department_role_id = none;
    })

  unfoldable pub unassign_user : ℕ → ℕ → Action (World db) (Unit {0})
  unassign_user project_id user_id = do
    found ← found_member db project_id user_id
    delete db (members db) found.0
    pure tt

  unfoldable pub set_user_role : ℕ → ℕ → ℕ → Action (World db) ProjectUser
  set_user_role project_id user_id role_id = do
    found_member db project_id user_id
    referenced db (roles db) role_id
    update_member db project_id user_id (give_role (some role_id))

  unfoldable pub unset_user_role : ℕ → ℕ → Action (World db) ProjectUser
  unset_user_role project_id user_id = update_member db project_id user_id (give_role none)

  unfoldable pub assign_user_to_department : ℕ → ℕ → ℕ → Action (World db) ProjectUser
  assign_user_to_department project_id user_id department_id = do
    department ← find_by_id_or_throw db (departments db) department_id
    throw_if (not (department.project_id == project_id))
        (conflict "Department does not belong to this project")
    update_member db project_id user_id (place (some department_id) none)

  unfoldable pub remove_user_from_department : ℕ → ℕ → Action (World db) ProjectUser
  remove_user_from_department project_id user_id =
      update_member db project_id user_id (place none none)

  -- The department of the role is there, by the foreign key of the role.
  unfoldable pub set_user_department_role : ℕ → ℕ → ℕ → Action (World db) ProjectUser
  set_user_department_role project_id user_id department_role_id = do
    found_member db project_id user_id
    role ← find_by_id_or_throw db (department_roles db) department_role_id
    department ← find_by_id_or_throw db (departments db) role.department_id
    throw_if (not (department.project_id == project_id))
        (conflict "Department role does not belong to this project")
    update_member db project_id user_id (place (some role.department_id) (some department_role_id))

  unfoldable pub unset_user_department_role : ℕ → ℕ → Action (World db) ProjectUser
  unset_user_department_role project_id user_id =
      update_member db project_id user_id (λ m. record m { department_role_id = none })
