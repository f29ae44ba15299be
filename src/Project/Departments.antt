-- ===== src/Project/Departments.antt =====
-- The departments of a project, their roles, and the policies of these.
use rooeel_backend_api.Prelude.{
  ℕ, not, ◌==◌, ◌&&◌, Option, none, some, Action, ok, ◌>>=◌, ◌>>◌, pure, throw_if, conflict,
  is_some, List,
}
use rooeel_backend_api.Text.{Text, text_eq, trim, is_empty, includes}
use rooeel_backend_api.Prisma.{
  Engine, find_by_id_or_throw, find_first, find_many, create, update, delete,
}
use rooeel_backend_api.Schema.{
  Department, DepartmentRole, department_role_clash, DepartmentRolePolicy, policy_clash, Flags,
}
use rooeel_backend_api.World.{
  World, departments, department_roles, policies, delete_departments, delete_department_roles,
  undepartment_tasks,
}
use rooeel_backend_api.Access.{allowed_policy_resources}
use rooeel_backend_api.Access.Policy.{normalize_policy_resource, build_policy_flags}
use rooeel_backend_api.Project.Lookup.{found_project}

module _ (db : Engine) where
  unfoldable pub get_departments : ℕ → Action (World db) (List (ℕ × Department))
  get_departments project_id = find_many db (departments db) (λ i d. d.project_id == project_id)

  unfoldable pub create_department : ℕ → Text → Action (World db) (ℕ × Department)
  create_department project_id name = do
    found_project db project_id
    create db (departments db) none (record { project_id = project_id; name = name })

  unfoldable pub update_department : ℕ → Text → Action (World db) Department
  update_department id name = do
    find_by_id_or_throw db (departments db) id
    update db (departments db) none id (λ d. record d { name = name })

  unfoldable pub remove_department : ℕ → Action (World db) (Unit {0})
  unfolding delete_departments undepartment_tasks
  remove_department id = do
    find_by_id_or_throw db (departments db) id
    λ w. (
      ok tt,
      record w {
        team = delete_departments db (λ i. id == i) w.team;
        content = undepartment_tasks db (λ i. id == i) w.content;
      },
    )

  -- The order of the answer, by name, is left out.
  unfoldable pub get_department_roles : ℕ → Action (World db) (List (ℕ × DepartmentRole))
  get_department_roles department_id = do
    find_by_id_or_throw db (departments db) department_id
    find_many db (department_roles db) (λ i r. r.department_id == department_id)

  unfoldable pub create_department_role : ℕ → Text → Action (World db) (ℕ × DepartmentRole)
  create_department_role department_id name = do
    find_by_id_or_throw db (departments db) department_id
    throw_if (is_empty (trim name)) (conflict "Role name is required")
    create db (department_roles db) department_role_clash
        (record { department_id = department_id; name = trim name })

  unfoldable pub update_department_role : ℕ → Text → Action (World db) DepartmentRole
  update_department_role id name = do
    role ← find_by_id_or_throw db (department_roles db) id
    throw_if (is_empty (trim name)) (conflict "Role name is required")
    duplicate ← find_first db (department_roles db) (λ i r.
        r.department_id == role.department_id && text_eq r.name (trim name) && not (i == id))
    throw_if (is_some duplicate) (conflict "Role already exists in this department")
    update db (department_roles db) department_role_clash id (λ r. record r { name = trim name })

  unfoldable pub remove_department_role : ℕ → Action (World db) (Unit {0})
  unfolding delete_department_roles
  remove_department_role id = do
    find_by_id_or_throw db (department_roles db) id
    λ w. (ok tt, record w { team = delete_department_roles db (λ i. id == i) w.team })

  -- The order of the answer, by resource, is left out.
  unfoldable pub get_department_role_policies :
      ℕ → Action (World db) (List (ℕ × DepartmentRolePolicy))
  get_department_role_policies role_id = do
    find_by_id_or_throw db (department_roles db) role_id
    find_many db (policies db) (λ i p. p.department_role_id == role_id)

  abbrev put_policy :
      DepartmentRolePolicy
      → Option (ℕ × DepartmentRolePolicy)
      → Action (World db) DepartmentRolePolicy
  put_policy p (some (id, old)) =
      update db (policies db) policy_clash id (λ q. record q { flags = p.flags })
  put_policy p none = do made ← create db (policies db) policy_clash p; pure made.1

  unfoldable pub set_department_role_policy :
      ℕ → Text → Flags → Action (World db) DepartmentRolePolicy
  set_department_role_policy role_id resource flags = do
    find_by_id_or_throw db (department_roles db) role_id
    throw_if (is_empty (normalize_policy_resource resource)) (conflict "Resource is required")
    throw_if (not (includes allowed_policy_resources (normalize_policy_resource resource)))
        (conflict "The resource is not a configured hardcoded task/resource")
    existing ← find_first db (policies db) (λ i p.
        p.department_role_id == role_id && text_eq p.resource (normalize_policy_resource resource))
    put_policy
        (record {
          department_role_id = role_id;
          resource = normalize_policy_resource resource;
          flags = build_policy_flags (normalize_policy_resource resource) flags;
        })
        existing

  unfoldable pub remove_department_role_policy : ℕ → Action (World db) (Unit {0})
  remove_department_role_policy id = do
    find_by_id_or_throw db (policies db) id
    delete db (policies db) id
    pure tt
