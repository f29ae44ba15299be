-- ===== src/Project/Roles.antt =====
-- The roles of a project and their permissions.
use rooeel_backend_api.Prelude.{
  ℕ, Bool, not, ◌==◌, ◌&&◌, Option, none, some, Action, ok, ◌>>=◌, ◌>>◌, pure, throw_if, conflict,
  is_some, List, is_id,
}
use rooeel_backend_api.Text.{Text, text_eq, trim, is_empty, includes}
use rooeel_backend_api.Prisma.{Engine, find_by_id_or_throw, find_first, find_many, create, update}
use rooeel_backend_api.Schema.{ProjectRole, project_role_clash, Permission, permission_clash, Flags}
use rooeel_backend_api.World.{World, roles, permissions, departments, delete_roles}
use rooeel_backend_api.Access.{allowed_policy_resources}
use rooeel_backend_api.Access.Policy.{normalize_policy_resource, build_policy_flags}
use rooeel_backend_api.Project.Lookup.{found_project, referenced}

module _ (db : Engine) where
  unfoldable pub get_roles : ℕ → Action (World db) (List (ℕ × ProjectRole))
  get_roles project_id = find_many db (roles db) (λ i r. r.project_id == project_id)

  unfoldable pub create_role : ℕ → Text → Action (World db) (ℕ × ProjectRole)
  create_role project_id name = do
    found_project db project_id
    throw_if (is_empty (trim name)) (conflict "Role name is required")
    existing ←
        find_first db (roles db) (λ i r. r.project_id == project_id && text_eq r.name (trim name))
    throw_if (is_some existing) (conflict "Role already exists in this project")
    create db (roles db) project_role_clash (record { project_id = project_id; name = trim name })

  unfoldable pub update_role : ℕ → Text → Action (World db) ProjectRole
  update_role id name = do
    role ← find_by_id_or_throw db (roles db) id
    throw_if (is_empty (trim name)) (conflict "Role name is required")
    duplicate ←
        find_first db (roles db)
          (λ i r. r.project_id == role.project_id && text_eq r.name (trim name) && not (i == id))
    throw_if (is_some duplicate) (conflict "Role already exists in this project")
    update db (roles db) project_role_clash id (λ r. record r { name = trim name })

  unfoldable pub remove_role : ℕ → Action (World db) (Unit {0})
  unfolding delete_roles
  remove_role id = do
    find_by_id_or_throw db (roles db) id
    λ w. (ok tt, record w { team = delete_roles db (λ i. id == i) w.team })

  unfoldable pub get_permissions : ℕ → Action (World db) (List (ℕ × Permission))
  get_permissions role_id = find_many db (permissions db) (λ i p. p.project_role_id == role_id)

  -- A permission for the whole project, or for one department.
  abbrev same_scope : Option ℕ → Option ℕ → Bool
  same_scope none scope = not (is_some scope)
  same_scope (some d) scope = is_id scope d

  abbrev department_exists : Option ℕ → Action (World db) (Unit {0})
  department_exists none = pure tt
  department_exists (some d) = do referenced db (departments db) d; pure tt

  abbrev put_permission : Permission → Option (ℕ × Permission) → Action (World db) Permission
  put_permission p (some (id, old)) =
      update db (permissions db) permission_clash id (λ q. record q { flags = p.flags })
  put_permission p none = do
    referenced db (roles db) p.project_role_id
    department_exists p.department_id
    made ← create db (permissions db) permission_clash p
    pure made.1

  -- The update or insertion is one by hand for the whole project, and the client's for a
  -- department.
  unfoldable pub set_permission : ℕ → Text → Option ℕ → Flags → Action (World db) Permission
  set_permission role_id resource department_id flags = do
    throw_if (not (includes allowed_policy_resources (normalize_policy_resource resource)))
        (conflict "The resource is not a configured hardcoded task/resource")
    existing ← find_first db (permissions db) (λ i p.
        p.project_role_id == role_id
        && text_eq p.resource (normalize_policy_resource resource)
        && same_scope department_id p.department_id)
    put_permission
        (record {
          project_role_id = role_id;
          department_id = department_id;
          resource = normalize_policy_resource resource;
          flags = build_policy_flags (normalize_policy_resource resource) flags;
        })
        existing

  unfoldable pub remove_permission : ℕ → Action (World db) (Unit {0})
  remove_permission id = do
    find_by_id_or_throw db (permissions db) id
    λ w. (
      ok tt,
      record w {
        team = record w.team { permissions = db.remove_where w.team.permissions (λ i p. id == i) };
      },
    )
