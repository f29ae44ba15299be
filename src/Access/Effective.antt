-- ===== src/Access/Effective.antt =====
-- `getAccessMapForProjectUser`: the access map of a member, from the policies of their department
-- role, the permissions of their project role, and the defaults.
use rooeel_backend_api.Prelude.{
  ℕ, Bool, true, false, ◌&&◌, not, Option, none, some, List, [], ◌∷◌, if◌then◌else◌, is_some, map,
  truthy, ◌==◌, is_id,
}
use rooeel_backend_api.Text.{Text}
use rooeel_backend_api.Schema.{Flags, Permission, DepartmentRolePolicy, ProjectUser}
use rooeel_backend_api.Prisma.{Engine}
use rooeel_backend_api.World.{Team}
use rooeel_backend_api.Access.Resources.{default_user_view_resources, hardcoded_task_resources}
use rooeel_backend_api.Access.Map.{
  AccessMap, entry, normalize_resource, set_access, merge_access, empty_access,
}

-- A resource with the flags that a row gives it.
abbrev pub Grant : Type 0
Grant = Text × Flags

unfoldable pub set_all : List Grant → AccessMap → AccessMap
unfolding set_access
set_all [] m = m
set_all ((r, f) ∷ rest) m = set_all rest (set_access r f m)

-- A permission counts where nothing has set its resource.
unfoldable pub set_missing : List Grant → AccessMap → AccessMap
unfolding set_access entry
set_missing [] m = m
set_missing ((r, f) ∷ rest) m =
    set_missing rest (if is_some (entry (normalize_resource r) m) then m else set_access r f m)

unfoldable pub merge_all : List Grant → AccessMap → AccessMap
unfolding merge_access
merge_all [] m = m
merge_all ((r, f) ∷ rest) m = merge_all rest (merge_access r f m)

abbrev pub view_only : Flags
view_only = record { can_view = true; can_create = false; can_edit = false; can_delete = false }

unfoldable pub grant_views : List Text → AccessMap → AccessMap
unfolding merge_access
grant_views [] m = m
grant_views (r ∷ rest) m = grant_views rest (merge_access r view_only m)

-- The hardcoded resources are looked up as they are written.
unfoldable pub fill_missing : List Text → AccessMap → AccessMap
unfolding set_access entry
fill_missing [] m = m
fill_missing (r ∷ rest) m =
    fill_missing rest (if is_some (entry r m) then m else set_access r empty_access m)

abbrev pub is_nil : List Grant → Bool
is_nil [] = true
is_nil (_ ∷ _) = false

-- From the rows of the department role and of the project role.
unfoldable pub build_access_map : List Grant → List Grant → AccessMap
unfolding set_all set_missing merge_all grant_views fill_missing
build_access_map policies permissions =
    let granted : AccessMap =
      if not (is_nil policies)
      then set_missing permissions (set_all policies [])
      else merge_all permissions [] in
    fill_missing hardcoded_task_resources (
      if is_nil policies && is_nil permissions
      then grant_views default_user_view_resources granted
      else granted)

abbrev pub permission_grant : ℕ × Permission → Grant
permission_grant (i, p) = (p.resource, p.flags)

abbrev pub policy_grant : ℕ × DepartmentRolePolicy → Grant
policy_grant (i, p) = (p.resource, p.flags)

-- The permissions without a department, and those of the member's own.
abbrev pub in_scope : Option ℕ → Option ℕ → Bool
in_scope none own = true
in_scope (some d) own = is_id (truthy own) d

module _ (db : Engine) where
  abbrev pub permissions_of : Option ℕ → Option ℕ → Team db → List Grant
  permissions_of none department team = []
  permissions_of (some role) department team = map permission_grant (
      db.find_all team.permissions
        (λ i p. p.project_role_id == role && in_scope p.department_id department))

  abbrev pub policies_of : Option ℕ → Team db → List Grant
  policies_of none team = []
  policies_of (some role) team =
      map policy_grant (db.find_all team.policies (λ i p. p.department_role_id == role))

  unfoldable pub get_access_map_for_project_user : ProjectUser → Team db → AccessMap
  unfolding build_access_map
  get_access_map_for_project_user member team =
      build_access_map (policies_of (truthy member.department_role_id) team)
        (permissions_of (truthy member.project_role_id) member.department_id team)
