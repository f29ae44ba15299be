-- ===== src/Auth/Guard.antt =====
-- src/auth/guards/project-permission.guard.ts, from the token of the `Authorization` header on.
pub mod Context
pub mod Grounds
pub mod Admission
use rooeel_backend_api.Prelude.{
  ℕ, String, Bool, true, false, not, ◌==◌, ◌&&◌, ◌||◌, Option, none, some, List, [], ◌∷◌, Action,
  Result, ok, err, ◌>>=◌, ◌>>◌, pure, throw, or_throw, throw_if, unauthorized, forbidden, is_some,
  truthy, is_id, if◌then◌else◌, same_id,
}
use rooeel_backend_api.Text.{Text, codes, text_eq, includes, to_upper_case}
use rooeel_backend_api.Prisma.{Engine}
use rooeel_backend_api.Schema.{is_admin, ProjectUser, Permission, DepartmentRolePolicy}
use rooeel_backend_api.World.{World, Content, Team}
use rooeel_backend_api.Tokens.{Tokens, Claims}
use rooeel_backend_api.Access
use rooeel_backend_api.Access.{flag}

unfoldable pub default_view_resources : List Text
default_view_resources =
    codes "WORK_ORDER"
    ∷ codes "TASK"
    ∷ codes "SUBTASK"
    ∷ codes "DEPARTMENT"
    ∷ codes "USER"
    ∷ codes "FIELD"
    ∷ codes "PROJECT_FIELD"
    ∷ []

-- `PermissionMetadata`
pub record Metadata : Type 0 where
  pub resource : Text
  pub action : Access.Action

-- The arguments of a query that the guard looks at.
pub record Args : Type 0 where
  pub project_id : Option ℕ
  pub field_id : Option ℕ
  pub work_order_id : Option ℕ
  pub id : Option ℕ
  pub task_id : Option ℕ

abbrev pub is_view : Access.Action → Bool
is_view Access.can_view = true
is_view Access.can_create = false
is_view Access.can_edit = false
is_view Access.can_delete = false

-- `permission?.departmentId && projectUser.departmentId !== permission.departmentId`
abbrev pub outside : Option Permission → Option ℕ → Bool
outside none own = false
outside (some p) own = elim (truthy p.department_id) [ none ↦ false | some d ↦ not (is_id own d) ]

-- Whether a row grants the action, that of the department role before that of the project role.
abbrev pub allows : Access.Action → Option Permission → Option DepartmentRolePolicy → Bool
allows a permission (some p) = flag p.flags a
allows a (some q) none = flag q.flags a
allows a none none = false

-- From the rows of the member's roles that are about the resource.
unfoldable pub decide :
    Metadata → Option ℕ → Option Permission → Option DepartmentRolePolicy → Result (Unit {0})
unfolding default_view_resources
decide meta own permission policy =
    if not (is_some permission) && not (is_some policy)
    then if is_view meta.action && includes default_view_resources (to_upper_case meta.resource)
      then ok tt
      else err (forbidden "No permission defined for the resource on your role")
    else if (text_eq meta.resource (codes "TASK") || text_eq meta.resource (codes "SUBTASK"))
        && outside permission own
    then err (forbidden "You do not belong to the department required for this operation")
    else if allows meta.action permission policy
    then ok tt
    else err (forbidden "Access Denied")

abbrev pub second : {R : Type 0} → Option (ℕ × R) → Option R
second none = none
second (some (i, r)) = some r

module _ (db : Engine) where
  abbrev project_of_field : ℕ → Content db → Option ℕ
  project_of_field i c = elim (db.row c.fields i) [ none ↦ none | some f ↦ some f.project_id ]

  abbrev project_of_work_order : ℕ → Content db → Option ℕ
  project_of_work_order i c = elim (db.row c.work_orders i) [
    | none ↦ none
    | some f ↦ some f.project_id
  ]

  abbrev project_of_task : ℕ → Content db → Option ℕ
  project_of_task i c = elim (db.row c.tasks i) [ none ↦ none | some t ↦ some t.project_id ]

  abbrev project_of_subtask : ℕ → Content db → Option ℕ
  project_of_subtask i c = elim (db.row c.subtasks i) [
    | none ↦ none
    | some t ↦ project_of_task t.task_id c
  ]

  abbrev project_of_department : ℕ → Team db → Option ℕ
  project_of_department i t = elim (db.row t.departments i) [
    | none ↦ none
    | some d ↦ some d.project_id
  ]

  -- `args.id`, by the resource.
  abbrev pub project_of_id : Text → ℕ → World db → Option ℕ
  project_of_id resource i w =
      if text_eq resource (codes "DEPARTMENT")
      then project_of_department i w.team
      else if text_eq resource (codes "TASK")
      then project_of_task i w.content
      else if text_eq resource (codes "SUBTASK")
      then project_of_subtask i w.content
      else none

  -- The first argument that is given decides; 0 counts as not given.
  unfoldable pub resolve_project : Text → Args → World db → Option ℕ
  resolve_project resource args w = elim (truthy args.project_id) [
    | some p ↦ some p
    | none ↦ elim (truthy args.field_id) [
      | some f ↦ project_of_field f w.content
      | none ↦ elim (truthy args.work_order_id) [
        | some o ↦ project_of_work_order o w.content
        | none ↦ elim (truthy args.id) [
          | some i ↦ project_of_id resource i w
          | none ↦ elim (truthy args.task_id) [ some t ↦ project_of_task t w.content | none ↦ none ]
        ]
      ]
    ]
  ]

  -- Some row that is about the resource: the code takes the first that the database gives.
  abbrev pub permission_about : Option ℕ → Text → Team db → Option Permission
  permission_about none key t = none
  permission_about (some r) key t =
      second (db.find t.permissions (λ i p. p.project_role_id == r && text_eq p.resource key))

  abbrev pub policy_about : Option ℕ → Text → Team db → Option DepartmentRolePolicy
  policy_about none key t = none
  policy_about (some r) key t =
      second (db.find t.policies (λ i p. p.department_role_id == r && text_eq p.resource key))

  abbrev pub decide_for : Metadata → ProjectUser → Team db → Result (Unit {0})
  decide_for meta m t =
      decide meta m.department_id
        (permission_about m.project_role_id (to_upper_case meta.resource) t)
        (policy_about m.department_role_id (to_upper_case meta.resource) t)

  abbrev check_member : Metadata → Claims → Args → World db → Result (Unit {0})
  check_member meta payload args w = elim (truthy (resolve_project meta.resource args w)) [
    | none ↦ err (forbidden "Could not determine Project context for permission check")
    | some p ↦
        elim (db.find w.team.members (λ i m. m.project_id == p && m.user_id == payload.sub)) [
          | none ↦ err (forbidden "You are not assigned to this project")
          | some found ↦ decide_for meta found.1 w.team
        ]
  ]

  abbrev check_metadata : Option Metadata → Claims → Args → World db → Result (Unit {0})
  check_metadata none payload args w = ok tt
  check_metadata (some meta) payload args w = check_member meta payload args w

  -- The guard writes nothing. `bearer` is the token of the header, if there is one.
  unfoldable pub can_activate :
      Tokens → ℕ → Option String → Option Metadata → Args → World db → Result (Unit {0})
  unfolding resolve_project decide
  can_activate jwt now none meta args w = err (unauthorized "Authentication required")
  can_activate jwt now (some token) meta args w = elim (jwt.verify now token) [
    | none ↦ err (unauthorized "Invalid token")
    | some payload ↦ if is_admin payload.role then ok tt else check_metadata meta payload args w
  ]
