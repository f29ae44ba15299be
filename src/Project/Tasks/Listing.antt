-- ===== src/Project/Tasks/Listing.antt =====
-- Which tasks a caller who is no admin is shown.
use rooeel_backend_api.Prelude.{
  ℕ, ◌==◌, ◌&&◌, not, ◌≡◌, ◌⊎◌, ◌↔◌, refl, Option, none, some, true, false, Bool, arith, inl, inr,
  truthy, In, In-keep, keep_sound, map, In-map, map_sound, List, Bool-cases,
}
use mathlib.Core.Path.{subst}
use rooeel_backend_api.Prisma.{Engine}
use rooeel_backend_api.Schema.{Task, ProjectUser, is_admin}
use rooeel_backend_api.World.{World}
use rooeel_backend_api.Json.{JsonHost}
use rooeel_backend_api.Access.{can_view, can_perform_task_resource_action}
use rooeel_backend_api.Access.Effective.{get_access_map_for_project_user}
use rooeel_backend_api.Project.Lookup.{member_of}
use rooeel_backend_api.Project.Tasks.Resource.{TaskView, get_project_user_context}
use rooeel_backend_api.Project.Tasks.Handlers.{
  Viewer, in_viewer_scope, in_department, other_department, resource_of, view_of, tasks_for,
  get_tasks,
}

-- By the department that is asked for, and that of the member.
abbrev pub InScope : Option ℕ → Option ℕ → ℕ → Task → Type 0
InScope none none viewer t = Unit
InScope none (some own) viewer t =
    (t.department_id ≡ some own) ⊎ (t.department_id ≡ none) ⊎ (t.assigned_to ≡ some viewer)
InScope (some d) none viewer t = t.department_id ≡ some d
InScope (some d) (some own) viewer t = (t.department_id ≡ some d) × (d ≡ own)

-- Whether the code's three tests let a task pass.
abbrev pub scope_test : Option ℕ → Option ℕ → ℕ → Task → Bool
scope_test d own viewer t =
    not (other_department d own) && in_viewer_scope d own viewer t && in_department d t

scope_test_iff :
    (d own : Option ℕ) (viewer : ℕ) (t : Task)
    → (scope_test d own viewer t ≡ true) ↔ InScope d own viewer t
scope_test_iff none none viewer t = (λ h. tt, λ h. refl)
scope_test_iff none (some own) viewer t = ground arith
scope_test_iff (some d) none viewer t = ground arith
scope_test_iff (some d) (some own) viewer t = ground arith

-- A task of the project, in the scope of the caller, whose resource they may view.
pub record IsVisible (db : Engine) (host : JsonHost) (p : ℕ) (d : Option ℕ) (viewer : ℕ)
    (m : ProjectUser) (t : Task) (w : World db) : Type 0 where
  pub in_project : t.project_id ≡ p
  pub in_scope : InScope (truthy d) (truthy m.department_id) viewer t
  pub may_view :
      can_perform_task_resource_action
        (get_access_map_for_project_user db m w.team)
        (resource_of db host t)
        can_view
      ≡ true

module _ (db : Engine) (host : JsonHost) (p : ℕ) (d : Option ℕ) (viewer : ℕ) (m : ProjectUser)
    (w : World db) where
  abbrev selected : List (ℕ × Task)
  selected =
      tasks_for db host p (truthy d) viewer (m, get_access_map_for_project_user db m w.team) w

  abbrev where_clause : ℕ → Task → Bool
  where_clause i t =
      t.project_id == p
      && in_viewer_scope (truthy d) (truthy m.department_id) viewer t
      && in_department (truthy d) t

  abbrev may : ℕ × Task → Bool
  may x =
      can_perform_task_resource_action (get_access_map_for_project_user db m w.team)
        (resource_of db host x.1) can_view

  selected_sound :
      (i : ℕ) (t : Task)
      → In (i, t) selected
      → (db.row w.content.tasks i ≡ some t) × IsVisible db host p d viewer m t w
  selected_sound i t shown =
      elim (Bool-cases (other_department (truthy d) (truthy m.department_id))) [
        | inl other ↦ absurd (rw other at shown)
        | inr same ↦
            let (there, fits) =
              keep_sound may (i, t) (db.find_all w.content.tasks where_clause) (rw same at shown) in
            let (at, passes) = db.find_all-sound w.content.tasks where_clause i t there in
            (
              at,
              record {
                in_project = ground arith;
                in_scope =
                    (scope_test_iff (truthy d) (truthy m.department_id) viewer t).0 (ground arith);
                may_view = fits;
              },
            )
      ]

  selected_complete :
      (i : ℕ) (t : Task)
      → db.row w.content.tasks i ≡ some t
      → IsVisible db host p d viewer m t w
      → In (i, t) selected
  selected_complete i t at v =
      let passes : scope_test (truthy d) (truthy m.department_id) viewer t ≡ true =
        (scope_test_iff (truthy d) (truthy m.department_id) viewer t).1 v.in_scope in
      let apart : other_department (truthy d) (truthy m.department_id) ≡ false = ground arith in
      rw apart (
        In-keep may (i, t) (db.find_all w.content.tasks where_clause)
          (db.find_all-complete w.content.tasks where_clause i t at (ground (arith, v.in_project)))
          v.may_view)

answer :
    (db : Engine) (host : JsonHost) (p : ℕ) (d : Option ℕ) (v : Viewer) (w : World db) (k : ℕ)
    (m : ProjectUser)
    → is_admin v.role ≡ false
    → db.find w.team.members (member_of db p v.user_id) ≡ some (k, m)
    → get_tasks db host p d (some v) w
      ≡ map (view_of db host w) (selected db host p d v.user_id m w)
unfolding get_tasks get_project_user_context
answer db host p d v w k m plain found =
    rw (plain, get_tasks) (rw (found, get_project_user_context))

-- A caller who is no admin, and whose row as a member of the project is found, is shown exactly the
-- tasks of the project that are in their scope and whose resource they may view, each printed with
-- its subtasks: of the department that they ask for, which must be their own if they have one; or,
-- if they ask for none, those of their own department, of no department or assigned to them, and
-- all if they have no department.
pub get_tasks_exact :
    (db : Engine) (host : JsonHost) (p : ℕ) (d : Option ℕ) (v : Viewer) (w : World db) (k : ℕ)
    (m : ProjectUser)
    → is_admin v.role ≡ false
    → db.find w.team.members (member_of db p v.user_id) ≡ some (k, m)
    → (x : ℕ × TaskView)
    → In x (get_tasks db host p d (some v) w) ↔ (
        (i : ℕ) × (t : Task) × (db.row w.content.tasks i ≡ some t)
        × IsVisible db host p d v.user_id m t w
        × (view_of db host w (i, t) ≡ x))
get_tasks_exact db host p d v w k m plain found x = rw (answer db host p d v w k m plain found) (
  λ shown.
      let ((i, t), listed, same) =
        map_sound (view_of db host w) x (selected db host p d v.user_id m w) shown in
      let (at, visible) = selected_sound db host p d v.user_id m w i t listed in
      (i, t, at, visible, same),
  λ y.
      let (i, t, at, visible, same) = y in
      subst (λ z. In z (map (view_of db host w) (selected db host p d v.user_id m w))) same
        (In-map (view_of db host w) (i, t) (selected db host p d v.user_id m w)
          (selected_complete db host p d v.user_id m w i t at visible)),
)
