-- ===== src/Project/View.antt =====
-- What a caller sees of a project: `applyViewerPolicyOnProject`, `findOne` and `getUserProjects`.
pub mod Filter
use rooeel_backend_api.Prelude.{
  ℕ, ◌==◌, ◌&&◌, ◌||◌, not, Bool, true, false, String, Option, none, some, List, [], ◌∷◌, map, keep,
  any, first, if◌then◌else◌, is_some, truthy, or_else, or_maybe, is_id, Action, Result, ok, err,
  ◌>>=◌, ◌>>◌, pure, throw, throw_if, or_throw, gets, not_found, unauthorized, forbidden, Exception,
  ◌≡◌, refl, sym, arith, inl, inr, ◌⊎◌, ◌↔◌, In, Bool-cases, Option-cases, keep_sound, In-keep,
  In-map, map_sound,
}
use rooeel_backend_api.Text.{Text, codes}
use rooeel_backend_api.Prisma.{Engine, find_by_id, find_many}
use rooeel_backend_api.Schema.{
  Project, ProjectUser, Department, ProjectRole, ProjectField, ProjectFieldValue, Task,
  WorkOrderPdf,
}
use rooeel_backend_api.World.{World, Team, projects, members}
use rooeel_backend_api.Json.{JsonHost}
use rooeel_backend_api.Storage.{ObjectStore, get_presigned_url}
use rooeel_backend_api.Access.{
  AccessMap, can_access, can_view, has_policy_for_any_resource, has_access_for_any_resource,
  project_field_resources, can_perform_task_resource_action,
}
use rooeel_backend_api.Access.Effective.{get_access_map_for_project_user}
use rooeel_backend_api.Project.Tasks.Resource.{TaskView, resolve_task_resource, serialize_task}
use rooeel_backend_api.Project.Tasks.Handlers.{Viewer, restricted}

-- A work order with its signed address.
pub record SignedOrder : Type 0 where
  pub id : ℕ
  pub order : WorkOrderPdf
  pub file_url : Text

-- The rows that a query reads with a project; `none` for those that it does not read.
pub record ProjectView : Type 0 where
  pub project : Project
  pub members : List (ℕ × ProjectUser)
  pub departments : Option (List (ℕ × Department))
  pub roles : Option (List (ℕ × ProjectRole))
  pub fields : Option (List (ℕ × ProjectField × Option ProjectFieldValue))
  pub tasks : Option (List (ℕ × Task))
  pub work_orders : List (ℕ × WorkOrderPdf)

-- What the filter leaves: with its tasks printed and the policies of the viewer, in an order that
-- is left out.
pub record ShownProject : Type 0 where
  pub project : Project
  pub members : List (ℕ × ProjectUser)
  pub departments : Option (List (ℕ × Department))
  pub roles : Option (List (ℕ × ProjectRole))
  pub fields : Option (List (ℕ × ProjectField × Option ProjectFieldValue))
  pub tasks : Option (List (ℕ × TaskView))
  pub work_orders : List (ℕ × WorkOrderPdf)
  pub policies : Option AccessMap

-- The answer: what the filter leaves, its work orders the signed ones.
pub record SignedProject : Type 0 where
  pub project : Project
  pub members : List (ℕ × ProjectUser)
  pub departments : Option (List (ℕ × Department))
  pub roles : Option (List (ℕ × ProjectRole))
  pub fields : Option (List (ℕ × ProjectField × Option ProjectFieldValue))
  pub tasks : Option (List (ℕ × TaskView))
  pub work_orders : List SignedOrder
  pub policies : Option AccessMap

-- `{ ...project, workOrders }`
abbrev pub with_work_orders : ShownProject → List SignedOrder → SignedProject
with_work_orders p signed = record {
  project = p.project;
  members = p.members;
  departments = p.departments;
  roles = p.roles;
  fields = p.fields;
  tasks = p.tasks;
  work_orders = signed;
  policies = p.policies;
}

abbrev pub of_user : ℕ → ℕ × ProjectUser → Bool
of_user viewer x = x.1.user_id == viewer

abbrev pub if_allowed : {A : Type 0} → Bool → Option (List A) → Option (List A)
if_allowed true xs = xs
if_allowed false xs = some []

abbrev pub may_view_fields : AccessMap → Bool
may_view_fields access_map =
    if has_policy_for_any_resource access_map project_field_resources
    then has_access_for_any_resource access_map project_field_resources can_view
    else true

-- `Number(null)` is 0.
abbrev pub is_in_viewer_scope : ℕ → ProjectUser → Task → Bool
is_in_viewer_scope viewer m t =
    not (is_some (truthy t.department_id))
    || or_else t.department_id 0 == or_else m.department_id 0
    || or_else t.assigned_to 0 == viewer

module _ (host : JsonHost) where
  abbrev pub is_visible : ℕ → ProjectUser → AccessMap → ℕ × Task → Bool
  is_visible viewer m access_map x =
      is_in_viewer_scope viewer m x.1
      && can_perform_task_resource_action access_map
          (resolve_task_resource host (some x.1.kind) x.1.form_schema) can_view

  -- The queries that come here read no subtasks.
  abbrev pub print_task : ℕ × Task → ℕ × TaskView
  print_task (i, t) = (i, serialize_task host t [])

  abbrev pub hidden : ProjectView → ShownProject
  hidden p = record {
    project = p.project;
    members = [];
    departments = some [];
    roles = p.roles;
    fields = some [];
    tasks = some [];
    work_orders = [];
    policies = some [];
  }

  abbrev pub visible_tasks :
      ℕ → ProjectUser → AccessMap → Option (List (ℕ × Task)) → List (ℕ × TaskView)
  visible_tasks viewer m access_map none = []
  visible_tasks viewer m access_map (some ts) =
      map print_task (keep (is_visible viewer m access_map) ts)

  abbrev pub shown_to : ℕ → ProjectUser → AccessMap → ProjectView → ShownProject
  shown_to viewer m access_map p = record {
    project = p.project;
    members =
        if can_access access_map (codes "USER") can_view
        then p.members
        else keep (of_user viewer) p.members;
    departments = if_allowed (can_access access_map (codes "DEPARTMENT") can_view) p.departments;
    roles = p.roles;
    fields = if_allowed (may_view_fields access_map) p.fields;
    tasks = some (visible_tasks viewer m access_map p.tasks);
    work_orders = if can_access access_map (codes "WORK_ORDER") can_view then p.work_orders else [];
    policies = some access_map;
  }

module _ (db : Engine) (host : JsonHost) where
  unfoldable pub apply_viewer_policy_on_project : ProjectView → ℕ → Team db → ShownProject
  apply_viewer_policy_on_project p viewer t = elim (first (of_user viewer) p.members) [
    | none ↦ hidden host p
    | some (i, m) ↦ shown_to host viewer m (get_access_map_for_project_user db m t) p
  ]

  -- Without a viewer.
  abbrev pub unfiltered : ProjectView → ShownProject
  unfiltered p = record {
    project = p.project;
    members = p.members;
    departments = p.departments;
    roles = p.roles;
    fields = p.fields;
    tasks = none;
    work_orders = p.work_orders;
    policies = none;
  }

module _ (db : Engine) where
  abbrev field_value_of : World db → ℕ → Option ProjectFieldValue
  field_value_of w i = elim (db.find w.content.field_values (λ j v. v.field_id == i)) [
    | none ↦ none
    | some (j, v) ↦ some v
  ]

  abbrev with_value : World db → ℕ × ProjectField → ℕ × ProjectField × Option ProjectFieldValue
  with_value w (i, f) = (i, f, field_value_of w i)

  abbrev members_of : ℕ → World db → List (ℕ × ProjectUser)
  members_of id w = db.find_all w.team.members (λ i m. m.project_id == id)

  abbrev orders_of : ℕ → World db → List (ℕ × WorkOrderPdf)
  orders_of id w = db.find_all w.content.work_orders (λ i o. o.project_id == id)

  -- The rows that `findOne` reads. The names of the creator and of the members are left out.
  abbrev pub read_project : World db → ℕ → Project → ProjectView
  read_project w id p = record {
    project = p;
    members = members_of id w;
    departments = some (db.find_all w.team.departments (λ i d. d.project_id == id));
    roles = some (db.find_all w.team.roles (λ i r. r.project_id == id));
    fields = some (map (with_value w) (db.find_all w.content.fields (λ i f. f.project_id == id)));
    tasks = none;
    work_orders = orders_of id w;
  }

  -- Those that `getUserProjects` reads.
  abbrev pub read_own_project : World db → ℕ → Project → ProjectView
  read_own_project w id p = record {
    project = p;
    members = members_of id w;
    departments = none;
    roles = none;
    fields = none;
    tasks = some (db.find_all w.content.tasks (λ i t. t.project_id == id));
    work_orders = orders_of id w;
  }

module _ {S : Type 0} (s3 : ObjectStore) where
  -- The address of each work order; it throws if one cannot be signed.
  unfoldable pub sign_orders : List (ℕ × WorkOrderPdf) → Action S (List SignedOrder)
  unfolding get_presigned_url
  sign_orders [] = pure []
  sign_orders ((i, o) ∷ os) = do
    url ← get_presigned_url s3 o.file_key o.file_name
    rest ← sign_orders os
    pure (record { id = i; order = o; file_url = url } ∷ rest)

  abbrev pub with_urls : ShownProject → Action S SignedProject
  with_urls p = do signed ← sign_orders p.work_orders; pure (with_work_orders p signed)

module _ (db : Engine) (host : JsonHost) (s3 : ObjectStore) where
  abbrev pub view_for : ProjectView → Option ℕ → Team db → Result ShownProject
  view_for p none t = ok (unfiltered db host p)
  view_for p (some v) t =
      if any (of_user v) p.members
      then ok (apply_viewer_policy_on_project db host p v t)
      else err (not_found "Project with ID not found")

  unfoldable pub find_one : ℕ → Option Viewer → Action (World db) SignedProject
  unfolding apply_viewer_policy_on_project
  find_one id viewer = do
    p ← or_throw (← find_by_id db (projects db) id) (not_found "Project with ID not found")
    shown ← λ w. (view_for (read_project db w id p) (restricted viewer) w.team, w)
    with_urls s3 shown

  -- A membership whose project is gone, which a foreign key forbids, is passed over.
  abbrev pub own_projects : ℕ → List (ℕ × ProjectUser) → World db → List ShownProject
  own_projects viewer [] w = []
  own_projects viewer ((i, m) ∷ ms) w = elim (db.row w.content.projects m.project_id) [
    | none ↦ own_projects viewer ms w
    | some p ↦
        apply_viewer_policy_on_project db host (read_own_project db w m.project_id p) viewer w.team
        ∷ own_projects viewer ms w
  ]

  abbrev pub sign_projects : List ShownProject → Action (World db) (List SignedProject)
  sign_projects [] = pure []
  sign_projects (p ∷ ps) = do signed ← with_urls s3 p; rest ← sign_projects ps; pure (signed ∷ rest)

  unfoldable pub get_user_projects : ℕ → Action (World db) (List SignedProject)
  unfolding apply_viewer_policy_on_project
  get_user_projects user_id = do
    memberships ← find_many db (members db) (λ i m. m.user_id == user_id)
    shown ← gets (own_projects user_id memberships)
    sign_projects shown
