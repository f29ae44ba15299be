-- ===== src/Project/Tasks/Creation.antt =====
-- What a new task is.
use rooeel_backend_api.Prelude.{
  ℕ, ◌==◌, ◌≡◌, ◌≢◌, ◌⊎◌, refl, Option, none, some, ok, true, false, arith, Option-cases,
  Bool-cases, inl, inr, if◌then◌else◌, or_maybe,
}
use rooeel_backend_api.Prisma.{Engine}
use rooeel_backend_api.Schema.{Json, Task, is_admin, ProjectUser}
use rooeel_backend_api.World.{World}
use rooeel_backend_api.Json.{JsonHost, parse_json_like}
use rooeel_backend_api.Access.{can_create, can_perform_task_resource_action}
use rooeel_backend_api.Access.Effective.{get_access_map_for_project_user}
use rooeel_backend_api.Project.Lookup.{member_of}
use rooeel_backend_api.Project.Tasks.Resource.{
  TaskView, resolve_task_resource, resolve_task_creator_id, get_project_user_context,
}
use rooeel_backend_api.Project.Tasks.Handlers.{
  Viewer, CreateTask, new_task, insert_task, create_task, with_creator, json_text, resource_of,
}
use rooeel_backend_api.Project.Tasks.Authorization.{IsMember}
use rooeel_backend_api.Project.Tasks.Creator.{creator-with_creator, resource_of_created}

pub record IsCreated (db : Engine) (host : JsonHost) (project_id : ℕ) (dto : CreateTask)
    (v : Viewer) (id : ℕ) (w w' : World db) : Type 0 where
  pub task : Task
  pub is_new : db.row w.content.tasks id ≡ none
  pub stored :
      (j : ℕ)
      → db.row w'.content.tasks j ≡ (if id == j then some task else db.row w.content.tasks j)
  pub in_project : task.project_id ≡ project_id
  pub by_viewer : resolve_task_creator_id host task.form_schema ≡ some v.user_id
  pub judged :
      resource_of db host task ≡ resolve_task_resource host dto.kind (json_text dto.form_schema)
  pub allowed :
      (is_admin v.role ≡ true)
      ⊎ ((m : ProjectUser) × IsMember db project_id v.user_id m w
          × (can_perform_task_resource_action
                (get_access_map_for_project_user db m w.team)
                (resource_of db host task)
                can_create
              ≡ true))

module _ (db : Engine) (host : JsonHost) (t : Task) (w w' : World db) (id : ℕ) (view : TaskView)
    (done : insert_task db host t w ≡ (ok (id, view), w')) where
  insert_task-key : id ≡ db.next w.content.tasks
  unfolding insert_task
  insert_task-key = ground arith

  insert_task-rows : w'.content.tasks ≡ db.put w.content.tasks (db.next w.content.tasks) t
  unfolding insert_task
  insert_task-rows = ground arith

-- The form that is stored.
abbrev form : JsonHost → CreateTask → Viewer → Option Json
form host dto v = with_creator (some v.user_id) (parse_json_like host (json_text dto.form_schema))

module _ (db : Engine) (host : JsonHost) (p : ℕ) (dto : CreateTask) (v : Viewer)
    (w : World db) where
  abbrev MayCreate : ProjectUser → Type 0
  MayCreate m =
      can_perform_task_resource_action (get_access_map_for_project_user db m w.team)
        (resolve_task_resource host dto.kind (json_text dto.form_schema)) can_create
      ≡ true

  module _ (w' : World db) (id : ℕ) (view : TaskView) (known : v.user_id ≢ 0)
      (done : create_task db host p dto (some v) w ≡ (ok (id, view), w')) where
    by_admin :
        is_admin v.role ≡ true
        → insert_task db host
            (new_task p dto
              (form host dto v)
              (or_maybe dto.department_id none)
              (or_maybe dto.assigned_to none))
            w
          ≡ (ok (id, view), w')
    unfolding create_task
    by_admin boss = ground arith

    by_stranger :
        is_admin v.role ≡ false → db.find w.team.members (member_of db p v.user_id) ≡ none → ⊥
    unfolding create_task get_project_user_context
    by_stranger plain unknown = ground arith

    module _ (plain : is_admin v.role ≡ false) (k : ℕ) (m : ProjectUser)
        (found : db.find w.team.members (member_of db p v.user_id) ≡ some (k, m)) where
      by_member :
          insert_task db host
            (new_task p dto
              (form host dto v)
              (or_maybe dto.department_id m.department_id)
              (or_maybe dto.assigned_to (some v.user_id)))
            w
          ≡ (ok (id, view), w')
      unfolding create_task get_project_user_context
      by_member = ground arith

      permitted : MayCreate m
      unfolding create_task get_project_user_context
      permitted = ground arith

-- From the insertion, with any department and assignee.
created :
    (db : Engine) (host : JsonHost) (p : ℕ) (dto : CreateTask) (v : Viewer) (id : ℕ)
    (view : TaskView) (w w' : World db) (department assignee : Option ℕ)
    → insert_task db host (new_task p dto (form host dto v) department assignee) w
      ≡ (ok (id, view), w')
    → (is_admin v.role ≡ true)
      ⊎ ((m : ProjectUser) × IsMember db p v.user_id m w × MayCreate db host p dto v w m)
    → IsCreated db host p dto v id w w'
created db host p dto v id view w w' department assignee done allowed =
    let t : Task = new_task p dto (form host dto v) department assignee in
    let key = insert_task-key db host t w w' id view done in
    let rows = insert_task-rows db host t w w' id view done in
    let same = resource_of_created host v.user_id dto.kind (json_text dto.form_schema) in
    record {
      task = t;
      is_new = rw key (db.row-next w.content.tasks);
      stored = λ j. rw rows (rw key (db.row-put w.content.tasks (db.next w.content.tasks) t j));
      in_project = refl;
      by_viewer =
          creator-with_creator host v.user_id (parse_json_like host (json_text dto.form_schema));
      judged = same;
      allowed = elim allowed [
        | inl boss ↦ inl boss
        | inr (m, belongs, may) ↦ inr (m, belongs, rw same may)
      ];
    }

-- If `createTask` answers a caller whose id is not 0, then the task is a new row of the project
-- beside the old tasks as they were; its form names the caller as the creator; the checks of later
-- calls judge it by the resource that the data of the call names; and the caller is an admin, or a
-- member of the project who may create that resource.
pub create_task-IsCreated :
    (db : Engine) (host : JsonHost) (p : ℕ) (dto : CreateTask) (v : Viewer) (id : ℕ)
    (view : TaskView) (w w' : World db)
    → v.user_id ≢ 0
    → create_task db host p dto (some v) w ≡ (ok (id, view), w')
    → IsCreated db host p dto v id w w'
create_task-IsCreated db host p dto v id view w w' known done =
    elim (Bool-cases (is_admin v.role)) [
      | inl boss ↦
          created db host p dto v id view w w' _ _
            (by_admin db host p dto v w w' id view known done boss) (inl boss)
      | inr plain ↦ elim (Option-cases (db.find w.team.members (member_of db p v.user_id))) [
        | inl unknown ↦ absurd (by_stranger db host p dto v w w' id view known done plain unknown)
        | inr ((k, m), found) ↦
            let (listed, named) =
              db.find-sound w.team.members (member_of db p v.user_id) k m found in
            created db host p dto v id view w w' _ _
              (by_member db host p dto v w w' id view known done plain k m found)
              (inr (
                m,
                record {
                  key = k;
                  listed = listed;
                  in_project = ground arith;
                  is_user = ground arith;
                },
                permitted db host p dto v w w' id view known done plain k m found,
              ))
      ]
    ]
