-- ===== src/Project/Tasks/Authorization.antt =====
-- What an update of a task has met and done, for a caller who is no admin.
use rooeel_backend_api.Prelude.{
  ℕ, ◌==◌, true, false, ◌≡◌, ◌⊎◌, refl, Option, none, some, ok, arith, Option-cases, Bool-cases,
  inl, inr, if◌then◌else◌, is_id,
}
use rooeel_backend_api.Prisma.{Engine}
use rooeel_backend_api.Schema.{is_admin, Task, ProjectUser, Json}
use rooeel_backend_api.World.{World}
use rooeel_backend_api.Json.{JsonHost, parse_json_like}
use rooeel_backend_api.Access.{can_edit, can_perform_task_resource_action}
use rooeel_backend_api.Access.Effective.{get_access_map_for_project_user}
use rooeel_backend_api.Project.Lookup.{member_of}
use rooeel_backend_api.Project.Tasks.Resource.{
  TaskView, resolve_task_creator_id, get_project_user_context,
}
use rooeel_backend_api.Project.Tasks.Handlers.{
  Viewer, UpdateTask, apply_task, is_done, json_text, resource_of, update_task, save_task,
}

-- A member of a project, by their row.
pub record IsMember (db : Engine) (project_id user_id : ℕ) (m : ProjectUser) (w : World db)
    : Type 0 where
  pub key : ℕ
  pub listed : db.row w.team.members key ≡ some m
  pub in_project : m.project_id ≡ project_id
  pub is_user : m.user_id ≡ user_id

pub record IsAuthorised (db : Engine) (host : JsonHost) (id : ℕ) (dto : UpdateTask) (v : Viewer)
    (w w' : World db) : Type 0 where
  pub task : Task
  pub member : ProjectUser
  pub found : db.row w.content.tasks id ≡ some task
  pub belongs : IsMember db task.project_id v.user_id member w
  pub may_edit :
      (can_perform_task_resource_action
          (get_access_map_for_project_user db member w.team)
          (resource_of db host task)
          can_edit
        ≡ true)
      ⊎ ((task.assigned_to ≡ some v.user_id)
          × (dto.title ≡ none)
          × (dto.description ≡ none)
          × (dto.assigned_to ≡ none))
  pub delegates :
      (dto.assigned_to ≡ none) ⊎ (resolve_task_creator_id host task.form_schema ≡ some v.user_id)
  pub validates :
      (is_done dto.status ≡ false)
      ⊎ (resolve_task_creator_id host task.form_schema ≡ some v.user_id)
  pub written :
      (j : ℕ)
      → db.row w'.content.tasks j ≡ (
          if id == j
          then some (apply_task dto (parse_json_like host (json_text dto.submission_data)) task)
          else db.row w.content.tasks j)
  pub team : w'.team ≡ w.team

assignee_cases :
    (o : Option (Option ℕ)) → (o ≡ none) ⊎ ((o ≡ some none) ⊎ ((a : ℕ) × (o ≡ some (some a))))
assignee_cases none = inl refl
assignee_cases (some none) = inr (inl refl)
assignee_cases (some (some a)) = inr (inr (a, refl))

worker : (o : Option ℕ) (a : ℕ) → is_id o a ≡ true → o ≡ some a
worker none a h = cc
worker (some b) a h = ground arith

module _ (db : Engine) (host : JsonHost) (id : ℕ) (dto : UpdateTask) (submission : Option Json)
    (w w' : World db) (r : ℕ × TaskView) (t : Task) where
  save_task-row :
      db.row w.content.tasks id ≡ some t
      → save_task db host id dto submission w ≡ (ok r, w')
      → (j : ℕ)
      → db.row w'.content.tasks j
        ≡ (if id == j then some (apply_task dto submission t) else db.row w.content.tasks j)
  unfolding save_task
  save_task-row at done j = elim (assignee_cases dto.assigned_to) [
    | inl keeps ↦ ground (arith, db.row-put w.content.tasks id (apply_task dto submission t) j)
    | inr (inl clears) ↦
        ground (arith, db.row-put w.content.tasks id (apply_task dto submission t) j)
    | inr (inr (a, sets)) ↦
        ground (arith, db.row-put w.content.tasks id (apply_task dto submission t) j)
  ]

  save_task-team :
      db.row w.content.tasks id ≡ some t
      → save_task db host id dto submission w ≡ (ok r, w')
      → w'.team ≡ w.team
  unfolding save_task
  save_task-team at done = elim (assignee_cases dto.assigned_to) [
    | inl keeps ↦ ground arith
    | inr (inl clears) ↦ ground arith
    | inr (inr (a, sets)) ↦ ground arith
  ]

no_task :
    (db : Engine) (host : JsonHost) (id : ℕ) (dto : UpdateTask) (v : Option Viewer)
    (w w' : World db) (r : ℕ × TaskView)
    → update_task db host id dto v w ≡ (ok r, w')
    → db.row w.content.tasks id ≡ none
    → ⊥
unfolding update_task
no_task db host id dto v w w' r done missing = ground arith

no_member :
    (db : Engine) (host : JsonHost) (id : ℕ) (dto : UpdateTask) (v : Viewer) (w w' : World db)
    (r : ℕ × TaskView)
    → is_admin v.role ≡ false
    → update_task db host id dto (some v) w ≡ (ok r, w')
    → (t : Task) → db.row w.content.tasks id ≡ some t
    → db.find w.team.members (member_of db t.project_id v.user_id) ≡ none
    → ⊥
unfolding update_task get_project_user_context
no_member db host id dto v w w' r plain done t at stranger = ground arith

module _ (db : Engine) (host : JsonHost) (id : ℕ) (dto : UpdateTask) (v : Viewer) (w w' : World db)
    (r : ℕ × TaskView) (plain : is_admin v.role ≡ false)
    (done : update_task db host id dto (some v) w ≡ (ok r, w')) (t : Task)
    (at : db.row w.content.tasks id ≡ some t) (k : ℕ) (m : ProjectUser)
    (found : db.find w.team.members (member_of db t.project_id v.user_id) ≡ some (k, m)) where
  edits :
      (can_perform_task_resource_action
          (get_access_map_for_project_user db m w.team)
          (resource_of db host t)
          can_edit
        ≡ true)
      ⊎ ((t.assigned_to ≡ some v.user_id)
          × (dto.title ≡ none)
          × (dto.description ≡ none)
          × (dto.assigned_to ≡ none))
  unfolding update_task get_project_user_context
  edits =
      elim (Bool-cases (
        can_perform_task_resource_action (get_access_map_for_project_user db m w.team)
          (resource_of db host t) can_edit)) [
            | inl allowed ↦ inl allowed
            | inr denied ↦ inr (
              worker t.assigned_to v.user_id (ground arith),
              ground arith,
              ground arith,
              ground arith,
            )
          ]

  delegated :
      (dto.assigned_to ≡ none) ⊎ (resolve_task_creator_id host t.form_schema ≡ some v.user_id)
  unfolding update_task get_project_user_context
  delegated = elim (Option-cases dto.assigned_to) [
    | inl kept ↦ inl kept
    | inr (a, given) ↦ inr (ground arith)
  ]

  validated :
      (is_done dto.status ≡ false) ⊎ (resolve_task_creator_id host t.form_schema ≡ some v.user_id)
  unfolding update_task get_project_user_context
  validated = elim (Bool-cases (is_done dto.status)) [
    | inl finishes ↦ inr (ground arith)
    | inr other ↦ inl other
  ]

  saves :
      save_task db host id dto (parse_json_like host (json_text dto.submission_data)) w ≡ (ok r, w')
  unfolding update_task get_project_user_context
  saves = ground arith

-- If `updateTask` answers a caller who is no admin, then the task was stored and the caller is a
-- member of its project; they may edit the resource of the task, or it is assigned to them and they
-- leave the title, the description and the assignee out; if they give an assignee, or the status
-- "done" in any case, they are the task's creator; afterwards the data is written into that task,
-- and no other task and nothing of the team has changed.
pub update_task-IsAuthorised :
    (db : Engine) (host : JsonHost) (id : ℕ) (dto : UpdateTask) (v : Viewer) (w w' : World db)
    (r : ℕ × TaskView)
    → is_admin v.role ≡ false
    → update_task db host id dto (some v) w ≡ (ok r, w')
    → IsAuthorised db host id dto v w w'
update_task-IsAuthorised db host id dto v w w' r plain done =
    elim (Option-cases (db.row w.content.tasks id)) [
      | inl missing ↦ absurd (no_task db host id dto (some v) w w' r done missing)
      | inr (t, at) ↦
          elim (Option-cases (db.find w.team.members (member_of db t.project_id v.user_id))) [
            | inl stranger ↦ absurd (no_member db host id dto v w w' r plain done t at stranger)
            | inr ((k, m), found) ↦
                let (listed, named) =
                  db.find-sound w.team.members (member_of db t.project_id v.user_id) k m found in
                let saved = saves db host id dto v w w' r plain done t at k m found in
                record {
                  task = t;
                  member = m;
                  found = at;
                  belongs = record {
                    key = k;
                    listed = listed;
                    in_project = ground arith;
                    is_user = ground arith;
                  };
                  may_edit = edits db host id dto v w w' r plain done t at k m found;
                  delegates = delegated db host id dto v w w' r plain done t at k m found;
                  validates = validated db host id dto v w w' r plain done t at k m found;
                  written =
                      save_task-row db host id dto
                        (parse_json_like host (json_text dto.submission_data)) w w' r t at saved;
                  team =
                      save_task-team db host id dto
                        (parse_json_like host (json_text dto.submission_data)) w w' r t at saved;
                }
          ]
    ]
