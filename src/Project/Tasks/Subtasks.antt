-- ===== src/Project/Tasks/Subtasks.antt =====
-- `createSubTask`, `updateSubTask` and `removeSubTask`. Forms and submissions are stored as they
-- are given, as texts.
use rooeel_backend_api.Prelude.{ℕ, String, Option, none, Action, ◌>>◌, pure, or_maybe, or_else}
use rooeel_backend_api.Text.{Text, codes}
use rooeel_backend_api.Prisma.{Engine, find_by_id_or_throw, create, update, delete}
use rooeel_backend_api.Schema.{SubTask}
use rooeel_backend_api.World.{World, tasks, subtasks}
use rooeel_backend_api.Project.Lookup.{referenced}
use rooeel_backend_api.Project.Tasks.Handlers.{UpdateTask, user_given, assignee_given, json_text}

pub record CreateSubTask : Type 0 where
  pub title : String
  pub description : Option String
  pub assigned_to : Option ℕ
  pub kind : Option Text
  pub form_schema : Option Text

-- The data of an update.
unfoldable pub apply_subtask : UpdateTask → SubTask → SubTask
apply_subtask dto s = record s {
  title = or_else dto.title s.title;
  description = or_else dto.description s.description;
  status = or_else dto.status s.status;
  assigned_to = or_else dto.assigned_to s.assigned_to;
  submission_data = or_maybe (json_text dto.submission_data) s.submission_data;
}

module _ (db : Engine) where
  unfoldable pub create_subtask : ℕ → CreateSubTask → Action (World db) (ℕ × SubTask)
  create_subtask task_id dto = do
    referenced db (tasks db) task_id
    user_given dto.assigned_to
    create db (subtasks db) none (record {
      task_id = task_id;
      title = dto.title;
      description = dto.description;
      status = codes "pending";
      kind = or_else dto.kind (codes "basic");
      form_schema = json_text dto.form_schema;
      submission_data = none;
      assigned_to = dto.assigned_to;
    })

  unfoldable pub update_subtask : ℕ → UpdateTask → Action (World db) SubTask
  update_subtask id dto = do
    find_by_id_or_throw db (subtasks db) id
    assignee_given dto.assigned_to
    update db (subtasks db) none id (apply_subtask dto)

  unfoldable pub remove_subtask : ℕ → Action (World db) (Unit {0})
  remove_subtask id = do
    find_by_id_or_throw db (subtasks db) id
    delete db (subtasks db) id
    pure tt
