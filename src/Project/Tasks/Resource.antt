-- ===== src/Project/Tasks/Resource.antt =====
-- What a task is about: the resource by which it is judged, its creator, and its answer.
use rooeel_backend_api.Prelude.{
  ℕ, ◌==◌, ◌||◌, Bool, Option, none, some, List, [], ◌∷◌, map, if◌then◌else◌, or_maybe, any,
  or_else,
}
use rooeel_backend_api.Text.{Text, codes, trim, is_empty, lower}
use rooeel_backend_api.Prisma.{Engine}
use rooeel_backend_api.Schema.{Json, Task, SubTask, ProjectUser, Fields}
use rooeel_backend_api.World.{World}
use rooeel_backend_api.Json.{
  JsonHost, field_of, not_null, or_zero, object_of, parse_json_like, serialize_json,
}
use rooeel_backend_api.Access.{AccessMap, normalize_resource}
use rooeel_backend_api.Access.Effective.{get_access_map_for_project_user}
use rooeel_backend_api.Project.Lookup.{member_of}

-- What follows a prefix, in letters of either case.
unfoldable pub after_prefix : Text → Text → Option Text
after_prefix [] s = some s
after_prefix (p ∷ ps) [] = none
after_prefix (p ∷ ps) (c ∷ s) = if lower c == lower p then after_prefix ps s else none

-- What `.` of a regular expression does not match.
abbrev pub ends_line : ℕ → Bool
ends_line c = c == 10 || c == 13 || c == 0x2028 || c == 0x2029

-- `/^resource:(.+)$/i`
unfoldable pub match_resource : Text → Option Text
unfolding after_prefix
match_resource s = elim (after_prefix (codes "resource:") s) [
  | none ↦ none
  | some rest ↦ if is_empty rest || any ends_line rest then none else some rest
]

-- The resource that the type of a task names.
abbrev pub resource_of_kind : Option Text → Text
resource_of_kind none = codes "TASK"
resource_of_kind (some rest) =
    if is_empty (normalize_resource rest) then codes "TASK" else normalize_resource rest

-- A task as a handler answers it, with its subtasks; forms and submissions are printed.
pub record SubTaskView : Type 0 where
  pub subtask : SubTask
  pub form_schema : Option Text
  pub submission_data : Option Text

pub record TaskView : Type 0 where
  pub task : Task
  pub form_schema : Option Text
  pub submission_data : Option Text
  pub subtasks : List (ℕ × SubTaskView)

module _ (host : JsonHost) where
  -- `String(schema.resource ?? schema.resourceKey ?? schema.accessResource ?? '')`, normalised
  unfoldable pub resource_of_fields : Fields → Text
  resource_of_fields fs =
      elim (or_maybe (not_null (field_of (codes "resource") fs)) (
        or_maybe (not_null (field_of (codes "resourceKey") fs))
          (not_null (field_of (codes "accessResource") fs)))) [
            | none ↦ normalize_resource []
            | some v ↦ normalize_resource (host.text_of v)
          ]

  abbrev pub resource_of_form : Option Fields → Text
  resource_of_form none = []
  resource_of_form (some fs) = resource_of_fields fs

  unfoldable pub resource_of_schema : Option Json → Text
  resource_of_schema schema = resource_of_form (object_of (parse_json_like host schema))

  unfoldable pub resolve_task_resource : Option Text → Option Json → Text
  resolve_task_resource kind schema =
      if is_empty (resource_of_schema schema)
      then resource_of_kind (match_resource (trim (or_else kind [])))
      else resource_of_schema schema

  -- `none` is a number that is no key.
  abbrev pub creator_of_form : Option Fields → Option ℕ
  creator_of_form none = some 0
  creator_of_form (some fs) = host.number_of (or_zero (field_of (codes "createdBy") fs))

  unfoldable pub resolve_task_creator_id : Option Json → Option ℕ
  resolve_task_creator_id schema = creator_of_form (object_of (parse_json_like host schema))

  abbrev serialize_subtask : ℕ × SubTask → ℕ × SubTaskView
  serialize_subtask (i, s) = (
    i,
    record {
      subtask = s;
      form_schema = serialize_json host s.form_schema;
      submission_data = serialize_json host s.submission_data;
    },
  )

  unfoldable pub serialize_task : Task → List (ℕ × SubTask) → TaskView
  unfolding serialize_json
  serialize_task t subtasks = record {
    task = t;
    form_schema = serialize_json host t.form_schema;
    submission_data = serialize_json host t.submission_data;
    subtasks = map serialize_subtask subtasks;
  }

module _ (db : Engine) where
  -- A member of a project with what they may do there; it reads and writes nothing else.
  unfoldable pub get_project_user_context : ℕ → ℕ → World db → Option (ProjectUser × AccessMap)
  get_project_user_context project_id user_id w =
      elim (db.find w.team.members (member_of db project_id user_id)) [
        | none ↦ none
        | some (i, m) ↦ some (m, get_access_map_for_project_user db m w.team)
      ]
