-- ===== src/World/Cascade.antt =====
-- The `onDelete` rules of src/prisma/schema.prisma: what else goes, or loses a reference, when a
-- row goes.
use rooeel_backend_api.Prelude.{ℕ, Bool, false, Option, none, some, ◌==◌, ◌||◌, is_id}
use rooeel_backend_api.Prisma.{Engine}
use rooeel_backend_api.Schema.{Task, SubTask, User, ProjectUser}
use rooeel_backend_api.World.State.{Accounts, Team, Content, World}

-- Whether a reference points into what is deleted.
abbrev pub refers : (ℕ → Bool) → Option ℕ → Bool
refers p none = false
refers p (some i) = p i

abbrev pub unassign_task : Task → Task
unassign_task t = record t { assigned_to = none }

abbrev pub unassign_subtask : SubTask → SubTask
unassign_subtask t = record t { assigned_to = none }

abbrev pub leave_department : ProjectUser → ProjectUser
leave_department m = record m { department_id = none }

abbrev pub lose_department_role : ProjectUser → ProjectUser
lose_department_role m = record m { department_role_id = none }

abbrev pub lose_role : ProjectUser → ProjectUser
lose_role m = record m { project_role_id = none }

abbrev pub undepartment_task : Task → Task
undepartment_task t = record t { department_id = none }

abbrev pub lose_creator : User → User
lose_creator u = record u { created_by = none }

module _ (db : Engine) where
  -- `DepartmentRole`: its policies go, its members lose it.
  unfoldable pub delete_department_roles : (ℕ → Bool) → Team db → Team db
  delete_department_roles gone w = record w {
    department_roles = db.remove_where w.department_roles (λ i r. gone i);
    policies = db.remove_where w.policies (λ i r. gone r.department_role_id);
    members = db.put_where w.members (λ i r. refers gone r.department_role_id) lose_department_role;
  }

  -- Whether the row that a foreign key names belongs to what is deleted.
  abbrev pub department_role_in : (ℕ → Bool) → Team db → ℕ → Bool
  department_role_in gone w i = elim (db.row w.department_roles i) [
    | none ↦ false
    | some r ↦ gone r.department_id
  ]

  -- `Department`: its roles and permissions go, its members lose it.
  unfoldable pub delete_departments : (ℕ → Bool) → Team db → Team db
  unfolding delete_department_roles
  delete_departments gone w =
      let w' = delete_department_roles (department_role_in gone w) w in
      record w' {
        departments = db.remove_where w'.departments (λ i r. gone i);
        permissions = db.remove_where w'.permissions (λ i r. refers gone r.department_id);
        members = db.put_where w'.members (λ i r. refers gone r.department_id) leave_department;
      }

  -- `Department`: its tasks lose it.
  unfoldable pub undepartment_tasks : (ℕ → Bool) → Content db → Content db
  undepartment_tasks gone c = record c {
    tasks = db.put_where c.tasks (λ i r. refers gone r.department_id) undepartment_task;
  }

  -- `ProjectRole`: its permissions go, its members lose it.
  unfoldable pub delete_roles : (ℕ → Bool) → Team db → Team db
  delete_roles gone w = record w {
    roles = db.remove_where w.roles (λ i r. gone i);
    permissions = db.remove_where w.permissions (λ i r. gone r.project_role_id);
    members = db.put_where w.members (λ i r. refers gone r.project_role_id) lose_role;
  }

  -- `Task`: its subtasks go.
  unfoldable pub delete_tasks : (ℕ → Bool) → Content db → Content db
  delete_tasks gone w = record w {
    tasks = db.remove_where w.tasks (λ i r. gone i);
    subtasks = db.remove_where w.subtasks (λ i r. gone r.task_id);
  }

  abbrev pub department_in : (ℕ → Bool) → Team db → ℕ → Bool
  department_in gone w i = elim (db.row w.departments i) [
    | none ↦ false
    | some r ↦ gone r.project_id
  ]

  abbrev pub role_in : (ℕ → Bool) → Team db → ℕ → Bool
  role_in gone w i = elim (db.row w.roles i) [ none ↦ false | some r ↦ gone r.project_id ]

  abbrev pub task_in : (ℕ → Bool) → Content db → ℕ → Bool
  task_in gone w i = elim (db.row w.tasks i) [ none ↦ false | some r ↦ gone r.project_id ]

  abbrev pub field_in : (ℕ → Bool) → Content db → ℕ → Bool
  field_in gone w i = elim (db.row w.fields i) [ none ↦ false | some r ↦ gone r.project_id ]

  -- `Project`: its departments, roles and members go.
  unfoldable pub delete_project_team : (ℕ → Bool) → Team db → Team db
  unfolding delete_departments delete_roles
  delete_project_team gone w =
      let w' = delete_roles (role_in gone w) (delete_departments (department_in gone w) w) in
      record w' { members = db.remove_where w'.members (λ i r. gone r.project_id) }

  -- `Project`: the row and everything that it holds go.
  unfoldable pub delete_project_content : (ℕ → Bool) → Content db → Content db
  unfolding delete_tasks
  delete_project_content gone w =
      let w' = delete_tasks (task_in gone w) w in
      record w' {
        projects = db.remove_where w'.projects (λ i r. gone i);
        work_orders = db.remove_where w'.work_orders (λ i r. gone r.project_id);
        fields = db.remove_where w'.fields (λ i r. gone r.project_id);
        field_values =
            db.remove_where w'.field_values
              (λ i r. gone r.project_id || field_in gone w r.field_id);
      }

  -- `User`: the row and their requests go.
  unfoldable pub delete_user_account : ℕ → Accounts db → Accounts db
  delete_user_account id a = record a {
    users = db.remove_where a.users (λ i r. id == i);
    requests = db.remove_where a.requests (λ i r. r.user_id == id);
  }

  -- `User`: their memberships go, their tasks and subtasks are unassigned.
  unfoldable pub delete_user_row : ℕ → World db → World db
  unfolding delete_user_account
  delete_user_row id w = record {
    accounts = delete_user_account id w.accounts;
    team = record w.team { members = db.remove_where w.team.members (λ i r. r.user_id == id) };
    content = record w.content {
      tasks = db.put_where w.content.tasks (λ i r. is_id r.assigned_to id) unassign_task;
      subtasks = db.put_where w.content.subtasks (λ i r. is_id r.assigned_to id) unassign_subtask;
    };
  }

  abbrev pub project_by : ℕ → Content db → ℕ → Bool
  project_by id w i = elim (db.row w.projects i) [ none ↦ false | some r ↦ r.created_by == id ]

  -- `Admin`: the row and their requests go, their users lose their creator.
  unfoldable pub delete_admin_account : ℕ → Accounts db → Accounts db
  delete_admin_account id a = record a {
    admins = db.remove_where a.admins (λ i r. id == i);
    requests = db.remove_where a.requests (λ i r. r.admin_id == id);
    users = db.put_where a.users (λ i r. is_id r.created_by id) lose_creator;
  }

  abbrev drop_work_orders : ℕ → Content db → Content db
  drop_work_orders id c = record c {
    work_orders = db.remove_where c.work_orders (λ i r. r.uploaded_by == id);
  }

  -- `Admin`: their projects and work orders go.
  unfoldable pub delete_admin_row : ℕ → World db → World db
  unfolding delete_admin_account delete_project_team delete_project_content
  delete_admin_row id w = record {
    accounts = delete_admin_account id w.accounts;
    team = delete_project_team (project_by id w.content) w.team;
    content = drop_work_orders id (delete_project_content (project_by id w.content) w.content);
  }
