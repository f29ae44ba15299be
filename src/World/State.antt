-- ===== src/World/State.antt =====
-- The state, and where it holds each table. The handlers of accounts work on `Accounts` alone,
-- those of projects on the whole `World`.
use rooeel_backend_api.Prelude.{ℕ, String, List, Bool}
use rooeel_backend_api.Prisma.{Engine, Lens}
use rooeel_backend_api.Schema.{
  Admin, User, UserRequest, PasswordResetToken, RefreshToken, Project, WorkOrderPdf, ProjectField,
  ProjectFieldValue, Task, SubTask, Department, DepartmentRole, DepartmentRolePolicy, ProjectRole,
  Permission, ProjectUser,
}

-- A mail as `EmailService.sendPasswordResetEmail` is asked for it.
pub record Mail : Type 0 where
  pub to_email : String
  pub first_name : String
  pub secret : String
  pub is_link : Bool

-- `cache.set(blacklist:jti, true, ttl)`: the entry answers before `until`.
pub record Blacklisted : Type 0 where
  pub jti : String
  pub until : ℕ

module _ (db : Engine) where
  -- Accounts and their tokens and requests, with the cache and the mails that were sent.
  pub record Accounts : Type 0 where
    pub admins : db.Rows Admin
    pub users : db.Rows User
    pub requests : db.Rows UserRequest
    pub reset_tokens : db.Rows PasswordResetToken
    pub refresh_tokens : db.Rows RefreshToken
    pub blacklist : List Blacklisted
    pub outbox : List Mail

  -- Who belongs to a project, and what they may do there.
  pub record Team : Type 0 where
    pub departments : db.Rows Department
    pub department_roles : db.Rows DepartmentRole
    pub policies : db.Rows DepartmentRolePolicy
    pub roles : db.Rows ProjectRole
    pub permissions : db.Rows Permission
    pub members : db.Rows ProjectUser

  -- What a project holds.
  pub record Content : Type 0 where
    pub projects : db.Rows Project
    pub work_orders : db.Rows WorkOrderPdf
    pub fields : db.Rows ProjectField
    pub field_values : db.Rows ProjectFieldValue
    pub tasks : db.Rows Task
    pub subtasks : db.Rows SubTask

  pub record World : Type 0 where
    pub accounts : Accounts
    pub team : Team
    pub content : Content

  abbrev pub admins : Lens Accounts (db.Rows Admin)
  admins = record { get = λ w. w.admins; set = λ t w. record w { admins = t } }

  abbrev pub users : Lens Accounts (db.Rows User)
  users = record { get = λ w. w.users; set = λ t w. record w { users = t } }

  abbrev pub requests : Lens Accounts (db.Rows UserRequest)
  requests = record { get = λ w. w.requests; set = λ t w. record w { requests = t } }

  abbrev pub reset_tokens : Lens Accounts (db.Rows PasswordResetToken)
  reset_tokens = record { get = λ w. w.reset_tokens; set = λ t w. record w { reset_tokens = t } }

  abbrev pub refresh_tokens : Lens Accounts (db.Rows RefreshToken)
  refresh_tokens = record {
    get = λ w. w.refresh_tokens;
    set = λ t w. record w { refresh_tokens = t };
  }

  abbrev pub departments : Lens World (db.Rows Department)
  departments = record {
    get = λ w. w.team.departments;
    set = λ t w. record w { team = record w.team { departments = t } };
  }

  abbrev pub department_roles : Lens World (db.Rows DepartmentRole)
  department_roles = record {
    get = λ w. w.team.department_roles;
    set = λ t w. record w { team = record w.team { department_roles = t } };
  }

  abbrev pub policies : Lens World (db.Rows DepartmentRolePolicy)
  policies = record {
    get = λ w. w.team.policies;
    set = λ t w. record w { team = record w.team { policies = t } };
  }

  abbrev pub roles : Lens World (db.Rows ProjectRole)
  roles = record {
    get = λ w. w.team.roles;
    set = λ t w. record w { team = record w.team { roles = t } };
  }

  abbrev pub permissions : Lens World (db.Rows Permission)
  permissions = record {
    get = λ w. w.team.permissions;
    set = λ t w. record w { team = record w.team { permissions = t } };
  }

  abbrev pub members : Lens World (db.Rows ProjectUser)
  members = record {
    get = λ w. w.team.members;
    set = λ t w. record w { team = record w.team { members = t } };
  }

  abbrev pub projects : Lens World (db.Rows Project)
  projects = record {
    get = λ w. w.content.projects;
    set = λ t w. record w { content = record w.content { projects = t } };
  }

  abbrev pub work_orders : Lens World (db.Rows WorkOrderPdf)
  work_orders = record {
    get = λ w. w.content.work_orders;
    set = λ t w. record w { content = record w.content { work_orders = t } };
  }

  abbrev pub fields : Lens World (db.Rows ProjectField)
  fields = record {
    get = λ w. w.content.fields;
    set = λ t w. record w { content = record w.content { fields = t } };
  }

  abbrev pub field_values : Lens World (db.Rows ProjectFieldValue)
  field_values = record {
    get = λ w. w.content.field_values;
    set = λ t w. record w { content = record w.content { field_values = t } };
  }

  abbrev pub tasks : Lens World (db.Rows Task)
  tasks = record {
    get = λ w. w.content.tasks;
    set = λ t w. record w { content = record w.content { tasks = t } };
  }

  abbrev pub subtasks : Lens World (db.Rows SubTask)
  subtasks = record {
    get = λ w. w.content.subtasks;
    set = λ t w. record w { content = record w.content { subtasks = t } };
  }
