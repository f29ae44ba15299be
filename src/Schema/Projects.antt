-- ===== src/Schema/Projects.antt =====
-- The models of projects: members, departments, roles, permissions, fields and files.
use rooeel_backend_api.Prelude.{ℕ, String, Bool, Option, none, some, ◌&&◌, false, ◌==◌, is_id}
use rooeel_backend_api.Text.{Text, text_eq}

-- The four columns of a permission or a policy.
pub record Flags : Type 0 where
  pub can_view : Bool
  pub can_create : Bool
  pub can_edit : Bool
  pub can_delete : Bool

pub record Project : Type 0 where
  pub name : String
  pub description : Option String
  pub image : Option String
  pub status : String
  pub created_by : ℕ

pub record WorkOrderPdf : Type 0 where
  pub project_id : ℕ
  pub file_key : Text
  pub file_name : Text
  pub uploaded_by : ℕ

pub record ProjectField : Type 0 where
  pub project_id : ℕ
  pub name : String
  pub label : String
  pub field_type : String
  pub options : Option String
  pub required : Bool
  pub sort_order : ℕ

pub record ProjectFieldValue : Type 0 where
  pub field_id : ℕ
  pub project_id : ℕ
  pub value : Option String

pub record Department : Type 0 where
  pub project_id : ℕ
  pub name : Text

pub record DepartmentRole : Type 0 where
  pub department_id : ℕ
  pub name : Text

pub record DepartmentRolePolicy : Type 0 where
  pub department_role_id : ℕ
  pub resource : Text
  pub flags : Flags

pub record ProjectRole : Type 0 where
  pub project_id : ℕ
  pub name : Text

pub record Permission : Type 0 where
  pub project_role_id : ℕ
  pub department_id : Option ℕ
  pub resource : Text
  pub flags : Flags

pub record ProjectUser : Type 0 where
  pub project_id : ℕ
  pub user_id : ℕ
  pub project_role_id : Option ℕ
  pub department_id : Option ℕ
  pub department_role_id : Option ℕ

-- The `@@unique` groups of columns. `null` differs from `null` in a group.
abbrev pub project_role_clash : Option (ProjectRole → ProjectRole → Bool)
project_role_clash = some λ a b. a.project_id == b.project_id && text_eq a.name b.name

abbrev pub department_role_clash : Option (DepartmentRole → DepartmentRole → Bool)
department_role_clash = some λ a b. a.department_id == b.department_id && text_eq a.name b.name

abbrev pub policy_clash : Option (DepartmentRolePolicy → DepartmentRolePolicy → Bool)
policy_clash =
    some λ a b. a.department_role_id == b.department_role_id && text_eq a.resource b.resource

abbrev pub both_same : Option ℕ → Option ℕ → Bool
both_same none b = false
both_same (some a) b = is_id b a

abbrev pub permission_clash : Option (Permission → Permission → Bool)
permission_clash = some λ a b.
    a.project_role_id == b.project_role_id
    && both_same a.department_id b.department_id
    && text_eq a.resource b.resource

abbrev pub project_user_clash : Option (ProjectUser → ProjectUser → Bool)
project_user_clash = some λ a b. a.project_id == b.project_id && a.user_id == b.user_id

abbrev pub field_value_clash : Option (ProjectFieldValue → ProjectFieldValue → Bool)
field_value_clash = some λ a b. a.field_id == b.field_id
