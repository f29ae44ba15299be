-- ===== src/Project/Crud.antt =====
-- Projects themselves, and their fields.
use rooeel_backend_api.Prelude.{
  ℕ, ◌==◌, String, Bool, true, false, Option, none, some, Action, ok, ◌>>=◌, ◌>>◌, pure, or_else,
  List,
}
use rooeel_backend_api.Prisma.{
  Engine, find_by_id_or_throw, find_first, find_many, create as insert, update as update_row,
}
use rooeel_backend_api.Schema.{Project, ProjectField, ProjectFieldValue, field_value_clash}
use rooeel_backend_api.World.{
  World, projects, fields, field_values, delete_project_team, delete_project_content,
}
use rooeel_backend_api.Project.Lookup.{found_project, referenced}

-- `CreateProjectInput`
pub record CreateProject : Type 0 where
  pub name : String
  pub description : Option String
  pub image : Option String

-- `UpdateProjectInput`: `some none` is `null`.
pub record UpdateProject : Type 0 where
  pub name : Option String
  pub description : Option (Option String)
  pub image : Option (Option String)

-- `CreateFieldInput`
pub record CreateField : Type 0 where
  pub name : String
  pub label : String
  pub field_type : String
  pub options : Option String
  pub required : Option Bool
  pub sort_order : Option ℕ

unfoldable pub apply_project : UpdateProject → Project → Project
apply_project dto p = record p {
  name = or_else dto.name p.name;
  description = or_else dto.description p.description;
  image = or_else dto.image p.image;
}

module _ (db : Engine) where
  -- The admin's row is there by the session.
  unfoldable pub create : ℕ → CreateProject → Action (World db) (ℕ × Project)
  create admin_id dto = insert db (projects db) none (record {
    name = dto.name;
    description = dto.description;
    image = dto.image;
    status = "active";
    created_by = admin_id;
  })

  -- The order of the answer, by `createdAt`, and what belongs to each project are left out.
  unfoldable pub find_all : Action (World db) (List (ℕ × Project))
  find_all = find_many db (projects db) (λ i p. true)

  unfoldable pub update : ℕ → UpdateProject → Action (World db) Project
  unfolding apply_project
  update id dto = do found_project db id; update_row db (projects db) none id (apply_project dto)

  -- With everything that the project holds.
  unfoldable pub remove : ℕ → Action (World db) Project
  unfolding delete_project_team delete_project_content
  remove id = do
    p ← found_project db id
    λ w. (
      ok p,
      record w {
        team = delete_project_team db (λ i. id == i) w.team;
        content = delete_project_content db (λ i. id == i) w.content;
      },
    )

  -- The order of the answer, by `sortOrder`, is left out.
  unfoldable pub get_fields : ℕ → Action (World db) (List (ℕ × ProjectField))
  get_fields project_id = find_many db (fields db) (λ i f. f.project_id == project_id)

  unfoldable pub create_field : ℕ → CreateField → Action (World db) (ℕ × ProjectField)
  create_field project_id dto = do
    referenced db (projects db) project_id
    insert db (fields db) none (record {
      project_id = project_id;
      name = dto.name;
      label = dto.label;
      field_type = dto.field_type;
      options = dto.options;
      required = or_else dto.required false;
      sort_order = or_else dto.sort_order 0;
    })

  -- The value of the field goes with it.
  unfoldable pub delete_field : ℕ → Action (World db) (Unit {0})
  delete_field field_id = do
    find_by_id_or_throw db (fields db) field_id
    λ w. (
      ok tt,
      record w {
        content = record w.content {
          fields = db.remove_where w.content.fields (λ i f. field_id == i);
          field_values = db.remove_where w.content.field_values (λ i v. v.field_id == field_id);
        };
      },
    )

  abbrev pub put_value :
      ProjectFieldValue → Option (ℕ × ProjectFieldValue) → Action (World db) ProjectFieldValue
  put_value v (some (id, old)) =
      update_row db (field_values db) field_value_clash id (λ q. record q { value = v.value })
  put_value v none = do
    referenced db (fields db) v.field_id
    referenced db (projects db) v.project_id
    made ← insert db (field_values db) field_value_clash v
    pure made.1

  -- The field is not checked to be one of the project.
  unfoldable pub set_field_value : ℕ → ℕ → String → Action (World db) ProjectFieldValue
  set_field_value project_id field_id value = do
    existing ← find_first db (field_values db) (λ i v. v.field_id == field_id)
    put_value (record { field_id = field_id; project_id = project_id; value = some value }) existing
