-- ===== src/Project/Tasks/Creator.antt =====
-- The creator and the resource of a new task, as the later checks read them.
use rooeel_backend_api.Prelude.{
  ℕ, ◌≡◌, refl, Option, none, some, false, arith, if◌then◌else◌, [], or_else, ◌∙◌,
}
use rooeel_backend_api.Text.{
  Text, codes, text_eq, text_eq_iff, text_eq_refl, trim_start, trim_end, is_space, cons_trimmed,
  lower, to_upper_case, trim,
}
use rooeel_backend_api.Schema.{Json, Fields, end, field, num}
use rooeel_backend_api.Json.{JsonHost, field_of, put_field, object_of, parse_json_like}
use rooeel_backend_api.Access.{normalize_resource}
use rooeel_backend_api.Project.Tasks.Resource.{
  creator_of_form, resource_of_form, resource_of_fields, resolve_task_resource, resource_of_schema,
  resource_of_kind, match_resource, resolve_task_creator_id,
}
use rooeel_backend_api.Project.Tasks.Handlers.{form_with_creator, with_creator}

field_of-put_field :
    (key j : Text) (v : Json) (fs : Fields)
    → field_of j (put_field key v fs) ≡ (if text_eq key j then some v else field_of j fs)
unfolding field_of put_field
field_of-put_field key j v end = refl
field_of-put_field key j v (field k u rest) =
    ground (
      arith,
      text_eq_iff key j,
      text_eq_iff k key,
      text_eq_iff k j,
      field_of-put_field key j v rest,
    )

-- The columns by which a form names its resource are not the one of its creator.
other_key :
    (id : ℕ) (j : Text) (fs : Fields)
    → text_eq (codes "createdBy") j ≡ false
    → field_of j (put_field (codes "createdBy") (num id) fs) ≡ field_of j fs
other_key id j fs apart = rw (field_of-put_field (codes "createdBy") j (num id) fs) (rw apart)

creator_key :
    (id : ℕ) (fs : Fields)
    → field_of (codes "createdBy") (put_field (codes "createdBy") (num id) fs) ≡ some (num id)
creator_key id fs =
    rw (field_of-put_field (codes "createdBy") (codes "createdBy") (num id) fs)
      (rw (text_eq_refl (codes "createdBy")))

module _ (host : JsonHost) (id : ℕ) where
  resource-put_field :
      (fs : Fields)
      → resource_of_fields host (put_field (codes "createdBy") (num id) fs)
        ≡ resource_of_fields host fs
  unfolding resource_of_fields text_eq
  resource-put_field fs = cc (
    other_key id (codes "resource") fs refl,
    other_key id (codes "resourceKey") fs refl,
    other_key id (codes "accessResource") fs refl,
  )

  no_resource : resource_of_fields host end ≡ []
  unfolding resource_of_fields field_of normalize_resource trim trim_start trim_end to_upper_case
  no_resource = refl

  creator_of_stored :
      (form : Option Fields) → creator_of_form host (some (form_with_creator id form)) ≡ some id
  creator_of_stored none = cc (creator_key id end, host.number_of-num id)
  creator_of_stored (some fs) = cc (creator_key id fs, host.number_of-num id)

  resource_of_stored :
      (form : Option Fields)
      → resource_of_fields host (form_with_creator id form) ≡ resource_of_form host form
  resource_of_stored none = resource-put_field end ∙ no_resource
  resource_of_stored (some fs) = resource-put_field fs

  -- Of the parsed form of a new task.
  pub creator-with_creator :
      (form : Option Json) → resolve_task_creator_id host (with_creator (some id) form) ≡ some id
  unfolding resolve_task_creator_id parse_json_like
  creator-with_creator form = creator_of_stored (object_of form)

  resource-with_creator :
      (schema : Option Json)
      → resource_of_schema host (with_creator (some id) (parse_json_like host schema))
        ≡ resource_of_schema host schema
  unfolding resource_of_schema parse_json_like
  resource-with_creator schema = resource_of_stored (object_of (parse_json_like host schema))

-- A task without a type is judged as one of the type `basic`.
kind_given :
    (kind : Option Text)
    → resource_of_kind (match_resource (trim (or_else (some (or_else kind (codes "basic"))) [])))
      ≡ resource_of_kind (match_resource (trim (or_else kind [])))
unfolding match_resource trim trim_start trim_end is_space cons_trimmed lower
kind_given none = refl
kind_given (some k) = refl

pub resource_of_created :
    (host : JsonHost) (id : ℕ) (kind : Option Text) (schema : Option Json)
    → resolve_task_resource host
        (some (or_else kind (codes "basic")))
        (with_creator (some id) (parse_json_like host schema))
      ≡ resolve_task_resource host kind schema
unfolding resolve_task_resource
resource_of_created host id kind schema = cc (resource-with_creator host id schema, kind_given kind)
