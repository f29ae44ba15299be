-- ===== src/Access/Policy.antt =====
-- Which resources a policy may be about, and which flags it can carry.
use rooeel_backend_api.Prelude.{
  Bool, false, ◌||◌, Option, none, some, List, [], ◌∷◌, if◌then◌else◌, or_else,
}
use rooeel_backend_api.Text.{Text, text_eq, includes}
use rooeel_backend_api.Schema.{Flags}
use rooeel_backend_api.Access.Resources.{
  aliases, hardcoded_task_resources, hardcoded_view_only_resources,
}
use rooeel_backend_api.Access.Map.{normalize_resource}

unfoldable pub alias_of : List (Text × Text) → Text → Option Text
alias_of [] name = none
alias_of ((from, to) ∷ rest) name = if text_eq from name then some to else alias_of rest name

-- `aliases[normalized] || normalized`
unfoldable pub normalize_policy_resource : Text → Text
unfolding alias_of aliases normalize_resource
normalize_policy_resource resource =
    let normalized = normalize_resource resource in or_else (alias_of aliases normalized) normalized

unfoldable pub is_hardcoded_task_resource : Text → Bool
is_hardcoded_task_resource r = includes hardcoded_task_resources (normalize_resource r)

unfoldable pub is_hardcoded_view_only_resource : Text → Bool
is_hardcoded_view_only_resource r = includes hardcoded_view_only_resources (normalize_resource r)

unfoldable pub build_policy_flags : Text → Flags → Flags
build_policy_flags resource f =
    if is_hardcoded_view_only_resource resource
    then record { can_view = f.can_view; can_create = false; can_edit = false; can_delete = false }
    else if is_hardcoded_task_resource resource
    then record f { can_view = f.can_view || f.can_create || f.can_edit || f.can_delete }
    else f
