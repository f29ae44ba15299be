-- ===== src/Access/Map.antt =====
-- An access map: the flags of each resource, under its normalised name. The object of the source
-- is a list of entries in the order of insertion, in which no key stands twice.
use rooeel_backend_api.Prelude.{
  Bool, false, ◌||◌, Option, none, some, List, [], ◌∷◌, if◌then◌else◌, any, is_some,
}
use rooeel_backend_api.Text.{Text, codes, text_eq, trim, to_upper_case, is_empty}
use rooeel_backend_api.Schema.{Flags}

abbrev pub AccessMap : Type 0
AccessMap = List (Text × Flags)

-- The `action` of a check: which flag it asks for.
pub data Action : Type 0 where
  can_view can_create can_edit can_delete : Action

abbrev pub flag : Flags → Action → Bool
flag f can_view = f.can_view
flag f can_create = f.can_create
flag f can_edit = f.can_edit
flag f can_delete = f.can_delete

-- `accessMap[key]`
unfoldable pub entry : Text → AccessMap → Option Flags
entry key [] = none
entry key ((k, f) ∷ m) = if text_eq k key then some f else entry key m

-- `accessMap[key] = flags`
unfoldable pub put_entry : Text → Flags → AccessMap → AccessMap
put_entry key f [] = (key, f) ∷ []
put_entry key f ((k, g) ∷ m) = if text_eq k key then (k, f) ∷ m else (k, g) ∷ put_entry key f m

unfoldable pub normalize_resource : Text → Text
normalize_resource resource = to_upper_case (trim resource)

abbrev pub empty_access : Flags
empty_access = record { can_view = false; can_create = false; can_edit = false; can_delete = false }

-- An empty name is passed over.
unfoldable pub set_access : Text → Flags → AccessMap → AccessMap
unfolding put_entry
set_access resource f m =
    let key = normalize_resource resource in if is_empty key then m else put_entry key f m

abbrev pub join : Flags → Flags → Flags
join f g = record {
  can_view = f.can_view || g.can_view;
  can_create = f.can_create || g.can_create;
  can_edit = f.can_edit || g.can_edit;
  can_delete = f.can_delete || g.can_delete;
}

abbrev pub or_empty : Option Flags → Flags
or_empty none = empty_access
or_empty (some f) = f

unfoldable pub merge_access : Text → Flags → AccessMap → AccessMap
unfolding put_entry entry
merge_access resource f m =
    let key = normalize_resource resource in
    if is_empty key then m else put_entry key (join (or_empty (entry key m)) f) m

unfoldable pub can_access : AccessMap → Text → Action → Bool
unfolding entry
can_access m resource action = flag (or_empty (entry (normalize_resource resource) m)) action

unfoldable pub has_policy_for_any_resource : AccessMap → List Text → Bool
unfolding entry
has_policy_for_any_resource m resources =
    any (λ r. is_some (entry (normalize_resource r) m)) resources

unfoldable pub has_access_for_any_resource : AccessMap → List Text → Action → Bool
unfolding can_access
has_access_for_any_resource m resources action = any (λ r. can_access m r action) resources

-- A task is judged by the policy of its own resource where there is one, else by that of tasks.
unfoldable pub can_perform_task_resource_action : AccessMap → Text → Action → Bool
unfolding can_access has_policy_for_any_resource
can_perform_task_resource_action m resource action =
    let named = normalize_resource resource in
    let key = if is_empty named then codes "TASK" else named in
    if text_eq key (codes "TASK")
    then can_access m (codes "TASK") action
    else if has_policy_for_any_resource m (key ∷ [])
    then can_access m key action
    else can_access m (codes "TASK") action
