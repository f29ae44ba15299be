-- ===== src/Access/Laws.antt =====
-- The laws of an access map.
use rooeel_backend_api.Prelude.{false, ◌||◌, ◌≡◌, refl, some, [], ◌∷◌, if◌then◌else◌, arith}
use rooeel_backend_api.Text.{
  Text, text_eq, text_eq_iff, trim, is_empty, trim-upper, trim_idem, to_upper_case_idem,
}
use rooeel_backend_api.Schema.{Flags}
use rooeel_backend_api.Access.Map.{
  AccessMap, Action, flag, entry, put_entry, normalize_resource, set_access, merge_access, or_empty,
  join, can_access,
}

entry-put_entry :
    (key j : Text) (f : Flags) (m : AccessMap)
    → entry j (put_entry key f m) ≡ (if text_eq key j then some f else entry j m)
unfolding entry put_entry
entry-put_entry key j f [] = refl
entry-put_entry key j f ((k, g) ∷ m) =
    ground (arith, text_eq_iff key j, text_eq_iff k key, text_eq_iff k j, entry-put_entry key j f m)

-- Normalising the name of a resource twice is normalising it once.
normalize_resource_idem :
    (r : Text) → normalize_resource (normalize_resource r) ≡ normalize_resource r
unfolding normalize_resource
normalize_resource_idem r =
    rw (trim-upper (trim r)) (rw (trim_idem r) (to_upper_case_idem (trim r)))

pub entry-set_access :
    (r : Text) (f : Flags) (j : Text) (m : AccessMap)
    → entry j (set_access r f m) ≡ (
        if is_empty (normalize_resource r)
        then entry j m
        else if text_eq (normalize_resource r) j
        then some f
        else entry j m)
unfolding set_access
entry-set_access r f j m = ground (arith, entry-put_entry (normalize_resource r) j f m)

pub entry-merge_access :
    (r : Text) (f : Flags) (j : Text) (m : AccessMap)
    → entry j (merge_access r f m) ≡ (
        if is_empty (normalize_resource r)
        then entry j m
        else if text_eq (normalize_resource r) j
        then some (join (or_empty (entry j m)) f)
        else entry j m)
unfolding merge_access
entry-merge_access r f j m = ground (
  arith,
  text_eq_iff (normalize_resource r) j,
  entry-put_entry (normalize_resource r) j (join (or_empty (entry (normalize_resource r) m)) f) m,
)

pub flag-join : (f g : Flags) (a : Action) → flag (join f g) a ≡ (flag f a || flag g a)
flag-join f g Action.can_view = refl
flag-join f g Action.can_create = refl
flag-join f g Action.can_edit = refl
flag-join f g Action.can_delete = refl

-- For a resource whose normalised name is not empty, merging flags into an access map adds them to
-- the access to that resource and leaves the access to every other as it was.
can_access-merge_access :
    (r : Text) (f : Flags) (j : Text) (a : Action) (m : AccessMap)
    → is_empty (normalize_resource r) ≡ false
    → can_access (merge_access r f m) j a ≡ (
        if text_eq (normalize_resource r) (normalize_resource j)
        then can_access m j a || flag f a
        else can_access m j a)
unfolding can_access
can_access-merge_access r f j a m h =
    rw (entry-merge_access r f (normalize_resource j) m)
      (ground (arith, flag-join (or_empty (entry (normalize_resource j) m)) f a))
