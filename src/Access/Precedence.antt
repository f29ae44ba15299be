-- ===== src/Access/Precedence.antt =====
-- The rule of what a member may do, said without an access map.
use rooeel_backend_api.Prelude.{
  ap, Bool, true, false, ◌&&◌, ◌||◌, ◌≡◌, refl, Option, none, some, List, [], ◌∷◌, if◌then◌else◌,
  arith, or_maybe, Option-cases, inl, inr,
}
use rooeel_backend_api.Text.{
  Text, text_eq, text_eq_iff, is_empty, to_upper_case, trim, trim_end, trim_start, is_space,
  cons_trimmed, upper,
}
use rooeel_backend_api.Schema.{Flags}
use rooeel_backend_api.Access.Resources.{default_user_view_resources, hardcoded_task_resources}
use rooeel_backend_api.Access.Map.{
  AccessMap, Action, can_view, can_create, can_edit, can_delete, flag, entry, normalize_resource,
  set_access, merge_access, or_empty, can_access, empty_access,
}
use rooeel_backend_api.Access.Effective.{
  Grant, view_only, set_all, set_missing, merge_all, grant_views, fill_missing, build_access_map,
}
use rooeel_backend_api.Access.Laws.{entry-set_access, entry-merge_access, flag-join}

abbrev pub is_about : Text → Grant → Bool
is_about key g = text_eq (normalize_resource g.0) key

abbrev pub flags_about : Text → Grant → Option Flags
flags_about key g = if is_about key g then some g.1 else none

-- The flags of the last grant that is about a resource, and of the first.
unfoldable pub last_about : Text → List Grant → Option Flags
last_about key [] = none
last_about key (g ∷ gs) = or_maybe (last_about key gs) (flags_about key g)

unfoldable pub first_about : Text → List Grant → Option Flags
first_about key [] = none
first_about key (g ∷ gs) = or_maybe (flags_about key g) (first_about key gs)

-- Whether some grant that is about a resource allows an action.
unfoldable pub any_allows : Text → Action → List Grant → Bool
any_allows key a [] = false
any_allows key a (g ∷ gs) = (is_about key g && flag g.1 a) || any_allows key a gs

unfoldable pub any_is : Text → List Text → Bool
any_is key [] = false
any_is key (r ∷ rs) = text_eq (normalize_resource r) key || any_is key rs

abbrev pub is_view : Action → Bool
is_view can_view = true
is_view can_create = false
is_view can_edit = false
is_view can_delete = false

-- The rule, by whether there are policies and permissions.
unfoldable pub is_granted : List Grant → List Grant → Text → Action → Bool
unfolding any_is any_allows last_about first_about
is_granted [] [] key a = any_is key default_user_view_resources && is_view a
is_granted [] (q ∷ qs) key a = any_allows key a (q ∷ qs)
is_granted (p ∷ ps) qs key a =
    flag (or_empty (or_maybe (last_about key (p ∷ ps)) (first_about key qs))) a

-- Each name is written as it is looked up.
abbrev pub all_normal : List Text → Bool
all_normal [] = true
all_normal (r ∷ rs) = text_eq (normalize_resource r) r && all_normal rs

hardcoded_normal : all_normal hardcoded_task_resources ≡ true
unfolding hardcoded_task_resources normalize_resource text_eq to_upper_case trim trim_end trim_start
    is_space cons_trimmed upper
hardcoded_normal = refl

flag-empty : (a : Action) → flag empty_access a ≡ false
flag-empty can_view = refl
flag-empty can_create = refl
flag-empty can_edit = refl
flag-empty can_delete = refl

or_maybe-none : (o : Option Flags) → or_maybe o none ≡ o
or_maybe-none none = refl
or_maybe-none (some f) = refl

module _ (key : Text) (named : is_empty key ≡ false) where
  not_about_nothing :
      (r : Text)
      → is_empty (normalize_resource r) ≡ true
      → text_eq (normalize_resource r) key ≡ false
  not_about_nothing r h = elim_empty (normalize_resource r) key h named
    where
      elim_empty : (s k : Text) → is_empty s ≡ true → is_empty k ≡ false → text_eq s k ≡ false
      elim_empty s k h n = ground (arith, text_eq_iff s k)

  entry-set_all :
      (gs : List Grant) (m : AccessMap)
      → entry key (set_all gs m) ≡ or_maybe (last_about key gs) (entry key m)
  unfolding set_all last_about
  entry-set_all [] m = refl
  entry-set_all ((r, f) ∷ gs) m =
      ground (
        arith,
        entry-set_all gs (set_access r f m),
        entry-set_access r f key m,
        not_about_nothing r,
      )

  entry-set_missing :
      (gs : List Grant) (m : AccessMap)
      → entry key (set_missing gs m) ≡ or_maybe (entry key m) (first_about key gs)
  unfolding set_missing first_about
  entry-set_missing [] m = ground arith
  entry-set_missing ((r, f) ∷ gs) m = elim (Option-cases (entry (normalize_resource r) m)) [
    | inl fresh ↦ ground (
      arith,
      entry-set_missing gs (set_access r f m),
      entry-set_access r f key m,
      not_about_nothing r,
      text_eq_iff (normalize_resource r) key,
    )
    | inr (g, old) ↦ ground (arith, entry-set_missing gs m, text_eq_iff (normalize_resource r) key)
  ]

  flag-merge_access :
      (r : Text) (f : Flags) (a : Action) (m : AccessMap)
      → flag (or_empty (entry key (merge_access r f m))) a
        ≡ (flag (or_empty (entry key m)) a || (text_eq (normalize_resource r) key && flag f a))
  flag-merge_access r f a m =
      rw (entry-merge_access r f key m)
        (ground (arith, not_about_nothing r, flag-join (or_empty (entry key m)) f a))

  flag-merge_all :
      (gs : List Grant) (a : Action) (m : AccessMap)
      → flag (or_empty (entry key (merge_all gs m))) a
        ≡ (flag (or_empty (entry key m)) a || any_allows key a gs)
  unfolding merge_all any_allows
  flag-merge_all [] a m = ground arith
  flag-merge_all ((r, f) ∷ gs) a m =
      ground (arith, flag-merge_all gs a (merge_access r f m), flag-merge_access r f a m)

  flag-grant_views :
      (rs : List Text) (a : Action) (m : AccessMap)
      → flag (or_empty (entry key (grant_views rs m))) a
        ≡ (flag (or_empty (entry key m)) a || (any_is key rs && is_view a))
  unfolding grant_views any_is
  flag-grant_views [] a m = ground arith
  flag-grant_views (r ∷ rs) a m =
      ground (
        arith,
        flag-grant_views rs a (merge_access r view_only m),
        flag-merge_access r view_only a m,
      )

  flag-fill_missing :
      (rs : List Text) (a : Action) (m : AccessMap)
      → all_normal rs ≡ true
      → flag (or_empty (entry key (fill_missing rs m))) a ≡ flag (or_empty (entry key m)) a
  unfolding fill_missing
  flag-fill_missing [] a m h = refl
  flag-fill_missing (r ∷ rs) a m h = elim (Option-cases (entry r m)) [
    | inl fresh ↦ ground (
      arith,
      flag-fill_missing rs a (set_access r empty_access m),
      entry-set_access r empty_access key m,
      not_about_nothing r,
      text_eq_iff (normalize_resource r) r,
      text_eq_iff (normalize_resource r) key,
      flag-empty a,
    )
    | inr (g, old) ↦ ground (arith, flag-fill_missing rs a m)
  ]

  flag-build_access_map :
      (ps qs : List Grant) (a : Action)
      → flag (or_empty (entry key (build_access_map ps qs))) a ≡ is_granted ps qs key a
  unfolding build_access_map is_granted
  flag-build_access_map [] [] a =
      rw
        (flag-fill_missing hardcoded_task_resources a (grant_views default_user_view_resources [])
          hardcoded_normal)
        (rw (flag-grant_views default_user_view_resources a []) (ground (arith, flag-empty a)))
  flag-build_access_map [] (q ∷ qs) a =
      rw (flag-fill_missing hardcoded_task_resources a (merge_all (q ∷ qs) []) hardcoded_normal)
        (rw (flag-merge_all (q ∷ qs) a []) (ground (arith, flag-empty a)))
  flag-build_access_map (p ∷ ps) qs a =
      rw
        (flag-fill_missing hardcoded_task_resources a (set_missing qs (set_all (p ∷ ps) []))
          hardcoded_normal)
        (rw (entry-set_missing qs (set_all (p ∷ ps) [])) (
          rw (entry-set_all (p ∷ ps) []) (
            ap (λ o. flag (or_empty (or_maybe o (first_about key qs))) a)
              (or_maybe-none (last_about key (p ∷ ps))))))

-- For a resource whose normalised name is not empty, the access map that is built from the
-- policies of a department role and the permissions of a project role allows an action exactly
-- where this rule does: the last policy about the resource decides, and where no policy is about
-- it the first permission that is, if the role has policies; any permission about it that allows
-- the action, if there are only permissions; without either, viewing a default resource.
pub can_access-build_access_map :
    (ps qs : List Grant) (r : Text) (a : Action)
    → is_empty (normalize_resource r) ≡ false
    → can_access (build_access_map ps qs) r a ≡ is_granted ps qs (normalize_resource r) a
unfolding can_access
can_access-build_access_map ps qs r a h = flag-build_access_map (normalize_resource r) h ps qs a
